-- ===== src/SysInfo/CacheInfo/Print.antt =====
-- cache_info_print of src/sys_info.c: the stream that it writes to, and the text.
use cache_noise_visualizer.Base.{ℕ, [], ◌∷◌, ◌++◌, Option, none, some}
use cache_noise_visualizer.Base.Int.{signed32}
use cache_noise_visualizer.Base.Text.{Bytes, codes}
use cache_noise_visualizer.SysInfo.Text.{show_int}
use cache_noise_visualizer.SysInfo.CacheInfo.{
  CacheType, data_cache, instruction, unified, unknown, CacheInfo,
}

pub data Stream : Type 0 where
  stdout stderr : Stream

abbrev pub type_name : CacheType → Bytes
type_name data_cache = codes "DATA"
type_name instruction = codes "INSTRUCTION"
type_name unified = codes "UNIFIED"
type_name unknown = codes "UNKNOWN"

-- `%d` of a uint32_t
abbrev pub show_field : ℕ → Bytes
show_field n = show_int (signed32 n)

unfoldable pub cache_info_print : Option CacheInfo → Stream × Bytes
cache_info_print none = (stderr, codes "Could not print cache info -> Pointer == NULL")
cache_info_print (some info) = (
  stdout,
  codes "L"
      ++ (show_field info.level
          ++ (codes " CACHE (has index "
              ++ (show_field info.cache_id
                  ++ (codes ") on CPU "
                      ++ (show_field info.cpu_id
                          ++ (codes ": "
                              ++ 10
                                ∷ (codes "  LINE SIZE: "
                                    ++ (show_field info.line_size
                                        ++ 10
                                          ∷ (codes "  TOTAL SIZE: "
                                              ++ (show_field info.total_size
                                                  ++ 10
                                                    ∷ (codes "  SET COUNT: "
                                                        ++ (show_field info.set_count
                                                            ++ 10
                                                            ∷ (codes "  ASSOCIATIVITY COUNT: "
                                                            ++ (show_field
                                                            info.ways_of_associativity
                                                            ++ 10
                                                            ∷ (codes "  TYPE: "
                                                            ++ (type_name info.type
                                                            ++ 10 ∷ [])))))))))))))))),
)
