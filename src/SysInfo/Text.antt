-- ===== src/SysInfo/Text.antt =====
-- str_starts_with of src/sys_info.c, and the paths that the program prints.
use cache_noise_visualizer.Base.{
  ℕ, zero, suc, ◌+◌, ◌-◌, ◌^◌, ◌≤◌, ◌<◌, ◌≡◌, refl, ◌↔◌, Bool, true, false, ◌&&◌, [], ◌∷◌, ◌++◌,
  ◌==◌, ltb, if◌then◌else◌, arith, length, length-append, Bool-cases, inl, inr, ==_iff,
}
use cache_noise_visualizer.Base.Int.{ℤ, pos, negsuc, signed32}
use cache_noise_visualizer.Base.Text.{Bytes, codes}
use cache_noise_visualizer.Base.Text.Decimal.{decimal, length-decimal}

-- strncmp(pre, str, n) == 0 for texts of `n` bytes at least.
unfoldable pub same_prefix : ℕ → Bytes → Bytes → Bool
same_prefix zero pre str = true
same_prefix (suc n) [] [] = true
same_prefix (suc n) [] (c ∷ cs) = false
same_prefix (suc n) (p ∷ pre) [] = false
same_prefix (suc n) (p ∷ pre) (c ∷ cs) = (p == c) && same_prefix n pre cs

unfoldable pub str_starts_with : Bytes → Bytes → Bool
unfolding same_prefix
str_starts_with pre str =
    if ltb (length str) (length pre) then false else same_prefix (length pre) pre str

-- printf("%d") of a 32-bit pattern.
abbrev pub show_int : ℤ → Bytes
show_int (pos n) = decimal n
show_int (negsuc n) = b'-' ∷ decimal (suc n)

-- "/sys/devices/system/cpu/cpu%d/cache/"
unfoldable pub cpu_cache_path : ℕ → Bytes
cpu_cache_path cpu =
    codes "/sys/devices/system/cpu/cpu" ++ (show_int (signed32 cpu) ++ codes "/cache/")

-- "/sys/devices/system/cpu/cpu%d/cache/index%d/"
unfoldable pub cache_index_path : ℕ → ℕ → Bytes
cache_index_path cpu cache =
    codes "/sys/devices/system/cpu/cpu"
    ++ (show_int (signed32 cpu)
        ++ (codes "/cache/index" ++ (show_int (signed32 cache) ++ codes "/")))

same_prefix-append : (pre rest : Bytes) → same_prefix (length pre) pre (pre ++ rest) ≡ true
unfolding same_prefix
same_prefix-append [] rest = refl
same_prefix-append (p ∷ pre) rest = ground (arith, same_prefix-append pre rest)

same_prefix-split :
    (pre str : Bytes)
    → length pre ≤ length str
    → same_prefix (length pre) pre str ≡ true
    → (rest : Bytes) × (str ≡ pre ++ rest)
unfolding same_prefix
same_prefix-split [] str h e = (str, refl)
same_prefix-split (p ∷ pre) [] h e = absurd (omega arith)
same_prefix-split (p ∷ pre) (c ∷ cs) h e =
    let (rest, q) = same_prefix-split pre cs (omega arith) (ground arith) in
    (rest, ground (arith, ==_iff p c))

-- str_starts_with says yes exactly when the text is the prefix followed by some rest.
pub str_starts_with_iff :
    (pre str : Bytes) → (str_starts_with pre str ≡ true) ↔ ((rest : Bytes) × (str ≡ pre ++ rest))
unfolding str_starts_with
str_starts_with_iff pre str = (
  (λ e. same_prefix-split pre str (ground arith) (ground arith)),
  λ (rest, e). rw e (ground (arith, same_prefix-append pre rest, length-append pre rest)),
)

length-show_int : (w : ℕ) → w < 2 ^ 32 → length (show_int (signed32 w)) ≤ 11
length-show_int w h = elim (Bool-cases (ltb w (2 ^ 31))) [
  | inl small ↦ rw small (omega (arith, length-decimal 9 w (ground arith)))
  | inr large ↦ rw large (omega (arith, length-decimal 9 (suc (2 ^ 32 - w - 1)) (ground arith)))
]

length-show_byte : (w : ℕ) → w < 2 ^ 8 → length (show_int (signed32 w)) ≤ 3
length-show_byte w h =
    let small : ltb w (2 ^ 31) ≡ true = ground arith in rw small (length-decimal 2 w (omega arith))

-- The path that cache_info_fill prints fits cpu_path[60] with its final zero, for every CPU number
-- that cache_info_new can pass (a uint8_t) and every cache index.
pub cache_index_path-fits :
    (cpu cache : ℕ) → cpu < 2 ^ 8 → cache < 2 ^ 32 → length (cache_index_path cpu cache) + 1 ≤ 60
unfolding cache_index_path
cache_index_path-fits cpu cache h k = omega (
  arith,
  length-append (show_int (signed32 cpu))
      (codes "/cache/index" ++ (show_int (signed32 cache) ++ codes "/")),
  length-append (show_int (signed32 cache)) (codes "/"),
  length-show_byte cpu h,
  length-show_int cache k,
)
