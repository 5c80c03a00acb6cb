-- ===== src/SysInfo/Pagemap/Fields.antt =====
-- The bits of a pagemap word.
use cache_noise_visualizer.Base.{ℕ, ◌+◌, ◌*◌, ◌^◌, ◌<◌, ◌≡◌, arith}
use cache_noise_visualizer.SysInfo.Pagemap.{PagemapEntry, pagemap_entry_of}

-- Each field fits its bit-field.
pub record FieldsFit (e : PagemapEntry) : Type 0 where
  pub frame_fits : e.page_frame_number < 2 ^ 54
  pub soft_dirty_fits : e.soft_dirty < 2
  pub file_page_fits : e.file_page < 2
  pub swapped_fits : e.swapped < 2
  pub present_fits : e.present < 2

-- The layout that the code reads: frame number in bits 0 to 53, flags in bits 54, 61, 62 and 63;
-- `spare` are bits 55 to 60.
abbrev pub word_of : PagemapEntry → ℕ → ℕ
word_of e spare =
    e.page_frame_number
    + e.soft_dirty * 2 ^ 54
    + spare * 2 ^ 55
    + e.file_page * 2 ^ 61
    + e.swapped * 2 ^ 62
    + e.present * 2 ^ 63

-- pagemap_entry_from reads back every field of a word in that layout, whatever the spare bits are.
pub entry_of-word_of :
    (e : PagemapEntry) (spare : ℕ)
    → FieldsFit e
    → spare < 2 ^ 6
    → pagemap_entry_of (word_of e spare) ≡ e
unfolding pagemap_entry_of
entry_of-word_of e spare f h = ground arith

-- The layout of the kernel's documentation: frame number in bits 0 to 54 and the soft-dirty flag in
-- bit 55.
abbrev pub kernel_word : PagemapEntry → ℕ
kernel_word e =
    e.page_frame_number
    + e.soft_dirty * 2 ^ 55
    + e.file_page * 2 ^ 61
    + e.swapped * 2 ^ 62
    + e.present * 2 ^ 63

-- For a word in the kernel's layout whose frame number fits 54 bits, the frame number and the flags
-- for file pages, swap and presence are read right, but the soft-dirty flag is always read as clear.
pub entry_of-kernel_word :
    (e : PagemapEntry)
    → FieldsFit e
    → pagemap_entry_of (kernel_word e) ≡ record e { soft_dirty = 0 }
unfolding pagemap_entry_of
entry_of-kernel_word e f = ground arith
