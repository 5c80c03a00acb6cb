-- ===== src/SysInfo/Pagemap/Translate.antt =====
-- get_physical_address: the page shift, and the address of a frame.
use native.Mathlib.Nat.{pow-suc, pow-le-pow_right, mod-lt}
use cache_noise_visualizer.Base.{
  ℕ, zero, suc, ◌+◌, ◌*◌, ◌/◌, ◌%◌, ◌^◌, ◌≤◌, ◌<◌, ◌≡◌, ◌≢◌, ◌↔◌, ap, ◌∙◌, true, some, ltb, arith,
  lt→ltb, le→ltb, ltb→lt, Bool-cases, inl, inr,
}
use cache_noise_visualizer.Base.Words.{u64}
use cache_noise_visualizer.Result.{ok, err}
use cache_noise_visualizer.Errors.{ErrorCode, error_sysconf}
use cache_noise_visualizer.Result.Pure.{>>=-ne-err}
use cache_noise_visualizer.SysInfo.Files.{Files}
use cache_noise_visualizer.SysInfo.Pagemap.{
  PagemapEntry, pagemap_entry_of, page_shift_loop, pagemap_entry_from, frame_address,
  get_physical_address,
}

half_pow : (k : ℕ) → 2 ^ suc k / 2 ≡ 2 ^ k
half_pow k = omega (arith, pow-suc 2 k)

one_lt_pow : (k : ℕ) → 1 < 2 ^ suc k
one_lt_pow zero = omega arith
one_lt_pow (suc k) = omega (arith, pow-suc 2 (suc k), one_lt_pow k)

-- The loop counts the exponent of a power of two, and ends within its fuel.
pub page_shift_loop-pow :
    (k fuel shift : ℕ) → k < fuel → page_shift_loop fuel (2 ^ k) shift ≡ ok (shift + k)
unfolding page_shift_loop
page_shift_loop-pow k zero shift h = absurd (omega arith)
page_shift_loop-pow zero (suc fuel) shift h = ap ok (omega arith)
page_shift_loop-pow (suc k) (suc fuel) shift h =
    rw
      (
        lt→ltb 1 (2 ^ suc k) (one_lt_pow k),
        half_pow k,
        page_shift_loop-pow k fuel (shift + 1) (omega arith),
      )
      (ap ok (omega arith))

-- For any number below 2 ^ fuel the loop ends, with the exponent of the largest power of two that is
-- at most the number (the exponent 0 for the number 0).
pub page_shift_loop-total :
    (fuel n shift : ℕ)
    → 0 < n
    → n < 2 ^ fuel
    → (s : ℕ) × (page_shift_loop fuel n shift ≡ ok (shift + s)) × (2 ^ s ≤ n) × (n < 2 ^ suc s)
unfolding page_shift_loop
page_shift_loop-total zero n shift h k = absurd (omega arith)
page_shift_loop-total (suc fuel) n shift h k = elim (Bool-cases (ltb 1 n)) [
  | inl more ↦
      let p = ltb→lt 1 n more in
      let (s, run, low, high) =
        page_shift_loop-total fuel (n / 2) (shift + 1) (omega arith)
          (omega (arith, pow-suc 2 fuel)) in
      (
        suc s,
        rw (more, run) (ap ok (omega arith)),
        omega (arith, pow-suc 2 s),
        omega (arith, pow-suc 2 (suc s)),
      )
  | inr stop ↦ (0, rw stop (ap ok (omega arith)), omega arith, ground arith)
]

eight-le-pow : (k : ℕ) → 3 ≤ k → 8 ≤ 2 ^ k
eight-le-pow k h = pow-le-pow_right {n = 2} (omega arith) {i = 3} h

scaled_quotient-le : (a d : ℕ) → 8 ≤ d → a / d * 8 ≤ a
scaled_quotient-le a d h = grind arith

entry_offset_fits : (k addr : ℕ) → 3 ≤ k → addr < 2 ^ 64 → u64 (addr / 2 ^ k * 8) ≡ addr / 2 ^ k * 8
entry_offset_fits k addr h lt = omega (arith, scaled_quotient-le addr (2 ^ k) (eight-le-pow k h))

wrapped_sum : (a b : ℕ) → a < 2 ^ 54 → b < 2 ^ 54 → u64 (a % 2 ^ 54 + b) ≡ a + b
wrapped_sum a b h k = omega arith

offset_fits : (k addr : ℕ) → k < 54 → addr % 2 ^ k < 2 ^ 54
offset_fits k addr h =
    let some_page : 0 < 2 ^ k =
      omega (arith, pow-le-pow_right {n = 2} (omega arith) {i = 0} {j = k} (omega arith)) in
    let bound : 2 ^ k ≤ 2 ^ 54 =
      pow-le-pow_right {n = 2} (omega arith) {i = k} {j = 54} (omega arith) in
    omega (arith, mod-lt addr some_page, bound)

shift_of_page : (k : ℕ) → k < 64 → page_shift_loop 65 (2 ^ k) 0 ≡ ok k
shift_of_page k h = page_shift_loop-pow k 65 0 (omega arith) ∙ ap ok (omega arith)

page_shift_loop-ne-err : (fuel n shift : ℕ) (e : ErrorCode) → page_shift_loop fuel n shift ≢ err e
unfolding page_shift_loop
page_shift_loop-ne-err zero n shift e = λ h. cc
page_shift_loop-ne-err (suc fuel) n shift e =
    ground (arith, page_shift_loop-ne-err fuel (n / 2) (shift + 1) e)

frame_address-ne-sysconf :
    (entry : PagemapEntry) (shift page_size addr : ℕ)
    → frame_address entry shift page_size addr ≢ err error_sysconf
frame_address-ne-sysconf entry shift page_size addr = ground arith

module _ {W : Type 0} (files : Files W) where
  -- With pages of 2 ^ k bytes, where k is from 3 to 53, if the pagemap word of the page of `addr` can be read and says that the
  -- page is present, the physical address is the frame's address plus the offset in the page, as long
  -- as the frame's address fits the 54 bits of the field that holds the frame number.
  pub get_physical_address-present :
      (k addr word : ℕ) (w : W)
      → files.page_size w ≡ 2 ^ k
      → 3 ≤ k
      → k < 54
      → addr < 2 ^ 64
      → files.pagemap_open w ≡ true
      → files.pagemap_seek (addr / 2 ^ k * 8) w ≡ true
      → files.pagemap_word (addr / 2 ^ k * 8) w ≡ some word
      → (pagemap_entry_of word).present ≡ 1
      → (pagemap_entry_of word).page_frame_number * 2 ^ k < 2 ^ 54
      → get_physical_address files addr w
        ≡ ok ((pagemap_entry_of word).page_frame_number * 2 ^ k + addr % 2 ^ k)
  unfolding get_physical_address pagemap_entry_from
  get_physical_address-present k addr word w size low high fits opened sought read present room =
      rw
        (
          size,
          le→ltb (2 ^ k) 1 (omega (arith, eight-le-pow k low)),
          shift_of_page k (omega arith),
          lt→ltb k 54 high,
          entry_offset_fits k addr low fits,
          opened,
          sought,
          read,
          present,
        )
        (ap ok (wrapped_sum (word % 2 ^ 54 * 2 ^ k) (addr % 2 ^ k) room (offset_fits k addr high)))

  pagemap_entry_from-ne-sysconf :
      (offset : ℕ) (w : W) → pagemap_entry_from files offset w ≢ err error_sysconf
  unfolding pagemap_entry_from
  pagemap_entry_from-ne-sysconf offset w = ground arith

  -- ERROR_SYSCONF is returned exactly for a page size of 0; so never when sysconf fails, since its
  -- answer -1 is a large number as a uint64_t.
  pub get_physical_address-sysconf :
      (addr : ℕ) (w : W)
      → (get_physical_address files addr w ≡ err error_sysconf) ↔ (files.page_size w ≡ 0)
  unfolding get_physical_address
  get_physical_address-sysconf addr w = (only_zero, λ e. rw e)
    where
      only_zero : get_physical_address files addr w ≡ err error_sysconf → files.page_size w ≡ 0
      only_zero h = elim (Bool-cases (ltb (files.page_size w) 1)) [
        | inl zero_size ↦ ground arith
        | inr some_size ↦ absurd (
            >>=-ne-err error_sysconf _ _
              (page_shift_loop-ne-err 65 (files.page_size w) 0 error_sysconf)
              (λ shift.
                >>=-ne-err error_sysconf _ _ (pagemap_entry_from-ne-sysconf _ w)
                  (λ entry. frame_address-ne-sysconf entry shift (files.page_size w) addr))
              (rw some_size at h))
      ]
