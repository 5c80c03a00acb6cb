-- ===== src/Alloc/Alignment.antt =====
-- A successful test_alignment, and the physical lines of the whole buffer.
use native.Mathlib.Decide.{dec_lt}
use native.Mathlib.Nat.{
  zero-mul, mod-add-mod, mod-eq_of_lt, mod-lt, mod-zero, div-add-mod, add-mul-mod_self_left,
  mul-div_left, div-eq_of_eq-mul_left, div-add-mod', div-le_self,
}
use cache_noise_visualizer.Base.{
  ℕ, zero, suc, ◌+◌, ◌*◌, ◌/◌, ◌%◌, ◌^◌, ◌≤◌, ◌<◌, ◌≡◌, inl, inr, sym, ap, subst, ◌∙◌, true, false,
  ltb, ◌==◌, arith, Bool-cases, Option-cases, ltb→lt, scaled_lt, positive_product, lt_of_scaled,
  mul_rotate,
}
use cache_noise_visualizer.Base.Words.{u64}
use cache_noise_visualizer.Result.{Result-cases, ok, done}
use cache_noise_visualizer.Result.Sys.{and_then-done}
use cache_noise_visualizer.SysInfo.Files.{Files}
use cache_noise_visualizer.SysInfo.CacheInfo.{CacheInfo}
use cache_noise_visualizer.SysInfo.Pagemap.{get_physical_address}
use cache_noise_visualizer.Memory.{Memory}
use cache_noise_visualizer.Alloc.{align_loop, test_alignment, check_line}

-- How huge pages behave: the physical address grows with the virtual one within a page of the
-- buffer, and every page of the buffer starts at a multiple of the page size.
pub record IsHugeMapping (phys : ℕ → ℕ) (buffer page_size : ℕ) : Type 0 where
  pub contiguous :
      (i r : ℕ)
      → r < page_size
      → phys (buffer + (i * page_size + r)) ≡ phys (buffer + i * page_size) + r
  pub frame : (i : ℕ) → (q : ℕ) × (phys (buffer + i * page_size) ≡ q * page_size)

regroup_multiple :
    (m line lines q r : ℕ) → lines * q + r ≡ m → m * line ≡ r * line + lines * line * q
regroup_multiple m line lines q r e = grind arith

mul-mod-mul_right : (line m lines : ℕ) → 0 < line → m * line % (lines * line) ≡ m % lines * line
mul-mod-mul_right line m zero pos = rw (zero-mul line, mod-zero m, mod-zero (m * line))
mul-mod-mul_right line m (suc n) pos =
    ap (λ (t : ℕ). t % (suc n * line))
      (regroup_multiple m line (suc n) (m / suc n) (m % suc n) (div-add-mod m (suc n)))
    ∙ add-mul-mod_self_left (m % suc n * line) (suc n * line) (m / suc n)
    ∙ mod-eq_of_lt (scaled_lt (m % suc n) (suc n) line (mod-lt m (omega arith)) pos)

-- A multiple of the line size that falls on line `k` is `k` lines into the cache.
line_start :
    (x line lines k : ℕ) (m : ℕ)
    → 0 < line
    → x ≡ m * line
    → x % (lines * line) / line ≡ k
    → x % (lines * line) ≡ k * line
line_start x line lines k m pos e h =
    let scaled : x % (lines * line) ≡ m % lines * line =
      rw e (mul-mod-mul_right line m lines pos) in
    scaled
    ∙ ap (λ (t : ℕ). t * line)
        (sym (mul-div_left (m % lines) pos) ∙ sym (ap (λ (t : ℕ). t / line) scaled) ∙ h)

-- An offset behind it stays behind it.
offset_on_line :
    (x total start r : ℕ) → x % total ≡ start → start + r < total → (x + r) % total ≡ start + r
offset_on_line x total start r e h = sym (mod-add-mod x total r) ∙ rw e (mod-eq_of_lt h)

module _ {W : Type 0} (files : Files W) (memory : Memory W) (buffer : ℕ) (info : CacheInfo)
    (page_size : ℕ) where
  abbrev line_count : ℕ
  line_count = info.total_size / info.line_size

  abbrev page_lines : ℕ
  page_lines = page_size / info.line_size

  -- At some point of the run the first byte of the line had this physical line.
  abbrev pub CheckedLine : ℕ → Type 0
  CheckedLine line =
      (v : W) × (p : ℕ) × (get_physical_address files (u64 (buffer + u64 (line * info.line_size))) v
        ≡ ok p)
      × (p % info.total_size / info.line_size ≡ line)

  check_line-Checked :
      (line : ℕ) (w w' : W)
      → check_line files memory line buffer info w ≡ done tt w'
      → CheckedLine line
  unfolding check_line
  check_line-Checked line w w' h =
      elim (Option-cases (memory.store (u64 (buffer + u64 (line * info.line_size))) w)) [
        | inl unmapped ↦ cc (rw unmapped at h)
        | inr (v, mapped) ↦
            elim (Result-cases
              (get_physical_address files (u64 (buffer + u64 (line * info.line_size))) v)) [
                | inl (p, found) ↦ (v, p, found, ground arith)
                | inr other ↦ absurd (ground arith)
              ]
      ]

  align_loop-Checked :
      (fuel i line : ℕ) (w w' : W)
      → line ≡ i * page_lines
      → line_count < 2 ^ 32
      → page_lines < 2 ^ 63
      → align_loop files memory fuel line buffer info page_size w ≡ done tt w'
      → (j : ℕ) → i ≤ j
      → j * page_lines < line_count
      → CheckedLine (j * page_lines)
  unfolding align_loop
  align_loop-Checked zero i line w w' e small room h j le lt = cc
  align_loop-Checked (suc fuel) i line w w' e small room h j le lt =
      elim (Bool-cases (ltb line line_count)) [
        | inr over ↦ absurd (past (grind arith) over)
        | inl more ↦
            let (_, v, checked, rest) =
              and_then-done (check_line files memory line buffer info w) _ (rw more at h) in
            elim (dec_lt i j) [
              | yes later ↦
                  align_loop-Checked fuel (suc i) (u64 (line + page_lines)) v w'
                    (next_line line more) small room rest j later lt
              | no now ↦ subst CheckedLine (here now) (check_line-Checked line w v checked)
            ]
      ]
    where
      past : i * page_lines ≤ j * page_lines → ltb line line_count ≡ false → ⊥
      past mono over = ground arith

      next_line :
          (l : ℕ) → ltb line line_count ≡ true → u64 (line + page_lines) ≡ suc i * page_lines
      next_line l more = omega (arith, ltb→lt line line_count more)

      here : ¬ (i < j) → line ≡ j * page_lines
      here now = e ∙ ap (λ (k : ℕ). k * page_lines) (omega arith)

-- If the first byte of a page has the physical line of its offset, so has every byte of the page.
page_covers :
    (x total page_size line lines step q i r offset : ℕ)
    → total ≡ lines * line
    → page_size ≡ step * line
    → 0 < line
    → x ≡ q * page_size
    → x % total / line ≡ i * step
    → i * page_size + r ≡ offset
    → offset < total
    → (x + r) % total ≡ offset
page_covers x total page_size line lines step q i r offset t page pos frame h split inside =
    let start : x % total ≡ i * page_size =
      rw t (
        line_start x line lines (i * step) (q * step) pos
          (frame ∙ sym (mul_rotate q step line page_size page)) (rw t at h))
      ∙ mul_rotate i step line page_size page in
    offset_on_line x total (i * page_size) r start (rw split inside) ∙ split

module _ {W : Type 0} (files : Files W) (memory : Memory W) where
  -- Let the lines of the cache fill it exactly, and pages be a positive number of lines. Suppose that
  -- the translation of the buffer's addresses does not change during the test and is that of huge
  -- pages. If test_alignment then succeeds, every byte of the buffer has the physical line that its
  -- offset has, although the test looks at the first byte of each page only.
  pub test_alignment_sound :
      (buffer : ℕ) (info : CacheInfo) (page_size lines step : ℕ) (phys : ℕ → ℕ) (w w' : W)
      → info.total_size ≡ lines * info.line_size
      → page_size ≡ step * info.line_size
      → 0 < info.line_size
      → 0 < step
      → info.total_size < 2 ^ 32
      → step < 2 ^ 63
      → buffer + info.total_size ≤ 2 ^ 64
      → ((offset p : ℕ) (v : W)
          → offset < info.total_size
          → get_physical_address files (buffer + offset) v ≡ ok p
          → p ≡ phys (buffer + offset))
      → IsHugeMapping phys buffer page_size
      → test_alignment files memory buffer info page_size w ≡ done tt w'
      → (offset : ℕ) → offset < info.total_size
      → phys (buffer + offset) % info.total_size / info.line_size ≡ offset / info.line_size
  unfolding test_alignment
  test_alignment_sound buffer info page_size lines step phys w w' total page line_pos step_pos small
        room fits stable huge passed offset inside =
      let line = info.line_size in
      let i = offset / page_size in
      let r = offset % page_size in
      let lines_eq : info.total_size / line ≡ lines = div-eq_of_eq-mul_left line_pos total in
      let step_eq : page_size / line ≡ step = div-eq_of_eq-mul_left line_pos page in
      let page_pos : 0 < page_size = rw page (positive_product step line step_pos line_pos) in
      let split : i * page_size + r ≡ offset = div-add-mod' offset page_size in
      let start : i * (page_size / line) * line ≡ i * page_size =
        mul_rotate i (page_size / line) line page_size (rw step_eq page) in
      let whole : info.total_size / line * line ≡ info.total_size = rw lines_eq (sym total) in
      let below : i * (page_size / line) < info.total_size / line =
        lt_of_scaled _ _ line (omega arith) in
      let nonzero : (info.line_size == 0) ≡ false = ground arith in
      let few : info.total_size / line < 2 ^ 32 = omega (arith, div-le_self info.total_size line) in
      let (v, p, found, on_line) =
        align_loop-Checked files memory buffer info page_size (suc (info.total_size / line)) 0 0 w
          w' (omega arith) few (rw step_eq room) (rw nonzero at passed) i (omega arith) below in
      let address : u64 (buffer + u64 (i * (page_size / line) * line)) ≡ buffer + i * page_size =
        omega (arith, start, split, inside, fits) in
      let same : p ≡ phys (buffer + i * page_size) =
        stable (i * page_size) p v (omega (arith, split, inside)) (rw address at found) in
      let (q, frame) = huge.frame i in
      let covered =
        page_covers (phys (buffer + i * page_size)) info.total_size page_size line lines step q i r
          offset total page line_pos frame (rw (← same) (on_line ∙ ap (λ (t : ℕ). i * t) step_eq))
          split inside in
      let moved : phys (buffer + offset) ≡ phys (buffer + i * page_size) + r =
        ap (λ (t : ℕ). phys (buffer + t)) (sym split)
        ∙ huge.contiguous i r (mod-lt offset page_pos) in
      ap (λ (t : ℕ). t / line) (ap (λ (t : ℕ). t % info.total_size) moved ∙ covered)
