-- ===== src/Alloc/Decides.antt =====
-- test_alignment on memory that is there: it ends, and says whether the pages are on their lines.
use native.Mathlib.Decide.{dec_lt}
use native.Mathlib.Nat.{div-le_self, div-mul-le_self}
use cache_noise_visualizer.Base.{
  ℕ, zero, suc, ◌+◌, ◌*◌, ◌/◌, ◌%◌, ◌^◌, ◌≤◌, ◌<◌, ◌≡◌, ◌⊎◌, inl, inr, refl, sym, ap, subst, ◌∙◌,
  true, false, some, ltb, ◌==◌, arith, Bool-cases, ltb→lt, ==_iff,
}
use cache_noise_visualizer.Base.Words.{u64}
use cache_noise_visualizer.Errors.{error_not_aligned}
use cache_noise_visualizer.Result.{Run, ok, done, failed}
use cache_noise_visualizer.SysInfo.Files.{Files}
use cache_noise_visualizer.SysInfo.CacheInfo.{CacheInfo}
use cache_noise_visualizer.SysInfo.Pagemap.{get_physical_address}
use cache_noise_visualizer.Memory.{Memory}
use cache_noise_visualizer.Alloc.{align_loop, test_alignment, check_line}

-- A byte of the buffer can be stored to, and from then on it has the physical address `phys`.
pub record Backed {W : Type 0} (files : Files W) (memory : Memory W) (phys : ℕ → ℕ)
    (buffer size : ℕ) : Type 0 where
  pub touched :
      (offset : ℕ) (v : W)
      → offset < size
      → (v' : W) × (memory.store (buffer + offset) v ≡ some v')
        × (get_physical_address files (buffer + offset) v' ≡ ok (phys (buffer + offset)))

module _ (phys : ℕ → ℕ) (buffer : ℕ) (info : CacheInfo) where
  -- The first byte of the line has the physical line of its offset.
  abbrev pub OnLine : ℕ → Type 0
  OnLine line = phys (buffer + line * info.line_size) % info.total_size / info.line_size ≡ line

  -- What a run of the test has found out about the pages from page `i` on, with `lines` lines a page.
  abbrev pub Verdict : {W : Type 0} → ℕ → ℕ → Run W (Unit {0}) → Type 0
  Verdict {W} lines i run =
      ((v : W) × (run ≡ done tt v)
        × ((j : ℕ) → i ≤ j → j * lines < info.total_size / info.line_size → OnLine (j * lines)))
      ⊎ ((v : W) × (run ≡ failed error_not_aligned v)
          × (j : ℕ) × (j * lines < info.total_size / info.line_size)
          × ¬ OnLine (j * lines))

module _ {W : Type 0} (files : Files W) (memory : Memory W) (phys : ℕ → ℕ) (buffer : ℕ)
    (info : CacheInfo) (page_size : ℕ) (backed : Backed files memory phys buffer info.total_size)
    (fits : buffer + info.total_size ≤ 2 ^ 64) (small : info.total_size < 2 ^ 32)
    (line_pos : 0 < info.line_size) where
  check_line-decides :
      (line : ℕ) (w : W)
      → line < info.total_size / info.line_size
      → (v : W) × ((OnLine phys buffer info line
            × (check_line files memory line buffer info w ≡ done tt v))
          ⊎ (¬ OnLine phys buffer info line
              × (check_line files memory line buffer info w ≡ failed error_not_aligned v)))
  unfolding check_line
  check_line-decides line w below =
      let (v, stored, translated) = backed.touched (line * info.line_size) w inside in
      (
        v,
        elim (Bool-cases
            (line == phys (buffer + line * info.line_size) % info.total_size / info.line_size)) [
              | inl on ↦ inl (sym ((==_iff _ _).0 on), rw (address, stored, translated, on) refl)
              | inr off ↦ inr (
                λ on. cc (rw ((==_iff _ _).1 (sym on)) at off),
                rw (address, stored, translated, off) refl,
              )
            ],
      )
    where
      inside : line * info.line_size < info.total_size
      inside = grind (arith, div-mul-le_self info.total_size info.line_size)

      address : u64 (buffer + u64 (line * info.line_size)) ≡ buffer + line * info.line_size
      address = omega (arith, inside, fits, small)

  align_loop-decides :
      (fuel i line : ℕ) (w : W)
      → line ≡ i * (page_size / info.line_size)
      → 0 < fuel
      → info.total_size / info.line_size < fuel + line
      → 0 < page_size / info.line_size
      → page_size / info.line_size < 2 ^ 63
      → Verdict phys buffer info
          (page_size / info.line_size)
          i
          (align_loop files memory fuel line buffer info page_size w)
  unfolding align_loop
  align_loop-decides zero i line w e pos enough step room = absurd (omega arith)
  align_loop-decides (suc fuel) i line w e pos enough step room =
      elim (Bool-cases (ltb line (info.total_size / info.line_size))) [
        | inr over ↦ inl (w, rw over refl, λ j le lt. absurd (past j over (grind arith) lt))
        | inl more ↦
            let (v, checked) = check_line-decides line w (ltb→lt _ _ more) in
            let following = next_line more in
            elim checked [
              | inr (off, run) ↦ inr (
                v,
                rw (more, run) refl,
                i,
                subst (λ (l : ℕ). l < info.total_size / info.line_size) e (ltb→lt _ _ more),
                subst (λ l. ¬ OnLine phys buffer info l) e off,
              )
              | inl (on, run) ↦
                  elim (align_loop-decides fuel (suc i) (u64 (line + page_size / info.line_size)) v
                    following
                    (omega (arith, enough, ltb→lt line (info.total_size / info.line_size) more))
                    (longer more) step room) [
                      | inr (u, rest, j, lt, off) ↦ inr (u, rw (more, run) rest, j, lt, off)
                      | inl (u, rest, all) ↦ inl (
                        u,
                        rw (more, run) rest,
                        λ j le lt. elim (dec_lt i j) [
                          | yes later ↦ all j later lt
                          | no now ↦ subst (OnLine phys buffer info) (here j le now) on
                        ],
                      )
                    ]
            ]
      ]
    where
      past :
          (j : ℕ)
          → ltb line (info.total_size / info.line_size) ≡ false
          → i * (page_size / info.line_size) ≤ j * (page_size / info.line_size)
          → j * (page_size / info.line_size) < info.total_size / info.line_size
          → ⊥
      past j over mono lt = ground arith

      few : info.total_size / info.line_size < 2 ^ 32
      few = omega (arith, div-le_self info.total_size info.line_size)

      next_line :
          ltb line (info.total_size / info.line_size) ≡ true
          → u64 (line + page_size / info.line_size) ≡ suc i * (page_size / info.line_size)
      next_line more = omega (arith, few, ltb→lt line (info.total_size / info.line_size) more)

      longer :
          ltb line (info.total_size / info.line_size) ≡ true
          → info.total_size / info.line_size < fuel + u64 (line + page_size / info.line_size)
      longer more = omega (arith, few, ltb→lt line (info.total_size / info.line_size) more)

      here : (j : ℕ) → i ≤ j → ¬ (i < j) → line ≡ j * (page_size / info.line_size)
      here j le now = e ∙ ap (λ (k : ℕ). k * (page_size / info.line_size)) (omega arith)

  -- Let every byte of the buffer take a store, after which it has the physical address that `phys`
  -- says; let a page have at least one line, and fewer than 2 ^ 63; let the cache be smaller than
  -- 4 GiB, and the buffer end within the address space. Then test_alignment ends. Either it succeeds
  -- and the first byte of every page has the physical line of its offset, or it fails with
  -- ERROR_NOT_ALIGNED and there is a page in the buffer where the first byte has another one.
  pub test_alignment-decides :
      (w : W)
      → 0 < page_size / info.line_size
      → page_size / info.line_size < 2 ^ 63
      → Verdict phys buffer info
          (page_size / info.line_size)
          0
          (test_alignment files memory buffer info page_size w)
  unfolding test_alignment
  test_alignment-decides w step room =
      let nonzero : (info.line_size == 0) ≡ false = ground arith in
      rw nonzero (
        align_loop-decides (suc (info.total_size / info.line_size)) 0 0 w (omega arith)
          (omega arith) (omega arith) step room)
