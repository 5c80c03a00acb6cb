-- ===== src/SysInfo/Hugepages/Size.antt =====
-- get_hugepagesize against a description of /proc/meminfo.
use Prim.Native.Nat.{min}
use mathlib.Core.List.{append-nil}
use cache_noise_visualizer.Base.{
  ℕ, zero, suc, ◌-◌, ◌*◌, ◌^◌, ◌≤◌, ◌<◌, ◌≡◌, ◌≢◌, refl, ap, ◌∙◌, true, false, List, [], ◌∷◌, ◌++◌,
  some, if◌then◌else◌, length, length-append, All, arith, replicate, lt→ltb, All-append,
  All-replicate, length-replicate,
}
use cache_noise_visualizer.Base.Words.{u32, sign_extend}
use cache_noise_visualizer.Base.Text.{Bytes, codes}
use cache_noise_visualizer.Base.Text.Decimal.{
  IsDigits, decimal, decimal-IsDigits, digits_value-decimal, length-decimal,
}
use cache_noise_visualizer.Result.{ok}
use cache_noise_visualizer.Stdio.{get_line, after_line, atoi_digits}
use cache_noise_visualizer.SysInfo.Files.{Files}
use cache_noise_visualizer.SysInfo.Text.{str_starts_with, str_starts_with_iff}
use cache_noise_visualizer.SysInfo.Hugepages.{
  key, find_line, digits_of, size_of_line, get_hugepagesize,
}

-- A line without its newline, short enough for the array `line`.
abbrev pub IsLine : Bytes → Type 0
IsLine b = All (λ c. c ≢ 10) b × (length b < 98)

-- A line of another field.
abbrev pub IsOther : Bytes → Type 0
IsOther b = IsLine b × (str_starts_with key (b ++ 10 ∷ []) ≡ false)

abbrev pub text_of : List Bytes → Bytes → Bytes
text_of [] rest = rest
text_of (b ∷ bs) rest = b ++ 10 ∷ text_of bs rest

get_line-append :
    (n : ℕ) (b t : Bytes)
    → All (λ c. c ≢ 10) b
    → length b < n
    → (get_line n (b ++ 10 ∷ t) ≡ b ++ 10 ∷ []) × (after_line n (b ++ 10 ∷ t) ≡ t)
unfolding get_line after_line
get_line-append zero b t h lt = absurd (omega arith)
get_line-append (suc n) [] t h lt = (refl, refl)
get_line-append (suc n) (c ∷ b) t h lt =
    let (line, rest) = get_line-append n b t h.1 (omega arith) in
    (ground (arith, h.0), ground (arith, h.0))

find_line-step :
    (fuel : ℕ) (line b t : Bytes)
    → IsLine b
    → find_line (suc fuel) line (b ++ 10 ∷ t) ≡ (
        if str_starts_with key (b ++ 10 ∷ [])
        then b ++ 10 ∷ []
        else find_line fuel (b ++ 10 ∷ []) t)
unfolding find_line
find_line-step fuel line [] t h = let (e, r) = get_line-append 98 [] t tt (omega arith) in rw (e, r)
find_line-step fuel line (c ∷ b) t h =
    let (e, r) = get_line-append 98 (c ∷ b) t h.0 h.1 in rw (e, r)

find_line-text_of :
    (fuel : ℕ) (line : Bytes) (bs : List Bytes) (b rest : Bytes)
    → All IsOther bs
    → IsLine b
    → str_starts_with key (b ++ 10 ∷ []) ≡ true
    → length (text_of bs (b ++ 10 ∷ rest)) ≤ fuel
    → find_line fuel line (text_of bs (b ++ 10 ∷ rest)) ≡ b ++ 10 ∷ []
find_line-text_of zero line [] b rest o l k enough =
    absurd (omega (arith, length-append b (10 ∷ rest)))
find_line-text_of zero line (c ∷ bs) b rest o l k enough =
    absurd (omega (arith, length-append c (10 ∷ text_of bs (b ++ 10 ∷ rest))))
find_line-text_of (suc fuel) line [] b rest o l k enough = rw (find_line-step fuel line b rest l, k)
find_line-text_of (suc fuel) line (c ∷ bs) b rest o l k enough =
    rw (find_line-step fuel line c (text_of bs (b ++ 10 ∷ rest)) o.0.0, o.0.1)
      (find_line-text_of fuel (c ++ 10 ∷ []) bs b rest o.1 l k
        (omega (arith, length-append c (10 ∷ text_of bs (b ++ 10 ∷ rest)))))

digits_of-append : (xs ys : Bytes) → digits_of (xs ++ ys) ≡ digits_of xs ++ digits_of ys
unfolding digits_of
digits_of-append [] ys = refl
digits_of-append (x ∷ xs) ys = ground (arith, digits_of-append xs ys)

digits_of-IsDigits : (ds : Bytes) → IsDigits ds → digits_of ds ≡ ds
unfolding digits_of
digits_of-IsDigits [] h = refl
digits_of-IsDigits (d ∷ ds) h = rw (h.0, digits_of-IsDigits ds h.1)

digits_of-blanks : (k : ℕ) → digits_of (replicate k 32) ≡ []
unfolding digits_of
digits_of-blanks zero = refl
digits_of-blanks (suc k) = digits_of-blanks k

-- "Hugepagesize:" with `k` blanks, the number of KiB and the unit.
abbrev pub size_line : ℕ → ℕ → Bytes
size_line k n = key ++ (replicate k 32 ++ (decimal n ++ codes " kB"))

digits_of-size_line : (k n : ℕ) → digits_of (size_line k n ++ 10 ∷ []) ≡ decimal n
unfolding digits_of
digits_of-size_line k n = simp (
  digits_of-append,
  digits_of-blanks,
  digits_of-IsDigits (decimal n) (decimal-IsDigits n),
  append-nil,
)

not_newline_of_digits : (ds : Bytes) → IsDigits ds → All (λ c. c ≢ 10) ds
not_newline_of_digits [] h = tt
not_newline_of_digits (d ∷ ds) h = (ground arith, not_newline_of_digits ds h.1)

tail-not_newline : (k n : ℕ) → All (λ c. c ≢ 10) (replicate k 32 ++ (decimal n ++ codes " kB"))
tail-not_newline k n = All-append _ (replicate k 32) _ (All-replicate _ k 32 (omega arith)) (
    All-append _ (decimal n) _ (not_newline_of_digits (decimal n) (decimal-IsDigits n))
      (omega arith))

size_line-IsLine : (k n : ℕ) → k ≤ 70 → n < 2 ^ 21 → IsLine (size_line k n)
size_line-IsLine k n h lt = (
  All-append _ key _ (omega arith) (tail-not_newline k n),
  omega (
    arith,
    length-append (replicate k 32) (decimal n ++ codes " kB"),
    length-append (decimal n) (codes " kB"),
    length-replicate {A = ℕ} k 32,
    length-decimal 6 n (omega arith),
  ),
)

key-starts : (t : Bytes) → str_starts_with key (key ++ t) ≡ true
key-starts t = (str_starts_with_iff key (key ++ t)).1 (t, refl)

bytes_of_kib : (n : ℕ) → n < 2 ^ 21 → sign_extend (u32 (u32 (min n (2 ^ 63 - 1)) * 1024)) ≡ n * 1024
bytes_of_kib n h =
    let e : u32 (u32 (min n (2 ^ 63 - 1)) * 1024) ≡ n * 1024 = omega arith in
    rw (e, lt→ltb (n * 1024) (2 ^ 31) (omega arith))

size_of_size_line : (k n : ℕ) → n < 2 ^ 21 → size_of_line (size_line k n ++ 10 ∷ []) ≡ ok (n * 1024)
unfolding size_of_line atoi_digits
size_of_size_line k n lt =
    rw (key-starts _, digits_of-size_line k n, digits_value-decimal n) (ap ok (bytes_of_kib n lt))

module _ {W : Type 0} (files : Files W) where
  -- If /proc/meminfo has a line `Hugepagesize:` with at most 70 blanks and a number of KiB below
  -- 2 ^ 21 after any number of other lines of at most 97 characters, then get_hugepagesize returns
  -- that number of KiB in bytes, whatever follows the line and whatever the array held before.
  pub get_hugepagesize-size_line :
      (bs : List Bytes) (k n : ℕ) (rest : Bytes) (w : W)
      → files.open_read (codes "/proc/meminfo") w ≡ some (text_of bs (size_line k n ++ 10 ∷ rest))
      → All IsOther bs
      → k ≤ 70
      → n < 2 ^ 21
      → get_hugepagesize files w ≡ ok (n * 1024)
  unfolding get_hugepagesize
  get_hugepagesize-size_line bs k n rest w shown others blanks small =
      let found =
        find_line-text_of (length (text_of bs (size_line k n ++ 10 ∷ rest))) (files.stale_line w) bs
          (size_line k n) rest others (size_line-IsLine k n blanks small)
          (key-starts ((replicate k 32 ++ (decimal n ++ codes " kB")) ++ 10 ∷ [])) (omega arith) in
      rw shown (ap size_of_line found ∙ size_of_size_line k n small)
