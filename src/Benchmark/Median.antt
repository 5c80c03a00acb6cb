-- ===== src/Benchmark/Median.antt =====
-- The order that cmpfunc gives to qsort, and the counts that benchmark prints.
use cache_noise_visualizer.Base.{
  ℕ, zero, suc, ◌+◌, ◌-◌, ◌/◌, ◌^◌, ◌≤◌, ◌<◌, ◌≡◌, refl, sym, subst, ◌∙◌, Bool, true, false, not,
  List, [], ◌∷◌, some, ltb, leb, ◌==◌, get_elem?, length, All, count_if, arith, Bool-cases, inl,
  inr, ltb→lt, lt→ltb, le→ltb,
}
use cache_noise_visualizer.Base.Int.{ℤ, pos, negsuc, int_eq}
use cache_noise_visualizer.Base.Words.{u32}
use cache_noise_visualizer.Result.{ok}
use cache_noise_visualizer.Statistics.{cmpfunc, Summary, summarised, summary_of}
use cache_noise_visualizer.Statistics.Loops.{
  StandsAt-all, in_bounds, summed, accumulate-summed, count_loop-counts,
}

abbrev pub is_negative : ℤ → Bool
is_negative (pos n) = false
is_negative (negsuc n) = true

-- The answer of a comparison function for `a` and `b`.
abbrev pub Compares : ℤ → ℕ → ℕ → Type 0
Compares answer a b = (is_negative answer ≡ ltb a b) × (int_eq answer (pos 0) ≡ (a == b))

-- For two uint32_t values below 2 ^ 31 the answer of cmpfunc is negative exactly if the first is
-- less, and zero exactly if they are equal: the subtraction does not overflow.
pub cmpfunc-Compares : (a b : ℕ) → a < 2 ^ 31 → b < 2 ^ 31 → Compares (cmpfunc a b) a b
unfolding cmpfunc
cmpfunc-Compares a b h k = elim (Bool-cases (ltb a b)) [
  | inl less ↦
      let wrapped : ltb (u32 (a + (2 ^ 32 - b))) (2 ^ 31) ≡ false =
        le→ltb _ _ (omega (arith, ltb→lt a b less)) in
      rw wrapped (sym less, ground arith)
  | inr not_less ↦
      let difference : u32 (a + (2 ^ 32 - b)) ≡ a - b = ground arith in
      let small : ltb (a - b) (2 ^ 31) ≡ true = lt→ltb _ _ (omega arith) in
      rw (difference, small) (sym not_less, ground arith)
]

abbrev pub Ascending : List ℕ → Type 0
Ascending [] = Unit
Ascending (x ∷ xs) = All (λ y. x ≤ y) xs × Ascending xs

-- What qsort promises of a comparison function that orders the numbers below `n`.
pub record Sorts (qsort : (ℕ → ℕ → ℤ) → List ℕ → List ℕ) : Type 0 where
  pub ascending :
      (compare : ℕ → ℕ → ℤ) (n : ℕ) (xs : List ℕ)
      → All (λ x. x < n) xs
      → ((a b : ℕ) → a < n → b < n → Compares (compare a b) a b)
      → Ascending (qsort compare xs)
  pub keeps :
      (compare : ℕ → ℕ → ℤ) (n : ℕ) (xs : List ℕ) (p : ℕ → Bool)
      → All (λ x. x < n) xs
      → ((a b : ℕ) → a < n → b < n → Compares (compare a b) a b)
      → count_if p (qsort compare xs) ≡ count_if p xs

count_if-below : (v : ℕ) (xs : List ℕ) → All (λ y. v ≤ y) xs → count_if (λ y. ltb y v) xs ≡ 0
count_if-below v [] h = refl
count_if-below v (x ∷ xs) (h, hs) = ground (arith, count_if-below v xs hs)

All-get_elem? :
    (v : ℕ) (xs : List ℕ) (i x : ℕ) → All (λ y. v ≤ y) xs → get_elem? xs i ≡ some x → v ≤ x
All-get_elem? v [] i x h e = cc
All-get_elem? v (y ∷ ys) zero x (h, hs) e = ground arith
All-get_elem? v (y ∷ ys) (suc i) x (h, hs) e = All-get_elem? v ys i x hs e

-- In an ascending list at most `i` values are less than the one at `i`, and more than `i` are not
-- greater.
less_before :
    (xs : List ℕ) (i v : ℕ)
    → Ascending xs
    → get_elem? xs i ≡ some v
    → count_if (λ y. ltb y v) xs ≤ i
less_before [] i v a e = cc
less_before (x ∷ xs) zero v (h, hs) e =
    let first : x ≡ v = cc in
    let below : count_if (λ y. ltb y v) xs ≡ 0 =
      count_if-below v xs (subst (λ t. All (λ y. t ≤ y) xs) first h) in
    ground (arith, below, first)
less_before (x ∷ xs) (suc i) v (h, hs) e = ground (arith, less_before xs i v hs e)

up_to :
    (xs : List ℕ) (i v : ℕ)
    → Ascending xs
    → get_elem? xs i ≡ some v
    → i < count_if (λ y. leb y v) xs
up_to [] i v a e = cc
up_to (x ∷ xs) zero v (h, hs) e = let first : x ≡ v = cc in rw (← first) (ground arith)
up_to (x ∷ xs) (suc i) v (h, hs) e = ground (arith, up_to xs i v hs e, All-get_elem? x xs i v h e)

count_if-all : (xs : List ℕ) → count_if (λ x. true) xs ≡ length xs
count_if-all [] = refl
count_if-all (x ∷ xs) = omega (arith, count_if-all xs)

module _ (qsort : (ℕ → ℕ → ℤ) → List ℕ → List ℕ) (sorts : Sorts qsort) where
  pub length-sorted :
      (times : List ℕ) → All (λ x. x < 2 ^ 31) times → length (qsort cmpfunc times) ≡ length times
  length-sorted times small =
      sym (count_if-all (qsort cmpfunc times))
      ∙ sorts.keeps cmpfunc (2 ^ 31) times (λ x. true) small cmpfunc-Compares
      ∙ count_if-all times

  -- Let qsort sort by every comparison function that orders the values. For 1 to 2 ^ 31 - 1
  -- times, all below 2 ^ 31, benchmark has a summary. Its median is the upper median of the times: at most half
  -- of them are less, and more than half of them (the half rounded down) are not greater. The two
  -- counters are the numbers of times above 1000 and of times that differ from the median.
  pub summary_of-median :
      (iterations : ℕ) (times : List ℕ)
      → length times ≡ iterations
      → 0 < iterations
      → iterations < 2 ^ 31
      → All (λ x. x < 2 ^ 31) times
      → (s : Summary) × (summary_of iterations (qsort cmpfunc times) ≡ ok s)
        × (count_if (λ x. ltb x s.median) times ≤ iterations / 2)
        × (iterations / 2 < count_if (λ x. leb x s.median) times)
        × (s.over_1000_counter ≡ count_if (λ x. ltb 1000 x) times)
        × (s.other_median_counter ≡ count_if (λ x. not (x == s.median)) times)
  unfolding summary_of
  summary_of-median iterations times long some_times few small =
      let sorted = qsort cmpfunc times in
      let up : Ascending sorted = sorts.ascending cmpfunc (2 ^ 31) times small cmpfunc-Compares in
      let size : length sorted ≡ iterations = length-sorted times small ∙ long in
      let (v, at_middle) = in_bounds sorted (iterations / 2) (omega arith) in
      let others = count_if (λ x. not (x == v)) sorted in
      let over = count_if (λ x. ltb 1000 x) sorted in
      let sum =
        accumulate-summed iterations sorted sorted (suc iterations) 0 0 (StandsAt-all sorted)
          (omega (arith, size)) (omega arith) (omega (arith, size)) in
      let counts =
        count_loop-counts iterations sorted v sorted (suc iterations) 0 0 0 (StandsAt-all sorted)
          (omega (arith, size)) few (omega (arith, size)) (omega arith) (omega arith) in
      (
        summarised v (summed 0 sorted) (0 + others, 0 + over),
        rw (at_middle, sum, counts) refl,
        rw (same (λ x. ltb x v)) at (less_before sorted (iterations / 2) v up at_middle),
        rw (same (λ x. leb x v)) at (up_to sorted (iterations / 2) v up at_middle),
        omega (arith, same (λ x. ltb 1000 x)),
        omega (arith, same (λ x. not (x == v))),
      )
    where
      same : (p : ℕ → Bool) → count_if p (qsort cmpfunc times) ≡ count_if p times
      same p = sorts.keeps cmpfunc (2 ^ 31) times p small cmpfunc-Compares
