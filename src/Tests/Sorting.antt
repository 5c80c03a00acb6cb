-- ===== src/Tests/Sorting.antt =====
-- benchmark's statistics with insertion by a comparison function in the place of qsort.
use cache_noise_visualizer.Base.{
  ℕ, count_if, ◌≤◌, ◌<◌, ◌≡◌, refl, sym, ◌∙◌, Bool, List, [], ◌∷◌, if◌then◌else◌, All, arith,
  Bool-cases, inl, inr, ltb→lt,
}
use cache_noise_visualizer.Base.Int.{ℤ}
use cache_noise_visualizer.Benchmark.Median.{is_negative, Compares, Ascending, Sorts}

abbrev insert : (ℕ → ℕ → ℤ) → ℕ → List ℕ → List ℕ
insert compare x [] = x ∷ []
insert compare x (y ∷ ys) =
    if is_negative (compare y x) then y ∷ insert compare x ys else x ∷ y ∷ ys

abbrev pub insertion_sort : (ℕ → ℕ → ℤ) → List ℕ → List ℕ
insertion_sort compare [] = []
insertion_sort compare (x ∷ xs) = insert compare x (insertion_sort compare xs)

insert-All :
    (P : ℕ → Type 0) (compare : ℕ → ℕ → ℤ) (x : ℕ) (xs : List ℕ)
    → P x
    → All P xs
    → All P (insert compare x xs)
insert-All P compare x [] h hs = (h, tt)
insert-All P compare x (y ∷ ys) h (k, ks) = elim (Bool-cases (is_negative (compare y x))) [
  | inl less ↦ rw less (k, insert-All P compare x ys h ks)
  | inr other ↦ rw other (h, (k, ks))
]

insertion_sort-All :
    (P : ℕ → Type 0) (compare : ℕ → ℕ → ℤ) (xs : List ℕ)
    → All P xs
    → All P (insertion_sort compare xs)
insertion_sort-All P compare [] h = tt
insertion_sort-All P compare (x ∷ xs) (h, hs) =
    insert-All P compare x (insertion_sort compare xs) h (insertion_sort-All P compare xs hs)

All-le : (x y : ℕ) (ys : List ℕ) → x ≤ y → All (λ z. y ≤ z) ys → All (λ z. x ≤ z) ys
All-le x y [] h hs = tt
All-le x y (z ∷ zs) h (k, ks) = (omega arith, All-le x y zs h ks)

count_if-insert :
    (compare : ℕ → ℕ → ℤ) (p : ℕ → Bool) (x : ℕ) (xs : List ℕ)
    → count_if p (insert compare x xs) ≡ count_if p (x ∷ xs)
count_if-insert compare p x [] = refl
count_if-insert compare p x (y ∷ ys) = elim (Bool-cases (is_negative (compare y x))) [
  | inl less ↦ rw less (omega (arith, count_if-insert compare p x ys))
  | inr other ↦ rw other
]

count_if-insertion_sort :
    (compare : ℕ → ℕ → ℤ) (p : ℕ → Bool) (xs : List ℕ)
    → count_if p (insertion_sort compare xs) ≡ count_if p xs
count_if-insertion_sort compare p [] = refl
count_if-insertion_sort compare p (x ∷ xs) =
    count_if-insert compare p x (insertion_sort compare xs)
    ∙ omega (arith, count_if-insertion_sort compare p xs)

module _ (compare : ℕ → ℕ → ℤ) (n : ℕ)
    (orders : (a b : ℕ) → a < n → b < n → Compares (compare a b) a b) where
  insert-Ascending :
      (x : ℕ) (xs : List ℕ)
      → x < n
      → All (λ y. y < n) xs
      → Ascending xs
      → Ascending (insert compare x xs)
  insert-Ascending x [] h hs up = (tt, tt)
  insert-Ascending x (y ∷ ys) h (k, ks) (low, up) = elim (Bool-cases (is_negative (compare y x))) [
    | inl less ↦ rw less (
      insert-All (λ z. y ≤ z) compare x ys
          (omega (arith, ltb→lt y x (sym (orders y x k h).0 ∙ less))) low,
      insert-Ascending x ys h ks up,
    )
    | inr other ↦
        let below : x ≤ y = ground (arith, (orders y x k h).0, other) in
        rw other ((below, All-le x y ys below low), (low, up))
  ]

  insertion_sort-Ascending :
      (xs : List ℕ) → All (λ x. x < n) xs → Ascending (insertion_sort compare xs)
  insertion_sort-Ascending [] h = tt
  insertion_sort-Ascending (x ∷ xs) (h, hs) =
      insert-Ascending x (insertion_sort compare xs) h
        (insertion_sort-All (λ z. z < n) compare xs hs) (insertion_sort-Ascending xs hs)

pub insertion_sort-Sorts : Sorts insertion_sort
insertion_sort-Sorts = record {
  ascending = λ compare n xs small orders. insertion_sort-Ascending compare n orders xs small;
  keeps = λ compare n xs p small orders. count_if-insertion_sort compare p xs;
}

abbrev four_times : List ℕ
four_times = 40 ∷ 2000 ∷ 30 ∷ 30 ∷ []
