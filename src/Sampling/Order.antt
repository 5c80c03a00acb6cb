-- ===== src/Sampling/Order.antt =====
-- The lines of the buffer in the order in which prime and probe take them. Line `way * sets + set`
-- of the buffer belongs to the set `set`.
use native.Mathlib.Nat.{
  mod-lt, div-add-mod', div-lt_iff_lt-mul, mul-add-mod_self_right, mod-eq_of_lt, mul-add-div_right,
  div-eq_of_lt, add-zero,
}
use cache_noise_visualizer.Base.{
  ℕ, zero, suc, ◌+◌, ◌*◌, ◌/◌, ◌%◌, ◌≤◌, ◌<◌, ◌≡◌, refl, ap, subst, ◌∙◌, Bool, ◌&&◌, List, [], ◌∷◌,
  ◌++◌, some, get_elem?, ltb, leb, inl, inr, Bool-cases, ◌==◌, if◌then◌else◌, arith, length,
  length-append, ==_iff,
}

-- The lines of a set, the last way first.
unfoldable pub descending : ℕ → ℕ → ℕ → List ℕ
descending sets zero set = []
descending sets (suc ways) set = (ways * sets + set) ∷ descending sets ways set

-- The lines of a set from the way `way` on, the first way first.
unfoldable pub ascending : ℕ → ℕ → ℕ → ℕ → List ℕ
ascending sets zero way set = []
ascending sets (suc left) way set = (way * sets + set) ∷ ascending sets left (way + 1) set

-- All sets from `set` on.
unfoldable pub prime_lines_from : ℕ → ℕ → ℕ → ℕ → List ℕ
prime_lines_from sets ways zero set = []
prime_lines_from sets ways (suc left) set =
    descending sets ways set ++ prime_lines_from sets ways left (set + 1)

unfoldable pub probe_lines_from : ℕ → ℕ → ℕ → ℕ → List ℕ
probe_lines_from sets ways zero set = []
probe_lines_from sets ways (suc left) set =
    ascending sets ways 0 set ++ probe_lines_from sets ways left (set + 1)

unfoldable pub prime_lines : ℕ → ℕ → List ℕ
unfolding prime_lines_from descending
prime_lines sets ways = prime_lines_from sets ways sets 0

unfoldable pub probe_lines : ℕ → ℕ → List ℕ
unfolding probe_lines_from ascending
probe_lines sets ways = probe_lines_from sets ways sets 0

unfoldable pub count : ℕ → List ℕ → ℕ
count k [] = 0
count k (x ∷ xs) = (if x == k then 1 else 0) + count k xs

abbrev one_if : Bool → ℕ
one_if b = if b then 1 else 0

count-append : (k : ℕ) (xs ys : List ℕ) → count k (xs ++ ys) ≡ count k xs + count k ys
unfolding count
count-append k [] ys = omega arith
count-append k (x ∷ xs) ys = omega (arith, count-append k xs ys)

way_of_line : (sets way set : ℕ) → set < sets → (way * sets + set) / sets ≡ way
way_of_line sets way set h =
    mul-add-div_right (omega arith) way set
    ∙ ap (λ (t : ℕ). way + t) (div-eq_of_lt h)
    ∙ add-zero way

set_of_line : (sets way set : ℕ) → set < sets → (way * sets + set) % sets ≡ set
set_of_line sets way set h = mul-add-mod_self_right way sets set ∙ mod-eq_of_lt h

line_of_parts : (sets way set k : ℕ) → k / sets ≡ way → k % sets ≡ set → way * sets + set ≡ k
line_of_parts sets way set k p q = rw (← p, ← q) (div-add-mod' k sets)

-- A line is `way * sets + set` exactly for its own way and set.
line_parts :
    (sets way set k : ℕ)
    → set < sets
    → (way * sets + set == k) ≡ ((k / sets == way) && (k % sets == set))
line_parts sets way set k h = elim (Bool-cases (way * sets + set == k)) [
  | inl e ↦
      subst (λ (t : ℕ). (way * sets + set == t) ≡ ((t / sets == way) && (t % sets == set)))
        ((==_iff _ _).0 e) (ground (arith, way_of_line sets way set h, set_of_line sets way set h))
  | inr other ↦ ground (arith, line_of_parts sets way set k)
]

count-descending :
    (sets ways set k : ℕ)
    → set < sets
    → count k (descending sets ways set) ≡ one_if ((k % sets == set) && ltb (k / sets) ways)
unfolding count descending
count-descending sets zero set k h = ground arith
count-descending sets (suc ways) set k h =
    ground (arith, line_parts sets ways set k h, count-descending sets ways set k h)

count-prime_lines_from :
    (sets ways left set k : ℕ)
    → set + left ≤ sets
    → count k (prime_lines_from sets ways left set)
      ≡ one_if (leb set (k % sets) && (ltb (k % sets) (set + left) && ltb (k / sets) ways))
unfolding count prime_lines_from
count-prime_lines_from sets ways zero set k h = ground arith
count-prime_lines_from sets ways (suc left) set k h =
    count-append k (descending sets ways set) (prime_lines_from sets ways left (set + 1))
    ∙ ground
        (arith, count-descending sets ways set k, count-prime_lines_from sets ways left (set + 1) k)

pub count-prime_lines :
    (sets ways k : ℕ)
    → 0 < sets
    → count k (prime_lines sets ways) ≡ (if ltb k (ways * sets) then 1 else 0)
unfolding prime_lines
count-prime_lines sets ways k h =
    count-prime_lines_from sets ways sets 0 k (omega arith)
    ∙ ground (arith, div-lt_iff_lt-mul {x = k} {y = ways} h, mod-lt k h)

-- The lines of one set in the order of probe.
get-ascending :
    (sets left way set i : ℕ)
    → i < left
    → get_elem? (ascending sets left way set) i ≡ some ((way + i) * sets + set)
unfolding ascending
get-ascending sets zero way set i h = absurd (omega arith)
get-ascending sets (suc left) way set zero h = ap (λ (t : ℕ). some (t * sets + set)) (omega arith)
get-ascending sets (suc left) way set (suc i) h =
    get-ascending sets left (way + 1) set i (omega arith)
    ∙ ap (λ (t : ℕ). some (t * sets + set)) (omega arith)

pub length-ascending : (sets left way set : ℕ) → length (ascending sets left way set) ≡ left
unfolding ascending
length-ascending sets zero way set = refl
length-ascending sets (suc left) way set = ap suc (length-ascending sets left (way + 1) set)

get-append_left : (xs ys : List ℕ) (i : ℕ) → i < length xs → get_elem? (xs ++ ys) i ≡ get_elem? xs i
get-append_left [] ys i h = absurd (omega arith)
get-append_left (x ∷ xs) ys zero h = refl
get-append_left (x ∷ xs) ys (suc i) h = get-append_left xs ys i (omega arith)

get-append_right : (xs ys : List ℕ) (i : ℕ) → get_elem? (xs ++ ys) (length xs + i) ≡ get_elem? ys i
get-append_right [] ys i = let e : 0 + i ≡ i = omega arith in rw e
get-append_right (x ∷ xs) ys i =
    let e : suc (length xs) + i ≡ suc (length xs + i) = omega arith in
    rw e (get-append_right xs ys i)

get-probe_lines_from :
    (sets ways left first set way : ℕ)
    → set < left
    → way < ways
    → get_elem? (probe_lines_from sets ways left first) (set * ways + way)
      ≡ some (way * sets + (first + set))
unfolding probe_lines_from
get-probe_lines_from sets ways zero first set way h k = absurd (omega arith)
get-probe_lines_from sets ways (suc left) first zero way h k =
    let e : 0 * ways + way ≡ way = omega arith in
    rw
      (
        e,
        get-append_left (ascending sets ways 0 first) _ way
            (omega (arith, length-ascending sets ways 0 first)),
      )
      (get-ascending sets ways 0 first way k ∙ ap (λ (t : ℕ). some t) (omega arith))
get-probe_lines_from sets ways (suc left) first (suc set) way h k =
    let e : suc set * ways + way ≡ length (ascending sets ways 0 first) + (set * ways + way) =
      omega (arith, length-ascending sets ways 0 first) in
    rw
      (
        e,
        get-append_right (ascending sets ways 0 first) (probe_lines_from sets ways left (first + 1))
            (set * ways + way),
      )
      (get-probe_lines_from sets ways left (first + 1) set way (omega arith) k
        ∙ ap (λ (t : ℕ). some t) (omega arith))

pub length-probe_lines_from :
    (sets ways left first : ℕ) → length (probe_lines_from sets ways left first) ≡ left * ways
unfolding probe_lines_from
length-probe_lines_from sets ways zero first = omega arith
length-probe_lines_from sets ways (suc left) first = omega (
  arith,
  length-append (ascending sets ways 0 first) (probe_lines_from sets ways left (first + 1)),
  length-ascending sets ways 0 first,
  length-probe_lines_from sets ways left (first + 1),
)

pub length-probe_lines : (sets ways : ℕ) → length (probe_lines sets ways) ≡ sets * ways
unfolding probe_lines
length-probe_lines sets ways = length-probe_lines_from sets ways sets 0

pub get-probe_lines :
    (sets ways set way : ℕ)
    → set < sets
    → way < ways
    → get_elem? (probe_lines sets ways) (set * ways + way) ≡ some (way * sets + set)
unfolding probe_lines
get-probe_lines sets ways set way h k =
    get-probe_lines_from sets ways sets 0 set way h k ∙ ap (λ (t : ℕ). some t) (omega arith)
