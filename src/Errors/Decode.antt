-- ===== src/Errors/Decode.antt =====
-- What decode_error of src/error.c answers.
use cache_noise_visualizer.Base.{
  ◌≡◌, refl, sym, ◌∙◌, ap, ◌≢◌, ◌⊎◌, inl, inr, Bool, true, false, List, [], ◌∷◌, arith,
  if◌then◌else◌, All,
}
use cache_noise_visualizer.Base.Int.{int_eq, int_eq_iff}
use cache_noise_visualizer.Errors.{
  ErrorCode, ErrorUnit, error_map_table, find_message, decode_error, default_error_message,
}

-- The entry `u` is one of the entries of a table.
abbrev pub Has : ErrorUnit → List ErrorUnit → Type 0
Has u [] = ⊥
Has u (v ∷ us) = (u ≡ v) ⊎ Has u us

-- The code `e` is the number of no entry.
abbrev pub Unlisted : ErrorCode → List ErrorUnit → Type 0
Unlisted e = All (λ u. u.number ≢ e)

-- No two entries have one number.
abbrev pub DistinctNumbers : List ErrorUnit → Type 0
DistinctNumbers [] = Unit
DistinctNumbers (u ∷ us) = Unlisted u.number us × DistinctNumbers us

find_message-Unlisted :
    (e : ErrorCode) (us : List ErrorUnit)
    → Unlisted e us
    → find_message e us ≡ default_error_message
unfolding find_message
find_message-Unlisted e [] h = refl
find_message-Unlisted e (u ∷ us) h =
    ground (arith, int_eq_iff u.number e, find_message-Unlisted e us h.1, h.0)

number-Has :
    (u : ErrorUnit) (e : ErrorCode) (us : List ErrorUnit) → Unlisted e us → Has u us → u.number ≢ e
number-Has u e [] d h = absurd h
number-Has u e (w ∷ us) d (inl p) = λ q. d.0 (sym (ap (λ (x : ErrorUnit). x.number) p) ∙ q)
number-Has u e (w ∷ us) d (inr h) = number-Has u e us d.1 h

find_message-Has :
    (u : ErrorUnit) (us : List ErrorUnit)
    → DistinctNumbers us
    → Has u us
    → find_message u.number us ≡ u.message
unfolding find_message
find_message-Has u [] d h = absurd h
find_message-Has u (v ∷ us) d (inl e) = rw (← e) (ground (arith, int_eq_iff u.number u.number))
find_message-Has u (v ∷ us) d (inr h) = ground (
  arith,
  int_eq_iff v.number u.number,
  number-Has u v.number us d.0 h,
  find_message-Has u us d.1 h,
)

-- Boolean forms, so that the table is checked by evaluation.
unfoldable pub unlisted : ErrorCode → List ErrorUnit → Bool
unlisted e [] = true
unlisted e (u ∷ us) = if int_eq u.number e then false else unlisted e us

distinct_numbers : List ErrorUnit → Bool
unfolding unlisted
distinct_numbers [] = true
distinct_numbers (u ∷ us) = if unlisted u.number us then distinct_numbers us else false

pub unlisted-Unlisted : (e : ErrorCode) (us : List ErrorUnit) → unlisted e us ≡ true → Unlisted e us
unfolding unlisted
unlisted-Unlisted e [] h = tt
unlisted-Unlisted e (u ∷ us) h =
    (ground (arith, int_eq_iff u.number e), unlisted-Unlisted e us (ground arith))

distinct_numbers-Distinct : (us : List ErrorUnit) → distinct_numbers us ≡ true → DistinctNumbers us
unfolding distinct_numbers
distinct_numbers-Distinct [] h = tt
distinct_numbers-Distinct (u ∷ us) h =
    (unlisted-Unlisted u.number us (ground arith), distinct_numbers-Distinct us (ground arith))

table-Distinct : DistinctNumbers error_map_table
unfolding error_map_table distinct_numbers
table-Distinct = distinct_numbers-Distinct error_map_table refl

-- decode_error answers the number of every entry of error_map_table with the message of that entry:
-- no entry is hidden by an earlier one with its number.
pub decode_error-Has : (u : ErrorUnit) → Has u error_map_table → decode_error u.number ≡ u.message
unfolding decode_error
decode_error-Has u = find_message-Has u error_map_table table-Distinct

-- decode_error answers a code that is the number of no entry with the default message.
pub decode_error-Unlisted :
    (e : ErrorCode) → Unlisted e error_map_table → decode_error e ≡ default_error_message
unfolding decode_error
decode_error-Unlisted e = find_message-Unlisted e error_map_table
