-- ===== src/Validation/Worst.antt =====
-- The error that is kept for each row.
use ccb_api.Base.{
  ℕ, ◌≡◌, refl, ◌≢◌, ◌≤◌, some, List, [], ◌∷◌, arith, ◌==◌, ltb, All, Option-cases, Bool-cases, inl,
  inr, ◌⊎◌,
}
use ccb_api.Validation.Rows.{
  RowError, keep_worst, worst_per_row, get_worst_error_per_row, get, replace, severity_rank,
}

-- An error of the list.
abbrev pub IsOneOf : RowError → List RowError → Type 0
IsOneOf w [] = ⊥
IsOneOf w (e ∷ errors) = (w ≡ e) ⊎ IsOneOf w errors

-- The row has an error that is kept, at least as severe as the given one.
abbrev pub IsKept : RowError → List (ℕ × RowError) → Type 0
IsKept e m =
    (w : RowError) × (get e.row m ≡ some w) × (severity_rank e.severity ≤ severity_rank w.severity)

get-replace_self :
    (k : ℕ) (e : RowError) (m : List (ℕ × RowError)) {v : RowError}
    → get k m ≡ some v
    → get k (replace k e m) ≡ some e
get-replace_self k e [] h = cc
get-replace_self k e ((j, b) ∷ m) {v} h = ground (arith, get-replace_self k e m {v = v})

get-replace_ne :
    (k j : ℕ) (e : RowError) (m : List (ℕ × RowError)) → k ≢ j → get k (replace j e m) ≡ get k m
get-replace_ne k j e [] h = refl
get-replace_ne k j e ((i, b) ∷ m) h = ground (arith, get-replace_ne k j e m h)

-- What a step leaves at the row of its error.
keep_worst_self : (e : RowError) (m : List (ℕ × RowError)) → IsKept e (keep_worst e m)
unfolding keep_worst
keep_worst_self e m = elim (Option-cases (get e.row m)) [
  | inl absent ↦ (e, ground arith, omega arith)
  | inr (v, present) ↦
      elim (Bool-cases (ltb (severity_rank v.severity) (severity_rank e.severity))) [
        | inl worse ↦ (e, ground (arith, get-replace_self e.row e m present), omega arith)
        | inr same ↦ (v, ground arith, ground arith)
      ]
]

-- A step keeps what was kept.
keep_worst-IsKept :
    (e d : RowError) (m : List (ℕ × RowError)) → IsKept d m → IsKept d (keep_worst e m)
unfolding keep_worst
keep_worst-IsKept e d m (v, present, rank) = elim (Bool-cases (d.row == e.row)) [
  | inl same ↦
      let here : d.row ≡ e.row = ground arith in
      elim (Bool-cases (ltb (severity_rank v.severity) (severity_rank e.severity))) [
        | inl worse ↦ (e, ground (arith, get-replace_self e.row e m {v = v}), ground arith)
        | inr better ↦ (v, ground arith, rank)
      ]
  | inr other ↦ elim (Option-cases (get e.row m)) [
    | inl absent ↦ (v, ground arith, rank)
    | inr (u, found) ↦ (v, ground (arith, get-replace_ne d.row e.row e m), rank)
  ]
]

worst_per_row-IsKept :
    (errors : List RowError) (m : List (ℕ × RowError)) (d : RowError)
    → IsKept d m
    → IsKept d (worst_per_row errors m)
unfolding worst_per_row
worst_per_row-IsKept [] m d h = h
worst_per_row-IsKept (e ∷ errors) m d h =
    worst_per_row-IsKept errors (keep_worst e m) d (keep_worst-IsKept e d m h)

worst_per_row-covers :
    (errors : List RowError) (m : List (ℕ × RowError))
    → All (λ e. IsKept e (worst_per_row errors m)) errors
unfolding worst_per_row
worst_per_row-covers [] m = tt
worst_per_row-covers (e ∷ errors) m = (
  worst_per_row-IsKept errors (keep_worst e m) e (keep_worst_self e m),
  worst_per_row-covers errors (keep_worst e m),
)

-- Every entry of a map is an error of its row, from the list.
abbrev pub AreFrom : List RowError → List (ℕ × RowError) → Type 0
AreFrom errors m = (k : ℕ) (w : RowError) → get k m ≡ some w → (w.row ≡ k) × IsOneOf w errors

keep_worst-AreFrom :
    (all : List RowError) (e : RowError) (m : List (ℕ × RowError))
    → IsOneOf e all
    → AreFrom all m
    → AreFrom all (keep_worst e m)
unfolding keep_worst
keep_worst-AreFrom all e m listed h k w found = elim (Bool-cases (k == e.row)) [
  | inl same ↦
      let here : e.row ≡ k = ground arith in
      elim (Option-cases (get e.row m)) [
        | inl absent ↦ let it : w ≡ e = ground arith in (ground arith, rw it listed)
        | inr (v, present) ↦
            elim (Bool-cases (ltb (severity_rank v.severity) (severity_rank e.severity))) [
              | inl worse ↦
                  let it : w ≡ e = ground (arith, get-replace_self e.row e m present) in
                  (ground arith, rw it listed)
              | inr better ↦ h k w (ground arith)
            ]
      ]
  | inr other ↦ elim (Option-cases (get e.row m)) [
    | inl absent ↦ h k w (ground arith)
    | inr (u, there) ↦ h k w (ground (arith, get-replace_ne k e.row e m))
  ]
]

-- The errors still to come are all from `all`.
AreAmong : List RowError → List RowError → Type 0
AreAmong all = All (λ e. IsOneOf e all)

among_more :
    (x : RowError) (all errors : List RowError) → AreAmong all errors → AreAmong (x ∷ all) errors
unfolding AreAmong
among_more x all [] h = tt
among_more x all (e ∷ errors) h = (inr h.0, among_more x all errors h.1)

among_self : (errors : List RowError) → AreAmong errors errors
unfolding AreAmong
among_self [] = tt
among_self (e ∷ errors) = (inl refl, among_more e errors errors (among_self errors))

worst_per_row-AreFrom :
    (all errors : List RowError) (m : List (ℕ × RowError))
    → AreAmong all errors
    → AreFrom all m
    → AreFrom all (worst_per_row errors m)
unfolding worst_per_row AreAmong
worst_per_row-AreFrom all [] m among h = h
worst_per_row-AreFrom all (e ∷ errors) m among h =
    worst_per_row-AreFrom all errors (keep_worst e m) among.1 (keep_worst-AreFrom all e m among.0 h)

-- For each error of any list, an error of the same row is kept whose severity is at least as high.
get_worst_error_per_row-IsKept :
    (errors : List RowError) → All (λ e. IsKept e (get_worst_error_per_row errors)) errors
unfolding get_worst_error_per_row
get_worst_error_per_row-IsKept errors = worst_per_row-covers errors []

-- The error kept for a row is one of the errors, and of that row.
get_worst_error_per_row-IsOneOf :
    (errors : List RowError) (k : ℕ) (w : RowError)
    → get k (get_worst_error_per_row errors) ≡ some w
    → (w.row ≡ k) × IsOneOf w errors
unfolding get_worst_error_per_row
get_worst_error_per_row-IsOneOf errors =
    worst_per_row-AreFrom errors errors [] (among_self errors) (λ k w found. ground arith)

-- For each error of any list, an error of the same row is kept whose severity is at least as high;
-- and the error kept for a row is one of the errors, and of that row.
pub get_worst_error_per_row-IsWorst :
    (errors : List RowError)
    → All (λ e. IsKept e (get_worst_error_per_row errors)) errors
      × ((k : ℕ) (w : RowError)
          → get k (get_worst_error_per_row errors) ≡ some w
          → (w.row ≡ k) × IsOneOf w errors)
get_worst_error_per_row-IsWorst errors =
    (get_worst_error_per_row-IsKept errors, get_worst_error_per_row-IsOneOf errors)
