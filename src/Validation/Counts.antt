-- ===== src/Validation/Counts.antt =====
-- The counts of the summary: rows with an error, rows without, and rows by their worst severity.
use ccb_api.Base.{
  ℕ, suc, ◌+◌, ◌≡◌, refl, ◌↔◌, ◌≤◌, ◌<◌, Bool, true, false, not, none, some, List, [], ◌∷◌, ◌++◌,
  map, arith, ◌==◌, length, distinct, count_if, All, any, Bool-cases, inl, inr, ◌⊎◌,
}
use ccb_api.Validation.Rows.{
  Row, RowError, row_errors, all_errors, keep_severity, severities, worst_severity_per_row,
  SeverityCounts, validate_rows, is_nil, get, replace, has_rank,
}
use ccb_api.Readiness.Data.{AnomalySeverity, critical, high, medium, low}

-- A row with an error.
abbrev pub is_invalid : Row → Bool
is_invalid r = not (is_nil (row_errors 0 r))

abbrev rows_of : List RowError → List ℕ
rows_of = map (λ e. e.row)

abbrev AreBelow : ℕ → List ℕ → Type 0
AreBelow n = All (λ k. k < n)

below_unseen : (n : ℕ) (seen : List ℕ) → AreBelow n seen → any (λ y. y == n) seen ≡ false
below_unseen n [] h = refl
below_unseen n (k ∷ seen) h = ground (arith, below_unseen n seen h.1)

below_suc : (n : ℕ) (seen : List ℕ) → AreBelow n seen → AreBelow (suc n) seen
below_suc n [] h = tt
below_suc n (k ∷ seen) h = (omega (arith, h.0), below_suc n seen h.1)

-- The errors of one row add its number once, if there are any.
row_errors-distinct :
    (n : ℕ) (r : Row) (rest : List RowError) (seen : List ℕ)
    → any (λ y. y == n) seen ≡ false
    → distinct seen (map (λ (e : RowError). e.row) (row_errors n r ++ rest))
      ≡ (elim (is_invalid r) [
        | true ↦ n ∷ distinct (n ∷ seen) (map (λ (e : RowError). e.row) rest)
        | false ↦ distinct seen (map (λ (e : RowError). e.row) rest)
      ])
unfolding row_errors
row_errors-distinct n r rest seen h = ground arith

all_errors-count :
    (n : ℕ) (rows : List Row) (seen : List ℕ)
    → AreBelow n seen
    → length (distinct seen (rows_of (all_errors n rows))) ≡ count_if is_invalid rows
unfolding all_errors
all_errors-count n [] seen h = refl
all_errors-count n (r ∷ rows) seen h =
    rw (row_errors-distinct n r (all_errors (suc n) rows) seen (below_unseen n seen h))
      (elim (Bool-cases (is_invalid r)) [
        | inl bad ↦ rw bad (
            ground
              (arith, all_errors-count (suc n) rows (n ∷ seen) (omega arith, below_suc n seen h)))
        | inr good ↦ rw good (all_errors-count (suc n) rows seen (below_suc n seen h))
      ])

-- The rows that a map has.
abbrev keys : List (ℕ × AnomalySeverity) → List ℕ
keys = map (λ (x : ℕ × AnomalySeverity). x.0)

get-keys :
    (k : ℕ) (m : List (ℕ × AnomalySeverity))
    → ((get k m ≡ none) × (any (λ y. y == k) (keys m) ≡ false))
      ⊎ ((s : AnomalySeverity) × (get k m ≡ some s) × (any (λ y. y == k) (keys m) ≡ true))
get-keys k [] = inl (refl, refl)
get-keys k ((j, s) ∷ m) = ground (arith, get-keys k m)

replace-keys :
    (k : ℕ) (s : AnomalySeverity) (m : List (ℕ × AnomalySeverity)) → keys (replace k s m) ≡ keys m
replace-keys k s [] = refl
replace-keys k s ((j, b) ∷ m) = ground (arith, replace-keys k s m)

keep_severity-keys :
    (e : RowError) (m : List (ℕ × AnomalySeverity))
    → ((keys (keep_severity e m) ≡ e.row ∷ keys m) × (any (λ y. y == e.row) (keys m) ≡ false))
      ⊎ ((keys (keep_severity e m) ≡ keys m) × (any (λ y. y == e.row) (keys m) ≡ true))
unfolding keep_severity
keep_severity-keys e m = elim (get-keys e.row m) [
  | inl (absent, new) ↦ inl (ground arith, new)
  | inr (s, present, old) ↦ inr (ground (arith, replace-keys e.row e.severity m), old)
]

-- One entry for each different row.
severities-keys :
    (errors : List RowError) (m : List (ℕ × AnomalySeverity))
    → length (keys (severities errors m))
      ≡ length (keys m) + length (distinct (keys m) (rows_of errors))
unfolding severities
severities-keys [] m = omega arith
severities-keys (e ∷ errors) m = elim (keep_severity-keys e m) [
  | inl (more, new) ↦
      let ih = severities-keys errors (keep_severity e m) in
      let ih' = rw (more) at ih in rw (new) (omega (arith, ih'))
  | inr (same, old) ↦
      let ih = severities-keys errors (keep_severity e m) in
      let ih' = rw (same) at ih in rw (old) ih'
]

-- Each entry has one of the four ranks.
counts-total :
    (m : List (ℕ × AnomalySeverity))
    → count_if (has_rank 4) m
        + (count_if (has_rank 3) m + (count_if (has_rank 2) m + count_if (has_rank 1) m))
      ≡ length (keys m)
counts-total [] = refl
counts-total ((k, critical) ∷ m) = ground (arith, counts-total m)
counts-total ((k, high) ∷ m) = ground (arith, counts-total m)
counts-total ((k, medium) ∷ m) = ground (arith, counts-total m)
counts-total ((k, low) ∷ m) = ground (arith, counts-total m)

count_if-le-length : (p : Row → Bool) (rows : List Row) → count_if p rows ≤ length rows
count_if-le-length p [] = omega arith
count_if-le-length p (r ∷ rows) = ground (arith, count_if-le-length p rows)

all_errors-nil_iff :
    (n : ℕ) (rows : List Row) → (is_nil (all_errors n rows) ≡ true) ↔ (count_if is_invalid rows ≡ 0)
unfolding all_errors row_errors
all_errors-nil_iff n [] = ground arith
all_errors-nil_iff n (r ∷ rows) = ground (arith, all_errors-nil_iff (suc n) rows)

-- The sum of the four counts.
abbrev pub total_of : SeverityCounts → ℕ
total_of c = c.critical + (c.high + (c.medium + c.low))

-- The summary of any rows counts as invalid exactly the rows that have an error, and as valid the
-- others; the counts by worst severity add up to the invalid rows; and the summary is valid exactly
-- when no row is invalid.
pub validate_rows-counts :
    (rows : List Row)
    → let r = validate_rows rows in
      (r.invalid_rows ≡ count_if is_invalid rows)
      × (r.valid_rows + r.invalid_rows ≡ r.total_rows)
      × (total_of r.severity_counts ≡ r.invalid_rows)
      × ((r.valid ≡ true) ↔ (r.invalid_rows ≡ 0))
unfolding validate_rows worst_severity_per_row
validate_rows-counts rows =
    let invalid = all_errors-count 1 rows [] tt in
    let errors = all_errors 1 rows in
    let worst = severities-keys errors [] in
    (
      invalid,
      omega (arith, invalid, count_if-le-length is_invalid rows),
      omega (arith, counts-total (severities errors []), worst),
      rw (invalid) (all_errors-nil_iff 1 rows),
    )
