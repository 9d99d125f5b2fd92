-- ===== src/Validation/Rows.antt =====
-- `validateRows`, `worstSeverityPerRow` and `getWorstErrorPerRow`. A row is given by what trimming
-- and `Number` make of its cells.
use ccb_api.Base.{
  ℕ, suc, ◌-◌, Bool, true, false, Option, none, some, List, [], ◌∷◌, ◌++◌, map, ltb, ◌==◌,
  if◌then◌else◌, length, distinct, count_if,
}
use ccb_api.Base.Result.{Message, text}
use ccb_api.Readiness.Data.{AnomalySeverity, critical, high, medium, low}

-- A reading's cell: blank, no number, a number below 0, or another number.
pub data Reading : Type 0 where
  blank not_numeric negative fine : Reading

-- Whether the other cells have a text.
pub record Row : Type 0 where
  pub has_meter_id : Bool
  pub has_reading_date : Bool
  pub reading_value : Reading
  pub has_unit : Bool

pub data Field : Type 0 where
  meter_id reading_date reading_value unit : Field

pub record RowError : Type 0 where
  pub row : ℕ
  pub field : Field
  pub message : Message
  pub severity : AnomalySeverity

-- `SEVERITY_RANK`
abbrev pub severity_rank : AnomalySeverity → ℕ
severity_rank critical = 4
severity_rank high = 3
severity_rank medium = 2
severity_rank low = 1

abbrev pub error_unless : Bool → RowError → List RowError
error_unless true e = []
error_unless false e = e ∷ []

abbrev pub value_errors : ℕ → Reading → List RowError
value_errors n Reading.blank =
    record {
      row = n;
      field = Field.reading_value;
      message = text "reading_value is required";
      severity = high;
    }
    ∷ []
value_errors n Reading.not_numeric =
    record {
      row = n;
      field = Field.reading_value;
      message = text "reading_value must be numeric";
      severity = high;
    }
    ∷ []
value_errors n Reading.negative =
    record {
      row = n;
      field = Field.reading_value;
      message = text "Value cannot be negative";
      severity = medium;
    }
    ∷ []
value_errors n Reading.fine = []

abbrev pub required : ℕ → Field → Message → AnomalySeverity → RowError
required n field message severity = record {
  row = n;
  field = field;
  message = message;
  severity = severity;
}

unfoldable pub row_errors : ℕ → Row → List RowError
row_errors n r =
    error_unless r.has_meter_id (required n Field.meter_id (text "meter_id is required") critical)
    ++ (error_unless r.has_reading_date
          (required n Field.reading_date (text "reading_date is required") low)
        ++ (value_errors n r.reading_value
            ++ error_unless r.has_unit (required n Field.unit (text "unit is required") low)))

-- The errors of the rows, which are numbered from `n`.
unfoldable pub all_errors : ℕ → List Row → List RowError
all_errors n [] = []
all_errors n (r ∷ rows) = row_errors n r ++ all_errors (suc n) rows

-- A `Map` from row numbers, the entry added last first.
abbrev pub get {ℓ} : {A : Type ℓ} → ℕ → List (ℕ × A) → Option A
get k [] = none
get k ((j, a) ∷ rest) = if j == k then some a else get k rest

abbrev pub replace {ℓ} : {A : Type ℓ} → ℕ → A → List (ℕ × A) → List (ℕ × A)
replace k a [] = []
replace k a ((j, b) ∷ rest) = if j == k then (j, a) ∷ rest else (j, b) ∷ replace k a rest

-- The step of both loops: an entry gives way only to an error of a higher rank.
unfoldable pub keep_worst : RowError → List (ℕ × RowError) → List (ℕ × RowError)
keep_worst e worst = elim (get e.row worst) [
  | none ↦ (e.row, e) ∷ worst
  | some current ↦
      if ltb (severity_rank current.severity) (severity_rank e.severity)
      then replace e.row e worst
      else worst
]

unfoldable pub worst_per_row : List RowError → List (ℕ × RowError) → List (ℕ × RowError)
worst_per_row [] worst = worst
worst_per_row (e ∷ errors) worst = worst_per_row errors (keep_worst e worst)

unfoldable pub get_worst_error_per_row : List RowError → List (ℕ × RowError)
get_worst_error_per_row errors = worst_per_row errors []

pub record SeverityCounts : Type 0 where
  pub critical : ℕ
  pub high : ℕ
  pub medium : ℕ
  pub low : ℕ

-- The step of the loop that keeps only the severities.
unfoldable pub keep_severity : RowError → List (ℕ × AnomalySeverity) → List (ℕ × AnomalySeverity)
keep_severity e worst = elim (get e.row worst) [
  | none ↦ (e.row, e.severity) ∷ worst
  | some current ↦
      if ltb (severity_rank current) (severity_rank e.severity)
      then replace e.row e.severity worst
      else worst
]

unfoldable pub severities : List RowError → List (ℕ × AnomalySeverity) → List (ℕ × AnomalySeverity)
severities [] worst = worst
severities (e ∷ errors) worst = severities errors (keep_severity e worst)

abbrev pub has_rank : ℕ → ℕ × AnomalySeverity → Bool
has_rank rank (k, s) = severity_rank s == rank

unfoldable pub worst_severity_per_row : List RowError → SeverityCounts
unfolding severities
worst_severity_per_row errors =
    let worst = severities errors [] in
    record {
      critical = count_if (has_rank (severity_rank critical)) worst;
      high = count_if (has_rank (severity_rank high)) worst;
      medium = count_if (has_rank (severity_rank medium)) worst;
      low = count_if (has_rank (severity_rank low)) worst;
    }

pub record RowValidationResult : Type 0 where
  pub valid : Bool
  pub total_rows : ℕ
  pub valid_rows : ℕ
  pub invalid_rows : ℕ
  pub errors : List RowError
  pub severity_counts : SeverityCounts

abbrev pub is_nil {ℓ} : {A : Type ℓ} → List A → Bool
is_nil [] = true
is_nil (x ∷ xs) = false

unfoldable pub validate_rows : List Row → RowValidationResult
unfolding all_errors
validate_rows rows =
    let errors = all_errors 1 rows in
    let invalid = length (distinct [] (map (λ e. e.row) errors)) in
    record {
      valid = is_nil errors;
      total_rows = length rows;
      valid_rows = length rows - invalid;
      invalid_rows = invalid;
      errors = errors;
      severity_counts = worst_severity_per_row errors;
    }
