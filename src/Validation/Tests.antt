-- ===== src/Validation/Tests.antt =====
-- The validation theorems at three rows, of which two have errors.
use ccb_api.Base.{some, ℕ, ◌+◌, ◌≡◌, ◌↔◌, true, false, List, [], ◌∷◌, All, count_if}
use ccb_api.Base.Result.{text}
use ccb_api.Readiness.Data.{high, low}
use ccb_api.Validation.Rows.{
  get, Reading, Field, Row, RowError, get_worst_error_per_row, validate_rows,
}
use ccb_api.Validation.Counts.{is_invalid, total_of, validate_rows-counts}
use ccb_api.Validation.Worst.{IsOneOf, IsKept, get_worst_error_per_row-IsWorst}

abbrev cells : Reading → Row
cells v = record {
  has_meter_id = true;
  has_reading_date = false;
  reading_value = v;
  has_unit = true;
}

abbrev file_rows : List Row
file_rows =
    cells Reading.negative
    ∷ record (cells Reading.fine) { has_reading_date = true }
    ∷ cells Reading.blank
    ∷ []

validate_rows-counts_example :
    ((validate_rows file_rows).invalid_rows ≡ count_if is_invalid file_rows)
    × ((validate_rows file_rows).valid_rows + (validate_rows file_rows).invalid_rows
        ≡ (validate_rows file_rows).total_rows)
    × (total_of (validate_rows file_rows).severity_counts ≡ (validate_rows file_rows).invalid_rows)
    × (((validate_rows file_rows).valid ≡ true) ↔ ((validate_rows file_rows).invalid_rows ≡ 0))
validate_rows-counts_example = validate_rows-counts file_rows

abbrev late : RowError
late = record {
  row = 3;
  field = Field.reading_date;
  message = text "reading_date is required";
  severity = low;
}

abbrev empty_value : RowError
empty_value = record {
  row = 3;
  field = Field.reading_value;
  message = text "reading_value is required";
  severity = high;
}

abbrev two_errors : List RowError
two_errors = late ∷ empty_value ∷ []

get_worst_error_per_row-IsWorst_example :
    All (λ e. IsKept e (get_worst_error_per_row two_errors)) two_errors
    × ((k : ℕ) (w : RowError)
        → get k (get_worst_error_per_row two_errors) ≡ some w
        → (w.row ≡ k) × IsOneOf w two_errors)
get_worst_error_per_row-IsWorst_example = get_worst_error_per_row-IsWorst two_errors
