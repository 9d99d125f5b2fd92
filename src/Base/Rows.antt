-- ===== src/Base/Rows.antt =====
-- A table as a list of rows, newest first, whose keys descend below the table's next key.
use Prim.Native.Nat.{ℕ, suc, ◌<◌, ◌≤◌}
use mathlib.Core.Path.{subst, ◌≡◌, refl, ap}
use mathlib.Core.Logic.{◌≢◌, inl, inr}
use mathlib.Core.Bool.{Bool, true, ◌&&◌}
use mathlib.Core.Option.{some, none}
use mathlib.Core.List.{List, [], ◌∷◌, ◌++◌, map}
use native.Mathlib.Omega.{arith}
use ccb_api.Base.Tests.{if◌then◌else◌, ◌==◌, is_some, Bool-cases}
use ccb_api.Base.Lists.{length, find, count_if, filter, All}

module _ {A : Type 0} where
  -- `repository.save` of a row that is in the table: the row with its key is replaced.
  abbrev pub replace_row : (A → ℕ) → A → List A → List A
  replace_row key y [] = []
  replace_row key y (x ∷ xs) = if key x == key y then y ∷ xs else x ∷ replace_row key y xs

  abbrev pub IsDescending : (A → ℕ) → ℕ → List A → Type 0
  IsDescending key b [] = Unit {0}
  IsDescending key b (x ∷ xs) = (key x < b) × IsDescending key (key x) xs

  pub find_bound :
      (key : A → ℕ) (p : A → Bool) (b : ℕ) (xs : List A) {x : A}
      → IsDescending key b xs
      → find p xs ≡ some x
      → key x < b
  find_bound key p b [] d e = cc
  find_bound key p b (y ∷ xs) {x} d e = ground (arith, find_bound key p (key y) xs {x = x} d.1)

  pub find_holds : (p : A → Bool) (xs : List A) {x : A} → find p xs ≡ some x → p x ≡ true
  find_holds p [] e = cc
  find_holds p (y ∷ xs) {x} e = ground (arith, find_holds p xs {x = x})

  pub replace_row-IsDescending :
      (key : A → ℕ) (b : ℕ) (y : A) (xs : List A)
      → IsDescending key b xs
      → IsDescending key b (replace_row key y xs)
  replace_row-IsDescending key b y [] d = tt
  replace_row-IsDescending key b y (x ∷ xs) d =
      ground (arith, replace_row-IsDescending key (key x) y xs d.1)

  -- The row that a query finds is replaced, and the query finds the new row.
  pub find-replace_row_self :
      (key : A → ℕ) (p : A → Bool) (b : ℕ) (y : A) (xs : List A) {x : A}
      → IsDescending key b xs
      → find p xs ≡ some x
      → key y ≡ key x
      → p y ≡ true
      → find p (replace_row key y xs) ≡ some y
  find-replace_row_self key p b y [] d e k h = cc
  find-replace_row_self key p b y (z ∷ xs) {x} d e k h = ground (
    arith,
    find-replace_row_self key p (key z) y xs {x = x} d.1,
    find_bound key p (key z) xs {x = x} d.1,
  )

  -- A row is found by its key after it has been saved, and the other rows are as they were.
  pub find-replace_row_key :
      (key : A → ℕ) (k : ℕ) (y : A) (xs : List A) {x : A}
      → find (λ r. key r == k) xs ≡ some x
      → key y ≡ k
      → find (λ r. key r == k) (replace_row key y xs) ≡ some y
  find-replace_row_key key k y [] e h = cc
  find-replace_row_key key k y (z ∷ xs) {x} e h =
      ground (arith, find-replace_row_key key k y xs {x = x})

  pub find-replace_row_other :
      (key : A → ℕ) (k : ℕ) (y : A) (xs : List A)
      → k ≢ key y
      → find (λ r. key r == k) (replace_row key y xs) ≡ find (λ r. key r == k) xs
  find-replace_row_other key k y [] n = refl
  find-replace_row_other key k y (x ∷ xs) n = ground (arith, find-replace_row_other key k y xs n)

  -- A change of rows that keeps their keys.
  pub map-IsDescending :
      (key : A → ℕ) (f : A → A) (b : ℕ) (xs : List A)
      → ((x : A) → key (f x) ≡ key x)
      → IsDescending key b xs
      → IsDescending key b (map f xs)
  map-IsDescending key f b [] same d = tt
  map-IsDescending key f b (x ∷ xs) same d =
      ground (arith, same x, map-IsDescending key f (key x) xs same d.1)

  -- What a replaced row adds to a count: nothing, if the new row counts only if the old one did.
  pub count_if-replace_row :
      (key : A → ℕ) (p : A → Bool) (y : A) (xs : List A) {x : A}
      → find (λ r. key r == key y) xs ≡ some x
      → (p y ≡ true → p x ≡ true)
      → count_if p (replace_row key y xs) ≤ count_if p xs
  count_if-replace_row key p y [] e h = omega arith
  count_if-replace_row key p y (r ∷ xs) {x} e h =
      ground (arith, count_if-replace_row key p y xs {x = x})

  pub length-snoc : (xs : List A) (x : A) → length (xs ++ x ∷ []) ≡ suc (length xs)
  length-snoc [] x = refl
  length-snoc (y ∷ xs) x = ap suc (length-snoc xs x)

  pub count_if-absent : (p : A → Bool) (xs : List A) → find p xs ≡ none → count_if p xs ≡ 0
  count_if-absent p [] e = refl
  count_if-absent p (x ∷ xs) e = ground (arith, count_if-absent p xs)

  pub find-append :
      (p : A → Bool) (new xs : List A)
      → is_some (find p xs) ≡ true
      → is_some (find p (new ++ xs)) ≡ true
  find-append p [] xs e = e
  find-append p (y ∷ new) xs e = ground (arith, find-append p new xs e)

  pub filter_congr :
      (p q : A → Bool) (xs : List A) → All (λ x. p x ≡ q x) xs → filter p xs ≡ filter q xs
  filter_congr p q [] h = refl
  filter_congr p q (x ∷ xs) h = ground (arith, h.0, filter_congr p q xs h.1)

  pub All-imp {κ μ} :
      {P : A → Type κ} {Q : A → Type μ} (xs : List A) → ((x : A) → P x → Q x) → All P xs → All Q xs
  All-imp [] f h = tt
  All-imp (x ∷ xs) f h = (f x h.0, All-imp xs f h.1)

  pub All-append {κ} : (P : A → Type κ) (xs ys : List A) → All P xs → All P ys → All P (xs ++ ys)
  All-append P [] ys h k = k
  All-append P (x ∷ xs) ys h k = (h.0, All-append P xs ys h.1 k)

  -- The rows that pass a test satisfy what it decides.
  pub All-filter {κ} :
      (P : A → Type κ) (p : A → Bool) (xs : List A)
      → All P xs
      → All (λ x. (p x ≡ true) × P x) (filter p xs)
  All-filter P p [] h = tt
  All-filter P p (x ∷ xs) h = elim (Bool-cases (p x)) [
    | inl e ↦ rw e ((e, h.0), All-filter P p xs h.1)
    | inr e ↦ rw e (All-filter P p xs h.1)
  ]

  pub find-filter :
      (p q : A → Bool) (xs : List A) → find p (filter q xs) ≡ find (λ x. q x && p x) xs
  find-filter p q [] = refl
  find-filter p q (x ∷ xs) = ground (arith, find-filter p q xs)

  pub filter_ext :
      (p q : A → Bool) (xs : List A) → ((x : A) → p x ≡ q x) → filter p xs ≡ filter q xs
  filter_ext p q [] h = refl
  filter_ext p q (x ∷ xs) h = ground (arith, h x, filter_ext p q xs h)

  pub filter-filter :
      (p q : A → Bool) (xs : List A) → filter p (filter q xs) ≡ filter (λ x. q x && p x) xs
  filter-filter p q [] = refl
  filter-filter p q (x ∷ xs) = ground (arith, filter-filter p q xs)

  pub find_congr : (p q : A → Bool) (xs : List A) → ((x : A) → p x ≡ q x) → find p xs ≡ find q xs
  find_congr p q [] h = refl
  find_congr p q (x ∷ xs) h = ground (arith, h x, find_congr p q xs h)

  pub find-All {κ} :
      (P : A → Type κ) (p : A → Bool) (xs : List A) {x : A} → find p xs ≡ some x → All P xs → P x
  find-All P p [] e h = absurd (ground arith)
  find-All P p (y ∷ xs) {x} e h = elim (Bool-cases (p y)) [
    | inl q ↦ let same : y ≡ x = ground arith in subst P same h.0
    | inr q ↦ find-All P p xs (ground arith) h.1
  ]
