-- ===== src/Base/Result.antt =====
-- A request's outcome: a value, or the HTTP exception that the service throws. A message is a
-- template: its fixed texts and the numbers that it names, some padded with zeros to a width, some
-- decimals: `decimal d n` is n / 10 ^ d as it is printed.
use Prim.Native.Nat.{ℕ}
use Prim.Native.String.{String}
use mathlib.Core.Path.{◌≡◌, refl}
use mathlib.Core.Logic.{◌⊎◌, inl, inr}
use mathlib.Core.Bool.{Bool, true, false}
use mathlib.Core.Option.{Option, none, some}
use mathlib.Core.List.{List, [], ◌∷◌, ◌++◌}

pub data Part : Type 0 where
  lit : String → Part
  num : ℕ → Part
  padded : (width value : ℕ) → Part
  decimal : (digits value : ℕ) → Part

abbrev pub Message : Type 0
Message = List Part

abbrev pub text : String → Message
text s = lit s ∷ []

-- `messages.join(separator)`
abbrev pub join : Message → List Message → Message
join sep [] = []
join sep (m ∷ []) = m
join sep (m ∷ n ∷ ms) = m ++ (sep ++ join sep (n ∷ ms))

pub data HttpError : Type 0 where
  not_found bad_request conflict forbidden : Message → HttpError

-- What a call returns or throws.
pub data Result {ℓ} (T : Type ℓ) : Type ℓ where
  err : HttpError → Result T
  ok : T → Result T

-- `await` of a call inside another: what it throws is thrown on.
infixl 5 ◌>>=◌ ◌>>◌
abbrev pub ◌>>=◌ {ℓ κ} : {T : Type ℓ} {U : Type κ} → Result T → (T → Result U) → Result U
err thrown >>= next = err thrown
ok value >>= next = next value

abbrev pub ◌>>◌ {κ} : {U : Type κ} (check : Result (Unit {0})) (rest : Result U) → Result U
err thrown >> rest = err thrown
ok done >> rest = rest

-- `if (test) throw e;`
abbrev pub throw_if : Bool → HttpError → Result (Unit {0})
throw_if true e = err e
throw_if false e = ok tt

-- `if (!value) throw e;`
abbrev pub or_throw {ℓ} : {A : Type ℓ} → Option A → HttpError → Result A
or_throw none e = err e
or_throw (some a) e = ok a

pub Result-cases {ℓ} :
    {T : Type ℓ} (m : Result T) → ((t : T) × (m ≡ ok t)) ⊎ ((e : HttpError) × (m ≡ err e))
Result-cases (err e) = inr (e, refl)
Result-cases (ok t) = inl (t, refl)
