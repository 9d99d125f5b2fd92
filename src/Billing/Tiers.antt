-- ===== src/Billing/Tiers.antt =====
-- The charge of a tiered tariff against a description without a loop: each tier is charged for the
-- part of the consumption that lies between its bounds.
use ccb_api.Base.{
  Bool, true, false, ◌/◌, ℕ, zero, suc, ◌+◌, ◌-◌, ◌*◌, ◌≤◌, ◌≡◌, refl, none, some, List, [], ◌∷◌,
  arith, ltb, if◌then◌else◌, All, Option-cases, inl, inr,
}
use ccb_api.Base.Int.{pos, min_ℤ, pos-add, pos-sub, pos-mul, round_div}
use ccb_api.Billing.Data.{TariffTier}
use ccb_api.Billing.Charges.{charge_tiers, band_max, to_cents}

-- A tier that ends where it starts or above, or is open.
abbrev pub IsForward : TariffTier → Type 0
IsForward t = elim t.max_kwh [ none ↦ Unit {0} | some m ↦ t.min_kwh ≤ m ]

-- The part of what remains that a tier takes.
abbrev pub taken : TariffTier → ℕ → ℕ
taken t r = elim t.max_kwh [
  | none ↦ r
  | some m ↦ if ltb (100 * m - 100 * t.min_kwh) r then 100 * m - 100 * t.min_kwh else r
]

-- The loop on numbers.
abbrev pub charge_from : List TariffTier → ℕ → ℕ
charge_from [] r = 0
charge_from (t ∷ tiers) r = taken t r * t.rate_per_kwh + charge_from tiers (r - taken t r)

taken-le : (t : TariffTier) (r : ℕ) → taken t r ≤ r
taken-le t r = ground arith

charge_from-zero : (tiers : List TariffTier) → charge_from tiers 0 ≡ 0
charge_from-zero [] = refl
charge_from-zero (t ∷ tiers) = elim (Option-cases t.max_kwh) [
  | inl e ↦ ground (arith, charge_from-zero tiers)
  | inr (m, e) ↦ ground (arith, charge_from-zero tiers)
]

min-taken :
    (t : TariffTier) (r : ℕ) → IsForward t → min_ℤ (pos r) (band_max t (pos r)) ≡ pos (taken t r)
min-taken t r f = elim (Option-cases t.max_kwh) [
  | inl e ↦ ground arith
  | inr (m, e) ↦ ground (arith, pos-sub (100 * m) (100 * t.min_kwh))
]

pub charge_tiers-eq :
    (tiers : List TariffTier) (r a : ℕ)
    → All IsForward tiers
    → charge_tiers tiers (pos r) (pos a) ≡ pos (a + charge_from tiers r)
unfolding charge_tiers
charge_tiers-eq [] r a f = ground arith
charge_tiers-eq (t ∷ tiers) zero a f = ground (arith, charge_from-zero (t ∷ tiers))
charge_tiers-eq (t ∷ tiers) (suc r) a f =
    let n = taken t (suc r) in
    rw
      (
        min-taken t (suc r) f.0,
        pos-sub (suc r) n (taken-le t (suc r)),
        pos-mul n t.rate_per_kwh,
        pos-add a (n * t.rate_per_kwh),
        charge_tiers-eq tiers (suc r - n) (a + n * t.rate_per_kwh) f.1,
      )
      (ground arith)

-- The bounds of a tier: each starts where the one below ends, and only the last may be open.
abbrev pub IsContiguous : ℕ → List TariffTier → Type 0
IsContiguous from [] = Unit {0}
IsContiguous from (t ∷ tiers) =
    (t.min_kwh ≡ from)
    × elim t.max_kwh [ none ↦ tiers ≡ [] | some m ↦ (from ≤ m) × IsContiguous m tiers ]

-- The part of a consumption that lies between the bounds of a tier.
abbrev pub overlap : ℕ → TariffTier → ℕ
overlap kwh t = elim t.max_kwh [
  | none ↦ kwh - 100 * t.min_kwh
  | some m ↦ (if ltb kwh (100 * m) then kwh else 100 * m) - 100 * t.min_kwh
]

abbrev pub overlap_charge : ℕ → List TariffTier → ℕ
overlap_charge kwh [] = 0
overlap_charge kwh (t ∷ tiers) = overlap kwh t * t.rate_per_kwh + overlap_charge kwh tiers

-- A rounded quotient: no other integer is nearer to the exact one, which may be half-way to another.
abbrev pub IsNearest : ℕ → ℕ → ℕ → Type 0
IsNearest scale exact rounded =
    (2 * exact ≤ 2 * (scale * rounded) + scale) × (2 * (scale * rounded) ≤ 2 * exact + scale)

pub to_cents-IsNearest :
    (up : Bool) (n : ℕ) → (c : ℕ) × (to_cents up (pos n) ≡ pos c) × IsNearest 1000000 n c
unfolding round_div
to_cents-IsNearest true n = ((2 * n + 1000000 - 0) / 2000000, refl, (omega arith, omega arith))
to_cents-IsNearest false n = ((2 * n + 1000000 - 1) / 2000000, refl, (omega arith, omega arith))
