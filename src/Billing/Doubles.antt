-- ===== src/Billing/Doubles.antt =====
-- The doubles with which a bill's amounts are computed, where their rounding decides: to which side of
-- a half the double of an amount falls that is exactly half-way between two results. A double is
-- a whole multiple of 2 ^ -200, which those of 10 ^ -30 and above are.
use ccb_api.Base.{
  ℕ, zero, suc, ◌-◌, ◌*◌, ◌/◌, ◌%◌, ◌^◌, Bool, ◌&&◌, ◌||◌, none, some, List, [], ◌∷◌, ltb, leb,
  ◌==◌, if◌then◌else◌, get_or_else, filter,
}
use ccb_api.Base.Int.{ℤ, pos, negsuc, sub_ℕ, ◌+ℤ◌, ◌-ℤ◌, ◌*ℤ◌, ltb_ℤ, min_ℤ, pos_part}
use ccb_api.Readiness.Current.{between}
use ccb_api.Billing.Data.{TariffRateType, TariffVersion, TariffTier, Halves, Reading, Sources}
use ccb_api.Billing.Charges.{
  consumption_taxable, service_fee_taxable, latest_first, value_of_reading, last_reading,
}

abbrev one : ℕ
one = 2 ^ 200

-- The number of binary digits.
unfoldable pub bit_length : ℕ → ℕ → ℕ
bit_length zero n = 0
bit_length (suc fuel) n = let rest = bit_length fuel (n / 2) in if n == 0 then 0 else suc rest

-- The double nearest to p / q: 53 digits, an even last one where two are as near. A quotient is
-- below 2 ^ 400, so that 600 digits are enough.
unfoldable pub nearest_ℕ : ℕ → ℕ → ℕ
nearest_ℕ p q =
    let unit = 2 ^ (bit_length 600 (p * one / q) - 53) in
    let m = p * one / (q * unit) in
    let r = p * one % (q * unit) in
    let up = ltb (q * unit) (2 * r) || ((2 * r == q * unit) && (m % 2 == 1)) in
    (if up then suc m else m) * unit

abbrev nearest : ℤ → ℕ → ℤ
nearest (pos n) q = pos (nearest_ℕ n q)
nearest (negsuc n) q = sub_ℕ 0 (nearest_ℕ (suc n) q)

abbrev add : ℤ → ℤ → ℤ
add a b = nearest (a +ℤ b) one

abbrev subtract : ℤ → ℤ → ℤ
subtract a b = nearest (a -ℤ b) one

abbrev multiply : ℤ → ℤ → ℤ
multiply a b = nearest (a *ℤ b) (one * one)

-- Times a power of ten, which is a double.
abbrev times : ℕ → ℤ → ℤ
times n a = nearest (a *ℤ pos n) one

-- Whether `Math.round` goes up from a number near a half.
abbrev half_up : ℤ → Bool
half_up (pos n) = leb one (2 * (n % one))
half_up (negsuc n) = leb (2 * (suc n % one)) one

-- The loop over the tiers.
unfoldable pub charge_loop : List TariffTier → ℤ → ℤ → ℤ
charge_loop [] remaining charge = charge
charge_loop (t ∷ tiers) remaining charge =
    let wide : ℤ = elim t.max_kwh [
      | none ↦ remaining
      | some m ↦ subtract (nearest (pos m) 100) (nearest (pos t.min_kwh) 100)
    ] in
    let band = min_ℤ remaining wide in
    let rest =
      charge_loop tiers (subtract remaining band)
        (add charge (multiply band (nearest (pos t.rate_per_kwh) 10000))) in
    if ltb_ℤ (pos 0) remaining then rest else charge

abbrev charge_of : ℤ → TariffVersion → List TariffTier → ℤ
charge_of kwh v tiers = elim v.rate_type [
  | TariffRateType.flat ↦ multiply kwh (nearest (pos (get_or_else v.flat_rate 0)) 10000)
  | TariffRateType.tiered ↦ charge_loop tiers kwh (pos 0)
]

abbrev vat_of : TariffVersion → ℤ → ℕ → ℤ
vat_of v charge fee =
    let vatable =
      add (if consumption_taxable v then nearest charge 100 else pos 0)
        (if service_fee_taxable v then nearest (pos fee) 100 else pos 0) in
    multiply vatable (nearest (nearest (pos (get_or_else v.vat 0)) 100) (100 * one))

-- The halves of a consumption whose double is given.
unfoldable pub halves_of : ℤ → Halves
unfolding nearest_ℕ charge_loop ◌+ℤ◌ ◌-ℤ◌ ◌*ℤ◌
halves_of kwh = record {
  charge_up = λ n v tiers. half_up (times 100 (charge_of kwh v tiers));
  rate_up = λ charge n. half_up (times 10000 (nearest (nearest charge 100) (pos_part kwh)));
  vat_up = λ v charge fee. half_up (times 100 (vat_of v charge fee));
  printed_up = λ n. half_up (kwh *ℤ pos 100);
}

-- The double of a consumption, from the doubles of the readings.
abbrev consumption_double : List Reading → ℤ
consumption_double [] = pos 0
consumption_double (r ∷ []) = pos 0
consumption_double (r ∷ s ∷ rows) =
    subtract (nearest (pos (value_of_reading r)) 10000)
      (nearest (pos (value_of_reading (last_reading s rows))) 10000)

-- The halves of the consumption of a unit in a period.
unfoldable pub halves_in : Sources → ℕ → ℕ → ℕ → Halves
unfolding halves_of nearest_ℕ ◌-ℤ◌
halves_in src uid start end = halves_of (
    consumption_double (
      latest_first (
        filter (λ (r : Reading). (r.unit_id == uid) && between r.reading_date start end)
          src.readings)))
