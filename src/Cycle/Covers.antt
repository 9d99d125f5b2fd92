-- ===== src/Cycle/Covers.antt =====
-- What the search over the versions and their months finds.
use ccb_api.Base.{
  ℕ, zero, suc, ◌+◌, ◌-◌, ◌≤◌, ◌<◌, ◌≡◌, refl, sym, Bool, true, false, some, List, [], ◌∷◌, arith,
  ltb, leb, ◌==◌, if◌then◌else◌, any, All, inl, inr, Option-cases, Bool-cases, le_or_lt,
}
use mathlib.Core.Path.{subst}
use ccb_api.Base.Rows.{All-imp}
use ccb_api.Cycle.Calendar.{month_of, month_start}
use ccb_api.Cycle.Data.{BillingCycleVersion, day_of, midnight}
use ccb_api.Cycle.Period.{ReadingPeriod, reading_period_anchored_to}
use ccb_api.Cycle.Window.{IsWindowEnd, AreConsistent, window_end-IsWindowEnd, IsWindowEnd-unique}
use ccb_api.Cycle.Resolve.{
  Match, live_children, first_effective, window_end, is_match, walk_months, matches_from,
  matches_of,
}

abbrev pub period_in : BillingCycleVersion → ℕ → ReadingPeriod
period_in v month =
    reading_period_anchored_to v.reading_start_day v.reading_end_day (month_start month)

abbrev pub match_of : BillingCycleVersion → ReadingPeriod → Match
match_of v p = record { version_id = v.id; period_start = p.start; period_end = p.end }

module _ (v : BillingCycleVersion) (from until target : ℕ) where
  -- A match that one of the months gives.
  abbrev IsFound : ℕ → ℕ → Match → Type 0
  IsFound first stop x =
      (month : ℕ) × (first ≤ month)
      × (month < stop)
      × (is_match from until target (period_in v month) ≡ true)
      × (x ≡ match_of v (period_in v month))

  -- One round of the loop.
  abbrev round : Bool → Bool → Match → List Match → List Match
  round within matches x rest = if within then (if matches then x ∷ rest else rest) else []

  walk_months-round :
      (fuel first stop : ℕ)
      → walk_months (suc fuel) first stop v from until target
        ≡ round
            (ltb first stop)
            (is_match from until target (period_in v first))
            (match_of v (period_in v first))
            (walk_months fuel (suc first) stop v from until target)
  unfolding walk_months
  walk_months-round fuel first stop = refl

  round-IsFound :
      (first stop : ℕ) (rest : List Match) (w b : Bool)
      → ltb first stop ≡ w
      → is_match from until target (period_in v first) ≡ b
      → All (IsFound first stop) rest
      → All (IsFound first stop) (round w b (match_of v (period_in v first)) rest)
  round-IsFound first stop rest false b p q h = tt
  round-IsFound first stop rest true false p q h = h
  round-IsFound first stop rest true true p q h = ((first, omega arith, ground arith, q, refl), h)

  walk_months-IsFound :
      (fuel first stop : ℕ)
      → All (IsFound first stop) (walk_months fuel first stop v from until target)
  walk_months-IsFound zero first stop = unfold walk_months in tt
  walk_months-IsFound (suc fuel) first stop =
      let later = walk_months fuel (suc first) stop v from until target in
      subst (All (IsFound first stop)) (sym (walk_months-round fuel first stop)) (
        round-IsFound first stop later (ltb first stop)
          (is_match from until target (period_in v first)) refl refl
          (All-imp later (λ x f. (f.0, omega (arith, f.1), f.2, f.3, f.4))
            (walk_months-IsFound fuel (suc first) stop)))

  abbrev IsFoundIn : List Match → Type 0
  IsFoundIn ms = any (λ x. x.version_id == v.id) ms ≡ true

  -- With fuel for every month up to `stop`, no month that matches is missed.
  walk_months_complete :
      (fuel first stop month : ℕ)
      → first ≤ month
      → month < stop
      → stop ≤ first + fuel
      → is_match from until target (period_in v month) ≡ true
      → IsFoundIn (walk_months fuel first stop v from until target)
  walk_months_complete zero first stop month low high enough e = absurd (omega arith)
  walk_months_complete (suc fuel) first stop month low high enough e =
      subst IsFoundIn (sym (walk_months-round fuel first stop)) (elim (le_or_lt month first) [
        | inl same ↦
            let here : is_match from until target (period_in v first) ≡ true =
              subst (λ k. is_match from until target (period_in v k) ≡ true) (omega arith) e in
            ground (arith, here)
        | inr later ↦
            ground
              (arith, walk_months_complete fuel (suc first) stop month later high (omega arith) e)
      ])

-- A reading period of a version covers the date: the version has been live from a day on until the
-- end of its window, and the period is that of a month of the window, starts in the window and
-- contains the date, which lies before the end of the window too.
pub record Covers (versions : List BillingCycleVersion) (master now target : ℕ)
    (v : BillingCycleVersion) (p : ReadingPeriod) : Type 0 where
  pub from : ℕ
  pub until : ℕ
  pub month : ℕ
  pub effective : v.effective_from ≡ some from
  pub window : IsWindowEnd versions master now v until
  pub after_start : month_of from ≤ month
  pub before_end : month ≤ month_of (day_of until)
  pub period : p ≡ period_in v month
  pub starts_after : from ≤ p.start
  pub starts_before : midnight p.start < until
  pub before : midnight target < until
  pub from_start : p.start ≤ target
  pub to_end : target ≤ p.end

-- The test of the loop, in words.
abbrev IsWithin : ℕ → ℕ → ℕ → ReadingPeriod → Type 0
IsWithin from until target p =
    (from ≤ p.start)
    × (midnight p.start < until)
    × (midnight target < until)
    × (p.start ≤ target)
    × (target ≤ p.end)

is_match-IsWithin :
    (from until target : ℕ) (p : ReadingPeriod)
    → is_match from until target p ≡ true
    → IsWithin from until target p
is_match-IsWithin from until target p h = ground arith

IsWithin-is_match :
    (from until target : ℕ) (p : ReadingPeriod)
    → IsWithin from until target p
    → is_match from until target p ≡ true
IsWithin-is_match from until target p h = ground arith

module _ (versions : List BillingCycleVersion) (master now target : ℕ) where
  abbrev until_of : BillingCycleVersion → ℕ
  until_of v = window_end now v.deprecated_on (first_effective (live_children master v.id versions))

  abbrev pub IsMatchOf : BillingCycleVersion → Match → Type 0
  IsMatchOf v x = (p : ReadingPeriod) × Covers versions master now target v p × (x ≡ match_of v p)

  matches_from-IsMatchOf :
      (v : BillingCycleVersion) (from : ℕ)
      → v.effective_from ≡ some from
      → IsWindowEnd versions master now v (until_of v)
      → All (IsMatchOf v) (matches_from (until_of v) target v from)
  matches_from-IsMatchOf v from e w = elim (Bool-cases (leb (until_of v) (midnight from))) [
    | inl q ↦ rw q tt
    | inr q ↦
        let stop = suc (month_of (day_of (until_of v))) in
        rw q (
          All-imp
            (walk_months (stop - month_of from) (month_of from) stop v from (until_of v) target)
            (λ x f.
              let (a, b, c, d, g) =
                is_match-IsWithin from (until_of v) target (period_in v f.0) f.3 in
              (
                period_in v f.0,
                record {
                  from = from;
                  until = until_of v;
                  month = f.0;
                  effective = e;
                  window = w;
                  after_start = f.1;
                  before_end = omega (arith, f.2);
                  period = refl;
                  starts_after = a;
                  starts_before = b;
                  before = c;
                  from_start = d;
                  to_end = g;
                },
                f.4,
              ))
            (walk_months-IsFound v from (until_of v) target (stop - month_of from) (month_of from)
              stop))
  ]

  -- What a version adds has been found in its window.
  pub matches_of-IsMatchOf :
      (v : BillingCycleVersion) {ms : List Match}
      → matches_of versions master now target v ≡ some ms
      → All (IsMatchOf v) ms
  unfolding matches_of
  matches_of-IsMatchOf v {ms} h = elim (Option-cases v.effective_from) [
    | inl e ↦ let empty : [] ≡ ms = ground arith in subst (All (IsMatchOf v)) empty tt
    | inr (from, e) ↦
        let same : matches_from (until_of v) target v from ≡ ms = ground arith in
        let consistent : AreConsistent versions master now v = ground (arith, e, h) in
        subst (All (IsMatchOf v)) same (
          matches_from-IsMatchOf v from e (window_end-IsWindowEnd versions master now v consistent))
  ]

  abbrev pub Found : BillingCycleVersion → List Match → Type 0
  Found v ms = any (λ (x : Match). x.version_id == v.id) ms ≡ true

  matches_from-Found :
      (v : BillingCycleVersion) (p : ReadingPeriod) (c : Covers versions master now target v p)
      → c.until ≡ until_of v
      → Found v (matches_from (until_of v) target v c.from)
  matches_from-Found v p c end =
      let stop = suc (month_of (day_of (until_of v))) in
      let covering : is_match c.from (until_of v) target (period_in v c.month) ≡ true =
        subst (λ q. is_match c.from (until_of v) target q ≡ true) c.period
          (subst (λ t. is_match c.from t target p ≡ true) end
            (IsWithin-is_match c.from c.until target p
              (c.starts_after, c.starts_before, c.before, c.from_start, c.to_end))) in
      let last : c.month ≤ month_of (day_of (until_of v)) =
        subst (λ t. c.month ≤ month_of (day_of t)) end c.before_end in
      let open_ : leb (until_of v) (midnight c.from) ≡ false = ground (arith, covering) in
      let fuel = stop - month_of c.from in
      rw open_ (
        walk_months_complete v c.from (until_of v) target fuel (month_of c.from) stop c.month
          c.after_start (omega (arith, last)) (omega (arith, last, c.after_start)) covering)

  -- A version that covers the date adds a match.
  pub matches_of-Found :
      (v : BillingCycleVersion) (p : ReadingPeriod) {ms : List Match}
      → Covers versions master now target v p
      → matches_of versions master now target v ≡ some ms
      → Found v ms
  unfolding matches_of
  matches_of-Found v p {ms} c h =
      let same : matches_from (until_of v) target v c.from ≡ ms = ground (arith, c.effective) in
      let consistent : AreConsistent versions master now v = ground (arith, c.effective, h) in
      let end =
        IsWindowEnd-unique versions master now v c.until (until_of v) c.window
          (window_end-IsWindowEnd versions master now v consistent) in
      subst (Found v) same (matches_from-Found v p c end)
