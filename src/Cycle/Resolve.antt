-- ===== src/Cycle/Resolve.antt =====
-- `resolveVersionForReadingDate`: which version's reading period covers a date.
use ccb_api.Base.{
  ℕ, zero, suc, ◌-◌, Bool, ◌&&◌, Option, none, some, List, [], ◌∷◌, ◌++◌, map, ltb, leb, ◌==◌,
  if◌then◌else◌, filter, is_some, get_or_else, distinct, length,
}
use ccb_api.Readiness.Data.{VersionResolution}
use ccb_api.Cycle.Calendar.{month_of, month_start}
use ccb_api.Cycle.Data.{
  BillingCycleVersion, State, master_of_property, day_of, midnight, was_live, is_child_of,
}
use ccb_api.Cycle.Period.{ReadingPeriod, reading_period_anchored_to}

pub record Match : Type 0 where
  pub version_id : ℕ
  pub period_start : ℕ
  pub period_end : ℕ

-- The versions of the master that have taken over from one, with the date on which they did.
abbrev pub live_children : ℕ → ℕ → List BillingCycleVersion → List BillingCycleVersion
live_children master vid versions =
    filter
      (λ c.
        (c.master_id == master) && (is_child_of vid c && (was_live c && is_some c.effective_from)))
      versions

abbrev pub first_effective : List BillingCycleVersion → Option ℕ
first_effective [] = none
first_effective (c ∷ children) = c.effective_from

-- `Math.min` of the bounds that there are, or the time itself.
abbrev pub window_end : ℕ → Option ℕ → Option ℕ → ℕ
window_end now none none = now
window_end now (some d) none = midnight d
window_end now none (some c) = midnight c
window_end now (some d) (some c) = if ltb d c then midnight d else midnight c

-- A period that starts within the window of its version and covers the date, which itself lies
-- before the end of the window.
abbrev pub is_match : ℕ → ℕ → ℕ → ReadingPeriod → Bool
is_match from until target p =
    (leb from p.start && ltb (midnight p.start) until)
    && (ltb (midnight target) until && (leb p.start target && leb target p.end))

-- The loop over the months up to `stop`.
unfoldable pub walk_months : ℕ → ℕ → ℕ → BillingCycleVersion → ℕ → ℕ → ℕ → List Match
walk_months zero month stop v from until target = []
walk_months (suc fuel) month stop v from until target =
    let p = reading_period_anchored_to v.reading_start_day v.reading_end_day (month_start month) in
    let rest = walk_months fuel (suc month) stop v from until target in
    let found =
      if is_match from until target p
      then record { version_id = v.id; period_start = p.start; period_end = p.end } ∷ rest
      else rest in
    if ltb month stop then found else []

-- The matches of a version that has been live from a date on, in its window.
abbrev pub matches_from : ℕ → ℕ → BillingCycleVersion → ℕ → List Match
matches_from until target v from =
    let stop = suc (month_of (day_of until)) in
    if leb until (midnight from)
    then []
    else walk_months (stop - month_of from) (month_of from) stop v from until target

-- What one round of the loop over the versions adds; none, if children contradict each other.
unfoldable pub matches_of :
    List BillingCycleVersion → ℕ → ℕ → ℕ → BillingCycleVersion → Option (List Match)
matches_of versions master now target v = elim v.effective_from [
  | none ↦ some []
  | some from ↦
      let children = live_children master v.id versions in
      let starts = map (λ (c : BillingCycleVersion). get_or_else c.effective_from 0) children in
      if ltb 1 (length (distinct [] starts))
      then none
      else some
          (matches_from (window_end now v.deprecated_on (first_effective children)) target v from)
]

abbrev pub append_matches : Option (List Match) → Option (List Match) → Option (List Match)
append_matches none rest = none
append_matches (some ms) none = none
append_matches (some ms) (some ns) = some (ms ++ ns)

-- The loop over the candidates; a contradiction ends it.
unfoldable pub all_matches :
    List BillingCycleVersion → ℕ → ℕ → ℕ → List BillingCycleVersion → Option (List Match)
all_matches versions master now target [] = some []
all_matches versions master now target (v ∷ candidates) =
    append_matches (matches_of versions master now target v)
      (all_matches versions master now target candidates)

abbrev pub candidates_of : ℕ → List BillingCycleVersion → List BillingCycleVersion
candidates_of master versions = filter (λ v. (v.master_id == master) && was_live v) versions

-- The matches must all be of one version.
abbrev pub conclude : ℕ → Option (List Match) → VersionResolution
conclude master none = VersionResolution.ambiguous
conclude master (some []) = VersionResolution.none_found
conclude master (some (m ∷ ms)) =
    if ltb 1 (length (distinct [] (map (λ (x : Match). x.version_id) (m ∷ ms))))
    then VersionResolution.ambiguous
    else VersionResolution.resolved m.version_id
        (record { period_start = m.period_start; period_end = m.period_end; master_id = master })

unfoldable pub resolve_version_for_reading_date : State → ℕ → ℕ → ℕ → VersionResolution
resolve_version_for_reading_date st now pid target = elim (master_of_property pid st) [
  | none ↦ VersionResolution.none_found
  | some m ↦
      conclude m.id (all_matches st.versions m.id now target (candidates_of m.id st.versions))
]
