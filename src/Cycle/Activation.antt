-- ===== src/Cycle/Activation.antt =====
-- `activateVersion`, `applyDeprecation`, `deprecate` and the daily jobs.
use ccb_api.Base.{
  ℕ, Bool, false, not, ◌&&◌, ◌||◌, Option, none, some, List, [], ◌∷◌, ltb, leb, ◌==◌, if◌then◌else◌,
  filter, any, is_some, get_or_else, String,
}
use ccb_api.Base.Result.{
  Message, text, lit, num, not_found, bad_request, conflict, Result, ok, ◌>>=◌, ◌>>◌, throw_if,
  or_throw,
}
use ccb_api.Cycle.Data.{
  BillingCycleStatus, BillingCycleVersion, State, version_by_id, master_by_id, save_version,
  save_master, day_of, is_active, is_pending, is_rejected, is_deprecated, is_child_of,
}
use ccb_api.Cycle.Create.{
  Settings, DeprecateDto, cycle_not_found, assert_valid_lov_code,
  assert_notes_required_for_other_reason,
}

-- The master forgets its current version if it is this one.
abbrev pub forget_current : BillingCycleVersion → State → State
forget_current v st = elim (master_by_id v.master_id st) [
  | none ↦ st
  | some m ↦ elim m.current_version_id [
    | none ↦ st
    | some c ↦ if c == v.id then save_master (record m { current_version_id = none }) st else st
  ]
]

abbrev pub as_deprecated : String → Option String → ℕ → BillingCycleVersion → BillingCycleVersion
as_deprecated reason notes date v = record v {
  status = BillingCycleStatus.deprecated;
  deprecation_reason_code = some reason;
  deprecation_notes = notes;
  deprecated_on = some date;
}

unfoldable pub apply_deprecation : BillingCycleVersion → String → Option String → ℕ → State → State
apply_deprecation v reason notes date st =
    forget_current v (save_version (as_deprecated reason notes date v) st)

abbrev pub set_current : BillingCycleVersion → State → State
set_current v st = elim (master_by_id v.master_id st) [
  | none ↦ st
  | some m ↦ save_master (record m { current_version_id = some v.id }) st
]

abbrev pub deprecate_parent : BillingCycleVersion → ℕ → State → State
deprecate_parent v today st = elim v.parent_version_id [
  | none ↦ st
  | some pid ↦ elim (version_by_id pid st) [
    | none ↦ st
    | some parent ↦
        let replaced = apply_deprecation parent "replaced-by-new-version" none today st in
        if is_deprecated parent then st else replaced
  ]
]

unfoldable pub activate_version : BillingCycleVersion → ℕ → State → State
activate_version v today st =
    let activated = record v { status = BillingCycleStatus.active } in
    deprecate_parent v today (set_current v (save_version activated st))

abbrev pub has_arrived : BillingCycleVersion → ℕ → Bool
has_arrived v today = elim v.effective_from [ none ↦ false | some d ↦ leb d today ]

-- A date of deprecation that is still to come.
abbrev pub has_scheduled_deprecation : BillingCycleVersion → ℕ → Bool
has_scheduled_deprecation v today = elim v.deprecated_on [
  | none ↦ false
  | some d ↦ ltb today d && not (is_deprecated v)
]

-- A child that may take over.
abbrev pub is_replacement : ℕ → BillingCycleVersion → Bool
is_replacement id c = is_child_of id c && not (is_deprecated c || is_rejected c)

abbrev pub already_scheduled : BillingCycleVersion → Message
already_scheduled v =
    lit "A deprecation is already scheduled for this billing cycle, effective "
    ∷ num (get_or_else v.deprecated_on 0)
    ∷ []

unfoldable pub deprecate_version : Settings → ℕ → DeprecateDto → ℕ → State → Result State
deprecate_version env id dto now st = do
  let today = day_of now
  v ← or_throw (version_by_id id st) (not_found cycle_not_found)
  throw_if (is_deprecated v) (bad_request (text "This billing cycle is already deprecated"))
  throw_if (is_pending v) (
      bad_request
        (text "A version awaiting approval is read-only — reject it instead of deprecating it"))
  throw_if (has_scheduled_deprecation v today) (conflict (already_scheduled v))
  throw_if (is_active v && (not (any (is_replacement id) st.versions) && not dto.acknowledged)) (
      bad_request (
        text
          "No replacement billing cycle exists for this property — deprecating leaves it without an active billing cycle. Set acknowledged to confirm."))
  throw_if (not dto.acknowledged) (
      bad_request
        (text "You must acknowledge that billing will stop for this property before deprecating."))
  let date = get_or_else dto.effective_deprecation_date today
  throw_if (ltb date today) (bad_request (text "Effective deprecation date cannot be in the past."))
  assert_valid_lov_code env "BILLING_CYCLE_DEPRECATION_REASON" dto.reason_code
  assert_notes_required_for_other_reason dto.reason_code dto.notes
  let applied = apply_deprecation v dto.reason_code dto.notes date st
  let scheduled =
      save_version
        (record v {
          deprecation_reason_code = some dto.reason_code;
          deprecation_notes = dto.notes;
          deprecated_on = some date;
        })
        st
  ok (if leb date today then applied else scheduled)

abbrev pub is_due_for_deprecation : ℕ → BillingCycleVersion → Bool
is_due_for_deprecation today v = elim v.deprecated_on [
  | none ↦ false
  | some d ↦ not (is_deprecated v) && leb d today
]

-- The loop of `autoDeprecateDueCycles` over the rows that its query has read.
unfoldable pub deprecate_each : List BillingCycleVersion → State → State
deprecate_each [] st = st
deprecate_each (v ∷ due) st = deprecate_each due (
    apply_deprecation v (get_or_else v.deprecation_reason_code "other") v.deprecation_notes
      (get_or_else v.deprecated_on 0) st)

unfoldable pub auto_deprecate_due_cycles : ℕ → State → State
auto_deprecate_due_cycles now st =
    deprecate_each (filter (is_due_for_deprecation (day_of now)) st.versions) st

-- Approved by someone, and from a date on that has come.
abbrev pub is_due_for_activation : ℕ → BillingCycleVersion → Bool
is_due_for_activation today v = is_pending v && (is_some v.approved_by_id && has_arrived v today)

-- The loop of `autoActivateDueVersions` over the rows that its query has read.
unfoldable pub activate_each : ℕ → List BillingCycleVersion → State → State
activate_each today [] st = st
activate_each today (v ∷ due) st = activate_each today due (activate_version v today st)

unfoldable pub auto_activate_due_versions : ℕ → State → State
auto_activate_due_versions now st =
    activate_each (day_of now) (filter (is_due_for_activation (day_of now)) st.versions) st
