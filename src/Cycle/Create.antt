-- ===== src/Cycle/Create.antt =====
-- `create` and `newVersion`: the first version of a property's cycle, and a pending successor of one.
use ccb_api.Base.{
  ℕ, suc, ◌+◌, Bool, true, false, not, ◌&&◌, ◌||◌, Option, none, some, List, [], ◌∷◌, leb, ◌==◌,
  if◌then◌else◌, any, find, is_some, get_or_else, String,
}
use Prim.Native.Char.{code}
use package.text.Mathlib.Text.{◌==◌ as str_eq}
use ccb_api.Base.Result.{
  Message, text, lit, not_found, bad_request, conflict, Result, ok, ◌>>=◌, ◌>>◌, throw_if, or_throw,
}
use ccb_api.Workflow.Data.{WorkflowType}
use ccb_api.Workflow.Engine.{Directory, start_instance, known_actor}
use ccb_api.BillRun.Data.{generate_business_code}
use ccb_api.Cycle.Data.{
  BillingCycleStatus, BillingCycleVersion, BillingCycleMaster, State, version_by_id,
  master_of_property, save_master, day_of, is_pending, is_child_of,
}

-- What the service asks others: which communities and properties exist, the values of a lookup
-- category, and who holds which role.
pub record Settings : Type 0 where
  pub community_exists : ℕ → Bool
  pub property_exists : ℕ → Bool
  pub lov_codes : String → List String
  pub directory : Directory

pub record CreateDto : Type 0 where
  pub community_id : ℕ
  pub property_id : ℕ
  pub frequency : String
  pub reading_start_day : ℕ
  pub reading_end_day : ℕ
  pub bill_generation_days : ℕ
  pub bill_issue_days : ℕ
  pub bill_due_days : ℕ
  pub status : Option BillingCycleStatus

pub record NewVersionDto : Type 0 where
  pub reading_start_day : ℕ
  pub reading_end_day : ℕ
  pub effective_from : ℕ
  pub reason_code : String
  pub notes : Option String

pub record DeprecateDto : Type 0 where
  pub reason_code : String
  pub notes : Option String
  pub acknowledged : Bool
  pub effective_deprecation_date : Option ℕ

abbrev pub cycle_not_found : Message
cycle_not_found = text "Billing cycle not found"

-- The characters that `trim` removes.
abbrev pub is_space : ℕ → Bool
is_space c =
    (leb 9 c && leb c 13)
    || ((c == 32 || c == 160)
        || ((c == 5760 || (leb 8192 c && leb c 8202))
            || ((c == 8232 || c == 8233)
                || ((c == 8239 || c == 8287) || (c == 12288 || c == 65279)))))

abbrev pub is_blank : String → Bool
is_blank String.[] = true
is_blank (String.◌∷◌ c s) = is_space (code c) && is_blank s

abbrev pub assert_valid_lov_code : Settings → String → String → Result (Unit {0})
assert_valid_lov_code env category reason =
    throw_if (not (any (λ c. str_eq c reason) (env.lov_codes category)))
      (bad_request (lit "\"" ∷ lit reason ∷ lit "\" is not a valid value for " ∷ lit category ∷ []))

abbrev pub assert_notes_required_for_other_reason : String → Option String → Result (Unit {0})
assert_notes_required_for_other_reason reason notes =
    throw_if (str_eq reason "other" && is_blank (get_or_else notes ""))
      (bad_request (text "Notes are required when selecting \"Other\" as the reason."))

abbrev pub first_version_of : ℕ → State → Option BillingCycleVersion
first_version_of master st = find (λ v. v.master_id == master) st.versions

abbrev pub new_master : CreateDto → ℕ → BillingCycleMaster
new_master dto id = record {
  id = id;
  business_code = some (generate_business_code (text "ILCY") id);
  community_id = dto.community_id;
  property_id = dto.property_id;
  current_version_id = none;
}

-- The master of the property, or a new one, with the label of its next version.
abbrev pub master_for : CreateDto → State → BillingCycleMaster × State × ℕ
master_for dto st = elim (master_of_property dto.property_id st) [
  | some m ↦ (m, st, elim (first_version_of m.id st) [ none ↦ 1 | some v ↦ v.version + 1 ])
  | none ↦ (
    new_master dto st.next_master_id,
    record st {
      masters = new_master dto st.next_master_id ∷ st.masters;
      next_master_id = suc st.next_master_id;
    },
    1,
  )
]

abbrev pub created_version : CreateDto → ℕ → ℕ → ℕ → BillingCycleVersion
created_version dto master label id = record {
  id = id;
  master_id = master;
  frequency = dto.frequency;
  reading_start_day = dto.reading_start_day;
  reading_end_day = dto.reading_end_day;
  bill_generation_days = dto.bill_generation_days;
  bill_issue_days = dto.bill_issue_days;
  bill_due_days = dto.bill_due_days;
  status = get_or_else dto.status BillingCycleStatus.active;
  last_change_reason = none;
  change_reason_code = none;
  version = label;
  parent_version_id = none;
  effective_from = none;
  submitted_by_id = none;
  submitted_on = none;
  approved_by_id = none;
  approval_date = none;
  rejection_notes = none;
  deprecation_reason_code = none;
  deprecation_notes = none;
  deprecated_on = none;
}

abbrev pub insert_version : BillingCycleVersion → State → State
insert_version v st = record st {
  versions = v ∷ st.versions;
  next_version_id = suc st.next_version_id;
}

abbrev pub start_workflow : ℕ → Option ℕ → ℕ → State → State
start_workflow id actor now st = record st {
  workflow = start_instance WorkflowType.billing_cycle id actor now st.workflow;
}

abbrev pub write_created : CreateDto → Option ℕ → ℕ → State → BillingCycleVersion × State
write_created dto actor now st =
    let (m, with_master, label) = master_for dto st in
    let v = created_version dto m.id label with_master.next_version_id in
    let saved =
      save_master (record m { current_version_id = some v.id }) (insert_version v with_master) in
    (v, if is_pending v then start_workflow v.id actor now saved else saved)

abbrev pub has_current : Option BillingCycleMaster → Bool
has_current none = false
has_current (some m) = is_some m.current_version_id

unfoldable pub create_cycle :
    Settings → CreateDto → Option ℕ → ℕ → State → Result (BillingCycleVersion × State)
create_cycle env dto actor now st = do
  throw_if (has_current (master_of_property dto.property_id st))
      (conflict (text "A billing cycle already exists for this property"))
  throw_if (not (env.community_exists dto.community_id)) (not_found (text "Community not found"))
  throw_if (not (env.property_exists dto.property_id)) (not_found (text "Property not found"))
  ok (write_created dto actor now st)

-- `NEW_VERSION_SOURCE_STATUSES`
abbrev pub may_have_new_version : BillingCycleVersion → Bool
may_have_new_version v = elim v.status [
  | BillingCycleStatus.active ↦ true
  | BillingCycleStatus.inactive ↦ true
  | _ ↦ false
]

abbrev pub cloned_version :
    BillingCycleVersion → NewVersionDto → Option ℕ → ℕ → ℕ → BillingCycleVersion
cloned_version source dto actor today id = record {
  id = id;
  master_id = source.master_id;
  frequency = source.frequency;
  reading_start_day = dto.reading_start_day;
  reading_end_day = dto.reading_end_day;
  bill_generation_days = source.bill_generation_days;
  bill_issue_days = source.bill_issue_days;
  bill_due_days = source.bill_due_days;
  status = BillingCycleStatus.pending;
  last_change_reason = dto.notes;
  change_reason_code = some dto.reason_code;
  version = source.version + 1;
  parent_version_id = some source.id;
  effective_from = some dto.effective_from;
  submitted_by_id = known_actor actor;
  submitted_on = some today;
  approved_by_id = none;
  approval_date = none;
  rejection_notes = none;
  deprecation_reason_code = none;
  deprecation_notes = none;
  deprecated_on = none;
}

unfoldable pub new_version :
    Settings → ℕ → NewVersionDto → Option ℕ → ℕ → State → Result (BillingCycleVersion × State)
new_version env id dto actor now st = do
  source ← or_throw (version_by_id id st) (not_found cycle_not_found)
  throw_if (not (may_have_new_version source)) (
      bad_request (
        text
          "A new version can only be created from the property's active or inactive billing cycle"))
  throw_if (any (λ c. is_child_of id c && is_pending c) st.versions)
      (conflict (text "A new version is already pending approval for this billing cycle"))
  throw_if (leb dto.effective_from (day_of now)) (
      bad_request
        (text "Effective date must be in the future — a billing cycle cannot activate mid-cycle"))
  assert_valid_lov_code env "BILLING_CYCLE_CHANGE_REASON" dto.reason_code
  assert_notes_required_for_other_reason dto.reason_code dto.notes
  let clone = cloned_version source dto actor (day_of now) st.next_version_id
  ok (clone, start_workflow clone.id actor now (insert_version clone st))
