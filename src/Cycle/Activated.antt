-- ===== src/Cycle/Activated.antt =====
-- What an approval of the final level does with a version whose date has come, and what becomes of one
-- whose date is still to come.
use ccb_api.Base.{
  ℕ, ◌≡◌, ◌≢◌, ◌∙◌, refl, sym, true, Option, none, some, arith, ◌==◌, find, Option-cases,
  Bool-cases, inl, inr, String,
}
use mathlib.Core.Path.{subst}
use ccb_api.Base.Rows.{replace_row, find_holds, find-replace_row_key, find-replace_row_other}
use ccb_api.Cycle.Data.{
  BillingCycleStatus, BillingCycleVersion, BillingCycleMaster, State, version_by_id, master_by_id,
  save_version, save_master, version_key, master_key, is_deprecated,
}
use ccb_api.Cycle.Activation.{as_deprecated, apply_deprecation, set_current, activate_version}

module _ (p : BillingCycleVersion) (reason : String) (notes : Option String) (date : ℕ)
    (st : State) where
  pub apply_deprecation-versions :
      (apply_deprecation p reason notes date st).versions
      ≡ replace_row version_key (as_deprecated reason notes date p) st.versions
  unfolding apply_deprecation
  apply_deprecation-versions = ground arith

  pub apply_deprecation-masters :
      (mid c : ℕ) (m : BillingCycleMaster)
      → master_by_id mid st ≡ some m
      → m.current_version_id ≡ some c
      → c ≢ p.id
      → master_by_id mid (apply_deprecation p reason notes date st) ≡ some m
  unfolding apply_deprecation
  apply_deprecation-masters mid c m e current other =
      elim (Option-cases (master_by_id p.master_id st)) [
        | inl q ↦ ground arith
        | inr (n, q) ↦ elim (Bool-cases (mid == n.id)) [
          | inl same ↦
              let id_n : n.id ≡ p.master_id = ground (
                arith,
                find_holds (λ (x : BillingCycleMaster). x.id == p.master_id) st.masters q,
              ) in
              let found : master_by_id mid st ≡ some n =
                subst (λ k. master_by_id k st ≡ some n) (ground arith) q in
              let one : n ≡ m = ground arith in
              let current_n : n.current_version_id ≡ some c =
                subst (λ (x : BillingCycleMaster). x.current_version_id ≡ some c) (sym one)
                  current in
              ground (arith, current_n)
          | inr differ ↦ ground (
            arith,
            find-replace_row_other master_key mid (record n { current_version_id = none })
                st.masters (λ h. absurd (ground arith)),
          )
        ]
      ]

-- The version is active and current, and the version that it replaces is deprecated.
pub record IsActivated (v : BillingCycleVersion) (st st' : State) : Type 0 where
  pub active :
      (a : BillingCycleVersion) × (version_by_id v.id st' ≡ some a)
      × (a.status ≡ BillingCycleStatus.active)
  pub current :
      (m : BillingCycleMaster) × (master_by_id v.master_id st' ≡ some m)
      × (m.current_version_id ≡ some v.id)
  pub parent :
      (pid : ℕ) (p : BillingCycleVersion)
      → v.parent_version_id ≡ some pid
      → version_by_id pid st ≡ some p
      → (q : BillingCycleVersion) × (version_by_id pid st' ≡ some q) × (is_deprecated q ≡ true)

module _ (v : BillingCycleVersion) (today : ℕ) (st : State) (old : BillingCycleVersion)
    (m : BillingCycleMaster) (stored : version_by_id v.id st ≡ some old)
    (owned : master_by_id v.master_id st ≡ some m) where
  abbrev activated : BillingCycleVersion
  activated = record v { status = BillingCycleStatus.active }

  abbrev owner : BillingCycleMaster
  owner = record m { current_version_id = some v.id }

  -- The state before the parent is deprecated.
  abbrev taken_over : State
  taken_over = set_current v (save_version activated st)

  owner-id : m.id ≡ v.master_id
  owner-id =
      ground (arith, find_holds (λ (x : BillingCycleMaster). x.id == v.master_id) st.masters owned)

  taken_over-eq : taken_over ≡ save_master owner (save_version activated st)
  taken_over-eq = ground (arith, owned)

  taken_over-active : version_by_id v.id taken_over ≡ some activated
  taken_over-active =
      subst (λ s. version_by_id v.id s ≡ some activated) (sym taken_over-eq)
        (find-replace_row_key version_key v.id activated st.versions stored refl)

  taken_over-current : master_by_id v.master_id taken_over ≡ some owner
  taken_over-current =
      subst (λ s. master_by_id v.master_id s ≡ some owner) (sym taken_over-eq)
        (find-replace_row_key master_key v.master_id owner st.masters owned owner-id)

  taken_over-other : (pid : ℕ) → pid ≢ v.id → version_by_id pid taken_over ≡ version_by_id pid st
  taken_over-other pid n =
      subst (λ s. version_by_id pid s ≡ version_by_id pid st) (sym taken_over-eq)
        (find-replace_row_other version_key pid activated st.versions n)

  -- Without a parent to replace, this is the end.
  taken_over-IsActivated :
      ((pid : ℕ) (p : BillingCycleVersion)
        → v.parent_version_id ≡ some pid
        → version_by_id pid st ≡ some p
        → (q : BillingCycleVersion) × (version_by_id pid taken_over ≡ some q)
          × (is_deprecated q ≡ true))
      → IsActivated v st taken_over
  taken_over-IsActivated settled = record {
    active = (activated, taken_over-active, refl);
    current = (owner, taken_over-current, refl);
    parent = settled;
  }

  module _ (pid : ℕ) (p : BillingCycleVersion) (of_parent : v.parent_version_id ≡ some pid)
      (there : version_by_id pid st ≡ some p) (distinct_parent : pid ≢ v.id) where
    abbrev replaced : State
    replaced = apply_deprecation p "replaced-by-new-version" none today taken_over

    abbrev gone : BillingCycleVersion
    gone = as_deprecated "replaced-by-new-version" none today p

    written : replaced.versions ≡ replace_row version_key gone taken_over.versions
    written = apply_deprecation-versions p "replaced-by-new-version" none today taken_over

    id_p : p.id ≡ pid
    id_p = ground (arith, find_holds (λ (x : BillingCycleVersion). x.id == pid) st.versions there)

    there_still : version_by_id pid taken_over ≡ some p
    there_still = taken_over-other pid distinct_parent ∙ there

    other_id : v.id ≢ p.id
    other_id = λ h. distinct_parent (sym (h ∙ id_p))

    -- The parent is replaced.
    replaced-IsActivated : IsActivated v st replaced
    replaced-IsActivated = record {
      active = (
        activated,
        subst (λ vs. find (λ (x : BillingCycleVersion). x.id == v.id) vs ≡ some activated)
            (sym written)
            (find-replace_row_other version_key v.id gone taken_over.versions other_id
              ∙ taken_over-active),
        refl,
      );
      current = (
        owner,
        apply_deprecation-masters p "replaced-by-new-version" none today taken_over v.master_id v.id
            owner taken_over-current refl other_id,
        refl,
      );
      parent = λ k q of_q found.
          let same : pid ≡ k = ground (arith, of_parent) in
          subst
            (λ j.
              (x : BillingCycleVersion) × (version_by_id j replaced ≡ some x)
              × (is_deprecated x ≡ true))
            same
            (
              gone,
              subst (λ vs. find (λ (x : BillingCycleVersion). x.id == pid) vs ≡ some gone)
                  (sym written)
                  (find-replace_row_key version_key pid gone taken_over.versions there_still id_p),
              refl,
            );
    }

  pub activate_version-IsActivated :
      ((pid : ℕ) → v.parent_version_id ≡ some pid → pid ≢ v.id)
      → IsActivated v st (activate_version v today st)
  unfolding activate_version
  activate_version-IsActivated apart = elim (Option-cases v.parent_version_id) [
    | inl none_ ↦
        subst (IsActivated v st) (ground (arith, none_))
          (taken_over-IsActivated (λ pid p of_parent. absurd (ground (arith, none_))))
    | inr (pid, of_parent) ↦ elim (Option-cases (version_by_id pid st)) [
      | inl missing ↦
          let still : version_by_id pid taken_over ≡ none =
            taken_over-other pid (apart pid of_parent) ∙ missing in
          subst (IsActivated v st) (ground (arith, of_parent, still)) (
            taken_over-IsActivated (λ k q of_q found.
              let same : pid ≡ k = ground (arith, of_parent) in
              let none_found : version_by_id k st ≡ none =
                subst (λ j. version_by_id j st ≡ none) same missing in
              absurd (ground (arith, none_found))))
      | inr (p, there) ↦ elim (Bool-cases (is_deprecated p)) [
        | inl done ↦
            let still : version_by_id pid taken_over ≡ some p =
              taken_over-other pid (apart pid of_parent) ∙ there in
            subst (IsActivated v st) (ground (arith, of_parent, still, done)) (
              taken_over-IsActivated (λ k q of_q found.
                let same : pid ≡ k = ground (arith, of_parent) in
                (p, subst (λ j. version_by_id j taken_over ≡ some p) same still, done)))
        | inr live ↦
            let still : version_by_id pid taken_over ≡ some p =
              taken_over-other pid (apart pid of_parent) ∙ there in
            subst (IsActivated v st) (ground (arith, of_parent, still, live))
              (replaced-IsActivated pid p of_parent there (apart pid of_parent))
      ]
    ]
  ]
