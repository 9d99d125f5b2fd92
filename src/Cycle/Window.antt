-- ===== src/Cycle/Window.antt =====
-- Up to when a version is in effect: its deprecation, the start of a version that took over, or now.
use ccb_api.Base.{
  ℕ, ◌≤◌, ◌≡◌, ◌≢◌, refl, sym, ◌∙◌, Bool, true, false, ◌&&◌, Option, none, some, List, [], ◌∷◌, map,
  arith, ltb, ◌==◌, filter, if◌then◌else◌, distinct, length, is_some, any, not, get_or_else, All,
  ◌⊎◌, inl, inr, Bool-cases,
}
use mathlib.Core.Path.{subst}
use ccb_api.Cycle.Data.{BillingCycleStatus, BillingCycleVersion, midnight, was_live, is_child_of}
use ccb_api.Cycle.Resolve.{live_children, first_effective, window_end}

-- The row stands in the table.
abbrev pub Among : BillingCycleVersion → List BillingCycleVersion → Type 0
Among v [] = ⊥
Among v (w ∷ versions) = (w ≡ v) ⊎ Among v versions

pub Among-filter :
    (p : BillingCycleVersion → Bool) (v : BillingCycleVersion) (versions : List BillingCycleVersion)
    → Among v (filter p versions)
    → Among v versions × (p v ≡ true)
Among-filter p v [] a = absurd a
Among-filter p v (w ∷ versions) a =
    let kept : (b : Bool)
        → p w ≡ b
        → Among v (if b then w ∷ filter p versions else filter p versions) =
      λ b e. subst (λ c. Among v (if c then w ∷ filter p versions else filter p versions)) e a in
    elim (Bool-cases (p w)) [
      | inl e ↦ elim (kept true e) [
        | inl same ↦ (inl same, subst (λ x. p x ≡ true) same e)
        | inr later ↦ let rest = Among-filter p v versions later in (inr rest.0, rest.1)
      ]
      | inr e ↦ let rest = Among-filter p v versions (kept false e) in (inr rest.0, rest.1)
    ]

pub filter-Among :
    (p : BillingCycleVersion → Bool) (v : BillingCycleVersion) (versions : List BillingCycleVersion)
    → Among v versions
    → p v ≡ true
    → Among v (filter p versions)
filter-Among p v [] a e = absurd a
filter-Among p v (w ∷ versions) (inl same) e =
    let kept : p w ≡ true = subst (λ x. p x ≡ true) (sym same) e in rw kept (inl same)
filter-Among p v (w ∷ versions) (inr later) e = elim (Bool-cases (p w)) [
  | inl q ↦ rw q (inr (filter-Among p v versions later e))
  | inr q ↦ rw q (filter-Among p v versions later e)
]

pub distinct_one :
    (a : ℕ) (ids : List ℕ) → ltb 1 (length (distinct [] (a ∷ ids))) ≡ false → All (λ b. b ≡ a) ids
distinct_one a [] h = tt
distinct_one a (b ∷ ids) h = (ground arith, distinct_one a ids (ground arith))

pub distinct_two :
    (a : ℕ) (ids : List ℕ)
    → ltb 1 (length (distinct [] (a ∷ ids))) ≡ true
    → any (λ b. not (b == a)) ids ≡ true
distinct_two a [] h = absurd (ground arith)
distinct_two a (b ∷ ids) h = ground (arith, distinct_two a ids)

-- A version that is or was live.
abbrev pub IsLive : BillingCycleVersion → Type 0
IsLive v = (v.status ≡ BillingCycleStatus.active) ⊎ (v.status ≡ BillingCycleStatus.deprecated)

pub was_live-IsLive : (v : BillingCycleVersion) → was_live v ≡ true → IsLive v
was_live-IsLive v h = ground arith

pub IsLive-was_live : (v : BillingCycleVersion) → IsLive v → was_live v ≡ true
IsLive-was_live v h = ground arith

-- The end of a window, where the days that it may end on are one of two.
window_end-least :
    (now : ℕ) (H : ℕ → Type 0) (own next : Option ℕ)
    → ((d : ℕ) → own ≡ some d → H d)
    → ((d : ℕ) → next ≡ some d → H d)
    → ((d : ℕ) → H d → (own ≡ some d) ⊎ (next ≡ some d))
    → ((d : ℕ) × H d × (window_end now own next ≡ midnight d) × ((e : ℕ) → H e → d ≤ e))
      ⊎ (((d : ℕ) → ¬ H d) × (window_end now own next ≡ now))
window_end-least now H none none f g h = inr ((λ d x. ground (arith, h d x)), refl)
window_end-least now H (some a) none f g h = inl (a, f a refl, refl, λ e x. ground (arith, h e x))
window_end-least now H none (some b) f g h = inl (b, g b refl, refl, λ e x. ground (arith, h e x))
window_end-least now H (some a) (some b) f g h = elim (Bool-cases (ltb a b)) [
  | inl q ↦ inl (a, f a refl, rw q refl, λ e x. ground (arith, h e x, q))
  | inr q ↦ inl (b, g b refl, rw q refl, λ e x. ground (arith, h e x, q))
]

module _ (versions : List BillingCycleVersion) (master now : ℕ) (v : BillingCycleVersion) where
  -- Another version of the master that has been live and names this one as its parent.
  abbrev pub IsSuccessor : BillingCycleVersion → Type 0
  IsSuccessor c =
      Among c versions × (c.master_id ≡ master) × (c.parent_version_id ≡ some v.id) × IsLive c

  -- A day on which the version ends: its deprecation, or the start of a successor.
  abbrev pub IsHandover : ℕ → Type 0
  IsHandover d =
      (v.deprecated_on ≡ some d)
      ⊎ ((c : BillingCycleVersion) × IsSuccessor c × (c.effective_from ≡ some d))

  -- The midnight of the first such day; now, if there is none.
  abbrev pub IsWindowEnd : ℕ → Type 0
  IsWindowEnd until =
      ((d : ℕ) × IsHandover d × (until ≡ midnight d) × ((e : ℕ) → IsHandover e → d ≤ e))
      ⊎ (((d : ℕ) → ¬ IsHandover d) × (until ≡ now))

  -- Successors that start on different days.
  abbrev pub AreContradictory : Type 0
  AreContradictory =
      (c : BillingCycleVersion) × (w : BillingCycleVersion) × (d : ℕ) × (e : ℕ) × IsSuccessor c
      × IsSuccessor w
      × (c.effective_from ≡ some d)
      × (w.effective_from ≡ some e)
      × (d ≢ e)

  abbrev children : List BillingCycleVersion
  children = live_children master v.id versions

  abbrev start_of : BillingCycleVersion → ℕ
  start_of c = get_or_else c.effective_from 0

  abbrev pub AreConsistent : Type 0
  AreConsistent = ltb 1 (length (distinct [] (map start_of children))) ≡ false

  child-IsSuccessor :
      (c : BillingCycleVersion)
      → Among c children
      → IsSuccessor c × (c.effective_from ≡ some (start_of c))
  child-IsSuccessor c a =
      let (there, e) =
        Among-filter
          (λ c.
            (c.master_id == master)
            && (is_child_of v.id c && (was_live c && is_some c.effective_from)))
          c versions a in
      ((there, ground arith, ground arith, was_live-IsLive c (ground arith)), ground arith)

  IsSuccessor-child :
      (c : BillingCycleVersion) (d : ℕ)
      → IsSuccessor c
      → c.effective_from ≡ some d
      → Among c children
  IsSuccessor-child c d (there, same, parent, live) e =
      filter-Among
        (λ c.
          (c.master_id == master)
          && (is_child_of v.id c && (was_live c && is_some c.effective_from)))
        c versions there (ground (arith, same, parent, IsLive-was_live c live, e))

  starts_same :
      (a : ℕ) (cs : List BillingCycleVersion) (c : BillingCycleVersion)
      → All (λ b. b ≡ a) (map start_of cs)
      → Among c cs
      → start_of c ≡ a
  starts_same a [] c h there = absurd there
  starts_same a (w ∷ cs) c h (inl same) = subst (λ x. start_of x ≡ a) same h.0
  starts_same a (w ∷ cs) c h (inr later) = starts_same a cs c h.1 later

  -- No child, or the first one starts when they all do.
  first_effective-cases :
      (cs : List BillingCycleVersion)
      → ltb 1 (length (distinct [] (map start_of cs))) ≡ false
      → ((c : BillingCycleVersion) → Among c cs → c.effective_from ≡ some (start_of c))
      → (cs ≡ [])
        ⊎ ((c : BillingCycleVersion) × Among c cs
            × (first_effective cs ≡ some (start_of c))
            × ((w : BillingCycleVersion) → Among w cs → start_of w ≡ start_of c))
  first_effective-cases [] h given = inl refl
  first_effective-cases (c ∷ cs) h given = inr (
    c,
    inl refl,
    given c (inl refl),
    λ w there.
        starts_same (start_of c) (c ∷ cs) w (refl, distinct_one (start_of c) (map start_of cs) h)
          there,
  )

  first_child :
      (cs : List BillingCycleVersion) (d : ℕ)
      → first_effective cs ≡ some d
      → (c : BillingCycleVersion) × Among c cs × (c.effective_from ≡ some d)
  first_child [] d e = absurd (ground arith)
  first_child (c ∷ cs) d e = (c, inl refl, e)

  first-IsHandover : (d : ℕ) → first_effective children ≡ some d → IsHandover d
  first-IsHandover d e =
      let (c, there, started) = first_child children d e in
      inr (c, (child-IsSuccessor c there).0, started)

  IsSuccessor-first :
      AreConsistent
      → (c : BillingCycleVersion) (d : ℕ) → IsSuccessor c
      → c.effective_from ≡ some d
      → first_effective children ≡ some d
  IsSuccessor-first h c d successor e =
      let there = IsSuccessor-child c d successor e in
      elim (first_effective-cases children h (λ w a. (child-IsSuccessor w a).1)) [
        | inl empty ↦ absurd (subst (Among c) empty there)
        | inr (w, a, first, same) ↦ ground (arith, first, same c there, e)
      ]

  pub window_end-IsWindowEnd :
      AreConsistent → IsWindowEnd (window_end now v.deprecated_on (first_effective children))
  window_end-IsWindowEnd h =
      window_end-least now IsHandover v.deprecated_on (first_effective children) (λ d own. inl own)
        first-IsHandover
        (λ d x. elim x [
          | inl own ↦ inl own
          | inr (c, successor, e) ↦ inr (IsSuccessor-first h c d successor e)
        ])

  other_start :
      (a : ℕ) (cs : List BillingCycleVersion)
      → any (λ b. not (b == a)) (map start_of cs) ≡ true
      → (w : BillingCycleVersion) × Among w cs × (start_of w ≢ a)
  other_start a [] h = absurd (ground arith)
  other_start a (c ∷ cs) h = elim (Bool-cases (start_of c == a)) [
    | inl e ↦ let (w, there, differs) = other_start a cs (ground arith) in (w, inr there, differs)
    | inr e ↦ (c, inl refl, ground arith)
  ]

  two_starts :
      (cs : List BillingCycleVersion)
      → ltb 1 (length (distinct [] (map start_of cs))) ≡ true
      → (c : BillingCycleVersion) × (w : BillingCycleVersion) × Among c cs
        × Among w cs
        × (start_of c ≢ start_of w)
  two_starts [] h = absurd (ground arith)
  two_starts (c ∷ cs) h =
      let (w, there, differs) =
        other_start (start_of c) cs (distinct_two (start_of c) (map start_of cs) h) in
      (c, w, inl refl, inr there, λ same. differs (sym same))

  pub children-AreContradictory :
      ltb 1 (length (distinct [] (map start_of children))) ≡ true → AreContradictory
  children-AreContradictory h =
      let (c, w, a, b, differs) = two_starts children h in
      let (first, from) = child-IsSuccessor c a in
      let (second, from') = child-IsSuccessor w b in
      (c, w, start_of c, start_of w, first, second, from, from', differs)

  pub IsWindowEnd-unique : (a b : ℕ) → IsWindowEnd a → IsWindowEnd b → a ≡ b
  IsWindowEnd-unique a b (inl (d, hd, p, least)) (inl (e, he, q, least')) =
      omega (arith, p, q, least e he, least' d hd)
  IsWindowEnd-unique a b (inl (d, hd, p, least)) (inr (never, q)) = absurd (never d hd)
  IsWindowEnd-unique a b (inr (never, p)) (inl (d, hd, q, least)) = absurd (never d hd)
  IsWindowEnd-unique a b (inr (never, p)) (inr (never', q)) = p ∙ sym q
