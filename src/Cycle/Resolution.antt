-- ===== src/Cycle/Resolution.antt =====
-- What `resolveVersionForReadingDate` answers: a version that covers the date, if there is one and
-- no other version does.
use ccb_api.Base.{
  ℕ, ◌≢◌, not, Option-cases, ◌≡◌, refl, sym, ap, Bool, true, false, ◌&&◌, Option, none, some, List,
  [], ◌∷◌, ◌++◌, map, arith, ltb, ◌==◌, any, distinct, length, All, ◌⊎◌, inl, inr, Bool-cases,
}
use mathlib.Core.Path.{subst}
use ccb_api.Base.Rows.{All-append, All-imp}
use ccb_api.Readiness.Data.{VersionResolution, Period}
use ccb_api.Cycle.Data.{
  BillingCycleVersion, BillingCycleMaster, State, master_of_property, was_live,
}
use ccb_api.Cycle.Period.{ReadingPeriod}
use ccb_api.Cycle.Resolve.{
  Match, matches_of, append_matches, all_matches, candidates_of, conclude,
  resolve_version_for_reading_date,
}
use ccb_api.Cycle.Window.{
  Among, Among-filter, filter-Among, IsLive, was_live-IsLive, IsLive-was_live, AreContradictory,
  children-AreContradictory, distinct_one, distinct_two,
}
use ccb_api.Cycle.Covers.{Covers, IsMatchOf, matches_of-IsMatchOf, Found, matches_of-Found}

module _ (versions : List BillingCycleVersion) (master now target : ℕ) where
  -- A match that one of the versions gives.
  abbrev IsGiven : List BillingCycleVersion → Match → Type 0
  IsGiven candidates x =
      (v : BillingCycleVersion) × Among v candidates × IsMatchOf versions master now target v x

  append-cases :
      (a b : Option (List Match)) {ms : List Match}
      → append_matches a b ≡ some ms
      → (xs : List Match) × (ys : List Match) × (a ≡ some xs) × (b ≡ some ys) × (ms ≡ xs ++ ys)
  append-cases none b h = absurd (ground arith)
  append-cases (some xs) none h = absurd (ground arith)
  append-cases (some xs) (some ys) h = (xs, ys, refl, refl, ground arith)

  all_matches-IsGiven :
      (candidates : List BillingCycleVersion) {ms : List Match}
      → all_matches versions master now target candidates ≡ some ms
      → All (IsGiven candidates) ms
  unfolding all_matches
  all_matches-IsGiven [] {ms} h =
      let empty : [] ≡ ms = ground arith in subst (All (IsGiven [])) empty tt
  all_matches-IsGiven (v ∷ candidates) {ms} h =
      let (xs, ys, p, q, joined) =
        append-cases (matches_of versions master now target v)
          (all_matches versions master now target candidates) h in
      subst (All (IsGiven (v ∷ candidates))) (sym joined) (
        All-append (IsGiven (v ∷ candidates)) xs ys
          (All-imp xs (λ x m. (v, inl refl, m))
            (matches_of-IsMatchOf versions master now target v p))
          (All-imp ys (λ x g. (g.0, inr g.1, g.2)) (all_matches-IsGiven candidates q)))

  any-append :
      (f : Match → Bool) (xs ys : List Match)
      → (any f xs ≡ true) ⊎ (any f ys ≡ true)
      → any f (xs ++ ys) ≡ true
  any-append f [] ys (inl h) = absurd (ground arith)
  any-append f [] ys (inr h) = h
  any-append f (x ∷ xs) ys h = elim (Bool-cases (f x)) [
    | inl e ↦ ground arith
    | inr e ↦ ground (arith, any-append f xs ys (ground arith))
  ]

  all_matches-Found :
      (candidates : List BillingCycleVersion) (v : BillingCycleVersion) (p : ReadingPeriod)
      {ms : List Match}
      → Among v candidates
      → Covers versions master now target v p
      → all_matches versions master now target candidates ≡ some ms
      → Found versions master now target v ms
  unfolding all_matches
  all_matches-Found [] v p a c h = absurd a
  all_matches-Found (w ∷ candidates) v p {ms} a c h =
      let (xs, ys, q, r, joined) =
        append-cases (matches_of versions master now target w)
          (all_matches versions master now target candidates) h in
      let found : (any (λ (x : Match). x.version_id == v.id) xs ≡ true)
          ⊎ (any (λ (x : Match). x.version_id == v.id) ys ≡ true) =
        elim a [
          | inl same ↦ inl (
              matches_of-Found versions master now target v p c
                (subst (λ x. matches_of versions master now target x ≡ some xs) same q))
          | inr later ↦ inr (all_matches-Found candidates v p later c r)
        ] in
      rw joined (any-append (λ (x : Match). x.version_id == v.id) xs ys found)

  -- A version of the master that is or was live.
  abbrev pub IsCandidate : BillingCycleVersion → Type 0
  IsCandidate v = Among v versions × (v.master_id ≡ master) × IsLive v

  Among-IsCandidate :
      (v : BillingCycleVersion) → Among v (candidates_of master versions) → IsCandidate v
  Among-IsCandidate v a =
      let (there, e) = Among-filter (λ w. (w.master_id == master) && was_live w) v versions a in
      (there, ground arith, was_live-IsLive v (ground arith))

  IsCandidate-Among :
      (v : BillingCycleVersion) → IsCandidate v → Among v (candidates_of master versions)
  IsCandidate-Among v (there, same, live) =
      filter-Among (λ w. (w.master_id == master) && was_live w) v versions there
        (ground (arith, same, IsLive-was_live v live))

  matches_of-AreContradictory :
      (v : BillingCycleVersion)
      → matches_of versions master now target v ≡ none
      → AreContradictory versions master now v
  unfolding matches_of
  matches_of-AreContradictory v h = elim (Option-cases v.effective_from) [
    | inl e ↦ absurd (ground arith)
    | inr (from, e) ↦ children-AreContradictory versions master now v (ground arith)
  ]

  all_matches-none :
      (candidates : List BillingCycleVersion)
      → all_matches versions master now target candidates ≡ none
      → (v : BillingCycleVersion) × Among v candidates × AreContradictory versions master now v
  unfolding all_matches
  all_matches-none [] h = absurd (ground arith)
  all_matches-none (v ∷ candidates) h =
      elim (Option-cases (matches_of versions master now target v)) [
        | inl e ↦ (v, inl refl, matches_of-AreContradictory v e)
        | inr (ms, e) ↦ let (w, a, c) = all_matches-none candidates (ground arith) in (w, inr a, c)
      ]

  other_match :
      (P : Match → Type 0) (a : ℕ) (ms : List Match)
      → any (λ b. not (b == a)) (map (λ (x : Match). x.version_id) ms) ≡ true
      → All P ms
      → (x : Match) × P x × (x.version_id ≢ a)
  other_match P a [] h given = absurd (ground arith)
  other_match P a (x ∷ ms) h given = elim (Bool-cases (x.version_id == a)) [
    | inl e ↦ other_match P a ms (ground arith) given.1
    | inr e ↦ (x, given.0, ground arith)
  ]

  -- The version found covers the date in the period found, and no other candidate covers it.
  pub record IsResolved (vid : ℕ) (p : Period) : Type 0 where
    pub version : BillingCycleVersion
    pub candidate : IsCandidate version
    pub same_id : version.id ≡ vid
    pub same_master : p.master_id ≡ master
    pub covers :
        Covers versions master now target version
          (record { start = p.period_start; end = p.period_end })
    pub only :
        (w : BillingCycleVersion) (q : ReadingPeriod)
        → IsCandidate w
        → Covers versions master now target w q
        → w.id ≡ vid

  -- The date is ambiguous: successors of a candidate contradict each other, or two candidates with
  -- different ids cover it.
  abbrev pub IsAmbiguous : Type 0
  IsAmbiguous =
      ((v : BillingCycleVersion) × IsCandidate v × AreContradictory versions master now v)
      ⊎ ((v : BillingCycleVersion) × (w : BillingCycleVersion) × IsCandidate v
          × IsCandidate w
          × ((p : ReadingPeriod) × Covers versions master now target v p)
          × ((q : ReadingPeriod) × Covers versions master now target w q)
          × (v.id ≢ w.id))

  -- An answer: none only if no candidate covers the date, a version only if it alone does.
  abbrev pub IsAnswer : VersionResolution → Type 0
  IsAnswer VersionResolution.none_found =
      (w : BillingCycleVersion) (q : ReadingPeriod)
      → IsCandidate w
      → Covers versions master now target w q
      → ⊥
  IsAnswer VersionResolution.ambiguous = IsAmbiguous
  IsAnswer (VersionResolution.resolved vid p) = IsResolved vid p

  candidate-Found :
      {ms : List Match}
      → all_matches versions master now target (candidates_of master versions) ≡ some ms
      → (w : BillingCycleVersion) (q : ReadingPeriod) → IsCandidate w
      → Covers versions master now target w q
      → Found versions master now target w ms
  candidate-Found h w q c covered =
      all_matches-Found (candidates_of master versions) w q (IsCandidate-Among w c) covered h

  same_version :
      (vid a : ℕ) (ms : List Match)
      → All (λ b. b ≡ a) (map (λ (x : Match). x.version_id) ms)
      → any (λ (x : Match). x.version_id == vid) ms ≡ true
      → vid ≡ a
  same_version vid a [] h f = absurd (ground arith)
  same_version vid a (x ∷ ms) h f = ground (arith, h.0, same_version vid a ms h.1)

  abbrev period_of : Match → ReadingPeriod
  period_of x = record { start = x.period_start; end = x.period_end }

  conclude-IsAnswer :
      (o : Option (List Match))
      → all_matches versions master now target (candidates_of master versions) ≡ o
      → IsAnswer (conclude master o)
  conclude-IsAnswer none h =
      let (v, a, c) = all_matches-none (candidates_of master versions) h in
      inl (v, Among-IsCandidate v a, c)
  conclude-IsAnswer (some []) h =
      λ w q c covered. let never : false ≡ true = candidate-Found h w q c covered in cc
  conclude-IsAnswer (some (x ∷ ms)) h =
      let ids = map (λ (y : Match). y.version_id) (x ∷ ms) in
      elim (Bool-cases (ltb 1 (length (distinct [] ids)))) [
        | inl e ↦
            let (given, others) = all_matches-IsGiven (candidates_of master versions) h in
            let (y, (w, b, (q, covers', made')), differs) =
              other_match (IsGiven (candidates_of master versions)) x.version_id ms
                (distinct_two x.version_id (map (λ (z : Match). z.version_id) ms) e) others in
            let (v, a, (p, covers, made)) = given in
            rw e (
              inr (
                v,
                w,
                Among-IsCandidate v a,
                Among-IsCandidate w b,
                (p, covers),
                (q, covers'),
                λ same. differs (ground (arith, made, made', same)),
              ))
        | inr e ↦
            let one = distinct_one x.version_id (map (λ (y : Match). y.version_id) ms) e in
            let (v, among, (p, covers, made)) =
              (all_matches-IsGiven (candidates_of master versions) h).0 in
            rw e (record {
              version = v;
              candidate = Among-IsCandidate v among;
              same_id = ground arith;
              same_master = refl;
              covers = subst (Covers versions master now target v) (ap period_of (sym made)) covers;
              only = λ w q c covered.
                  same_version w.id x.version_id (x ∷ ms) (refl, one)
                    (candidate-Found h w q c covered);
            })
      ]

-- For a property that has a cycle, and a version's window being the time from its effective date to
-- the first of its deprecation and the starts of the versions that took over from it, or to now: if
-- a version is returned for a date, it is one of the master's that is or was live, the period
-- returned is one of its reading periods, starts in its window and contains the date, which lies
-- before the end of the window too, and no version of another id that is or was live covers the
-- date like that; if none is returned, none does; and if the date is ambiguous, two of different
-- ids do, or some version has successors that start on different days.
pub resolve_version-IsAnswer :
    (st : State) (now pid target : ℕ) (m : BillingCycleMaster)
    → master_of_property pid st ≡ some m
    → IsAnswer st.versions m.id now target (resolve_version_for_reading_date st now pid target)
unfolding resolve_version_for_reading_date
resolve_version-IsAnswer st now pid target m e =
    let answer : resolve_version_for_reading_date st now pid target
        ≡ conclude m.id (all_matches st.versions m.id now target (candidates_of m.id st.versions)) =
      ground (arith, e) in
    subst (IsAnswer st.versions m.id now target) (sym answer) (
      conclude-IsAnswer st.versions m.id now target
        (all_matches st.versions m.id now target (candidates_of m.id st.versions)) refl)
