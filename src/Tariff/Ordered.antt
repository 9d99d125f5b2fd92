-- ===== src/Tariff/Ordered.antt =====
-- The lists of tiers that assertTiersValid accepts.
use ccb_api.Base.{
  ◌⊎◌, ℕ, suc, ◌≤◌, ◌≡◌, refl, Option, none, some, List, [], ◌∷◌, arith, leb, Option-cases, inl,
  inr, Bool-cases,
}
use ccb_api.Base.Result.{HttpError, ok, err, Result-cases}
use mathlib.Core.List.{Perm}
use mathlib.Core.List.Perm
use ccb_api.Tariff.Tiers.{
  TariffTierDto, insert_tier, sort_tiers, check_tiers, check_previous, assert_tiers_valid,
}

-- Each minimum is at least the one before it, the first at least `from`.
abbrev pub IsAscending : ℕ → List TariffTierDto → Type 0
IsAscending from [] = Unit {0}
IsAscending from (t ∷ ts) = (from ≤ t.min_kwh) × IsAscending t.min_kwh ts

-- Each tier but the last has a maximum, which is at most the next minimum.
abbrev pub AreSeparate : List TariffTierDto → Type 0
AreSeparate [] = Unit {0}
AreSeparate (t ∷ []) = Unit {0}
AreSeparate (t ∷ u ∷ ts) =
    ((m : ℕ) × ((t.max_kwh ≡ some m) × (m ≤ u.min_kwh))) × AreSeparate (u ∷ ts)

-- The tiers in the order of their minimum: accepted and separate, or refused and not separate.
abbrev pub HasOrderedOutcome : List TariffTierDto → Type 0
HasOrderedOutcome ts =
    (sorted : List TariffTierDto) × (Perm ts sorted
      × (IsAscending 0 sorted
          × (((assert_tiers_valid ts ≡ ok sorted) × AreSeparate sorted)
              ⊎ ((e : HttpError) × ((assert_tiers_valid ts ≡ err e) × (¬ AreSeparate sorted))))))

insert_tier-Perm : (t : TariffTierDto) (us : List TariffTierDto) → Perm (t ∷ us) (insert_tier t us)
insert_tier-Perm t [] = Perm.refl (t ∷ [])
insert_tier-Perm t (u ∷ us) =
    let rest = insert_tier-Perm t us in
    elim (Bool-cases (leb t.min_kwh u.min_kwh)) [
      | inl e ↦ rw e (Perm.refl (t ∷ u ∷ us))
      | inr e ↦ rw e (Perm.trans (Perm.swap u t us) (Perm.cons u rest))
    ]

sort_tiers-Perm : (ts : List TariffTierDto) → Perm ts (sort_tiers ts)
sort_tiers-Perm [] = Perm.refl []
sort_tiers-Perm (t ∷ ts) =
    Perm.trans (Perm.cons t (sort_tiers-Perm ts)) (insert_tier-Perm t (sort_tiers ts))

insert_tier-IsAscending :
    (from : ℕ) (t : TariffTierDto) (us : List TariffTierDto)
    → from ≤ t.min_kwh
    → IsAscending from us
    → IsAscending from (insert_tier t us)
insert_tier-IsAscending from t [] b h = (b, tt)
insert_tier-IsAscending from t (u ∷ us) b h = elim (Bool-cases (leb t.min_kwh u.min_kwh)) [
  | inl e ↦ rw e (b, (ground arith, h.1))
  | inr e ↦ rw e (h.0, insert_tier-IsAscending u.min_kwh t us (ground arith) h.1)
]

sort_tiers-IsAscending : (ts : List TariffTierDto) → IsAscending 0 (sort_tiers ts)
sort_tiers-IsAscending [] = tt
sort_tiers-IsAscending (t ∷ ts) =
    insert_tier-IsAscending 0 t (sort_tiers ts) (ground arith) (sort_tiers-IsAscending ts)

check_tiers-AreSeparate :
    (index : ℕ) (previous : Option TariffTierDto) (ts : List TariffTierDto)
    → check_tiers index previous ts ≡ ok tt
    → AreSeparate ts
check_tiers-AreSeparate index previous [] e = tt
check_tiers-AreSeparate index previous (t ∷ []) e = tt
check_tiers-AreSeparate index previous (t ∷ u ∷ ts) e = elim (Option-cases t.max_kwh) [
  | inl f ↦ absurd (ground (arith, e, f))
  | inr (m, f) ↦
      let rest : check_tiers (suc index) (some t) (u ∷ ts) ≡ ok tt = ground (arith, e, f) in
      (
        (m, (f, ground (arith, rest, f))),
        check_tiers-AreSeparate (suc index) (some t) (u ∷ ts) rest,
      )
]

-- A first tier that starts where the one before it ends, or later.
abbrev pub IsAfter : Option TariffTierDto → List TariffTierDto → Type 0
IsAfter previous [] = Unit {0}
IsAfter previous (t ∷ ts) = (index : ℕ) → check_previous index previous t ≡ ok tt

AreSeparate-check_tiers :
    (index : ℕ) (previous : Option TariffTierDto) (ts : List TariffTierDto)
    → IsAfter previous ts
    → AreSeparate ts
    → check_tiers index previous ts ≡ ok tt
AreSeparate-check_tiers index previous [] a h = refl
AreSeparate-check_tiers index previous (t ∷ []) a h = ground (arith, a index)
AreSeparate-check_tiers index previous (t ∷ u ∷ ts) a h =
    let m = h.0.0 in
    let closed : t.max_kwh ≡ some m = h.0.1.0 in
    let before : m ≤ u.min_kwh = h.0.1.1 in
    let rest =
      AreSeparate-check_tiers (suc index) (some t) (u ∷ ts) (λ i. ground (arith, closed, before))
        h.1 in
    ground (arith, a index, closed, rest)

first-IsAfter : (ts : List TariffTierDto) → IsAfter none ts
first-IsAfter [] = tt
first-IsAfter (t ∷ ts) = λ index. refl

-- For any list of tiers there is a rearrangement of it in the order of the minima, such that either
-- the check returns it, and each of its tiers but the last has a maximum that is at most the next
-- tier's minimum, or the check throws, and they do not.
pub assert_tiers_valid-AreSeparate : (ts : List TariffTierDto) → HasOrderedOutcome ts
unfolding assert_tiers_valid
assert_tiers_valid-AreSeparate ts = (
  sort_tiers ts,
  (
    sort_tiers-Perm ts,
    (
      sort_tiers-IsAscending ts,
      elim (Result-cases (check_tiers 0 none (sort_tiers ts))) [
        | inl (done, passed) ↦
            inl (rw passed refl, check_tiers-AreSeparate 0 none (sort_tiers ts) passed)
        | inr (thrown, refused) ↦ inr (
          thrown,
          (
            rw refused refl,
            λ separate.
                let passed =
                  AreSeparate-check_tiers 0 none (sort_tiers ts) (first-IsAfter (sort_tiers ts))
                    separate in
                absurd (ground (arith, refused, passed)),
          ),
        )
      ],
    ),
  ),
)
