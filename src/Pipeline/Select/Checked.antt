-- ===== src/Pipeline/Select/Checked.antt =====
-- The checks behind the scan, in `selectRingCharts` of pkg/pipeline/select.go.
use gemaal.Base.{
  List, [], ◌∷◌, Bool, false, ◌≡◌, refl, inl, inr, Option, none, some, Text, text_eq, text_eq_iff,
  arith, All, any, map, filter_by, Bool-cases,
}
use gemaal.Engine.Types.{ok, Result-cases}
use gemaal.Pipeline.{Charts, Chart, all}
use gemaal.Pipeline.Select.{
  Files, Selection, SelectError, Table, matched, is_missing, missing, check_versions,
  extra_version_problem, is_unversioned, first_of, identities_problem, verify_chart_identity,
  selection, or_fail, require_complete, select_from,
}

module _ {A : Type 0} (p : A → Bool) where
  any-false : (xs : List A) → any p xs ≡ false → All (λ x. p x ≡ false) xs
  any-false [] h = tt
  any-false (x ∷ xs) h = elim (Bool-cases (p x)) [
    | inl e ↦ absurd (ground arith)
    | inr e ↦ (e, any-false xs (rw e at h))
  ]

  filter_by-empty : (xs : List A) → filter_by p xs ≡ [] → All (λ x. p x ≡ false) xs
  filter_by-empty [] h = tt
  filter_by-empty (x ∷ xs) h = elim (Bool-cases (p x)) [
    | inl e ↦ absurd (ground arith)
    | inr e ↦ (e, filter_by-empty xs (rw e at h))
  ]

map-empty : {A B : Type 0} (f : A → B) (xs : List A) → map f xs ≡ [] → xs ≡ []
map-empty f [] h = refl
map-empty f (x ∷ xs) h = absurd (ground arith)

extra_version_problem-none :
    (m : Table) (version : Text) (chs : List Chart)
    → extra_version_problem m version chs ≡ none
    → All (λ ch. (matched m ch.name).version ≡ version) chs
extra_version_problem-none m version [] h = tt
extra_version_problem-none m version (ch ∷ chs) h =
    elim (Bool-cases (text_eq (matched m ch.name).version version)) [
      | inl e ↦ (
        (text_eq_iff (matched m ch.name).version version).0 e,
        extra_version_problem-none m version chs (rw e at h),
      )
      | inr e ↦ absurd (cc (rw e at h))
    ]

first_of-none : (p q : Option SelectError) → first_of p q ≡ none → (p ≡ none) × (q ≡ none)
first_of-none none q h = (refl, h)
first_of-none (some e) q h = absurd (cc h)

abbrev pub IsVerified : Files → Table → Chart → Type 0
IsVerified f m ch =
    verify_chart_identity f (matched m ch.name).tgz ch.name (matched m ch.name).version ≡ none

identities_problem-none :
    (f : Files) (m : Table) (chs : List Chart)
    → identities_problem f m chs ≡ none
    → All (IsVerified f m) chs
identities_problem-none f m [] h = tt
identities_problem-none f m (ch ∷ chs) h =
    let (p, q) =
      first_of-none
        (verify_chart_identity f (matched m ch.name).tgz ch.name (matched m ch.name).version)
        (identities_problem f m chs) h in
    (p, identities_problem-none f m chs q)

require_complete-ok : (ts : List Text) → require_complete ts ≡ ok tt → ts ≡ []
require_complete-ok [] h = refl
require_complete-ok (t ∷ ts) h = absurd (cc h)

or_fail-ok :
    {A : Type 0} (p : Option SelectError) (a b : A) → or_fail p a ≡ ok b → (p ≡ none) × (a ≡ b)
or_fail-ok none a b h = (refl, cc h)
or_fail-ok (some e) a b h = absurd (cc h)

check_versions-none :
    (c : Charts) (m : Table)
    → check_versions c m ≡ none
    → All (λ ch. is_unversioned m ch ≡ false) (all c)
      × ((matched m c.ring2.name).version ≡ (matched m c.ring3.name).version)
      × All (λ ch. (matched m ch.name).version ≡ (matched m c.ring2.name).version) c.extra
unfolding check_versions
check_versions-none c m h =
    let v2 = (matched m c.ring2.name).version in
    let v3 = (matched m c.ring3.name).version in
    elim (Bool-cases (any (is_unversioned m) (all c))) [
      | inl e ↦ absurd (cc (rw e at h))
      | inr e ↦ elim (Bool-cases (text_eq v2 v3)) [
        | inr q ↦ absurd (cc (rw (e, q) at h))
        | inl q ↦ (
          any-false (is_unversioned m) (all c) e,
          (text_eq_iff v2 v3).0 q,
          extra_version_problem-none m v2 c.extra (rw (e, q) at h),
        )
      ]
    ]

missing-none :
    (c : Charts) (m : Table) → missing c m ≡ [] → All (λ ch. is_missing m ch ≡ false) (all c)
unfolding missing
missing-none c m h =
    filter_by-empty (is_missing m) (all c)
      (map-empty (λ ch. ch.name) (filter_by (is_missing m) (all c)) h)

-- What `selectRingCharts` proves of a table before it selects from it.
pub record IsChecked (c : Charts) (f : Files) (m : Table) : Type 0 where
  pub complete : All (λ ch. is_missing m ch ≡ false) (all c)
  pub versioned : All (λ ch. is_unversioned m ch ≡ false) (all c)
  pub rings : (matched m c.ring2.name).version ≡ (matched m c.ring3.name).version
  pub extras : All (λ ch. (matched m ch.name).version ≡ (matched m c.ring2.name).version) c.extra
  pub identities : All (IsVerified f m) (all c)

pub select_from-IsChecked :
    (c : Charts) (f : Files) (m : Table) (sel : Selection)
    → select_from c f m ≡ ok sel
    → IsChecked c f m × (selection c m ≡ sel)
select_from-IsChecked c f m sel h = elim (Result-cases (require_complete (missing c m))) [
  | inr (p, e) ↦ absurd (cc (rw e at h))
  | inl (tt, e) ↦ elim (Result-cases (or_fail (check_versions c m) tt)) [
    | inr (p, q) ↦ absurd (cc (rw (e, q) at h))
    | inl (tt, q) ↦
        let (ids, same) =
          or_fail-ok (identities_problem f m (all c)) (selection c m) sel (rw (e, q) at h) in
        let (v, r, x) = check_versions-none c m (or_fail-ok (check_versions c m) tt tt q).0 in
        (
          record {
            complete = missing-none c m (require_complete-ok (missing c m) e);
            versioned = v;
            rings = r;
            extras = x;
            identities = identities_problem-none f m (all c) ids;
          },
          same,
        )
  ]
]
