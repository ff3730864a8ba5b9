-- ===== src/Pipeline/Select/Scanned.antt =====
-- The scan of the charts directory in `selectRingCharts` of pkg/pipeline/select.go.
use gemaal.Base.{
  List, [], ◌∷◌, ◌++◌, true, false, ◌≡◌, refl, sym, ap, ◌∙◌, subst, ◌⊎◌, inl, inr, Option, none,
  some, Text, text_eq, text_eq_iff, text_eq_refl, has_suffix, trim_suffix, arith, All, Any,
  Bool-cases, Option-cases,
}
use gemaal.Config.{lookup}
use gemaal.Engine.Types.{ok, Result-cases, ok-inj}
use gemaal.Pipeline.{Charts, Matched, all, match_chart}
use gemaal.Pipeline.Match.{tarball, match_chart-IsTarballOf}
use gemaal.Pipeline.Paths.{join}
use gemaal.Pipeline.Select.{
  DirEntry, ChartMatch, SelectError, Table, tgz_ending, insert_match, place_match, scan_entry, scan,
}

-- The entry is a regular file, named for a chart of the release and a version, with the ending.
pub record IsFileOf (c : Charts) (dir name : Text) (m : ChartMatch) (e : DirEntry) : Type 0 where
  pub regular : e.is_regular ≡ true
  pub file : e.name ≡ tarball name m.version ++ tgz_ending
  pub configured : Any (λ ch. ch.name ≡ name) (all c)
  pub path : m.tgz ≡ join dir e.name

abbrev pub IsNoTarball : DirEntry → Type 0
IsNoTarball e = (has_suffix e.name tgz_ending ≡ false) ⊎ (e.is_regular ≡ false)

trim_suffix-split : (s t : Text) → has_suffix s t ≡ true → s ≡ trim_suffix s t ++ t
unfolding has_suffix trim_suffix
trim_suffix-split [] t h = (text_eq_iff [] t).0 h
trim_suffix-split (c ∷ s) t h = elim (Bool-cases (text_eq (c ∷ s) t)) [
  | inl e ↦ rw e ((text_eq_iff (c ∷ s) t).0 e)
  | inr e ↦ let r = trim_suffix-split s t (ground arith) in rw e (ap (λ x. c ∷ x) r)
]

-- What one entry does to the table.
data Entered (c : Charts) (dir : Text) (e : DirEntry) (m : Table) : Table → Type 0 where
  passed : IsNoTarball e → Entered c dir e m m
  added :
      (name : Text) (cm : ChartMatch)
      → IsFileOf c dir name cm e
      → lookup name m ≡ none
      → Entered c dir e m ((name, cm) ∷ m)

-- a match that is placed in the table
record IsPlaced (dir name : Text) (m next : Table) (t : Matched) : Type 0 where
  is_match : t.ok ≡ true
  free : lookup t.name m ≡ none
  grown : (t.name, record { tgz = join dir name; version = t.version }) ∷ m ≡ next

insert_match-IsPlaced :
    (c : Charts) (dir name : Text) (m next : Table) (t : Matched)
    → t.ok ≡ true
    → insert_match c dir name m t (lookup t.name m) ≡ ok next
    → IsPlaced dir name m next t
insert_match-IsPlaced c dir name m next t k h = elim (Option-cases (lookup t.name m)) [
  | inl e ↦ record {
    is_match = k;
    free = e;
    grown =
        ok-inj {E = SelectError} ((t.name, record { tgz = join dir name; version = t.version }) ∷ m)
          next (rw e at h);
  }
  | inr (p, e) ↦ absurd (cc (rw e at h))
]

place_match-IsPlaced :
    (c : Charts) (dir name : Text) (m next : Table) (t : Matched)
    → place_match c dir name m t ≡ ok next
    → IsPlaced dir name m next t
place_match-IsPlaced c dir name m next t h = elim (Bool-cases t.ok) [
  | inl e ↦ insert_match-IsPlaced c dir name m next t e (rw e at h)
  | inr e ↦ absurd (cc (rw e at h))
]

placed-Entered :
    (c : Charts) (dir : Text) (e : DirEntry) (m next : Table)
    → has_suffix e.name tgz_ending ≡ true
    → e.is_regular ≡ true
    → IsPlaced dir e.name m next (match_chart c (trim_suffix e.name tgz_ending))
    → Entered c dir e m next
placed-Entered c dir e m next p q placed =
    let t = match_chart c (trim_suffix e.name tgz_ending) in
    let own = match_chart-IsTarballOf c (trim_suffix e.name tgz_ending) placed.is_match in
    subst (Entered c dir e m) placed.grown (
      added t.name (record { tgz = join dir e.name; version = t.version })
        (record {
          regular = q;
          file = trim_suffix-split e.name tgz_ending p ∙ ap (λ x. x ++ tgz_ending) own.split;
          configured = own.owner;
          path = refl;
        })
        placed.free)

scan_entry-Entered :
    (c : Charts) (dir : Text) (e : DirEntry) (m next : Table)
    → scan_entry c dir e m ≡ ok next
    → Entered c dir e m next
unfolding scan_entry
scan_entry-Entered c dir e m next h = elim (Bool-cases (has_suffix e.name tgz_ending)) [
  | inr p ↦ subst (Entered c dir e m) (ok-inj {E = SelectError} m next (rw p at h)) (passed (inl p))
  | inl p ↦ elim (Bool-cases e.is_regular) [
    | inr q ↦
        subst (Entered c dir e m) (ok-inj {E = SelectError} m next (rw (p, q) at h))
          (passed (inr q))
    | inl q ↦ placed-Entered c dir e m next p q (
        place_match-IsPlaced c dir e.name m next (match_chart c (trim_suffix e.name tgz_ending))
          (rw (p, q) at h))
  ]
]

-- An entry is no tarball, or its match stands in the table.
abbrev pub IsEntered : Charts → Text → Table → DirEntry → Type 0
IsEntered c dir m e =
    IsNoTarball e
    ⊎ ((name : Text) × (cm : ChartMatch) × IsFileOf c dir name cm e × (lookup name m ≡ some cm))

-- What the scan of some entries makes of a table.
pub record IsScanned (c : Charts) (dir : Text) (es : List DirEntry) (before m : Table)
    : Type 0 where
  pub kept :
      (name : Text) (cm : ChartMatch) → lookup name before ≡ some cm → lookup name m ≡ some cm
  pub stored :
      (name : Text) (cm : ChartMatch)
      → lookup name m ≡ some cm
      → (lookup name before ≡ some cm) ⊎ Any (IsFileOf c dir name cm) es
  pub entered : All (IsEntered c dir m) es

lookup-first : (name : Text) (cm : ChartMatch) (m : Table) → lookup name ((name, cm) ∷ m) ≡ some cm
unfolding lookup
lookup-first name cm m = ground (arith, text_eq_refl name)

lookup-later :
    (k name : Text) (cm cn : ChartMatch) (m : Table)
    → lookup name m ≡ none
    → lookup k m ≡ some cn
    → lookup k ((name, cm) ∷ m) ≡ some cn
unfolding lookup
lookup-later k name cm cn m free h = elim (Bool-cases (text_eq name k)) [
  | inr e ↦ rw e h
  | inl e ↦
      let clear : lookup k m ≡ none =
        subst (λ x. lookup x m ≡ none) ((text_eq_iff name k).0 e) free in
      absurd (ground arith)
]

some-inj : (a b : ChartMatch) → Path (Option ChartMatch) (some a) (some b) → a ≡ b
some-inj a b h = cc h

lookup-grown :
    (k name : Text) (cm cn : ChartMatch) (m : Table)
    → lookup k ((name, cm) ∷ m) ≡ some cn
    → ((name ≡ k) × (cm ≡ cn)) ⊎ (lookup k m ≡ some cn)
unfolding lookup
lookup-grown k name cm cn m h = elim (Bool-cases (text_eq name k)) [
  | inr e ↦ inr (rw e at h)
  | inl e ↦ inl ((text_eq_iff name k).0 e, some-inj cm cn (rw e at h))
]

scan-passed :
    (c : Charts) (dir : Text) (e : DirEntry) (es : List DirEntry) (m last : Table)
    → IsNoTarball e
    → IsScanned c dir es m last
    → IsScanned c dir (e ∷ es) m last
scan-passed c dir e es m last h s = record {
  kept = s.kept;
  stored = λ name cm k. elim (s.stored name cm k) [ inl p ↦ inl p | inr q ↦ inr (inr q) ];
  entered = (inl h, s.entered);
}

scan-added :
    (c : Charts) (dir : Text) (e : DirEntry) (es : List DirEntry) (m last : Table) (name : Text)
    (cm : ChartMatch)
    → IsFileOf c dir name cm e
    → lookup name m ≡ none
    → IsScanned c dir es ((name, cm) ∷ m) last
    → IsScanned c dir (e ∷ es) m last
scan-added c dir e es m last name cm file free s = record {
  kept = λ k cn h. s.kept k cn (lookup-later k name cm cn m free h);
  stored = λ k cn h. elim (s.stored k cn h) [
    | inr q ↦ inr (inr q)
    | inl p ↦ elim (lookup-grown k name cm cn m p) [
      | inr r ↦ inl r
      | inl (a, b) ↦
          inr (
            inl
              (subst (λ x. IsFileOf c dir x cn e) a (subst (λ x. IsFileOf c dir name x e) b file)))
    ]
  ];
  entered = (inr (name, cm, file, s.kept name cm (lookup-first name cm m)), s.entered);
}

scan-Entered :
    (c : Charts) (dir : Text) (e : DirEntry) (es : List DirEntry) (m next last : Table)
    → Entered c dir e m next
    → IsScanned c dir es next last
    → IsScanned c dir (e ∷ es) m last
scan-Entered c dir e es m next last (passed h) s = scan-passed c dir e es m last h s
scan-Entered c dir e es m next last (added name cm file free) s =
    scan-added c dir e es m last name cm file free s

pub scan-IsScanned :
    (c : Charts) (dir : Text) (es : List DirEntry) (m last : Table)
    → scan c dir es m ≡ ok last
    → IsScanned c dir es m last
scan-IsScanned c dir [] m last h =
    let same = ok-inj {E = SelectError} m last h in
    record {
      kept = λ name cm k. subst (λ x. lookup name x ≡ some cm) same k;
      stored = λ name cm k. inl (subst (λ x. lookup name x ≡ some cm) (sym same) k);
      entered = tt;
    }
scan-IsScanned c dir (e ∷ es) m last h = elim (Result-cases (scan_entry c dir e m)) [
  | inr (p, q) ↦ absurd (cc (rw q at h))
  | inl (next, q) ↦
      scan-Entered c dir e es m next last (scan_entry-Entered c dir e m next q)
        (scan-IsScanned c dir es next last (rw q at h))
]
