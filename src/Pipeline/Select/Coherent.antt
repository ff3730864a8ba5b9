-- ===== src/Pipeline/Select/Coherent.antt =====
-- The selection of `selectRingCharts` in pkg/pipeline/select.go.
use gemaal.Base.{
  List, [], ◌∷◌, ◌++◌, true, false, ◌≡◌, refl, sym, ap, ◌∙◌, subst, ◌⊎◌, inl, inr, ◌≢◌, none, some,
  Text, text_eq, text_eq_iff, is_empty, arith, All, All-map, All-zip, All-append, Any, Any-map, map,
  Option-cases,
}
use gemaal.Config.{lookup}
use gemaal.Engine.Types.{ok, Result-cases}
use gemaal.Pipeline.{Charts, Chart, all}
use gemaal.Pipeline.Match.{tarball}
use gemaal.Pipeline.Paths.{join}
use gemaal.Pipeline.Select.{
  DirEntry, Files, ChartYaml, not_found, unreadable, found, Selection, chart_tarball, ChartMatch,
  Table, matched, is_missing, identity_problem, verify_chart_identity, read_chart_yaml, selection,
  select_ring_charts, tgz_ending, scan,
}
use gemaal.Pipeline.Select.Scanned.{IsNoTarball, IsEntered, IsScanned, scan-IsScanned}
use gemaal.Pipeline.Select.Checked.{IsChecked, IsVerified, select_from-IsChecked}

-- The path is that of a regular file of the directory, which is named for the chart and the version
-- and carries them in its Chart.yaml.
pub record IsTarball (f : Files) (dir : Text) (es : List DirEntry) (version name tgz : Text)
    : Type 0 where
  pub file :
      Any
        (λ e.
          (e.is_regular ≡ true)
          × (e.name ≡ tarball name version ++ tgz_ending)
          × (tgz ≡ join dir e.name))
        es
  pub identity : read_chart_yaml f tgz ≡ found (record { name = name; version = version })

-- The entry is no tarball, or that of a chart of the release on the version.
abbrev pub IsOfBuild : Charts → Text → DirEntry → Type 0
IsOfBuild c version e =
    IsNoTarball e ⊎ Any (λ ch. e.name ≡ tarball ch.name version ++ tgz_ending) (all c)

-- One tarball for each chart of the release, all of them on one version, and no other tarball.
pub record IsCoherent (c : Charts) (f : Files) (dir : Text) (es : List DirEntry) (sel : Selection)
    : Type 0 where
  pub versioned : sel.version ≢ []
  pub ring2 : IsTarball f dir es sel.version c.ring2.name sel.infra_tgz
  pub ring3 : IsTarball f dir es sel.version c.ring3.name sel.app_tgz
  pub extra : All (λ t. IsTarball f dir es sel.version t.name t.tgz) sel.extra
  pub extra_names : map (λ t. t.name) sel.extra ≡ map (λ ch. ch.name) c.extra
  pub nothing_else : All (IsOfBuild c sel.version) es

identity_problem-none :
    (tgz name version : Text) (y : ChartYaml)
    → identity_problem tgz name version y ≡ none
    → y ≡ found (record { name = name; version = version })
unfolding identity_problem
identity_problem-none tgz name version not_found h = absurd (cc h)
identity_problem-none tgz name version (unreadable e) h = absurd (cc h)
identity_problem-none tgz name version (found id) h =
    let a : text_eq id.name name ≡ true = ground arith in
    let b : text_eq id.version version ≡ true = ground arith in
    λ i. found (record {
      name = (text_eq_iff id.name name).0 a i;
      version = (text_eq_iff id.version version).0 b i;
    })

matched-stored :
    (name : Text) (m : Table) (cm : ChartMatch) → lookup name m ≡ some cm → matched m name ≡ cm
matched-stored name m cm h = rw h refl

-- a match of the table that all checks accept, on the version
abbrev IsAccepted : Files → Table → Text → Chart → Type 0
IsAccepted f m version ch =
    (is_missing m ch ≡ false) × (((matched m ch.name).version ≡ version) × IsVerified f m ch)

stored-IsTarball :
    (c : Charts) (f : Files) (dir : Text) (es : List DirEntry) (m : Table) (version : Text)
    (ch : Chart)
    → IsScanned c dir es [] m
    → IsAccepted f m version ch
    → IsTarball f dir es version ch.name (matched m ch.name).tgz
unfolding lookup verify_chart_identity
stored-IsTarball c f dir es m version ch s (present, (on_version, verified)) =
    elim (Option-cases (lookup ch.name m)) [
      | inl e ↦ absurd (ground arith)
      | inr (cm, e) ↦ elim (s.stored ch.name cm e) [
        | inl never ↦ absurd (cc never)
        | inr files ↦
            let same = matched-stored ch.name m cm e in
            let v : cm.version ≡ version = ap (λ x. x.version) (sym same) ∙ on_version in
            record {
              file =
                  Any-map
                    (λ x i. (
                      i.regular,
                      i.file ∙ ap (λ z. tarball ch.name z ++ tgz_ending) v,
                      ap (λ z. z.tgz) same ∙ i.path,
                    ))
                    es files;
              identity =
                  identity_problem-none (matched m ch.name).tgz ch.name (matched m ch.name).version
                    (read_chart_yaml f (matched m ch.name).tgz) verified
                  ∙ ap (λ z. found (record { name = ch.name; version = z })) on_version;
            }
      ]
    ]

all_on_version :
    (c : Charts) (f : Files) (m : Table)
    → IsChecked c f m
    → All (λ ch. (matched m ch.name).version ≡ (matched m c.ring2.name).version) (all c)
unfolding all
all_on_version c f m k = (
  refl,
  All-append (λ ch. (matched m ch.name).version ≡ (matched m c.ring2.name).version) c.extra
      (c.ring3 ∷ []) k.extras (sym k.rings, tt),
)

accepted :
    (c : Charts) (f : Files) (m : Table)
    → IsChecked c f m
    → All (IsAccepted f m (matched m c.ring2.name).version) (all c)
accepted c f m k =
    let version = (matched m c.ring2.name).version in
    All-zip (λ ch. is_missing m ch ≡ false)
      (λ ch. ((matched m ch.name).version ≡ version) × IsVerified f m ch) (all c) k.complete
      (All-zip (λ ch. (matched m ch.name).version ≡ version) (IsVerified f m) (all c)
        (all_on_version c f m k) k.identities)

owner_on_version :
    (m : Table) (version name : Text) (cm : ChartMatch) (e : DirEntry) (chs : List Chart)
    → lookup name m ≡ some cm
    → e.name ≡ tarball name cm.version ++ tgz_ending
    → All (λ ch. (matched m ch.name).version ≡ version) chs
    → Any (λ ch. ch.name ≡ name) chs
    → Any (λ ch. e.name ≡ tarball ch.name version ++ tgz_ending) chs
owner_on_version m version name cm e [] stored file k own = absurd own
owner_on_version m version name cm e (ch ∷ chs) stored file (v, k) (inr own) =
    inr (owner_on_version m version name cm e chs stored file k own)
owner_on_version m version name cm e (ch ∷ chs) stored file (v, k) (inl own) =
    let of_chart : lookup ch.name m ≡ some cm =
      subst (λ x. lookup x m ≡ some cm) (sym own) stored in
    let same : cm.version ≡ version =
      ap (λ x. x.version) (sym (matched-stored ch.name m cm of_chart)) ∙ v in
    inl (
      subst (λ x. e.name ≡ tarball x version ++ tgz_ending) (sym own)
        (subst (λ x. e.name ≡ tarball name x ++ tgz_ending) same file))

entered-IsOfBuild :
    (c : Charts) (dir : Text) (m : Table) (version : Text) (e : DirEntry)
    → All (λ ch. (matched m ch.name).version ≡ version) (all c)
    → IsEntered c dir m e
    → IsOfBuild c version e
entered-IsOfBuild c dir m version e k (inl h) = inl h
entered-IsOfBuild c dir m version e k (inr (name, cm, file, stored)) =
    inr (owner_on_version m version name cm e (all c) stored file.file k file.configured)

names_kept :
    (m : Table) (chs : List Chart)
    → map (λ t. t.name) (map (chart_tarball m) chs) ≡ map (λ ch. ch.name) chs
names_kept m [] = refl
names_kept m (ch ∷ chs) = ap (λ x. ch.name ∷ x) (names_kept m chs)

tarballs_kept :
    (f : Files) (dir : Text) (es : List DirEntry) (m : Table) (version : Text) (chs : List Chart)
    → All (λ ch. IsTarball f dir es version ch.name (matched m ch.name).tgz) chs
    → All (λ t. IsTarball f dir es version t.name t.tgz) (map (chart_tarball m) chs)
tarballs_kept f dir es m version [] h = tt
tarballs_kept f dir es m version (ch ∷ chs) (p, h) = (p, tarballs_kept f dir es m version chs h)

All-split : {A : Type 0} (P : A → Type 0) (xs ys : List A) → All P (xs ++ ys) → All P xs × All P ys
All-split P [] ys h = (tt, h)
All-split P (x ∷ xs) ys (p, h) = let (a, b) = All-split P xs ys h in ((p, a), b)

not_empty : (t : Text) → is_empty t ≡ false → t ≢ []
not_empty [] h e = absurd (cc h)
not_empty (c ∷ t) h e = absurd (cc e)

selection-IsCoherent :
    (c : Charts) (f : Files) (dir : Text) (es : List DirEntry) (m : Table)
    → IsScanned c dir es [] m
    → IsChecked c f m
    → IsCoherent c f dir es (selection c m)
unfolding selection all
selection-IsCoherent c f dir es m s k =
    let version = (matched m c.ring2.name).version in
    let all_held =
      All-map (λ ch a. stored-IsTarball c f dir es m version ch s a) (all c) (accepted c f m k) in
    let (extra, (ring3, _)) =
      All-split (λ ch. IsTarball f dir es version ch.name (matched m ch.name).tgz) c.extra
        (c.ring3 ∷ []) all_held.1 in
    record {
      versioned = not_empty version k.versioned.0;
      ring2 = all_held.0;
      ring3 = ring3;
      extra = tarballs_kept f dir es m version c.extra extra;
      extra_names = names_kept m c.extra;
      nothing_else =
          All-map (λ e h. entered-IsOfBuild c dir m version e (all_on_version c f m k) h) es
            s.entered;
    }

-- A selection that succeeds has read the directory, and has exactly one tarball for each chart of
-- the release: a regular file named for the chart and the one version of the selection, whose own
-- Chart.yaml says the same, at the path selected for it. That version is not empty, the extras keep
-- the configured order, and every other entry of the directory is not a regular .tgz file.
pub select_ring_charts-IsCoherent :
    (c : Charts) (f : Files) (dir : Text) (sel : Selection)
    → select_ring_charts c f dir ≡ ok sel
    → (es : List DirEntry) × (f.read_dir dir ≡ ok es) × IsCoherent c f dir es sel
unfolding select_ring_charts
select_ring_charts-IsCoherent c f dir sel h = elim (Result-cases (f.read_dir dir)) [
  | inr (p, e) ↦ absurd (cc (rw e at h))
  | inl (es, e) ↦ elim (Result-cases (scan c dir es [])) [
    | inr (p, q) ↦ absurd (cc (rw (e, q) at h))
    | inl (m, q) ↦
        let (k, same) = select_from-IsChecked c f m sel (rw (e, q) at h) in
        (
          es,
          e,
          subst (IsCoherent c f dir es) same
              (selection-IsCoherent c f dir es m (scan-IsScanned c dir es [] m q) k),
        )
  ]
]
