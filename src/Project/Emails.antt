-- ===== src/Project/Emails.antt =====
-- The identity map that a project's document leads to, pkg/gemaalcfg/gemaalcfg.go.
use gemaal.Base.{
  List, [], ◌∷◌, true, Option, none, Text, is_empty, ◌≡◌, refl, arith, subst, All, Bool-cases,
  Option-cases, ◌⊎◌, inl, inr, codes,
}
use gemaal.Config.{default_text}
use gemaal.Config.Validate.{is_label}
use gemaal.Engine.Types.{Result, ok, err, Result-cases, ok-inj, err-ok}
use gemaal.Project.{
  ProjectConfig, ProjectError, unreadable, Reader, is_email, empty_config, validate_email_slugs,
  project_problem, document_or, then_check, parse_project, placed, load_from, load, emails_from,
  email_slugs, email_path, dir_of,
}

-- An address, and a label that can stand in a namespace's name.
pub record IsEntry (x : Text × Text) : Type 0 where
  pub email : is_email x.0 ≡ true
  pub label : is_label x.1 ≡ true

-- What the checks leave of a document: a map of entries, and one source at most.
pub record IsChecked {V : Type 0} (c : ProjectConfig V) : Type 0 where
  pub entries : All IsEntry c.identity.emails
  pub one_source : (is_empty c.identity.emails ≡ true) ⊎ (is_empty c.identity.file ≡ true)

validate_email_slugs-none : (m : List (Text × Text)) → validate_email_slugs m ≡ none → All IsEntry m
unfolding validate_email_slugs
validate_email_slugs-none [] h = tt
validate_email_slugs-none ((email, slug) ∷ m) h = elim (Bool-cases (is_email email)) [
  | inl p ↦ elim (Bool-cases (is_label slug)) [
    | inl q ↦ (record { email = p; label = q }, validate_email_slugs-none m (ground arith))
    | inr q ↦ absurd (ground arith)
  ]
  | inr p ↦ absurd (ground arith)
]

project_problem-none : {V : Type 0} (c : ProjectConfig V) → project_problem c ≡ none → IsChecked c
unfolding project_problem
project_problem-none c h = record {
  entries = validate_email_slugs-none c.identity.emails (ground arith);
  one_source = elim (Bool-cases (is_empty c.identity.emails)) [
    | inl p ↦ inl p
    | inr p ↦ elim (Bool-cases (is_empty c.identity.file)) [
      | inl q ↦ inr q
      | inr q ↦ absurd (ground arith)
    ]
  ];
}

module _ {A : Type 0} (P : A → Type 0) (problem : A → Option ProjectError)
    (sound : (a : A) → problem a ≡ none → P a) where
  then_check-ok : (x : Result ProjectError A) (a : A) → then_check problem x ≡ ok a → P a
  then_check-ok (ok b) a h = elim (Option-cases (problem b)) [
    | inl e ↦ subst P (ok-inj b a (rw e at h)) (sound b e)
    | inr (p, e) ↦ absurd (err-ok p a (rw e at h))
  ]
  then_check-ok (err e) a h = absurd (err-ok e a h)

module _ {V : Type 0} (r : Reader V) where
  parse_project-IsChecked :
      (raw : Text) (c : ProjectConfig V) → parse_project r raw ≡ ok c → IsChecked c
  unfolding parse_project
  parse_project-IsChecked raw c h =
      then_check-ok IsChecked project_problem project_problem-none
        (document_or empty_config (r.decode_config raw)) c h

  placed-IsChecked :
      (path raw : Text) (c : ProjectConfig V)
      → placed r path (parse_project r raw) ≡ ok c
      → IsChecked c
  placed-IsChecked path raw c h = elim (Result-cases (parse_project r raw)) [
    | inl (d, e) ↦
        let k = parse_project-IsChecked raw d e in
        subst IsChecked (ok-inj (record d { dir = dir_of path }) c (rw e at h))
          (record { entries = k.entries; one_source = k.one_source })
    | inr (p, e) ↦ absurd (err-ok p c (rw e at h))
  ]

  load_from-IsChecked :
      (path : Text) (x : Result Text Text) (c : ProjectConfig V)
      → load_from r path x ≡ ok c
      → IsChecked c
  load_from-IsChecked path (ok raw) c h = placed-IsChecked path raw c h
  load_from-IsChecked path (err e) c h = elim (Bool-cases (r.not_exist e)) [
    | inl q ↦
        subst IsChecked (ok-inj empty_config c (rw q at h))
          (record { entries = tt; one_source = inl refl })
    | inr q ↦ absurd (err-ok (unreadable e) c (rw q at h))
  ]

  emails_from-IsEntry :
      (x : Result Text Text) (m : List (Text × Text)) → emails_from r x ≡ ok m → All IsEntry m
  emails_from-IsEntry (ok raw) m h =
      then_check-ok (All IsEntry) validate_email_slugs validate_email_slugs-none
        (document_or [] (r.decode_emails raw)) m h
  emails_from-IsEntry (err e) m h = absurd (err-ok (unreadable e) m h)

  email_slugs-IsEntry :
      (c : ProjectConfig V) (m : List (Text × Text))
      → All IsEntry c.identity.emails
      → email_slugs r c ≡ ok m
      → All IsEntry m
  unfolding email_slugs
  email_slugs-IsEntry c m k h = elim (Bool-cases (is_empty c.identity.emails)) [
    | inr p ↦ subst (All IsEntry) (ok-inj c.identity.emails m (rw p at h)) k
    | inl p ↦ elim (Bool-cases (is_empty c.identity.file)) [
      | inl q ↦ subst (All IsEntry) (ok-inj [] m (rw (p, q) at h)) tt
      | inr q ↦ emails_from-IsEntry (r.read_file (email_path r c)) m (rw (p, q) at h)
    ]
  ]

-- Where a project's document loads, or is missing, and its identity map can be had, the document
-- names one source of identities at most, and the map, that of the document or of the file it points
-- at, has an address and an RFC 1123 label in each entry.
pub load-IsChecked :
    {V : Type 0} (r : Reader V) (path : Text) (c : ProjectConfig V) (m : List (Text × Text))
    → load r path ≡ ok c
    → email_slugs r c ≡ ok m
    → IsChecked c × All IsEntry m
unfolding load
load-IsChecked r path c m h e =
    let place = default_text path (codes "gemaal.yaml") in
    let k = load_from-IsChecked r place (r.read_file place) c h in
    (k, email_slugs-IsEntry r c m k.entries e)
