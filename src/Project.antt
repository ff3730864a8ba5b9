-- ===== src/Project.antt =====
-- The document of a project's repository, pkg/gemaalcfg/gemaalcfg.go: reading it, its checks, and
-- its lookups. A map is a list of its entries; what YAML decoding gives is a parameter.
pub mod Emails
use gemaal.Base.{
  ◌&&◌, ◌||◌, not, List, [], ◌∷◌, Bool, Option, none, some, Text, codes, slash, is_empty,
  has_prefix, has_suffix, contains, cut, is_some, if◌then◌else◌, ◌==◌,
}
use gemaal.Config.{lookup, default_text}
use gemaal.Config.Validate.{is_label}
use gemaal.Engine.Types.{Result, ok, err}
use gemaal.Pipeline.Paths.{clean, join}

-- the values are opaque
pub record Cluster (V : Type 0) : Type 0 where
  pub values : Option V

pub record Hooks : Type 0 where
  pub build : List Text

pub record Project : Type 0 where
  pub hooks : Hooks

pub record EmailSource : Type 0 where
  pub emails : List (Text × Text)
  pub file : Text

pub record ProjectConfig (V : Type 0) : Type 0 where
  pub personal_namespace : Text
  pub clusters : List (Text × Cluster V)
  pub hooks : Hooks
  pub projects : List (Text × Project)
  pub identity : EmailSource
  pub server : Text
  pub dir : Text

pub data ProjectError : Type 0 where
  no_slug two_sources : ProjectError
  bad_server no_email no_label unreadable malformed : Text → ProjectError

-- What a strict decoder makes of a text; an empty one has no document.
pub data Decoded (A : Type 0) : Type 0 where
  decoded : A → Decoded A
  no_document : Decoded A
  undecodable : Text → Decoded A

-- The files, and the decoders of the two documents.
pub record Reader (V : Type 0) : Type 0 where
  pub read_file : Text → Result Text Text
  pub not_exist : Text → Bool
  pub decode_config : Text → Decoded (ProjectConfig V)
  pub decode_emails : Text → Decoded (List (Text × Text))

-- the zero value
abbrev pub empty_config : {V : Type 0} → ProjectConfig V
empty_config = record {
  personal_namespace = [];
  clusters = [];
  hooks = record { build = [] };
  projects = [];
  identity = record { emails = []; file = [] };
  server = [];
  dir = [];
}

abbrev pub is_email : Text → Bool
is_email t = is_some (cut t b'@') && not (has_prefix t (codes "@") || has_suffix t (codes "@"))

unfoldable pub validate_email_slugs : List (Text × Text) → Option ProjectError
unfolding cut has_suffix is_label
validate_email_slugs [] = none
validate_email_slugs ((email, slug) ∷ m) =
    let rest = validate_email_slugs m in
    if not (is_email email)
    then some (no_email email)
    else if not (is_label slug)
    then some (no_label slug)
    else rest

abbrev has_scheme : Text → Bool
has_scheme t = has_prefix t (codes "http://") || has_prefix t (codes "https://")

unfoldable pub project_problem : {V : Type 0} → ProjectConfig V → Option ProjectError
unfolding contains validate_email_slugs
project_problem c =
    if not (is_empty c.personal_namespace) && not (contains c.personal_namespace (codes "{slug}"))
    then some no_slug
    else if not (is_empty c.identity.emails) && not (is_empty c.identity.file)
    then some two_sources
    else if not (is_empty c.server) && not (has_scheme c.server)
    then some (bad_server c.server)
    else validate_email_slugs c.identity.emails

abbrev pub accepted : {A : Type 0} → A → Option ProjectError → Result ProjectError A
accepted a none = ok a
accepted a (some e) = err e

-- the value decoded, or the zero value where there is no document
abbrev pub document_or : {A : Type 0} → A → Decoded A → Result ProjectError A
document_or zero_value (decoded a) = ok a
document_or zero_value no_document = ok zero_value
document_or zero_value (undecodable e) = err (malformed e)

abbrev pub then_check :
    {A : Type 0} → (A → Option ProjectError) → Result ProjectError A → Result ProjectError A
then_check problem (ok a) = accepted a (problem a)
then_check problem (err e) = err e

-- filepath.Dir: the path up to its last slash, cleaned
abbrev up_to_slash : Text → Text
up_to_slash [] = []
up_to_slash (c ∷ s) =
    let rest = up_to_slash s in
    if not (is_empty rest) then c ∷ rest else if c == slash then c ∷ [] else []

abbrev pub dir_of : Text → Text
dir_of path = clean (up_to_slash path)

module _ {V : Type 0} (r : Reader V) where
  unfoldable pub parse_project : Text → Result ProjectError (ProjectConfig V)
  unfolding project_problem
  parse_project raw = then_check project_problem (document_or empty_config (r.decode_config raw))

  abbrev pub placed :
      Text → Result ProjectError (ProjectConfig V) → Result ProjectError (ProjectConfig V)
  placed path (ok c) = ok (record c { dir = dir_of path })
  placed path (err e) = err e

  abbrev pub load_from : Text → Result Text Text → Result ProjectError (ProjectConfig V)
  load_from path (ok raw) = placed path (parse_project raw)
  load_from path (err e) = if r.not_exist e then ok empty_config else err (unreadable e)

  -- the document at a path, or at the default one
  unfoldable pub load : Text → Result ProjectError (ProjectConfig V)
  unfolding parse_project clean
  load path =
      let path = default_text path (codes "gemaal.yaml") in load_from path (r.read_file path)

  abbrev pub emails_from : Result Text Text → Result ProjectError (List (Text × Text))
  emails_from (ok raw) = then_check validate_email_slugs (document_or [] (r.decode_emails raw))
  emails_from (err e) = err (unreadable e)

  abbrev pub email_path : ProjectConfig V → Text
  email_path c =
      if has_prefix c.identity.file (codes "/") then c.identity.file else join c.dir c.identity.file

  -- the map of the document, or that of the file it points at
  unfoldable pub email_slugs : ProjectConfig V → Result ProjectError (List (Text × Text))
  unfolding validate_email_slugs join
  email_slugs c =
      if not (is_empty c.identity.emails)
      then ok c.identity.emails
      else if is_empty c.identity.file
      then ok []
      else emails_from (r.read_file (email_path c))

abbrev own_hook : List Text → Option Project → List Text
own_hook global none = global
own_hook global (some p) = if is_empty p.hooks.build then global else p.hooks.build

module _ {V : Type 0} where
  -- a project's own hook, or that of the repository
  unfoldable pub build_hook : ProjectConfig V → Text → List Text
  unfolding lookup
  build_hook c project = own_hook c.hooks.build (lookup project c.projects)

  abbrev values_of : Option (Cluster V) → Option V
  values_of none = none
  values_of (some cluster) = cluster.values

  unfoldable pub cluster_values : ProjectConfig V → Text → Option V
  unfolding lookup
  cluster_values c kubecontext = values_of (lookup kubecontext c.clusters)
