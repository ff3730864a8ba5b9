-- ===== src/Pipeline/Select.antt =====
-- The chart selection of pkg/pipeline/select.go. The file system's answers are parameters: the
-- entries of a directory, the members of an archive, and the YAML decoder.
pub mod Scanned
pub mod Checked
pub mod Coherent
use gemaal.Base.{
  ℕ, ◌^◌, List, [], ◌∷◌, ◌||◌, not, Bool, false, Option, none, some, Text, codes, slash, text_eq,
  cut, has_suffix, trim_suffix, is_some, is_empty, take, filter_by, any, map, if◌then◌else◌,
}
use gemaal.Config.{lookup}
use gemaal.Engine.Types.{Result, ok, err, ◌>>=◌}
use gemaal.Pipeline.{Charts, Chart, Matched, all, label, match_chart}
use gemaal.Pipeline.Paths.{join}

pub record DirEntry : Type 0 where
  pub name : Text
  pub is_regular : Bool

pub record ChartIdentity : Type 0 where
  pub name : Text
  pub version : Text

pub record Member : Type 0 where
  pub name : Text
  pub is_regular : Bool
  pub content : Result Text Text

-- What opening a file as a gzipped tarball gives: the members up to its end or to where it is torn.
pub data Archive : Type 0 where
  unopened : Text → Archive
  not_gzip : Archive
  members : List Member → Archive

pub record Files : Type 0 where
  pub read_dir : Text → Result Text (List DirEntry)
  pub archive : Text → Archive
  pub decode : Text → Result Text ChartIdentity

pub record ChartTarball : Type 0 where
  pub name : Text
  pub tgz : Text

pub record Selection : Type 0 where
  pub infra_tgz : Text
  pub app_tgz : Text
  pub extra : List ChartTarball
  pub version : Text

pub record ChartMatch : Type 0 where
  pub tgz : Text
  pub version : Text

pub data SelectError : Type 0 where
  unreadable_dir unexpected : Text → SelectError
  more_than_one : Text → Text → Text → SelectError
  incomplete : List Text → SelectError
  unversioned : SelectError
  incoherent_pair : Text → Text → SelectError
  incoherent_extra : Text → Text → SelectError
  not_a_chart : Text → SelectError
  unreadable_chart : Text → Text → SelectError
  wrong_identity : Text → ChartIdentity → SelectError

-- What `readChartYaml` returns: found or not, with an error or without.
pub data ChartYaml : Type 0 where
  not_found : ChartYaml
  unreadable : Text → ChartYaml
  found : ChartIdentity → ChartYaml

-- `^[^/]*/Chart\.yaml$`
unfoldable pub is_chart_yaml : Text → Bool
is_chart_yaml name = elim (cut name slash) [
  | none ↦ false
  | some (dir, file) ↦ text_eq file (codes "Chart.yaml")
]

abbrev pub max_chart_yaml_size : ℕ
max_chart_yaml_size = 2 ^ 20

abbrev decoded : Result Text ChartIdentity → ChartYaml
decoded (ok id) = found id
decoded (err e) = unreadable e

abbrev read_member : Files → Result Text Text → ChartYaml
read_member f (ok raw) = decoded (f.decode (take max_chart_yaml_size raw))
read_member f (err e) = unreadable e

abbrev read_members : Files → List Member → ChartYaml
read_members f [] = not_found
read_members f (m ∷ ms) =
    let rest = read_members f ms in
    if not m.is_regular || not (is_chart_yaml m.name) then rest else read_member f m.content

abbrev read_archive : Files → Archive → ChartYaml
read_archive f (unopened e) = not_found
read_archive f not_gzip = not_found
read_archive f (members ms) = read_members f ms

unfoldable pub read_chart_yaml : Files → Text → ChartYaml
unfolding is_chart_yaml
read_chart_yaml f tgz = read_archive f (f.archive tgz)

abbrev pub identity_problem : Text → Text → Text → ChartYaml → Option SelectError
unfolding text_eq
identity_problem tgz name version not_found = some (not_a_chart tgz)
identity_problem tgz name version (unreadable e) = some (unreadable_chart tgz e)
identity_problem tgz name version (found id) =
    if not (text_eq id.name name) || not (text_eq id.version version)
    then some (wrong_identity tgz id)
    else none

unfoldable pub verify_chart_identity : Files → Text → Text → Text → Option SelectError
unfolding identity_problem read_chart_yaml
verify_chart_identity f tgz name version = identity_problem tgz name version (read_chart_yaml f tgz)

-- the map from chart names to matches, and its zero value
abbrev pub Table : Type 0
Table = List (Text × ChartMatch)

abbrev pub or_zero : Option ChartMatch → ChartMatch
or_zero none = record { tgz = []; version = [] }
or_zero (some m) = m

abbrev pub matched : Table → Text → ChartMatch
matched m name = or_zero (lookup name m)

abbrev pub tgz_ending : Text
tgz_ending = codes ".tgz"

abbrev pub insert_match :
    Charts → Text → Text → Table → Matched → Option ChartMatch → Result SelectError Table
insert_match c dir name m t (some previous) =
    err (more_than_one (label c t.name) previous.tgz (trim_suffix name tgz_ending))
insert_match c dir name m t none =
    ok ((t.name, record { tgz = join dir name; version = t.version }) ∷ m)

abbrev pub place_match : Charts → Text → Text → Table → Matched → Result SelectError Table
place_match c dir name m t =
    if not t.ok
    then err (unexpected (trim_suffix name tgz_ending))
    else insert_match c dir name m t (lookup t.name m)

unfoldable pub scan_entry : Charts → Text → DirEntry → Table → Result SelectError Table
scan_entry c dir e m =
    if not (has_suffix e.name tgz_ending)
    then ok m
    else if not e.is_regular
    then ok m
    else place_match c dir e.name m (match_chart c (trim_suffix e.name tgz_ending))

abbrev pub scan : Charts → Text → List DirEntry → Table → Result SelectError Table
scan c dir [] m = ok m
scan c dir (e ∷ es) m = scan_entry c dir e m >>= λ next. scan c dir es next

abbrev pub is_missing : Table → Chart → Bool
is_missing m ch = not (is_some (lookup ch.name m))

unfoldable pub missing : Charts → Table → List Text
unfolding lookup
missing c m = map (λ ch. ch.name) (filter_by (is_missing m) (all c))

-- the first of the extras that is on another version
abbrev pub extra_version_problem : Table → Text → List Chart → Option SelectError
extra_version_problem m version [] = none
extra_version_problem m version (ch ∷ chs) =
    let rest = extra_version_problem m version chs in
    if text_eq (matched m ch.name).version version
    then rest
    else some (incoherent_extra ch.name (matched m ch.name).version)

abbrev pub is_unversioned : Table → Chart → Bool
is_unversioned m ch = is_empty (matched m ch.name).version

unfoldable pub check_versions : Charts → Table → Option SelectError
unfolding lookup text_eq
check_versions c m =
    if any (is_unversioned m) (all c)
    then some unversioned
    else if not (text_eq (matched m c.ring2.name).version (matched m c.ring3.name).version)
    then some (incoherent_pair (matched m c.ring2.name).version (matched m c.ring3.name).version)
    else extra_version_problem m (matched m c.ring2.name).version c.extra

-- the first problem of two
abbrev pub first_of : Option SelectError → Option SelectError → Option SelectError
first_of none p = p
first_of (some e) p = some e

abbrev pub identities_problem : Files → Table → List Chart → Option SelectError
identities_problem f m [] = none
identities_problem f m (ch ∷ chs) =
    first_of (verify_chart_identity f (matched m ch.name).tgz ch.name (matched m ch.name).version)
      (identities_problem f m chs)

abbrev pub chart_tarball : Table → Chart → ChartTarball
chart_tarball m ch = record { name = ch.name; tgz = (matched m ch.name).tgz }

unfoldable pub selection : Charts → Table → Selection
unfolding lookup
selection c m = record {
  infra_tgz = (matched m c.ring2.name).tgz;
  app_tgz = (matched m c.ring3.name).tgz;
  extra = map (chart_tarball m) c.extra;
  version = (matched m c.ring2.name).version;
}

abbrev pub or_fail : {A : Type 0} → Option SelectError → A → Result SelectError A
or_fail none a = ok a
or_fail (some e) a = err e

abbrev pub require_complete : List Text → Result SelectError Unit
require_complete [] = ok tt
require_complete (t ∷ ts) = err (incomplete (t ∷ ts))

abbrev pub read_entries : Result Text (List DirEntry) → Result SelectError (List DirEntry)
read_entries (ok es) = ok es
read_entries (err e) = err (unreadable_dir e)

-- the checks behind the scan
abbrev pub select_from : Charts → Files → Table → Result SelectError Selection
select_from c f m = require_complete (missing c m) >>= λ _. or_fail (check_versions c m) tt >>= λ _.
    or_fail (identities_problem f m (all c)) (selection c m)

unfoldable pub select_ring_charts : Charts → Files → Text → Result SelectError Selection
unfolding all scan_entry missing check_versions verify_chart_identity selection
select_ring_charts c f dir =
    read_entries (f.read_dir dir) >>= λ es. scan c dir es [] >>= λ m. select_from c f m
