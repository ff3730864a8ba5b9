-- ===== src/Pipeline.antt =====
-- A project's pipeline configuration, pkg/pipeline/config.go: the document after YAML decoding, the
-- charts of a release in publish order, and the chart that a tarball belongs to.
pub mod Paths
pub mod Validate
pub mod Match
pub mod Select
pub mod Flow
pub mod Steps
pub mod Argv
pub mod Stable
pub mod Preview
pub mod Locked
use gemaal.Base.{
  ℕ, ◌*◌, List, [], ◌∷◌, ◌++◌, Bool, true, false, ◌||◌, not, Option, none, some, Text, codes, ℤ,
  pos, is_zero, text_eq, has_prefix, trim_prefix, cut_prefix, is_empty, length, leb, if◌then◌else◌,
}

pub record Destination : Type 0 where
  pub registry : Text
  pub profile : Text

pub record Registries : Type 0 where
  pub preview : Destination
  pub stable : Destination

pub record Chart : Type 0 where
  pub name : Text
  pub path : Text
  pub vendor_dependencies : Bool

pub record Charts : Type 0 where
  pub ring2 : Chart
  pub ring3 : Chart
  pub extra : List Chart
  pub repository_prefix : Text

-- every chart in publish order
unfoldable pub all : Charts → List Chart
all c = c.ring2 ∷ (c.extra ++ (c.ring3 ∷ []))

unfoldable pub label : Charts → Text → Text
unfolding text_eq
label c name =
    if text_eq name c.ring2.name
    then codes "ring2"
    else if text_eq name c.ring3.name
    then codes "ring3"
    else name

-- What `match` returns, and keeps while it goes through the charts.
pub record Matched : Type 0 where
  pub name : Text
  pub version : Text
  pub ok : Bool

-- a chart's name and the version behind it
abbrev pub taken : Text → Chart → Matched
taken base ch = record {
  name = ch.name;
  version = trim_prefix base (ch.name ++ codes "-");
  ok = true;
}

unfoldable pub match_next : Text → Matched → Chart → Matched
unfolding cut_prefix
match_next base m ch =
    if not (has_prefix base (ch.name ++ codes "-")) || leb (length ch.name) (length m.name)
    then m
    else taken base ch

abbrev pub match_among : Text → Matched → List Chart → Matched
match_among base m [] = m
match_among base m (ch ∷ chs) = match_among base (match_next base m ch) chs

abbrev pub unmatched : Matched
unmatched = record { name = []; version = []; ok = false }

unfoldable pub match_chart : Charts → Text → Matched
unfolding all match_next
match_chart c base = match_among base unmatched (all c)

pub record Commands : Type 0 where
  pub goreleaser : List Text
  pub helm : List Text
  pub helmctl : List Text
  pub aws : List Text
  pub docker : List Text
  pub ko : List Text
  pub pre_build : List (List Text)

pub record Lock : Type 0 where
  pub file : Text
  pub timeout : ℤ

pub record Hints : Type 0 where
  pub snapshot : Text
  pub stable : Text

pub record Config : Type 0 where
  pub project : Text
  pub project_dir : Text
  pub dist_dir : Text
  pub goreleaser_config : Text
  pub tag_prefix : Option Text
  pub release_branch : Text
  pub sbom_generator : Text
  pub aws_region : Text
  pub registries : Registries
  pub charts : Charts
  pub commands : Commands
  pub lock : Lock
  pub hints : Hints

unfoldable pub release_tag_prefix : Config → Text
release_tag_prefix c = elim c.tag_prefix [ none ↦ [] | some prefix ↦ prefix ]

unfoldable pub chart_repository : Config → Text → Text
chart_repository c name = c.charts.repository_prefix ++ codes "/" ++ name

abbrev or_else : Text → Text → Text
or_else t d = if is_empty t then d else t

abbrev or_words : List Text → List Text → List Text
or_words ws d = if is_empty ws then d else ws

abbrev or_prefix : Option Text → Text → Option Text
or_prefix none d = some d
or_prefix (some t) d = some t

abbrev or_duration : ℤ → ℤ → ℤ
or_duration t d = if is_zero t then d else t

-- five minutes in nanoseconds
abbrev pub default_lock_timeout : ℕ
default_lock_timeout = 300 * 1_000_000_000

unfoldable pub apply_defaults : Config → Config
apply_defaults c = record c {
  project_dir = or_else c.project_dir c.project;
  dist_dir = or_else c.dist_dir (codes "dist/" ++ c.project);
  goreleaser_config =
      or_else c.goreleaser_config (or_else c.project_dir c.project ++ codes "/.goreleaser.yaml");
  tag_prefix = or_prefix c.tag_prefix (c.project ++ codes "/");
  release_branch = or_else c.release_branch (codes "master");
  charts = record c.charts {
    repository_prefix = or_else c.charts.repository_prefix (c.project ++ codes "/charts");
  };
  commands = record c.commands {
    goreleaser = or_words c.commands.goreleaser (codes "goreleaser" ∷ []);
    helm = or_words c.commands.helm (codes "helm" ∷ []);
    helmctl = or_words c.commands.helmctl (codes "go" ∷ codes "tool" ∷ codes "helmctl" ∷ []);
    aws = or_words c.commands.aws (codes "aws" ∷ []);
    docker = or_words c.commands.docker (codes "docker" ∷ []);
    ko = or_words c.commands.ko (codes "ko" ∷ []);
  };
  lock = record c.lock {
    file = or_else c.lock.file (codes "dist/." ++ c.project ++ codes "-charts.lock");
    timeout = or_duration c.lock.timeout (pos default_lock_timeout);
  };
  hints = record c.hints {
    snapshot = or_else c.hints.snapshot (codes "gemaalctl pipeline snapshot");
    stable = or_else c.hints.stable (codes "gemaalctl pipeline release-stable");
  };
}
