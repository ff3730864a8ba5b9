-- ===== src/Tests/Releasing.antt =====
-- The theorems on the pipeline at a release of two rings and one extra chart.
use gemaal.Base.{
  Text, ℕ, List, [], ◌∷◌, ◌++◌, Bool, true, false, Option, none, some, codes, pos, ◌≡◌, refl, ◌≢◌,
  ◌⊎◌, inl, inr, cut, text_eq, has_prefix, cut_prefix, if◌then◌else◌, ◌≤◌, arith, All, map,
}
use gemaal.Config.{lookup}
use gemaal.Engine.Types.{Result, ok, err}
use gemaal.Pipeline.{Chart, Charts, Config, Matched, all, match_chart, apply_defaults}
use gemaal.Pipeline.Validate.{MapOrder, parse}
use gemaal.Pipeline.Validate.Sound.{IsSound, parse-IsSound}
use gemaal.Pipeline.Match.{
  tarball, IsOwner, IsTarballOf, IsShorter, match_chart_lem, match_chart-tarball,
}
use gemaal.Pipeline.Select.{
  DirEntry, Archive, members, Files, ChartIdentity, Selection, select_ring_charts,
}
use gemaal.Pipeline.Select.Coherent.{IsCoherent, select_ring_charts-IsCoherent}
use gemaal.Pipeline.Flow.{
  Event, Occurrence, Outside, show_toplevel, git_status, git_head, git_remote_tip, git_describe,
  git_ls_remote, git_tag_object, read_manifest, read_stamp, stage_charts, push_chart,
}
use gemaal.Pipeline.Stable.{at_start, release_stable, has_failed}
use gemaal.Pipeline.Stable.Report.{Report, ring3_unknown, push_by_hand, report_partial_publish}
use gemaal.Pipeline.Stable.Gated.{IsGated, release_stable-IsGated}
use gemaal.Pipeline.Preview as Preview
use gemaal.Pipeline.Preview.{push_preview, snapshot}
use gemaal.Pipeline.Preview.Uploads.{IsSafe}
use gemaal.Pipeline.Preview.Uploads.Guarded.{push_preview-IsSafe}
use gemaal.Pipeline.Locked.{Holds}
use gemaal.Pipeline.Locked.Previews.{flows_hold_lock}
use gemaal.Pipeline.Stable.Pushed.{IsTruthful, IsInOrder, attempts}
use gemaal.Pipeline.Stable.Released.{release_stable-IsTruthful}
use gemaal.Pipeline.Stable.Report.Listed.{IsListed, report-IsListed}

abbrev infra : Chart
infra = record { name = codes "app-infra"; path = codes "charts/infra"; vendor_dependencies = true }

abbrev app : Chart
app = record { name = codes "app"; path = codes "charts/app"; vendor_dependencies = false }

abbrev cli : Chart
cli = record { name = codes "app-cli"; path = codes "charts/cli"; vendor_dependencies = false }

abbrev charts : Charts
charts = record { ring2 = infra; ring3 = app; extra = cli ∷ []; repository_prefix = [] }

abbrev document : Config
document = record {
  project = codes "app";
  project_dir = [];
  dist_dir = [];
  goreleaser_config = [];
  tag_prefix = none;
  release_branch = [];
  sbom_generator = [];
  aws_region = codes "eu-west-1";
  registries = record {
    preview = record { registry = codes "preview"; profile = codes "p" };
    stable = record { registry = codes "stable"; profile = codes "s" };
  };
  charts = charts;
  commands = record {
    goreleaser = [];
    helm = [];
    helmctl = [];
    aws = [];
    docker = [];
    ko = [];
    pre_build = [];
  };
  lock = record { file = []; timeout = pos 0 };
  hints = record { snapshot = []; stable = [] };
}

abbrev in_order : MapOrder
in_order = record { stable_first = false; ring3_first = false }

parse-IsSound_example : IsSound (apply_defaults document)
unfolding parse gemaal.Pipeline.Validate.validate apply_defaults
    gemaal.Pipeline.Validate.destination_problem gemaal.Pipeline.Validate.ring_problem text_eq
    lookup gemaal.Pipeline.Validate.lock_problem gemaal.Pipeline.Paths.clean gemaal.Base.cut_prefix
parse-IsSound_example = parse-IsSound in_order document (apply_defaults document) parsed
  where
    parsed : parse in_order document ≡ ok (apply_defaults document)
    parsed = refl

named : All (λ ch. ch.name ≢ []) (all charts)
unfolding all
named = (λ e. absurd (cc e), (λ e. absurd (cc e), (λ e. absurd (cc e), tt)))

match_chart_lem_example :
    (IsTarballOf (all charts) (codes "app-infra-1.0") (match_chart charts (codes "app-infra-1.0"))
      × All
          (IsShorter (codes "app-infra-1.0") (match_chart charts (codes "app-infra-1.0")))
          (all charts))
    ⊎ (((match_chart charts (codes "app-infra-1.0")).ok ≡ false)
        × All
            (λ ch. has_prefix (codes "app-infra-1.0") (ch.name ++ codes "-") ≡ false)
            (all charts))
match_chart_lem_example = match_chart_lem charts (codes "app-infra-1.0") named

match_chart-tarball_example :
    match_chart charts (tarball (codes "app-cli") (codes "1.0"))
    ≡ record { name = codes "app-cli"; version = codes "1.0"; ok = true }
unfolding all cut_prefix
match_chart-tarball_example =
    match_chart-tarball charts (codes "app-cli") (codes "1.0") (λ e. absurd (cc e)) owner
  where
    owner : IsOwner charts (codes "app-cli") (codes "1.0")
    owner = (inr (inl refl), (inl refl, (inr (ground arith), (inr (ground arith), tt))))

-- the staged charts: a tarball is its one member, whose text is the chart's name and version
abbrev entry : Text → DirEntry
entry name = record { name = name; is_regular = true }

abbrev archive : Text → Text → Archive
archive name version = members (
    record {
      name = name ++ codes "/Chart.yaml";
      is_regular = true;
      content = ok (name ++ codes " " ++ version);
    }
    ∷ [])

abbrev decode : Text → Result Text ChartIdentity
decode raw = elim (cut raw b' ') [
  | none ↦ err (codes "no name")
  | some (name, version) ↦ ok (record { name = name; version = version })
]

abbrev files : Files
files = record {
  read_dir = λ dir. ok (
      entry (codes "app-1.0.tgz")
      ∷ entry (codes "app-cli-1.0.tgz")
      ∷ entry (codes ".release-type")
      ∷ entry (codes "app-infra-1.0.tgz")
      ∷ []);
  archive = λ tgz.
      if text_eq tgz (codes "/s/app-1.0.tgz")
      then archive (codes "app") (codes "1.0")
      else if text_eq tgz (codes "/s/app-cli-1.0.tgz")
      then archive (codes "app-cli") (codes "1.0")
      else archive (codes "app-infra") (codes "1.0");
  decode = decode;
}

abbrev chosen : Selection
chosen = record {
  infra_tgz = codes "/s/app-infra-1.0.tgz";
  app_tgz = codes "/s/app-1.0.tgz";
  extra = record { name = codes "app-cli"; tgz = codes "/s/app-cli-1.0.tgz" } ∷ [];
  version = codes "1.0";
}

selected : select_ring_charts charts files (codes "/s") ≡ ok chosen
unfolding select_ring_charts text_eq gemaal.Base.has_suffix match_chart gemaal.Base.trim_suffix
    gemaal.Pipeline.Paths.join cut
selected = refl

select_ring_charts-IsCoherent_example :
    (es : List DirEntry) × (files.read_dir (codes "/s") ≡ ok es)
    × IsCoherent charts files (codes "/s") es chosen
select_ring_charts-IsCoherent_example =
    select_ring_charts-IsCoherent charts files (codes "/s") chosen selected

-- a release from a tagged tip, whose last push fails
abbrev answers : Event → Result Text Text
answers show_toplevel = ok (codes "/repo")
answers git_head = ok (codes "c0ffee")
answers git_remote_tip = ok (codes "c0ffee")
answers git_describe = ok (codes "app/v1.0")
answers (git_ls_remote tag) = ok (codes "deed refs/tags/app/v1.0")
answers (git_tag_object tag) = ok (codes "deed")
answers read_manifest = ok (codes "version: 1.0")
answers stage_charts = ok (codes "/s")
answers (push_chart name tgz version overwrite) =
    if text_eq name (codes "app") then err (codes "timeout") else ok []
answers e = ok []

abbrev outside : Outside
outside = record {
  answer = λ trace e. answers e;
  glob = λ trace. ok [];
  not_exist = λ e. false;
  stage = λ trace. files;
}

abbrev config : Config
config = record document { charts = charts; release_branch = codes "master" }

release_stable-IsTruthful_example :
    let w = (release_stable outside config at_start).0 in
    IsTruthful config w.state (attempts w.trace) × IsInOrder config w.state (attempts w.trace)
release_stable-IsTruthful_example = release_stable-IsTruthful outside config

-- the report of that release, whose ring3 chart may be published or not
abbrev partial : Report
partial = record {
  images_published = true;
  version_or_tag = codes "1.0";
  published = codes "app-infra" ∷ codes "app-cli" ∷ [];
  possibly = codes "app" ∷ [];
  not_published = [];
  conclusion = ring3_unknown;
  recovery = push_by_hand ((codes "app", codes "/s/app-1.0.tgz") ∷ []);
}

report-IsListed_example :
    IsListed config
      (release_stable outside config at_start).0.state
      (attempts (release_stable outside config at_start).0.trace)
      partial
unfolding release_stable gemaal.Base.is_blank gemaal.Base.trim_space gemaal.Base.fields
    gemaal.Pipeline.Flow.acquire_chart_lock gemaal.Base.split gemaal.Base.has_suffix match_chart
    gemaal.Base.trim_suffix gemaal.Pipeline.Paths.join cut report_partial_publish
report-IsListed_example = report-IsListed outside config partial ended images
  where
    ended :
        report_partial_publish config
          (release_stable outside config at_start).0.state
          (has_failed outside (release_stable outside config at_start).1)
        ≡ some partial
    ended = refl

    images : (release_stable outside config at_start).0.state.published_images ≡ true
    images = refl

pushes_called :
    attempts (release_stable outside config at_start).0.trace
    ≡ (codes "app-infra", true) ∷ (codes "app-cli", true) ∷ (codes "app", false) ∷ []
unfolding attempts release_stable gemaal.Base.is_blank gemaal.Base.trim_space gemaal.Base.fields
    gemaal.Pipeline.Flow.acquire_chart_lock gemaal.Base.split gemaal.Base.has_suffix match_chart
    gemaal.Base.trim_suffix gemaal.Pipeline.Paths.join cut
pushes_called = refl

release_stable-IsGated_example : IsGated (release_stable outside config at_start).0.trace
release_stable-IsGated_example = release_stable-IsGated outside config

flows_hold_lock_example :
    Holds false (release_stable outside config at_start).0
    × Holds false (push_preview outside config Preview.at_start).0
    × Holds false (snapshot outside config Preview.at_start).0
flows_hold_lock_example = flows_hold_lock outside config

-- a build of the preview registry, with blanks around its stamp
abbrev preview_answers : Event → Result Text Text
preview_answers (read_stamp path) = ok (codes " preview ")
preview_answers e = answers e

abbrev previewing : Outside
previewing = record outside { answer = λ trace e. preview_answers e }

push_preview-IsSafe_example :
    IsSafe previewing config (push_preview previewing config Preview.at_start).0.trace
push_preview-IsSafe_example = push_preview-IsSafe previewing config

previews_called :
    attempts (push_preview previewing config Preview.at_start).0.trace
    ≡ (codes "app-infra", true) ∷ (codes "app-cli", true) ∷ (codes "app", false) ∷ []
unfolding attempts push_preview gemaal.Base.is_blank gemaal.Base.trim_space gemaal.Base.fields
    gemaal.Pipeline.Flow.acquire_chart_lock gemaal.Base.split gemaal.Base.has_suffix match_chart
    gemaal.Base.trim_suffix gemaal.Pipeline.Paths.join cut
previews_called = refl

-- the stamp of the outside above is empty
refused_unstamped : attempts (push_preview outside config Preview.at_start).0.trace ≡ []
unfolding attempts push_preview gemaal.Base.is_blank gemaal.Base.trim_space gemaal.Base.fields
    gemaal.Pipeline.Flow.acquire_chart_lock gemaal.Base.split gemaal.Base.has_suffix match_chart
    gemaal.Base.trim_suffix gemaal.Pipeline.Paths.join cut
refused_unstamped = refl

-- a lock file in the directory that goreleaser cleans, which is the project's own
lock_in_dot :
    gemaal.Pipeline.Validate.lock_problem
      (gemaal.Pipeline.Paths.clean (codes "dist/.x-charts.lock"))
      (gemaal.Pipeline.Paths.clean (codes "."))
    ≡ none
unfolding gemaal.Pipeline.Validate.lock_problem gemaal.Pipeline.Paths.clean gemaal.Base.split
    text_eq cut_prefix
lock_in_dot = refl
