-- ===== src/Pipeline/Stable.antt =====
-- The stable release, pkg/pipeline/stable.go: the gates, the build, the pushes in their order, and
-- what the state records of them.
pub mod Report
pub mod Gates
pub mod Gated
pub mod Kept
pub mod Named
pub mod Pushed
pub mod Truthful
pub mod Released
use gemaal.Base.{
  List, [], ◌∷◌, ◌++◌, map, Bool, true, false, not, ◌&&◌, ◌||◌, Option, none, some, Text, codes,
  text_eq, trim_space, fields, is_empty, is_blank,
}
use gemaal.Engine.Types.{Result, ok, err}
use gemaal.Pipeline.{Config}
use gemaal.Pipeline.Paths.{stamp_path}
use gemaal.Pipeline.Select.{Selection, ChartTarball}
use gemaal.Pipeline.Flow.{
  ◌>>◌, Event, Outside, Run, Step, FlowError, not_clean, not_tip, no_tag, unpushed_tag, moved_tag,
  wrong_version, ◌>>=◌, give, fail, skip, require, perform, attempt, update, holding_lock,
  release_chart_lock, git_status, git_fetch, git_head, git_remote_tip, git_describe, git_ls_remote,
  git_tag_object, pre_build, goreleaser, publish_images, publish_ko_images, goreleaser_manifest,
  write_stamp, stage_charts, push_chart, remove_stage,
}
use gemaal.Pipeline.Steps.{
  resolve_root, clean_charts_output, manifest_version, call, package_charts, ecr_login,
  select_staged, first_word,
}

pub record ExtraPush : Type 0 where
  pub name : Text
  pub tgz : Text
  pub started : Bool
  pub confirmed : Bool

pub record StableState : Type 0 where
  pub tag : Text
  pub version : Text
  pub chart_version : Text
  pub goreleaser_started : Bool
  pub published_images : Bool
  pub charts_selected : Bool
  pub started_ring2 : Bool
  pub confirmed_ring2 : Bool
  pub extras : List ExtraPush
  pub started_ring3 : Bool
  pub confirmed_ring3 : Bool
  pub release_complete : Bool
  pub stage_dir : Text
  pub infra_tgz : Text
  pub app_tgz : Text

-- the zero value
abbrev pub nothing_done : StableState
nothing_done = record {
  tag = [];
  version = [];
  chart_version = [];
  goreleaser_started = false;
  published_images = false;
  charts_selected = false;
  started_ring2 = false;
  confirmed_ring2 = false;
  extras = [];
  started_ring3 = false;
  confirmed_ring3 = false;
  release_complete = false;
  stage_dir = [];
  infra_tgz = [];
  app_tgz = [];
}

-- a run before its first call
abbrev pub at_start : Run StableState
at_start = record { trace = []; locked = false; state = nothing_done }

abbrev pub Release : Type 0 → Type 0
Release A = Step StableState A

abbrev pub or_none : Option Text → Text
or_none none = []
or_none (some t) = t

abbrev pub new_push : ChartTarball → ExtraPush
new_push t = record { name = t.name; tgz = t.tgz; started = false; confirmed = false }

module _ (o : Outside) where
  -- `git describe`, whose every error means that there is no tag
  abbrev pub tag_or_fail : Result Text Text → Release Text
  tag_or_fail (ok t) = give (trim_space t)
  tag_or_fail (err e) = fail no_tag

  -- the gates a to d; gate e only warns
  unfoldable pub stable_gates : Release Text
  unfolding perform attempt
  stable_gates = do
    status ← perform o git_status
    require (is_blank status) not_clean
    call o git_fetch
    head ← perform o git_head
    tip ← perform o git_remote_tip
    require (text_eq (trim_space head) (trim_space tip)) not_tip
    described ← attempt o git_describe
    tag ← tag_or_fail described
    listed ← perform o (git_ls_remote tag)
    require (not (is_empty (or_none (first_word (fields listed))))) unpushed_tag
    object ← perform o (git_tag_object tag)
    require (text_eq (or_none (first_word (fields listed))) (trim_space object)) moved_tag
    give tag

  abbrev pub run_pre_builds : List (List Text) → Release Unit
  run_pre_builds [] = skip
  run_pre_builds (ws ∷ rest) = do call o (pre_build ws); run_pre_builds rest

  -- a push between its two marks
  abbrev pub tracked_push :
      (StableState → StableState) → Event → (StableState → StableState) → Release Unit
  tracked_push started e confirmed = do update started; call o e; update confirmed

  unfoldable pub push_ring2 : Config → Selection → Release Unit
  unfolding update perform
  push_ring2 c sel =
      tracked_push (λ s. record s { started_ring2 = true })
        (push_chart c.charts.ring2.name sel.infra_tgz sel.version false)
        (λ s. record s { confirmed_ring2 = true })

  unfoldable pub push_ring3 : Config → Selection → Release Unit
  unfolding update perform
  push_ring3 c sel =
      tracked_push (λ s. record s { started_ring3 = true })
        (push_chart c.charts.ring3.name sel.app_tgz sel.version false)
        (λ s. record s { confirmed_ring3 = true })

  -- one of the extras, between those that are done and those that are not
  unfoldable pub push_extra : Selection → List ExtraPush → ExtraPush → List ExtraPush → Release Unit
  unfolding update perform
  push_extra sel pushed x xs =
      tracked_push (λ s. record s { extras = pushed ++ (record x { started = true } ∷ xs) })
        (push_chart x.name x.tgz sel.version false)
        (λ s. record s { extras = pushed ++ (record x { started = true; confirmed = true } ∷ xs) })

  -- the extras from some place on, behind those that are done
  abbrev pub push_extras_from : Selection → List ExtraPush → List ExtraPush → Release Unit
  push_extras_from sel pushed [] = skip
  push_extras_from sel pushed (x ∷ xs) = do
    push_extra sel pushed x xs
    push_extras_from sel (pushed ++ (record x { started = true; confirmed = true } ∷ [])) xs

  abbrev pub push_extras : Selection → Release Unit
  push_extras sel w = push_extras_from sel [] w.state.extras w

  unfoldable pub push_all : Config → Selection → Release Unit
  unfolding push_ring2 push_ring3 push_extra
  push_all c sel = do push_ring2 c sel; push_extras sel; push_ring3 c sel

  -- images, manifest, charts and stamp; gives the version
  unfoldable pub build : Config → Release Text
  unfolding update perform clean_charts_output manifest_version package_charts
  build c = do
    clean_charts_output o (stamp_path c)
    run_pre_builds c.commands.pre_build
    update (λ s. record s { goreleaser_started = true })
    call o (goreleaser false)
    call o (publish_images false)
    call o (publish_ko_images false)
    update (λ s. record s { published_images = true })
    call o goreleaser_manifest
    version ← manifest_version o
    update (λ s. record s { version = version })
    package_charts o c version
    call o (write_stamp (codes "stable"))
    give version

  -- the snapshot of the charts, and the selection from it
  unfoldable pub select_charts : Config → Text → Release Selection
  unfolding perform update select_staged
  select_charts c version = do
    dir ← perform o stage_charts
    update (λ s. record s { stage_dir = dir })
    sel ← select_staged o c dir
    update (λ s. record s {
      chart_version = sel.version;
      infra_tgz = sel.infra_tgz;
      app_tgz = sel.app_tgz;
      extras = map new_push sel.extra;
    })
    require (text_eq sel.version version) wrong_version
    update (λ s. record s { charts_selected = true })
    give sel

  -- what runs under the deferred release of the lock
  abbrev pub build_and_push : Config → Release Unit
  build_and_push c = do
    version ← build c
    sel ← select_charts c version
    release_chart_lock o
    ecr_login o
    push_all c sel
    update (λ s. record s { release_complete = true })

  -- The condition on which the report removes the staged charts.
  abbrev pub is_stage_done : StableState → Bool → Bool
  is_stage_done s failed =
      not (is_empty s.stage_dir)
      && (not failed
          || s.release_complete
          || not s.published_images
          || not s.charts_selected
          || s.confirmed_ring3)

  unfoldable pub remove_stage_if : Bool → Run StableState → Run StableState
  unfolding attempt
  remove_stage_if true w = (attempt o remove_stage w).0
  remove_stage_if false w = w

  abbrev pub has_failed : {A : Type 0} → Result FlowError A → Bool
  has_failed (ok a) = false
  has_failed (err e) = true

  -- the deferred report: it clears the stage away, and changes no result
  unfoldable pub reported :
      Run StableState × Result FlowError Unit → Run StableState × Result FlowError Unit
  unfolding remove_stage_if
  reported (w, r) = (remove_stage_if (is_stage_done w.state (has_failed r)) w, r)

  unfoldable pub release_tagged : Config → Text → Release Unit
  unfolding update reported build select_charts release_chart_lock ecr_login push_all
  release_tagged c tag = do
    update (λ s. record s { tag = tag })
    λ w. reported (holding_lock o (build_and_push c) w)

  unfoldable pub release_stable : Config → Release Unit
  unfolding resolve_root stable_gates release_tagged
  release_stable c = do resolve_root o; tag ← stable_gates; release_tagged c tag
