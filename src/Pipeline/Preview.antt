-- ===== src/Pipeline/Preview.antt =====
-- The two flows of the preview registry: PushPreview in pkg/pipeline/pushpreview.go and Snapshot in
-- pkg/pipeline/snapshot.go. They keep no state of their own.
pub mod Uploads
use gemaal.Base.{List, [], ◌∷◌, true, false, Option, none, some, Text, codes, text_eq}
use gemaal.Engine.Types.{Result, ok, err}
use gemaal.Pipeline.{Config}
use gemaal.Pipeline.Paths.{stamp_path, stamp_file_name, join}
use gemaal.Pipeline.Select.{Selection, ChartTarball}
use gemaal.Pipeline.Flow.{
  Outside, Run, Step, FlowError, no_charts_dir, unknown_provenance, wrong_stamp, ◌>>=◌, ◌>>◌, fail,
  skip, require, perform, attempt, holding_lock, release_chart_lock, keep_result, glob_charts,
  goreleaser, publish_images, publish_ko_images, goreleaser_manifest, write_stamp, stat_charts,
  stage_charts, remove_stage, push_chart,
}
use gemaal.Pipeline.Steps.{
  resolve_root, clean_charts_output, manifest_version, call, package_charts, push_charts,
  read_release_stamp, ecr_login, select_staged,
}

abbrev pub Preview : Type 0 → Type 0
Preview A = Step Unit A

-- a run before its first call
abbrev pub at_start : Run Unit
at_start = record { trace = []; locked = false; state = tt }

module _ (o : Outside) where
  abbrev pub exists_or_fail : Result Text Text → Preview Unit
  exists_or_fail (ok t) = skip
  exists_or_fail (err e) = fail no_charts_dir

  unfoldable pub require_preview : Option Text → Preview Unit
  unfolding text_eq
  require_preview none = fail unknown_provenance
  require_preview (some stamp) = require (text_eq stamp (codes "preview")) (wrong_stamp stamp)

  abbrev pub push_tarballs : Selection → List ChartTarball → Preview Unit
  push_tarballs sel [] = skip
  push_tarballs sel (t ∷ ts) = do
    call o (push_chart t.name t.tgz sel.version true)
    push_tarballs sel ts

  unfoldable pub push_selected : Config → Selection → Preview Unit
  unfolding perform
  push_selected c sel = do
    call o (push_chart c.charts.ring2.name sel.infra_tgz sel.version true)
    push_tarballs sel sel.extra
    call o (push_chart c.charts.ring3.name sel.app_tgz sel.version true)

  -- the selection from the stage, and its stamp
  unfoldable pub check_staged : Config → Text → Preview Selection
  unfolding select_staged read_release_stamp require_preview
  check_staged c dir = do
    sel ← select_staged o c dir
    stamp ← read_release_stamp o (join dir stamp_file_name)
    require_preview stamp
    λ w. (w, ok sel)

  abbrev pub check_and_push : Config → Text → Preview Unit
  check_and_push c dir = do
    sel ← check_staged c dir
    release_chart_lock o
    ecr_login o
    push_selected c sel

  -- the deferred removal of the stage
  unfoldable pub cleared : Run Unit × Result FlowError Unit → Run Unit × Result FlowError Unit
  unfolding attempt
  cleared (w, r) = keep_result ((attempt o remove_stage w).0, ok tt) r

  unfoldable pub stage_and_push : Config → Preview Unit
  unfolding attempt perform check_staged release_chart_lock ecr_login push_selected cleared
  stage_and_push c = do
    found ← attempt o stat_charts
    exists_or_fail found
    dir ← perform o stage_charts
    λ w. cleared (check_and_push c dir w)

  unfoldable pub push_preview : Config → Preview Unit
  unfolding resolve_root stage_and_push
  push_preview c = do resolve_root o; holding_lock o (stage_and_push c)

  -- the build up to its stamp
  unfoldable pub built : Config → Preview Unit
  unfolding clean_charts_output perform manifest_version package_charts push_charts
  built c = do
    clean_charts_output o (stamp_path c)
    call o (goreleaser true)
    call o (publish_images true)
    call o (publish_ko_images true)
    call o goreleaser_manifest
    version ← manifest_version o
    package_charts o c version
    push_charts o
    call o (write_stamp (codes "preview"))

  -- the charts are listed for the log once more
  unfoldable pub build_snapshot : Config → Preview Unit
  unfolding built release_chart_lock attempt
  build_snapshot c = do built c; release_chart_lock o; attempt o glob_charts; skip

  unfoldable pub snapshot : Config → Preview Unit
  unfolding resolve_root build_snapshot
  snapshot c = do resolve_root o; holding_lock o (build_snapshot c)
