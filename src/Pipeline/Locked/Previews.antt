-- ===== src/Pipeline/Locked/Previews.antt =====
-- PushPreview and Snapshot of pkg/pipeline under the chart lock, and with them all flows.
use gemaal.Base.{
  List, [], ◌∷◌, Bool, true, false, Option, none, some, Text, codes, text_eq, ◌≡◌, refl, All-append,
}
use gemaal.Engine.Types.{Result, ok, err}
use gemaal.Pipeline.{Config}
use gemaal.Pipeline.Paths.{stamp_path, stamp_file_name, join}
use gemaal.Pipeline.Select.{Selection, ChartTarball}
use gemaal.Pipeline.Flow.{
  Event, Outside, Run, Step, FlowError, no_charts_dir, unknown_provenance, wrong_stamp, skip,
  record_call, perform, attempt, goreleaser, publish_images, publish_ko_images, goreleaser_manifest,
  write_stamp, stat_charts, stage_charts, glob_charts, remove_stage, push_chart,
}
use gemaal.Pipeline.Flow.Triples.{Keeps, ◌⟫◌, kept_by_none, require-Keeps, Ends, Leads, ◌▷◌}
use gemaal.Pipeline.Steps.{call, ecr_login}
use gemaal.Pipeline.Steps.Kept.{
  perform-Keeps, attempt-Keeps, call-Keeps, clean_charts_output-Keeps, manifest_version-Keeps,
  package_charts-Keeps, push_charts-Keeps, read_release_stamp-Keeps, ecr_login-Keeps,
  select_staged-Keeps,
}
use gemaal.Pipeline.Stable.{
  StableState, stable_gates, build, select_charts, push_all, build_and_push, is_stage_done,
  has_failed, remove_stage_if, reported, release_tagged, release_stable,
}
use gemaal.Pipeline.Locked.Flows.{in_order, free_then, let_go, free_root, release_stable-Holds}
use gemaal.Pipeline.Stable as Stable
use gemaal.Pipeline.Preview.{
  at_start, built, exists_or_fail, require_preview, push_tarballs, push_selected, check_staged,
  check_and_push, cleared, stage_and_push, push_preview, build_snapshot, snapshot,
}
use gemaal.Pipeline.Locked.{is_disciplined, IsDisciplined, Holds, AnyLock, holding-Leads, steady}

module _ (o : Outside) (c : Config) where
  as_lead : {S A : Type 0} {I : Run S → Type 0} {m : Step S A} → Keeps I m → Leads I m (λ _. I) I
  as_lead k = record { leads = k.run }

  stage_cleared : (w : Run Unit) → AnyLock w → AnyLock (attempt o remove_stage w).0
  unfolding attempt is_disciplined
  stage_cleared w k =
      All-append IsDisciplined w.trace
        (record { event = remove_stage; answer = o.answer w.trace remove_stage; locked = w.locked }
          ∷ [])
        k (either w.locked, tt)
    where
      either : (b : Bool) → is_disciplined b remove_stage ≡ true
      either true = refl
      either false = refl

  require_preview-Keeps : (stamp : Option Text) → Keeps (Holds true) (require_preview o stamp)
  unfolding require_preview
  require_preview-Keeps none = kept_by_none (err unknown_provenance)
  require_preview-Keeps (some stamp) =
      require-Keeps (Holds true) (text_eq stamp (codes "preview")) (wrong_stamp stamp)

  check_staged-Holds : (dir : Text) → Keeps (Holds true) (check_staged o c dir)
  unfolding check_staged is_disciplined
  check_staged-Holds dir =
      select_staged-Keeps o (Holds true) (is_disciplined true) (in_order o true) c dir ⟫ λ sel.
      read_release_stamp-Keeps o (Holds true) (is_disciplined true) (in_order o true)
        (join dir stamp_file_name) refl
      ⟫ λ stamp. require_preview-Keeps stamp ⟫ λ _. kept_by_none (ok sel)

  push_call :
      (name tgz version : Text)
      → Keeps {S = Unit} (Holds false) (call o (push_chart name tgz version true))
  unfolding is_disciplined
  push_call name tgz version =
      call-Keeps o (Holds false) (is_disciplined false) (in_order o false)
        (push_chart name tgz version true) refl

  push_tarballs-Holds :
      (sel : Selection) (ts : List ChartTarball) → Keeps (Holds false) (push_tarballs o sel ts)
  push_tarballs-Holds sel [] = kept_by_none (ok tt)
  push_tarballs-Holds sel (t ∷ ts) =
      push_call t.name t.tgz sel.version ⟫ λ _. push_tarballs-Holds sel ts

  push_selected-Holds : (sel : Selection) → Keeps (Holds false) (push_selected o c sel)
  unfolding push_selected
  push_selected-Holds sel = push_call c.charts.ring2.name sel.infra_tgz sel.version ⟫ λ _.
      push_tarballs-Holds sel sel.extra ⟫ λ _. push_call c.charts.ring3.name sel.app_tgz sel.version

  check_and_push-Leads :
      (dir : Text) → Leads (Holds true) (check_and_push o c dir) (λ _. AnyLock) AnyLock
  unfolding is_disciplined
  check_and_push-Leads dir = steady o true (check_staged o c dir) (check_staged-Holds dir) ▷ λ sel.
      let_go o c ▷ λ _.
      steady o false (ecr_login o)
        (ecr_login-Keeps o (Holds false) (is_disciplined false) (in_order o false) refl refl)
      ▷ λ _. free_then o c (push_selected o c sel) (push_selected-Holds sel)

  cleared-Ends :
      (x : Run Unit × Result FlowError Unit)
      → Ends (λ _. AnyLock) AnyLock x
      → Ends (λ _. AnyLock) AnyLock (cleared o x)
  unfolding cleared
  cleared-Ends (w, ok tt) k = stage_cleared w k
  cleared-Ends (w, err e) k = stage_cleared w k

  cleared-Leads :
      (dir : Text)
      → Leads (Holds true) (λ w. cleared o (check_and_push o c dir w)) (λ _. AnyLock) AnyLock
  cleared-Leads dir = record {
    leads = λ w h. cleared-Ends (check_and_push o c dir w) ((check_and_push-Leads dir).leads w h);
  }

  no_dir-Keeps : (r : Result Text Text) → Keeps (Holds true) (exists_or_fail o r)
  no_dir-Keeps (ok t) = kept_by_none (ok tt)
  no_dir-Keeps (err e) = kept_by_none (err no_charts_dir)

  stage_and_push-Leads : Leads (Holds true) (stage_and_push o c) (λ _. AnyLock) AnyLock
  unfolding stage_and_push is_disciplined
  stage_and_push-Leads =
      steady o true (attempt o stat_charts)
        (attempt-Keeps o (Holds true) (is_disciplined true) (in_order o true) stat_charts refl)
      ▷ λ found. steady o true (exists_or_fail o found) (no_dir-Keeps found) ▷ λ _.
          steady o true (perform o stage_charts)
            (perform-Keeps o (Holds true) (is_disciplined true) (in_order o true) stage_charts refl)
          ▷ λ dir. cleared-Leads dir

  push_preview-Leads : Leads (Holds false) (push_preview o c) (λ _. Holds false) (Holds false)
  unfolding push_preview
  push_preview-Leads =
      as_lead (free_root o c) ▷ λ _. holding-Leads o (stage_and_push o c) stage_and_push-Leads

  snapshot_call :
      (e : Event) → is_disciplined true e ≡ true → Keeps {S = Unit} (Holds true) (call o e)
  snapshot_call e g = call-Keeps o (Holds true) (is_disciplined true) (in_order o true) e g

  built-Holds : Keeps {S = Unit} (Holds true) (built o c)
  unfolding is_disciplined built
  built-Holds =
      let D = is_disciplined true in
      let K : (e : Event)
          → is_disciplined true e ≡ true
          → (r : Result Text Text) (w : Run Unit) → Holds true w
          → Holds true (record_call w e r) =
        in_order o true in
      clean_charts_output-Keeps o (Holds true) D K refl (λ path. refl) (stamp_path c) ⟫ λ _.
      snapshot_call (goreleaser true) refl ⟫ λ _. snapshot_call (publish_images true) refl ⟫ λ _.
      snapshot_call (publish_ko_images true) refl ⟫ λ _.
      snapshot_call goreleaser_manifest refl ⟫ λ _.
      manifest_version-Keeps o (Holds true) D K refl ⟫ λ version.
      package_charts-Keeps o (Holds true) D K (λ ch. refl) (λ ch. refl) refl (λ v. refl) c version
      ⟫ λ _. push_charts-Keeps o (Holds true) D K refl (λ path. refl) ⟫ λ _.
          snapshot_call (write_stamp (codes "preview")) refl

  nothing_more : Leads {S = Unit} AnyLock skip (λ _. AnyLock) AnyLock
  nothing_more = record { leads = λ w h. h }

  build_snapshot-Leads : Leads (Holds true) (build_snapshot o c) (λ _. AnyLock) AnyLock
  unfolding build_snapshot is_disciplined
  build_snapshot-Leads = steady o true (built o c) built-Holds ▷ λ _. let_go o c ▷ λ _.
      free_then o c (attempt o glob_charts)
        (attempt-Keeps o (Holds false) (is_disciplined false) (in_order o false) glob_charts refl)
      ▷ λ _. nothing_more

  snapshot-Leads : Leads (Holds false) (snapshot o c) (λ _. Holds false) (Holds false)
  unfolding snapshot
  snapshot-Leads =
      as_lead (free_root o c) ▷ λ _. holding-Leads o (build_snapshot o c) build_snapshot-Leads

  ended :
      {S A : Type 0} (R : Run S → Type 0) (x : Run S × Result FlowError A)
      → Ends (λ _. R) R x
      → R x.0
  ended R (w, ok a) h = h
  ended R (w, err e) h = h

-- Every flow, whatever its calls answer and however it ends, holds the chart lock at each call that
-- changes or copies the charts directory, does not hold it at the registry login and at the pushes
-- from a stage, and has given it back at its end.
pub flows_hold_lock :
    (o : Outside) (c : Config)
    → Holds false (release_stable o c Stable.at_start).0
      × Holds false (push_preview o c at_start).0
      × Holds false (snapshot o c at_start).0
flows_hold_lock o c = (
  ended o c (Holds false) (release_stable o c Stable.at_start)
      ((release_stable-Holds o c).run Stable.at_start (record { lock = refl; calls = tt })),
  ended o c (Holds false) (push_preview o c at_start)
      ((push_preview-Leads o c).leads at_start (record { lock = refl; calls = tt })),
  ended o c (Holds false) (snapshot o c at_start)
      ((snapshot-Leads o c).leads at_start (record { lock = refl; calls = tt })),
)
