-- ===== src/Pipeline/Stable/Kept.antt =====
-- What the steps of the stable release, pkg/pipeline/stable.go, keep: a condition that survives
-- their calls and their marks in the state survives the step.
use gemaal.Base.{
  List, [], ◌∷◌, ◌++◌, Bool, true, false, not, is_empty, is_blank, Text, map, text_eq, ◌≡◌, refl,
  trim_space, fields, codes,
}
use gemaal.Engine.Types.{Result, ok, err}
use gemaal.Pipeline.{Config}
use gemaal.Pipeline.Paths.{stamp_path}
use gemaal.Pipeline.Select.{Selection}
use gemaal.Pipeline.Flow.{
  Event, Outside, Run, not_clean, not_tip, no_tag, unpushed_tag, moved_tag, wrong_version,
  record_call, perform, update, git_status, git_fetch, git_head, git_remote_tip, git_describe,
  git_ls_remote, git_tag_object, pre_build, goreleaser, publish_images, publish_ko_images,
  goreleaser_manifest, push_chart, write_stamp, stage_charts, glob_charts, remove_file,
  read_manifest, make_charts_out, update_dependencies, package_ring2, package_pinned,
}
use gemaal.Pipeline.Flow.Triples.{Keeps, ◌⟫◌, kept_by_none, require-Keeps}
use gemaal.Pipeline.Steps.{first_word, call}
use gemaal.Pipeline.Steps.Kept.{
  perform-Keeps, attempt-Keeps, call-Keeps, clean_charts_output-Keeps, manifest_version-Keeps,
  package_charts-Keeps, select_staged-Keeps,
}
use gemaal.Pipeline.Stable.{
  StableState, ExtraPush, tracked_push, push_ring2, push_ring3, push_extra, push_extras_from,
  push_extras, push_all, stable_gates, tag_or_fail, run_pre_builds, build, select_charts, or_none,
  new_push,
}

-- The calls of the gates, and those of the build.
unfoldable pub is_gate : Event → Bool
is_gate git_status = true
is_gate git_fetch = true
is_gate git_head = true
is_gate git_remote_tip = true
is_gate git_describe = true
is_gate (git_ls_remote tag) = true
is_gate (git_tag_object tag) = true
is_gate e = false

unfoldable pub is_build : Event → Bool
is_build glob_charts = true
is_build (remove_file path) = true
is_build (pre_build ws) = true
is_build (goreleaser snapshot) = true
is_build (publish_images snapshot) = true
is_build (publish_ko_images snapshot) = true
is_build goreleaser_manifest = true
is_build read_manifest = true
is_build make_charts_out = true
is_build (update_dependencies ch) = true
is_build (package_ring2 version) = true
is_build (package_pinned ch) = true
is_build (write_stamp stamp) = true
is_build stage_charts = true
is_build e = false

module _ (o : Outside) (I : Run StableState → Type 0)
    (kept : (e : Event)
      → is_gate e ≡ true
      → (r : Result Text Text) (w : Run StableState) → I w
      → I (record_call w e r)) where
  tag_or_fail-Keeps : (r : Result Text Text) → Keeps I (tag_or_fail o r)
  tag_or_fail-Keeps (ok t) = kept_by_none (ok (trim_space t))
  tag_or_fail-Keeps (err e) = kept_by_none (err no_tag)

  gate-Keeps : (e : Event) → is_gate e ≡ true → Keeps I (perform o e)
  gate-Keeps = perform-Keeps o I is_gate kept

  pub stable_gates-Keeps : Keeps I (stable_gates o)
  unfolding stable_gates is_gate
  stable_gates-Keeps = gate-Keeps git_status refl ⟫ λ status.
      require-Keeps I (is_blank status) not_clean ⟫ λ _.
      call-Keeps o I is_gate kept git_fetch refl ⟫ λ _. gate-Keeps git_head refl ⟫ λ head.
      gate-Keeps git_remote_tip refl ⟫ λ tip.
      require-Keeps I (text_eq (trim_space head) (trim_space tip)) not_tip ⟫ λ _.
      attempt-Keeps o I is_gate kept git_describe refl ⟫ λ described.
      tag_or_fail-Keeps described ⟫ λ tag. gate-Keeps (git_ls_remote tag) refl ⟫ λ listed.
      require-Keeps I (not (is_empty (or_none (first_word (fields listed))))) unpushed_tag ⟫ λ _.
      gate-Keeps (git_tag_object tag) refl ⟫ λ object.
      require-Keeps I (text_eq (or_none (first_word (fields listed))) (trim_space object)) moved_tag
      ⟫ λ _. kept_by_none (ok tag)

module _ (o : Outside) (I : Run StableState → Type 0)
    (kept : (e : Event)
      → is_build e ≡ true
      → (r : Result Text Text) (w : Run StableState) → I w
      → I (record_call w e r)) where
  build_call-Keeps : (e : Event) → is_build e ≡ true → Keeps I (call o e)
  build_call-Keeps = call-Keeps o I is_build kept

  run_pre_builds-Keeps : (commands : List (List Text)) → Keeps I (run_pre_builds o commands)
  unfolding is_build
  run_pre_builds-Keeps [] = kept_by_none (ok tt)
  run_pre_builds-Keeps (ws ∷ rest) =
      build_call-Keeps (pre_build ws) refl ⟫ λ _. run_pre_builds-Keeps rest

  pub build-Keeps :
      Keeps I (update (λ s. record s { goreleaser_started = true }))
      → Keeps I (update (λ s. record s { published_images = true }))
      → ((version : Text) → Keeps I (update (λ s. record s { version = version })))
      → (c : Config) → Keeps I (build o c)
  unfolding build is_build
  build-Keeps started published versioned c =
      clean_charts_output-Keeps o I is_build kept refl (λ path. refl) (stamp_path c) ⟫ λ _.
      run_pre_builds-Keeps c.commands.pre_build ⟫ λ _. started ⟫ λ _.
      build_call-Keeps (goreleaser false) refl ⟫ λ _.
      build_call-Keeps (publish_images false) refl ⟫ λ _.
      build_call-Keeps (publish_ko_images false) refl ⟫ λ _. published ⟫ λ _.
      build_call-Keeps goreleaser_manifest refl ⟫ λ _.
      manifest_version-Keeps o I is_build kept refl ⟫ λ version. versioned version ⟫ λ _.
      package_charts-Keeps o I is_build kept (λ ch. refl) (λ ch. refl) refl (λ v. refl) c version
      ⟫ λ _. build_call-Keeps (write_stamp (codes "stable")) refl ⟫ λ _. kept_by_none (ok version)

  pub select_charts-Keeps :
      ((dir : Text) → Keeps I (update (λ s. record s { stage_dir = dir })))
      → ((sel : Selection)
          → Keeps I (
              update (λ s. record s {
                chart_version = sel.version;
                infra_tgz = sel.infra_tgz;
                app_tgz = sel.app_tgz;
                extras = map new_push sel.extra;
              })))
      → Keeps I (update (λ s. record s { charts_selected = true }))
      → (c : Config) (version : Text) → Keeps I (select_charts o c version)
  unfolding select_charts is_build
  select_charts-Keeps staged chosen accepted c version =
      perform-Keeps o I is_build kept stage_charts refl ⟫ λ dir. staged dir ⟫ λ _.
      select_staged-Keeps o I is_build kept c dir ⟫ λ sel. chosen sel ⟫ λ _.
      require-Keeps I (text_eq sel.version version) wrong_version ⟫ λ _.
      accepted ⟫ λ _. kept_by_none (ok sel)

module _ (o : Outside) (I : Run StableState → Type 0)
    (kept : (name tgz version : Text) (overwrite : Bool) (r : Result Text Text)
        (w : Run StableState)
      → I w
      → I (record_call w (push_chart name tgz version overwrite) r))
    (marked : (f : StableState → StableState) → Keeps I (update f)) where
  -- the one call of a push
  is_push : Event → Bool
  is_push (push_chart name tgz version overwrite) = true
  is_push e = false

  kept_push :
      (e : Event)
      → is_push e ≡ true
      → (r : Result Text Text) (w : Run StableState) → I w
      → I (record_call w e r)
  unfolding is_push
  kept_push (push_chart name tgz version overwrite) g r w p = kept name tgz version overwrite r w p
  kept_push e g r w p = absurd (cc g)

  tracked_push-Keeps :
      (f : StableState → StableState) (name tgz version : Text) (overwrite : Bool)
      (g : StableState → StableState)
      → Keeps I (tracked_push o f (push_chart name tgz version overwrite) g)
  unfolding is_push
  tracked_push-Keeps f name tgz version overwrite g = marked f ⟫ λ _.
      call-Keeps o I is_push kept_push (push_chart name tgz version overwrite) refl ⟫ λ _. marked g

  push_extras_from-Keeps :
      (sel : Selection) (pushed xs : List ExtraPush) → Keeps I (push_extras_from o sel pushed xs)
  unfolding push_extra
  push_extras_from-Keeps sel pushed [] = kept_by_none (ok tt)
  push_extras_from-Keeps sel pushed (x ∷ xs) =
      tracked_push-Keeps (λ s. record s { extras = pushed ++ (record x { started = true } ∷ xs) })
        x.name x.tgz sel.version false
        (λ s. record s { extras = pushed ++ (record x { started = true; confirmed = true } ∷ xs) })
      ⟫ λ _.
          push_extras_from-Keeps sel
            (pushed ++ (record x { started = true; confirmed = true } ∷ [])) xs

  push_extras-Keeps : (sel : Selection) → Keeps I (push_extras o sel)
  push_extras-Keeps sel = record {
    run = λ w p. (push_extras_from-Keeps sel [] w.state.extras).run w p;
  }

  pub push_all-Keeps : (c : Config) (sel : Selection) → Keeps I (push_all o c sel)
  unfolding push_all push_ring2 push_ring3
  push_all-Keeps c sel =
      tracked_push-Keeps (λ s. record s { started_ring2 = true }) c.charts.ring2.name sel.infra_tgz
        sel.version false (λ s. record s { confirmed_ring2 = true })
      ⟫ λ _. push_extras-Keeps sel ⟫ λ _.
          tracked_push-Keeps (λ s. record s { started_ring3 = true }) c.charts.ring3.name
            sel.app_tgz sel.version false (λ s. record s { confirmed_ring3 = true })
