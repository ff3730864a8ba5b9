-- ===== src/Pipeline/Locked/Flows.antt =====
-- The stable release of pkg/pipeline/stable.go under the chart lock.
use gemaal.Base.{Bool, true, false, Text, ◌≡◌, refl}
use gemaal.Engine.Types.{Result, ok, err}
use gemaal.Pipeline.{Config}
use gemaal.Pipeline.Select.{Selection}
use gemaal.Pipeline.Flow.{
  remove_file, make_charts_out, update_dependencies, package_ring2, package_pinned, Event, Outside,
  Run, Step, FlowError, record_call, update, release_chart_lock, holding_lock, goreleaser,
  goreleaser_manifest, write_stamp, stage_charts, remove_stage, push_chart, ecr_password,
  registry_login,
}
use gemaal.Pipeline.Flow.Triples.{Keeps, ◌⟫◌, Ends, Ends-map, Leads, ◌▷◌}
use gemaal.Pipeline.Steps.{resolve_root, ecr_login}
use gemaal.Pipeline.Steps.Kept.{resolve_root-Keeps, ecr_login-Keeps}
use gemaal.Pipeline.Stable.{
  StableState, build, select_charts, push_all, build_and_push, is_stage_done, remove_stage_if,
  reported, release_tagged, release_stable,
}
use gemaal.Pipeline.Stable.Kept.{
  is_gate, is_build, stable_gates-Keeps, build-Keeps, select_charts-Keeps, push_all-Keeps,
}
use gemaal.Pipeline.Preview.{snapshot}
use gemaal.Pipeline.Locked.{
  is_disciplined, Holds, AnyLock, record_call-Holds, release-Leads, holding-Leads, steady,
}

-- Calls that are in order in either case.
pub build_disciplined : (e : Event) → is_build e ≡ true → is_disciplined true e ≡ true
unfolding is_build is_disciplined
build_disciplined (push_chart name tgz version overwrite) h = absurd (cc h)
build_disciplined ecr_password h = absurd (cc h)
build_disciplined registry_login h = absurd (cc h)
build_disciplined e h = refl

gate_disciplined : (e : Event) → is_gate e ≡ true → is_disciplined false e ≡ true
unfolding is_gate is_disciplined
gate_disciplined (remove_file path) h = absurd (cc h)
gate_disciplined (goreleaser snapshot) h = absurd (cc h)
gate_disciplined goreleaser_manifest h = absurd (cc h)
gate_disciplined make_charts_out h = absurd (cc h)
gate_disciplined (update_dependencies ch) h = absurd (cc h)
gate_disciplined (package_ring2 version) h = absurd (cc h)
gate_disciplined (package_pinned ch) h = absurd (cc h)
gate_disciplined (write_stamp stamp) h = absurd (cc h)
gate_disciplined stage_charts h = absurd (cc h)
gate_disciplined e h = refl

module _ {S : Type 0} (o : Outside) (b : Bool) where
  pub in_order :
      (e : Event)
      → is_disciplined b e ≡ true
      → (r : Result Text Text) (w : Run S) → Holds b w
      → Holds b (record_call w e r)
  in_order = record_call-Holds o b

module _ (o : Outside) (c : Config) where
  marked-Holds : (b : Bool) (f : StableState → StableState) → Keeps (Holds b) (update f)
  unfolding update
  marked-Holds b f = record { run = λ w h. record { lock = h.lock; calls = h.calls } }

  build-Holds : Keeps (Holds true) (build o c)
  build-Holds =
      build-Keeps o (Holds true) (λ e g. in_order o true e (build_disciplined e g))
        (marked-Holds true (λ s. record s { goreleaser_started = true }))
        (marked-Holds true (λ s. record s { published_images = true }))
        (λ v. marked-Holds true (λ s. record s { version = v })) c

  select_charts-Holds : (version : Text) → Keeps (Holds true) (select_charts o c version)
  select_charts-Holds version =
      select_charts-Keeps o (Holds true) (λ e g. in_order o true e (build_disciplined e g))
        (λ d. marked-Holds true (λ s. record s { stage_dir = d })) (λ sel. marked-Holds true _)
        (marked-Holds true (λ s. record s { charts_selected = true })) c version

  push_all-Holds : (sel : Selection) → Keeps (Holds false) (push_all o c sel)
  unfolding is_disciplined
  push_all-Holds sel =
      push_all-Keeps o (Holds false)
        (λ name tgz version overwrite.
          in_order o false (push_chart name tgz version overwrite) refl)
        (marked-Holds false) c sel

  pub free_then :
      {S A : Type 0} (m : Step S A)
      → Keeps (Holds false) m
      → Leads (Holds false) m (λ _. AnyLock) AnyLock
  free_then m k = record {
    leads = λ w h.
        Ends-map (λ _. Holds false) (λ _. AnyLock) (Holds false) AnyLock (λ a v x. x.calls)
          (λ v x. x.calls) (m w) (k.run w h);
  }

  -- the release of the lock in the middle of a flow
  pub let_go :
      {S : Type 0} → Leads {S = S} (Holds true) (release_chart_lock o) (λ _. Holds false) AnyLock
  let_go = record {
    leads = λ w h.
        Ends-map (λ _. Holds false) (λ _. Holds false) (Holds false) AnyLock (λ a v x. x)
          (λ v x. x.calls) (release_chart_lock o w) ((release-Leads o).leads w h.calls);
  }

  build_and_push-Leads : Leads (Holds true) (build_and_push o c) (λ _. AnyLock) AnyLock
  unfolding is_disciplined
  build_and_push-Leads = steady o true (build o c) build-Holds ▷ λ version.
      steady o true (select_charts o c version) (select_charts-Holds version) ▷ λ sel. let_go ▷ λ _.
      steady o false (ecr_login o)
        (ecr_login-Keeps o (Holds false) (is_disciplined false) (in_order o false) refl refl)
      ▷ λ _.
          free_then _ (
            push_all-Holds sel ⟫ λ _.
            marked-Holds false (λ s. record s { release_complete = true }))

  stage_removed :
      (b : Bool) (w : Run StableState) → Holds false w → Holds false (remove_stage_if o b w)
  unfolding remove_stage_if is_disciplined
  stage_removed true w h = in_order o false remove_stage refl (o.answer w.trace remove_stage) w h
  stage_removed false w h = h

  reported-Ends :
      (x : Run StableState × Result FlowError Unit)
      → Ends (λ _. Holds false) (Holds false) x
      → Ends (λ _. Holds false) (Holds false) (reported o x)
  unfolding reported
  reported-Ends (w, ok tt) p = stage_removed (is_stage_done o w.state false) w p
  reported-Ends (w, err e) p = stage_removed (is_stage_done o w.state true) w p

  pub free_root : {S : Type 0} → Keeps {S = S} (Holds false) (resolve_root o)
  unfolding is_disciplined
  free_root = resolve_root-Keeps o (Holds false) (is_disciplined false) (in_order o false) refl

  pub release_stable-Holds : Keeps (Holds false) (release_stable o c)
  unfolding release_stable release_tagged
  release_stable-Holds = free_root ⟫ λ _.
      stable_gates-Keeps o (Holds false) (λ e g. in_order o false e (gate_disciplined e g)) ⟫ λ tag.
      marked-Holds false (λ s. record s { tag = tag }) ⟫ λ _. record {
        run = λ w h.
            reported-Ends (holding_lock o (build_and_push o c) w)
              ((holding-Leads o (build_and_push o c) build_and_push-Leads).leads w h);
      }
