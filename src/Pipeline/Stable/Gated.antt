-- ===== src/Pipeline/Stable/Gated.antt =====
-- The stable release of pkg/pipeline/stable.go behind its gates.
use gemaal.Base.{
  List, [], ◌∷◌, ◌++◌, Bool, true, false, Text, ◌≡◌, refl, sym, ap, ◌∙◌, ◌⊎◌, inl, inr, All,
}
use mathlib.Core.List.{append_assoc, append-nil}
use gemaal.Engine.Types.{Result, ok, err}
use gemaal.Pipeline.{Config}
use gemaal.Pipeline.Flow.{
  Event, Occurrence, Outside, Run, Step, FlowError, record_call, update, ◌>>=◌, show_toplevel,
  holding_lock, remove_stage,
}
use gemaal.Pipeline.Flow.Triples.{Keeps, ◌⟫◌, Ends, Ends-map, Triple, Leads, ◌▷◌}
use gemaal.Pipeline.Steps.{resolve_root}
use gemaal.Pipeline.Steps.Kept.{
  ecr_login-Keeps, acquire_chart_lock-Keeps, release_chart_lock-Keeps, holding_lock-Triple,
}
use gemaal.Pipeline.Stable.{
  StableState, at_start, stable_gates, build_and_push, is_stage_done, remove_stage_if, reported,
  release_tagged, release_stable,
}
use gemaal.Pipeline.Stable.Gates.{
  IsCheck, PassedGates, answered, At, OnlyChecks, stable_gates-Leads, resolve_root-Leads, each,
}
use gemaal.Pipeline.Stable.Kept.{build-Keeps, select_charts-Keeps, push_all-Keeps}

module _ (o : Outside) (I : Run StableState → Type 0)
    (kept : (e : Event) (r : Result Text Text) (w : Run StableState) → I w → I (record_call w e r))
    (marked : (f : StableState → StableState) (w : Run StableState)
      → I w
      → I (record w { state = f w.state }))
    (unlocked : (w : Run StableState) (b : Bool) → I w → I (record w { locked = b })) where
  any_call : Event → Bool
  any_call e = true

  update-Keeps : (f : StableState → StableState) → Keeps I (update f)
  unfolding update
  update-Keeps f = record { run = marked f }

  build_and_push-Keeps : (c : Config) → Keeps I (build_and_push o c)
  unfolding any_call
  build_and_push-Keeps c =
      build-Keeps o I (λ e g. kept e) (update-Keeps (λ s. record s { goreleaser_started = true }))
        (update-Keeps (λ s. record s { published_images = true }))
        (λ v. update-Keeps (λ s. record s { version = v })) c
      ⟫ λ version.
          select_charts-Keeps o I (λ e g. kept e)
            (λ d. update-Keeps (λ s. record s { stage_dir = d })) (λ sel. update-Keeps _)
            (update-Keeps (λ s. record s { charts_selected = true })) c version
          ⟫ λ sel. release_chart_lock-Keeps o I any_call (λ e g. kept e) unlocked refl ⟫ λ _.
              ecr_login-Keeps o I any_call (λ e g. kept e) refl refl ⟫ λ _.
              push_all-Keeps o I (λ name tgz version overwrite. kept _) update-Keeps c sel ⟫ λ _.
              update-Keeps (λ s. record s { release_complete = true })

  stage_removed : (b : Bool) (w : Run StableState) → I w → I (remove_stage_if o b w)
  unfolding remove_stage_if
  stage_removed true w p = kept remove_stage (o.answer w.trace remove_stage) w p
  stage_removed false w p = p

  reported-Ends :
      (x : Run StableState × Result FlowError Unit)
      → Ends (λ _. I) I x
      → Ends (λ _. I) I (reported o x)
  unfolding reported
  reported-Ends (w, ok tt) p = stage_removed (is_stage_done o w.state false) w p
  reported-Ends (w, err e) p = stage_removed (is_stage_done o w.state true) w p

  locked-Triple : (c : Config) → Triple I (holding_lock o (build_and_push o c)) (λ _. I) I
  unfolding any_call
  locked-Triple c =
      holding_lock-Triple o I any_call (λ e g. kept e) unlocked I (build_and_push o c) refl
        (acquire_chart_lock-Keeps o I any_call (λ e g. kept e) unlocked refl).run
        (build_and_push-Keeps c).run

  release_tagged-Keeps : (c : Config) (tag : Text) → Keeps I (release_tagged o c tag)
  unfolding release_tagged
  release_tagged-Keeps c tag = update-Keeps (λ s. record s { tag = tag }) ⟫ λ _. record {
    run = λ w p. reported-Ends (holding_lock o (build_and_push o c) w) (locked-Triple c w p);
  }

-- The calls begin with those of gates that let the tag pass.
pub record BeginsGated (tag : Text) (trace : List Occurrence) : Type 0 where
  pub checks : List Occurrence
  pub rest : List Occurrence
  pub begins : trace ≡ checks ++ rest
  pub gates_passed : PassedGates tag checks

-- Only the gates' calls were made, or they passed before any other.
abbrev pub IsGated : List Occurrence → Type 0
IsGated trace = All IsCheck trace ⊎ ((tag : Text) × BeginsGated tag trace)

record_call-BeginsGated :
    (tag : Text) (e : Event) (r : Result Text Text) (w : Run StableState)
    → BeginsGated tag w.trace
    → BeginsGated tag (record_call w e r).trace
record_call-BeginsGated tag e r w b = record {
  checks = b.checks;
  rest = b.rest ++ (record { event = e; answer = r; locked = w.locked } ∷ []);
  begins =
      ap (λ z. z ++ (record { event = e; answer = r; locked = w.locked } ∷ [])) b.begins
      ∙ append_assoc b.checks b.rest (record { event = e; answer = r; locked = w.locked } ∷ []);
  gates_passed = b.gates_passed;
}

PassedGates-BeginsGated :
    (tag : Text) (trace : List Occurrence) → PassedGates tag trace → BeginsGated tag trace
PassedGates-BeginsGated tag trace p = record {
  checks = trace;
  rest = [];
  begins = sym (append-nil trace);
  gates_passed = p;
}

module _ (o : Outside) (c : Config) where
  tagged-Leads :
      (tag : Text)
      → Leads
          (λ w. PassedGates tag w.trace)
          (release_tagged o c tag)
          (λ _ w. IsGated w.trace)
          (λ w. IsGated w.trace)
  tagged-Leads tag = record {
    leads = λ w p.
        Ends-map (λ _ v. BeginsGated tag v.trace) (λ _ v. IsGated v.trace)
          (λ v. BeginsGated tag v.trace) (λ v. IsGated v.trace) (λ _ v b. inr (tag, b))
          (λ v b. inr (tag, b)) (release_tagged o c tag w)
          ((release_tagged-Keeps o (λ v. BeginsGated tag v.trace) (record_call-BeginsGated tag)
              (λ f v b. b) (λ v x b. b) c tag).run
            w (PassedGates-BeginsGated tag w.trace p));
  }

  -- a step that may fail with nothing but checks made
  only_checks :
      {A : Type 0} (P : Run StableState → Type 0) (m : Step StableState A)
      (Q : A → Run StableState → Type 0)
      → Leads P m Q OnlyChecks
      → Leads P m Q (λ w. IsGated w.trace)
  only_checks P m Q l = record {
    leads = λ w p.
        Ends-map Q Q OnlyChecks (λ v. IsGated v.trace) (λ a v q. q) (λ v h. inl h) (m w)
          (l.leads w p);
  }

  release_stable-Leads :
      Leads (At []) (release_stable o c) (λ _ w. IsGated w.trace) (λ w. IsGated w.trace)
  unfolding release_stable
  release_stable-Leads =
      only_checks (At []) (resolve_root o)
        (λ _ w. (t : Text) × At (answered show_toplevel t ∷ []) w) (resolve_root-Leads o)
      ▷ λ _. gated_rest
    where
      gated_rest :
          Leads
            (λ w. (t : Text) × At (answered show_toplevel t ∷ []) w)
            (stable_gates o >>= release_tagged o c)
            (λ _ w. IsGated w.trace)
            (λ w. IsGated w.trace)
      gated_rest =
          only_checks (λ w. (t : Text) × At (answered show_toplevel t ∷ []) w) (stable_gates o)
            (λ tag w. PassedGates tag w.trace) (each o (stable_gates-Leads o))
          ▷ tagged-Leads

  ended :
      {A : Type 0} (R : Run StableState → Type 0) (x : Run StableState × Result FlowError A)
      → Ends (λ _. R) R x
      → R x.0
  ended R (w, ok a) h = h
  ended R (w, err e) h = h

-- Whatever its calls answer, a stable release makes no call besides looking up the repository and
-- the gates' own, unless those come first and the gates pass: git status was blank, HEAD had the id
-- of the release branch's remote tip after a fetch, the tag is what git describe gave for HEAD, and
-- the remote lists the tag, first with the id of the local tag.
pub release_stable-IsGated :
    (o : Outside) (c : Config) → IsGated (release_stable o c at_start).0.trace
release_stable-IsGated o c =
    ended o c (λ w. IsGated w.trace) (release_stable o c at_start)
      ((release_stable-Leads o c).leads at_start
        (record { trace = refl; free = refl; checks = tt }))
