-- ===== src/Pipeline/Preview/Uploads/Guarded.antt =====
-- The calls of PushPreview in pkg/pipeline/pushpreview.go behind its checks.
use gemaal.Base.{List, [], ◌∷◌, Bool, true, Text, ◌≡◌, refl, inl, inr, Any, arith}
use gemaal.Engine.Types.{Result, ok, err, Result-cases}
use gemaal.Pipeline.{Config}
use gemaal.Pipeline.Select.{Selection, ChartTarball}
use gemaal.Pipeline.Flow.{
  Event, Outside, Run, Step, FlowError, no_charts_dir, record_call, perform, attempt,
  release_chart_lock, stat_charts, remove_stage, push_chart, acquire_chart_lock, holding_lock,
}
use gemaal.Pipeline.Flow.Triples.{Keeps, ◌⟫◌, kept_by_none, Ends, Ends-map, Leads, ◌▷◌}
use gemaal.Pipeline.Steps.{call, ecr_login}
use gemaal.Pipeline.Steps.Kept.{
  attempt-Keeps, resolve_root-Keeps, release_chart_lock-Keeps, acquire_chart_lock-Keeps,
  ecr_login-Keeps, holding_lock-Triple,
}
use gemaal.Pipeline.Preview.{
  at_start, exists_or_fail, push_tarballs, push_selected, check_and_push, cleared, stage_and_push,
  push_preview,
}
use gemaal.Pipeline.Preview.Uploads.{
  is_registry, tarballs, is_push, IsSafe, Local, is_local, call-Local, no_push, local_no_push,
}
use gemaal.Pipeline.Preview.Uploads.Checked.{
  Staged, stage_charts-Leads, Cleared, cleared_call, quiet_call, check_staged-Leads,
}

module _ (o : Outside) (c : Config) where
  Safe : Run Unit → Type 0
  Safe w = IsSafe o c w.trace

  safe_call :
      (e : Event)
      → is_local e ≡ true
      → (r : Result Text Text) (w : Run Unit) → Safe w
      → Safe (record_call w e r)
  unfolding Safe
  safe_call e g r w (inl p) = inl (call-Local e g r w p)
  safe_call e g r w (inr (sel, k)) =
      inr (sel, cleared_call o c sel e r w (inl (local_no_push e (ground arith))) k)

  -- the condition where a chain fails, weakened
  unless_safe :
      {A : Type 0} {P : Run Unit → Type 0} {m : Step Unit A} {Q : A → Run Unit → Type 0}
      → Leads P m Q Local
      → Leads P m Q Safe
  unfolding Safe
  unless_safe {m = m} {Q = Q} h = record {
    leads = λ w p. Ends-map Q Q Local Safe (λ a v q. q) (λ v l. inl l) (m w) (h.leads w p);
  }

  now_safe :
      {A : Type 0} {sel : Selection} {m : Step Unit A}
      → Keeps (Cleared o c sel) m
      → Leads (Cleared o c sel) m (λ _. Safe) Safe
  unfolding Safe
  now_safe {sel = sel} {m = m} k = record {
    leads = λ w p.
        Ends-map (λ _. Cleared o c sel) (λ _. Safe) (Cleared o c sel) Safe (λ a v q. inr (sel, q))
          (λ v q. inr (sel, q)) (m w) (k.run w p);
  }

  module _ (sel : Selection) where
    own_push :
        (name tgz : Text)
        → Any
            (λ t. push_chart name tgz sel.version true ≡ push_chart t.name t.tgz sel.version true)
            (tarballs c sel)
        → Keeps (Cleared o c sel) (call o (push_chart name tgz sel.version true))
    unfolding perform
    own_push name tgz own =
        let e = push_chart name tgz sel.version true in
        record {
          run = λ w k. elim (Result-cases (o.answer w.trace e)) [
            | inl (t, q) ↦ rw q (cleared_call o c sel e (ok t) w (inr own) k)
            | inr (t, q) ↦ rw q (cleared_call o c sel e (err t) w (inr own) k)
          ];
        }

    push_tarballs-Keeps :
        (ts : List ChartTarball)
        → ((P : ChartTarball → Type 0) → Any P ts → Any P sel.extra)
        → Keeps (Cleared o c sel) (push_tarballs o sel ts)
    push_tarballs-Keeps [] inside = kept_by_none (ok tt)
    push_tarballs-Keeps (t ∷ ts) inside =
        own_push t.name t.tgz (
          inr (
            inr (
              inside
                (λ u.
                  push_chart t.name t.tgz sel.version true
                  ≡ push_chart u.name u.tgz sel.version true)
                (inl refl))))
        ⟫ λ _. push_tarballs-Keeps ts (λ P a. inside P (inr a))

    push_selected-Keeps : Keeps (Cleared o c sel) (push_selected o c sel)
    unfolding push_selected
    push_selected-Keeps = own_push c.charts.ring2.name sel.infra_tgz (inl refl) ⟫ λ _.
        push_tarballs-Keeps sel.extra (λ P a. a) ⟫ λ _.
        own_push c.charts.ring3.name sel.app_tgz (inr (inl refl))

    same : (w : Run Unit) (b : Bool) → Cleared o c sel w → Cleared o c sel (record w { locked = b })
    same w b k = k

    released-Keeps : Keeps (Cleared o c sel) (release_chart_lock o)
    unfolding is_push
    released-Keeps =
        release_chart_lock-Keeps o (Cleared o c sel) no_push (quiet_call o c sel) same refl

    login-Keeps : Keeps (Cleared o c sel) (ecr_login o)
    unfolding is_push
    login-Keeps = ecr_login-Keeps o (Cleared o c sel) no_push (quiet_call o c sel) refl refl

  check_and_push-Leads :
      (dir : Text) → Leads (Staged o c dir) (check_and_push o c dir) (λ _. Safe) Safe
  check_and_push-Leads dir = unless_safe (check_staged-Leads o c dir) ▷ λ sel.
      now_safe (released-Keeps sel ⟫ λ _. login-Keeps sel ⟫ λ _. push_selected-Keeps sel)

  cleared-Ends :
      (x : Run Unit × Result FlowError Unit)
      → Ends (λ _. Safe) Safe x
      → Ends (λ _. Safe) Safe (cleared o x)
  unfolding cleared attempt is_registry
  cleared-Ends (w, ok tt) k = safe_call remove_stage refl (o.answer w.trace remove_stage) w k
  cleared-Ends (w, err e) k = safe_call remove_stage refl (o.answer w.trace remove_stage) w k

  cleared-Leads :
      (dir : Text)
      → Leads (Staged o c dir) (λ w. cleared o (check_and_push o c dir w)) (λ _. Safe) Safe
  cleared-Leads dir = record {
    leads = λ w h. cleared-Ends (check_and_push o c dir w) ((check_and_push-Leads dir).leads w h);
  }

  Keeps-Leads : {A : Type 0} {m : Step Unit A} → Keeps Local m → Leads Local m (λ _. Local) Safe
  Keeps-Leads k = unless_safe (record { leads = k.run })

  exists_or_fail-Keeps : (r : Result Text Text) → Keeps Local (exists_or_fail o r)
  exists_or_fail-Keeps (ok t) = kept_by_none (ok tt)
  exists_or_fail-Keeps (err e) = kept_by_none (err no_charts_dir)

  stage_and_push-Leads : Leads Local (stage_and_push o c) (λ _. Safe) Safe
  unfolding stage_and_push is_registry
  stage_and_push-Leads =
      Keeps-Leads (attempt-Keeps o Local is_local call-Local stat_charts refl) ▷ λ r.
      Keeps-Leads (exists_or_fail-Keeps r) ▷ λ _.
      unless_safe (stage_charts-Leads o c) ▷ λ dir. cleared-Leads dir

  locked-Leads : Leads Local (acquire_chart_lock o) (λ _. Local) Safe
  unfolding is_registry
  locked-Leads =
      Keeps-Leads (acquire_chart_lock-Keeps o Local is_local call-Local (λ w b p. p) refl)

  unlocked_too : (w : Run Unit) (b : Bool) → Safe w → Safe (record w { locked = b })
  unfolding Safe
  unlocked_too w b (inl p) = inl p
  unlocked_too w b (inr k) = inr k

  under_lock : Leads Local (holding_lock o (stage_and_push o c)) (λ _. Safe) Safe
  unfolding is_registry
  under_lock = record {
    leads =
        holding_lock-Triple o Safe is_local safe_call unlocked_too Local (stage_and_push o c) refl
          locked-Leads.leads stage_and_push-Leads.leads;
  }

  push_preview-Leads : Leads Local (push_preview o c) (λ _. Safe) Safe
  unfolding push_preview is_registry
  push_preview-Leads =
      Keeps-Leads (resolve_root-Keeps o Local is_local call-Local refl) ▷ λ _. under_lock

  ended : (x : Run Unit × Result FlowError Unit) → Ends (λ _. Safe) Safe x → Safe x.0
  ended (w, ok a) h = h
  ended (w, err e) h = h

-- A preview push, whatever its calls answer and however it ends, asks nothing of a registry unless
-- it staged the charts, the selection from what was then in the stage succeeded, and the stamp that
-- it read in the stage says "preview"; and each push that it calls is of a tarball of that selection,
-- under its chart's name and at the selection's version.
pub push_preview-IsSafe :
    (o : Outside) (c : Config) → IsSafe o c (push_preview o c at_start).0.trace
unfolding Safe
push_preview-IsSafe o c =
    ended o c (push_preview o c at_start) ((push_preview-Leads o c).leads at_start tt)
