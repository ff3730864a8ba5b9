-- ===== src/Pipeline/Stable/Released.antt =====
-- The whole stable release of pkg/pipeline/stable.go, from its start to the deferred report.
use gemaal.Base.{
  List, [], ◌∷◌, ◌++◌, map, Bool, true, false, Text, ◌≡◌, refl, sym, ap, ◌∙◌, subst, All, inl, inr,
  text_eq,
}
use mathlib.Core.List.{append-nil}
use gemaal.Engine.Types.{Result, ok, err}
use gemaal.Pipeline.{Config}
use gemaal.Pipeline.Select.{ChartTarball, Selection}
use gemaal.Pipeline.Flow.{
  Event, Outside, Run, Step, FlowError, record_call, update, ◌>>=◌, ◌>>◌, give, require,
  wrong_version, stage_charts, push_chart, acquire_chart_lock, release_chart_lock, holding_lock,
  remove_stage,
}
use gemaal.Pipeline.Flow.Triples.{
  Keeps, Ends, Ends-map, Triple, >>=-Triple, Leads, ◌▷◌, ◌⟫◌, kept_by_none, require-Keeps,
}
use gemaal.Pipeline.Steps.{resolve_root, ecr_login, select_staged}
use gemaal.Pipeline.Steps.Kept.{
  perform-Keeps, resolve_root-Keeps, ecr_login-Keeps, acquire_chart_lock-Keeps,
  release_chart_lock-Keeps, holding_lock-Triple,
}
use gemaal.Pipeline.Stable.{
  StableState, at_start, new_push, stable_gates, build, select_charts, push_all, build_and_push,
  is_stage_done, remove_stage_if, reported, release_tagged, release_stable,
}
use gemaal.Pipeline.Stable.Kept.{is_gate, is_build, stable_gates-Keeps, build-Keeps}
use gemaal.Pipeline.Stable.Pushed.{
  status, statuses, attempts, attempt_of, attempts-record_call, Progress, idle, IsTruthful, IsFresh,
  IsNamed, IsInOrder, Waits, Of,
}
use gemaal.Pipeline.Stable.Named.{Named, push_all-Named, select_staged-Named}
use gemaal.Pipeline.Stable.Truthful.{push_all-Triple, unstarted_statuses}

-- Every call but a push of a chart.
unfoldable pub is_quiet : Event → Bool
is_quiet (push_chart name tgz version overwrite) = false
is_quiet e = true

quiet_attempt : (e : Event) (r : Result Text Text) → is_quiet e ≡ true → attempt_of e r ≡ []
unfolding is_quiet attempt_of
quiet_attempt (push_chart name tgz version overwrite) r h = absurd (cc h)
quiet_attempt e r h = refl

gate_quiet : (e : Event) → is_gate e ≡ true → is_quiet e ≡ true
unfolding is_quiet is_gate
gate_quiet (push_chart name tgz version overwrite) h = absurd (cc h)
gate_quiet e h = refl

build_quiet : (e : Event) → is_build e ≡ true → is_quiet e ≡ true
unfolding is_quiet is_build
build_quiet (push_chart name tgz version overwrite) h = absurd (cc h)
build_quiet e h = refl

module _ (o : Outside) (c : Config) where
  quiet_call :
      (P : StableState → List (Text × Bool) → Type 0) (e : Event)
      → is_quiet e ≡ true
      → (r : Result Text Text) (w : Run StableState) → Of P w
      → Of P (record_call w e r)
  quiet_call P e q r w p =
      subst (P w.state)
        (sym (
          attempts-record_call w e r
          ∙ ap (λ x. attempts w.trace ++ x) (quiet_attempt e r q)
          ∙ append-nil (attempts w.trace)))
        p

  -- the state before any mark of a push says nothing of pushes
  fresh-IsTruthful : (s : StableState) (ts : List (Text × Bool)) → IsFresh s ts → IsTruthful c s ts
  unfolding statuses
  fresh-IsTruthful s ts f =
      subst (λ a. Progress (statuses c s) a) (sym f.no_attempts)
        (idle (statuses c s) (
          f.ring2,
          unstarted_statuses s.extras c.charts.ring3.name (status s.started_ring3 s.confirmed_ring3)
              f.extras f.ring3,
        ))

  -- nothing is pushed and no charts are selected; nothing is pushed and the extras are the document's
  abbrev Fresh : StableState → List (Text × Bool) → Type 0
  Fresh s ts = IsFresh s ts × (s.charts_selected ≡ false) × (s.extras ≡ [])

  abbrev Chosen : StableState → List (Text × Bool) → Type 0
  Chosen s ts = IsFresh s ts × IsNamed c s

  abbrev Final : StableState → List (Text × Bool) → Type 0
  Final s ts = IsTruthful c s ts × IsInOrder c s ts

  -- a mark in the state that is not about pushes
  marked :
      (P : StableState → List (Text × Bool) → Type 0) (f : StableState → StableState)
      → ((s : StableState) (ts : List (Text × Bool)) → P s ts → P (f s) ts)
      → Keeps (Of P) (update f)
  unfolding update
  marked P f h = record { run = λ w p. h w.state (attempts w.trace) p }

  all_waiting : (ts : List ChartTarball) → All Waits (map new_push ts)
  unfolding status
  all_waiting [] = tt
  all_waiting (t ∷ ts) = (refl, all_waiting ts)

  build_call :
      (P : StableState → List (Text × Bool) → Type 0) (e : Event)
      → is_build e ≡ true
      → (r : Result Text Text) (w : Run StableState) → Of P w
      → Of P (record_call w e r)
  build_call P e g = quiet_call P e (build_quiet e g)

  build-Fresh : Keeps (Of Fresh) (build o c)
  build-Fresh =
      build-Keeps o (Of Fresh) (build_call Fresh)
        (marked Fresh (λ s. record s { goreleaser_started = true }) (λ s ts f. f))
        (marked Fresh (λ s. record s { published_images = true }) (λ s ts f. f))
        (λ version. marked Fresh (λ s. record s { version = version }) (λ s ts f. f)) c

  -- a step that keeps a fresh state, towards a state that is true to the pushes
  Fresh-Triple :
      {A : Type 0} (m : Step StableState A)
      → Keeps (Of Fresh) m
      → Triple (Of Fresh) m (λ _. Of Fresh) (Of Final)
  Fresh-Triple m k w p =
      Ends-map (λ _. Of Fresh) (λ _. Of Fresh) (Of Fresh) (Of Final) (λ a v f. f)
        (λ v (f, u, z). (fresh-IsTruthful v.state (attempts v.trace) f, inl (u, z, f.no_attempts)))
        (m w) (k.run w p)

  Chosen-Triple :
      {A : Type 0} (m : Step StableState A)
      → Keeps (Of Chosen) m
      → Triple (Of Chosen) m (λ _. Of Chosen) (Of Final)
  Chosen-Triple m k w p =
      Ends-map (λ _. Of Chosen) (λ _. Of Chosen) (Of Chosen) (Of Final) (λ a v f. f)
        (λ v (f, n). (fresh-IsTruthful v.state (attempts v.trace) f, inr n)) (m w) (k.run w p)

  -- the selection, in the state from here on
  kept_selection :
      (sel : Selection)
      → Leads
          (λ w.
            Of Fresh w
            × (map (λ x. x.name) (map new_push sel.extra) ≡ map (λ ch. ch.name) c.charts.extra))
          (update (λ s. record s {
            chart_version = sel.version;
            infra_tgz = sel.infra_tgz;
            app_tgz = sel.app_tgz;
            extras = map new_push sel.extra;
          }))
          (λ _. Of Chosen)
          (Of Final)
  unfolding update
  kept_selection sel = record {
    leads = λ w ((f, u, z), n). (
      record {
        no_attempts = f.no_attempts;
        ring2 = f.ring2;
        extras = all_waiting sel.extra;
        ring3 = f.ring3;
      },
      n,
    );
  }

  staged_selection :
      (dir : Text)
      → Leads
          (Of Fresh)
          (select_staged o c dir)
          (λ sel w.
            Of Fresh w
            × (map (λ x. x.name) (map new_push sel.extra) ≡ map (λ ch. ch.name) c.charts.extra))
          (Of Final)
  staged_selection dir = record {
    leads = λ w p.
        Ends-map
          (λ sel v.
            Of Fresh v
            × (map (λ x. x.name) (map new_push sel.extra) ≡ map (λ ch. ch.name) c.charts.extra))
          (λ sel v.
            Of Fresh v
            × (map (λ x. x.name) (map new_push sel.extra) ≡ map (λ ch. ch.name) c.charts.extra))
          (Of Fresh) (Of Final) (λ a v q. q)
          (λ v (f, u, z).
            (fresh-IsTruthful v.state (attempts v.trace) f, inl (u, z, f.no_attempts)))
          (select_staged o c dir w) ((select_staged-Named o c dir (Of Fresh)).leads w p);
  }

  accepted :
      (sel : Selection) (version : Text)
      → Keeps (Of Chosen) (do
        require (text_eq sel.version version) wrong_version
        update (λ s. record s { charts_selected = true })
        give sel)
  unfolding update
  accepted sel version =
      require-Keeps (Of Chosen) (text_eq sel.version version) wrong_version ⟫ λ _.
      marked Chosen (λ s. record s { charts_selected = true }) (λ s ts f. f) ⟫ λ _.
      kept_by_none (ok sel)

  select_charts-Leads :
      (version : Text) → Leads (Of Fresh) (select_charts o c version) (λ _. Of Chosen) (Of Final)
  unfolding select_charts is_build
  select_charts-Leads version =
      fresh_lead (perform-Keeps o (Of Fresh) is_build (build_call Fresh) stage_charts refl) ▷ λ dir.
      fresh_lead (marked Fresh (λ s. record s { stage_dir = dir }) (λ s ts f. f)) ▷ λ _.
      staged_selection dir ▷ λ sel. kept_selection sel ▷ λ _. chosen_lead (accepted sel version)
    where
      fresh_lead :
          {A : Type 0} {m : Step StableState A}
          → Keeps (Of Fresh) m
          → Leads (Of Fresh) m (λ _. Of Fresh) (Of Final)
      fresh_lead {m = m} k = record { leads = Fresh-Triple m k }

      chosen_lead :
          {A : Type 0} {m : Step StableState A}
          → Keeps (Of Chosen) m
          → Leads (Of Chosen) m (λ _. Of Chosen) (Of Final)
      chosen_lead {m = m} k = record { leads = Chosen-Triple m k }

  -- the pushes, true to the state and in the document's order
  push_all-Final :
      (sel : Selection) → Triple (Of Chosen) (push_all o c sel) (λ _. Of Final) (Of Final)
  push_all-Final sel w (f, n) =
      both (push_all o c sel w) (push_all-Triple o c sel w f) ((push_all-Named o c sel).run w n)
    where
      both :
          (x : Run StableState × Result FlowError Unit)
          → Ends (λ _. Of (IsTruthful c)) (Of (IsTruthful c)) x
          → Ends (λ _. Named o c) (Named o c) x
          → Ends (λ _. Of Final) (Of Final) x
      both (w, ok tt) t k = (t, inr k)
      both (w, err e) t k = (t, inr k)

  quiet_release :
      (P : StableState → List (Text × Bool) → Type 0) → Keeps (Of P) (release_chart_lock o)
  unfolding is_quiet
  quiet_release P = release_chart_lock-Keeps o (Of P) is_quiet (quiet_call P) (λ w b p. p) refl

  complete :
      Triple
        (Of Final)
        (update (λ s. record s { release_complete = true }))
        (λ _. Of Final)
        (Of Final)
  unfolding update statuses
  complete w p = p

  build_and_push-Triple : Triple (Of Fresh) (build_and_push o c) (λ _. Of Final) (Of Final)
  unfolding is_quiet
  build_and_push-Triple =
      let T = Of Final in
      >>=-Triple (Of Fresh) (λ _. Of Fresh) (λ _. T) T _ _ (Fresh-Triple (build o c) build-Fresh)
        (λ version.
          >>=-Triple (Of Fresh) (λ _. Of Chosen) (λ _. T) T _ _ (select_charts-Leads version).leads
            (λ sel.
              >>=-Triple (Of Chosen) (λ _. Of Chosen) (λ _. T) T _ _
                (Chosen-Triple (release_chart_lock o) (quiet_release Chosen))
                (λ _.
                  >>=-Triple (Of Chosen) (λ _. Of Chosen) (λ _. T) T _ _
                    (Chosen-Triple (ecr_login o)
                      (ecr_login-Keeps o (Of Chosen) is_quiet (quiet_call Chosen) refl refl))
                    (λ _.
                      >>=-Triple (Of Chosen) (λ _. T) (λ _. T) T _ _ (push_all-Final sel)
                        (λ _. complete)))))

  stage_removed : (b : Bool) (w : Run StableState) → Of Final w → Of Final (remove_stage_if o b w)
  unfolding remove_stage_if is_quiet
  stage_removed true w p = quiet_call Final remove_stage refl (o.answer w.trace remove_stage) w p
  stage_removed false w p = p

  reported-Ends :
      (x : Run StableState × Result FlowError Unit)
      → Ends (λ _. Of Final) (Of Final) x
      → Ends (λ _. Of Final) (Of Final) (reported o x)
  unfolding reported
  reported-Ends (w, ok tt) p = stage_removed (is_stage_done o w.state false) w p
  reported-Ends (w, err e) p = stage_removed (is_stage_done o w.state true) w p

  locked-Triple : Triple (Of Fresh) (holding_lock o (build_and_push o c)) (λ _. Of Final) (Of Final)
  unfolding is_quiet
  locked-Triple =
      holding_lock-Triple o (Of Final) is_quiet (quiet_call Final) (λ w b p. p) (Of Fresh)
        (build_and_push o c) refl
        (Fresh-Triple (acquire_chart_lock o)
          (acquire_chart_lock-Keeps o (Of Fresh) is_quiet (quiet_call Fresh) (λ w b p. p) refl))
        build_and_push-Triple

  release_tagged-Triple :
      (tag : Text) → Triple (Of Fresh) (release_tagged o c tag) (λ _. Of Final) (Of Final)
  unfolding release_tagged
  release_tagged-Triple tag =
      let T = Of Final in
      >>=-Triple (Of Fresh) (λ _. Of Fresh) (λ _. T) T (update (λ s. record s { tag = tag }))
        (λ _ w. reported o (holding_lock o (build_and_push o c) w))
        (Fresh-Triple (update (λ s. record s { tag = tag }))
          (marked Fresh (λ s. record s { tag = tag }) (λ s ts f. f)))
        (λ _ w f. reported-Ends (holding_lock o (build_and_push o c) w) (locked-Triple w f))

  release_stable-Triple : Triple (Of Fresh) (release_stable o c) (λ _. Of Final) (Of Final)
  unfolding release_stable is_quiet
  release_stable-Triple =
      let T = Of Final in
      >>=-Triple (Of Fresh) (λ _. Of Fresh) (λ _. T) T (resolve_root o)
        (λ _. stable_gates o >>= release_tagged o c)
        (Fresh-Triple (resolve_root o)
          (resolve_root-Keeps o (Of Fresh) is_quiet (quiet_call Fresh) refl))
        (λ _.
          >>=-Triple (Of Fresh) (λ _. Of Fresh) (λ _. T) T (stable_gates o) (release_tagged o c)
            (Fresh-Triple (stable_gates o)
              (stable_gates-Keeps o (Of Fresh) (λ e g. quiet_call Fresh e (gate_quiet e g))))
            release_tagged-Triple)

  ended :
      {A : Type 0} (R : Run StableState → Type 0) (x : Run StableState × Result FlowError A)
      → Ends (λ _. R) R x
      → R x.0
  ended R (w, ok a) h = h
  ended R (w, err e) h = h

-- However a stable release ends, and whatever its calls answered: the charts whose push it called
-- are the first of the publish order, ring2 before the extras before ring3, each one only after the
-- push before it had succeeded; its state says confirmed of those that succeeded, unknown of the one
-- that failed, if any, and unstarted of all others; and the extras are those of the project's
-- document in its order, unless no push was called and no charts are selected.
pub release_stable-IsTruthful :
    (o : Outside) (c : Config)
    → let w = (release_stable o c at_start).0 in
      IsTruthful c w.state (attempts w.trace) × IsInOrder c w.state (attempts w.trace)
unfolding attempts status
release_stable-IsTruthful o c = ended o c (Of (Final o c)) (release_stable o c at_start) (
    release_stable-Triple o c at_start
      (record { no_attempts = refl; ring2 = refl; extras = tt; ring3 = refl }, refl, refl))
