-- ===== src/Pipeline/Stable/Truthful.antt =====
-- That the stable release of pkg/pipeline/stable.go keeps its state true to the pushes it calls.
use gemaal.Base.{
  List, [], ◌∷◌, ◌++◌, map, Bool, true, false, Text, ◌≡◌, refl, sym, ap, ◌∙◌, subst, All,
  All-append,
}
use mathlib.Core.List.{append-nil, append_assoc, map-append}
use gemaal.Pipeline.{Config}
use gemaal.Pipeline.Select.{Selection}
use gemaal.Pipeline.Flow.{Outside, ◌>>◌}
use gemaal.Pipeline.Flow.Triples.{Triple, >>=-Triple}
use gemaal.Pipeline.Stable.{
  StableState, ExtraPush, push_ring2, push_ring3, push_extra, push_extras_from, push_extras,
  push_all,
}
use gemaal.Pipeline.Stable.Pushed.{
  Status, unstarted, unknown, confirmed, status, extra_status, statuses, Progress, idle, failed,
  pushed, IsTruthful, IsFresh, Waits, IsDone, Of, tracked_push-Triple,
}

-- the charts of a list of extras, each pushed
abbrev succeeded : List ExtraPush → List (Text × Bool)
succeeded xs = map (λ x. (x.name, true)) xs

pub unstarted_statuses :
    (xs : List ExtraPush) (name : Text) (s : Status)
    → All Waits xs
    → s ≡ unstarted
    → All (λ (x : Text × Status). x.1 ≡ unstarted) (map extra_status xs ++ ((name, s) ∷ []))
unfolding extra_status
unstarted_statuses [] name s h k = (k, tt)
unstarted_statuses (x ∷ xs) name s (p, h) k = (p, unstarted_statuses xs name s h k)

confirmed_statuses :
    (xs : List ExtraPush) (ys : List (Text × Status)) (ts : List (Text × Bool))
    → All IsDone xs
    → Progress ys ts
    → Progress (map extra_status xs ++ ys) (succeeded xs ++ ts)
unfolding extra_status
confirmed_statuses [] ys ts h k = k
confirmed_statuses (x ∷ xs) ys ts (p, h) k =
    subst
      (λ s.
        Progress ((x.name, s) ∷ (map extra_status xs ++ ys))
          ((x.name, true) ∷ (succeeded xs ++ ts)))
      (sym p)
      (pushed x.name (map extra_status xs ++ ys) (succeeded xs ++ ts)
        (confirmed_statuses xs ys ts h k))

was_unstarted : (a b : Bool) → status a b ≡ unstarted → (a ≡ false) × (b ≡ false)
unfolding status
was_unstarted true true h = absurd (cc h)
was_unstarted true false h = absurd (cc h)
was_unstarted false true h = absurd (cc h)
was_unstarted false false h = (refl, refl)

now_unknown : (a b : Bool) → status a b ≡ unstarted → status true b ≡ unknown
unfolding status
now_unknown a b h = rw (was_unstarted a b h).1 refl

module _ (o : Outside) (c : Config) (sel : Selection) where
  -- ring2 is pushed, and of the extras the first ones; nothing else was called
  record IsUnderWay (front xs : List ExtraPush) (s : StableState) (ts : List (Text × Bool))
      : Type 0 where
    ring2 : status s.started_ring2 s.confirmed_ring2 ≡ confirmed
    extras : s.extras ≡ front ++ xs
    done : All IsDone front
    waiting : All Waits xs
    ring3 : status s.started_ring3 s.confirmed_ring3 ≡ unstarted
    called : ts ≡ (c.charts.ring2.name, true) ∷ succeeded front

  -- a state with ring2 and some extras confirmed, and something else behind them
  under_way-IsTruthful :
      (s : StableState) (ts more : List (Text × Bool)) (front : List ExtraPush)
      (ys : List (Text × Status))
      → status s.started_ring2 s.confirmed_ring2 ≡ confirmed
      → map extra_status s.extras
          ++ ((c.charts.ring3.name, status s.started_ring3 s.confirmed_ring3) ∷ [])
        ≡ map extra_status front ++ ys
      → All IsDone front
      → ts ≡ (c.charts.ring2.name, true) ∷ (succeeded front ++ more)
      → Progress ys more
      → IsTruthful c s ts
  unfolding statuses
  under_way-IsTruthful s ts more front ys r2 rest done called k =
      let body = confirmed_statuses front ys more done k in
      let full =
        pushed c.charts.ring2.name (map extra_status front ++ ys) (succeeded front ++ more) body in
      subst (λ a. Progress (statuses c s) a) (sym called)
        (subst (λ a. Progress a ((c.charts.ring2.name, true) ∷ (succeeded front ++ more)))
          (sym (λ i. (c.charts.ring2.name, r2 i) ∷ rest i)) full)

  ring2_failed :
      (s : StableState) (ts : List (Text × Bool))
      → IsFresh s ts
      → IsTruthful c (record s { started_ring2 = true }) (ts ++ ((c.charts.ring2.name, false) ∷ []))
  unfolding statuses
  ring2_failed s ts f =
      let r3 = status s.started_ring3 s.confirmed_ring3 in
      let rest = map extra_status s.extras ++ ((c.charts.ring3.name, r3) ∷ []) in
      let waiting = unstarted_statuses s.extras c.charts.ring3.name r3 f.extras f.ring3 in
      let asked : ts ++ ((c.charts.ring2.name, false) ∷ []) ≡ (c.charts.ring2.name, false) ∷ [] =
        ap (λ x. x ++ ((c.charts.ring2.name, false) ∷ [])) f.no_attempts in
      subst (λ a. Progress ((c.charts.ring2.name, status true s.confirmed_ring2) ∷ rest) a)
        (sym asked)
        (subst (λ a. Progress ((c.charts.ring2.name, a) ∷ rest) ((c.charts.ring2.name, false) ∷ []))
          (sym (now_unknown s.started_ring2 s.confirmed_ring2 f.ring2))
          (failed c.charts.ring2.name rest waiting))

  push_ring2-Triple :
      Triple
        (Of IsFresh)
        (push_ring2 o c sel)
        (λ _. Of (λ s. IsUnderWay [] s.extras s))
        (Of (IsTruthful c))
  unfolding push_ring2 status
  push_ring2-Triple =
      tracked_push-Triple o IsFresh (λ s. IsUnderWay [] s.extras s) (IsTruthful c)
        (λ s. record s { started_ring2 = true }) (λ s. record s { confirmed_ring2 = true })
        c.charts.ring2.name sel.infra_tgz sel.version false
        (λ s ts f. record {
          ring2 = refl;
          extras = refl;
          done = tt;
          waiting = f.extras;
          ring3 = f.ring3;
          called = ap (λ x. x ++ ((c.charts.ring2.name, true) ∷ [])) f.no_attempts;
        })
        ring2_failed

  -- the charts that a chart is pushed behind, with the push
  called_next :
      (front : List ExtraPush) (ts : List (Text × Bool)) (name : Text) (b : Bool)
      → ts ≡ (c.charts.ring2.name, true) ∷ succeeded front
      → ts ++ ((name, b) ∷ []) ≡ (c.charts.ring2.name, true) ∷ (succeeded front ++ ((name, b) ∷ []))
  called_next front ts name b h = ap (λ x. x ++ ((name, b) ∷ [])) h

  extra_rest :
      (front xs : List ExtraPush) (x : ExtraPush) (y : Text × Status)
      → map extra_status (front ++ (x ∷ xs)) ++ (y ∷ [])
        ≡ map extra_status front ++ (extra_status x ∷ (map extra_status xs ++ (y ∷ [])))
  extra_rest front xs x y =
      ap (λ z. z ++ (y ∷ [])) (map-append extra_status front (x ∷ xs))
      ∙ append_assoc (map extra_status front) (extra_status x ∷ map extra_status xs) (y ∷ [])

  extra_failed :
      (front xs : List ExtraPush) (x : ExtraPush) (s : StableState) (ts : List (Text × Bool))
      → IsUnderWay front (x ∷ xs) s ts
      → IsTruthful c
          (record s { extras = front ++ (record x { started = true } ∷ xs) })
          (ts ++ ((x.name, false) ∷ []))
  unfolding extra_status
  extra_failed front xs x s ts u =
      let r3 : Text × Status = (c.charts.ring3.name, status s.started_ring3 s.confirmed_ring3) in
      under_way-IsTruthful (record s { extras = front ++ (record x { started = true } ∷ xs) })
        (ts ++ ((x.name, false) ∷ [])) ((x.name, false) ∷ []) front
        ((x.name, unknown) ∷ (map extra_status xs ++ (r3 ∷ []))) u.ring2
        (extra_rest front xs (record x { started = true }) r3
          ∙ ap (λ a. map extra_status front ++ ((x.name, a) ∷ (map extra_status xs ++ (r3 ∷ []))))
              (now_unknown x.started x.confirmed u.waiting.0))
        u.done (called_next front ts x.name false u.called)
        (failed x.name (map extra_status xs ++ (r3 ∷ [])) (
          unstarted_statuses xs c.charts.ring3.name (status s.started_ring3 s.confirmed_ring3)
            u.waiting.1 u.ring3))

  extra_pushed :
      (front xs : List ExtraPush) (x : ExtraPush) (s : StableState) (ts : List (Text × Bool))
      → IsUnderWay front (x ∷ xs) s ts
      → IsUnderWay
          (front ++ (record x { started = true; confirmed = true } ∷ []))
          xs
          (record s { extras = front ++ (record x { started = true; confirmed = true } ∷ xs) })
          (ts ++ ((x.name, true) ∷ []))
  unfolding status
  extra_pushed front xs x s ts u =
      let y = record x { started = true; confirmed = true } in
      record {
        ring2 = u.ring2;
        extras = sym (append_assoc front (y ∷ []) xs);
        done = All-append IsDone front (y ∷ []) u.done (refl, tt);
        waiting = u.waiting.1;
        ring3 = u.ring3;
        called =
            called_next front ts x.name true u.called
            ∙ ap (λ a. (c.charts.ring2.name, true) ∷ a)
                (sym (map-append (λ x. (x.name, true)) front (y ∷ [])));
      }

  -- all extras are pushed
  AllPushed : StableState → List (Text × Bool) → Type 0
  AllPushed s ts = (front : List ExtraPush) × IsUnderWay front [] s ts

  push_extras_from-Triple :
      (front xs : List ExtraPush)
      → Triple
          (Of (IsUnderWay front xs))
          (push_extras_from o sel front xs)
          (λ _. Of AllPushed)
          (Of (IsTruthful c))
  unfolding push_extra AllPushed
  push_extras_from-Triple front [] w u = (front, u)
  push_extras_from-Triple front (x ∷ xs) w u =
      let y = record x { started = true; confirmed = true } in
      >>=-Triple (Of (IsUnderWay front (x ∷ xs))) (λ _. Of (IsUnderWay (front ++ (y ∷ [])) xs))
        (λ _. Of AllPushed) (Of (IsTruthful c)) (push_extra o sel front x xs)
        (λ _. push_extras_from o sel (front ++ (y ∷ [])) xs)
        (tracked_push-Triple o (IsUnderWay front (x ∷ xs)) (IsUnderWay (front ++ (y ∷ [])) xs)
          (IsTruthful c) (λ s. record s { extras = front ++ (record x { started = true } ∷ xs) })
          (λ s. record s { extras = front ++ (y ∷ xs) }) x.name x.tgz sel.version false
          (extra_pushed front xs x) (extra_failed front xs x))
        (λ _. push_extras_from-Triple (front ++ (y ∷ [])) xs) w u

  ring3_called :
      (b : Bool) (t : Status) (s z : StableState) (ts : List (Text × Bool)) (front : List ExtraPush)
      → IsUnderWay front [] s ts
      → status z.started_ring2 z.confirmed_ring2 ≡ confirmed
      → z.extras ≡ s.extras
      → status z.started_ring3 z.confirmed_ring3 ≡ t
      → Progress ((c.charts.ring3.name, t) ∷ []) ((c.charts.ring3.name, b) ∷ [])
      → IsTruthful c z (ts ++ ((c.charts.ring3.name, b) ∷ []))
  ring3_called b t s z ts front u r2 same r3 k =
      under_way-IsTruthful z (ts ++ ((c.charts.ring3.name, b) ∷ [])) ((c.charts.ring3.name, b) ∷ [])
        front ((c.charts.ring3.name, t) ∷ []) r2
        (λ i.
          map extra_status ((same ∙ u.extras ∙ append-nil front) i)
          ++ ((c.charts.ring3.name, r3 i) ∷ []))
        u.done (called_next front ts c.charts.ring3.name b u.called) k

  push_ring3-Triple :
      Triple (Of AllPushed) (push_ring3 o c sel) (λ _. Of (IsTruthful c)) (Of (IsTruthful c))
  unfolding push_ring3 AllPushed status
  push_ring3-Triple =
      tracked_push-Triple o AllPushed (IsTruthful c) (IsTruthful c)
        (λ s. record s { started_ring3 = true }) (λ s. record s { confirmed_ring3 = true })
        c.charts.ring3.name sel.app_tgz sel.version false
        (λ s ts (front, u).
          ring3_called true confirmed s (record s { started_ring3 = true; confirmed_ring3 = true })
            ts front u u.ring2 refl refl (pushed c.charts.ring3.name [] [] (idle [] tt)))
        (λ s ts (front, u).
          ring3_called false unknown s (record s { started_ring3 = true }) ts front u u.ring2 refl
            (now_unknown s.started_ring3 s.confirmed_ring3 u.ring3)
            (failed c.charts.ring3.name [] tt))

  pub push_all-Triple :
      Triple (Of IsFresh) (push_all o c sel) (λ _. Of (IsTruthful c)) (Of (IsTruthful c))
  unfolding push_all
  push_all-Triple =
      >>=-Triple (Of IsFresh) (λ _. Of (λ s. IsUnderWay [] s.extras s)) (λ _. Of (IsTruthful c))
        (Of (IsTruthful c)) (push_ring2 o c sel) (λ _. push_extras o sel >> push_ring3 o c sel)
        push_ring2-Triple
        (λ _.
          >>=-Triple (Of (λ s. IsUnderWay [] s.extras s)) (λ _. Of AllPushed)
            (λ _. Of (IsTruthful c)) (Of (IsTruthful c)) (push_extras o sel)
            (λ _. push_ring3 o c sel) (λ w u. push_extras_from-Triple [] w.state.extras w u)
            (λ _. push_ring3-Triple))
