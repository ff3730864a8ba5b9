-- ===== src/Pipeline/Stable/Pushed.antt =====
-- The pushes of the stable release in pkg/pipeline/stable.go against what its state records.
use gemaal.Base.{
  List, [], ◌∷◌, ◌++◌, map, Bool, true, false, Text, ◌≡◌, refl, sym, ap, ◌∙◌, subst, inl, inr, ◌⊎◌,
  All,
}
use mathlib.Core.List.{append-nil, append_assoc}
use gemaal.Engine.Types.{Result, ok, err, Result-cases}
use gemaal.Pipeline.{Config}
use gemaal.Pipeline.Flow.{Event, Occurrence, Outside, Run, record_call, perform, update, push_chart}
use gemaal.Pipeline.Flow.Triples.{Ends, Ends-map, Triple}
use gemaal.Pipeline.Stable.{StableState, ExtraPush, tracked_push}

-- What the state says of a chart's push; a push that is confirmed has been started.
pub data Status : Type 0 where
  unstarted unknown confirmed inconsistent : Status

unfoldable pub status : Bool → Bool → Status
status true true = confirmed
status false true = inconsistent
status true false = unknown
status false false = unstarted

unfoldable pub extra_status : ExtraPush → Text × Status
unfolding status
extra_status x = (x.name, status x.started x.confirmed)

-- The charts in publish order, with what the state says of them.
unfoldable pub statuses : Config → StableState → List (Text × Status)
unfolding status
statuses c s =
    (c.charts.ring2.name, status s.started_ring2 s.confirmed_ring2)
    ∷ (map extra_status s.extras
        ++ ((c.charts.ring3.name, status s.started_ring3 s.confirmed_ring3) ∷ []))

is_ok : Result Text Text → Bool
is_ok (ok t) = true
is_ok (err e) = false

unfoldable pub attempt_of : Event → Result Text Text → List (Text × Bool)
unfolding is_ok
attempt_of (push_chart name tgz version overwrite) r = (name, is_ok r) ∷ []
attempt_of e r = []

-- The charts whose push was called, in the order of the calls, and whether it succeeded.
unfoldable pub attempts : List Occurrence → List (Text × Bool)
unfolding attempt_of
attempts [] = []
attempts (x ∷ xs) = attempt_of x.event x.answer ++ attempts xs

-- The pushes called are those of the charts in order, up to the first that failed: before it every
-- chart is confirmed, it is unknown itself, and behind it none was started.
pub data Progress : List (Text × Status) → List (Text × Bool) → Type 0 where
  idle : (xs : List (Text × Status)) → All (λ x. x.1 ≡ unstarted) xs → Progress xs []
  failed :
      (name : Text) (xs : List (Text × Status))
      → All (λ x. x.1 ≡ unstarted) xs
      → Progress ((name, unknown) ∷ xs) ((name, false) ∷ [])
  pushed :
      (name : Text) (xs : List (Text × Status)) (ts : List (Text × Bool))
      → Progress xs ts
      → Progress ((name, confirmed) ∷ xs) ((name, true) ∷ ts)

abbrev pub IsTruthful : Config → StableState → List (Text × Bool) → Type 0
IsTruthful c s ts = Progress (statuses c s) ts

-- the names of the extras in the state are those of the project's document, in its order
abbrev pub IsNamed : Config → StableState → Type 0
IsNamed c s = map (λ x. x.name) s.extras ≡ map (λ ch. ch.name) c.charts.extra

-- The publish order of the state is that of the project's document, once the charts are selected or
-- a push is called.
abbrev pub IsInOrder : Config → StableState → List (Text × Bool) → Type 0
IsInOrder c s ts = ((s.charts_selected ≡ false) × (s.extras ≡ []) × (ts ≡ [])) ⊎ IsNamed c s

abbrev pub Waits : ExtraPush → Type 0
Waits x = status x.started x.confirmed ≡ unstarted

abbrev pub IsDone : ExtraPush → Type 0
IsDone x = status x.started x.confirmed ≡ confirmed

attempts-append : (xs ys : List Occurrence) → attempts (xs ++ ys) ≡ attempts xs ++ attempts ys
unfolding attempts
attempts-append [] ys = refl
attempts-append (x ∷ xs) ys = simp (attempts-append xs ys, append_assoc)

-- no push so far, by the marks of the charts
pub record NothingPushed (r2 : Status) (xs : List ExtraPush) (r3 : Status) (ts : List (Text × Bool))
    : Type 0 where
  pub no_attempts : ts ≡ []
  pub ring2 : r2 ≡ unstarted
  pub extras : All Waits xs
  pub ring3 : r3 ≡ unstarted

abbrev pub IsFresh : StableState → List (Text × Bool) → Type 0
IsFresh s ts =
    NothingPushed (status s.started_ring2 s.confirmed_ring2) s.extras
      (status s.started_ring3 s.confirmed_ring3) ts

-- a condition on the state of a run and on the pushes it has called
abbrev pub Of : (StableState → List (Text × Bool) → Type 0) → Run StableState → Type 0
Of P w = P w.state (attempts w.trace)

pub attempts-record_call :
    (w : Run StableState) (e : Event) (r : Result Text Text)
    → attempts (record_call w e r).trace ≡ attempts w.trace ++ attempt_of e r
unfolding attempts
attempts-record_call w e r =
    attempts-append w.trace (record { event = e; answer = r; locked = w.locked } ∷ [])
    ∙ ap (λ x. attempts w.trace ++ x) (append-nil (attempt_of e r))

pushed_ok :
    (name tgz version : Text) (overwrite : Bool) (t : Text)
    → attempt_of (push_chart name tgz version overwrite) (ok t) ≡ (name, true) ∷ []
unfolding attempt_of
pushed_ok name tgz version overwrite t = refl

pushed_err :
    (name tgz version : Text) (overwrite : Bool) (t : Text)
    → attempt_of (push_chart name tgz version overwrite) (err t) ≡ (name, false) ∷ []
unfolding attempt_of
pushed_err name tgz version overwrite t = refl

-- Where a push between its marks leaves the run.
pub record IsPushed (w : Run StableState) (mark : StableState → StableState) (name : Text)
    (b : Bool) (v : Run StableState) : Type 0 where
  pub state : v.state ≡ mark w.state
  pub called : attempts v.trace ≡ attempts w.trace ++ ((name, b) ∷ [])

pub tracked_push-IsPushed :
    (o : Outside) (before behind : StableState → StableState) (name tgz version : Text)
    (overwrite : Bool) (w : Run StableState)
    → Ends
        (λ _. IsPushed w (λ s. behind (before s)) name true)
        (IsPushed w before name false)
        (tracked_push o before (push_chart name tgz version overwrite) behind w)
unfolding update perform
tracked_push-IsPushed o before behind name tgz version overwrite w =
    let e = push_chart name tgz version overwrite in
    elim (Result-cases (o.answer w.trace e)) [
      | inl (t, q) ↦ rw q (record {
        state = refl;
        called =
            attempts-record_call w e (ok t)
            ∙ ap (λ x. attempts w.trace ++ x) (pushed_ok name tgz version overwrite t);
      })
      | inr (t, q) ↦ rw q (record {
        state = refl;
        called =
            attempts-record_call w e (err t)
            ∙ ap (λ x. attempts w.trace ++ x) (pushed_err name tgz version overwrite t);
      })
    ]

pub IsPushed-carry :
    (P : StableState → List (Text × Bool) → Type 0) (w v : Run StableState)
    (mark : StableState → StableState) (name : Text) (b : Bool)
    → IsPushed w mark name b v
    → P (mark w.state) (attempts w.trace ++ ((name, b) ∷ []))
    → Of P v
IsPushed-carry P w v mark name b h p =
    subst (λ s. P s (attempts v.trace)) (sym h.state)
      (subst (λ ts. P (mark w.state) ts) (sym h.called) p)

-- a push between its marks, from what holds at the one mark and at both
pub tracked_push-Triple :
    (o : Outside) (P Q R : StableState → List (Text × Bool) → Type 0)
    (before behind : StableState → StableState) (name tgz version : Text) (overwrite : Bool)
    → ((s : StableState) (ts : List (Text × Bool))
        → P s ts
        → Q (behind (before s)) (ts ++ ((name, true) ∷ [])))
    → ((s : StableState) (ts : List (Text × Bool))
        → P s ts
        → R (before s) (ts ++ ((name, false) ∷ [])))
    → Triple
        (Of P)
        (tracked_push o before (push_chart name tgz version overwrite) behind)
        (λ _. Of Q)
        (Of R)
tracked_push-Triple o P Q R before behind name tgz version overwrite good bad w p =
    Ends-map (λ _. IsPushed w (λ s. behind (before s)) name true) (λ _. Of Q)
      (IsPushed w before name false) (Of R)
      (λ _ v h.
        IsPushed-carry Q w v (λ s. behind (before s)) name true h
          (good w.state (attempts w.trace) p))
      (λ v h. IsPushed-carry R w v before name false h (bad w.state (attempts w.trace) p))
      (tracked_push o before (push_chart name tgz version overwrite) behind w)
      (tracked_push-IsPushed o before behind name tgz version overwrite w)
