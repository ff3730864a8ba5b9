-- ===== src/Pipeline/Locked.antt =====
-- The chart lock of pkg/pipeline/lock.go over the flows: what is done with it held, and what is not.
pub mod Flows
pub mod Previews
use gemaal.Base.{[], ◌∷◌, Bool, true, false, not, Text, ◌≡◌, refl, All, All-append}
use gemaal.Engine.Types.{Result, ok, err}
use gemaal.Pipeline.Flow.{
  ◌>>◌, Event, Occurrence, Outside, Run, Step, FlowError, record_call, after, lift_call, perform,
  attempt, set_lock, unlock, ◌>>=◌, acquire_chart_lock, release_chart_lock, keep_result, released,
  holding_lock, take_lock, drop_lock, remove_file, goreleaser, goreleaser_manifest, make_charts_out,
  update_dependencies, package_ring2, package_pinned, write_stamp, stage_charts, ecr_password,
  registry_login, push_chart,
}
use gemaal.Pipeline.Flow.Triples.{Keeps, Ends, Ends-map, Leads, ◌▷◌}

-- The calls that change the charts directory or copy it.
unfoldable pub is_mutation : Event → Bool
is_mutation (remove_file path) = true
is_mutation (goreleaser snapshot) = true
is_mutation goreleaser_manifest = true
is_mutation make_charts_out = true
is_mutation (update_dependencies ch) = true
is_mutation (package_ring2 version) = true
is_mutation (package_pinned ch) = true
is_mutation (write_stamp stamp) = true
is_mutation stage_charts = true
is_mutation e = false

-- The registry login, and the pushes from a stage.
unfoldable pub is_upload : Event → Bool
is_upload ecr_password = true
is_upload registry_login = true
is_upload (push_chart name tgz version overwrite) = true
is_upload e = false

-- With the lock no upload, without it no mutation.
unfoldable pub is_disciplined : Bool → Event → Bool
unfolding is_mutation is_upload
is_disciplined true e = not (is_upload e)
is_disciplined false e = not (is_mutation e)

abbrev pub IsDisciplined : Occurrence → Type 0
IsDisciplined x = is_disciplined x.locked x.event ≡ true

-- the calls so far, and whether the lock is held now
pub record Holds {S : Type 0} (b : Bool) (w : Run S) : Type 0 where
  pub lock : w.locked ≡ b
  pub calls : All IsDisciplined w.trace

abbrev pub AnyLock : {S : Type 0} → Run S → Type 0
AnyLock w = All IsDisciplined w.trace

module _ {S : Type 0} (o : Outside) where
  pub record_call-Holds :
      (b : Bool) (e : Event)
      → is_disciplined b e ≡ true
      → (r : Result Text Text) (w : Run S) → Holds b w
      → Holds b (record_call w e r)
  record_call-Holds b e g r w h = record {
    lock = h.lock;
    calls =
        All-append IsDisciplined w.trace (record { event = e; answer = r; locked = w.locked } ∷ [])
          h.calls (rw h.lock g, tt);
  }

  -- the calls of the lock itself are always in order
  lock_call :
      (e : Event) (r : Result Text Text) (w : Run S)
      → is_disciplined true e ≡ true
      → is_disciplined false e ≡ true
      → AnyLock w
      → AnyLock (record_call w e r)
  lock_call e r w g h k =
      All-append IsDisciplined w.trace (record { event = e; answer = r; locked = w.locked } ∷ []) k
        (either w.locked, tt)
    where
      either : (x : Bool) → is_disciplined x e ≡ true
      either true = g
      either false = h

  unlock-Holds :
      (b : Bool) (w : Run S)
      → w.locked ≡ b
      → AnyLock w
      → Ends (λ _. Holds false) (Holds false) (unlock o b w)
  unfolding unlock attempt is_disciplined
  unlock-Holds true w e k = record {
    lock = refl;
    calls = lock_call drop_lock (o.answer w.trace drop_lock) w refl refl k;
  }
  unlock-Holds false w e k = record { lock = e; calls = k }

  pub release-Leads : Leads {S = S} AnyLock (release_chart_lock o) (λ _. Holds false) (Holds false)
  unfolding release_chart_lock
  release-Leads = record { leads = λ w k. unlock-Holds w.locked w refl k }

  taken-Ends :
      (w : Run S) (r : Result Text Text)
      → Holds false w
      → Ends
          (λ _. Holds true)
          (Holds false)
          (after (record_call w take_lock r, lift_call r) (λ _. set_lock true))
  unfolding is_disciplined
  taken-Ends w (ok t) h = record {
    lock = refl;
    calls = (record_call-Holds false take_lock refl (ok t) w h).calls;
  }
  taken-Ends w (err t) h = record_call-Holds false take_lock refl (err t) w h

  acquire-Leads : Leads {S = S} (Holds false) (acquire_chart_lock o) (λ _. Holds true) (Holds false)
  unfolding acquire_chart_lock perform
  acquire-Leads = record { leads = λ w h. taken-Ends w (o.answer w.trace take_lock) h }

  kept-Ends :
      {A : Type 0} (r : Result FlowError A) (x : Run S × Result FlowError Unit)
      → Ends (λ _. Holds false) (Holds false) x
      → Ends (λ _. Holds false) (Holds false) (keep_result x r)
  kept-Ends (ok a) (w, ok tt) p = p
  kept-Ends (ok a) (w, err e) p = p
  kept-Ends (err f) (w, ok tt) p = p
  kept-Ends (err f) (w, err e) p = p

  released-Ends :
      {A : Type 0} (x : Run S × Result FlowError A)
      → Ends (λ _. AnyLock) AnyLock x
      → Ends (λ _. Holds false) (Holds false) (released o x)
  released-Ends {A} (w, ok a) p =
      kept-Ends {A = A} (ok a) (release_chart_lock o w) (release-Leads.leads w p)
  released-Ends {A} (w, err e) p =
      kept-Ends {A = A} (err e) (release_chart_lock o w) (release-Leads.leads w p)

  -- a flow under the lock: it begins with the lock, and the lock is free when it ends
  pub holding-Leads :
      {A : Type 0} (m : Step S A)
      → Leads (Holds true) m (λ _. AnyLock) AnyLock
      → Leads (Holds false) (holding_lock o m) (λ _. Holds false) (Holds false)
  holding-Leads m body =
      acquire-Leads ▷ λ _. record { leads = λ w h. released-Ends (m w) (body.leads w h) }

  -- a step that keeps the lock as it is
  pub steady :
      {A : Type 0} (b : Bool) (m : Step S A)
      → Keeps (Holds b) m
      → Leads (Holds b) m (λ _. Holds b) AnyLock
  steady b m k = record {
    leads = λ w h.
        Ends-map (λ _. Holds b) (λ _. Holds b) (Holds b) AnyLock (λ a v x. x) (λ v x. x.calls) (m w)
          (k.run w h);
  }
