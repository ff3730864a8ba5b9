-- ===== src/Service/Access.antt =====
-- The authorization of pkg/service/authz.go, followed through the handlers of service.go.
use gemaal.Base.{Bool, true, false, Option, Text, ℤ, ◌≡◌, inl, inr}
use gemaal.Authn.{Caller}
use gemaal.Engine.Types.{Result, ok, err, Result-cases}
use gemaal.Engine.Apply.{Trace}
use gemaal.Engine.History.{History}
use gemaal.Service.{
  Deps, Code, permission_denied, is_admin, owns, authorize_hold, authorize_sweep,
  authenticate_request, valid_name, permit,
}
use gemaal.Service.Hold.{HoldRequest, hold_target, hold, checkout, extend}
use gemaal.Service.Sweeps.{
  SweepRequest, sweep_plan, sweep, DecommissionRequest, decommission_task, decommission_handler,
}

-- Whoever this token stands for, if anybody, is neither an admin nor the namespace's owner.
abbrev pub IsStranger : Deps → Text → Text → Type 0
IsStranger d token namespace =
    (caller : Caller)
    → authenticate_request d token ≡ ok caller
    → (is_admin d caller ≡ false) × (owns d caller namespace ≡ false)

abbrev Fails : {A : Type 0} → Result Code A → Type 0
Fails r = (c : Code) × (r ≡ err c)

module _ (d : Deps) (token namespace : Text) (stranger : IsStranger d token namespace) where
  permit-Fails : (release : Text) → Fails (permit d token namespace release)
  unfolding permit authorize_hold
  permit-Fails release = elim (Result-cases (authenticate_request d token)) [
    | inr (c, e) ↦ (c, rw e)
    | inl (caller, e) ↦ elim (Result-cases (valid_name namespace)) [
      | inr (c, q) ↦ (c, rw (e, q))
      | inl (_, q) ↦ elim (Result-cases (valid_name release)) [
        | inr (c, k) ↦ (c, rw (e, q, k))
        | inl (_, k) ↦
            (permission_denied, rw (e, q, k, (stranger caller e).0, (stranger caller e).1))
      ]
    ]
  ]

  sweep_plan-Fails :
      (n : Text) (dry : Bool)
      → Fails (sweep_plan d (record { token = token; namespace = n; dry_run = dry }))
  unfolding sweep_plan authorize_sweep
  sweep_plan-Fails n dry = elim (Result-cases (authenticate_request d token)) [
    | inr (c, e) ↦ (c, rw e)
    | inl (caller, e) ↦ (permission_denied, rw (e, (stranger caller e).0))
  ]

  hold-Fails :
      (forward : Bool) (release : Text) (duration : Option ℤ) (t : Trace)
      → let h =
          hold d forward
            (record {
              token = token;
              namespace = namespace;
              release = release;
              duration = duration;
            })
            t in
        Fails h.reply × (h.trace ≡ t)
  unfolding hold hold_target
  hold-Fails forward release duration t = let (c, e) = permit-Fails release in ((c, rw e), rw e)

  -- A token that stands for nobody, or for a caller who is no admin and does not own the
  -- namespace, changes nothing: Checkout, Extend and Decommission of any tenant there, and any
  -- Sweep, fail, make no call, whatever the Housekeeper would do, and leave the history alone.
  pub stranger_changes_nothing :
      (release other : Text) (duration : Option ℤ) (dry : Bool) (h : History) (t : Trace)
      → let held : HoldRequest = record {
        token = token;
        namespace = namespace;
        release = release;
        duration = duration;
      } in
        let ended : DecommissionRequest = record {
          token = token;
          namespace = namespace;
          release = release;
          dry_run = dry;
        } in
        let swept : SweepRequest = record { token = token; namespace = other; dry_run = dry } in
        (Fails (checkout d held t).reply × ((checkout d held t).trace ≡ t))
        × (Fails (extend d held t).reply × ((extend d held t).trace ≡ t))
        × (Fails (decommission_handler d ended h t).reply
            × ((decommission_handler d ended h t).trace ≡ t)
            × ((decommission_handler d ended h t).history ≡ h))
        × (Fails (sweep d swept h t).reply
            × ((sweep d swept h t).trace ≡ t)
            × ((sweep d swept h t).history ≡ h))
  unfolding checkout extend decommission_handler decommission_task sweep
  stranger_changes_nothing release other duration dry h t =
      let ((c, e), trace) = hold-Fails false release duration t in
      let ((c', e'), trace') = hold-Fails true release duration t in
      let (k, q) = permit-Fails release in
      let (j, p) = sweep_plan-Fails other dry in
      (((c, rw e), trace), ((c', rw e'), trace'), ((k, rw q), rw q, rw q), ((j, rw p), rw p, rw p))
