-- ===== src/Service/DryRun.antt =====
-- The server's dry-run setting of pkg/service/service.go, with the Engine as the Housekeeper.
use gemaal.Base.{
  ◌||◌, Bool, true, false, some, Text, ℤ, ◌≡◌, refl, ◌∙◌, arith, inl, inr, Bool-cases, Option-cases,
}
use gemaal.Engine.Types.{Result-cases, Engine, rpc, explicit}
use gemaal.Engine.Rules.{claim_live}
use gemaal.Engine.View.{view, find}
use gemaal.Engine.Apply.{Trace, World, Applied, apply}
use gemaal.Engine.Apply.Gates.{apply_dry_run}
use gemaal.Engine.Decommission.{decommission_plan, decommission_in, decommission}
use gemaal.Engine.History.{History}
use gemaal.Service.{Deps, permit}
use gemaal.Service.Sweeps.{
  engine_keeper, SweepRequest, sweep_plan, after_sweep, sweep, DecommissionRequest,
  decommission_task, after_decommission, decommission_handler,
}

after_sweep-trace : (dry : Bool) (a : Applied) (h : History) → (after_sweep dry a h).trace ≡ a.trace
unfolding after_sweep
after_sweep-trace dry a h = ground arith

module _ (e : Engine) (world : World) (at now : ℤ) where
  decommission_dry :
      (namespace release : Text) (h : History) (t : Trace)
      → (after_decommission true (decommission e world at now namespace release false t) h t).trace
        ≡ t
  unfolding decommission decommission_in after_decommission
  decommission_dry namespace release h t = elim (Result-cases (view e at)) [
    | inr (p, q) ↦ rw (q, decommission, after_decommission) refl
    | inl (v, q) ↦ elim (Option-cases (find v namespace release)) [
      | inl k ↦ rw (q, decommission, decommission_in, k) refl
      | inr (s, k) ↦ elim (Bool-cases (claim_live s v.at)) [
        | inl c ↦ rw (q, decommission, decommission_in, k, c) refl
        | inr c ↦
            let a = apply e world now (decommission_plan v s) false explicit t in
            rw (q, decommission, decommission_in, k, c)
              (ground (arith, (apply_dry_run e world now (decommission_plan v s) explicit t).0))
      ]
    ]
  ]

-- A Service over this Engine.
abbrev pub over_engine : Deps → Engine → World → ℤ → Deps
over_engine d e world at = record d { keeper = engine_keeper e world at d.now }

module _ (d : Deps) (e : Engine) (world : World) (at : ℤ) (server : Bool)
    (setting : d.config.dry_run ≡ some server) where
  abbrev deps : Deps
  deps = over_engine d e world at

  sweep_dry :
      (r : SweepRequest) (h : History) (t : Trace)
      → server || r.dry_run ≡ true
      → (sweep deps r h t).trace ≡ t
  unfolding sweep engine_keeper
  sweep_dry r h t dry = elim (Result-cases (sweep_plan deps r)) [
    | inr (c, q) ↦ rw (q, sweep) refl
    | inl (p, q) ↦
        rw (q, setting, dry, sweep)
          (after_sweep-trace true (apply e world d.now p false rpc t) h
            ∙ (apply_dry_run e world d.now p rpc t).0)
  ]

  end_dry :
      (r : DecommissionRequest) (h : History) (t : Trace)
      → server || r.dry_run ≡ true
      → (decommission_handler deps r h t).trace ≡ t
  unfolding decommission_handler decommission_task engine_keeper
  end_dry r h t dry = elim (Result-cases (permit deps r.token r.namespace r.release)) [
    | inr (c, q) ↦ rw (q, decommission_handler, decommission_task) refl
    | inl (u, q) ↦
        rw (q, setting, dry, decommission_handler, decommission_task)
          (decommission_dry e world at d.now r.namespace r.release h t)
  ]

  -- Whoever asks and whatever the clients answer: where the server is set to dry-run, or the
  -- requests ask for it, neither Sweep nor Decommission makes a call.
  pub dry_run_wins :
      (swept : SweepRequest) (ended : DecommissionRequest) (h : History) (t : Trace)
      → server || swept.dry_run ≡ true
      → server || ended.dry_run ≡ true
      → ((sweep deps swept h t).trace ≡ t) × ((decommission_handler deps ended h t).trace ≡ t)
  dry_run_wins swept ended h t p q = (sweep_dry swept h t p, end_dry ended h t q)
