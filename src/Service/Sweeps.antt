-- ===== src/Service/Sweeps.antt =====
-- The Sweep and Decommission handlers of pkg/service/service.go, and the Housekeeper that the
-- Engine is.
use gemaal.Base.{
  not, ◌||◌, ◌&&◌, List, [], map, Bool, Option, none, some, Text, ℤ, if◌then◌else◌, is_empty,
  is_some,
}
use gemaal.Engine.Types.{Result, ok, err, ◌>>=◌, Engine, ActionResult, ExecuteError, Plan, rpc}
use gemaal.Engine.View.{view}
use gemaal.Engine.Sweep.{plan}
use gemaal.Engine.Apply.{Trace, World, Applied, apply}
use gemaal.Engine.Stamp.{stamp_keep_until}
use gemaal.Engine.Decommission.{
  DecommissionError, view_failed, no_such_tenant, tenant_claimed, decommission,
}
use gemaal.Engine.History.{History, add}
use gemaal.Service.{
  Housekeeper, Deps, Code, not_found, failed_precondition, internal, panicked, permit,
  authorize_sweep, authenticate_request, or_internal, PlannedAction, planned_action,
}

-- The Engine as a Housekeeper: it builds its views at `at`, and applies its plans at `now`.
unfoldable pub engine_keeper : Engine → World → ℤ → ℤ → Housekeeper
engine_keeper e world at now = record {
  view = view e at;
  plan = plan e at;
  apply = apply e world now;
  stamp_keep_until = stamp_keep_until e world;
  decommission = decommission e world at now;
}

-- What a sweeping handler leaves: its reply, the history, the calls made.
pub record Swept : Type 0 where
  pub reply : Result Code (Bool × List (PlannedAction × Bool × Option ExecuteError))
  pub history : History
  pub trace : Trace

abbrev pub stopped : Code → History → Trace → Swept
stopped c h t = record { reply = err c; history = h; trace = t }

abbrev sweep_result : ActionResult → PlannedAction × Bool × Option ExecuteError
sweep_result r = (planned_action r.action, r.executed, r.error)

abbrev pub report_results : Bool → Applied → History → Swept
report_results dry a h = record {
  reply = ok (dry, map sweep_result a.swept.results);
  history = h;
  trace = a.trace;
}

-- an error with no result is a refusal
unfoldable pub after_sweep : Bool → Applied → History → Swept
after_sweep dry a h =
    if is_some a.error && is_empty a.swept.results
    then stopped internal (add a.swept h) a.trace
    else report_results dry a (add a.swept h)

pub record SweepRequest : Type 0 where
  pub token : Text
  pub namespace : Text
  pub dry_run : Bool

-- the plan of an admin's Sweep
unfoldable pub sweep_plan : Deps → SweepRequest → Result Code Plan
sweep_plan d r = do
  caller ← authenticate_request d r.token
  _ ← authorize_sweep d caller
  or_internal (d.keeper.plan (record { namespace = r.namespace; release = [] }))

-- the server's dry-run setting, which wins; its pointer is followed
abbrev is_dry : Option Bool → Bool → Result Code Bool
is_dry none asked = err panicked
is_dry (some server) asked = ok (server || asked)

abbrev pub sweep_task : Deps → SweepRequest → Result Code (Plan × Bool)
sweep_task d r = do p ← sweep_plan d r; dry ← is_dry d.config.dry_run r.dry_run; ok (p, dry)

abbrev run_sweep : Deps → Result Code (Plan × Bool) → History → Trace → Swept
run_sweep d (err c) h t = stopped c h t
run_sweep d (ok (p, dry)) h t = after_sweep dry (d.keeper.apply p (not dry) rpc t) h

unfoldable pub sweep : Deps → SweepRequest → History → Trace → Swept
sweep d r h t = run_sweep d (sweep_task d r) h t

pub record DecommissionRequest : Type 0 where
  pub token : Text
  pub namespace : Text
  pub release : Text
  pub dry_run : Bool

-- the checks before the Housekeeper is asked
unfoldable pub decommission_task : Deps → DecommissionRequest → Result Code Bool
decommission_task d r = do
  _ ← permit d r.token r.namespace r.release
  is_dry d.config.dry_run r.dry_run

abbrev code_of : DecommissionError → Code
code_of (view_failed e) = internal
code_of (no_such_tenant namespace release) = not_found
code_of (tenant_claimed t holder) = failed_precondition

-- an error of Apply comes with a record, which is added first
unfoldable pub after_decommission :
    Bool → Result DecommissionError Applied → History → Trace → Swept
after_decommission dry (err e) h t = stopped (code_of e) h t
after_decommission dry (ok a) h t =
    if is_some a.error
    then stopped internal (add a.swept h) a.trace
    else report_results dry a (add a.swept h)

abbrev run_decommission : Deps → DecommissionRequest → Result Code Bool → History → Trace → Swept
run_decommission d r (err c) h t = stopped c h t
run_decommission d r (ok dry) h t =
    after_decommission dry (d.keeper.decommission r.namespace r.release (not dry) t) h t

unfoldable pub decommission_handler : Deps → DecommissionRequest → History → Trace → Swept
decommission_handler d r h t = run_decommission d r (decommission_task d r) h t
