-- ===== src/Engine/Decommission.antt =====
-- pkg/engine/decommission.go: the explicit end of one tenant.
pub mod Ring
use gemaal.Base.{[], ◌∷◌, map, Bool, none, some, Text, ℤ, if◌then◌else◌}
use gemaal.Engine.Types.{
  Release, Result, ok, err, Engine, decommission as decommission_rule, Tenant, TenantState,
  explicit_end, Action, Plan, ViewError, View, explicit,
}
use gemaal.Engine.Rules.{claim_live, ring_order}
use gemaal.Engine.View.{view, find}
use gemaal.Engine.Sweep.{release_item}
use gemaal.Engine.Apply.{Trace, World, Applied, apply}

pub data DecommissionError : Type 0 where
  view_failed : ViewError → DecommissionError
  no_such_tenant : Text → Text → DecommissionError
  tenant_claimed : Tenant → Text → DecommissionError

abbrev pub end_release : ℤ → TenantState → Release → Action
end_release at s rel = record {
  item = release_item at s.tenant rel;
  rule = decommission_rule;
  reason = explicit_end;
  order = ring_order rel.name;
}

abbrev pub decommission_plan : View → TenantState → Plan
decommission_plan v s = record {
  generated_at = v.at;
  grace = ℤ.pos 0;
  namespaces = map (λ ns. ns.name) v.namespaces;
  tenants = s ∷ [];
  delete = map (end_release v.at s) s.releases;
  keep = [];
  problems = [];
}

-- what remains once the view stands
unfoldable pub decommission_in :
    Engine → World → ℤ → View → Text → Text → Bool → Trace → Result DecommissionError Applied
decommission_in e world now v namespace release confirm t = elim (find v namespace release) [
  | none ↦ err (no_such_tenant namespace release)
  | some s ↦
      if claim_live s v.at
      then err (tenant_claimed s.tenant s.claim.holder)
      else ok (apply e world now (decommission_plan v s) confirm explicit t)
]

-- `Decommission`: the view is built at `at`, the plan applied at `now`. An error makes no call.
unfoldable pub decommission :
    Engine → World → ℤ → ℤ → Text → Text → Bool → Trace → Result DecommissionError Applied
decommission e world at now namespace release confirm t = elim (view e at) [
  | err p ↦ err (view_failed p)
  | ok v ↦ decommission_in e world now v namespace release confirm t
]
