-- ===== src/Tests/Sweeping.antt =====
-- The theorems on views, plans and their application at the estate of the tests.
use gemaal.Base.{
  List, [], ◌∷◌, ◌++◌, map, true, false, none, some, Text, codes, pos, ◌≡◌, ◌≢◌, ◌↔◌, refl,
  has_prefix, time_sub, ◌-ℤ◌, cut_prefix, ◌⊎◌, inl, inr, arith, All, Any, Bool-cases, text_eq,
  text_eq_iff, subst,
}
use gemaal.Engine.Types.{SsmClient, helm_release, ttl_expired, explicit_end, Action, Plan, Source}
use gemaal.Engine.Rules.{sort_actions}
use gemaal.Engine.Rules.Paths.{IsSlashFree}
use gemaal.Engine.View.WellFormed.{IsWellFormed, view-IsWellFormed}
use gemaal.Engine.Artifacts.{normalized_root}
use gemaal.Engine.Sweep.{teardown, bare_plan, plan_from_view, tier_selected}
use gemaal.Engine.Sweep.Tenants.{IsDue}
use gemaal.Engine.Sweep.Planned.{plan_from_view_complete}
use gemaal.Engine.Apply.{
  Call, World, OutOfReach, refused, authorize, authorize_release, refusal, apply,
}
use gemaal.Engine.Apply.Gates.{authorized_of_refusal, apply_refuses_whole, apply_dry_run}
use gemaal.Engine.Apply.Calls.{calls_of, IsConsistent, AreAnswered, apply_confirmed_calls}
use gemaal.Engine.Apply.Ringed.{IsAppFirst, apply-IsAppFirst}
use gemaal.Engine.Decommission.{decommission_plan}
use gemaal.Engine.Apply.Reach.{InReach, apply-InReach}
use gemaal.Engine.Apply.TestRoots.{IsTestCall, apply-IsTestCall}
use gemaal.Engine.Authorized.{ListsSingleSlash}
use gemaal.Engine.Authorized.Planned.{plan_from_view-authorized}
use gemaal.Tests.{
  app_infra, ssm, config, engine, idle_tenant, seen, everything, viewed, helm_lists, well_formed,
  valid,
}

view-IsWellFormed_example : IsWellFormed engine seen
view-IsWellFormed_example = view-IsWellFormed engine (pos 100) seen helm_lists viewed

abbrev planned : Plan
planned = plan_from_view engine seen everything

idle_tenant-IsDue : IsDue idle_tenant (pos 100)
unfolding time_sub ◌-ℤ◌
idle_tenant-IsDue = record {
  sound = refl;
  not_kept = inl refl;
  unclaimed = inl refl;
  idle = omega arith;
}

plan_from_view_complete_example :
    Any (λ x. x ≡ teardown (pos 100) idle_tenant app_infra) planned.delete
plan_from_view_complete_example =
    plan_from_view_complete engine seen everything idle_tenant app_infra (inl refl)
      (record { namespace = inl refl; release = inl refl }) idle_tenant-IsDue (inr (inl refl))

single_slash : (client : SsmClient) → some ssm ≡ some client → ListsSingleSlash client
unfolding cut_prefix
single_slash client e =
    subst ListsSingleSlash (the_client ssm client e) (record { single = at_root })
  where
    the_client : (a b : SsmClient) → some a ≡ some b → a ≡ b
    the_client a b e = cc e

    at_root :
        (root : Text)
        → All
            (λ param. has_prefix param.name (normalized_root root ++ codes "/") ≡ false)
            (ssm.list_parameters (normalized_root root)).items
    at_root root = elim (Bool-cases (text_eq (normalized_root root) (codes "/test/"))) [
      | inr q ↦ rw q tt
      | inl q ↦ rw (q, (text_eq_iff (normalized_root root) (codes "/test/")).0 q) (refl, tt)
    ]

plan_from_view-authorized_example : refusal config.allow_list planned.delete planned ≡ none
plan_from_view-authorized_example =
    plan_from_view-authorized engine seen everything well_formed single_slash

abbrev world : World
world = λ _ _. (1, none)

planned-authorized : All (λ x. authorize config.allow_list x planned ≡ none) planned.delete
planned-authorized =
    authorized_of_refusal config.allow_list planned.delete planned
      (plan_from_view-authorized engine seen everything well_formed single_slash)

slash_free : All IsSlashFree config.allow_list.s3_buckets
slash_free = (
  (omega arith, (omega arith, (omega arith, (omega arith, (omega arith, (omega arith, tt)))))),
  tt,
)

apply_confirmed_calls_example :
    let a = apply engine world (pos 100) planned true Source.loop [] in
    (a.trace ≡ [] ++ calls_of engine (sort_actions planned.delete))
    × (map (λ r. r.action) a.swept.results ≡ sort_actions planned.delete)
    × All IsConsistent a.swept.results
    × ((a.error ≡ none) ↔ All (λ r. r.error ≡ none) a.swept.results)
    × AreAnswered engine world a.swept.results []
apply_confirmed_calls_example =
    apply_confirmed_calls engine world (pos 100) planned Source.loop [] planned-authorized

apply_dry_run_example :
    let a = apply engine world (pos 100) planned false Source.loop [] in
    (a.trace ≡ [])
    × All (λ r. (r.executed ≡ false) × (r.deleted ≡ 0)) a.swept.results
    × (((r : OutOfReach) × (a.error ≡ some (refused r)) × (a.swept.results ≡ []))
        ⊎ ((a.error ≡ none) × (map (λ r. r.action) a.swept.results ≡ sort_actions planned.delete)))
apply_dry_run_example = apply_dry_run engine world (pos 100) planned Source.loop []

apply-IsAppFirst_example :
    let a = apply engine world (pos 100) planned true Source.loop [] in
    let b = apply engine world (pos 100) (decommission_plan seen idle_tenant) true Source.loop [] in
    IsAppFirst (map (λ r. r.action) a.swept.results)
    × IsAppFirst (map (λ r. r.action) b.swept.results)
apply-IsAppFirst_example =
    apply-IsAppFirst engine world (pos 100) Source.loop [] true seen everything idle_tenant

apply-InReach_example :
    (calls : List Call) × ((apply engine world (pos 100) planned true Source.loop []).trace
      ≡ [] ++ calls)
    × All (InReach config.allow_list planned) calls
apply-InReach_example = apply-InReach engine world (pos 100) planned Source.loop [] true slash_free

apply-IsTestCall_example :
    (calls : List Call) × ((apply engine world (pos 100) planned true Source.loop []).trace
      ≡ [] ++ calls)
    × All IsTestCall calls
apply-IsTestCall_example =
    apply-IsTestCall engine world (pos 100) planned true Source.loop [] valid slash_free

-- a plan whose one action names another namespace's release
abbrev stray : Action
stray = record {
  item = record {
    kind = helm_release;
    tenant = record { namespace = codes "prod"; release = codes "app" };
    id = codes "prod/app";
    last_activity = pos 1;
    age = pos 99;
    members = 1;
    names = [];
  };
  rule = ttl_expired;
  reason = explicit_end;
  order = 0;
}

abbrev stray_plan : Plan
stray_plan = record (bare_plan engine seen) { delete = stray ∷ [] }

stray-unauthorized : authorize config.allow_list stray stray_plan ≢ none
unfolding authorize authorize_release tier_selected text_eq
stray-unauthorized h = ground arith

apply_refuses_whole_example :
    let a = apply engine world (pos 100) stray_plan true Source.rpc [] in
    (a.trace ≡ []) × (a.swept.results ≡ []) × (r : OutOfReach) × (a.error ≡ some (refused r))
apply_refuses_whole_example =
    apply_refuses_whole engine world (pos 100) stray_plan Source.rpc [] true
      (inl stray-unauthorized)
