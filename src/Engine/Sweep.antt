-- ===== src/Engine/Sweep.antt =====
-- pkg/engine/sweep.go: from a view to a plan. The plan that the Go code fills in is passed along.
pub mod Tenants
pub mod Artifacts
pub mod Idle
pub mod Planned
use gemaal.Base.{
  ◌&&◌, not, List, [], ◌∷◌, ◌++◌, map, Bool, true, false, Option, none, some, Text, codes, ℤ,
  text_eq, text_lt, if◌then◌else◌, is_empty, any, int_le, time_sub,
}
use gemaal.Base.Sort.{sort_stable}
use gemaal.Engine.Types.{
  ◌>>=◌, Release, Result, ok, SsmClient, S3Client, Engine, Kind, helm_release, s3_prefix,
  ssm_prefix, ttl_expired, orphan_grace, release_live, within_ttl, claim_live as keep_claim_live,
  keep_until_holds, within_grace, ledger_unparseable, out_of_reach, unknown_tenant_shape, Tenant,
  TenantState, Item, idle_past_ttl, idle_past_grace, Action, Kept, broken_ledger, not_enumerated,
  no_ssm_client, s3_stubbed, listing_failed, TargetProblem, Plan, ViewError, View, NamespaceProblem,
}
use gemaal.Engine.Rules.{
  tenant_text, tenant_eq, age, claim_live, held, ring_order, sort_actions, sort_kept, round_age,
}
use gemaal.Engine.View.{view, complete, live}
use gemaal.Engine.Artifacts.{
  ArtifactGroup, Groups, normalized_root, visit_parameters, bucket_id, visit_objects,
}

-- Empty fields mean everything in scope.
pub record Narrow : Type 0 where
  pub namespace : Text
  pub release : Text

unfoldable pub matches : Narrow → Tenant → Bool
matches n t =
    if not (is_empty n.namespace) && not (text_eq t.namespace n.namespace)
    then false
    else if not (is_empty n.release) && not (text_eq t.release n.release)
    then false
    else true

abbrev pub add_keep : Plan → Kept → Plan
add_keep p k = record p { keep = p.keep ++ k ∷ [] }

abbrev pub add_delete : Plan → Action → Plan
add_delete p a = record p { delete = p.delete ++ a ∷ [] }

abbrev pub add_problem : Plan → TargetProblem → Plan
add_problem p t = record p { problems = p.problems ++ t ∷ [] }

abbrev pub release_id : Release → Text
release_id rel = rel.namespace ++ (codes "/" ++ rel.name)

abbrev pub release_item : ℤ → Tenant → Release → Item
release_item at tenant rel = record {
  kind = helm_release;
  tenant = tenant;
  id = release_id rel;
  last_activity = rel.updated;
  age = time_sub at rel.updated;
  members = 1;
  names = [];
}

-- the action on one release of an expired tenant
abbrev pub teardown : ℤ → TenantState → Release → Action
teardown at s rel = record {
  item = release_item at s.tenant rel;
  rule = ttl_expired;
  reason = idle_past_ttl s.tier (round_age (age s at)) s.ttl s.ttl_source;
  order = ring_order rel.name;
}

-- the `switch` of classifyTenant
unfoldable pub classify_release : ℤ → TenantState → Plan → Release → Plan
classify_release at s p rel =
    if not (is_empty s.ledger_problems)
    then add_problem
        (add_keep p (record { item = release_item at s.tenant rel; reason = ledger_unparseable }))
        (record { target = tenant_text s.tenant; error = broken_ledger s.ledger_problems })
    else if held s at
    then add_keep p (record { item = release_item at s.tenant rel; reason = keep_until_holds })
    else if claim_live s at
    then add_keep p (record { item = release_item at s.tenant rel; reason = keep_claim_live })
    else if int_le (age s at) s.ttl
    then add_keep p (record { item = release_item at s.tenant rel; reason = within_ttl })
    else add_delete p (teardown at s rel)

unfoldable pub classify_releases : ℤ → TenantState → List Release → Plan → Plan
classify_releases at s [] p = p
classify_releases at s (rel ∷ rest) p = classify_releases at s rest (classify_release at s p rel)

unfoldable pub classify_tenant : ℤ → TenantState → Plan → Plan
classify_tenant at s p = classify_releases at s s.releases p

unfoldable pub classify_tenants : ℤ → Narrow → List TenantState → Plan → Plan
classify_tenants at n [] p = p
classify_tenants at n (s ∷ rest) p =
    classify_tenants at n rest (if matches n s.tenant then classify_tenant at s p else p)

unfoldable pub tier_selected : Text → Plan → Bool
tier_selected namespace p = any (λ ns. text_eq ns namespace) p.namespaces

abbrev pub group_item : ℤ → Kind → ArtifactGroup → Item
group_item at kind g = record {
  kind = kind;
  tenant = g.tenant;
  id = g.id;
  last_activity = g.last_activity;
  age = time_sub at g.last_activity;
  members = g.members;
  names = sort_stable text_lt g.names;
}

abbrev pub collect : ℤ → ℤ → Kind → ArtifactGroup → Action
collect at grace kind g = record {
  item = group_item at kind g;
  rule = orphan_grace;
  reason = idle_past_grace g.tenant (round_age (time_sub at g.last_activity)) grace;
  order = 0;
}

unfoldable pub is_live : List Tenant → Tenant → Bool
is_live live t = any (λ u. tenant_eq u t) live

-- What every round of one artifact pass sees.
pub record Pass : Type 0 where
  pub at : ℤ
  pub grace : ℤ
  pub live : List Tenant
  pub narrow : Narrow

-- one round of classifyArtifacts
unfoldable pub classify_group : Pass → Kind → ArtifactGroup → Plan → Plan
classify_group c kind g p =
    if g.attributable && not (matches c.narrow g.tenant)
    then p
    else if not g.attributable
    then add_keep p (record { item = group_item c.at kind g; reason = unknown_tenant_shape })
    else if not (tier_selected g.tenant.namespace p)
    then add_keep p (record { item = group_item c.at kind g; reason = out_of_reach })
    else if is_live c.live g.tenant
    then add_keep p (record { item = group_item c.at kind g; reason = release_live })
    else if int_le (time_sub c.at g.last_activity) c.grace
    then add_keep p (record { item = group_item c.at kind g; reason = within_grace })
    else add_delete p (collect c.at c.grace kind g)

unfoldable pub classify_groups : Pass → Kind → Groups → Plan → Plan
classify_groups c kind [] p = p
classify_groups c kind ((key, g) ∷ groups) p =
    classify_groups c kind groups (classify_group c kind g p)

abbrev pub group_less : Text × ArtifactGroup → Text × ArtifactGroup → Bool
group_less a b = text_lt a.0 b.0

unfoldable pub classify_artifacts : Pass → Kind → Groups → Plan → Plan
classify_artifacts c kind groups p = classify_groups c kind (sort_stable group_less groups) p

-- one root of sweepSSM, with the client there
unfoldable pub sweep_root : Pass → SsmClient → Text → Plan → Plan
sweep_root c ssm root p =
    let listing = ssm.list_parameters root in
    elim listing.failure [
      | some text ↦ add_problem p (record { target = root; error = listing_failed text })
      | none ↦ classify_artifacts c ssm_prefix (visit_parameters root listing.items []) p
    ]

unfoldable pub sweep_ssm : Pass → Option SsmClient → List Text → Plan → Plan
sweep_ssm c ssm [] p = p
sweep_ssm c ssm (root ∷ roots) p = sweep_ssm c ssm roots (elim ssm [
  | none ↦ add_problem p (record { target = normalized_root root; error = no_ssm_client })
  | some client ↦ sweep_root c client (normalized_root root) p
])

unfoldable pub sweep_bucket : Pass → S3Client → Text → Plan → Plan
sweep_bucket c s3 bucket p =
    let listing = s3.list_objects bucket in
    elim listing.failure [
      | some text ↦
          add_problem p (record { target = bucket_id bucket; error = listing_failed text })
      | none ↦ classify_artifacts c s3_prefix (visit_objects bucket listing.items []) p
    ]

unfoldable pub sweep_s3 : Pass → Option S3Client → List Text → Plan → Plan
sweep_s3 c s3 [] p = p
sweep_s3 c s3 (bucket ∷ buckets) p = sweep_s3 c s3 buckets (elim s3 [
  | none ↦ add_problem p (record { target = bucket_id bucket; error = s3_stubbed })
  | some client ↦ sweep_bucket c client bucket p
])

unfoldable pub report_unreadable : List NamespaceProblem → Plan → Plan
report_unreadable [] p = p
report_unreadable (n ∷ rest) p =
    report_unreadable rest
      (add_problem p (record { target = n.namespace; error = not_enumerated n.reason }))

abbrev pub bare_plan : Engine → View → Plan
bare_plan e v = record {
  generated_at = v.at;
  grace = e.config.grace;
  namespaces = map (λ ns. ns.name) v.namespaces;
  tenants = v.tenants;
  delete = [];
  keep = [];
  problems = [];
}

abbrev pub pass_of : Engine → View → Narrow → Pass
pass_of e v n = record { at = v.at; grace = e.config.grace; live = live v; narrow = n }

-- Artifacts are judged only against a view that is whole, and not narrowed.
unfoldable pub sweep_artifacts : Engine → View → Narrow → Plan → Plan
sweep_artifacts e v n p =
    if complete v
    then sweep_s3 (pass_of e v n) e.s3 e.config.allow_list.s3_buckets
        (sweep_ssm (pass_of e v n) e.ssm e.config.allow_list.ssm_roots p)
    else report_unreadable v.unreadable p

abbrev pub sorted_plan : Plan → Plan
sorted_plan p = record p { delete = sort_actions p.delete; keep = sort_kept p.keep }

unfoldable pub plan_from_view : Engine → View → Narrow → Plan
plan_from_view e v n =
    sorted_plan (sweep_artifacts e v n (classify_tenants v.at n v.tenants (bare_plan e v)))

-- `Plan`, at the clock's reading.
unfoldable pub plan : Engine → ℤ → Narrow → Result ViewError Plan
plan e at n = do v ← view e at; ok (plan_from_view e v n)
