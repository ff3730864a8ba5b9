-- ===== src/Tests/Serving.antt =====
-- The theorems on the service's handlers, the history and the configuration at the tests' estate.
use gemaal.Base.{
  Text, length, ◌⊎◌, ◌≤◌, ◌≢◌, has_prefix, ℕ, List, [], ◌∷◌, ◌++◌, true, false, none, some, codes,
  pos, ◌≡◌, refl, arith, All, subst, text_eq, text_lt, has_suffix, trim_suffix, time_add, wrap64,
  scale, ◌+ℤ◌, cut_prefix, ◌≤ℤ◌, ◌<ℤ◌,
}
use gemaal.Base.Sort.{sort_stable}
use gemaal.Config.{lookup, tier_ttl, tier_values, labels}
use gemaal.Config.Validate.{validate_lem, IsTestRoot, is_label}
use gemaal.Authn.{Caller, in_any, authenticate, ask_issuer}
use gemaal.Engine.Types.{Result, ok, err, Lease, Engine, TenantState, View, SweepRecord, Source}
use gemaal.Engine.Rules.{claim_live, lease_live, install_of, ring_order}
use gemaal.Engine.View.{
  view, view_with, view_of, view_loop, view_step, after_listing, namespace_tenants, with_releases,
  with_secrets, group_releases, add_to_group, tenant_state, bare_state, merge_ledger, merge_ttl,
  merge_keep_until, effective_ttl, label_value, own_label, secret_of, latest, updated_problems,
  find,
}
use gemaal.Engine.Apply.{Call, World, Applied}
use gemaal.Engine.Decommission.{tenant_claimed, decommission, decommission_in}
use gemaal.Engine.Decommission.Ring.{EndsRing, decommission-EndsRing}
use gemaal.Engine.History.{History, new_history, is_quiet}
use gemaal.Engine.History.Bounds.{
  added, ticked, run, IsBounded, IsCollapsed, history-IsBounded, quiet_passes-IsCollapsed,
}
use gemaal.Aws.Prefixes.{IsRequest, asked_for, delete_prefix_lem}
use gemaal.Aws.{S3Api, delete_prefix, SsmApi, delete_parameters, ssm_test_root}
use gemaal.Aws.Batches.{joined, delete_parameters_lem}
use gemaal.Service.{
  Housekeeper, Deps, Code, is_admin, owns, group_slugs, caller_slugs, personal_namespace,
  replace_slug, authenticate_request, valid_name, permit, authorize_hold,
}
use gemaal.Service.Access.{IsStranger, stranger_changes_nothing}
use gemaal.Service.Hold.{HoldRequest, hold_until, hold_target, hold, checkout, extend}
use gemaal.Service.Hold.Granted.{IsHandled, holds-AreHandled}
use gemaal.Service.Sweeps.{
  engine_keeper, SweepRequest, sweep, DecommissionRequest, decommission_handler,
}
use gemaal.Service.DryRun.{over_engine, dry_run_wins}
use gemaal.Tests.{config, kube, engine, idle_tenant, seen, viewed, well_formed, valid}

abbrev world : World
world = λ _ _. (1, none)

abbrev claim : Lease
claim = record { holder = codes "ci"; renew_time = pos 95; duration_seconds = pos 30 }

abbrev claimed_engine : Engine
claimed_engine = record engine { kube = some (record kube { lease = λ _ _. ok claim }) }

abbrev claimed_tenant : TenantState
claimed_tenant = record idle_tenant { claim = claim }

abbrev claimed_view : View
claimed_view = record seen { tenants = claimed_tenant ∷ [] }

claimed_viewed : view claimed_engine (pos 100) ≡ ok claimed_view
unfolding view view_with view_of view_loop view_step after_listing namespace_tenants with_releases
    with_secrets group_releases add_to_group tenant_state bare_state merge_ledger merge_ttl
    merge_keep_until effective_ttl label_value own_label secret_of latest updated_problems
    install_of ring_order tier_ttl lookup labels tier_values sort_stable text_eq text_lt has_suffix
    trim_suffix
claimed_viewed = refl

claimed_found : find claimed_view (codes "n") (codes "app") ≡ some claimed_tenant
unfolding find text_eq
claimed_found = refl

is_claimed : claim_live claimed_tenant (pos 100) ≡ true
unfolding claim_live lease_live time_add wrap64 scale
is_claimed = refl

claimed_refused :
    decommission claimed_engine world (pos 100) (pos 101) (codes "n") (codes "app") true []
    ≡ err (tenant_claimed claimed_tenant.tenant (codes "ci"))
unfolding decommission decommission_in
claimed_refused = rw (claimed_viewed, decommission, decommission_in, claimed_found, is_claimed)

idle_found : find seen (codes "n") (codes "app") ≡ some idle_tenant
unfolding find text_eq
idle_found = refl

is_free : claim_live idle_tenant (pos 100) ≡ false
unfolding claim_live
is_free = refl

decommission-EndsRing_example :
    (a : Applied) × (calls : List Call) × (decommission engine world
        (pos 100)
        (pos 101)
        (codes "n")
        (codes "app")
        true
        []
      ≡ ok a)
    × (a.trace ≡ [] ++ calls)
    × EndsRing idle_tenant calls
decommission-EndsRing_example =
    decommission-EndsRing engine world (pos 100) (pos 101) seen idle_tenant (codes "n")
      (codes "app") viewed idle_found well_formed [] is_free

validate_lem_example :
    All IsTestRoot (codes "/test/" ∷ []) × ((pos 0) <ℤ (pos 8)) × ((pos 8) ≤ℤ (pos 20))
validate_lem_example = validate_lem config valid

abbrev guest : Caller
guest = record {
  subject = codes "guest";
  email = [];
  name = [];
  groups = codes "emp:al" ∷ [];
  method = codes "tokenreview";
}

abbrev admin : Caller
admin = record guest { groups = codes "ops" ∷ [] }

abbrev keeper : Housekeeper
keeper = record (engine_keeper engine world (pos 100) (pos 100)) {
  view = ok seen;
  stamp_keep_until = λ _ _ t. record { error = none; trace = t };
}

abbrev deps_of : Caller → Deps
deps_of caller = record {
  config = config;
  keeper = keeper;
  auth = some (record { reviewer = some (λ _. ok (some caller)); issuer = none });
  now = pos 100;
  equal_fold = text_eq;
}

guest-IsStranger : IsStranger (deps_of guest) (codes "token") (codes "emp-jo")
unfolding authenticate_request authenticate ask_issuer is_admin in_any owns caller_slugs group_slugs
    personal_namespace replace_slug cut_prefix text_eq
guest-IsStranger = λ caller e.
    subst
      (λ c.
        (is_admin (deps_of guest) c ≡ false) × (owns (deps_of guest) c (codes "emp-jo") ≡ false))
      (the_caller guest caller e) (refl, refl)
  where
    the_caller : (a b : Caller) → ◌≡◌ {A = Result Code Caller} (ok a) (ok b) → a ≡ b
    the_caller a b e = cc e

abbrev held : HoldRequest
held = record {
  token = codes "token";
  namespace = codes "emp-jo";
  release = codes "app";
  duration = none;
}

abbrev ended : DecommissionRequest
ended = record {
  token = codes "token";
  namespace = codes "emp-jo";
  release = codes "app";
  dry_run = false;
}

abbrev swept : SweepRequest
swept = record { token = codes "token"; namespace = codes "n"; dry_run = false }

abbrev history : History
history = new_history (pos 2)

stranger_changes_nothing_example :
    (((c : Code) × ((checkout (deps_of guest) held []).reply ≡ err c))
      × ((checkout (deps_of guest) held []).trace ≡ []))
    × (((c : Code) × ((extend (deps_of guest) held []).reply ≡ err c))
        × ((extend (deps_of guest) held []).trace ≡ []))
    × (((c : Code) × ((decommission_handler (deps_of guest) ended history []).reply ≡ err c))
        × ((decommission_handler (deps_of guest) ended history []).trace ≡ [])
        × ((decommission_handler (deps_of guest) ended history []).history ≡ history))
    × (((c : Code) × ((sweep (deps_of guest) swept history []).reply ≡ err c))
        × ((sweep (deps_of guest) swept history []).trace ≡ [])
        × ((sweep (deps_of guest) swept history []).history ≡ history))
stranger_changes_nothing_example =
    stranger_changes_nothing (deps_of guest) (codes "token") (codes "emp-jo") guest-IsStranger
      (codes "app") (codes "n") none false history []

abbrev long_hold : HoldRequest
long_hold = record {
  token = codes "token";
  namespace = codes "n";
  release = codes "app";
  duration = some (pos 50);
}

granted : (hold (deps_of admin) true long_hold []).reply ≡ ok (idle_tenant, pos 120)
unfolding hold hold_target permit authenticate_request authenticate valid_name is_label
    authorize_hold is_admin in_any find hold_until time_add ◌+ℤ◌ text_eq owns
granted = refl

holds-AreHandled_example :
    IsHandled (deps_of admin) false long_hold [] (checkout (deps_of admin) long_hold [])
    × IsHandled (deps_of admin) true long_hold [] (extend (deps_of admin) long_hold [])
holds-AreHandled_example = holds-AreHandled (deps_of admin) long_hold (omega arith) []

dry_run_wins_example :
    ((sweep (over_engine (deps_of admin) engine world (pos 100)) swept history []).trace ≡ [])
    × ((decommission_handler
          (over_engine (deps_of admin) engine world (pos 100))
          ended
          history
          []).trace
        ≡ [])
dry_run_wins_example =
    dry_run_wins (deps_of admin) engine world (pos 100) true refl swept ended history [] refl refl

abbrev quiet_at : ℕ → SweepRecord
quiet_at n = record {
  at = pos n;
  dry_run = false;
  source = Source.loop;
  results = [];
  problems = [];
  kept = n;
  quiet_ticks = 0;
}

history-IsBounded_example :
    IsBounded 2 (
      run
        (added (quiet_at 1) ∷ ticked (quiet_at 2) ∷ added (quiet_at 3) ∷ [])
        (new_history (pos 2)))
history-IsBounded_example =
    history-IsBounded (pos 2) (added (quiet_at 1) ∷ ticked (quiet_at 2) ∷ added (quiet_at 3) ∷ [])

abbrev quiet_start : History
quiet_start = record { cap = 2; records = quiet_at 0 ∷ [] }

quiet_passes-IsCollapsed_example :
    IsCollapsed quiet_start 2
      (quiet_at 2)
      (run (ticked (quiet_at 1) ∷ ticked (quiet_at 2) ∷ []) quiet_start).records
unfolding is_quiet
quiet_passes-IsCollapsed_example =
    quiet_passes-IsCollapsed quiet_start (quiet_at 1) (quiet_at 2 ∷ []) (omega arith) refl
      (refl, (refl, tt))

abbrev obliging : SsmApi
obliging = λ _ _. ok []

delete_parameters_lem_example :
    let d = delete_parameters obliging (codes "/test/a/b/c" ∷ codes "/test/a/b/d" ∷ []) in
    All (λ c. (length c ≤ 10) × All (λ name. has_prefix name ssm_test_root ≡ true) c) d.requests
    × ((d.error ≢ none) ⊎ (joined d.requests ≡ codes "/test/a/b/c" ∷ codes "/test/a/b/d" ∷ []))
delete_parameters_lem_example =
    delete_parameters_lem obliging (codes "/test/a/b/c" ∷ codes "/test/a/b/d" ∷ [])

abbrev shelf : S3Api
shelf = record {
  list_keys = λ _ _. ok (codes "a/b/c" ∷ codes "a/b/d" ∷ []);
  delete_objects = λ _ _. ok 0;
}

delete_prefix_lem_example :
    let d = delete_prefix shelf (codes "a-test") (codes "a/b/") in
    All (IsRequest shelf (codes "a-test") (codes "a/b/")) d.requests
    × ((d.error ≢ none)
        ⊎ ((keys : List Text) × (shelf.list_keys (codes "a-test") (codes "a/b/") ≡ ok keys)
            × (asked_for d.requests ≡ keys)
            × (d.deleted ≡ pos (length keys))))
delete_prefix_lem_example = delete_prefix_lem shelf (codes "a-test") (codes "a/b/")
