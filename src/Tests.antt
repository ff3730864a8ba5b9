-- ===== src/Tests.antt =====
-- A small estate to try the development on: a namespace with one idle tenant of two releases,
-- parameters of a tenant that is gone, and objects of another.
mod Sweeping
mod Serving
mod Identifying
mod Loading
mod Releasing
use gemaal.Base.{
  is_blank, List, [], ◌∷◌, true, none, some, Text, codes, pos, ◌≡◌, refl, cut_prefix, trim,
  contains, cut, inl, inr, All, Bool-cases, sym, text_eq, text_eq_iff, text_lt, has_suffix,
  trim_suffix, if◌then◌else◌, subst,
}
use gemaal.Base.Sort.{sort_stable}
use gemaal.Config.Validate.{
  validate, is_trimmed, tier_problem, root_problem, bucket_problem, is_test_bucket, email_problem,
  is_label, hold_problem,
}
use gemaal.Config.{Config, lookup, tier_ttl, tier_values, labels}
use gemaal.Engine.Types.{
  Namespace, Release, Object, Parameter, Result, ok, err, KubeClient, HelmClient, SsmClient,
  S3Client, TimeText, Engine, tier_default, TenantState, View,
}
use gemaal.Engine.View.{
  view, view_with, view_of, view_loop, view_step, after_listing, namespace_tenants, with_releases,
  with_secrets, group_releases, add_to_group, tenant_state, bare_state, merge_ledger, merge_ttl,
  merge_keep_until, effective_ttl, label_value, own_label, secret_of, latest, updated_problems,
}
use gemaal.Engine.Rules.{install_of, ring_order}
use gemaal.Engine.View.Shape.{ListsOwn}
use gemaal.Engine.View.WellFormed.{IsWellFormed, view-IsWellFormed}
use gemaal.Engine.Sweep.{Narrow}

abbrev pub watched : Namespace
watched = record { name = codes "n"; tier = codes "dev" }

abbrev pub release_named : Text → Release
release_named name = record {
  namespace = codes "n";
  name = name;
  updated = pos 1;
  status = codes "deployed";
  updated_problem = [];
}

abbrev pub app : Release
app = release_named (codes "app")

abbrev pub app_infra : Release
app_infra = release_named (codes "app-infra")

abbrev pub kube : KubeClient
kube = record {
  list_tier_namespaces = λ _ _. ok (watched ∷ []);
  lease = λ _ _. err (codes "no lease");
  release_secrets = λ _. ok [];
}

abbrev pub helm : HelmClient
helm = record {
  list_releases =
      λ namespace. if text_eq namespace (codes "n") then ok (app_infra ∷ app ∷ []) else ok [];
}

abbrev pub stale_parameter : Parameter
stale_parameter = record { name = codes "/test/n/old/key"; last_modified = pos 1 }

abbrev pub ssm : SsmClient
ssm = record {
  list_parameters = λ root. record {
    items = if text_eq root (codes "/test/") then stale_parameter ∷ [] else [];
    failure = none;
  };
}

abbrev pub stale_object : Object
stale_object = record { key = codes "n/gone/state"; last_modified = pos 2 }

abbrev pub s3 : S3Client
s3 = record { list_objects = λ _. record { items = stale_object ∷ []; failure = none } }

abbrev pub times : TimeText
times = record {
  parse_duration = λ _. none;
  parse_keep_until = λ _. none;
  format_keep_until = λ _. codes "later";
}

abbrev pub config : Config
config = record {
  listen = codes ":8080";
  label_domain = codes "gemaal.io";
  dry_run = some true;
  housekeeping_interval = pos 60;
  grace = pos 5;
  kubecontext = [];
  tier_label = codes "tier";
  tiers = (codes "dev", pos 10) ∷ [];
  allow_list = record { s3_buckets = codes "a-test" ∷ []; ssm_roots = codes "/test/" ∷ [] };
  identity = record {
    personal_namespace = codes "emp-{slug}";
    emails = (codes "jo@x", codes "jo") ∷ [];
  };
  authz = record {
    admin_groups = codes "ops" ∷ [];
    group_prefix = codes "emp:";
    token_audiences = [];
    admin_users = [];
    issuer_url = [];
    audience = [];
  };
  hold = record { default = pos 8; max = pos 20 };
  aws_region = codes "eu";
}

abbrev pub engine : Engine
engine = record {
  config = config;
  kube = some kube;
  helm = some helm;
  ssm = some ssm;
  s3 = some s3;
  times = times;
  ended = λ _. none;
}

abbrev pub idle_tenant : TenantState
idle_tenant = record {
  tenant = record { namespace = codes "n"; release = codes "app" };
  tier = codes "dev";
  releases = app ∷ app_infra ∷ [];
  ledger = record { ttl = pos 0; keep_until = pos 0; execution_id = [] };
  ledger_problems = [];
  last_activity = pos 1;
  ttl = pos 10;
  ttl_source = tier_default;
  claim = record { holder = []; renew_time = pos 0; duration_seconds = pos 0 };
}

abbrev pub seen : View
seen = record {
  at = pos 100;
  namespaces = watched ∷ [];
  tenants = idle_tenant ∷ [];
  unreadable = [];
}

abbrev pub everything : Narrow
everything = record { namespace = []; release = [] }

pub viewed : view engine (pos 100) ≡ ok seen
unfolding view view_with view_of view_loop view_step after_listing namespace_tenants with_releases
    with_secrets group_releases add_to_group tenant_state bare_state merge_ledger merge_ttl
    merge_keep_until effective_ttl label_value own_label secret_of latest updated_problems
    install_of ring_order tier_ttl lookup labels tier_values sort_stable text_eq text_lt has_suffix
    trim_suffix
viewed = refl

own_lists : ListsOwn helm
own_lists = record {
  own = λ namespace rels h. elim (Bool-cases (text_eq namespace (codes "n"))) [
    | inl e ↦
        subst (λ l. All (λ rel. rel.namespace ≡ namespace) l)
          (released (app_infra ∷ app ∷ []) rels (rw e at h))
          (let here = (text_eq_iff namespace (codes "n")).0 e in (sym here, (sym here, tt)))
    | inr e ↦
        subst (λ l. All (λ rel. rel.namespace ≡ namespace) l) (released [] rels (rw e at h)) tt
  ];
}
  where
    released : (l k : List Release) → ◌≡◌ {A = Result Text (List Release)} (ok l) (ok k) → l ≡ k
    released l k h = cc h

pub helm_lists : (h : HelmClient) → some helm ≡ some h → ListsOwn h
helm_lists h e = subst ListsOwn (the_client helm h e) own_lists
  where
    the_client : (a b : HelmClient) → some a ≡ some b → a ≡ b
    the_client a b e = cc e

pub well_formed : IsWellFormed engine seen
well_formed = view-IsWellFormed engine (pos 100) seen helm_lists viewed

pub valid : validate config ≡ none
unfolding validate text_eq trim is_trimmed cut_prefix has_suffix tier_problem root_problem contains
    bucket_problem is_test_bucket email_problem cut is_label hold_problem is_blank
valid = refl
