-- ===== src/Engine/View.antt =====
-- pkg/engine/view.go: the tenant view, built from what the clients report. Groups, a map in the
-- program, are listed by their first release; the view is sorted afterwards.
pub mod Shape
pub mod WellFormed
use gemaal.Base.{
  ◌&&◌, List, [], ◌∷◌, ◌++◌, map, Bool, Option, none, some, Text, codes, ℤ, pos, text_eq, text_lt,
  if◌then◌else◌, is_empty, find_by, int_lt, int_le, ltb, ◌==◌,
}
use gemaal.Base.Sort.{by, never, sort_stable}
use gemaal.Config.{lookup, labels, tier_ttl, tier_values}
use gemaal.Engine.Types.{
  Namespace, Release, ReleaseSecret, Lease, Result, ok, err, ◌>>=◌, KubeClient, HelmClient, Engine,
  Tenant, LedgerProblem, bad_updated, bad_ttl, bad_keep_until, label, tier_default, TenantState,
  NamespaceError, list_releases, list_secrets, ViewError, no_clients, list_namespaces, abandoned,
  View,
}
use gemaal.Engine.Rules.{install_of, ring_order}

-- `byRelease`: the last secret listed for a release
unfoldable pub secret_of : Text → List ReleaseSecret → Option ReleaseSecret
secret_of release [] = none
secret_of release (s ∷ secrets) = elim (secret_of release secrets) [
  | some later ↦ some later
  | none ↦ if text_eq s.release release then some s else none
]

abbrev text_or_empty : Option Text → Text
text_or_empty none = []
text_or_empty (some t) = t

abbrev labels_of : Option ReleaseSecret → List (Text × Text)
labels_of none = []
labels_of (some s) = s.labels

-- the label of one release's secret; empty if there is none
unfoldable pub own_label : List ReleaseSecret → Text → Release → Text
own_label secrets key rel = text_or_empty (lookup key (labels_of (secret_of rel.name secrets)))

-- `value` of mergeLedger: the first non-empty label along the releases
unfoldable pub label_value : List ReleaseSecret → Text → List Release → Text
label_value secrets key [] = []
label_value secrets key (rel ∷ rest) =
    let later = label_value secrets key rest in
    let own = own_label secrets key rel in if is_empty own then later else own

abbrev report : LedgerProblem → TenantState → TenantState
report p s = record s { ledger_problems = s.ledger_problems ++ p ∷ [] }

abbrev parsed_ttl : Text → Option ℤ → TenantState → TenantState
parsed_ttl raw none s = report (bad_ttl raw) s
parsed_ttl raw (some ttl) s =
    if int_le ttl (pos 0)
    then report (bad_ttl raw) s
    else record s { ledger = record s.ledger { ttl = ttl } }

abbrev parsed_keep_until : Text → Option ℤ → TenantState → TenantState
parsed_keep_until raw none s = report (bad_keep_until raw) s
parsed_keep_until raw (some t) s = record s { ledger = record s.ledger { keep_until = t } }

unfoldable pub merge_ttl : Engine → Text → TenantState → TenantState
merge_ttl e raw s = if is_empty raw then s else parsed_ttl raw (e.times.parse_duration raw) s

unfoldable pub merge_keep_until : Engine → Text → TenantState → TenantState
merge_keep_until e raw s =
    if is_empty raw then s else parsed_keep_until raw (e.times.parse_keep_until raw) s

unfoldable pub merge_ledger : Engine → List ReleaseSecret → TenantState → TenantState
merge_ledger e secrets s =
    let (ttl_key, keep_key, exec_key) = labels e.config in
    let s' =
      merge_keep_until e (label_value secrets keep_key s.releases)
        (merge_ttl e (label_value secrets ttl_key s.releases) s) in
    record s' {
      ledger = record s'.ledger { execution_id = label_value secrets exec_key s.releases };
    }

-- `groups[install] = append(groups[install], rel)`
unfoldable pub add_to_group :
    Text → Release → List (Text × List Release) → List (Text × List Release)
add_to_group install rel [] = (install, rel ∷ []) ∷ []
add_to_group install rel ((key, members) ∷ groups) =
    if text_eq key install
    then (key, members ++ rel ∷ []) ∷ groups
    else (key, members) ∷ add_to_group install rel groups

unfoldable pub group_releases :
    List Release → List (Text × List Release) → List (Text × List Release)
group_releases [] groups = groups
group_releases (rel ∷ rest) groups =
    group_releases rest (add_to_group (install_of rel.name) rel groups)

-- App before infra, then by name.
abbrev pub member_less : Release → Release → Bool
member_less = by ◌==◌ ltb (λ r. ring_order r.name) (by text_eq text_lt (λ r. r.name) never)

unfoldable pub latest : ℤ → List Release → ℤ
latest t [] = t
latest t (rel ∷ rest) = latest (if int_lt t rel.updated then rel.updated else t) rest

unfoldable pub updated_problems : List Release → List LedgerProblem
updated_problems [] = []
updated_problems (rel ∷ rest) =
    let more = updated_problems rest in
    if is_empty rel.updated_problem then more else bad_updated rel.name rel.updated_problem ∷ more

abbrev pub no_lease : Lease
no_lease = record { holder = []; renew_time = pos 0; duration_seconds = pos 0 }

-- The claim is read fail-open.
abbrev lease_or_none : Result Text Lease → Lease
lease_or_none (ok l) = l
lease_or_none (err e) = no_lease

abbrev ttl_or_zero : Option ℤ → ℤ
ttl_or_zero none = pos 0
ttl_or_zero (some t) = t

-- The tenant's own time to live if it has one, else that of its tier.
unfoldable pub effective_ttl : ℤ → TenantState → TenantState
effective_ttl default s =
    if int_lt (pos 0) s.ledger.ttl
    then record s { ttl = s.ledger.ttl; ttl_source = label }
    else record s { ttl = default; ttl_source = tier_default }

unfoldable pub bare_state : Namespace → Text → List Release → TenantState
bare_state ns install members = record {
  tenant = record { namespace = ns.name; release = install };
  tier = ns.tier;
  releases = members;
  ledger = record { ttl = pos 0; keep_until = pos 0; execution_id = [] };
  ledger_problems = updated_problems members;
  last_activity = latest (pos 0) members;
  ttl = pos 0;
  ttl_source = tier_default;
  claim = no_lease;
}

-- one round of the loop over the groups
unfoldable pub tenant_state :
    Engine → KubeClient → Namespace → List ReleaseSecret → Text × List Release → TenantState
tenant_state e kube ns secrets (install, members) =
    let merged = merge_ledger e secrets (bare_state ns install (sort_stable member_less members)) in
    effective_ttl (ttl_or_zero (tier_ttl e.config ns.tier)) (record merged {
      claim = lease_or_none (kube.lease ns.name (codes "gemaal-claim-" ++ install));
    })

-- the tail of namespaceTenants: the secrets, and the tenants of the groups
unfoldable pub with_secrets :
    Engine
    → KubeClient
    → Namespace
    → List Release
    → Result Text (List ReleaseSecret)
    → Result NamespaceError (List TenantState)
with_secrets e kube ns rels (err text) = err (list_secrets ns.name text)
with_secrets e kube ns rels (ok secrets) =
    ok (map (tenant_state e kube ns secrets) (group_releases rels []))

-- with no release there are no secrets to read
unfoldable pub with_releases :
    Engine
    → KubeClient
    → Namespace
    → Result Text (List Release)
    → Result NamespaceError (List TenantState)
with_releases e kube ns (err text) = err (list_releases ns.name text)
with_releases e kube ns (ok []) = ok []
with_releases e kube ns (ok (rel ∷ rest)) =
    with_secrets e kube ns (rel ∷ rest) (kube.release_secrets ns.name)

unfoldable pub namespace_tenants :
    Engine → KubeClient → HelmClient → Namespace → Result NamespaceError (List TenantState)
namespace_tenants e kube helm ns = with_releases e kube ns (helm.list_releases ns.name)

-- what the loop does with one namespace's tenants or failure
unfoldable pub after_listing :
    Engine → Namespace → Result NamespaceError (List TenantState) → View → Result ViewError View
after_listing e ns (ok tenants) v = ok (record v { tenants = v.tenants ++ tenants })
after_listing e ns (err p) v = elim (e.ended ns.name) [
  | some c ↦ err (abandoned ns.name c)
  | none ↦
      ok (record v { unreadable = v.unreadable ++ record { namespace = ns.name; reason = p } ∷ [] })
]

-- one round of the loop over the namespaces: a tier that is not configured is out of reach
unfoldable pub view_step :
    Engine → KubeClient → HelmClient → Namespace → View → Result ViewError View
view_step e kube helm ns v = elim (tier_ttl e.config ns.tier) [
  | none ↦ ok v
  | some ttl ↦
      after_listing e ns (namespace_tenants e kube helm ns)
        (record v { namespaces = v.namespaces ++ ns ∷ [] })
]

unfoldable pub view_loop :
    Engine → KubeClient → HelmClient → List Namespace → View → Result ViewError View
view_loop e kube helm [] v = ok v
view_loop e kube helm (ns ∷ rest) v = view_step e kube helm ns v >>= view_loop e kube helm rest

abbrev pub namespace_less : Namespace → Namespace → Bool
namespace_less a b = text_lt a.name b.name

abbrev pub tenant_less : TenantState → TenantState → Bool
tenant_less =
    by text_eq text_lt (λ s. s.tenant.namespace) (by text_eq text_lt (λ s. s.tenant.release) never)

abbrev pub empty_view : ℤ → View
empty_view at = record { at = at; namespaces = []; tenants = []; unreadable = [] }

abbrev sort_tenants : View → View
sort_tenants v = record v { tenants = sort_stable tenant_less v.tenants }

-- the view of the namespaces that were listed
unfoldable pub view_of :
    Engine → ℤ → KubeClient → HelmClient → Result Text (List Namespace) → Result ViewError View
view_of e at kube helm (err text) = err (list_namespaces text)
view_of e at kube helm (ok namespaces) = do
  v ← view_loop e kube helm (sort_stable namespace_less namespaces) (empty_view at)
  ok (sort_tenants v)

unfoldable pub view_with : Engine → ℤ → KubeClient → HelmClient → Result ViewError View
view_with e at kube helm =
    view_of e at kube helm (kube.list_tier_namespaces e.config.tier_label (tier_values e.config))

-- `View`, at the clock's reading.
unfoldable pub view : Engine → ℤ → Result ViewError View
view e at = elim e.kube [
  | none ↦ err no_clients
  | some kube ↦ elim e.helm [ none ↦ err no_clients | some helm ↦ view_with e at kube helm ]
]

unfoldable pub complete : View → Bool
complete v = is_empty v.unreadable

unfoldable pub find : View → Text → Text → Option TenantState
find v namespace release =
    find_by (λ s. text_eq s.tenant.namespace namespace && text_eq s.tenant.release release)
      v.tenants

-- the live set
unfoldable pub live : View → List Tenant
live v = map (λ s. s.tenant) v.tenants
