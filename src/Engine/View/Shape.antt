-- ===== src/Engine/View/Shape.antt =====
-- The tenants that namespaceTenants of pkg/engine/view.go makes.
use gemaal.Base.{
  ◌∙◌, sym, ap, List, [], ◌∷◌, map, Text, ℤ, ◌≡◌, refl, inl, inr, arith, All, All-append,
  Bool-cases, text_eq, text_eq_iff,
}
use gemaal.Base.Sort.{sort_stable, All-sort_stable}
use gemaal.Config.{labels}
use gemaal.Engine.Types.{
  Namespace, Release, ReleaseSecret, Result, ok, err, KubeClient, HelmClient, Engine, Tenant,
  TenantState, NamespaceError,
}
use gemaal.Engine.Rules.{install_of}
use gemaal.Engine.View.{
  merge_ttl, merge_keep_until, merge_ledger, label_value, add_to_group, group_releases, member_less,
  effective_ttl, bare_state, tenant_state, with_secrets, with_releases, namespace_tenants,
}

-- One state's identity is another's.
record SameShape (s t : TenantState) : Type 0 where
  tenant : s.tenant ≡ t.tenant
  tier : s.tier ≡ t.tier
  releases : s.releases ≡ t.releases

merge_ttl-SameShape : (e : Engine) (raw : Text) (s : TenantState) → SameShape (merge_ttl e raw s) s
unfolding merge_ttl
merge_ttl-SameShape e raw s = record {
  tenant = ground arith;
  tier = ground arith;
  releases = ground arith;
}

merge_keep_until-SameShape :
    (e : Engine) (raw : Text) (s : TenantState) → SameShape (merge_keep_until e raw s) s
unfolding merge_keep_until
merge_keep_until-SameShape e raw s = record {
  tenant = ground arith;
  tier = ground arith;
  releases = ground arith;
}

effective_ttl-SameShape : (default : ℤ) (s : TenantState) → SameShape (effective_ttl default s) s
unfolding effective_ttl
effective_ttl-SameShape default s = record {
  tenant = ground arith;
  tier = ground arith;
  releases = ground arith;
}

SameShape-trans : {s t u : TenantState} → SameShape s t → SameShape t u → SameShape s u
SameShape-trans a b = record {
  tenant = a.tenant ∙ b.tenant;
  tier = a.tier ∙ b.tier;
  releases = a.releases ∙ b.releases;
}

merge_ledger-SameShape :
    (e : Engine) (secrets : List ReleaseSecret) (s : TenantState)
    → SameShape (merge_ledger e secrets s) s
unfolding merge_ledger
merge_ledger-SameShape e secrets s = record {
  tenant = merged.tenant;
  tier = merged.tier;
  releases = merged.releases;
}
  where
    merged :
        SameShape
          (merge_keep_until e
            (label_value secrets (labels e.config).1 s.releases)
            (merge_ttl e (label_value secrets (labels e.config).0 s.releases) s))
          s
    merged = SameShape-trans (merge_keep_until-SameShape e _ _) (merge_ttl-SameShape e _ s)

-- A release stands in the tenant that its name and namespace make.
abbrev pub IsMemberOf : Tenant → Release → Type 0
IsMemberOf t rel = (rel.namespace ≡ t.namespace) × (install_of rel.name ≡ t.release)

abbrev IsGroup : Text → Text × List Release → Type 0
IsGroup namespace g = All (λ rel. (rel.namespace ≡ namespace) × (install_of rel.name ≡ g.0)) g.1

module _ (namespace : Text) where
  add_to_group-IsGroup :
      (install : Text) (rel : Release) (groups : List (Text × List Release))
      → rel.namespace ≡ namespace
      → install_of rel.name ≡ install
      → All (IsGroup namespace) groups
      → All (IsGroup namespace) (add_to_group install rel groups)
  unfolding add_to_group
  add_to_group-IsGroup install rel [] n i h = (((n, i), tt), tt)
  add_to_group-IsGroup install rel ((key, members) ∷ groups) n i h =
      elim (Bool-cases (text_eq key install)) [
        | inl e ↦ rw e (
          All-append (λ r. (r.namespace ≡ namespace) × (install_of r.name ≡ key)) members (rel ∷ [])
              h.0 ((n, i ∙ sym ((text_eq_iff key install).0 e)), tt),
          h.1,
        )
        | inr e ↦ rw e (h.0, add_to_group-IsGroup install rel groups n i h.1)
      ]

  group_releases-IsGroup :
      (rels : List Release) (groups : List (Text × List Release))
      → All (λ rel. rel.namespace ≡ namespace) rels
      → All (IsGroup namespace) groups
      → All (IsGroup namespace) (group_releases rels groups)
  unfolding group_releases
  group_releases-IsGroup [] groups n h = h
  group_releases-IsGroup (rel ∷ rels) groups n h =
      group_releases-IsGroup rels _ n.1
        (add_to_group-IsGroup (install_of rel.name) rel groups n.0 refl h)

-- A tenant of a namespace: its identity is the namespace's, its tier too, and its releases are of
-- its ring.
pub record IsTenantOf (ns : Namespace) (s : TenantState) : Type 0 where
  pub namespace : s.tenant.namespace ≡ ns.name
  pub tier : s.tier ≡ ns.tier
  pub members : All (IsMemberOf s.tenant) s.releases

-- Helm lists the releases of the namespace that it was asked for.
pub record ListsOwn (helm : HelmClient) : Type 0 where
  pub own :
      (namespace : Text) (rels : List Release)
      → helm.list_releases namespace ≡ ok rels
      → All (λ rel. rel.namespace ≡ namespace) rels

module _ (e : Engine) (kube : KubeClient) (helm : HelmClient) (ns : Namespace) where
  tenant_state-IsTenantOf :
      (secrets : List ReleaseSecret) (g : Text × List Release)
      → IsGroup ns.name g
      → IsTenantOf ns (tenant_state e kube ns secrets g)
  unfolding tenant_state bare_state
  tenant_state-IsTenantOf secrets (install, members) h = record {
    namespace = ap (λ t. t.namespace) shape.tenant;
    tier = shape.tier;
    members =
        rw (shape.tenant, shape.releases) (All-sort_stable member_less (IsMemberOf own) members h);
  }
    where
      own : Tenant
      own = record { namespace = ns.name; release = install }

      bare : TenantState
      bare = bare_state ns install (sort_stable member_less members)

      merged : SameShape (merge_ledger e secrets bare) bare
      merged = merge_ledger-SameShape e secrets bare

      shape : SameShape (tenant_state e kube ns secrets (install, members)) bare
      shape =
          SameShape-trans (effective_ttl-SameShape _ _)
            (record { tenant = merged.tenant; tier = merged.tier; releases = merged.releases })

  tenant_states-IsTenantOf :
      (secrets : List ReleaseSecret) (groups : List (Text × List Release))
      → All (IsGroup ns.name) groups
      → All (IsTenantOf ns) (map (tenant_state e kube ns secrets) groups)
  tenant_states-IsTenantOf secrets [] h = tt
  tenant_states-IsTenantOf secrets (g ∷ groups) h =
      (tenant_state-IsTenantOf secrets g h.0, tenant_states-IsTenantOf secrets groups h.1)

  -- what holds of the tenants, where there are some
  abbrev pub OkAll : (TenantState → Type 0) → Result NamespaceError (List TenantState) → Type 0
  OkAll P (ok tenants) = All P tenants
  OkAll P (err p) = Unit

  with_secrets-IsTenantOf :
      (rels : List Release) (r : Result Text (List ReleaseSecret))
      → All (λ rel. rel.namespace ≡ ns.name) rels
      → OkAll (IsTenantOf ns) (with_secrets e kube ns rels r)
  unfolding with_secrets
  with_secrets-IsTenantOf rels (err text) h = tt
  with_secrets-IsTenantOf rels (ok secrets) h =
      tenant_states-IsTenantOf secrets (group_releases rels [])
        (group_releases-IsGroup ns.name rels [] h tt)

  with_releases-IsTenantOf :
      (r : Result Text (List Release))
      → ((rels : List Release) → r ≡ ok rels → All (λ rel. rel.namespace ≡ ns.name) rels)
      → OkAll (IsTenantOf ns) (with_releases e kube ns r)
  unfolding with_releases
  with_releases-IsTenantOf (err text) h = tt
  with_releases-IsTenantOf (ok []) h = tt
  with_releases-IsTenantOf (ok (rel ∷ rest)) h =
      with_secrets-IsTenantOf (rel ∷ rest) (kube.release_secrets ns.name) (h (rel ∷ rest) refl)

  pub namespace_tenants-IsTenantOf :
      ListsOwn helm → OkAll (IsTenantOf ns) (namespace_tenants e kube helm ns)
  unfolding namespace_tenants
  namespace_tenants-IsTenantOf lists =
      with_releases-IsTenantOf (helm.list_releases ns.name) (lists.own ns.name)
