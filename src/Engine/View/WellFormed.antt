-- ===== src/Engine/View/WellFormed.antt =====
-- The well-formedness of a view, through `View` of pkg/engine/view.go.
use gemaal.Base.{
  subst, List, [], ◌∷◌, ◌++◌, some, Text, ℤ, ◌≡◌, inl, inr, arith, All, All-append, All-map, Any,
  Any-append_left, Any-append_right, Option-cases,
}
use gemaal.Base.Sort.{sort_stable, All-sort_stable}
use gemaal.Config.{tier_ttl}
use gemaal.Engine.Types.{
  Namespace, Result, ok, err, ◌>>=◌, KubeClient, HelmClient, Engine, TenantState, NamespaceError,
  ViewError, View,
}
use gemaal.Engine.View.{
  namespace_tenants, after_listing, view_step, view_loop, namespace_less, tenant_less, empty_view,
  sort_tenants, view_of, view_with, view,
}
use gemaal.Engine.View.Shape.{IsTenantOf, ListsOwn, OkAll, namespace_tenants-IsTenantOf}

-- A view: its namespaces carry configured tiers, and each of its tenants is one of a namespace.
pub record IsWellFormed (e : Engine) (v : View) : Type 0 where
  pub configured : All (λ ns. (ttl : ℤ) × (tier_ttl e.config ns.tier ≡ some ttl)) v.namespaces
  pub homes : All (λ s. Any (λ ns. IsTenantOf ns s) v.namespaces) v.tenants

OkView : Engine → Result ViewError View → Type 0
OkView e (ok v) = IsWellFormed e v
OkView e (err p) = Unit

OkView-bind :
    (e : Engine) (r : Result ViewError View) (f : View → Result ViewError View)
    → OkView e r
    → ((u : View) → IsWellFormed e u → OkView e (f u))
    → OkView e (r >>= f)
unfolding OkView
OkView-bind e (ok u) f h g = g u h
OkView-bind e (err p) f h g = tt

module _ (e : Engine) (kube : KubeClient) (helm : HelmClient) (lists : ListsOwn helm) where
  homes-grow :
      (tenants : List TenantState) (l m : List Namespace)
      → All (λ s. Any (λ ns. IsTenantOf ns s) l) tenants
      → All (λ s. Any (λ ns. IsTenantOf ns s) (l ++ m)) tenants
  homes-grow tenants l m = All-map (λ s h. Any-append_left (λ ns. IsTenantOf ns s) l m h) tenants

  grown :
      (ns : Namespace) (v : View) (ttl : ℤ)
      → tier_ttl e.config ns.tier ≡ some ttl
      → IsWellFormed e v
      → All (λ x. (t : ℤ) × (tier_ttl e.config x.tier ≡ some t)) (v.namespaces ++ ns ∷ [])
  grown ns v ttl t w =
      All-append (λ x. (t : ℤ) × (tier_ttl e.config x.tier ≡ some t)) v.namespaces (ns ∷ [])
        w.configured ((ttl, t), tt)

  enter :
      (ns : Namespace) (v : View) (ttl : ℤ) (r : Result NamespaceError (List TenantState))
      → tier_ttl e.config ns.tier ≡ some ttl
      → OkAll e kube helm ns (IsTenantOf ns) r
      → IsWellFormed e v
      → OkView e (after_listing e ns r (record v { namespaces = v.namespaces ++ ns ∷ [] }))
  unfolding after_listing OkView
  enter ns v ttl (ok tenants) t h w = record {
    configured = grown ns v ttl t w;
    homes =
        All-append (λ s. Any (λ x. IsTenantOf x s) (v.namespaces ++ ns ∷ [])) v.tenants tenants
          (homes-grow v.tenants v.namespaces (ns ∷ []) w.homes)
          (All-map
            (λ s own. Any-append_right (λ x. IsTenantOf x s) v.namespaces (ns ∷ []) (inl own))
            tenants h);
  }
  enter ns v ttl (err p) t h w = elim (Option-cases (e.ended ns.name)) [
    | inl q ↦
        rw (q, after_listing)
          (record {
            configured = grown ns v ttl t w;
            homes = homes-grow v.tenants v.namespaces (ns ∷ []) w.homes;
          })
    | inr (c, q) ↦ rw (q, after_listing) tt
  ]

  view_step-IsWellFormed :
      (ns : Namespace) (v : View) → IsWellFormed e v → OkView e (view_step e kube helm ns v)
  unfolding view_step OkView
  view_step-IsWellFormed ns v w = elim (Option-cases (tier_ttl e.config ns.tier)) [
    | inl q ↦ rw (q, view_step) w
    | inr (ttl, q) ↦
        rw (q, view_step)
          (enter ns v ttl (namespace_tenants e kube helm ns) q
            (namespace_tenants-IsTenantOf e kube helm ns lists) w)
  ]

  view_loop-IsWellFormed :
      (l : List Namespace) (v : View) → IsWellFormed e v → OkView e (view_loop e kube helm l v)
  unfolding view_loop OkView
  view_loop-IsWellFormed [] v w = w
  view_loop-IsWellFormed (ns ∷ l) v w =
      OkView-bind e (view_step e kube helm ns v) (view_loop e kube helm l)
        (view_step-IsWellFormed ns v w) (λ u h. view_loop-IsWellFormed l u h)

  sorted-IsWellFormed : (v : View) → IsWellFormed e v → IsWellFormed e (sort_tenants v)
  sorted-IsWellFormed v w = record {
    configured = w.configured;
    homes =
        All-sort_stable tenant_less (λ s. Any (λ ns. IsTenantOf ns s) v.namespaces) v.tenants
          w.homes;
  }

  view_of-IsWellFormed :
      (at : ℤ) (r : Result Text (List Namespace)) → OkView e (view_of e at kube helm r)
  unfolding view_of OkView
  view_of-IsWellFormed at (err text) = tt
  view_of-IsWellFormed at (ok namespaces) =
      OkView-bind e (view_loop e kube helm (sort_stable namespace_less namespaces) (empty_view at))
        (λ v. ok (sort_tenants v))
        (view_loop-IsWellFormed (sort_stable namespace_less namespaces) (empty_view at)
          (record { configured = tt; homes = tt }))
        sorted-IsWellFormed

-- A view that succeeds, with Helm listing each namespace's own releases, is well formed: every
-- namespace in it has a configured tier, and every tenant is one of these namespaces', with its
-- name and its tier, and with releases that all carry that namespace and, less the infra suffix,
-- the tenant's name.
pub view-IsWellFormed :
    (e : Engine) (at : ℤ) (v : View)
    → ((helm : HelmClient) → e.helm ≡ some helm → ListsOwn helm)
    → view e at ≡ ok v
    → IsWellFormed e v
unfolding view view_with OkView
view-IsWellFormed e at v lists h = elim (Option-cases e.kube) [
  | inl k ↦ absurd (ground arith)
  | inr (kube, k) ↦ elim (Option-cases e.helm) [
    | inl q ↦ absurd (ground arith)
    | inr (helm, q) ↦
        subst (OkView e) (rw (k, q, view) at h)
          (view_of-IsWellFormed e kube helm (lists helm q) at _)
  ]
]
