-- ===== src/Engine/Decommission/Ring.antt =====
-- Decommission of pkg/engine/decommission.go, through `Apply`.
use gemaal.Base.{
  List, [], ◌∷◌, ◌++◌, map, ◌&&◌, Bool, true, false, none, some, Text, codes, ℤ, ◌≡◌, ◌∙◌, refl,
  sym, ap, subst, arith, inl, inr, All, All-map, All-members, Any, Any-map, Any-append_right,
  Bool-cases, text_eq, find_by, cut_prefix, cut_prefix-append,
}
use mathlib.Core.List.{append_assoc}
use gemaal.Engine.Types.{
  Namespace, Release, ok, Engine, helm_release, TenantState, Action, Source, View,
}
use gemaal.Engine.Rules.{claim_live, sort_actions}
use gemaal.Engine.Rules.Order.{All-sort_actions, Any-sort_actions}
use gemaal.Engine.View.{view, find}
use gemaal.Engine.View.Shape.{IsTenantOf, IsMemberOf}
use gemaal.Engine.View.WellFormed.{IsWellFormed}
use gemaal.Engine.Sweep.{tier_selected}
use gemaal.Engine.Apply.{Call, uninstall, Trace, World, Applied, authorize, apply}
use gemaal.Engine.Apply.Calls.{calls_of_kind, calls_of, apply_confirmed_calls}
use gemaal.Engine.Authorized.{authorize_release-teardown, selected_of_home}
use gemaal.Engine.Decommission.{end_release, decommission_plan, decommission_in, decommission}

find_by-some :
    {A : Type 0} (test : A → Bool) (xs : List A) (x : A)
    → find_by test xs ≡ some x
    → (test x ≡ true) × Any (λ y. x ≡ y) xs
find_by-some test [] x h = absurd (ground arith)
find_by-some test (y ∷ ys) x h = elim (Bool-cases (test y)) [
  | inl e ↦ let same : y ≡ x = ground arith in (subst (λ z. test z ≡ true) same e, inl (sym same))
  | inr e ↦ let (p, q) = find_by-some test ys x (ground arith) in (p, inr q)
]

-- What the calls of one tenant's end are: each uninstalls one of its releases, and each of its
-- releases is uninstalled.
pub record EndsRing (s : TenantState) (calls : List Call) : Type 0 where
  pub only : All (λ c. Any (λ rel. c ≡ uninstall s.tenant.namespace rel.name) s.releases) calls
  pub every : All (λ rel. Any (λ c. c ≡ uninstall s.tenant.namespace rel.name) calls) s.releases

module _ (e : Engine) (at : ℤ) (s : TenantState) where
  calls-end_release :
      (rel : Release)
      → IsMemberOf s.tenant rel
      → calls_of_kind helm_release e (end_release at s rel).item
        ≡ uninstall s.tenant.namespace rel.name ∷ []
  unfolding calls_of_kind
  calls-end_release rel (ns, install) = rw (ns, calls_of_kind, shift)
    where
      shift :
          cut_prefix
            (s.tenant.namespace ++ (codes "/" ++ rel.name))
            (s.tenant.namespace ++ codes "/")
          ≡ some rel.name
      shift =
          ap (λ x. cut_prefix x (s.tenant.namespace ++ codes "/"))
            (sym (append_assoc s.tenant.namespace (codes "/") rel.name))
          ∙ cut_prefix-append (s.tenant.namespace ++ codes "/") rel.name

  -- the action ends one of these releases
  abbrev EndsOne : List Release → Action → Type 0
  EndsOne rels x = Any (λ rel. (x ≡ end_release at s rel) × IsMemberOf s.tenant rel) rels

  calls-of_one :
      (rels : List Release) (x : Action)
      → EndsOne rels x
      → (c : Call) × (calls_of_kind x.item.kind e x.item ≡ c ∷ [])
        × Any (λ rel. c ≡ uninstall s.tenant.namespace rel.name) rels
  calls-of_one [] x h = absurd h
  calls-of_one (rel ∷ rels) x (inl (same, member)) =
      (uninstall s.tenant.namespace rel.name, rw same (calls-end_release rel member), inl refl)
  calls-of_one (rel ∷ rels) x (inr h) = let (c, q, m) = calls-of_one rels x h in (c, q, inr m)

  calls-only :
      (rels : List Release) (xs : List Action)
      → All (EndsOne rels) xs
      → All (λ c. Any (λ rel. c ≡ uninstall s.tenant.namespace rel.name) rels) (calls_of e xs)
  unfolding calls_of
  calls-only rels [] h = tt
  calls-only rels (x ∷ xs) (o, h) =
      let (c, q, m) = calls-of_one rels x o in rw q (m, calls-only rels xs h)

  calls-every :
      (rel : Release) (xs : List Action)
      → IsMemberOf s.tenant rel
      → Any (λ x. x ≡ end_release at s rel) xs
      → Any (λ c. c ≡ uninstall s.tenant.namespace rel.name) (calls_of e xs)
  unfolding calls_of
  calls-every rel [] member h = absurd h
  calls-every rel (x ∷ xs) member (inl same) = rw (same, calls-end_release rel member) (inl refl)
  calls-every rel (x ∷ xs) member (inr h) =
      Any-append_right _ (calls_of_kind x.item.kind e x.item) (calls_of e xs)
        (calls-every rel xs member h)

  Any-map_end :
      (rel : Release) (rels : List Release)
      → Any (λ r. rel ≡ r) rels
      → Any (λ x. x ≡ end_release at s rel) (map (end_release at s) rels)
  Any-map_end rel [] h = absurd h
  Any-map_end rel (r ∷ rels) (inl q) = inl (ap (end_release at s) (sym q))
  Any-map_end rel (r ∷ rels) (inr h) = inr (Any-map_end rel rels h)

  All-map_end :
      (P : Action → Type 0) (rels : List Release)
      → All (λ rel. P (end_release at s rel)) rels
      → All P (map (end_release at s) rels)
  All-map_end P [] h = tt
  All-map_end P (r ∷ rels) (p, h) = (p, All-map_end P rels h)

  ring-EndsRing :
      All (IsMemberOf s.tenant) s.releases
      → EndsRing s (calls_of e (sort_actions (map (end_release at s) s.releases)))
  ring-EndsRing members = record {
    only = calls-only s.releases _ (
        All-sort_actions (EndsOne s.releases) _
          (All-map_end (EndsOne s.releases) s.releases (with_members s.releases members)));
    every = All-map2 s.releases s.releases members (All-members s.releases);
  }
    where
      with_members :
          (rels : List Release)
          → All (IsMemberOf s.tenant) rels
          → All (λ rel. EndsOne rels (end_release at s rel)) rels
      with_members [] h = tt
      with_members (r ∷ rels) (m, h) =
          (inl (refl, m), All-map (λ rel q. inr q) rels (with_members rels h))

      All-map2 :
          (all rels : List Release)
          → All (IsMemberOf s.tenant) rels
          → All (λ rel. Any (λ r. rel ≡ r) all) rels
          → All
              (λ rel.
                Any
                  (λ c. c ≡ uninstall s.tenant.namespace rel.name)
                  (calls_of e (sort_actions (map (end_release at s) all))))
              rels
      All-map2 all [] m h = tt
      All-map2 all (r ∷ rels) (m, ms) (h, hs) = (
        calls-every r _ m (Any-sort_actions (λ x. x ≡ end_release at s r) _ (Any-map_end r all h)),
        All-map2 all rels ms hs,
      )

module _ (e : Engine) (world : World) (at : ℤ) (now : ℤ) (v : View) (s : TenantState)
    (namespace release : Text) (viewed : view e at ≡ ok v)
    (found : find v namespace release ≡ some s) where
  found-tenant :
      (text_eq s.tenant.namespace namespace && text_eq s.tenant.release release ≡ true)
      × Any (λ u. s ≡ u) v.tenants
  unfolding find
  found-tenant =
      find_by-some (λ u. text_eq u.tenant.namespace namespace && text_eq u.tenant.release release)
        v.tenants s found

  All-found : (P : TenantState → Type 0) (l : List TenantState) → Any (λ u. s ≡ u) l → All P l → P s
  All-found P [] h k = absurd h
  All-found P (u ∷ l) (inl q) k = subst P (sym q) k.0
  All-found P (u ∷ l) (inr h) k = All-found P l h k.1

  module _ (well_formed : IsWellFormed e v) where
    home : Any (λ ns. IsTenantOf ns s) v.namespaces
    home =
        All-found (λ u. Any (λ ns. IsTenantOf ns u) v.namespaces) v.tenants found-tenant.1
          well_formed.homes

    members_at :
        (l : List Namespace) → Any (λ ns. IsTenantOf ns s) l → All (IsMemberOf s.tenant) s.releases
    members_at [] h = absurd h
    members_at (ns ∷ l) (inl h) = h.members
    members_at (ns ∷ l) (inr h) = members_at l h

    end-authorized :
        (rel : Release)
        → IsMemberOf s.tenant rel
        → authorize e.config.allow_list (end_release v.at s rel) (decommission_plan v s) ≡ none
    unfolding authorize tier_selected
    end-authorized rel member =
        authorize_release-teardown (end_release v.at s rel).item (decommission_plan v s) rel
          (selected_of_home s.tenant.namespace v.namespaces
            (Any-map (λ ns t. t.namespace) v.namespaces home))
          member refl

    -- A confirmed Decommission of a tenant that a well-formed view lists and that no live claim
    -- protects uninstalls each of its releases and makes no other call, whatever its keep-until
    -- and its ledger say.
    pub decommission-EndsRing :
        (t : Trace)
        → claim_live s v.at ≡ false
        → (a : Applied) × (calls : List Call) × (decommission e world at now namespace release true
              t
            ≡ ok a)
          × (a.trace ≡ t ++ calls)
          × EndsRing s calls
    unfolding decommission decommission_in
    decommission-EndsRing t free =
        let members = members_at v.namespaces home in
        let authorized =
          All-map_end e v.at s (λ x. authorize e.config.allow_list x (decommission_plan v s) ≡ none)
            s.releases (All-map end-authorized s.releases members) in
        (
          apply e world now (decommission_plan v s) true Source.explicit t,
          calls_of e (sort_actions (map (end_release v.at s) s.releases)),
          rw (viewed, decommission, decommission_in, found, free),
          (apply_confirmed_calls e world now (decommission_plan v s) Source.explicit t
              authorized).0,
          ring-EndsRing e v.at s members,
        )
