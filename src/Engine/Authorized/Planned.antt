-- ===== src/Engine/Authorized/Planned.antt =====
-- planFromView of pkg/engine/sweep.go against `authorize` of pkg/engine/apply.go.
use mathlib.Core.List.{append_assoc}
use gemaal.Base.{
  List, [], ◌∷◌, ◌++◌, map, true, false, none, some, Text, codes, ◌≡◌, ◌∙◌, refl, sym, subst, All,
  All-map, All-append, Any, Any-map, any, Bool-cases, text_eq, text_eq_refl, has_prefix, text_lt,
  inl, inr,
}
use gemaal.Base.Sort.{sort_stable, All-sort_stable}
use gemaal.Config.{AllowList}
use gemaal.Engine.Types.{
  Namespace, Release, SsmClient, Engine, ssm_prefix, s3_prefix, TenantState, Action, Plan, View,
  NamespaceProblem,
}
use gemaal.Engine.Rules.Order.{All-sort_actions}
use gemaal.Engine.View.{complete}
use gemaal.Engine.View.Shape.{IsTenantOf, IsMemberOf}
use gemaal.Engine.View.WellFormed.{IsWellFormed}
use gemaal.Engine.Artifacts.{ArtifactGroup, normalized_root, bucket_id}
use gemaal.Engine.Sweep.{
  Narrow, teardown, collect, Pass, pass_of, tier_selected, sweep_ssm, sweep_s3, report_unreadable,
  sweep_artifacts, bare_plan, classify_tenants, plan_from_view,
}
use gemaal.Engine.Sweep.Tenants.{
  teardowns, All-teardowns, delete-classify_tenants, namespaces-classify_tenants,
}
use gemaal.Engine.Sweep.Artifacts.{
  Holds, sweep_ssm-Holds, sweep_s3-Holds, sweep_root-Holds, sweep_bucket-Holds,
}
use gemaal.Engine.Apply.{bucket_prefix, outside, authorize_ssm, authorize_s3, authorize, refusal}
use gemaal.Engine.Apply.Gates.{refusal-none}
use gemaal.Engine.Authorized.{
  any-of_Any, selected_of_home, authorize_release-teardown, IsUnder, ListsSingleSlash,
  visit_parameters-IsUnder, visit_objects-IsUnder,
}

outside-of_All :
    (want : Text) (names : List Text)
    → All (λ name. has_prefix name want ≡ true) names
    → outside want names ≡ none
unfolding outside
outside-of_All want [] h = refl
outside-of_All want (name ∷ names) (h, hs) = rw (h, outside-of_All want names hs)

-- An action that is authorized for every plan with these selected namespaces.
abbrev pub IsAuthorized : AllowList → List Text → Action → Type 0
IsAuthorized a names x = (q : Plan) → q.namespaces ≡ names → authorize a x q ≡ none

module _ (a : AllowList) (names : List Text) (c : Pass) (g : ArtifactGroup)
    (attributable : g.attributable ≡ true) where
  collect_ssm-IsAuthorized :
      (root key : Text)
      → Any (λ r. root ≡ normalized_root r) a.ssm_roots
      → IsUnder root key g
      → IsAuthorized a names (collect c.at c.grace ssm_prefix g)
  unfolding authorize authorize_ssm
  collect_ssm-IsAuthorized root key listed under q e =
      rw (found, outside-of_All g.id (sort_stable text_lt g.names) sorted)
    where
      found :
          any
            (λ r. text_eq g.id (
              normalized_root r
              ++ (g.tenant.namespace ++ (codes "/" ++ (g.tenant.release ++ codes "/")))))
            a.ssm_roots
          ≡ true
      found =
          any-of_Any (λ r. root ≡ normalized_root r) _ a.ssm_roots
            (λ r same. rw (under.named attributable, ← same, text_eq_refl)) listed

      sorted : All (λ name. has_prefix name g.id ≡ true) (sort_stable text_lt g.names)
      sorted =
          All-sort_stable text_lt (λ name. has_prefix name g.id ≡ true) g.names
            (under.names attributable)

  collect_s3-IsAuthorized :
      (bucket key : Text)
      → Any (λ b. bucket ≡ b) a.s3_buckets
      → IsUnder (bucket_id bucket ++ codes "/") key g
      → IsAuthorized a names (collect c.at c.grace s3_prefix g)
  unfolding authorize authorize_s3
  collect_s3-IsAuthorized bucket key listed under q e = rw found
    where
      shape : g.id ≡ bucket_prefix bucket g.tenant
      shape = under.named attributable ∙ simp append_assoc

      found : any (λ b. text_eq g.id (bucket_prefix b g.tenant)) a.s3_buckets ≡ true
      found =
          any-of_Any (λ b. bucket ≡ b) _ a.s3_buckets (λ b same. rw (shape, ← same, text_eq_refl))
            listed

module _ (e : Engine) (v : View) (n : Narrow) (well_formed : IsWellFormed e v) where
  abbrev selected : List Text
  selected = map (λ ns. ns.name) v.namespaces

  abbrev reach : AllowList
  reach = e.config.allow_list

  abbrev Authorized : List Action → Type 0
  Authorized = All (IsAuthorized reach selected)

  snoc-Authorized :
      (l : List Action) (x : Action)
      → IsAuthorized reach selected x
      → Authorized l
      → Authorized (l ++ x ∷ [])
  snoc-Authorized l x a h = All-append (IsAuthorized reach selected) l (x ∷ []) h (a, tt)

  single_at :
      (client : SsmClient) (root : Text)
      → ListsSingleSlash client
      → (roots : List Text) → Any (λ r. root ≡ normalized_root r) roots
      → All
          (λ param. has_prefix param.name (root ++ codes "/") ≡ false)
          (client.list_parameters root).items
  single_at client root lists [] h = absurd h
  single_at client root lists (r ∷ roots) (inl same) =
      subst
        (λ x.
          All (λ param. has_prefix param.name (x ++ codes "/") ≡ false)
            (client.list_parameters x).items)
        (sym same) (lists.single r)
  single_at client root lists (r ∷ roots) (inr h) = single_at client root lists roots h

  module _ (single : (client : SsmClient) → e.ssm ≡ some client → ListsSingleSlash client) where
    sweeps-Authorized :
        (p : Plan)
        → Holds selected Authorized p
        → Holds selected Authorized (
            sweep_s3
              (pass_of e v n)
              e.s3
              reach.s3_buckets
              (sweep_ssm (pass_of e v n) e.ssm reach.ssm_roots p))
    sweeps-Authorized p h =
        let c = pass_of e v n in
        sweep_s3-Holds c selected Authorized e.s3 reach.s3_buckets _
          (λ client bucket q _ listed.
            sweep_bucket-Holds c selected Authorized (IsUnder (bucket_id bucket ++ codes "/"))
              client bucket q
              (λ key g l u k.
                snoc-Authorized l (collect c.at c.grace s3_prefix g)
                  (collect_s3-IsAuthorized reach selected c g k.attributable bucket key listed u))
              (visit_objects-IsUnder bucket (client.list_objects bucket).items [] tt))
          (sweep_ssm-Holds c selected Authorized e.ssm reach.ssm_roots p
            (λ client root q there listed.
              sweep_root-Holds c selected Authorized (IsUnder root) client root q
                (λ key g l u k.
                  snoc-Authorized l (collect c.at c.grace ssm_prefix g)
                    (collect_ssm-IsAuthorized reach selected c g k.attributable root key listed u))
                (visit_parameters-IsUnder root (client.list_parameters root).items []
                  (single_at client root (single client there) reach.ssm_roots listed) tt))
            h)

    unreadable-Holds :
        (l : List NamespaceProblem) (p : Plan)
        → Holds selected Authorized p
        → Holds selected Authorized (report_unreadable l p)
    unfolding report_unreadable
    unreadable-Holds [] p h = h
    unreadable-Holds (x ∷ l) p h =
        unreadable-Holds l _ (record { selected = h.selected; deletions = h.deletions })

    artifacts-Authorized :
        (p : Plan)
        → Holds selected Authorized p
        → Holds selected Authorized (sweep_artifacts e v n p)
    unfolding sweep_artifacts
    artifacts-Authorized p h = elim (Bool-cases (complete v)) [
      | inl q ↦ rw q (sweeps-Authorized p h)
      | inr q ↦ rw q (unreadable-Holds v.unreadable p h)
    ]

    teardown-IsAuthorized :
        (s : TenantState) (rel : Release)
        → Any (λ ns. IsTenantOf ns s) v.namespaces
        → IsMemberOf s.tenant rel
        → IsAuthorized reach selected (teardown v.at s rel)
    unfolding authorize tier_selected
    teardown-IsAuthorized s rel home member q names =
        authorize_release-teardown (teardown v.at s rel).item q rel
          (subst (λ l. any (λ ns. text_eq ns s.tenant.namespace) l ≡ true) (sym names)
            (selected_of_home s.tenant.namespace v.namespaces
              (Any-map (λ ns t. t.namespace) v.namespaces home)))
          member refl

    pub members_of_home :
        (s : TenantState) (l : List Namespace)
        → Any (λ ns. IsTenantOf ns s) l
        → All (IsMemberOf s.tenant) s.releases
    members_of_home s [] h = absurd h
    members_of_home s (ns ∷ l) (inl h) = h.members
    members_of_home s (ns ∷ l) (inr h) = members_of_home s l h

    teardowns-Authorized : Authorized (teardowns v.at n v.tenants)
    teardowns-Authorized = All-teardowns v.at n (IsAuthorized reach selected) v.tenants (
        All-map
          (λ s home m due.
            All-map (λ rel member. teardown-IsAuthorized s rel home member) s.releases
              (members_of_home s v.namespaces home))
          v.tenants well_formed.homes)

    -- Whatever a well-formed view holds, and where SSM lists no name with a doubled slash behind a
    -- root, the engine's plan passes `Apply`'s authorization as a whole: no action of it is
    -- refused, so a sweep is never refused by its own planner.
    pub plan_from_view-authorized : let p = plan_from_view e v n in refusal reach p.delete p ≡ none
    unfolding plan_from_view
    plan_from_view-authorized =
        refusal-none reach (plan_from_view e v n).delete (plan_from_view e v n) (
          All-map (λ x f. f (plan_from_view e v n) swept.selected) _
            (All-sort_actions (IsAuthorized reach selected) _ swept.deletions))
      where
        classified : Plan
        classified = classify_tenants v.at n v.tenants (bare_plan e v)

        swept : Holds selected Authorized (sweep_artifacts e v n classified)
        swept = artifacts-Authorized classified (record {
          selected = namespaces-classify_tenants v.at n v.tenants (bare_plan e v);
          deletions =
              rw (delete-classify_tenants v.at n v.tenants (bare_plan e v)) teardowns-Authorized;
        })
