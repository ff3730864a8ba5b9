-- ===== src/Engine/Sweep/Planned.antt =====
-- planFromView of pkg/engine/sweep.go against the garbage rules in words.
use gemaal.Base.{
  ap, List, [], ◌∷◌, ◌++◌, map, ◌&&◌, not, true, false, some, codes, ℤ, ◌≤ℤ◌, Text, ◌≡◌, ◌≢◌, ◌↔◌,
  refl, ◌⊎◌, inl, inr, arith, All, All-append, All-map, All-members, Any, any, Any-map,
  Any-append_left, Bool-cases, int_not_le, ◌<ℤ◌, time_sub, is_empty, text_eq, text_eq_iff,
}
use gemaal.Engine.Types.{
  Namespace, Release, Engine, Kind, ssm_prefix, s3_prefix, orphan_grace, Tenant, TenantState,
  Action, Plan, View, NamespaceProblem, SsmClient, S3Client,
}
use gemaal.Engine.Rules.{tenant_eq}
use gemaal.Engine.Rules.Order.{All-sort_actions, Any-sort_actions}
use gemaal.Engine.View.{complete, live}
use gemaal.Engine.Artifacts.{ArtifactGroup, group_key, normalized_root, bucket_id}
use gemaal.Engine.Sweep.Idle.{
  Artifact, under_root, in_bucket, IsMadeOf, visit_parameters-IsMadeOf, visit_objects-IsMadeOf,
  time_sub-antitone,
}
use gemaal.Engine.Sweep.{
  Narrow, matches, teardown, classify_tenants, collect, is_live, sweep_ssm, sweep_s3,
  report_unreadable, bare_plan, pass_of, sweep_artifacts, plan_from_view,
}
use gemaal.Engine.Sweep.Tenants.{
  IsDue, teardowns, All-teardowns, Any-teardowns, delete-classify_tenants,
  namespaces-classify_tenants,
}
use gemaal.Engine.Sweep.Artifacts.{
  Holds, IsCollectable, sweep_ssm-Holds, sweep_s3-Holds, sweep_root-Holds, sweep_bucket-Holds,
}

-- A request narrows a tenant in: each of its fields is empty or the tenant's.
pub record InScope (n : Narrow) (t : Tenant) : Type 0 where
  pub namespace : (n.namespace ≡ []) ⊎ (t.namespace ≡ n.namespace)
  pub release : (n.release ≡ []) ⊎ (t.release ≡ n.release)

-- One release of a watched tenant that is in scope and due.
pub record IsTeardown (v : View) (n : Narrow) (x : Action) : Type 0 where
  pub state : TenantState
  pub watched : Any (λ s. state ≡ s) v.tenants
  pub in_scope : InScope n state.tenant
  pub is_due : IsDue state v.at
  pub one_of : Any (λ rel. x ≡ teardown v.at state rel) state.releases

-- The item stands for the listed artifacts of one key, at least one, and all of them are idle past
-- the grace period.
pub record AreIdle (e : Engine) (v : View) (prefix : Text) (ms : List Artifact) (x : Action)
    : Type 0 where
  pub key : Text
  pub id : x.item.id ≡ prefix ++ key
  pub some_one : Any (λ m. group_key m.path ≡ key) ms
  pub idle : All (λ m. (group_key m.path ≢ key) ⊎ (e.config.grace <ℤ time_sub v.at m.modified)) ms

-- Where an item's artifacts were listed: under a root of the configuration, or in a bucket of it.
pub data IsListed (e : Engine) (v : View) (x : Action) : Type 0 where
  parameters :
      (client : SsmClient) (root : Text)
      → x.item.kind ≡ ssm_prefix
      → e.ssm ≡ some client
      → Any (λ r. root ≡ normalized_root r) e.config.allow_list.ssm_roots
      → AreIdle e v root (under_root root (client.list_parameters root).items) x
      → IsListed e v x
  objects :
      (client : S3Client) (bucket : Text)
      → x.item.kind ≡ s3_prefix
      → e.s3 ≡ some client
      → Any (λ b. bucket ≡ b) e.config.allow_list.s3_buckets
      → AreIdle e v (bucket_id bucket ++ codes "/") (in_bucket (client.list_objects bucket).items) x
      → IsListed e v x

-- Artifacts of a tenant that is in scope, found in a whole view, in a namespace that was
-- enumerated, with no such tenant left, all of them listed as idle past the grace period.
pub record IsOrphan (e : Engine) (v : View) (n : Narrow) (x : Action) : Type 0 where
  pub by_rule : x.rule ≡ orphan_grace
  pub first_ring : x.order ≡ 0
  pub in_scope : InScope n x.item.tenant
  pub whole : v.unreadable ≡ []
  pub reached : Any (λ ns. ns.name ≡ x.item.tenant.namespace) v.namespaces
  pub gone : All (λ s. s.tenant ≢ x.item.tenant) v.tenants
  pub listed : IsListed e v x

scope_field :
    (want got : Text)
    → ((not (is_empty want) && not (text_eq got want)) ≡ false) ↔ ((want ≡ []) ⊎ (got ≡ want))
scope_field [] got = ground arith
scope_field (c ∷ want) got = ground (arith, text_eq_iff got (c ∷ want))

pub matches_iff : (n : Narrow) (t : Tenant) → (matches n t ≡ true) ↔ InScope n t
unfolding matches
matches_iff n t = (
  λ h. record {
    namespace = (scope_field n.namespace t.namespace).0 (ground arith);
    release = (scope_field n.release t.release).0 (ground arith);
  },
  λ h. rw (
    (scope_field n.namespace t.namespace).1 h.namespace,
    (scope_field n.release t.release).1 h.release,
  ),
)

reached_of_any :
    (t : Text) (namespaces : List Namespace)
    → any (λ ns. text_eq ns t) (map (λ ns. ns.name) namespaces) ≡ true
    → Any (λ ns. ns.name ≡ t) namespaces
reached_of_any t [] h = absurd (ground arith)
reached_of_any t (ns ∷ rest) h = elim (Bool-cases (text_eq ns.name t)) [
  | inl e ↦ inl ((text_eq_iff ns.name t).0 e)
  | inr e ↦ inr (reached_of_any t rest (ground arith))
]

pub tenant_eq_refl : (t : Tenant) → tenant_eq t t ≡ true
unfolding tenant_eq
tenant_eq_refl t =
    ground (arith, text_eq_iff t.namespace t.namespace, text_eq_iff t.release t.release)

gone_of_is_live :
    (t : Tenant) (states : List TenantState)
    → is_live (map (λ s. s.tenant) states) t ≡ false
    → All (λ s. s.tenant ≢ t) states
unfolding is_live
gone_of_is_live t [] h = tt
gone_of_is_live t (s ∷ rest) h = elim (Bool-cases (tenant_eq s.tenant t)) [
  | inl e ↦ absurd (ground arith)
  | inr e ↦ (
    λ same. cc (e, tenant_eq_refl t, ap (λ u. tenant_eq u t) same),
    gone_of_is_live t rest (ground arith),
  )
]

module _ (e : Engine) (v : View) (n : Narrow) where
  AreIdle-collect :
      (kind : Kind) (prefix key : Text) (ms : List Artifact) (g : ArtifactGroup)
      → IsMadeOf prefix ms key g
      → IsCollectable (pass_of e v n) (map (λ ns. ns.name) v.namespaces) g
      → AreIdle e v prefix ms (collect v.at e.config.grace kind g)
  AreIdle-collect kind prefix key ms g m c = record {
    key = key;
    id = m.id;
    some_one = m.some_one;
    idle =
        All-map
          (λ a h. elim h [
            | inl other ↦ inl other
            | inr older ↦ inr (
                still_idle (time_sub v.at g.last_activity) (time_sub v.at a.modified)
                  (int_not_le (time_sub v.at g.last_activity) e.config.grace c.idle)
                  (time_sub-antitone v.at g.last_activity a.modified older))
          ])
          ms m.newest;
  }
    where
      still_idle : (l m : ℤ) → e.config.grace <ℤ l → l ≤ℤ m → e.config.grace <ℤ m
      still_idle l m h k = omega arith

  IsOrphan-collect :
      (kind : Kind) (g : ArtifactGroup)
      → v.unreadable ≡ []
      → IsListed e v (collect v.at e.config.grace kind g)
      → IsCollectable (pass_of e v n) (map (λ ns. ns.name) v.namespaces) g
      → IsOrphan e v n (collect v.at e.config.grace kind g)
  unfolding live
  IsOrphan-collect kind g whole listed c = record {
    by_rule = refl;
    first_ring = refl;
    in_scope = (matches_iff n g.tenant).0 c.in_scope;
    whole = whole;
    reached = reached_of_any g.tenant.namespace v.namespaces c.reached;
    gone = gone_of_is_live g.tenant v.tenants c.gone;
    listed = listed;
  }

  delete-report_unreadable :
      (l : List NamespaceProblem) (p : Plan) → (report_unreadable l p).delete ≡ p.delete
  unfolding report_unreadable
  delete-report_unreadable [] p = refl
  delete-report_unreadable (x ∷ l) p = delete-report_unreadable l _

  is_empty-nil : (l : List NamespaceProblem) → is_empty l ≡ true → l ≡ []
  is_empty-nil [] h = refl
  is_empty-nil (x ∷ l) h = ground arith

  -- A property of deletions that every orphan keeps is kept by the artifact sweeps.
  module _ (D : List Action → Type 0)
      (step : (l : List Action) (x : Action) → IsOrphan e v n x → D l → D (l ++ x ∷ [])) where
    abbrev selected : List Text
    selected = map (λ ns. ns.name) v.namespaces

    sweeps-Holds :
        v.unreadable ≡ []
        → (p : Plan) → Holds selected D p
        → Holds selected D (
            sweep_s3
              (pass_of e v n)
              e.s3
              e.config.allow_list.s3_buckets
              (sweep_ssm (pass_of e v n) e.ssm e.config.allow_list.ssm_roots p))
    sweeps-Holds whole p h =
        sweep_s3-Holds (pass_of e v n) selected D e.s3 e.config.allow_list.s3_buckets _
          (λ client bucket q s m.
            let prefix = bucket_id bucket ++ codes "/" in
            let ms = in_bucket (client.list_objects bucket).items in
            sweep_bucket-Holds (pass_of e v n) selected D (IsMadeOf prefix ms) client bucket q
              (λ key g l made c. step l _ (
                IsOrphan-collect s3_prefix g whole
                  (objects client bucket refl s m
                    (AreIdle-collect s3_prefix prefix key ms g made c))
                  c))
              (visit_objects-IsMadeOf bucket (client.list_objects bucket).items))
          (sweep_ssm-Holds (pass_of e v n) selected D e.ssm e.config.allow_list.ssm_roots p
            (λ client root q s m.
              let ms = under_root root (client.list_parameters root).items in
              sweep_root-Holds (pass_of e v n) selected D (IsMadeOf root ms) client root q
                (λ key g l made c. step l _ (
                  IsOrphan-collect ssm_prefix g whole
                    (parameters client root refl s m
                      (AreIdle-collect ssm_prefix root key ms g made c))
                    c))
                (visit_parameters-IsMadeOf root (client.list_parameters root).items))
            h)

    sweep_artifacts-keeps :
        (p : Plan) → p.namespaces ≡ selected → D p.delete → D (sweep_artifacts e v n p).delete
    unfolding sweep_artifacts complete
    sweep_artifacts-keeps p names h = elim (Bool-cases (is_empty v.unreadable)) [
      | inr q ↦ rw (q, delete-report_unreadable v.unreadable p) h
      | inl q ↦
          rw q
            (sweeps-Holds (is_empty-nil v.unreadable q) p
              (record { selected = names; deletions = h })).deletions
    ]

  abbrev classified : Plan
  classified = classify_tenants v.at n v.tenants (bare_plan e v)

  classified-namespaces : classified.namespaces ≡ map (λ ns. ns.name) v.namespaces
  classified-namespaces = namespaces-classify_tenants v.at n v.tenants (bare_plan e v)

  teardowns-IsTeardown : All (IsTeardown v n) (teardowns v.at n v.tenants)
  teardowns-IsTeardown = All-teardowns v.at n (IsTeardown v n) v.tenants (
      All-map
        (λ s watched m d.
          All-map
            (λ rel one. record {
              state = s;
              watched = watched;
              in_scope = (matches_iff n s.tenant).0 m;
              is_due = d;
              one_of = Any-map (λ r same. ap (teardown v.at s) same) s.releases one;
            })
            s.releases (All-members s.releases))
        v.tenants (All-members v.tenants))

  pub plan_from_view_sound :
      All (λ x. IsTeardown v n x ⊎ IsOrphan e v n x) (plan_from_view e v n).delete
  unfolding plan_from_view
  plan_from_view_sound =
      All-sort_actions (λ x. IsTeardown v n x ⊎ IsOrphan e v n x) _
        (sweep_artifacts-keeps (All (λ x. IsTeardown v n x ⊎ IsOrphan e v n x))
          (λ l x o h. All-append _ l (x ∷ []) h (inr o, tt)) classified classified-namespaces
          (rw (delete-classify_tenants v.at n v.tenants (bare_plan e v))
            (All-map (λ x h. inl h) _ teardowns-IsTeardown)))

  -- A plan misses nothing that is due: it deletes every release of every watched tenant that is in
  -- scope and due, whether or not the artifacts could be listed.
  pub plan_from_view_complete :
      (s : TenantState) (rel : Release)
      → Any (λ u. s ≡ u) v.tenants
      → InScope n s.tenant
      → IsDue s v.at
      → Any (λ r. rel ≡ r) s.releases
      → Any (λ x. x ≡ teardown v.at s rel) (plan_from_view e v n).delete
  unfolding plan_from_view
  plan_from_view_complete s rel watched scope d one =
      Any-sort_actions (λ x. x ≡ teardown v.at s rel) _
        (sweep_artifacts-keeps (Any (λ x. x ≡ teardown v.at s rel))
          (λ l x o h. Any-append_left _ l (x ∷ []) h) classified classified-namespaces
          (rw (delete-classify_tenants v.at n v.tenants (bare_plan e v)) (
            Any-teardowns v.at n s rel v.tenants watched ((matches_iff n s.tenant).1 scope) d one)))
