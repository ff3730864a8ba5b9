-- ===== src/Engine/Authorized.antt =====
-- Artifact groups and the subtree that their names lie under, as `authorize` tests it
-- (pkg/engine/sweep.go, pkg/engine/apply.go).
pub mod Planned
use mathlib.Core.List.{append_assoc}
use gemaal.Base.{
  List, [], ◌∷◌, ◌++◌, map, Bool, true, false, none, some, Text, codes, slash, ℤ, ◌≡◌, ◌∙◌, sym, ap,
  inl, inr, All, All-append, Any, any, Bool-cases, Option-cases, text_eq, text_eq_refl, cut_prefix,
  cut_prefix_sound, cut_prefix-append, trim_prefix, has_prefix,
}
use gemaal.Engine.Types.{Namespace, Release, Object, Parameter, SsmClient, Tenant, Item, Plan}
use gemaal.Engine.Rules.{split_tenant_path}
use gemaal.Engine.Rules.Paths.{
  IsSlashFree, tenant_key, split_tenant_path_sound, top_segment-ne-tenant_key,
}
use gemaal.Engine.View.Shape.{IsMemberOf}
use gemaal.Engine.Artifacts.{
  ArtifactGroup, Groups, group_key, new_group, grow, normalized_root, visit_parameters,
  visit_objects, bucket_id,
}
use gemaal.Engine.Sweep.{release_id, tier_selected}
use gemaal.Engine.Sweep.Artifacts.{visit-All}
use gemaal.Engine.Apply.{authorize_release}

pub any-of_Any :
    (P : Text → Type 0) (test : Text → Bool) (xs : List Text)
    → ((x : Text) → P x → test x ≡ true)
    → Any P xs
    → any test xs ≡ true
any-of_Any P test [] f h = absurd h
any-of_Any P test (x ∷ xs) f (inl p) = rw (f x p)
any-of_Any P test (x ∷ xs) f (inr h) = elim (Bool-cases (test x)) [
  | inl e ↦ rw e
  | inr e ↦ rw e (any-of_Any P test xs f h)
]

-- The namespace of a tenant in a well-formed view is selected.
pub selected_of_home :
    (t : Text) (namespaces : List Namespace)
    → Any (λ ns. t ≡ ns.name) namespaces
    → any (λ ns. text_eq ns t) (map (λ ns. ns.name) namespaces) ≡ true
selected_of_home t [] h = absurd h
selected_of_home t (ns ∷ rest) (inl e) = rw (← e, text_eq_refl t)
selected_of_home t (ns ∷ rest) (inr h) = elim (Bool-cases (text_eq ns.name t)) [
  | inl e ↦ rw e
  | inr e ↦ rw e (selected_of_home t rest h)
]

pub authorize_release-teardown :
    (i : Item) (p : Plan) (rel : Release)
    → tier_selected i.tenant.namespace p ≡ true
    → IsMemberOf i.tenant rel
    → i.id ≡ release_id rel
    → authorize_release i p ≡ none
unfolding authorize_release
authorize_release-teardown i p rel selected (n, r) id =
    rw (selected, id, n, shift, r, text_eq_refl i.tenant.release)
  where
    shift :
        cut_prefix (i.tenant.namespace ++ (codes "/" ++ rel.name)) (i.tenant.namespace ++ codes "/")
        ≡ some rel.name
    shift =
        ap (λ s. cut_prefix s (i.tenant.namespace ++ codes "/"))
          (sym (append_assoc i.tenant.namespace (codes "/") rel.name))
        ∙ cut_prefix-append (i.tenant.namespace ++ codes "/") rel.name

-- What holds of a group with this key under this prefix: an attributable one has its tenant's key
-- and subtree as its identity, and its names lie under that.
pub record IsUnder (prefix : Text) (key : Text) (g : ArtifactGroup) : Type 0 where
  pub keyed : g.attributable ≡ true → key ≡ tenant_key g.tenant
  pub named : g.attributable ≡ true → g.id ≡ prefix ++ tenant_key g.tenant
  pub free : g.attributable ≡ true → IsSlashFree g.tenant.namespace
  pub names : g.attributable ≡ true → All (λ name. has_prefix name g.id ≡ true) g.names

split_of_key :
    (inside : Text) (t : Tenant)
    → group_key inside ≡ tenant_key t
    → IsSlashFree t.namespace
    → (u : Tenant) × (split_tenant_path inside ≡ some u) × (tenant_key u ≡ tenant_key t)
unfolding group_key
split_of_key inside t h free = elim (Option-cases (split_tenant_path inside)) [
  | inl e ↦ absurd (top_segment-ne-tenant_key inside t free (rw (e, group_key) at h))
  | inr (u, e) ↦ (u, e, rw (e, group_key) at h)
]

key_of_split :
    (inside : Text) (t : Tenant)
    → split_tenant_path inside ≡ some t
    → group_key inside ≡ tenant_key t
unfolding group_key
key_of_split inside t e = rw (e, group_key)

-- A name whose group has this tenant's key lies under this tenant's subtree.
name_under :
    (prefix inside : Text) (t : Tenant)
    → group_key inside ≡ tenant_key t
    → IsSlashFree t.namespace
    → trim_prefix inside (codes "/") ≡ inside
    → has_prefix (prefix ++ inside) (prefix ++ tenant_key t) ≡ true
name_under prefix inside t h free clean =
    let (u, e, same) = split_of_key inside t h free in
    let d = split_tenant_path_sound inside u e in
    let whole : inside ≡ tenant_key t ++ d.rest =
      sym clean ∙ d.whole ∙ regroup u d.rest ∙ ap (λ k. k ++ d.rest) same in
    rw (whole, ← append_assoc prefix (tenant_key t) d.rest, cut_prefix-append)
  where
    regroup :
        (u : Tenant) (rest : Text)
        → u.namespace ++ slash ∷ (u.release ++ slash ∷ rest) ≡ tenant_key u ++ rest
    regroup u rest = simp append_assoc

-- The names that one more member adds lie under the subtree of the tenant whose key its group has.
abbrev Covered : Text → List Text → Text → Type 0
Covered prefix names inside =
    (t : Tenant)
    → group_key inside ≡ tenant_key t
    → IsSlashFree t.namespace
    → All (λ name. has_prefix name (prefix ++ tenant_key t) ≡ true) names

-- The groups of one listing.
module _ (prefix : Text) (names : List Text) (modified : ℤ) (inside : Text) where
  fresh-IsUnder :
      Covered prefix names inside
      → IsUnder prefix (group_key inside) (grow names modified (new_group inside prefix))
  unfolding new_group
  fresh-IsUnder covered = elim (Option-cases (split_tenant_path inside)) [
    | inl e ↦
        rw (e, new_group)
          (record { keyed = λ q. cc; named = λ q. cc; free = λ q. cc; names = λ q. cc })
    | inr (t, e) ↦
        let d = split_tenant_path_sound inside t e in
        let key = key_of_split inside t e in
        rw (e, new_group)
          (record {
            keyed = λ _. key;
            named = λ _. ap (λ k. prefix ++ k) key;
            free = λ _. d.namespace_free;
            names = λ _. rw key (covered t key d.namespace_free);
          })
  ]

  grown-IsUnder :
      Covered prefix names inside
      → (g : ArtifactGroup) → IsUnder prefix (group_key inside) g
      → IsUnder prefix (group_key inside) (grow names modified g)
  grown-IsUnder covered g h = record {
    keyed = h.keyed;
    named = h.named;
    free = h.free;
    names = λ q.
        All-append (λ name. has_prefix name g.id ≡ true) g.names names (h.names q)
          (rw (h.named q) (covered g.tenant (h.keyed q) (h.free q)));
  }

-- Asked at a root, SSM lists no parameter whose name has a second slash behind it.
pub record ListsSingleSlash (ssm : SsmClient) : Type 0 where
  pub single :
      (root : Text)
      → All
          (λ param. has_prefix param.name (normalized_root root ++ codes "/") ≡ false)
          (ssm.list_parameters (normalized_root root)).items

clean_of_single :
    (root inside name : Text)
    → name ≡ root ++ inside
    → has_prefix name (root ++ codes "/") ≡ false
    → trim_prefix inside (codes "/") ≡ inside
clean_of_single root inside name e h = elim (Option-cases (cut_prefix inside (codes "/"))) [
  | inl q ↦ rw q
  | inr (r, q) ↦
      let whole : name ≡ (root ++ codes "/") ++ r =
        e
        ∙ ap (λ s. root ++ s) (cut_prefix_sound inside (codes "/") r q)
        ∙ sym (append_assoc root (codes "/") r) in
      cc (h, cut_prefix-append (root ++ codes "/") r)
]

pub visit_parameters-IsUnder :
    (root : Text) (items : List Parameter) (groups : Groups)
    → All (λ param. has_prefix param.name (root ++ codes "/") ≡ false) items
    → All (λ g. IsUnder root g.0 g.1) groups
    → All (λ g. IsUnder root g.0 g.1) (visit_parameters root items groups)
unfolding visit_parameters
visit_parameters-IsUnder root [] groups single h = h
visit_parameters-IsUnder root (param ∷ rest) groups (s, single) h =
    elim (Option-cases (cut_prefix param.name root)) [
      | inl e ↦ rw (e, visit_parameters) (visit_parameters-IsUnder root rest groups single h)
      | inr (inside, e) ↦
          let name = cut_prefix_sound param.name root inside e in
          let covered : Covered root (param.name ∷ []) inside = λ t key free. (
            rw name
                (name_under root inside t key free (clean_of_single root inside param.name name s)),
            tt,
          ) in
          rw (e, visit_parameters)
            (visit_parameters-IsUnder root rest _ single (
              visit-All (IsUnder root) inside root (param.name ∷ []) param.last_modified groups
                (fresh-IsUnder root (param.name ∷ []) param.last_modified inside covered)
                (grown-IsUnder root (param.name ∷ []) param.last_modified inside covered) h))
    ]

pub visit_objects-IsUnder :
    (bucket : Text) (items : List Object) (groups : Groups)
    → All (λ g. IsUnder (bucket_id bucket ++ codes "/") g.0 g.1) groups
    → All (λ g. IsUnder (bucket_id bucket ++ codes "/") g.0 g.1) (visit_objects bucket items groups)
unfolding visit_objects
visit_objects-IsUnder bucket [] groups h = h
visit_objects-IsUnder bucket (obj ∷ rest) groups h =
    let prefix = bucket_id bucket ++ codes "/" in
    visit_objects-IsUnder bucket rest _ (
      visit-All (IsUnder prefix) obj.key prefix [] obj.last_modified groups
        (fresh-IsUnder prefix [] obj.last_modified obj.key (λ t key free. tt))
        (grown-IsUnder prefix [] obj.last_modified obj.key (λ t key free. tt)) h)
