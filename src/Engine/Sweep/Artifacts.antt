-- ===== src/Engine/Sweep/Artifacts.antt =====
-- The plan through the artifact passes of pkg/engine/sweep.go, as an invariant.
use gemaal.Base.{
  ◌∙◌, subst, sym, text_eq_iff, List, [], ◌∷◌, ◌++◌, ◌&&◌, not, Bool, true, false, Option, none,
  some, Text, ℤ, ◌≡◌, refl, inl, inr, arith, All, Any, any, Bool-cases, Option-cases, int_le,
  time_sub, if◌then◌else◌, text_eq,
}
use gemaal.Base.Sort.{sort_stable, All-sort_stable}
use gemaal.Engine.Types.{
  SsmClient, S3Client, Kind, ssm_prefix, s3_prefix, Action, Plan, TargetProblem,
}
use gemaal.Engine.Artifacts.{
  ArtifactGroup, Groups, group_key, new_group, grow, visit, normalized_root, visit_parameters,
  visit_objects,
}
use gemaal.Engine.Sweep.{
  matches, tier_selected, collect, is_live, Pass, classify_group, classify_groups, group_less,
  classify_artifacts, sweep_root, sweep_ssm, sweep_bucket, sweep_s3, add_problem,
}

-- A plan whose selected namespaces are `names`, and whose deletions satisfy `P`.
pub record Holds (names : List Text) (P : List Action → Type 0) (p : Plan) : Type 0 where
  pub selected : p.namespaces ≡ names
  pub deletions : P p.delete

-- What classifyArtifacts has tested where it collects a group.
pub record IsCollectable (c : Pass) (names : List Text) (g : ArtifactGroup) : Type 0 where
  pub attributable : g.attributable ≡ true
  pub in_scope : matches c.narrow g.tenant ≡ true
  pub reached : any (λ ns. text_eq ns g.tenant.namespace) names ≡ true
  pub gone : is_live c.live g.tenant ≡ false
  pub idle : int_le (time_sub c.at g.last_activity) c.grace ≡ false

-- the same as a test
collects : Pass → ArtifactGroup → Plan → Bool
collects c g p =
    g.attributable
    && (matches c.narrow g.tenant
        && (tier_selected g.tenant.namespace p
            && (not (is_live c.live g.tenant)
                && not (int_le (time_sub c.at g.last_activity) c.grace))))

namespaces-classify_group :
    (c : Pass) (kind : Kind) (g : ArtifactGroup) (p : Plan)
    → (classify_group c kind g p).namespaces ≡ p.namespaces
unfolding classify_group
namespaces-classify_group c kind g p = ground arith

delete-classify_group :
    (c : Pass) (kind : Kind) (g : ArtifactGroup) (p : Plan)
    → (classify_group c kind g p).delete
      ≡ (if collects c g p then p.delete ++ collect c.at c.grace kind g ∷ [] else p.delete)
unfolding classify_group collects
delete-classify_group c kind g p = ground arith

IsCollectable-of_collects :
    (c : Pass) (g : ArtifactGroup) (p : Plan)
    → collects c g p ≡ true
    → IsCollectable c p.namespaces g
unfolding collects tier_selected
IsCollectable-of_collects c g p h = record {
  attributable = ground arith;
  in_scope = ground arith;
  reached = ground arith;
  gone = ground arith;
  idle = ground arith;
}

module _ (c : Pass) (names : List Text) (P : List Action → Type 0) (kind : Kind)
    (Q : Text → ArtifactGroup → Type 0)
    (collected : (key : Text) (g : ArtifactGroup) (l : List Action)
      → Q key g
      → IsCollectable c names g
      → P l
      → P (l ++ collect c.at c.grace kind g ∷ [])) where
  classify_group-Holds :
      (key : Text) (g : ArtifactGroup) (p : Plan)
      → Q key g
      → Holds names P p
      → Holds names P (classify_group c kind g p)
  classify_group-Holds key g p q h = record {
    selected = namespaces-classify_group c kind g p ∙ h.selected;
    deletions = elim (Bool-cases (collects c g p)) [
      | inl e ↦
          rw (delete-classify_group c kind g p, e)
            (collected key g p.delete q
              (subst (λ ns. IsCollectable c ns g) h.selected (IsCollectable-of_collects c g p e))
              h.deletions)
      | inr e ↦ rw (delete-classify_group c kind g p, e) h.deletions
    ];
  }

  classify_groups-Holds :
      (groups : Groups) (p : Plan)
      → All (λ g. Q g.0 g.1) groups
      → Holds names P p
      → Holds names P (classify_groups c kind groups p)
  unfolding classify_groups
  classify_groups-Holds [] p q h = h
  classify_groups-Holds ((key, g) ∷ groups) p (q, qs) h =
      classify_groups-Holds groups _ qs (classify_group-Holds key g p q h)

  pub classify_artifacts-Holds :
      (groups : Groups) (p : Plan)
      → All (λ g. Q g.0 g.1) groups
      → Holds names P p
      → Holds names P (classify_artifacts c kind groups p)
  unfolding classify_artifacts
  classify_artifacts-Holds groups p q =
      classify_groups-Holds (sort_stable group_less groups) p
        (All-sort_stable group_less (λ g. Q g.0 g.1) groups q)

-- A property of groups and their keys that a new group has and that one more member keeps holds of
-- all groups.
module _ (Q : Text → ArtifactGroup → Type 0) where
  pub visit-All :
      (rest id_prefix : Text) (names : List Text) (modified : ℤ) (groups : Groups)
      → Q (group_key rest) (grow names modified (new_group rest id_prefix))
      → ((g : ArtifactGroup) → Q (group_key rest) g → Q (group_key rest) (grow names modified g))
      → All (λ g. Q g.0 g.1) groups
      → All (λ g. Q g.0 g.1) (visit rest id_prefix names modified groups)
  unfolding visit
  visit-All rest id_prefix names modified [] fresh keep h = (fresh, tt)
  visit-All rest id_prefix names modified ((key, g) ∷ groups) fresh keep h =
      elim (Bool-cases (text_eq key (group_key rest))) [
        | inl e ↦
            let same = (text_eq_iff key (group_key rest)).0 e in
            rw e (
              subst (λ k. Q k (grow names modified g)) (sym same)
                  (keep g (subst (λ k. Q k g) same h.0)),
              h.1,
            )
        | inr e ↦ rw e (h.0, visit-All rest id_prefix names modified groups fresh keep h.1)
      ]

-- The passes over the roots and the buckets, with the clients that answered.
module _ (c : Pass) (names : List Text) (P : List Action → Type 0) where
  add_problem-Holds :
      (p : Plan) (t : TargetProblem) → Holds names P p → Holds names P (add_problem p t)
  add_problem-Holds p t h = record { selected = h.selected; deletions = h.deletions }

  pub sweep_ssm-Holds :
      (ssm : Option SsmClient) (roots : List Text) (p : Plan)
      → ((client : SsmClient) (root : Text) (q : Plan)
          → ssm ≡ some client
          → Any (λ r. root ≡ normalized_root r) roots
          → Holds names P q
          → Holds names P (sweep_root c client root q))
      → Holds names P p
      → Holds names P (sweep_ssm c ssm roots p)
  unfolding sweep_ssm
  sweep_ssm-Holds ssm [] p f h = h
  sweep_ssm-Holds none (root ∷ roots) p f h =
      sweep_ssm-Holds none roots _ (λ client r q e m. f client r q e (inr m))
        (add_problem-Holds p _ h)
  sweep_ssm-Holds (some client) (root ∷ roots) p f h =
      sweep_ssm-Holds (some client) roots _ (λ cl r q e m. f cl r q e (inr m))
        (f client (normalized_root root) p refl (inl refl) h)

  pub sweep_s3-Holds :
      (s3 : Option S3Client) (buckets : List Text) (p : Plan)
      → ((client : S3Client) (bucket : Text) (q : Plan)
          → s3 ≡ some client
          → Any (λ b. bucket ≡ b) buckets
          → Holds names P q
          → Holds names P (sweep_bucket c client bucket q))
      → Holds names P p
      → Holds names P (sweep_s3 c s3 buckets p)
  unfolding sweep_s3
  sweep_s3-Holds s3 [] p f h = h
  sweep_s3-Holds none (bucket ∷ buckets) p f h =
      sweep_s3-Holds none buckets _ (λ client b q e m. f client b q e (inr m))
        (add_problem-Holds p _ h)
  sweep_s3-Holds (some client) (bucket ∷ buckets) p f h =
      sweep_s3-Holds (some client) buckets _ (λ cl b q e m. f cl b q e (inr m))
        (f client bucket p refl (inl refl) h)

  -- One root or bucket, where the groups of a listing that ends well have a property `Q`.
  module _ (Q : Text → ArtifactGroup → Type 0) where
    pub sweep_root-Holds :
        (client : SsmClient) (root : Text) (p : Plan)
        → ((key : Text) (g : ArtifactGroup) (l : List Action)
            → Q key g
            → IsCollectable c names g
            → P l
            → P (l ++ collect c.at c.grace ssm_prefix g ∷ []))
        → All (λ g. Q g.0 g.1) (visit_parameters root (client.list_parameters root).items [])
        → Holds names P p
        → Holds names P (sweep_root c client root p)
    unfolding sweep_root
    sweep_root-Holds client root p collected groups h =
        elim (Option-cases (client.list_parameters root).failure) [
          | inl e ↦
              rw (e, sweep_root)
                (classify_artifacts-Holds c names P ssm_prefix Q collected _ p groups h)
          | inr (text, e) ↦ rw (e, sweep_root) (add_problem-Holds p _ h)
        ]

    pub sweep_bucket-Holds :
        (client : S3Client) (bucket : Text) (p : Plan)
        → ((key : Text) (g : ArtifactGroup) (l : List Action)
            → Q key g
            → IsCollectable c names g
            → P l
            → P (l ++ collect c.at c.grace s3_prefix g ∷ []))
        → All (λ g. Q g.0 g.1) (visit_objects bucket (client.list_objects bucket).items [])
        → Holds names P p
        → Holds names P (sweep_bucket c client bucket p)
    unfolding sweep_bucket
    sweep_bucket-Holds client bucket p collected groups h =
        elim (Option-cases (client.list_objects bucket).failure) [
          | inl e ↦
              rw (e, sweep_bucket)
                (classify_artifacts-Holds c names P s3_prefix Q collected _ p groups h)
          | inr (text, e) ↦ rw (e, sweep_bucket) (add_problem-Holds p _ h)
        ]
