-- ===== src/Engine/Artifacts.antt =====
-- pkg/engine/sweep.go: the artifacts that one tenant prefix of a root or a bucket holds.
use gemaal.Base.{
  ℕ, suc, List, [], ◌∷◌, ◌++◌, Bool, true, false, none, some, Text, codes, slash, ℤ, pos, text_eq,
  cut_prefix, trim, if◌then◌else◌, int_lt,
}
use gemaal.Engine.Types.{Object, Parameter, Tenant}
use gemaal.Engine.Rules.{split_tenant_path, top_segment}

-- A set of artifacts that one tenant prefix holds.
pub record ArtifactGroup : Type 0 where
  pub tenant : Tenant
  pub id : Text
  pub last_activity : ℤ
  pub members : ℕ
  pub names : List Text
  pub attributable : Bool

abbrev pub nobody : Tenant
nobody = record { namespace = []; release = [] }

-- The key of a raw name's group, and the group before it has members.
unfoldable pub group_key : Text → Text
group_key rest = elim (split_tenant_path rest) [
  | none ↦ top_segment rest ++ codes "/"
  | some t ↦ t.namespace ++ (codes "/" ++ (t.release ++ codes "/"))
]

unfoldable pub new_group : Text → Text → ArtifactGroup
new_group rest id_prefix = elim (split_tenant_path rest) [
  | none ↦ record {
    tenant = nobody;
    id = id_prefix ++ group_key rest;
    last_activity = pos 0;
    members = 0;
    names = [];
    attributable = false;
  }
  | some t ↦ record {
    tenant = t;
    id = id_prefix ++ group_key rest;
    last_activity = pos 0;
    members = 0;
    names = [];
    attributable = true;
  }
]

abbrev pub Groups : Type 0
Groups = List (Text × ArtifactGroup)

-- one more member, with the names that it is listed by and its time
abbrev pub grow : List Text → ℤ → ArtifactGroup → ArtifactGroup
grow names modified g = record g {
  last_activity = if int_lt g.last_activity modified then modified else g.last_activity;
  members = suc g.members;
  names = g.names ++ names;
}

-- artifactGroupFor, and what the visitor does to the group
unfoldable pub visit : Text → Text → List Text → ℤ → Groups → Groups
visit rest id_prefix names modified [] =
    (group_key rest, grow names modified (new_group rest id_prefix)) ∷ []
visit rest id_prefix names modified ((key, g) ∷ groups) =
    let more = visit rest id_prefix names modified groups in
    if text_eq key (group_key rest) then (key, grow names modified g) ∷ groups else (key, g) ∷ more

-- exactly one leading and one trailing slash
unfoldable pub normalized_root : Text → Text
normalized_root root = codes "/" ++ (trim root slash ++ codes "/")

-- the visitor of sweepSSM: what lies outside the root is dropped
unfoldable pub visit_parameters : Text → List Parameter → Groups → Groups
visit_parameters root [] groups = groups
visit_parameters root (param ∷ rest) groups =
    visit_parameters root rest (elim (cut_prefix param.name root) [
      | none ↦ groups
      | some inside ↦ visit inside root (param.name ∷ []) param.last_modified groups
    ])

abbrev pub bucket_id : Text → Text
bucket_id bucket = codes "s3://" ++ bucket

unfoldable pub visit_objects : Text → List Object → Groups → Groups
visit_objects bucket [] groups = groups
visit_objects bucket (obj ∷ rest) groups =
    visit_objects bucket rest
      (visit obj.key (bucket_id bucket ++ codes "/") [] obj.last_modified groups)
