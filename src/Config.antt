-- ===== src/Config.antt =====
-- The service configuration, pkg/config/config.go: the document after YAML decoding, its defaults
-- and its lookups. A map is a list of its entries.

pub mod Validate
use gemaal.Base.{
  ℕ, ◌*◌, List, [], ◌∷◌, ◌++◌, map, Bool, true, Option, none, some, Text, codes, ℤ, pos, is_zero,
  text_eq, text_lt, if◌then◌else◌, is_empty,
}
use gemaal.Base.Sort.{sort_stable}

pub record AllowList : Type 0 where
  pub s3_buckets : List Text
  pub ssm_roots : List Text

pub record Identity : Type 0 where
  pub personal_namespace : Text
  pub emails : List (Text × Text)

pub record Authz : Type 0 where
  pub admin_groups : List Text
  pub group_prefix : Text
  pub token_audiences : List Text
  pub admin_users : List Text
  pub issuer_url : Text
  pub audience : Text

pub record Hold : Type 0 where
  pub default : ℤ
  pub max : ℤ

-- A Tier is its one field, the time to live.
pub record Config : Type 0 where
  pub listen : Text
  pub label_domain : Text
  pub dry_run : Option Bool
  pub housekeeping_interval : ℤ
  pub grace : ℤ
  pub kubecontext : Text
  pub tier_label : Text
  pub tiers : List (Text × ℤ)
  pub allow_list : AllowList
  pub identity : Identity
  pub authz : Authz
  pub hold : Hold
  pub aws_region : Text

-- Durations are nanoseconds.
abbrev pub second : ℕ
second = 1_000_000_000

abbrev pub hour : ℕ
hour = 3600 * second

abbrev pub default_text : Text → Text → Text
default_text t d = if is_empty t then d else t

abbrev default_duration : ℤ → ℕ → ℤ
default_duration t d = if is_zero t then pos d else t

abbrev default_flag : Option Bool → Option Bool
default_flag none = some true
default_flag (some b) = some b

unfoldable pub apply_defaults : Config → Config
apply_defaults c = record c {
  listen = default_text c.listen (codes ":8080");
  label_domain = default_text c.label_domain (codes "gemaal.io");
  dry_run = default_flag c.dry_run;
  housekeeping_interval = default_duration c.housekeeping_interval (60 * second);
  grace = default_duration c.grace (48 * hour);
  identity = record c.identity {
    personal_namespace = default_text c.identity.personal_namespace (codes "emp-{slug}");
  };
  authz = record c.authz { group_prefix = default_text c.authz.group_prefix (codes "emp:") };
  hold = record {
    default = default_duration c.hold.default (8 * hour);
    max = default_duration c.hold.max (168 * hour);
  };
}

-- a map's entry
unfoldable pub lookup {ℓ} : {V : Type ℓ} → Text → List (Text × V) → Option V
unfolding text_eq
lookup k [] = none
lookup k ((j, v) ∷ m) = let rest = lookup k m in if text_eq j k then some v else rest

-- the three ledger label keys: ttl, keep-until, execution-id
unfoldable pub labels : Config → Text × Text × Text
labels c = (
  c.label_domain ++ codes "/ttl",
  c.label_domain ++ codes "/keep-until",
  c.label_domain ++ codes "/execution-id",
)

unfoldable pub tier_ttl : Config → Text → Option ℤ
unfolding lookup
tier_ttl c tier = lookup tier c.tiers

unfoldable pub tier_values : Config → List Text
unfolding text_lt sort_stable
tier_values c = sort_stable text_lt (map (λ t. t.0) c.tiers)
