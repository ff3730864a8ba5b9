-- ===== src/Service.antt =====
-- pkg/service/authz.go and service.go: who may do what, and the handlers that only read. The
-- handlers that change something are in the children.
pub mod Hold
pub mod Access
pub mod Sweeps
pub mod DryRun
use gemaal.Base.{
  ℕ, zero, suc, ◌&&◌, ◌||◌, not, List, [], ◌∷◌, ◌++◌, map, Bool, Option, none, some, Text, codes, ℤ,
  length, filter_by, any, is_empty, is_zero, leb, text_eq, has_prefix, cut_prefix, if◌then◌else◌,
}
use gemaal.Config.{Config, lookup}
use gemaal.Config.Validate.{is_label}
use gemaal.Authn.{in_any, Caller, Authenticator, AuthError, authenticate}
use gemaal.Engine.Types.{
  ◌>>=◌, Result, ok, err, Kind, helm_release, Rule, Reason, Tenant, TenantState, Action, Plan,
  Source, View, ViewError, NamespaceError,
}
use gemaal.Engine.Rules.{age, expired}
use gemaal.Engine.Sweep.{Narrow}
use gemaal.Engine.Apply.{Trace, Applied}
use gemaal.Engine.Decommission.{DecommissionError}
use gemaal.Engine.Stamp.{Stamped}

-- The Housekeeper: what the handlers drive, the Engine being one.
pub record Housekeeper : Type 0 where
  pub view : Result ViewError View
  pub plan : Narrow → Result ViewError Plan
  pub apply : Plan → Bool → Source → Trace → Applied
  pub stamp_keep_until : Tenant → ℤ → Trace → Stamped
  pub decommission : Text → Text → Bool → Trace → Result DecommissionError Applied

-- The Service's dependencies, `now` being the clock's reading in one call; `equal_fold` is
-- strings.EqualFold, whose tables Unicode defines.
pub record Deps : Type 0 where
  pub config : Config
  pub keeper : Housekeeper
  pub auth : Option Authenticator
  pub now : ℤ
  pub equal_fold : Text → Text → Bool

-- The connect code that a handler fails with; a nil pointer panics.
pub data Code : Type 0 where
  unauthenticated permission_denied invalid_argument not_found failed_precondition : Code
  internal panicked : Code

-- `strings.ReplaceAll(s, "{slug}", slug)`: `skip` bytes of an occurrence are still to be passed over
unfoldable pub replace_slug : Text → ℕ → Text → Text
replace_slug slug skip [] = []
replace_slug slug (suc skip) (c ∷ s) = replace_slug slug skip s
replace_slug slug zero (c ∷ s) =
    let here = has_prefix (c ∷ s) (codes "{slug}") in
    let rest = replace_slug slug (if here then 5 else 0) s in
    if here then slug ++ rest else c ∷ rest

unfoldable pub personal_namespace : Config → Text → Text
personal_namespace c slug = replace_slug slug 0 c.identity.personal_namespace

unfoldable pub is_admin : Deps → Caller → Bool
is_admin d caller =
    in_any caller d.config.authz.admin_groups
    || any
        (λ u.
          not (is_empty u)
          && (d.equal_fold u caller.subject
              || (not (is_empty caller.email) && d.equal_fold u caller.email)))
        d.config.authz.admin_users

-- the slugs that the token's groups prove
unfoldable pub group_slugs : Text → List Text → List Text
group_slugs prefix [] = []
group_slugs prefix (group ∷ groups) =
    let more = group_slugs prefix groups in
    elim (cut_prefix group prefix) [
      | none ↦ more
      | some slug ↦ if is_empty slug then more else slug ∷ more
    ]

-- the slug of the first entry with this email, in some case
unfoldable pub slug_of : (Text → Text → Bool) → Text → List (Text × Text) → Option Text
slug_of equal_fold email [] = none
slug_of equal_fold email ((candidate, slug) ∷ emails) =
    let later = slug_of equal_fold email emails in
    if equal_fold candidate email then some slug else later

abbrev to_list : Option Text → List Text
to_list none = []
to_list (some t) = t ∷ []

unfoldable pub caller_slugs : Deps → Caller → List Text
caller_slugs d caller =
    group_slugs d.config.authz.group_prefix caller.groups
    ++ (if is_empty caller.email
        then []
        else to_list (slug_of d.equal_fold caller.email d.config.identity.emails))

abbrev pub ensure : Bool → Code → Result Code Unit
ensure b c = if b then ok tt else err c

-- the caller owns the namespace
unfoldable pub owns : Deps → Caller → Text → Bool
owns d caller namespace =
    any (λ slug. text_eq (personal_namespace d.config slug) namespace) (caller_slugs d caller)

unfoldable pub authorize_hold : Deps → Caller → Text → Result Code Unit
authorize_hold d caller namespace =
    ensure (is_admin d caller || owns d caller namespace) permission_denied

unfoldable pub authorize_sweep : Deps → Caller → Result Code Unit
authorize_sweep d caller = ensure (is_admin d caller) permission_denied

abbrev code_of_auth : Result AuthError Caller → Result Code Caller
code_of_auth (ok caller) = ok caller
code_of_auth (err e) = err unauthenticated

-- the Service's `authenticate`, on the token that the request's header holds
unfoldable pub authenticate_request : Deps → Text → Result Code Caller
authenticate_request d token = elim d.auth [
  | none ↦ err unauthenticated
  | some a ↦ code_of_auth (authenticate a token)
]

unfoldable pub valid_name : Text → Result Code Unit
valid_name name =
    ensure (not (is_empty name) && (leb (length name) 63 && is_label name)) invalid_argument

-- what `hold` and Decommission check first
unfoldable pub permit : Deps → Text → Text → Text → Result Code Unit
permit d token namespace release = do
  caller ← authenticate_request d token
  _ ← valid_name namespace
  _ ← valid_name release
  authorize_hold d caller namespace

pub data ActionKind : Type 0 where
  kind_none kind_teardown kind_sweep : ActionKind

pub record PlannedAction : Type 0 where
  pub kind : ActionKind
  pub namespace : Text
  pub release : Text
  pub target : Text
  pub rule : Rule
  pub reason : Reason

abbrev action_kind : Kind → ActionKind
action_kind helm_release = kind_teardown
action_kind _ = kind_sweep

unfoldable pub planned_action : Action → PlannedAction
planned_action a = record {
  kind = action_kind a.item.kind;
  namespace = a.item.tenant.namespace;
  release = a.item.tenant.release;
  target = a.item.id;
  rule = a.rule;
  reason = a.reason;
}

-- the proto's Tenant, less its backend, which is always "helm"
pub record TenantProto : Type 0 where
  pub namespace : Text
  pub release : Text
  pub tier : Text
  pub last_activity : ℤ
  pub age : ℤ
  pub ttl : ℤ
  pub execution_id : Text
  pub pending : ActionKind
  pub keep_until : Option ℤ

unfoldable pub tenant_proto : TenantState → ℤ → TenantProto
tenant_proto s at = record {
  namespace = s.tenant.namespace;
  release = s.tenant.release;
  tier = s.tier;
  last_activity = s.last_activity;
  age = age s at;
  ttl = s.ttl;
  execution_id = s.ledger.execution_id;
  pending = if expired s at then kind_teardown else kind_none;
  keep_until = if is_zero s.ledger.keep_until then none else some s.ledger.keep_until;
}

abbrev pub or_internal : {E A : Type 0} → Result E A → Result Code A
or_internal (ok a) = ok a
or_internal (err e) = err internal

-- the Plan handler
unfoldable pub plan_handler : Deps → Narrow → Result Code (ℤ × List PlannedAction)
plan_handler d n = do
  p ← or_internal (d.keeper.plan n)
  ok (p.generated_at, map planned_action p.delete)

abbrev wanted : Text → Text → TenantState → Bool
wanted tier namespace s =
    (is_empty tier || text_eq s.tier tier)
    && (is_empty namespace || text_eq s.tenant.namespace namespace)

-- the ListTenants handler
unfoldable pub list_tenants :
    Deps → Text → Text → Result Code (List TenantProto × List (Text × NamespaceError))
list_tenants d tier namespace = do
  v ← or_internal d.keeper.view
  ok (
    map (λ s. tenant_proto s v.at) (filter_by (wanted tier namespace) v.tenants),
    map (λ p. (p.namespace, p.reason)) v.unreadable,
  )

-- MapResolver: the very email first, then in some case
unfoldable pub resolve_email : (Text → Text → Bool) → List (Text × Text) → Text → Option Text
resolve_email equal_fold emails email = elim (lookup email emails) [
  | some slug ↦ some slug
  | none ↦ slug_of equal_fold email emails
]

abbrev pub or_not_found : {A : Type 0} → Option A → Result Code A
or_not_found none = err not_found
or_not_found (some a) = ok a

-- the Resolve handler
unfoldable pub resolve : Deps → Text → Result Code (Text × Text)
resolve d email = do
  _ ← ensure (not (is_empty email)) invalid_argument
  slug ← or_not_found (resolve_email d.equal_fold d.config.identity.emails email)
  ok (slug, personal_namespace d.config slug)
