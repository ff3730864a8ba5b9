-- ===== src/Engine/Rules.antt =====
-- The predicates and orders of pkg/engine/plan.go.
pub mod Order
pub mod Paths
use gemaal.Base.{
  ℕ, ◌+◌, ◌-◌, ◌*◌, ◌%◌, ◌&&◌, ◌||◌, not, List, ◌∷◌, ◌++◌, Bool, false, Option, none, some, Text,
  codes, slash, ℤ, pos, negsuc, suc, sub_ℕ, max_int64, min_int64, text_eq, text_lt, has_suffix,
  trim_suffix, trim_prefix, cut, split_n, if◌then◌else◌, is_empty, int_lt, int_le, is_zero,
  time_sub, time_add, wrap64, scale, ltb, ◌==◌,
}
use gemaal.Base.Sort.{by, never, sort_stable}
use gemaal.Config.{second}
use gemaal.Engine.Types.{kind_text, Tenant, Lease, TenantState, Action, Kept, Plan}

-- `t.String()`
unfoldable pub tenant_text : Tenant → Text
tenant_text t = t.namespace ++ (codes "/" ++ t.release)

-- `==` on Tenant
unfoldable pub tenant_eq : Tenant → Tenant → Bool
tenant_eq t u = text_eq t.namespace u.namespace && text_eq t.release u.release

unfoldable pub age : TenantState → ℤ → ℤ
age s at = time_sub at s.last_activity

-- `at.Before(RenewTime.Add(Duration(DurationSeconds) * time.Second))`
unfoldable pub lease_live : Lease → ℤ → Bool
lease_live l at = int_lt at (time_add l.renew_time (wrap64 (scale second l.duration_seconds)))

unfoldable pub claim_live : TenantState → ℤ → Bool
claim_live s at = if is_empty s.claim.holder then false else lease_live s.claim at

unfoldable pub held : TenantState → ℤ → Bool
held s at =
    not (is_empty s.ledger_problems)
    || (not (is_zero s.ledger.keep_until) && int_lt at s.ledger.keep_until)

unfoldable pub expired : TenantState → ℤ → Bool
expired s at = not (held s at) && int_lt s.ttl (age s at)

unfoldable pub plan_empty : Plan → Bool
plan_empty p = is_empty p.delete

abbrev pub infra_suffix : Text
infra_suffix = codes "-infra"

unfoldable pub install_of : Text → Text
install_of release = trim_suffix release infra_suffix

unfoldable pub ring_order : Text → ℕ
ring_order release = if has_suffix release infra_suffix then 1 else 0

-- The comparison of `sortActions`.
abbrev pub action_less : Action → Action → Bool
action_less =
    by ◌==◌ ltb (λ a. a.order)
      (by text_eq text_lt (λ a. kind_text a.item.kind)
        (by text_eq text_lt (λ a. a.item.tenant.namespace)
          (by text_eq text_lt (λ a. a.item.tenant.release)
            (by text_eq text_lt (λ a. a.item.id) never))))

unfoldable pub sort_actions : List Action → List Action
sort_actions = sort_stable action_less

abbrev pub kept_less : Kept → Kept → Bool
kept_less =
    by text_eq text_lt (λ k. kind_text k.item.kind) (by text_eq text_lt (λ k. k.item.id) never)

unfoldable pub sort_kept : List Kept → List Kept
sort_kept = sort_stable kept_less

-- the first two of three or more parts, none of the three being empty
abbrev tenant_parts : List Text → Option Tenant
tenant_parts (namespace ∷ release ∷ rest ∷ _) =
    if is_empty namespace || is_empty release || is_empty rest
    then none
    else some (record { namespace = namespace; release = release })
tenant_parts _ = none

unfoldable pub split_tenant_path : Text → Option Tenant
split_tenant_path key = tenant_parts (split_n (trim_prefix key (codes "/")) slash 3)

abbrev before_cut : Text → Option (Text × Text) → Text
before_cut s none = s
before_cut s (some (a, b)) = a

unfoldable pub top_segment : Text → Text
top_segment key = let rest = trim_prefix key (codes "/") in before_cut rest (cut rest slash)

abbrev minute : ℕ
minute = 60 * second

-- `d.Round(time.Minute)`: to the nearest minute, halves away from zero, within the int64 range.
unfoldable pub round_age : ℤ → ℤ
round_age (pos n) =
    let r = n % minute in
    let up = pos (n + minute - r) in
    if ltb (r + r) minute then pos (n - r) else if int_le up max_int64 then up else max_int64
round_age (negsuc n) =
    let r = suc n % minute in
    let down = sub_ℕ 0 (suc n + minute - r) in
    if ltb (r + r) minute
    then sub_ℕ 0 (suc n - r)
    else if int_le min_int64 down
    then down
    else min_int64
