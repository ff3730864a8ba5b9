-- ===== src/Engine/Rules/Order.antt =====
-- The comparison of `sortActions` of pkg/engine/plan.go, as an order.
use mathlib.Core.List.{Perm}
use gemaal.Base.{
  List, All, Any, arith, ◌==◌, ltb, text_eq, text_lt, text_eq_iff, text_lt_irrefl, text_lt_trans,
  text_lt_total, ==_iff,
}
use gemaal.Base.Sort.{
  IsWeakOrder, IsKey, IsSorted, by-IsWeakOrder, never-IsWeakOrder, sort_stable-IsSorted,
  sort_stable-perm, IsSorted-by, All-sort_stable, Any-sort_stable,
}
use gemaal.Engine.Types.{Action, kind_text}
use gemaal.Engine.Rules.{action_less, sort_actions}

pub text-IsKey : IsKey text_eq text_lt
text-IsKey = record {
  same_iff = text_eq_iff;
  key_irrefl = text_lt_irrefl;
  key_trans = text_lt_trans;
  key_total = text_lt_total;
}

pub nat-IsKey : IsKey ◌==◌ ltb
nat-IsKey = record {
  same_iff = ==_iff;
  key_irrefl = λ a. ground arith;
  key_trans = λ a b c h k. ground arith;
  key_total = λ a b h k. ground arith;
}

pub action_less-IsWeakOrder : IsWeakOrder action_less
action_less-IsWeakOrder =
    by-IsWeakOrder nat-IsKey (λ a. a.order)
      (by-IsWeakOrder text-IsKey (λ a. kind_text a.item.kind)
        (by-IsWeakOrder text-IsKey (λ a. a.item.tenant.namespace)
          (by-IsWeakOrder text-IsKey (λ a. a.item.tenant.release)
            (by-IsWeakOrder text-IsKey (λ a. a.item.id) never-IsWeakOrder))))

-- No action stands behind one whose `order` is greater.
abbrev pub IsRingOrdered : List Action → Type 0
IsRingOrdered = IsSorted (λ a b. ltb a.order b.order)

pub sort_actions-perm : (l : List Action) → Perm (sort_actions l) l
unfolding sort_actions
sort_actions-perm = sort_stable-perm action_less

pub sort_actions-IsSorted : (l : List Action) → IsSorted action_less (sort_actions l)
unfolding sort_actions
sort_actions-IsSorted = sort_stable-IsSorted action_less-IsWeakOrder

pub sort_actions-IsRingOrdered : (l : List Action) → IsRingOrdered (sort_actions l)
sort_actions-IsRingOrdered l =
    IsSorted-by nat-IsKey (λ a. a.order) _ (sort_actions l) (sort_actions-IsSorted l)

pub All-sort_actions : (P : Action → Type 0) (l : List Action) → All P l → All P (sort_actions l)
unfolding sort_actions
All-sort_actions = All-sort_stable action_less

pub Any-sort_actions : (P : Action → Type 0) (l : List Action) → Any P l → Any P (sort_actions l)
unfolding sort_actions
Any-sort_actions = Any-sort_stable action_less
