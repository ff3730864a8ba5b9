-- ===== src/Engine/Apply/Ringed.antt =====
-- The order in which `Apply` of pkg/engine/apply.go ends the releases of a plan that the engine made.
use gemaal.Base.{
  ◌&&◌, ◌||◌, ℕ, List, [], ◌∷◌, ◌++◌, map, Bool, true, false, Text, slash, ℤ, ◌≡◌, refl, sym, ap,
  ◌∙◌, inl, inr, arith, All, All-map, any, Any, Bool-cases, text_eq, text_eq_iff, has_suffix,
  if◌then◌else◌, ltb, ◌==◌,
}
use gemaal.Base.Sort.{IsSorted}
use gemaal.Engine.Types.{
  Release, Engine, Kind, helm_release, ssm_prefix, s3_prefix, TenantState, Action, Plan, Source,
  View,
}
use gemaal.Engine.Rules.{infra_suffix, ring_order, sort_actions}
use gemaal.Engine.Rules.Order.{All-sort_actions, sort_actions-IsRingOrdered}
use gemaal.Engine.Sweep.{Narrow, release_id, teardown, plan_from_view}
use gemaal.Engine.Sweep.Planned.{parameters, objects, plan_from_view_sound}
use gemaal.Engine.Apply.{Trace, World, apply}
use gemaal.Engine.Apply.Calls.{apply-actions}
use gemaal.Engine.Decommission.{end_release, decommission_plan}

abbrev is_helm : Kind → Bool
is_helm helm_release = true
is_helm k = false

-- 1 for the end of an infra release, else 0: by what the item is, not by its place in the plan
unfoldable pub ring_of : Action → ℕ
unfolding has_suffix
ring_of x = if is_helm x.item.kind && has_suffix x.item.id infra_suffix then 1 else 0

-- No infra release is ended before an app release.
abbrev pub IsAppFirst : List Action → Type 0
IsAppFirst = IsSorted (λ a b. ltb (ring_of a) (ring_of b))

slashed : (a b : Text) → any (λ c. c == slash) (a ++ (slash ∷ b)) ≡ true
slashed [] b = refl
slashed (c ∷ a) b = ground (arith, slashed a b)

no_suffix_yet : (c : ℕ) (a b : Text) → text_eq (c ∷ (a ++ (slash ∷ b))) infra_suffix ≡ false
no_suffix_yet c a b = elim (Bool-cases (text_eq (c ∷ (a ++ (slash ∷ b))) infra_suffix)) [
  | inr q ↦ q
  | inl q ↦
      let same = (text_eq_iff (c ∷ (a ++ (slash ∷ b))) infra_suffix).0 q in
      let found : any (λ c. c == slash) infra_suffix ≡ true =
        sym (ap (any (λ c. c == slash)) same) ∙ slashed (c ∷ a) b in
      absurd (cc found)
]

-- a suffix without a slash is that of what stands behind the slash
has_suffix-behind :
    (a b : Text) → has_suffix (a ++ (slash ∷ b)) infra_suffix ≡ has_suffix b infra_suffix
unfolding has_suffix text_eq
has_suffix-behind [] b = refl
has_suffix-behind (c ∷ a) b =
    ap (λ z. z || has_suffix (a ++ (slash ∷ b)) infra_suffix) (no_suffix_yet c a b)
    ∙ has_suffix-behind a b

ring_order-id :
    (rel : Release)
    → ring_order rel.name ≡ (if has_suffix (release_id rel) infra_suffix then 1 else 0)
unfolding ring_order
ring_order-id rel = ap (λ b. if b then 1 else 0) (sym (has_suffix-behind rel.namespace rel.name))

module _ (v : View) where
  teardown-ring :
      (s : TenantState) (rel : Release)
      → (teardown v.at s rel).order ≡ ring_of (teardown v.at s rel)
  unfolding ring_of
  teardown-ring s rel = ring_order-id rel

  end-ring :
      (s : TenantState) (rel : Release)
      → (end_release v.at s rel).order ≡ ring_of (end_release v.at s rel)
  unfolding ring_of
  end-ring s rel = ring_order-id rel

  one-ring :
      (s : TenantState) (x : Action) (rels : List Release)
      → Any (λ rel. x ≡ teardown v.at s rel) rels
      → x.order ≡ ring_of x
  one-ring s x [] h = absurd h
  one-ring s x (rel ∷ rels) (inl q) = ap (λ y. y.order) q ∙ teardown-ring s rel ∙ ap ring_of (sym q)
  one-ring s x (rel ∷ rels) (inr h) = one-ring s x rels h

  artifact-ring :
      (k : Kind) (x : Action)
      → x.item.kind ≡ k
      → is_helm k ≡ false
      → x.order ≡ 0
      → x.order ≡ ring_of x
  unfolding ring_of
  artifact-ring k x q h z =
      z ∙ sym (ap (λ b. if b && has_suffix x.item.id infra_suffix then 1 else 0) (ap is_helm q ∙ h))

  planned-ring :
      (e : Engine) (n : Narrow) → All (λ x. x.order ≡ ring_of x) (plan_from_view e v n).delete
  planned-ring e n =
      All-map
        (λ x h. elim h [
          | inl t ↦ one-ring t.state x t.state.releases t.one_of
          | inr o ↦ elim o.listed [
            | parameters client root k _ _ _ ↦ artifact-ring ssm_prefix x k refl o.first_ring
            | objects client bucket k _ _ _ ↦ artifact-ring s3_prefix x k refl o.first_ring
          ]
        ])
        (plan_from_view e v n).delete (plan_from_view_sound e v n)

  ended-ring :
      (s : TenantState) (rels : List Release)
      → All (λ x. x.order ≡ ring_of x) (map (end_release v.at s) rels)
  ended-ring s [] = tt
  ended-ring s (rel ∷ rels) = (end-ring s rel, ended-ring s rels)

sorted_so :
    (x : Action) (xs : List Action)
    → x.order ≡ ring_of x
    → All (λ y. y.order ≡ ring_of y) xs
    → All (λ y. ltb y.order x.order ≡ false) xs
    → All (λ y. ltb (ring_of y) (ring_of x) ≡ false) xs
sorted_so x [] p h k = tt
sorted_so x (y ∷ ys) p (q, h) (b, k) = ((λ i. ltb (sym q i) (sym p i)) ∙ b, sorted_so x ys p h k)

IsAppFirst-order :
    (xs : List Action)
    → All (λ x. x.order ≡ ring_of x) xs
    → IsSorted (λ a b. ltb a.order b.order) xs
    → IsAppFirst xs
IsAppFirst-order [] h s = tt
IsAppFirst-order (x ∷ xs) (p, h) (b, s) = (sorted_so x xs p h b, IsAppFirst-order xs h s)

module _ (e : Engine) (world : World) (now : ℤ) (source : Source) (t : Trace) (confirm : Bool) where
  ringed :
      (p : Plan)
      → All (λ x. x.order ≡ ring_of x) p.delete
      → IsAppFirst (map (λ r. r.action) (apply e world now p confirm source t).swept.results)
  ringed p h = elim (apply-actions e world now p source t confirm) [
    | inl q ↦ rw q tt
    | inr q ↦ rw q (
        IsAppFirst-order (sort_actions p.delete)
          (All-sort_actions (λ x. x.order ≡ ring_of x) p.delete h)
          (sort_actions-IsRingOrdered p.delete))
  ]

  -- `Apply` of a sweep's plan, and of the plan that ends one tenant, has its results in an order in
  -- which no infra release, by the end of its name, stands before an app release.
  pub apply-IsAppFirst :
      (v : View) (n : Narrow) (s : TenantState)
      → IsAppFirst (
          map
            (λ r. r.action)
            (apply e world now (plan_from_view e v n) confirm source t).swept.results)
        × IsAppFirst (
            map
              (λ r. r.action)
              (apply e world now (decommission_plan v s) confirm source t).swept.results)
  apply-IsAppFirst v n s = (
    ringed (plan_from_view e v n) (planned-ring v e n),
    ringed (decommission_plan v s) (ended-ring v s s.releases),
  )
