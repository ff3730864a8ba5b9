-- ===== src/Engine/Apply/Gates.antt =====
-- The gates of `Apply` of pkg/engine/apply.go.
use gemaal.Base.{
  List, [], ◌∷◌, map, Bool, false, none, some, ℤ, ◌≡◌, ◌≢◌, refl, ◌⊎◌, inl, inr, arith, All, Any,
  Option-cases,
}
use gemaal.Config.{AllowList}
use gemaal.Engine.Types.{Engine, Action, Plan, Source}
use gemaal.Engine.Rules.{sort_actions}
use gemaal.Engine.Apply.{Trace, World, OutOfReach, authorize, refusal, refused, dry_result, apply}

refusal-some :
    (a : AllowList) (actions : List Action) (p : Plan)
    → Any (λ x. authorize a x p ≢ none) actions
    → (r : OutOfReach) × (refusal a actions p ≡ some r)
unfolding refusal
refusal-some a [] p h = absurd h
refusal-some a (x ∷ xs) p (inl h) = elim (Option-cases (authorize a x p)) [
  | inl e ↦ absurd (h e)
  | inr (r, e) ↦ (r, rw (e, refusal))
]
refusal-some a (x ∷ xs) p (inr h) = elim (Option-cases (authorize a x p)) [
  | inl e ↦ let (r, q) = refusal-some a xs p h in (r, rw (e, refusal) q)
  | inr (r, e) ↦ (r, rw (e, refusal))
]

pub refusal-none :
    (a : AllowList) (actions : List Action) (p : Plan)
    → All (λ x. authorize a x p ≡ none) actions
    → refusal a actions p ≡ none
unfolding refusal
refusal-none a [] p h = refl
refusal-none a (x ∷ xs) p (h, hs) = rw (h, refusal) (refusal-none a xs p hs)

pub authorized_of_refusal :
    (a : AllowList) (actions : List Action) (p : Plan)
    → refusal a actions p ≡ none
    → All (λ x. authorize a x p ≡ none) actions
unfolding refusal
authorized_of_refusal a [] p h = tt
authorized_of_refusal a (x ∷ xs) p h = ground (arith, authorized_of_refusal a xs p)

All-dry : (l : List Action) → All (λ r. (r.executed ≡ false) × (r.deleted ≡ 0)) (map dry_result l)
All-dry [] = tt
All-dry (x ∷ xs) = ((refl, refl), All-dry xs)

pub actions_dry : (l : List Action) → map (λ r. r.action) (map dry_result l) ≡ l
actions_dry [] = refl
actions_dry (x ∷ xs) = cc (actions_dry xs)

module _ (e : Engine) (world : World) (now : ℤ) (p : Plan) (source : Source) (t : Trace) where
  -- If any action of the plan is unauthorized, `Apply` makes no call and records no result,
  -- whether confirmed or not, and its error is a refusal.
  pub apply_refuses_whole :
      (confirm : Bool)
      → Any (λ x. authorize e.config.allow_list x p ≢ none) p.delete
      → let a = apply e world now p confirm source t in
        (a.trace ≡ t) × (a.swept.results ≡ []) × (r : OutOfReach) × (a.error ≡ some (refused r))
  unfolding apply
  apply_refuses_whole confirm h =
      let (r, q) = refusal-some e.config.allow_list p.delete p h in
      (rw (q, apply), rw (q, apply), r, rw (q, apply))

  -- An unconfirmed `Apply` of any plan makes no call and counts nothing as executed or deleted;
  -- and either it is refused with no result, or it has no error and a result for each action, in
  -- the order of the sort.
  pub apply_dry_run :
      let a = apply e world now p false source t in
      (a.trace ≡ t)
      × All (λ r. (r.executed ≡ false) × (r.deleted ≡ 0)) a.swept.results
      × (((r : OutOfReach) × (a.error ≡ some (refused r)) × (a.swept.results ≡ []))
          ⊎ ((a.error ≡ none) × (map (λ r. r.action) a.swept.results ≡ sort_actions p.delete)))
  unfolding apply
  apply_dry_run = elim (Option-cases (refusal e.config.allow_list p.delete p)) [
    | inl q ↦
        rw (q, apply)
          (refl, All-dry (sort_actions p.delete), inr (refl, actions_dry (sort_actions p.delete)))
    | inr (r, q) ↦ rw (q, apply) (refl, tt, inl (r, refl, refl))
  ]
