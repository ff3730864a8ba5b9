-- ===== src/Engine/Sweep/Tenants.antt =====
-- classifyTenant of pkg/engine/sweep.go against the rule that it stands for.
use gemaal.Base.{
  map, sym, ap, ◌∙◌, List, [], ◌∷◌, ◌++◌, ◌&&◌, not, Bool, true, false, ℤ, pos, ◌≡◌, ◌↔◌, refl, ◌⊎◌,
  inl, inr, arith, All, All-append, Any, Any-append_left, Any-append_right, Bool-cases, is_empty,
  is_zero, int_le, int_lt, ◌≤ℤ◌, ◌<ℤ◌, time_sub, time_add, wrap64, scale, if◌then◌else◌,
}
use mathlib.Core.List.{append-nil, append_assoc}
use gemaal.Config.{second}
use gemaal.Engine.Types.{Release, TenantState, Action, Plan}
use gemaal.Engine.Rules.{age, lease_live, claim_live, held}
use gemaal.Engine.Sweep.{
  Narrow, matches, teardown, classify_release, classify_releases, classify_tenant, classify_tenants,
}

-- The rule in words: the ledger is sound, no keep-until lies ahead, no claim is live, and the time
-- since the last activity exceeds the time to live.
pub record IsDue (s : TenantState) (at : ℤ) : Type 0 where
  pub sound : s.ledger_problems ≡ []
  pub not_kept : (s.ledger.keep_until ≡ pos 0) ⊎ (s.ledger.keep_until ≤ℤ at)
  pub unclaimed :
      (s.claim.holder ≡ [])
      ⊎ (time_add s.claim.renew_time (wrap64 (scale second s.claim.duration_seconds)) ≤ℤ at)
  pub idle : s.ttl <ℤ time_sub at s.last_activity

-- the same as a test, in the order of the `switch`
due : TenantState → ℤ → Bool
due s at =
    is_empty s.ledger_problems
    && (not (held s at) && (not (claim_live s at) && not (int_le (age s at) s.ttl)))

is_empty_iff {ℓ} : {A : Type ℓ} (l : List A) → (is_empty l ≡ true) ↔ (l ≡ [])
is_empty_iff [] = ground arith
is_empty_iff (x ∷ l) = ground arith

keep_iff : (k at : ℤ) → ((not (is_zero k) && int_lt at k) ≡ false) ↔ ((k ≡ pos 0) ⊎ (k ≤ℤ at))
keep_iff k at = ground arith

expiry_iff :
    {A : Type 0} (h : List A) (x at : ℤ)
    → ((if is_empty h then false else int_lt at x) ≡ false) ↔ ((h ≡ []) ⊎ (x ≤ℤ at))
expiry_iff [] x at = ground arith
expiry_iff (c ∷ h) x at = ground arith

not_le_iff : (a b : ℤ) → (int_le a b ≡ false) ↔ (b <ℤ a)
not_le_iff a b = ground arith

module _ (s : TenantState) (at : ℤ) where
  claim_live_iff : (claim_live s at ≡ false) ↔ (
      (s.claim.holder ≡ [])
      ⊎ (time_add s.claim.renew_time (wrap64 (scale second s.claim.duration_seconds)) ≤ℤ at))
  unfolding claim_live lease_live
  claim_live_iff = expiry_iff s.claim.holder _ at

  age_iff : (int_le (age s at) s.ttl ≡ false) ↔ (s.ttl <ℤ time_sub at s.last_activity)
  unfolding age
  age_iff = not_le_iff (time_sub at s.last_activity) s.ttl

  held_iff :
      (held s at ≡ false)
      ↔ ((s.ledger_problems ≡ []) × ((s.ledger.keep_until ≡ pos 0) ⊎ (s.ledger.keep_until ≤ℤ at)))
  unfolding held
  held_iff = ground (arith, is_empty_iff s.ledger_problems, keep_iff s.ledger.keep_until at)

  IsDue-of_due : due s at ≡ true → IsDue s at
  unfolding due
  IsDue-of_due h = record {
    sound = (is_empty_iff s.ledger_problems).0 (ground arith);
    not_kept = (held_iff.0 (ground arith)).1;
    unclaimed = claim_live_iff.0 (ground arith);
    idle = age_iff.0 (ground arith);
  }

  due-of_IsDue : IsDue s at → due s at ≡ true
  unfolding due
  due-of_IsDue h = rw (
    (is_empty_iff s.ledger_problems).1 h.sound,
    held_iff.1 (h.sound, h.not_kept),
    claim_live_iff.1 h.unclaimed,
    age_iff.1 h.idle,
  )

delete-classify_release :
    (at : ℤ) (s : TenantState) (p : Plan) (rel : Release)
    → (classify_release at s p rel).delete
      ≡ (if due s at then p.delete ++ teardown at s rel ∷ [] else p.delete)
unfolding classify_release due
delete-classify_release at s p rel = ground arith

-- Which actions the releases of the tenants in scope stand for.
pub teardowns : ℤ → Narrow → List TenantState → List Action
teardowns at n [] = []
teardowns at n (s ∷ rest) =
    (if matches n s.tenant && due s at then map (teardown at s) s.releases else [])
    ++ teardowns at n rest

delete-classify_releases :
    (at : ℤ) (s : TenantState) (rels : List Release) (p : Plan)
    → (classify_releases at s rels p).delete
      ≡ p.delete ++ (if due s at then map (teardown at s) rels else [])
unfolding classify_releases
delete-classify_releases at s [] p = ground (arith, append-nil p.delete)
delete-classify_releases at s (rel ∷ rels) p = ground (
  arith,
  delete-classify_releases at s rels (classify_release at s p rel),
  delete-classify_release at s p rel,
  append-nil p.delete,
  append_assoc p.delete (teardown at s rel ∷ []) (map (teardown at s) rels),
)

-- classifyTenant adds exactly these deletions to the plan, in the order of the view.
pub delete-classify_tenants :
    (at : ℤ) (n : Narrow) (tenants : List TenantState) (p : Plan)
    → (classify_tenants at n tenants p).delete ≡ p.delete ++ teardowns at n tenants
unfolding classify_tenants classify_tenant teardowns
delete-classify_tenants at n [] p = sym (append-nil p.delete)
delete-classify_tenants at n (s ∷ rest) p = elim (Bool-cases (matches n s.tenant)) [
  | inl e ↦
      rw (e, classify_tenants)
        (delete-classify_tenants at n rest (classify_releases at s s.releases p)
          ∙ ap (λ l. l ++ teardowns at n rest) (delete-classify_releases at s s.releases p)
          ∙ append_assoc p.delete _ _)
  | inr e ↦ rw (e, classify_tenants) (delete-classify_tenants at n rest p)
]

namespaces-classify_releases :
    (at : ℤ) (s : TenantState) (rels : List Release) (p : Plan)
    → (classify_releases at s rels p).namespaces ≡ p.namespaces
unfolding classify_releases classify_release
namespaces-classify_releases at s [] p = refl
namespaces-classify_releases at s (rel ∷ rels) p =
    namespaces-classify_releases at s rels _ ∙ ground arith

pub namespaces-classify_tenants :
    (at : ℤ) (n : Narrow) (tenants : List TenantState) (p : Plan)
    → (classify_tenants at n tenants p).namespaces ≡ p.namespaces
unfolding classify_tenants classify_tenant
namespaces-classify_tenants at n [] p = refl
namespaces-classify_tenants at n (s ∷ rest) p =
    namespaces-classify_tenants at n rest _
    ∙ ground (arith, namespaces-classify_releases at s s.releases p)

module _ (at : ℤ) (n : Narrow) (P : Action → Type 0) where
  All-map-teardown :
      (s : TenantState) (rels : List Release)
      → All (λ rel. P (teardown at s rel)) rels
      → All P (map (teardown at s) rels)
  All-map-teardown s [] h = tt
  All-map-teardown s (rel ∷ rels) (p, h) = (p, All-map-teardown s rels h)

  pub All-teardowns :
      (tenants : List TenantState)
      → All
          (λ s.
            matches n s.tenant ≡ true → IsDue s at → All (λ rel. P (teardown at s rel)) s.releases)
          tenants
      → All P (teardowns at n tenants)
  unfolding teardowns
  All-teardowns [] h = tt
  All-teardowns (s ∷ rest) (f, h) = elim (Bool-cases (matches n s.tenant && due s at)) [
    | inl e ↦ rw e (
        All-append P (map (teardown at s) s.releases) (teardowns at n rest)
          (All-map-teardown s s.releases (f (ground arith) (IsDue-of_due s at (ground arith))))
          (All-teardowns rest h))
    | inr e ↦ rw e (All-teardowns rest h)
  ]

module _ (at : ℤ) (n : Narrow) (s : TenantState) (rel : Release) where
  Any-map-teardown :
      (rels : List Release)
      → Any (λ r. rel ≡ r) rels
      → Any (λ x. x ≡ teardown at s rel) (map (teardown at s) rels)
  Any-map-teardown [] h = absurd h
  Any-map-teardown (r ∷ rels) (inl e) = inl (ap (teardown at s) (sym e))
  Any-map-teardown (r ∷ rels) (inr h) = inr (Any-map-teardown rels h)

  pub Any-teardowns :
      (tenants : List TenantState)
      → Any (λ u. s ≡ u) tenants
      → matches n s.tenant ≡ true
      → IsDue s at
      → Any (λ r. rel ≡ r) s.releases
      → Any (λ x. x ≡ teardown at s rel) (teardowns at n tenants)
  unfolding teardowns
  Any-teardowns [] h m d r = absurd h
  Any-teardowns (u ∷ rest) (inl e) m d r =
      let found =
        Any-append_left (λ x. x ≡ teardown at s rel) (map (teardown at s) s.releases)
          (teardowns at n rest) (Any-map-teardown s.releases r) in
      rw (← e, m, due-of_IsDue s at d) found
  Any-teardowns (u ∷ rest) (inr h) m d r =
      Any-append_right (λ x. x ≡ teardown at s rel)
        (if matches n u.tenant && due u at then map (teardown at u) u.releases else [])
        (teardowns at n rest) (Any-teardowns rest h m d r)
