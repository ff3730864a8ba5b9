-- ===== src/Service/Hold/Granted.antt =====
-- `hold` of pkg/service/service.go: its checks and its bounds.
use gemaal.Base.{
  ◌&&◌, Bool, true, false, some, none, refl, Text, ℤ, pos, ◌≡◌, ◌⊎◌, inl, inr, arith, Bool-cases,
  Option-cases, if◌then◌else◌, ◌≤ℤ◌, ◌<ℤ◌, int_lt, int_lt_iff, subst, ap, time_add, time_add-lt,
  time_add_mono,
}
use gemaal.Authn.{Caller}
use gemaal.Engine.Types.{Result, ok, err, Result-cases, TenantState, View}
use gemaal.Engine.View.{find}
use gemaal.Engine.Apply.{Trace}
use gemaal.Service.{
  Deps, Code, invalid_argument, internal, is_admin, owns, authorize_hold, authenticate_request,
  valid_name, permit, tenant_proto,
}
use gemaal.Service.Hold.{
  HoldRequest, HoldReply, Held, asked, capped, hold_until, hold_target, hold, checkout, extend,
  proto_of, with_keep_until,
}

-- What a granted hold of a tenant rests on.
pub record IsGranted (d : Deps) (forward : Bool) (r : HoldRequest) (s : TenantState) (until : ℤ)
    : Type 0 where
  pub caller : Caller
  pub known : authenticate_request d r.token ≡ ok caller
  pub allowed : (is_admin d caller ≡ true) ⊎ (owns d caller r.namespace ≡ true)
  pub watched : (v : View) × (d.keeper.view ≡ ok v) × (find v r.namespace r.release ≡ some s)
  pub within :
      (until ≤ℤ time_add d.now d.config.hold.max)
      ⊎ ((forward ≡ true) × (until ≡ s.ledger.keep_until))
  pub never_backwards : (forward ≡ false) ⊎ (s.ledger.keep_until ≤ℤ until)
  pub ahead : d.now <ℤ until

permit-ok :
    (d : Deps) (token namespace release : Text) (u : Unit)
    → permit d token namespace release ≡ ok u
    → (caller : Caller) × (authenticate_request d token ≡ ok caller)
      × ((is_admin d caller ≡ true) ⊎ (owns d caller namespace ≡ true))
unfolding permit authorize_hold
permit-ok d token namespace release u h = elim (Result-cases (authenticate_request d token)) [
  | inr (c, e) ↦ absurd (ground arith)
  | inl (caller, e) ↦ elim (Result-cases (valid_name namespace)) [
    | inr (c, q) ↦ absurd (ground arith)
    | inl (_, q) ↦ elim (Result-cases (valid_name release)) [
      | inr (c, k) ↦ absurd (ground arith)
      | inl (_, k) ↦ (caller, e, ground arith)
    ]
  ]
]

later : (forward : Bool) (k u : ℤ) → ℤ
later forward k u = if forward && int_lt u k then k else u

later-facts :
    (forward : Bool) (k u : ℤ)
    → let x = later forward k u in
      ((x ≡ u) ⊎ ((forward ≡ true) × (x ≡ k))) × ((forward ≡ false) ⊎ (k ≤ℤ x)) × (u ≤ℤ x)
unfolding later
later-facts forward k u = ground arith

capped_facts :
    (max t : ℤ)
    → (pos 0) <ℤ max
    → (pos 0) <ℤ t
    → let x = if int_lt max t then max else t in (x ≤ℤ max) × ((pos 0) <ℤ x)
capped_facts max t p q = (ground arith, ground arith)

int_le_trans_eq : (x u m : ℤ) → x ≡ u → u ≤ℤ m → x ≤ℤ m
int_le_trans_eq x u m e h = rw e h

int_lt_le : (a b c : ℤ) → a <ℤ b → b ≤ℤ c → a <ℤ c
int_lt_le a b c h k = omega arith

abbrev Target : Type 0
Target = TenantState × ℤ

ok-inj : (p q : Target) (r : Result Code Target) → r ≡ ok p → r ≡ ok q → p ≡ q
ok-inj p q r h k = cc (h, k)

clash : (c : Code) (p : Target) (r : Result Code Target) → r ≡ err c → r ≡ ok p → ⊥
clash c p r h k = cc (h, k)

module _ (d : Deps) (forward : Bool) (r : HoldRequest)
    (max_positive : (pos 0) <ℤ d.config.hold.max) where
  until_facts :
      (s : TenantState)
      → (pos 0) <ℤ asked d r.duration
      → let until = hold_until d forward s (asked d r.duration) in
        ((until ≤ℤ time_add d.now d.config.hold.max)
          ⊎ ((forward ≡ true) × (until ≡ s.ledger.keep_until)))
        × ((forward ≡ false) ⊎ (s.ledger.keep_until ≤ℤ until))
        × (d.now <ℤ until)
  unfolding hold_until later
  until_facts s p =
      let t = capped d (asked d r.duration) in
      let (at_most, positive) =
        capped_facts d.config.hold.max (asked d r.duration) max_positive p in
      let (which, never, least) = later-facts forward s.ledger.keep_until (time_add d.now t) in
      let bound = time_add_mono d.now t d.config.hold.max at_most in
      (
        elim which [ inl e ↦ inl (int_le_trans_eq _ _ _ e bound) | inr e ↦ inr e ],
        never,
        int_lt_le d.now (time_add d.now t) _ (time_add-lt d.now t positive) least,
      )

  target-IsGranted :
      (s : TenantState) (until : ℤ)
      → hold_target d forward r ≡ ok (s, until)
      → IsGranted d forward r s until
  unfolding hold_target
  target-IsGranted s until h = elim (Result-cases (permit d r.token r.namespace r.release)) [
    | inr (c, e) ↦ absurd (ground arith)
    | inl (u, e) ↦ elim (Result-cases d.keeper.view) [
      | inr (c, q) ↦ absurd (ground arith)
      | inl (v, q) ↦ elim (Option-cases (find v r.namespace r.release)) [
        | inl k ↦ absurd (ground arith)
        | inr (found, k) ↦ elim (Bool-cases (int_lt (pos 0) (asked d r.duration))) [
          | inr w ↦
              absurd
                (clash invalid_argument (s, until) (hold_target d forward r) (rw (e, q, k, w)) h)
          | inl w ↦
              let p : Target = (found, hold_until d forward found (asked d r.duration)) in
              granted u e v q found k ((int_lt_iff (pos 0) (asked d r.duration)).0 w)
                (ok-inj p (s, until) (hold_target d forward r) (rw (e, q, k, w)) h)
        ]
      ]
    ]
  ]
    where
      granted :
          (u : Unit)
          → permit d r.token r.namespace r.release ≡ ok u
          → (v : View) → d.keeper.view ≡ ok v
          → (found : TenantState) → find v r.namespace r.release ≡ some found
          → (pos 0) <ℤ asked d r.duration
          → ◌≡◌ {A = Target} (found, hold_until d forward found (asked d r.duration)) (s, until)
          → IsGranted d forward r s until
      granted u e v q found k w same =
          let (caller, known, allowed) = permit-ok d r.token r.namespace r.release u e in
          let (within, never, ahead) = until_facts found w in
          subst (λ p. IsGranted d forward r p.0 p.1) same
            (record {
              caller = caller;
              known = known;
              allowed = allowed;
              watched = (v, q, k);
              within = within;
              never_backwards = never;
              ahead = ahead;
            })

  -- What `hold` ends with: an error, before the stamp or from it, or the stamp of a granted hold.
  data IsHeld (t : Trace) (h : Held) : Type 0 where
    refused : (c : Code) → h.reply ≡ err c → h.trace ≡ t → IsHeld t h
    unstamped :
        (c : Code) (s : TenantState) (until : ℤ)
        → IsGranted d forward r s until
        → h.reply ≡ err c
        → h.trace ≡ (d.keeper.stamp_keep_until s.tenant until t).trace
        → IsHeld t h
    granted :
        (s : TenantState) (until : ℤ)
        → IsGranted d forward r s until
        → (d.keeper.stamp_keep_until s.tenant until t).error ≡ none
        → h.reply ≡ ok (s, until)
        → h.trace ≡ (d.keeper.stamp_keep_until s.tenant until t).trace
        → IsHeld t h

  hold-IsHeld : (t : Trace) → IsHeld t (hold d forward r t)
  unfolding hold
  hold-IsHeld t = elim (Result-cases (hold_target d forward r)) [
    | inr (c, e) ↦ refused c (rw (e, hold) refl) (rw (e, hold) refl)
    | inl ((s, until), e) ↦
        let g = target-IsGranted s until e in
        elim (Option-cases (d.keeper.stamp_keep_until s.tenant until t).error) [
          | inr (x, q) ↦ unstamped internal s until g (rw (e, q, hold) refl) (rw (e, q, hold) refl)
          | inl q ↦ granted s until g q (rw (e, q, hold) refl) (rw (e, q, hold) refl)
        ]
  ]

-- What a handler of a hold ends with, behind the calls `t`: a refusal without a call; an error from
-- the stamp of a granted hold; or that stamp, and the tenant with the end that was stamped.
pub data IsHandled (d : Deps) (forward : Bool) (r : HoldRequest) (t : Trace) (h : HoldReply)
    : Type 0 where
  refused : (c : Code) → h.reply ≡ err c → h.trace ≡ t → IsHandled d forward r t h
  unstamped :
      (c : Code) (s : TenantState) (until : ℤ)
      → IsGranted d forward r s until
      → h.reply ≡ err c
      → h.trace ≡ (d.keeper.stamp_keep_until s.tenant until t).trace
      → IsHandled d forward r t h
  granted :
      (s : TenantState) (until : ℤ)
      → IsGranted d forward r s until
      → (d.keeper.stamp_keep_until s.tenant until t).error ≡ none
      → h.reply ≡ ok (tenant_proto (with_keep_until s until) d.now)
      → h.trace ≡ (d.keeper.stamp_keep_until s.tenant until t).trace
      → IsHandled d forward r t h

replied :
    (d : Deps) (forward : Bool) (r : HoldRequest) (m : (pos 0) <ℤ d.config.hold.max) (t : Trace)
    (h : Held)
    → IsHeld d forward r m t h
    → IsHandled d forward r t (record { reply = proto_of d h.reply; trace = h.trace })
replied d forward r m t h (refused c e u) = refused c (ap (proto_of d) e) u
replied d forward r m t h (unstamped c s until g e u) = unstamped c s until g (ap (proto_of d) e) u
replied d forward r m t h (granted s until g q e u) = granted s until g q (ap (proto_of d) e) u

-- If the greatest hold is positive, then a Checkout and an Extend each end with a refusal and no
-- call, or stamp a hold that is granted: it was asked for by an admin or the namespace's owner, for a
-- tenant that the view lists, and it ends in the future and within the greatest hold; but where
-- Extend would move the tenant's hold backwards it keeps its end. What is stamped is that end, and
-- where the stamp succeeds the reply is the tenant with it.
pub holds-AreHandled :
    (d : Deps) (r : HoldRequest)
    → (pos 0) <ℤ d.config.hold.max
    → (t : Trace) → IsHandled d false r t (checkout d r t) × IsHandled d true r t (extend d r t)
unfolding checkout extend
holds-AreHandled d r m t = (
  replied d false r m t (hold d false r t) (hold-IsHeld d false r m t),
  replied d true r m t (hold d true r t) (hold-IsHeld d true r m t),
)
