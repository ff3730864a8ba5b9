-- ===== src/Service/Hold.antt =====
-- Checkout and Extend of pkg/service/service.go: a caller holds one tenant for a while.
pub mod Granted
use gemaal.Base.{
  ◌&&◌, Bool, true, false, Option, none, some, Text, ℤ, pos, int_lt, time_add, if◌then◌else◌,
}
use gemaal.Engine.Types.{◌>>=◌, Result, ok, err, TenantState}
use gemaal.Engine.View.{find}
use gemaal.Engine.Apply.{Trace}
use gemaal.Engine.Stamp.{Stamped}
use gemaal.Service.{
  Deps, Code, invalid_argument, internal, ensure, permit, or_internal, or_not_found, TenantProto,
  tenant_proto,
}

-- What both requests carry, with the token of the header.
pub record HoldRequest : Type 0 where
  pub token : Text
  pub namespace : Text
  pub release : Text
  pub duration : Option ℤ

-- the duration asked for, or the default
abbrev pub asked : Deps → Option ℤ → ℤ
asked d none = d.config.hold.default
asked d (some t) = t

abbrev pub capped : Deps → ℤ → ℤ
capped d t = if int_lt d.config.hold.max t then d.config.hold.max else t

-- the end of the hold; `forward` never moves one backwards
unfoldable pub hold_until : Deps → Bool → TenantState → ℤ → ℤ
hold_until d forward s t =
    let until = time_add d.now (capped d t) in
    if forward && int_lt until s.ledger.keep_until then s.ledger.keep_until else until

-- `hold` up to the stamp: whom to hold, and until when
unfoldable pub hold_target : Deps → Bool → HoldRequest → Result Code (TenantState × ℤ)
hold_target d forward r = do
  _ ← permit d r.token r.namespace r.release
  v ← or_internal d.keeper.view
  s ← or_not_found (find v r.namespace r.release)
  _ ← ensure (int_lt (pos 0) (asked d r.duration)) invalid_argument
  ok (s, hold_until d forward s (asked d r.duration))

abbrev pub Held : Type 0
Held = record { reply : Result Code (TenantState × ℤ); trace : Trace }

-- the stamp's outcome
abbrev stamped : TenantState → ℤ → Stamped → Held
stamped s until o = elim o.error [
  | none ↦ record { reply = ok (s, until); trace = o.trace }
  | some e ↦ record { reply = err internal; trace = o.trace }
]

abbrev stamp_target : Deps → Result Code (TenantState × ℤ) → Trace → Held
stamp_target d (err c) t = record { reply = err c; trace = t }
stamp_target d (ok (s, until)) t = stamped s until (d.keeper.stamp_keep_until s.tenant until t)

unfoldable pub hold : Deps → Bool → HoldRequest → Trace → Held
hold d forward r t = stamp_target d (hold_target d forward r) t

abbrev pub with_keep_until : TenantState → ℤ → TenantState
with_keep_until s until = record s { ledger = record s.ledger { keep_until = until } }

abbrev pub proto_of : Deps → Result Code (TenantState × ℤ) → Result Code TenantProto
proto_of d (err c) = err c
proto_of d (ok (s, until)) = ok (tenant_proto (with_keep_until s until) d.now)

abbrev pub HoldReply : Type 0
HoldReply = record { reply : Result Code TenantProto; trace : Trace }

unfoldable pub checkout : Deps → HoldRequest → Trace → HoldReply
checkout d r t = let h = hold d false r t in record { reply = proto_of d h.reply; trace = h.trace }

unfoldable pub extend : Deps → HoldRequest → Trace → HoldReply
extend d r t = let h = hold d true r t in record { reply = proto_of d h.reply; trace = h.trace }
