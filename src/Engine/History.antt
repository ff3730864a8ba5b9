-- ===== src/Engine/History.antt =====
-- pkg/engine/history.go: the bounded record of recent sweeps. The mutex makes each call atomic, so
-- a history is a list that one call at a time replaces.
pub mod Bounds
use gemaal.Base.{
  ℕ, zero, suc, ◌&&◌, List, [], ◌∷◌, Bool, ℤ, pos, if◌then◌else◌, is_empty, length, take, ltb,
}
use gemaal.Engine.Types.{SweepRecord}

pub record History : Type 0 where
  pub cap : ℕ
  pub records : List SweepRecord

abbrev capacity_or_default : ℤ → ℕ
capacity_or_default (pos zero) = 100
capacity_or_default (pos (suc n)) = suc n
capacity_or_default (ℤ.negsuc n) = 100

-- NewHistory
unfoldable pub new_history : ℤ → History
new_history capacity = record { cap = capacity_or_default capacity; records = [] }

-- `records[:cap]` where there are more
abbrev cut_to : ℕ → List SweepRecord → List SweepRecord
cut_to cap records = if ltb cap (length records) then take cap records else records

unfoldable pub add : SweepRecord → History → History
add r h = record h { records = cut_to h.cap (r ∷ h.records) }

unfoldable pub is_quiet : SweepRecord → Bool
is_quiet r = is_empty r.results && is_empty r.problems

abbrev refresh : SweepRecord → SweepRecord → SweepRecord
refresh r head = record head {
  quiet_ticks = suc head.quiet_ticks;
  at = r.at;
  dry_run = r.dry_run;
  kept = r.kept;
}

-- a quiet pass: the quiet head counts it, or it becomes the head
unfoldable pub record_quiet : SweepRecord → ℕ → List SweepRecord → List SweepRecord
record_quiet r cap [] = cut_to cap (record r { quiet_ticks = 1 } ∷ [])
record_quiet r cap (head ∷ rest) =
    if ltb 0 head.quiet_ticks
    then refresh r head ∷ rest
    else cut_to cap (record r { quiet_ticks = 1 } ∷ head ∷ rest)

-- Record
unfoldable pub record_tick : SweepRecord → History → History
record_tick r h =
    if is_quiet r then record h { records = record_quiet r h.cap h.records } else add r h
