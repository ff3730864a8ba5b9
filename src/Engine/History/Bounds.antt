-- ===== src/Engine/History/Bounds.antt =====
-- Runs of Add and Record of pkg/engine/history.go.
use gemaal.Base.{
  ℕ, zero, suc, ◌+◌, ◌-◌, ◌≤◌, ◌<◌, List, [], ◌∷◌, true, false, ℤ, pos, negsuc, ◌≡◌, refl, ◌∙◌, map,
  arith, All, length, length-take, take, ltb, Bool-cases, inl, inr, ap,
}
use gemaal.Engine.Types.{SweepRecord}
use gemaal.Engine.History.{
  refresh, History, new_history, add, is_quiet, cut_to, record_quiet, record_tick,
}

-- What the service does to its history: the RPCs add, the loop records.
pub data Event : Type 0 where
  added ticked : SweepRecord → Event

pub happen : Event → History → History
happen (added r) h = add r h
happen (ticked r) h = record_tick r h

pub run : List Event → History → History
run [] h = h
run (e ∷ es) h = run es (happen e h)

pub record IsBounded (cap : ℕ) (h : History) : Type 0 where
  pub same_cap : h.cap ≡ cap
  pub positive : 0 < cap
  pub within : length h.records ≤ cap

add-IsBounded :
    (cap : ℕ) (r : SweepRecord) (h : History) → IsBounded cap h → IsBounded cap (add r h)
unfolding add
add-IsBounded cap r h b = record {
  same_cap = b.same_cap;
  positive = b.positive;
  within = ground (arith, b.same_cap, length-take h.cap (r ∷ h.records));
}

-- the record of a first quiet pass
abbrev fresh : SweepRecord → SweepRecord
fresh r = record r { quiet_ticks = 1 }

length-cut_to : (cap : ℕ) (l : List SweepRecord) → length (cut_to cap l) ≤ cap
length-cut_to cap l = ground (arith, length-take cap l)

record_quiet-length :
    (r : SweepRecord) (cap : ℕ) (l : List SweepRecord)
    → length l ≤ cap
    → length (record_quiet r cap l) ≤ cap
unfolding record_quiet
record_quiet-length r cap [] h = length-cut_to cap (fresh r ∷ [])
record_quiet-length r cap (x ∷ l) h = elim (Bool-cases (ltb 0 x.quiet_ticks)) [
  | inl e ↦ rw e h
  | inr e ↦ rw e (length-cut_to cap (fresh r ∷ x ∷ l))
]

happen-IsBounded :
    (cap : ℕ) (e : Event) (h : History) → IsBounded cap h → IsBounded cap (happen e h)
unfolding happen record_tick
happen-IsBounded cap (added r) h b = add-IsBounded cap r h b
happen-IsBounded cap (ticked r) h b = elim (Bool-cases (is_quiet r)) [
  | inr e ↦ rw e (add-IsBounded cap r h b)
  | inl e ↦ rw e (record {
    same_cap = b.same_cap;
    positive = b.positive;
    within = rw b.same_cap (record_quiet-length r cap h.records b.within);
  })
]

run-IsBounded :
    (cap : ℕ) (es : List Event) (h : History) → IsBounded cap h → IsBounded cap (run es h)
unfolding run
run-IsBounded cap [] h b = b
run-IsBounded cap (e ∷ es) h b = run-IsBounded cap es (happen e h) (happen-IsBounded cap e h b)

abbrev pub asked : ℤ → ℕ
asked (pos zero) = 100
asked (pos (suc n)) = suc n
asked (negsuc n) = 100

-- From a new history, whatever is added and recorded in whatever order, the buffer has at least
-- one slot and never holds more records than its capacity, which is the one asked for, or 100
-- where that is not positive.
pub history-IsBounded :
    (capacity : ℤ) (es : List Event) → IsBounded (asked capacity) (run es (new_history capacity))
unfolding new_history
history-IsBounded capacity es =
    run-IsBounded (asked capacity) es (new_history capacity) (start capacity)
  where
    start : (c : ℤ) → IsBounded (asked c) (new_history c)
    start (pos zero) = omega arith
    start (pos (suc n)) = omega arith
    start (negsuc n) = omega arith

take_all : (n : ℕ) (l : List SweepRecord) → length l ≤ n → take n l ≡ l
take_all zero [] h = refl
take_all zero (x ∷ l) h = absurd (omega arith)
take_all (suc n) [] h = refl
take_all (suc n) (x ∷ l) h = ap (◌∷◌ x) (take_all n l (omega arith))

cut_to-cons :
    (r : SweepRecord) (cap : ℕ) (l : List SweepRecord)
    → 0 < cap
    → cut_to cap (r ∷ l) ≡ r ∷ take (cap - 1) l
cut_to-cons r zero l p = absurd (omega arith)
cut_to-cons r (suc n) l p =
    let one : suc n - 1 ≡ n = omega arith in
    elim (Bool-cases (ltb (suc n) (suc (length l)))) [
      | inl e ↦ rw (e, one)
      | inr e ↦ rw (e, one, take_all n l (ground arith))
    ]

-- The last of a run of records.
abbrev pub last : SweepRecord → List SweepRecord → SweepRecord
last r [] = r
last r (x ∷ xs) = last x xs

-- no quiet record at the head
abbrev pub IsBusyHead : List SweepRecord → Type 0
IsBusyHead [] = Unit
IsBusyHead (x ∷ l) = x.quiet_ticks ≡ 0

ticks_on : List SweepRecord → History → History
ticks_on [] h = h
ticks_on (r ∷ rs) h = ticks_on rs (record_tick r h)

run-ticked : (rs : List SweepRecord) (h : History) → run (map ticked rs) h ≡ ticks_on rs h
unfolding run happen ticks_on
run-ticked [] h = refl
run-ticked (r ∷ rs) h = run-ticked rs (record_tick r h)

-- What a run of quiet passes leaves: one record in front, which counts them and has the time of
-- the last, and the former records behind it, less the oldest where the capacity is reached.
pub record IsCollapsed (h : History) (passes : ℕ) (newest : SweepRecord) (l : List SweepRecord)
    : Type 0 where
  pub head : SweepRecord
  pub shape : l ≡ head ∷ take (h.cap - 1) h.records
  pub count : head.quiet_ticks ≡ passes
  pub at_last : head.at ≡ newest.at

first_quiet :
    (r : SweepRecord) (cap : ℕ) (l : List SweepRecord)
    → 0 < cap
    → IsBusyHead l
    → record_quiet r cap l ≡ fresh r ∷ take (cap - 1) l
unfolding record_quiet
first_quiet r cap [] p h = cut_to-cons (fresh r) cap [] p
first_quiet r cap (x ∷ l) p h =
    let busy : ltb 0 x.quiet_ticks ≡ false = ground arith in
    rw busy (cut_to-cons (fresh r) cap (x ∷ l) p)

second_quiet :
    (r : SweepRecord) (h : History) (g : SweepRecord) (tail : List SweepRecord)
    → is_quiet r ≡ true
    → 0 < g.quiet_ticks
    → h.records ≡ g ∷ tail
    → (record_tick r h).records ≡ refresh r g ∷ tail
unfolding record_tick record_quiet
second_quiet r h g tail q p e =
    let counted : ltb 0 g.quiet_ticks ≡ true = ground arith in rw (q, e, record_quiet, counted)

last-at :
    (a b : SweepRecord) (rs : List SweepRecord) → a.at ≡ b.at → (last a rs).at ≡ (last b rs).at
last-at a b [] e = e
last-at a b (r ∷ rs) e = refl

-- further quiet passes on a history with a quiet head
more_quiet :
    (h : History) (g : SweepRecord) (tail : List SweepRecord) (rs : List SweepRecord)
    → All (λ r. is_quiet r ≡ true) rs
    → 0 < g.quiet_ticks
    → h.records ≡ g ∷ tail
    → (head : SweepRecord) × ((ticks_on rs h).records ≡ head ∷ tail)
      × (head.quiet_ticks ≡ g.quiet_ticks + length rs)
      × (head.at ≡ (last g rs).at)
unfolding ticks_on
more_quiet h g tail [] q p e = (g, e, omega arith, refl)
more_quiet h g tail (r ∷ rs) (q, qs) p e =
    let (head, shape, count, at_last) =
      more_quiet (record_tick r h) (refresh r g) tail rs qs (omega arith)
        (second_quiet r h g tail q p e) in
    (head, shape, omega arith, at_last ∙ last-at (refresh r g) r rs refl)

-- Quiet passes of the loop after a head that is not quiet, or on an empty history, collapse into
-- one record, however many they are: it counts them and carries the time of the last, and what
-- stood before them stays, less one record where the capacity was reached.
pub quiet_passes-IsCollapsed :
    (h : History) (r : SweepRecord) (rs : List SweepRecord)
    → 0 < h.cap
    → IsBusyHead h.records
    → All (λ x. is_quiet x ≡ true) (r ∷ rs)
    → IsCollapsed h (length (r ∷ rs)) (last r rs) (run (map ticked (r ∷ rs)) h).records
quiet_passes-IsCollapsed h r rs p busy (q, qs) =
    let (head, shape, count, at_last) =
      more_quiet (record_tick r h) (fresh r) (take (h.cap - 1) h.records) rs qs (omega arith)
        started in
    record {
      head = head;
      shape = ap (λ x. x.records) (run-ticked (r ∷ rs) h) ∙ unfold ticks_on in shape;
      count = omega arith;
      at_last = at_last ∙ last-at (fresh r) r rs refl;
    }
  where
    started : (record_tick r h).records ≡ fresh r ∷ take (h.cap - 1) h.records
    started = unfold record_tick in (rw q (first_quiet r h.cap h.records p busy))
