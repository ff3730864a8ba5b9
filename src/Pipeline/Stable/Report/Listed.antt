-- ===== src/Pipeline/Stable/Report/Listed.antt =====
-- The lists of the partial-publish report in pkg/pipeline/stable.go against the pushes called.
use gemaal.Base.{
  List, [], ◌∷◌, ◌++◌, map, All, Bool, true, false, not, ◌&&◌, Text, ◌≡◌, refl, sym, ap, ◌∙◌,
  if◌then◌else◌, Bool-cases, arith, Option, some, ◌||◌, ◌⊎◌, is_empty, inl, inr,
}
use mathlib.Core.List.{append-nil, append_assoc}
use gemaal.Pipeline.{Config}
use gemaal.Pipeline.Flow.{Outside}
use gemaal.Pipeline.Stable.Released.{release_stable-IsTruthful}
use gemaal.Pipeline.Stable.{at_start, release_stable, has_failed, StableState, ExtraPush}
use gemaal.Pipeline.Stable.Pushed.{
  Status, unstarted, unknown, confirmed, inconsistent, status, extra_status, statuses, attempts,
  Progress, idle, failed, pushed, IsTruthful, IsInOrder,
}
use gemaal.Pipeline.Stable.Report.{
  listed, is_confirmed, is_unknown, is_unstarted, names_of, possibly_charts, published_charts,
  unpublished_charts, Report, report_partial_publish, conclusion, recovery,
}

-- the charts whose status passes a test
with_status : (Status → Bool) → List (Text × Status) → List Text
with_status p [] = []
with_status p ((name, s) ∷ xs) = listed (p s) name ++ with_status p xs

-- the charts whose push was called with this outcome
abbrev pub named : Bool → List (Text × Bool) → List Text
named b [] = []
named b ((name, r) ∷ ts) = (if r then listed b name else listed (not b) name) ++ named b ts

says_confirmed : Status → Bool
says_confirmed confirmed = true
says_confirmed inconsistent = true
says_confirmed s = false

says_unknown : Status → Bool
says_unknown unknown = true
says_unknown s = false

says_unstarted : Status → Bool
says_unstarted unstarted = true
says_unstarted inconsistent = true
says_unstarted s = false

confirmed_test : (a b : Bool) → b ≡ says_confirmed (status a b)
unfolding status says_confirmed
confirmed_test true true = refl
confirmed_test true false = refl
confirmed_test false true = refl
confirmed_test false false = refl

unknown_test : (a b : Bool) → (a && not b) ≡ says_unknown (status a b)
unfolding status says_unknown
unknown_test true true = refl
unknown_test true false = refl
unknown_test false true = refl
unknown_test false false = refl

unstarted_test : (a b : Bool) → not a ≡ says_unstarted (status a b)
unfolding status says_unstarted
unstarted_test true true = refl
unstarted_test true false = refl
unstarted_test false true = refl
unstarted_test false false = refl

module _ (p : Status → Bool) (q : ExtraPush → Bool)
    (agree : (x : ExtraPush) → q x ≡ p (status x.started x.confirmed)) where
  extras_listed :
      (xs : List ExtraPush) (ys : List (Text × Status))
      → with_status p (map extra_status xs ++ ys) ≡ names_of q xs ++ with_status p ys
  unfolding with_status extra_status
  extras_listed [] ys = refl
  extras_listed (x ∷ xs) ys = elim (Bool-cases (q x)) [
    | inl e ↦
        let k : p (status x.started x.confirmed) ≡ true = sym (agree x) ∙ e in
        rw (e, k) (ap (λ z. x.name ∷ z) (extras_listed xs ys))
    | inr e ↦
        let k : p (status x.started x.confirmed) ≡ false = sym (agree x) ∙ e in
        rw (e, k) (extras_listed xs ys)
  ]

  -- the report's list of the charts that pass a test
  all_listed :
      (c : Config) (s : StableState) (b2 b3 : Bool)
      → b2 ≡ p (status s.started_ring2 s.confirmed_ring2)
      → b3 ≡ p (status s.started_ring3 s.confirmed_ring3)
      → listed b2 c.charts.ring2.name ++ names_of q s.extras ++ listed b3 c.charts.ring3.name
        ≡ with_status p (statuses c s)
  unfolding with_status statuses
  all_listed c s b2 b3 h k =
      let r3 = status s.started_ring3 s.confirmed_ring3 in
      let name2 = c.charts.ring2.name in
      let name3 = c.charts.ring3.name in
      let last : listed b3 name3 ≡ listed (p r3) name3 ++ [] =
        ap (λ b. listed b name3) k ∙ sym (append-nil (listed (p r3) name3)) in
      let rest : names_of q s.extras ++ listed b3 name3
          ≡ with_status p (map extra_status s.extras ++ ((name3, r3) ∷ [])) =
        ap (λ z. names_of q s.extras ++ z) last ∙ sym (extras_listed s.extras ((name3, r3) ∷ [])) in
      append_assoc (listed b2 name2) (names_of q s.extras) (listed b3 name3)
      ∙ (λ i. listed (h i) name2 ++ rest i)

-- the names, and how they split by the outcome of the push
abbrev names : List (Text × Status) → List Text
names xs = map (λ x. x.0) xs

record IsSplit (xs : List (Text × Status)) (ts : List (Text × Bool)) : Type 0 where
  confirmed_ones : with_status says_confirmed xs ≡ named true ts
  unknown_ones : with_status says_unknown xs ≡ named false ts
  all_ones : named true ts ++ (named false ts ++ with_status says_unstarted xs) ≡ names xs

unstarted-IsSplit :
    (xs : List (Text × Status)) → All (λ (x : Text × Status). x.1 ≡ unstarted) xs → IsSplit xs []
unfolding with_status says_confirmed says_unknown says_unstarted
unstarted-IsSplit [] h = record { confirmed_ones = refl; unknown_ones = refl; all_ones = refl }
unstarted-IsSplit ((name, s) ∷ xs) (e, h) =
    let rest = unstarted-IsSplit xs h in
    record {
      confirmed_ones =
          ap (λ z. listed (says_confirmed z) name ++ with_status says_confirmed xs) e
          ∙ rest.confirmed_ones;
      unknown_ones =
          ap (λ z. listed (says_unknown z) name ++ with_status says_unknown xs) e
          ∙ rest.unknown_ones;
      all_ones =
          ap (λ z. listed (says_unstarted z) name ++ with_status says_unstarted xs) e
          ∙ ap (λ z. name ∷ z) rest.all_ones;
    }

Progress-IsSplit :
    (xs : List (Text × Status)) (ts : List (Text × Bool)) → Progress xs ts → IsSplit xs ts
unfolding with_status says_confirmed says_unknown says_unstarted
Progress-IsSplit xs ts (idle ys h) = unstarted-IsSplit ys h
Progress-IsSplit xs ts (failed name ys h) =
    let rest = unstarted-IsSplit ys h in
    record {
      confirmed_ones = rest.confirmed_ones;
      unknown_ones = ap (λ z. name ∷ z) rest.unknown_ones;
      all_ones = ap (λ z. name ∷ z) rest.all_ones;
    }
Progress-IsSplit xs ts (pushed name ys us k) =
    let rest = Progress-IsSplit ys us k in
    record {
      confirmed_ones = ap (λ z. name ∷ z) rest.confirmed_ones;
      unknown_ones = rest.unknown_ones;
      all_ones = ap (λ z. name ∷ z) rest.all_ones;
    }

-- What a report lists, against the pushes called and the charts of the project's document.
pub record IsListed (c : Config) (s : StableState) (ts : List (Text × Bool)) (r : Report)
    : Type 0 where
  pub published : r.published ≡ named true ts
  pub possibly : r.possibly ≡ named false ts
  pub complete :
      (r.published ++ (r.possibly ++ r.not_published)
        ≡ c.charts.ring2.name ∷ (map (λ ch. ch.name) c.charts.extra ++ (c.charts.ring3.name ∷ [])))
      ⊎ ((s.charts_selected ≡ false)
          × (ts ≡ [])
          × (r.published ++ (r.possibly ++ r.not_published)
              ≡ c.charts.ring2.name ∷ c.charts.ring3.name ∷ []))

extra_names :
    (xs : List ExtraPush) (y : Text × Status)
    → names (map extra_status xs ++ (y ∷ [])) ≡ map (λ x. x.name) xs ++ (y.0 ∷ [])
unfolding extra_status
extra_names [] y = refl
extra_names (x ∷ xs) y = ap (λ z. x.name ∷ z) (extra_names xs y)

-- the three lists, with the extras of the state
record AreListed (c : Config) (s : StableState) (ts : List (Text × Bool)) : Type 0 where
  published : published_charts c s ≡ named true ts
  possibly : possibly_charts c s ≡ named false ts
  complete :
      published_charts c s ++ (possibly_charts c s ++ unpublished_charts c s)
      ≡ c.charts.ring2.name ∷ (map (λ x. x.name) s.extras ++ (c.charts.ring3.name ∷ []))

truthful-AreListed :
    (c : Config) (s : StableState) (ts : List (Text × Bool))
    → s.published_images ≡ true
    → IsTruthful c s ts
    → AreListed c s ts
unfolding published_charts possibly_charts unpublished_charts statuses
truthful-AreListed c s ts images k =
    let split = Progress-IsSplit (statuses c s) ts k in
    let r3 : Text × Status = (c.charts.ring3.name, status s.started_ring3 s.confirmed_ring3) in
    let conf : published_charts c s ≡ named true ts = rw images (
      all_listed says_confirmed is_confirmed (λ x. confirmed_test x.started x.confirmed) c s
        s.confirmed_ring2 s.confirmed_ring3 (confirmed_test s.started_ring2 s.confirmed_ring2)
        (confirmed_test s.started_ring3 s.confirmed_ring3)
      ∙ split.confirmed_ones) in
    let unk : possibly_charts c s ≡ named false ts =
      all_listed says_unknown is_unknown (λ x. unknown_test x.started x.confirmed) c s
        (s.started_ring2 && not s.confirmed_ring2) (s.started_ring3 && not s.confirmed_ring3)
        (unknown_test s.started_ring2 s.confirmed_ring2)
        (unknown_test s.started_ring3 s.confirmed_ring3)
      ∙ split.unknown_ones in
    let un : unpublished_charts c s ≡ with_status says_unstarted (statuses c s) =
      all_listed says_unstarted is_unstarted (λ x. unstarted_test x.started x.confirmed) c s
        (not s.started_ring2) (not s.started_ring3)
        (unstarted_test s.started_ring2 s.confirmed_ring2)
        (unstarted_test s.started_ring3 s.confirmed_ring3) in
    record {
      published = conf;
      possibly = unk;
      complete =
          (λ i. conf i ++ (unk i ++ un i))
          ∙ split.all_ones
          ∙ ap (λ z. c.charts.ring2.name ∷ z) (extra_names s.extras r3);
    }

-- what is reported, where something is
ListsOf : Config → StableState → Report → Type 0
ListsOf c s r =
    (r.published ≡ published_charts c s)
    × (r.possibly ≡ possibly_charts c s)
    × (r.not_published ≡ unpublished_charts c s)

the_report : Config → StableState → Report
the_report c s = record {
  images_published = s.published_images;
  version_or_tag = if is_empty s.version then s.tag else s.version;
  published = published_charts c s;
  possibly = possibly_charts c s;
  not_published = unpublished_charts c s;
  conclusion = conclusion s;
  recovery = recovery c s;
}

some-inj : (a b : Report) → Path (Option Report) (some a) (some b) → a ≡ b
some-inj a b h = cc h

report-ListsOf :
    (c : Config) (s : StableState) (b : Bool) (r : Report)
    → report_partial_publish c s b ≡ some r
    → ListsOf c s r
unfolding report_partial_publish ListsOf the_report
report-ListsOf c s b r h = elim (Bool-cases (s.release_complete || not b)) [
  | inl q ↦ absurd (ground arith)
  | inr q ↦ elim (Bool-cases (not s.goreleaser_started)) [
    | inl k ↦ absurd (ground arith)
    | inr k ↦
        let same = some-inj (the_report c s) r (rw (q, k) at h) in
        (
          ap (λ x. x.published) (sym same),
          ap (λ x. x.possibly) (sym same),
          ap (λ x. x.not_published) (sym same),
        )
  ]
]

listed-IsListed :
    (c : Config) (s : StableState) (ts : List (Text × Bool)) (r : Report)
    → ListsOf c s r
    → AreListed c s ts
    → IsInOrder c s ts
    → IsListed c s ts r
unfolding ListsOf
listed-IsListed c s ts r (p, q, u) k order =
    let whole : r.published ++ (r.possibly ++ r.not_published)
        ≡ c.charts.ring2.name ∷ (map (λ x. x.name) s.extras ++ (c.charts.ring3.name ∷ [])) =
      (λ i. p i ++ (q i ++ u i)) ∙ k.complete in
    record {
      published = p ∙ k.published;
      possibly = q ∙ k.possibly;
      complete = elim order [
        | inr n ↦ inl (whole ∙ ap (λ l. c.charts.ring2.name ∷ (l ++ (c.charts.ring3.name ∷ []))) n)
        | inl (free, z, none_called) ↦ inr (
          free,
          none_called,
          whole
              ∙ ap
                  (λ l.
                    c.charts.ring2.name
                    ∷ (map (λ (x : ExtraPush). x.name) l ++ (c.charts.ring3.name ∷ [])))
                  z,
        )
      ];
    }

-- Where a stable release that has published its images ends with a report, the report lists as
-- published just the charts whose push was called and succeeded, as possibly published just those
-- whose push was called and failed, and over its three lists every chart of the project's document
-- exactly once, in publish order; where no charts are selected, and so none pushed, it lists the two
-- rings only.
pub report-IsListed :
    (o : Outside) (c : Config) (r : Report)
    → let x = release_stable o c at_start in
      report_partial_publish c x.0.state (has_failed o x.1) ≡ some r
      → x.0.state.published_images ≡ true
      → IsListed c x.0.state (attempts x.0.trace) r
report-IsListed o c r h images =
    let x = release_stable o c at_start in
    let (k, order) = release_stable-IsTruthful o c in
    listed-IsListed c x.0.state (attempts x.0.trace) r
      (report-ListsOf c x.0.state (has_failed o x.1) r h)
      (truthful-AreListed c x.0.state (attempts x.0.trace) images k) order
