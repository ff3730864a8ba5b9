-- ===== src/Pipeline/Match.antt =====
-- The longest-prefix rule of `Charts.match` in pkg/pipeline/config.go.
use gemaal.Base.{
  ◌≤◌, List, [], ◌∷◌, ◌++◌, true, false, ◌≡◌, refl, sym, ap, ◌∙◌, subst, ◌⊎◌, inl, inr, ◌≢◌, Text,
  codes, All, Any, Any-pick, length-append, arith, has_prefix, cut_prefix, cut_prefix_sound,
  cut_prefix-append, trim_prefix, length, leb, Bool-cases, Option-cases,
}
use gemaal.Pipeline.{
  Charts, Chart, Matched, all, match_next, match_among, match_chart, unmatched, taken,
}

-- the file name of a packaged chart, without its ending
abbrev pub tarball : Text → Text → Text
tarball name version = (name ++ codes "-") ++ version

-- A chart that does not claim the file name, or whose name is not longer than the one found.
abbrev pub IsShorter : Text → Matched → Chart → Type 0
IsShorter base m ch =
    (has_prefix base (ch.name ++ codes "-") ≡ false) ⊎ (length ch.name ≤ length m.name)

-- That the match is a tarball of one of the charts.
pub record IsTarballOf (chs : List Chart) (base : Text) (m : Matched) : Type 0 where
  pub ok : m.ok ≡ true
  pub split : base ≡ tarball m.name m.version
  pub owner : Any (λ c. c.name ≡ m.name) chs

-- What the scan of some charts makes of the match before it.
record Scan (base : Text) (before : Matched) (chs : List Chart) (m : Matched) : Type 0 where
  grows : length before.name ≤ length m.name
  longest : All (IsShorter base m) chs
  found : (m ≡ before) ⊎ IsTarballOf chs base m

-- A chart is passed over, or takes the match.
record Takes (base : Text) (before : Matched) (ch : Chart) (m : Matched) : Type 0 where
  ok : m.ok ≡ true
  name : m.name ≡ ch.name
  longer : length before.name ≤ length ch.name
  split : base ≡ tarball ch.name m.version

trim_prefix-split : (s p : Text) → has_prefix s p ≡ true → s ≡ p ++ trim_prefix s p
trim_prefix-split s p h = elim (Option-cases (cut_prefix s p)) [
  | inl e ↦ absurd (ground arith)
  | inr (r, e) ↦ rw e (cut_prefix_sound s p r e)
]

match_next-cases :
    (base : Text) (m : Matched) (ch : Chart)
    → ((match_next base m ch ≡ m) × IsShorter base m ch) ⊎ Takes base m ch (match_next base m ch)
unfolding match_next
match_next-cases base m ch = elim (Bool-cases (has_prefix base (ch.name ++ codes "-"))) [
  | inr e ↦ inl (ground arith, inl e)
  | inl e ↦ elim (Bool-cases (leb (length ch.name) (length m.name))) [
    | inl q ↦ inl (ground arith, inr (ground arith))
    | inr q ↦ inr (
        let same : taken base ch ≡ match_next base m ch = ground arith in
        subst (Takes base m ch) same (record {
          ok = refl;
          name = refl;
          longer = ground arith;
          split = trim_prefix-split base (ch.name ++ codes "-") e;
        }))
  ]
]

IsShorter-grow :
    (base : Text) (m n : Matched) (ch : Chart)
    → IsShorter base m ch
    → length m.name ≤ length n.name
    → IsShorter base n ch
IsShorter-grow base m n ch (inl e) h = inl e
IsShorter-grow base m n ch (inr e) h = inr (ground arith)

IsTarballOf-more :
    (base : Text) (m : Matched) (ch : Chart) (chs : List Chart)
    → IsTarballOf chs base m
    → IsTarballOf (ch ∷ chs) base m
IsTarballOf-more base m ch chs t = record { ok = t.ok; split = t.split; owner = inr t.owner }

Scan-pass :
    (base : Text) (m n : Matched) (ch : Chart) (chs : List Chart)
    → IsShorter base m ch
    → Scan base m chs n
    → Scan base m (ch ∷ chs) n
Scan-pass base m n ch chs short s = record {
  grows = s.grows;
  longest = (IsShorter-grow base m n ch short s.grows, s.longest);
  found = elim s.found [ inl e ↦ inl e | inr t ↦ inr (IsTarballOf-more base n ch chs t) ];
}

Scan-take :
    (base : Text) (m t n : Matched) (ch : Chart) (chs : List Chart)
    → Takes base m ch t
    → Scan base t chs n
    → Scan base m (ch ∷ chs) n
Scan-take base m t n ch chs k s =
    let by_name : length t.name ≡ length ch.name = ap length k.name in
    let longer = k.longer in
    let grown = s.grows in
    record {
      grows = omega (arith, by_name, longer, grown);
      longest = (inr (omega (arith, by_name, grown)), s.longest);
      found = elim s.found [
        | inl e ↦ inr (record {
          ok = ap (λ x. x.ok) e ∙ k.ok;
          split =
              subst (λ x. base ≡ tarball x.name x.version) (sym e)
                (subst (λ x. base ≡ tarball x t.version) (sym k.name) k.split);
          owner = inl (sym k.name ∙ sym (ap (λ x. x.name) e));
        })
        | inr o ↦ inr (IsTarballOf-more base n ch chs o)
      ];
    }

match_among-Scan :
    (base : Text) (m : Matched) (chs : List Chart) → Scan base m chs (match_among base m chs)
match_among-Scan base m [] = record { grows = ground arith; longest = tt; found = inl refl }
match_among-Scan base m (ch ∷ chs) =
    let n = match_among base (match_next base m ch) chs in
    let s : Scan base (match_next base m ch) chs n =
      match_among-Scan base (match_next base m ch) chs in
    elim (match_next-cases base m ch) [
      | inl (e, short) ↦ Scan-pass base m n ch chs short (subst (λ x. Scan base x chs n) e s)
      | inr t ↦ Scan-take base m (match_next base m ch) n ch chs t s
    ]

empty_text : (s : Text) → length s ≤ 0 → s ≡ []
empty_text [] h = refl
empty_text (c ∷ s) h = absurd (omega (arith, h))

none_longest :
    (base : Text) (chs : List Chart)
    → All (λ c. c.name ≢ []) chs
    → All (IsShorter base unmatched) chs
    → All (λ c. has_prefix base (c.name ++ codes "-") ≡ false) chs
none_longest base [] h k = tt
none_longest base (ch ∷ chs) (p, h) (inl e, k) = (e, none_longest base chs h k)
none_longest base (ch ∷ chs) (p, h) (inr e, k) = absurd (p (empty_text ch.name e))

-- Among charts with names, a file name goes to a chart exactly when it has one of the names and a
-- dash in front: to the chart with the longest such name, with what stands behind the dash for its
-- version; otherwise it goes to none.
pub match_chart_lem :
    (c : Charts) (base : Text)
    → All (λ ch. ch.name ≢ []) (all c)
    → (IsTarballOf (all c) base (match_chart c base)
        × All (IsShorter base (match_chart c base)) (all c))
      ⊎ (((match_chart c base).ok ≡ false)
          × All (λ ch. has_prefix base (ch.name ++ codes "-") ≡ false) (all c))
unfolding match_chart
match_chart_lem c base named =
    let s = match_among-Scan base unmatched (all c) in
    elim s.found [
      | inl e ↦ inr (
        ap (λ x. x.ok) e,
        none_longest base (all c) named (subst (λ x. All (IsShorter base x) (all c)) e s.longest),
      )
      | inr t ↦ inl (t, s.longest)
    ]

-- what a match that is one says
pub match_chart-IsTarballOf :
    (c : Charts) (base : Text)
    → (match_chart c base).ok ≡ true
    → IsTarballOf (all c) base (match_chart c base)
unfolding match_chart
match_chart-IsTarballOf c base h =
    let s = match_among-Scan base unmatched (all c) in
    elim s.found [ inl e ↦ absurd (ground (arith, ap (λ x. x.ok) e)) | inr t ↦ t ]

-- two ways to cut a text at the same place
append_inj : (s t u v : Text) → length s ≡ length u → s ++ t ≡ u ++ v → (s ≡ u) × (t ≡ v)
append_inj [] t [] v h e = (refl, e)
append_inj [] t (d ∷ u) v h e = absurd (ground arith)
append_inj (c ∷ s) t [] v h e = absurd (ground arith)
append_inj (c ∷ s) t (d ∷ u) v h e =
    let (q, r) = append_inj s t u v (ground arith) (ground arith) in (ground arith, r)

tarball_inj :
    (name v other w : Text)
    → length name ≡ length other
    → tarball name v ≡ tarball other w
    → (name ≡ other) × (v ≡ w)
tarball_inj name v other w h e =
    let (q, r) =
      append_inj (name ++ codes "-") v (other ++ codes "-") w
        (omega (arith, h, length-append name (codes "-"), length-append other (codes "-"))) e in
    ((append_inj name (codes "-") other (codes "-") h q).0, r)

tarball-has_prefix : (name v : Text) → has_prefix (tarball name v) (name ++ codes "-") ≡ true
tarball-has_prefix name v = rw cut_prefix-append refl

claimed : (base name v : Text) → base ≡ tarball name v → has_prefix base (name ++ codes "-") ≢ false
claimed base name v split e =
    let h : has_prefix base (name ++ codes "-") ≡ true =
      subst (λ x. has_prefix x (name ++ codes "-") ≡ true) (sym split)
        (tarball-has_prefix name v) in
    absurd (ground arith)

at_least :
    (name v : Text) (m : Matched) (chs : List Chart)
    → Any (λ ch. ch.name ≡ name) chs
    → All (IsShorter (tarball name v) m) chs
    → length name ≤ length m.name
at_least name v m chs own shorter =
    let (ch, e, short) = Any-pick chs own shorter in
    let by_name : length ch.name ≡ length name = ap length e in
    elim short [
      | inl f ↦ absurd (claimed (tarball name v) ch.name v (ap (λ x. tarball x v) (sym e)) f)
      | inr f ↦ omega (arith, f, by_name)
    ]

same_match :
    (m : Matched) (name version : Text)
    → m.ok ≡ true
    → name ≡ m.name
    → version ≡ m.version
    → m ≡ record { name = name; version = version; ok = true }
same_match m name version h e f = λ i. record { name = sym e i; version = sym f i; ok = h i }

-- The name is a chart's, and no longer one claims the file name.
abbrev pub IsOwner : Charts → Text → Text → Type 0
IsOwner c name version =
    Any (λ ch. ch.name ≡ name) (all c)
    × All (IsShorter (tarball name version) (record { name = name; version = version; ok = true }))
        (all c)

-- The file name made of a chart's name, a dash and a version is read back as that chart and that
-- version, where no longer name of the release claims it.
pub match_chart-tarball :
    (c : Charts) (name version : Text)
    → name ≢ []
    → IsOwner c name version
    → match_chart c (tarball name version) ≡ record { name = name; version = version; ok = true }
unfolding match_chart all
match_chart-tarball c name version named (own, most) =
    let s = match_among-Scan (tarball name version) unmatched (all c) in
    let m = match_chart c (tarball name version) in
    let reach = at_least name version m (all c) own s.longest in
    elim s.found [
      | inl e ↦ absurd (named (empty_text name (subst (λ x. length name ≤ length x.name) e reach)))
      | inr t ↦
          let (ch, e, short) = Any-pick (all c) t.owner most in
          let by_name : length ch.name ≡ length m.name = ap length e in
          elim short [
            | inl f ↦ absurd (
                claimed (tarball name version) ch.name m.version
                  (t.split ∙ ap (λ x. tarball x m.version) (sym e)) f)
            | inr f ↦
                let (p, q) =
                  tarball_inj name version m.name m.version (omega (arith, f, by_name, reach))
                    t.split in
                same_match m name version t.ok p q
          ]
    ]
