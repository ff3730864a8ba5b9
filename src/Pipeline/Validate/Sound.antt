-- ===== src/Pipeline/Validate/Sound.antt =====
-- What the checks of `validate` in pkg/pipeline/config.go leave of a configuration.
use gemaal.Base.{
  ℕ, suc, ◌≡◌, refl, sym, ap, ◌∙◌, subst, ◌⊎◌, inl, inr, ◌≢◌, List, [], ◌∷◌, ◌++◌, Bool, true,
  false, ◌||◌, not, Option, none, some, Text, codes, text_eq, text_eq_iff, has_prefix, is_empty,
  arith, All, All-map, All-append,
}
use mathlib.Core.List.{append_assoc}
use gemaal.Config.{lookup}
use gemaal.Engine.Types.{ok}
use gemaal.Pipeline.{Config, Chart, all, apply_defaults}
use gemaal.Pipeline.Paths.{clean}
use gemaal.Pipeline.Validate.{
  ConfigError, no_project, no_region, MapOrder, Owner, ring2, ring3, extra, must, then_check,
  in_order, ring_problem, extra_problem, taken_problem, bad_extra, extras_problem, checks,
  first_problem, bad_ring, same_rings, rings_claimed, lock_problem, validate, checked, parse,
}

pub record IsNamed (ch : Chart) : Type 0 where
  pub has_name : ch.name ≢ []
  pub has_path : ch.path ≢ []

abbrev pub AreDistinct : List Chart → Type 0
AreDistinct [] = Unit
AreDistinct (ch ∷ chs) = All (λ other. ch.name ≢ other.name) chs × AreDistinct chs

-- A path that is a directory's, or that begins with the directory and a slash: for a cleaned
-- directory other than "." and "/", what lies in it.
abbrev pub IsBelow : Text → Text → Type 0
IsBelow dir path = (path ≡ dir) ⊎ ((rest : Text) × (path ≡ dir ++ (codes "/" ++ rest)))

pub record IsSound (c : Config) : Type 0 where
  pub has_project : c.project ≢ []
  pub has_region : c.aws_region ≢ []
  pub charts_named : All IsNamed (all c.charts)
  pub charts_distinct : AreDistinct (all c.charts)
  pub lock_not_below : IsBelow (clean c.dist_dir) (clean c.lock.file) → ⊥

then_check-none : (p q : Option ConfigError) → then_check p q ≡ none → (p ≡ none) × (q ≡ none)
then_check-none none q h = (refl, h)
then_check-none (some e) q h = absurd (ground arith)

in_order-none :
    (b : Bool) (p q : Option ConfigError) → in_order b p q ≡ none → (p ≡ none) × (q ≡ none)
in_order-none true p q h = let (a, b) = then_check-none q p h in (b, a)
in_order-none false p q h = then_check-none p q h

not_empty : (t : Text) → is_empty t ≡ false → t ≢ []
not_empty [] h e = absurd (ground arith)
not_empty (c ∷ t) h e = absurd (ground arith)

IsNamed-checked :
    (ch : Chart) (e : ConfigError)
    → must (not (is_empty ch.name || is_empty ch.path)) e ≡ none
    → IsNamed ch
IsNamed-checked ch e h = record {
  has_name = not_empty ch.name (ground arith);
  has_path = not_empty ch.path (ground arith);
}

lookup-none :
    (k j : Text) (v : Owner) (m : List (Text × Owner))
    → lookup k ((j, v) ∷ m) ≡ none
    → (j ≢ k) × (lookup k m ≡ none)
unfolding lookup
lookup-none k j v m h =
    (λ e. let q : text_eq j k ≡ true = (text_eq_iff j k).1 e in absurd (ground arith), ground arith)

taken_problem-none :
    (n : ℕ) (name : Text) (o : Option Owner) → taken_problem n name o ≡ none → o ≡ none
taken_problem-none n name none h = refl
taken_problem-none n name (some owner) h = absurd (ground arith)

extra_problem-none :
    (n : ℕ) (claimed : List (Text × Owner)) (ch : Chart)
    → extra_problem n claimed ch ≡ none
    → IsNamed ch × (lookup ch.name claimed ≡ none)
extra_problem-none n claimed ch h =
    let free = taken_problem n ch.name (lookup ch.name claimed) in
    let (p, q) =
      then_check-none (must (not (is_empty ch.name || is_empty ch.path)) (bad_extra n)) free h in
    (IsNamed-checked ch (bad_extra n) p, taken_problem-none n ch.name (lookup ch.name claimed) q)

-- charts that have names, all different from each other and from the names held before
record AreFree (claimed : List (Text × Owner)) (chs : List Chart) : Type 0 where
  named : All IsNamed chs
  distinct : AreDistinct chs
  free : All (λ ch. lookup ch.name claimed ≡ none) chs

extras_problem-none :
    (n : ℕ) (claimed : List (Text × Owner)) (chs : List Chart)
    → extras_problem n claimed chs ≡ none
    → AreFree claimed chs
extras_problem-none n claimed [] h = record { named = tt; distinct = tt; free = tt }
extras_problem-none n claimed (ch ∷ chs) h =
    let more = (ch.name, extra n) ∷ claimed in
    let (p, q) = then_check-none (extra_problem n claimed ch) (extras_problem (suc n) more chs) h in
    let (a, b) = extra_problem-none n claimed ch p in
    let rest = extras_problem-none (suc n) more chs q in
    let split =
      All-map (λ other e. lookup-none other.name ch.name (extra n) claimed e) chs rest.free in
    record {
      named = (a, rest.named);
      distinct = (All-map (λ other e. e.0) chs split, rest.distinct);
      free = (b, All-map (λ other e. e.1) chs split);
    }

AreDistinct-last :
    (chs : List Chart) (ch : Chart)
    → AreDistinct chs
    → All (λ other. ch.name ≢ other.name) chs
    → AreDistinct (chs ++ (ch ∷ []))
AreDistinct-last [] ch h k = (tt, tt)
AreDistinct-last (x ∷ chs) ch (p, h) (q, k) = (
  All-append (λ other. x.name ≢ other.name) chs (ch ∷ []) p ((λ e. q (sym e)), tt),
  AreDistinct-last chs ch h k,
)

first_problem-none :
    (ps : List (Option ConfigError)) → first_problem ps ≡ none → All (λ p. p ≡ none) ps
first_problem-none [] h = tt
first_problem-none (p ∷ ps) h =
    let (a, b) = then_check-none p (first_problem ps) h in (a, first_problem-none ps b)

has_prefix-append : (p rest : Text) → has_prefix (p ++ rest) p ≡ true
unfolding gemaal.Base.cut_prefix
has_prefix-append [] rest = refl
has_prefix-append (c ∷ p) rest = ground (arith, has_prefix-append p rest)

lock_problem-none : (lock dist : Text) → lock_problem lock dist ≡ none → IsBelow dist lock → ⊥
unfolding lock_problem
lock_problem-none lock dist h (inl same) = let q = (text_eq_iff lock dist).1 same in ground arith
lock_problem-none lock dist h (inr (rest, same)) =
    let q : has_prefix lock (dist ++ codes "/") ≡ true =
      ap (λ p. has_prefix p (dist ++ codes "/")) (same ∙ sym (append_assoc dist (codes "/") rest))
      ∙ has_prefix-append (dist ++ codes "/") rest in
    ground arith

required : (t : Text) (e : ConfigError) → must (not (is_empty t)) e ≡ none → t ≢ []
required t e h = not_empty t (ground arith)

ring_problem-none : (which : Text) (ch : Chart) → ring_problem which ch ≡ none → IsNamed ch
unfolding ring_problem
ring_problem-none which ch h = IsNamed-checked ch (bad_ring which) h

same_rings-none : (a b e : Text) → must (not (text_eq a b)) (same_rings e) ≡ none → a ≢ b
same_rings-none a b e h q = let r = (text_eq_iff a b).1 q in absurd (ground arith)

validate-IsSound : (o : MapOrder) (c : Config) → validate o c ≡ none → IsSound c
unfolding validate all
validate-IsSound o c h =
    let (project, (region, (_, (rings, (same, (extras, (lock, _))))))) =
      first_problem-none (checks o c) h in
    let (r2, r3) =
      in_order-none o.ring3_first (ring_problem (codes "ring2") c.charts.ring2)
        (ring_problem (codes "ring3") c.charts.ring3) rings in
    let free = extras_problem-none 0 (rings_claimed c) c.charts.extra extras in
    let from2 =
      All-map
        (λ ch e.
          lookup-none ch.name c.charts.ring2.name ring2 ((c.charts.ring3.name, ring3) ∷ []) e)
        c.charts.extra free.free in
    let apart : c.charts.ring2.name ≢ c.charts.ring3.name =
      same_rings-none c.charts.ring2.name c.charts.ring3.name c.charts.ring2.name same in
    record {
      charts_named = (
        ring_problem-none (codes "ring2") c.charts.ring2 r2,
        All-append IsNamed c.charts.extra (c.charts.ring3 ∷ []) free.named
            (ring_problem-none (codes "ring3") c.charts.ring3 r3, tt),
      );
      charts_distinct = (
        All-append (λ other. c.charts.ring2.name ≢ other.name) c.charts.extra (c.charts.ring3 ∷ [])
            (All-map (λ ch e. e.0) c.charts.extra from2) (apart, tt),
        AreDistinct-last c.charts.extra c.charts.ring3 free.distinct (
            All-map (λ ch e. (lookup-none ch.name c.charts.ring3.name ring3 [] e.1).0)
              c.charts.extra from2),
      );
      has_project = required c.project no_project project;
      has_region = required c.aws_region no_region region;
      lock_not_below = lock_problem-none (clean c.lock.file) (clean c.dist_dir) lock;
    }

checked-ok : (c d : Config) (p : Option ConfigError) → checked c p ≡ ok d → (p ≡ none) × (c ≡ d)
checked-ok c d none h = (refl, cc h)
checked-ok c d (some e) h = absurd (cc h)

-- A document that `Parse` accepts has a project and a region, and charts that all have names and
-- paths, no two of them the same name; and its lock file's path, cleaned, is not that of the directory
-- that goreleaser cleans, cleaned, and does not begin with it and a slash.
pub parse-IsSound : (o : MapOrder) (document c : Config) → parse o document ≡ ok c → IsSound c
unfolding parse
parse-IsSound o document c h =
    let with_defaults = apply_defaults document in
    let (e, same) = checked-ok with_defaults c (validate o with_defaults) h in
    subst IsSound same (validate-IsSound o with_defaults e)
