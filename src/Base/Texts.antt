-- ===== src/Base/Texts.antt =====
-- Go strings as lists of bytes, and what the program uses of package strings.
use Prim.Native.Nat.{ℕ, zero, suc}
use Prim.Native.Char.{code}
use Prim.Native.String.{String}
use mathlib.Core.Path.{◌≡◌, refl}
use mathlib.Core.Logic.{◌↔◌, ◌⊎◌, inl, inr}
use mathlib.Core.Bool.{Bool, true, false, ◌&&◌, ◌||◌}
use mathlib.Core.Option.{Option, none, some}
use mathlib.Core.List.{List, [], ◌∷◌, ◌++◌}
use native.Mathlib.Omega.{arith}
use gemaal.Base.Tests.{ltb, ◌==◌, if◌then◌else◌, is_some, Bool-cases, Option-cases}

abbrev pub Text : Type 0
Text = List ℕ

-- the bytes of an ASCII literal
abbrev pub codes : String → Text
codes String.[] = []
codes (String.◌∷◌ c s) = code c ∷ codes s

abbrev pub slash : ℕ
slash = b'/'

-- `s == t`
unfoldable pub text_eq : Text → Text → Bool
text_eq [] [] = true
text_eq [] (d ∷ t) = false
text_eq (c ∷ s) [] = false
text_eq (c ∷ s) (d ∷ t) = (c == d) && text_eq s t

-- `s < t`: byte by byte
unfoldable pub text_lt : Text → Text → Bool
text_lt s [] = false
text_lt [] (d ∷ t) = true
text_lt (c ∷ s) (d ∷ t) = if ltb c d then true else ((c == d) && text_lt s t)

-- strings.CutPrefix
unfoldable pub cut_prefix : Text → Text → Option Text
cut_prefix s [] = some s
cut_prefix [] (d ∷ p) = none
cut_prefix (c ∷ s) (d ∷ p) = let rest = cut_prefix s p in if c == d then rest else none

-- strings.HasPrefix
abbrev pub has_prefix : Text → Text → Bool
has_prefix s p = is_some (cut_prefix s p)

abbrev or_text : Option Text → Text → Text
or_text none t = t
or_text (some s) t = s

-- strings.TrimPrefix
abbrev pub trim_prefix : Text → Text → Text
trim_prefix s p = or_text (cut_prefix s p) s

-- strings.HasSuffix
unfoldable pub has_suffix : Text → Text → Bool
unfolding text_eq
has_suffix [] suffix = text_eq [] suffix
has_suffix (c ∷ s) suffix = text_eq (c ∷ s) suffix || has_suffix s suffix

-- strings.TrimSuffix
unfoldable pub trim_suffix : Text → Text → Text
unfolding text_eq
trim_suffix [] suffix = []
trim_suffix (c ∷ s) suffix =
    let rest = trim_suffix s suffix in if text_eq (c ∷ s) suffix then [] else c ∷ rest

-- a byte put in front of what a cut left before the separator
abbrev pub cut_cons : ℕ → Option (Text × Text) → Option (Text × Text)
cut_cons c none = none
cut_cons c (some (a, b)) = some (c ∷ a, b)

-- strings.Cut at one byte: the text before its first occurrence, and the text behind it
unfoldable pub cut : Text → ℕ → Option (Text × Text)
cut [] sep = none
cut (c ∷ s) sep = let rest = cut s sep in if c == sep then some ([], s) else cut_cons c rest

-- strings.SplitN at one byte, for a positive count
unfoldable pub split_n : Text → ℕ → ℕ → List Text
unfolding cut
split_n s sep zero = []
split_n s sep (suc zero) = s ∷ []
split_n s sep (suc (suc n)) = elim (cut s sep) [
  | none ↦ s ∷ []
  | some (a, b) ↦ a ∷ split_n b sep (suc n)
]

-- a byte put in front of the first part
abbrev pub onto_first : ℕ → List Text → List Text
onto_first c [] = (c ∷ []) ∷ []
onto_first c (s ∷ ss) = (c ∷ s) ∷ ss

-- strings.Split at one byte
unfoldable pub split : Text → ℕ → List Text
split [] sep = [] ∷ []
split (c ∷ s) sep = let rest = split s sep in if c == sep then [] ∷ rest else onto_first c rest

-- strings.TrimLeft and strings.TrimRight of one byte, and strings.Trim
unfoldable pub trim_left : Text → ℕ → Text
trim_left [] sep = []
trim_left (c ∷ s) sep = let rest = trim_left s sep in if c == sep then rest else c ∷ s

-- a byte put in front of what is left, unless it is the separator and nothing is left
abbrev trim_cons : ℕ → ℕ → Text → Text
trim_cons sep c [] = if c == sep then [] else c ∷ []
trim_cons sep c (d ∷ t) = c ∷ d ∷ t

unfoldable pub trim_right : Text → ℕ → Text
trim_right [] sep = []
trim_right (c ∷ s) sep = trim_cons sep c (trim_right s sep)

unfoldable pub trim : Text → ℕ → Text
unfolding trim_left trim_right
trim s sep = trim_right (trim_left s sep) sep

-- strings.Contains
unfoldable pub contains : Text → Text → Bool
unfolding cut_prefix
contains [] sub = has_prefix [] sub
contains (c ∷ s) sub = has_prefix (c ∷ s) sub || contains s sub

pub text_eq_iff : (s t : Text) → (text_eq s t ≡ true) ↔ (s ≡ t)
unfolding text_eq
text_eq_iff [] [] = ground arith
text_eq_iff [] (d ∷ t) = ground arith
text_eq_iff (c ∷ s) [] = ground arith
text_eq_iff (c ∷ s) (d ∷ t) = ground (arith, text_eq_iff s t)

pub text_eq_refl : (s : Text) → text_eq s s ≡ true
text_eq_refl s = (text_eq_iff s s).1 refl

pub text_lt_irrefl : (s : Text) → text_lt s s ≡ false
unfolding text_lt
text_lt_irrefl [] = refl
text_lt_irrefl (c ∷ s) = ground (arith, text_lt_irrefl s)

pub text_lt_trans : (s t u : Text) → text_lt s t ≡ true → text_lt t u ≡ true → text_lt s u ≡ true
unfolding text_lt
text_lt_trans s t [] h k = ground arith
text_lt_trans s [] (e ∷ u) h k = ground arith
text_lt_trans [] (d ∷ t) (e ∷ u) h k = refl
text_lt_trans (c ∷ s) (d ∷ t) (e ∷ u) h k = ground (arith, text_lt_trans s t u)

pub text_lt_total : (s t : Text) → text_lt s t ≡ false → text_lt t s ≡ false → s ≡ t
unfolding text_lt
text_lt_total [] [] h k = refl
text_lt_total [] (d ∷ t) h k = ground arith
text_lt_total (c ∷ s) [] h k = ground arith
text_lt_total (c ∷ s) (d ∷ t) h k = ground (arith, text_lt_total s t)

pub cut_prefix-append : (p s : Text) → cut_prefix (p ++ s) p ≡ some s
unfolding cut_prefix
cut_prefix-append [] s = refl
cut_prefix-append (c ∷ p) s = ground (arith, cut_prefix-append p s)

pub cut_prefix_sound : (s p r : Text) → cut_prefix s p ≡ some r → s ≡ p ++ r
unfolding cut_prefix
cut_prefix_sound s [] r h = ground arith
cut_prefix_sound [] (d ∷ p) r h = ground arith
cut_prefix_sound (c ∷ s) (d ∷ p) r h = ground (arith, cut_prefix_sound s p r)

trim_cons-keep : (sep c : ℕ) (t : Text) → (c == sep) ≡ false → trim_cons sep c t ≡ c ∷ t
trim_cons-keep sep c [] h = ground arith
trim_cons-keep sep c (d ∷ t) h = refl

-- a byte that is not the separator stays in front
pub trim_right-keep :
    (c sep : ℕ) (s : Text) → (c == sep) ≡ false → trim_right (c ∷ s) sep ≡ c ∷ trim_right s sep
unfolding trim_right
trim_right-keep c sep s h = trim_cons-keep sep c (trim_right s sep) h

trim_cons-first :
    (sep c : ℕ) (t : Text) → (trim_cons sep c t ≡ []) ⊎ ((z : Text) × (trim_cons sep c t ≡ c ∷ z))
trim_cons-first sep c [] = elim (Bool-cases (c == sep)) [
  | inl e ↦ inl (ground arith)
  | inr e ↦ inr ([], ground arith)
]
trim_cons-first sep c (d ∷ t) = inr (d ∷ t, refl)

-- the first byte goes with all others, or stays
pub trim_right-first :
    (c sep : ℕ) (s : Text)
    → (trim_right (c ∷ s) sep ≡ []) ⊎ ((z : Text) × (trim_right (c ∷ s) sep ≡ c ∷ z))
unfolding trim_right
trim_right-first c sep s = trim_cons-first sep c (trim_right s sep)

pub has_prefix_split : (s p : Text) → has_prefix s p ≡ true → (r : Text) × (s ≡ p ++ r)
has_prefix_split s p h = elim (Option-cases (cut_prefix s p)) [
  | inl e ↦ absurd (ground arith)
  | inr (r, e) ↦ (r, cut_prefix_sound s p r e)
]
