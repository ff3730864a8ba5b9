-- ===== src/Base/Spaces.antt =====
-- White space as package unicode has it, and what the program uses of package strings for it.
use Prim.Native.Nat.{ℕ, zero, suc}
use mathlib.Core.Bool.{Bool, true, false}
use mathlib.Core.Option.{Option, none, some}
use mathlib.Core.List.{List, [], ◌∷◌, ◌++◌}
use gemaal.Base.Tests.{if◌then◌else◌}
use gemaal.Base.Lists.{length}
use gemaal.Base.Texts.{Text, cut_prefix}

-- The bytes of each character that unicode.IsSpace accepts.
abbrev pub spaces : List Text
spaces =
    (9 ∷ [])
    ∷ (10 ∷ [])
    ∷ (11 ∷ [])
    ∷ (12 ∷ [])
    ∷ (13 ∷ [])
    ∷ (32 ∷ [])
    ∷ (194 ∷ 133 ∷ [])
    ∷ (194 ∷ 160 ∷ [])
    ∷ (225 ∷ 154 ∷ 128 ∷ [])
    ∷ (226 ∷ 128 ∷ 128 ∷ [])
    ∷ (226 ∷ 128 ∷ 129 ∷ [])
    ∷ (226 ∷ 128 ∷ 130 ∷ [])
    ∷ (226 ∷ 128 ∷ 131 ∷ [])
    ∷ (226 ∷ 128 ∷ 132 ∷ [])
    ∷ (226 ∷ 128 ∷ 133 ∷ [])
    ∷ (226 ∷ 128 ∷ 134 ∷ [])
    ∷ (226 ∷ 128 ∷ 135 ∷ [])
    ∷ (226 ∷ 128 ∷ 136 ∷ [])
    ∷ (226 ∷ 128 ∷ 137 ∷ [])
    ∷ (226 ∷ 128 ∷ 138 ∷ [])
    ∷ (226 ∷ 128 ∷ 168 ∷ [])
    ∷ (226 ∷ 128 ∷ 169 ∷ [])
    ∷ (226 ∷ 128 ∷ 175 ∷ [])
    ∷ (226 ∷ 129 ∷ 159 ∷ [])
    ∷ (227 ∷ 128 ∷ 128 ∷ [])
    ∷ []

-- the text behind its first character, where that is a space
abbrev pub behind_space : Text → List Text → Option Text
behind_space s [] = none
behind_space s (w ∷ ws) = elim (cut_prefix s w) [ some rest ↦ some rest | none ↦ behind_space s ws ]

abbrev pub blank_within : ℕ → Text → Bool
blank_within n [] = true
blank_within zero (c ∷ s) = false
blank_within (suc n) (c ∷ s) = elim (behind_space (c ∷ s) spaces) [
  | none ↦ false
  | some rest ↦ blank_within n rest
]

-- `strings.TrimSpace(s) == ""`; each round takes at least one byte
unfoldable pub is_blank : Text → Bool
is_blank s = blank_within (length s) s

abbrev pub trim_left_within : ℕ → Text → Text
trim_left_within n [] = []
trim_left_within zero (c ∷ s) = c ∷ s
trim_left_within (suc n) (c ∷ s) = elim (behind_space (c ∷ s) spaces) [
  | none ↦ c ∷ s
  | some rest ↦ trim_left_within n rest
]

-- the text without the blank that ends it
abbrev pub trim_blank_end : Text → Text
unfolding is_blank
trim_blank_end [] = []
trim_blank_end (c ∷ s) = let rest = trim_blank_end s in if is_blank (c ∷ s) then [] else c ∷ rest

-- strings.TrimSpace
unfoldable pub trim_space : Text → Text
unfolding trim_blank_end
trim_space s = trim_blank_end (trim_left_within (length s) s)

abbrev pub add_word : Text → List Text → List Text
add_word [] ws = ws
add_word (c ∷ w) ws = (c ∷ w) ∷ ws

-- the words behind the beginning of one; each round takes at least one byte
abbrev pub words_within : ℕ → Text → Text → List Text
words_within n w [] = add_word w []
words_within zero w (c ∷ s) = add_word w []
words_within (suc n) w (c ∷ s) = elim (behind_space (c ∷ s) spaces) [
  | some rest ↦ add_word w (words_within n [] rest)
  | none ↦ words_within n (w ++ (c ∷ [])) s
]

-- strings.Fields
unfoldable pub fields : Text → List Text
fields s = words_within (length s) [] s
