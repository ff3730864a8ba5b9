-- ===== src/Config/Validate.antt =====
-- `validate` of pkg/config/config.go: the checks on a loaded document.
use gemaal.Base.{
  ℕ, ◌&&◌, ◌||◌, not, List, [], ◌∷◌, Bool, true, false, Option, none, some, Text, codes, ℤ, pos,
  ◌≡◌, refl, ◌≤ℤ◌, ◌<ℤ◌, All-map, inl, inr, arith, All, int_le, int_lt, text_eq, has_prefix,
  has_suffix, contains, cut, cut_prefix, trim, is_some, is_empty, leb, if◌then◌else◌, ◌==◌, spaces,
  is_blank, Option-cases,
}
use gemaal.Config.{Config, Hold}

pub data ConfigError : Type 0 where
  bad_label_domain no_tier_label bad_tier_label : ConfigError
  bad_tier_ttl secrets_root not_test_root not_test_bucket : Text → ConfigError
  no_slug_placeholder : ConfigError
  bad_email bad_slug : Text → ConfigError
  hold_not_positive hold_exceeds_max no_region : ConfigError

abbrev pub test_root : Text
test_root = codes "/test/"

abbrev slug_placeholder : Text
slug_placeholder = codes "{slug}"

abbrev begins_with_space : Text → List Text → Bool
begins_with_space s [] = false
begins_with_space s (w ∷ ws) = has_prefix s w || begins_with_space s ws

abbrev ends_with_space : Text → List Text → Bool
ends_with_space s [] = false
ends_with_space s (w ∷ ws) = has_suffix s w || ends_with_space s ws

-- `strings.TrimSpace(s) == s`
unfoldable pub is_trimmed : Text → Bool
is_trimmed s = not (begins_with_space s spaces) && not (ends_with_space s spaces)

abbrev is_alphanumeric : ℕ → Bool
is_alphanumeric c = (leb b'a' c && leb c b'z') || (leb b'0' c && leb c b'9')

-- the rest of a label: letters, digits and dashes, with no dash at the end
abbrev label_tail : ℕ → Text → Bool
label_tail last [] = is_alphanumeric last
label_tail last (c ∷ s) = (is_alphanumeric c || (c == b'-')) && label_tail c s

-- `^[a-z0-9]([-a-z0-9]*[a-z0-9])?$`, the slugShape here and the rfc1123Label of pkg/service
unfoldable pub is_label : Text → Bool
is_label [] = false
is_label (c ∷ s) = is_alphanumeric c && label_tail c s

abbrev at_word_end : Text → Bool
at_word_end [] = true
at_word_end (c ∷ s) = c == b'-'

-- "test" with a dash or the end behind it
abbrev test_here : Text → Bool
test_here s = elim (cut_prefix s (codes "test")) [ none ↦ false | some rest ↦ at_word_end rest ]

abbrev test_behind_dash : Text → Bool
test_behind_dash [] = false
test_behind_dash (c ∷ s) = ((c == b'-') && test_here s) || test_behind_dash s

-- `(^|-)test(-|$)` matches somewhere.
unfoldable pub is_test_bucket : Text → Bool
is_test_bucket s = test_here s || test_behind_dash s

-- the first problem that one of the checks has
abbrev first_problem : List (Option ConfigError) → Option ConfigError
first_problem [] = none
first_problem (p ∷ ps) = elim p [ some e ↦ some e | none ↦ first_problem ps ]

-- the first problem that one of the elements has
abbrev each : {A : Type 0} → (A → Option ConfigError) → List A → Option ConfigError
each check [] = none
each check (x ∷ xs) = elim (check x) [ some e ↦ some e | none ↦ each check xs ]

abbrev must : Bool → ConfigError → Option ConfigError
must b e = if b then none else some e

unfoldable pub tier_problem : Text × ℤ → Option ConfigError
tier_problem (name, ttl) = must (int_lt (pos 0) ttl) (bad_tier_ttl name)

unfoldable pub root_problem : Text → Option ConfigError
root_problem root =
    if contains root (codes "/secrets")
    then some (secrets_root root)
    else must (has_prefix root test_root) (not_test_root root)

unfoldable pub bucket_problem : Text → Option ConfigError
bucket_problem bucket = must (is_test_bucket bucket) (not_test_bucket bucket)

unfoldable pub email_problem : Text × Text → Option ConfigError
email_problem (email, slug) =
    if not (is_some (cut email b'@'))
      || (has_prefix email (codes "@") || has_suffix email (codes "@"))
    then some (bad_email email)
    else must (is_label slug) (bad_slug slug)

unfoldable pub hold_problem : Hold → Option ConfigError
hold_problem h =
    if int_le h.default (pos 0) || int_le h.max (pos 0)
    then some hold_not_positive
    else must (int_le h.default h.max) hold_exceeds_max

-- the checks in their order
abbrev checks : Config → List (Option ConfigError)
checks c =
    must (text_eq (trim c.label_domain b'.') c.label_domain && not (is_empty c.label_domain))
      bad_label_domain
    ∷ must (not (is_empty c.tier_label)) no_tier_label
    ∷ must (is_trimmed c.tier_label) bad_tier_label
    ∷ each tier_problem c.tiers
    ∷ each root_problem c.allow_list.ssm_roots
    ∷ each bucket_problem c.allow_list.s3_buckets
    ∷ must (contains c.identity.personal_namespace slug_placeholder) no_slug_placeholder
    ∷ each email_problem c.identity.emails
    ∷ hold_problem c.hold
    ∷ must (not (is_blank c.aws_region)) no_region
    ∷ []

unfoldable pub validate : Config → Option ConfigError
validate c = first_problem (checks c)

-- What the tripwires on the allow-list leave of a parameter root.
pub record IsTestRoot (root : Text) : Type 0 where
  pub test_shaped : has_prefix root test_root ≡ true
  pub no_secrets : contains root (codes "/secrets") ≡ false

first_problem-none :
    (ps : List (Option ConfigError)) → first_problem ps ≡ none → All (λ p. p ≡ none) ps
first_problem-none [] h = tt
first_problem-none (none ∷ ps) h = (refl, first_problem-none ps h)
first_problem-none (some e ∷ ps) h = absurd (ground arith)

each-none :
    {A : Type 0} (check : A → Option ConfigError) (xs : List A)
    → each check xs ≡ none
    → All (λ x. check x ≡ none) xs
each-none check [] h = tt
each-none check (x ∷ xs) h = elim (Option-cases (check x)) [
  | inl e ↦ (e, each-none check xs (rw (e, each) at h))
  | inr (r, e) ↦ absurd (ground arith)
]

root_problem-none : (root : Text) → root_problem root ≡ none → IsTestRoot root
unfolding root_problem
root_problem-none root h = record { test_shaped = ground arith; no_secrets = ground arith }

hold_problem-none : (h : Hold) → hold_problem h ≡ none → (pos 0 <ℤ h.default) × (h.default ≤ℤ h.max)
unfolding hold_problem
hold_problem-none h q = (ground arith, ground arith)

-- A configuration that `validate` accepts watches parameters only under test-shaped roots that do
-- not name the secrets tree, and its default hold is positive and at most its maximum.
pub validate_lem :
    (c : Config)
    → validate c ≡ none
    → All IsTestRoot c.allow_list.ssm_roots
      × (pos 0 <ℤ c.hold.default)
      × (c.hold.default ≤ℤ c.hold.max)
unfolding validate
validate_lem c h =
    let (_, (_, (_, (_, (roots, (_, (_, (_, (hold, _))))))))) = first_problem-none (checks c) h in
    (
      All-map root_problem-none c.allow_list.ssm_roots
          (each-none root_problem c.allow_list.ssm_roots roots),
      (hold_problem-none c.hold hold).0,
      (hold_problem-none c.hold hold).1,
    )
