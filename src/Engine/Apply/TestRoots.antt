-- ===== src/Engine/Apply/TestRoots.antt =====
-- The tripwire of pkg/config/config.go and the calls of `Apply` of pkg/engine/apply.go.
use mathlib.Core.List.{append_assoc}
use gemaal.Base.{
  List, [], ◌∷◌, ◌++◌, Bool, true, none, Text, codes, slash, ℤ, ◌≡◌, ◌∙◌, refl, ap, inl, inr, ◌⊎◌,
  All, All-map, Any, trim, trim_left, trim_right, trim_right-keep, trim_right-first, has_prefix,
  has_prefix_split, cut_prefix-append,
}
use gemaal.Config.Validate.{validate, validate_lem, test_root, IsTestRoot}
use gemaal.Engine.Types.{Engine, Plan, Source}
use gemaal.Engine.Rules.Paths.{IsSlashFree}
use gemaal.Engine.Artifacts.{normalized_root}
use gemaal.Engine.Apply.{
  Call, delete_parameters, uninstall, delete_prefix, label_secret, World, Trace, apply,
}
use gemaal.Engine.Apply.Reach.{InReach, apply-InReach}

-- What is left of "/test/…" without the slashes at its ends.
trimmed_root :
    (r : Text)
    → (trim (test_root ++ r) slash ≡ codes "test")
      ⊎ ((z : Text) × (trim (test_root ++ r) slash ≡ codes "test/" ++ z))
unfolding trim trim_left
trimmed_root r =
    let kept : trim (test_root ++ r) slash ≡ codes "test" ++ trim_right (slash ∷ r) slash =
      trim_right-keep b't' slash (codes "est/" ++ r) refl
      ∙ ap (λ s. b't' ∷ s) (trim_right-keep b'e' slash (codes "st/" ++ r) refl)
      ∙ ap (λ s. codes "te" ++ s) (trim_right-keep b's' slash (codes "t/" ++ r) refl)
      ∙ ap (λ s. codes "tes" ++ s) (trim_right-keep b't' slash (codes "/" ++ r) refl) in
    elim (trim_right-first slash slash r) [
      | inl e ↦ inl (kept ∙ ap (λ s. codes "test" ++ s) e)
      | inr (z, e) ↦ inr (z, kept ∙ ap (λ s. codes "test" ++ s) e)
    ]

-- A test-shaped root stays test-shaped.
normalized-IsTestRoot :
    (root s : Text)
    → has_prefix root test_root ≡ true
    → (r : Text) × (normalized_root root ++ s ≡ test_root ++ r)
unfolding normalized_root
normalized-IsTestRoot root s h =
    let (r, e) = has_prefix_split root test_root h in
    elim (trimmed_root r) [
      | inl q ↦ (s, rw (e, q) refl)
      | inr (z, q) ↦ (z ++ (codes "/" ++ s), rw (e, q) (simp append_assoc))
    ]

-- A call deletes no parameter but those under "/test/".
abbrev pub IsTestCall : Call → Type 0
IsTestCall (delete_parameters names) = All (λ name. has_prefix name test_root ≡ true) names
IsTestCall _ = Unit

under_root :
    (root name s : Text)
    → has_prefix root test_root ≡ true
    → has_prefix name (normalized_root root ++ s) ≡ true
    → has_prefix name test_root ≡ true
under_root root name s h k =
    let (r, e) = normalized-IsTestRoot root s h in
    let (q, whole) = has_prefix_split name (normalized_root root ++ s) k in
    let all : name ≡ test_root ++ (r ++ q) =
      whole ∙ ap (λ x. x ++ q) e ∙ append_assoc test_root r q in
    rw (all, cut_prefix-append test_root (r ++ q))

under_some :
    (names : List Text) (s : Text) (roots : List Text)
    → All IsTestRoot roots
    → Any (λ root. All (λ name. has_prefix name (normalized_root root ++ s) ≡ true) names) roots
    → All (λ name. has_prefix name test_root ≡ true) names
under_some names s [] h k = absurd k
under_some names s (root ∷ roots) (h, hs) (inl k) =
    All-map (λ name q. under_root root name s h.test_shaped q) names k
under_some names s (root ∷ roots) (h, hs) (inr k) = under_some names s roots hs k

IsTestCall-of_reach :
    (e : Engine) (p : Plan) (c : Call)
    → All IsTestRoot e.config.allow_list.ssm_roots
    → InReach e.config.allow_list p c
    → IsTestCall c
unfolding InReach
IsTestCall-of_reach e p (uninstall namespace release) h r = tt
IsTestCall-of_reach e p (delete_parameters names) h (t, r) =
    under_some names (t.namespace ++ (codes "/" ++ (t.release ++ codes "/")))
      e.config.allow_list.ssm_roots h r
IsTestCall-of_reach e p (delete_prefix bucket prefix) h r = tt
IsTestCall-of_reach e p (label_secret namespace secret labels) h r = tt

-- With a configuration that `validate` accepts and buckets without a slash in their names, `Apply`
-- of any plan, whoever made it and confirmed or not, deletes no parameter outside "/test/".
pub apply-IsTestCall :
    (e : Engine) (world : World) (now : ℤ) (p : Plan) (confirm : Bool) (source : Source) (t : Trace)
    → validate e.config ≡ none
    → All IsSlashFree e.config.allow_list.s3_buckets
    → (calls : List Call) × ((apply e world now p confirm source t).trace ≡ t ++ calls)
      × All IsTestCall calls
apply-IsTestCall e world now p confirm source t valid free =
    let (calls, q, reached) = apply-InReach e world now p source t confirm free in
    let roots = (validate_lem e.config valid).0 in
    (calls, q, All-map (λ c r. IsTestCall-of_reach e p c roots r) calls reached)
