-- ===== src/Identity/Outcomes.antt =====
-- What the chain of pkg/identity/chain.go ends with.
use gemaal.Base.{
  List, [], ◌∷◌, ◌++◌, map, none, some, Text, ◌≡◌, refl, sym, ap, subst, All, All-append,
}
use mathlib.Core.List.{append-nil, append_assoc}
use gemaal.Identity.{
  Evidence, email, no_evidence, broken, Driver, Attempt, broken_driver, no_identity, Outcome,
  attempted, consulted, resolve_from, resolve_chain,
}

-- A driver that has nothing to say, whatever its error's text.
pub data IsSilent (d : Driver) : Type 0 where
  silent : (e : Text) → d.evidence ≡ no_evidence e → IsSilent d

-- the attempts that a chain's drivers leave
abbrev pub trail : List Driver → List Attempt
trail ds = map attempted ds

-- What an outcome has to be: all drivers before some one are silent, and that one answers or
-- breaks; or all are silent.
pub data IsOutcome (c : List Driver) (r : Outcome) : Type 0 where
  answered :
      (before after : List Driver) (d : Driver) (t : Text)
      → c ≡ before ++ (d ∷ after)
      → All IsSilent before
      → d.evidence ≡ email t
      → r ≡ (
        record { address = t; driver = d.name; attempts = trail before ++ (attempted d ∷ []) },
        none,
      )
      → IsOutcome c r
  stopped :
      (before after : List Driver) (d : Driver) (e : Text)
      → c ≡ before ++ (d ∷ after)
      → All IsSilent before
      → d.evidence ≡ broken e
      → r ≡ (
        record { address = []; driver = []; attempts = trail before ++ (attempted d ∷ []) },
        some (broken_driver d.name e),
      )
      → IsOutcome c r
  exhausted :
      All IsSilent c
      → r ≡ (record { address = []; driver = []; attempts = trail c }, some (no_identity (trail c)))
      → IsOutcome c r

trail-append : (xs ys : List Driver) → trail (xs ++ ys) ≡ trail xs ++ trail ys
trail-append [] ys = refl
trail-append (x ∷ xs) ys = ap (λ zs. attempted x ∷ zs) (trail-append xs ys)

module _ (before : List Driver) (quiet : All IsSilent before) where
  consulted-IsOutcome :
      (d : Driver) (ds : List Driver) (v : Evidence) (rest : Outcome)
      → d.evidence ≡ v
      → ((e : Text) → v ≡ no_evidence e → IsOutcome (before ++ (d ∷ ds)) rest)
      → IsOutcome
          (before ++ (d ∷ ds))
          (consulted (trail before ++ (attempted d ∷ [])) d.name v rest)
  consulted-IsOutcome d ds (email t) rest h next = answered before ds d t refl quiet h refl
  consulted-IsOutcome d ds (no_evidence e) rest h next = next e refl
  consulted-IsOutcome d ds (broken e) rest h next = stopped before ds d e refl quiet h refl

resolve_from-IsOutcome :
    (before ds : List Driver)
    → All IsSilent before
    → IsOutcome (before ++ ds) (resolve_from (trail before) ds)
resolve_from-IsOutcome before [] quiet =
    subst (λ c. IsOutcome c (resolve_from (trail before) [])) (sym (append-nil before))
      (exhausted quiet refl)
resolve_from-IsOutcome before (d ∷ ds) quiet =
    consulted-IsOutcome before quiet d ds d.evidence
      (resolve_from (trail before ++ (attempted d ∷ [])) ds) refl
      (λ e h.
        subst (λ s. IsOutcome (before ++ (d ∷ ds)) (resolve_from s ds))
          (trail-append before (d ∷ []))
          (subst (λ c. IsOutcome c (resolve_from (trail (before ++ (d ∷ []))) ds))
            (append_assoc before (d ∷ []) ds)
            (resolve_from-IsOutcome (before ++ (d ∷ [])) ds
              (All-append IsSilent before (d ∷ []) quiet (silent e h, tt)))))

-- A chain that has drivers ends with the address of the first of them that has any evidence, or
-- with its error where it breaks, and with the error that there is no identity where all are silent;
-- in each case its attempts are those of the drivers up to that one, in their order.
pub resolve_chain-IsOutcome :
    (d : Driver) (ds : List Driver) → IsOutcome (d ∷ ds) (resolve_chain (d ∷ ds))
unfolding resolve_chain
resolve_chain-IsOutcome d ds = resolve_from-IsOutcome [] (d ∷ ds) tt
