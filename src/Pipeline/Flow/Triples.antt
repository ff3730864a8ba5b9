-- ===== src/Pipeline/Flow/Triples.antt =====
-- Conditions before and after the steps of a flow of pkg/pipeline.
use gemaal.Base.{Bool, true, false}
use gemaal.Engine.Types.{Result, ok, err}
use gemaal.Pipeline.Flow.{Run, Step, FlowError, after, ◌>>=◌, require}

module _ {S : Type 0} where
  -- One condition where a step returns a value, another where it fails.
  abbrev pub Ends :
      {A : Type 0} → (A → Run S → Type 0) → (Run S → Type 0) → Run S × Result FlowError A → Type 0
  Ends Q R (w, ok a) = Q a w
  Ends Q R (w, err e) = R w

  -- From runs with the first condition, a step ends with the others.
  abbrev pub Triple :
      {A : Type 0} → (Run S → Type 0) → Step S A → (A → Run S → Type 0) → (Run S → Type 0) → Type 0
  Triple P m Q R = (w : Run S) → P w → Ends Q R (m w)

  -- A step keeps a condition, whatever it ends with.
  pub record Keeps {A : Type 0} (I : Run S → Type 0) (m : Step S A) : Type 0 where
    pub run : Triple I m (λ _. I) I

  after-Ends :
      {A B : Type 0} (Q : A → Run S → Type 0) (T : B → Run S → Type 0) (R : Run S → Type 0)
      (k : A → Step S B) (x : Run S × Result FlowError A)
      → Ends Q R x
      → ((a : A) → Triple (Q a) (k a) T R)
      → Ends T R (after x k)
  after-Ends Q T R k (w, ok a) h next = next a w h
  after-Ends Q T R k (w, err e) h next = h

  pub >>=-Triple :
      {A B : Type 0} (P : Run S → Type 0) (Q : A → Run S → Type 0) (T : B → Run S → Type 0)
      (R : Run S → Type 0) (m : Step S A) (k : A → Step S B)
      → Triple P m Q R
      → ((a : A) → Triple (Q a) (k a) T R)
      → Triple P (m >>= k) T R
  >>=-Triple P Q T R m k first next w p = after-Ends Q T R k (m w) (first w p) next

  -- a condition kept by a step and by all that may follow it
  infixr 2 ◌⟫◌
  pub ◌⟫◌ :
      {A B : Type 0} {I : Run S → Type 0} {m : Step S A} {k : A → Step S B}
      → Keeps I m
      → ((a : A) → Keeps I (k a))
      → Keeps I (m >>= k)
  ◌⟫◌ {I = I} {m = m} {k = k} first next = record {
    run = >>=-Triple I (λ _. I) (λ _. I) I m k first.run (λ a. (next a).run);
  }

  -- A triple by itself, for chains of steps that share the condition of failure.
  pub record Leads {A : Type 0} (P : Run S → Type 0) (m : Step S A) (Q : A → Run S → Type 0)
      (R : Run S → Type 0) : Type 0 where
    pub leads : Triple P m Q R

  infixr 2 ◌▷◌
  pub ◌▷◌ :
      {A B : Type 0} {P : Run S → Type 0} {m : Step S A} {Q : A → Run S → Type 0} {k : A → Step S B}
      {T : B → Run S → Type 0} {R : Run S → Type 0}
      → Leads P m Q R
      → ((a : A) → Leads (Q a) (k a) T R)
      → Leads P (m >>= k) T R
  ◌▷◌ {P = P} {m = m} {Q = Q} {k = k} {T = T} {R = R} first next = record {
    leads = >>=-Triple P Q T R m k first.leads (λ a. (next a).leads);
  }

  -- a condition that holds at once
  pub kept_by_none :
      {A : Type 0} {I : Run S → Type 0} (r : Result FlowError A) → Keeps I (λ w. (w, r))
  kept_by_none (ok a) = record { run = λ w p. p }
  kept_by_none (err e) = record { run = λ w p. p }

  module _ (I : Run S → Type 0) where
    pub require-Keeps : (b : Bool) (e : FlowError) → Keeps I (require b e)
    require-Keeps true e = record { run = λ w p. p }
    require-Keeps false e = record { run = λ w p. p }

  -- a step keeps what both its ends give
  pub Ends-map :
      {A : Type 0} (Q T : A → Run S → Type 0) (R U : Run S → Type 0)
      → ((a : A) (w : Run S) → Q a w → T a w)
      → ((w : Run S) → R w → U w)
      → (x : Run S × Result FlowError A) → Ends Q R x
      → Ends T U x
  Ends-map Q T R U f g (w, ok a) h = f a w h
  Ends-map Q T R U f g (w, err e) h = g w h
