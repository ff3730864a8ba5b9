-- ===== src/Base/Lists.antt =====
-- Lists measured by native numbers, and predicates on all or some of their elements.
use Prim.Native.Nat.{ℕ, zero, suc, ◌+◌, min}
use mathlib.Core.Path.{◌≡◌, refl}
use mathlib.Core.Logic.{◌⊎◌, inl, inr}
use mathlib.Core.Bool.{Bool, true, false}
use mathlib.Core.Option.{Option, none, some}
use mathlib.Core.List.{List, [], ◌∷◌, ◌++◌}
use native.Mathlib.Omega.{arith}
use gemaal.Base.Tests.{if◌then◌else◌}

module _ {ℓ} {A : Type ℓ} where
  abbrev pub length : List A → ℕ
  length [] = 0
  length (x ∷ xs) = suc (length xs)

  abbrev pub take : ℕ → List A → List A
  take zero xs = []
  take (suc n) [] = []
  take (suc n) (x ∷ xs) = x ∷ take n xs

  abbrev pub filter_by : (A → Bool) → List A → List A
  filter_by p [] = []
  filter_by p (x ∷ xs) = let rest = filter_by p xs in if p x then x ∷ rest else rest

  -- the first element that passes the test
  abbrev pub find_by : (A → Bool) → List A → Option A
  find_by p [] = none
  find_by p (x ∷ xs) = let rest = find_by p xs in if p x then some x else rest

  abbrev pub any : (A → Bool) → List A → Bool
  any p [] = false
  any p (x ∷ xs) = let rest = any p xs in if p x then true else rest

  abbrev pub is_empty : List A → Bool
  is_empty [] = true
  is_empty (x ∷ xs) = false

  pub length-append : (xs ys : List A) → length (xs ++ ys) ≡ length xs + length ys
  length-append [] ys = omega arith
  length-append (x ∷ xs) ys = omega (arith, length-append xs ys)

  pub length-take : (n : ℕ) (xs : List A) → length (take n xs) ≡ min n (length xs)
  length-take zero xs = omega arith
  length-take (suc n) [] = omega arith
  length-take (suc n) (x ∷ xs) = omega (arith, length-take n xs)

module _ {ℓ κ} {A : Type ℓ} (P : A → Type κ) where
  -- every element has the property
  abbrev pub All : List A → Type κ
  All [] = Unit
  All (x ∷ xs) = P x × All xs

  pub All-append : (xs ys : List A) → All xs → All ys → All (xs ++ ys)
  All-append [] ys _ hy = hy
  All-append (x ∷ xs) ys (px, hx) hy = (px, All-append xs ys hx hy)

module _ {ℓ} {A : Type ℓ} (P : A → Type 0) where
  -- some element has the property, and which one is kept
  abbrev pub Any : List A → Type 0
  Any [] = ⊥
  Any (x ∷ xs) = P x ⊎ Any xs

  pub Any-append_left : (xs ys : List A) → Any xs → Any (xs ++ ys)
  Any-append_left [] ys h = absurd h
  Any-append_left (x ∷ xs) ys (inl p) = inl p
  Any-append_left (x ∷ xs) ys (inr h) = inr (Any-append_left xs ys h)

  pub Any-append_right : (xs ys : List A) → Any ys → Any (xs ++ ys)
  Any-append_right [] ys h = h
  Any-append_right (x ∷ xs) ys h = inr (Any-append_right xs ys h)

module _ {ℓ κ μ} {A : Type ℓ} {P : A → Type κ} {Q : A → Type μ} (f : (a : A) → P a → Q a) where
  pub All-map : (xs : List A) → All P xs → All Q xs
  All-map [] h = tt
  All-map (x ∷ xs) (p, h) = (f x p, All-map xs h)

module _ {ℓ} {A : Type ℓ} {P Q : A → Type 0} (f : (a : A) → P a → Q a) where
  pub Any-map : (xs : List A) → Any P xs → Any Q xs
  Any-map [] h = absurd h
  Any-map (x ∷ xs) (inl p) = inl (f x p)
  Any-map (x ∷ xs) (inr h) = inr (Any-map xs h)

module _ {ℓ} {A : Type ℓ} where
  -- what holds everywhere holds of all
  pub All-everywhere {κ} : {P : A → Type κ} (f : (a : A) → P a) (xs : List A) → All P xs
  All-everywhere f [] = tt
  All-everywhere f (x ∷ xs) = (f x, All-everywhere f xs)

module _ {A : Type 0} where
  -- every element is a member
  pub All-members : (xs : List A) → All (λ x. Any (λ y. x ≡ y) xs) xs
  All-members [] = tt
  All-members (x ∷ xs) = (inl refl, All-map (λ a h. inr h) xs (All-members xs))

module _ {A : Type 0} {P Q : A → Type 0} where
  -- an element that has both properties
  pub Any-pick : (xs : List A) → Any P xs → All Q xs → (x : A) × P x × Q x
  Any-pick [] h k = absurd h
  Any-pick (x ∷ xs) (inl p) (q, k) = (x, p, q)
  Any-pick (x ∷ xs) (inr h) (q, k) = Any-pick xs h k

module _ {ℓ κ μ} {A : Type ℓ} (P : A → Type κ) (Q : A → Type μ) where
  pub All-zip : (xs : List A) → All P xs → All Q xs → All (λ x. P x × Q x) xs
  All-zip [] h k = tt
  All-zip (x ∷ xs) (p, h) (q, k) = ((p, q), All-zip xs h k)
