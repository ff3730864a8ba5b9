-- ===== src/Base/Sort.antt =====
-- A stable sort by insertion over a Boolean `less`, for the program's sorts of package sort.
use Prim.Native.Nat.{suc}
use mathlib.Core.Path.{◌≡◌, refl}
use mathlib.Core.Bool.{Bool, true, false}
use mathlib.Core.Logic.{◌↔◌, inl, inr}
use mathlib.Core.List.{List, [], ◌∷◌, Perm}
use mathlib.Core.List.Perm
use native.Mathlib.Omega.{arith}
use gemaal.Base.Tests.{if◌then◌else◌, Bool-cases}
use gemaal.Base.Lists.{length, All, All-map, Any}

pub record IsWeakOrder {ℓ} {A : Type ℓ} (less : A → A → Bool) : Type ℓ where
  pub irrefl : (a : A) → less a a ≡ false
  pub asymm : (a b : A) → less a b ≡ true → less b a ≡ false
  pub incomparable : (a b c : A) → less b a ≡ false → less c b ≡ false → less c a ≡ false

-- Go's chain `if a.k != b.k { return a.k < b.k }; return rest(a, b)`, for one key `k`.
abbrev pub by {ℓ κ} :
    {A : Type ℓ} {K : Type κ}
    → (K → K → Bool)
    → (K → K → Bool)
    → (A → K)
    → (A → A → Bool)
    → A
    → A
    → Bool
by same less key rest a b = if same (key a) (key b) then rest a b else less (key a) (key b)

-- `return false` at the end of such a chain
abbrev pub never {ℓ} : {A : Type ℓ} → A → A → Bool
never a b = false

pub never-IsWeakOrder {ℓ} : {A : Type ℓ} → IsWeakOrder (never {A = A})
never-IsWeakOrder = record {
  irrefl = λ a. refl;
  asymm = λ a b h. refl;
  incomparable = λ a b c h k. refl;
}

-- A key type with a Boolean equality and a strict total order.
pub record IsKey {κ} {K : Type κ} (same less : K → K → Bool) : Type κ where
  pub same_iff : (a b : K) → (same a b ≡ true) ↔ (a ≡ b)
  pub key_irrefl : (a : K) → less a a ≡ false
  pub key_trans : (a b c : K) → less a b ≡ true → less b c ≡ true → less a c ≡ true
  pub key_total : (a b : K) → less a b ≡ false → less b a ≡ false → a ≡ b

module _ {ℓ} {A : Type ℓ} (less : A → A → Bool) where
  insert : A → List A → List A
  insert x [] = x ∷ []
  insert x (y ∷ ys) = let rest = insert x ys in if less y x then y ∷ rest else x ∷ y ∷ ys

  unfoldable pub sort_stable : List A → List A
  unfolding insert
  sort_stable [] = []
  sort_stable (x ∷ xs) = insert x (sort_stable xs)

  insert-perm : (x : A) (l : List A) → Perm (insert x l) (x ∷ l)
  unfolding insert
  insert-perm x [] = Perm.rfl
  insert-perm x (y ∷ ys) = elim (Bool-cases (less y x)) [
    | inl e ↦ rw e (Perm.trans (Perm.cons y (insert-perm x ys)) (Perm.swap x y ys))
    | inr e ↦ rw e Perm.rfl
  ]

  pub sort_stable-perm : (l : List A) → Perm (sort_stable l) l
  unfolding sort_stable
  sort_stable-perm [] = Perm.rfl
  sort_stable-perm (x ∷ xs) =
      Perm.trans (insert-perm x (sort_stable xs)) (Perm.cons x (sort_stable-perm xs))

  insert-length : (x : A) (l : List A) → length (insert x l) ≡ suc (length l)
  unfolding insert
  insert-length x [] = refl
  insert-length x (y ∷ ys) = ground (arith, insert-length x ys)

  pub length-sort_stable : (l : List A) → length (sort_stable l) ≡ length l
  unfolding sort_stable
  length-sort_stable [] = refl
  length-sort_stable (x ∷ xs) =
      omega (arith, insert-length x (sort_stable xs), length-sort_stable xs)

  module _ {κ} (P : A → Type κ) where
    All-insert : (x : A) (l : List A) → P x → All P l → All P (insert x l)
    unfolding insert
    All-insert x [] p h = (p, tt)
    All-insert x (y ∷ ys) p h = elim (Bool-cases (less y x)) [
      | inl e ↦ rw e (h.0, All-insert x ys p h.1)
      | inr e ↦ rw e (p, h)
    ]

    pub All-sort_stable : (l : List A) → All P l → All P (sort_stable l)
    unfolding sort_stable
    All-sort_stable [] h = tt
    All-sort_stable (x ∷ xs) h = All-insert x (sort_stable xs) h.0 (All-sort_stable xs h.1)

  module _ (P : A → Type 0) where
    Any-insert : (x : A) (l : List A) → Any P (x ∷ l) → Any P (insert x l)
    unfolding insert
    Any-insert x [] h = h
    Any-insert x (y ∷ ys) (inl p) = elim (Bool-cases (less y x)) [
      | inl e ↦ rw e (inr (Any-insert x ys (inl p)))
      | inr e ↦ rw e (inl p)
    ]
    Any-insert x (y ∷ ys) (inr (inl q)) = elim (Bool-cases (less y x)) [
      | inl e ↦ rw e (inl q)
      | inr e ↦ rw e (inr (inl q))
    ]
    Any-insert x (y ∷ ys) (inr (inr h)) = elim (Bool-cases (less y x)) [
      | inl e ↦ rw e (inr (Any-insert x ys (inr h)))
      | inr e ↦ rw e (inr (inr h))
    ]

    pub Any-sort_stable : (l : List A) → Any P l → Any P (sort_stable l)
    unfolding sort_stable
    Any-sort_stable [] h = h
    Any-sort_stable (x ∷ xs) (inl p) = Any-insert x (sort_stable xs) (inl p)
    Any-sort_stable (x ∷ xs) (inr h) = Any-insert x (sort_stable xs) (inr (Any-sort_stable xs h))

-- No element stands behind one that it is less than.
module _ {ℓ} {A : Type ℓ} (less : A → A → Bool) where
  abbrev pub IsSorted : List A → Type ℓ
  IsSorted [] = Unit
  IsSorted (x ∷ xs) = All (λ y. less y x ≡ false) xs × IsSorted xs

module _ {ℓ} {A : Type ℓ} {less : A → A → Bool} (o : IsWeakOrder less) where
  insert-IsSorted : (x : A) (l : List A) → IsSorted less l → IsSorted less (insert less x l)
  unfolding insert
  insert-IsSorted x [] s = (tt, tt)
  insert-IsSorted x (y ∷ ys) (below, s) = elim (Bool-cases (less y x)) [
    | inl e ↦
        rw e (
          All-insert less (λ z. less z y ≡ false) x ys (o.asymm y x e) below,
          insert-IsSorted x ys s,
        )
    | inr e ↦ rw e ((e, All-map (λ z h. o.incomparable x y z e h) ys below), (below, s))
  ]

  -- The result of a stable sort ascends.
  pub sort_stable-IsSorted : (l : List A) → IsSorted less (sort_stable less l)
  unfolding sort_stable
  sort_stable-IsSorted [] = tt
  sort_stable-IsSorted (x ∷ xs) = insert-IsSorted x (sort_stable less xs) (sort_stable-IsSorted xs)

module _ {ℓ κ} {A : Type ℓ} {K : Type κ} {same less : K → K → Bool} (k : IsKey same less)
    (key : A → K) {rest : A → A → Bool} (o : IsWeakOrder rest) where
  pub by-IsWeakOrder : IsWeakOrder (by same less key rest)
  by-IsWeakOrder = record {
    irrefl = λ a. ground (arith, k.key_irrefl (key a), o.irrefl a);
    asymm = λ a b. ground (
      arith,
      k.same_iff (key a) (key b),
      k.same_iff (key b) (key a),
      k.key_trans (key a) (key b) (key a),
      k.key_irrefl (key a),
      o.asymm a b,
    );
    incomparable = λ a b c. ground (
      arith,
      k.same_iff (key b) (key a),
      k.same_iff (key c) (key b),
      k.same_iff (key c) (key a),
      k.key_trans (key c) (key a) (key b),
      k.key_trans (key b) (key c) (key a),
      k.key_irrefl (key a),
      k.key_total (key a) (key b),
      k.key_total (key b) (key a),
      k.key_total (key b) (key c),
      o.incomparable a b c,
    );
  }

module _ {ℓ κ} {A : Type ℓ} {K : Type κ} {same less : K → K → Bool} (k : IsKey same less)
    (key : A → K) (rest : A → A → Bool) where
  -- What ascends by a chain ascends by its first key.
  pub IsSorted-by :
      (l : List A) → IsSorted (by same less key rest) l → IsSorted (λ a b. less (key a) (key b)) l
  IsSorted-by [] s = tt
  IsSorted-by (x ∷ xs) (below, s) = (
    All-map (λ y h. ground (arith, k.same_iff (key y) (key x), k.key_irrefl (key x), h)) xs below,
    IsSorted-by xs s,
  )
