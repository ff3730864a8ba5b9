-- ===== src/Engine/Sweep/Idle.antt =====
-- The groups of artifacts of pkg/engine/sweep.go against the artifacts that were listed.
use gemaal.Base.{
  List, [], ◌∷◌, ◌++◌, false, none, some, Text, ℤ, ◌≡◌, ◌≢◌, ◌≤ℤ◌, refl, sym, subst, ap, ◌∙◌, ◌⊎◌,
  inl, inr, arith, All, All-map, All-members, Any, Bool-cases, Option-cases, text_eq, text_eq_iff,
  cut_prefix, map, time_sub, codes, ◌-ℤ◌, Any-map, All-zip, All-everywhere,
}
use gemaal.Engine.Types.{Object, Parameter}
use gemaal.Engine.Rules.{split_tenant_path}
use gemaal.Engine.Artifacts.{
  ArtifactGroup, Groups, group_key, new_group, grow, visit, visit_parameters, visit_objects,
  bucket_id,
}
use gemaal.Engine.Sweep.Artifacts.{visit-All}

-- A listed artifact: its path behind the root or in the bucket, the names it goes by, its time.
pub record Artifact : Type 0 where
  pub path : Text
  pub names : List Text
  pub modified : ℤ

-- the parameters that lie under a root
pub under_root : Text → List Parameter → List Artifact
under_root root [] = []
under_root root (p ∷ ps) = elim (cut_prefix p.name root) [
  | none ↦ under_root root ps
  | some inside ↦
      record { path = inside; names = p.name ∷ []; modified = p.last_modified } ∷ under_root root ps
]

abbrev pub in_bucket : List Object → List Artifact
in_bucket l = map (λ o. record { path = o.key; names = []; modified = o.last_modified }) l

visits : Text → List Artifact → Groups → Groups
visits prefix [] groups = groups
visits prefix (m ∷ ms) groups = visits prefix ms (visit m.path prefix m.names m.modified groups)

visits-parameters :
    (root : Text) (ps : List Parameter) (groups : Groups)
    → visit_parameters root ps groups ≡ visits root (under_root root ps) groups
unfolding visit_parameters visits under_root
visits-parameters root [] groups = refl
visits-parameters root (p ∷ ps) groups = elim (Option-cases (cut_prefix p.name root)) [
  | inl q ↦ rw (q, visit_parameters, under_root) (visits-parameters root ps groups)
  | inr (inside, q) ↦
      rw (q, visit_parameters, under_root)
        (visits-parameters root ps (visit inside root (p.name ∷ []) p.last_modified groups))
]

visits-objects :
    (bucket : Text) (l : List Object) (groups : Groups)
    → visit_objects bucket l groups ≡ visits (bucket_id bucket ++ codes "/") (in_bucket l) groups
unfolding visit_objects visits
visits-objects bucket [] groups = refl
visits-objects bucket (o ∷ l) groups = visits-objects bucket l _

-- no group has the key
NoKey : Text → Groups → Type 0
NoKey k [] = Unit
NoKey k ((key, g) ∷ groups) = (key ≢ k) × NoKey k groups

-- one group at most has the key, and if one has, it satisfies `P`; `E` says whether none may
At : (ArtifactGroup → Type 0) → Type 0 → Text → Groups → Type 0
At P E k [] = E
At P E k ((key, g) ∷ groups) = ((key ≡ k) × P g × NoKey k groups) ⊎ ((key ≢ k) × At P E k groups)

new_key :
    (rest prefix : Text) (names : List Text) (modified : ℤ) (k : Text) (groups : Groups)
    → group_key rest ≢ k
    → NoKey k groups
    → NoKey k (visit rest prefix names modified groups)
unfolding visit NoKey
new_key rest prefix names modified k [] h n = (h, tt)
new_key rest prefix names modified k ((key, g) ∷ groups) h (p, n) =
    elim (Bool-cases (text_eq key (group_key rest))) [
      | inl e ↦ rw e (p, n)
      | inr e ↦ rw e (p, new_key rest prefix names modified k groups h n)
    ]

-- the key is there once another artifact is visited, if it was, and `P` is kept
module _ (rest prefix : Text) (names : List Text) (modified : ℤ) (k : Text)
    (P : ArtifactGroup → Type 0) where
  visit-At :
      (E : Type 0) (groups : Groups)
      → ((g : ArtifactGroup) → P g → P (grow names modified g))
      → (group_key rest ≡ k → E → P (grow names modified (new_group rest prefix)))
      → At P E k groups
      → At P E k (visit rest prefix names modified groups)
  unfolding visit At NoKey
  visit-At E [] keep fresh h = elim (Bool-cases (text_eq (group_key rest) k)) [
    | inl q ↦ let same = (text_eq_iff (group_key rest) k).0 q in inl (same, fresh same h, tt)
    | inr q ↦ inr ((λ s. differs q s), h)
  ]
    where
      differs : text_eq (group_key rest) k ≡ false → group_key rest ≢ k
      differs q s = let t = (text_eq_iff (group_key rest) k).1 s in absurd (ground arith)
  visit-At E ((key, g) ∷ groups) keep fresh h = elim (Bool-cases (text_eq key (group_key rest))) [
    | inl e ↦ rw e (elim h [ inl (same, p, n) ↦ inl (same, keep g p, n) | inr other ↦ inr other ])
    | inr e ↦ rw e (elim h [
      | inl (same, p, n) ↦
          inl (same, p, new_key rest prefix names modified k groups (moved e same) n)
      | inr (other, r) ↦ inr (other, visit-At E groups keep fresh r)
    ])
  ]
    where
      moved : text_eq key (group_key rest) ≡ false → key ≡ k → group_key rest ≢ k
      moved e same s =
          let t = (text_eq_iff key (group_key rest)).1 (same ∙ sym s) in absurd (ground arith)

int_le_refl : (a : ℤ) → a ≤ℤ a
int_le_refl a = omega arith

grown :
    (names : List Text) (modified : ℤ) (g : ArtifactGroup)
    → modified ≤ℤ (grow names modified g).last_activity
grown names modified g = ground arith

grown_keeps :
    (names : List Text) (m modified : ℤ) (g : ArtifactGroup)
    → m ≤ℤ g.last_activity
    → m ≤ℤ (grow names modified g).last_activity
grown_keeps names m modified g h = ground arith

module _ (prefix : Text) where
  -- the visited artifact itself
  visit_self :
      (rest : Text) (names : List Text) (modified : ℤ) (groups : Groups)
      → At (λ g. Unit) Unit (group_key rest) groups
      → At
          (λ g. modified ≤ℤ g.last_activity)
          ⊥
          (group_key rest)
          (visit rest prefix names modified groups)
  unfolding visit At NoKey
  visit_self rest names modified [] h = inl (refl, grown names modified (new_group rest prefix), tt)
  visit_self rest names modified ((key, g) ∷ groups) h =
      elim (Bool-cases (text_eq key (group_key rest))) [
        | inl e ↦
            let same = (text_eq_iff key (group_key rest)).0 e in
            rw e (elim h [
              | inl (q, u, n) ↦ inl (q, grown names modified g, n)
              | inr (other, r) ↦ absurd (other same)
            ])
        | inr e ↦ rw e (elim h [
          | inl (q, u, n) ↦ absurd (apart e q)
          | inr (other, r) ↦ inr (other, visit_self rest names modified groups r)
        ])
      ]
    where
      apart : text_eq key (group_key rest) ≡ false → key ≡ group_key rest → ⊥
      apart e q = let t = (text_eq_iff key (group_key rest)).1 q in ground arith

  visits-At :
      (P : ArtifactGroup → Type 0) (E : Type 0) (k : Text) (ms : List Artifact) (groups : Groups)
      → ((names : List Text) (modified : ℤ) (g : ArtifactGroup) → P g → P (grow names modified g))
      → ((g : ArtifactGroup) → E → P g)
      → At P E k groups
      → At P E k (visits prefix ms groups)
  unfolding visits
  visits-At P E k [] groups keep fresh h = h
  visits-At P E k (m ∷ ms) groups keep fresh h =
      visits-At P E k ms (visit m.path prefix m.names m.modified groups) keep fresh (
        visit-At m.path prefix m.names m.modified k P E groups (keep m.names m.modified)
          (λ s u. fresh _ u) h)

  Counts : Artifact → Groups → Type 0
  Counts m groups = At (λ g. m.modified ≤ℤ g.last_activity) ⊥ (group_key m.path) groups

  visits-Counts :
      (ms : List Artifact) (groups : Groups)
      → ((k : Text) → At (λ g. Unit) Unit k groups)
      → All (λ m. Counts m (visits prefix ms groups)) ms
  unfolding visits Counts
  visits-Counts [] groups h = tt
  visits-Counts (m ∷ ms) groups h = (
    visits-At (λ g. m.modified ≤ℤ g.last_activity) ⊥ (group_key m.path) ms
        (visit m.path prefix m.names m.modified groups)
        (λ names modified g p. grown_keeps names m.modified modified g p) (λ g u. absurd u)
        (visit_self m.path m.names m.modified groups (h (group_key m.path))),
    visits-Counts ms (visit m.path prefix m.names m.modified groups) (λ k.
        visit-At m.path prefix m.names m.modified k (λ g. Unit) Unit groups (λ g u. tt) (λ s u. tt)
          (h k)),
  )

  IsNewest : Artifact → Text × ArtifactGroup → Type 0
  IsNewest m x = (group_key m.path ≢ x.0) ⊎ (m.modified ≤ℤ x.1.last_activity)

  NoKey-IsNewest :
      (m : Artifact) (groups : Groups) → NoKey (group_key m.path) groups → All (IsNewest m) groups
  unfolding NoKey IsNewest
  NoKey-IsNewest m [] h = tt
  NoKey-IsNewest m ((key, g) ∷ groups) (p, h) = (inl (λ s. p (sym s)), NoKey-IsNewest m groups h)

  Counts-IsNewest : (m : Artifact) (groups : Groups) → Counts m groups → All (IsNewest m) groups
  unfolding Counts At IsNewest
  Counts-IsNewest m [] h = absurd h
  Counts-IsNewest m ((key, g) ∷ groups) (inl (s, p, n)) = (inr p, NoKey-IsNewest m groups n)
  Counts-IsNewest m ((key, g) ∷ groups) (inr (other, h)) =
      (inl (λ s. other (sym s)), Counts-IsNewest m groups h)

  -- A group of listed artifacts: its id, one of them, and that its time is no earlier than theirs.
  pub record IsMadeOf (ms : List Artifact) (key : Text) (g : ArtifactGroup) : Type 0 where
    pub id : g.id ≡ prefix ++ key
    pub some_one : Any (λ m. group_key m.path ≡ key) ms
    pub newest : All (λ m. (group_key m.path ≢ key) ⊎ (m.modified ≤ℤ g.last_activity)) ms

  Origin : List Artifact → Text → ArtifactGroup → Type 0
  Origin all key g = (g.id ≡ prefix ++ key) × Any (λ m. group_key m.path ≡ key) all

  new_group-id : (rest : Text) → (new_group rest prefix).id ≡ prefix ++ group_key rest
  unfolding new_group
  new_group-id rest = elim (Option-cases (split_tenant_path rest)) [
    | inl e ↦ rw (e, new_group) refl
    | inr (t, e) ↦ rw (e, new_group) refl
  ]

  visits-Origin :
      (all ms : List Artifact) (groups : Groups)
      → All (λ m. Any (λ y. m ≡ y) all) ms
      → All (λ x. Origin all x.0 x.1) groups
      → All (λ x. Origin all x.0 x.1) (visits prefix ms groups)
  unfolding visits Origin
  visits-Origin all [] groups h k = k
  visits-Origin all (m ∷ ms) groups (p, h) k = visits-Origin all ms _ h (
      visit-All (Origin all) m.path prefix m.names m.modified groups
        (new_group-id m.path, Any-map (λ y s. ap (λ z. group_key z.path) (sym s)) all p) (λ g q. q)
        k)

  turned :
      (ms : List Artifact) (groups : Groups)
      → All (λ m. All (IsNewest m) groups) ms
      → All (λ x. All (λ m. IsNewest m x) ms) groups
  turned [] groups h = All-everywhere (λ _. tt) groups
  turned (m ∷ ms) groups (p, h) =
      All-zip (IsNewest m) (λ x. All (λ m. IsNewest m x) ms) groups p (turned ms groups h)

  visits-IsMadeOf : (ms : List Artifact) → All (λ x. IsMadeOf ms x.0 x.1) (visits prefix ms [])
  unfolding At IsNewest Origin
  visits-IsMadeOf ms = together (visits prefix ms []) (visits-Origin ms ms [] (All-members ms) tt) (
      turned ms (visits prefix ms []) (
        All-map (λ m c. Counts-IsNewest m (visits prefix ms []) c) ms
          (visits-Counts ms [] (λ k. tt))))
    where
      together :
          (groups : Groups)
          → All (λ x. Origin ms x.0 x.1) groups
          → All (λ x. All (λ m. IsNewest m x) ms) groups
          → All (λ x. IsMadeOf ms x.0 x.1) groups
      together [] h k = tt
      together (x ∷ groups) ((i, s), h) (n, k) =
          (record { id = i; some_one = s; newest = n }, together groups h k)

pub visit_parameters-IsMadeOf :
    (root : Text) (ps : List Parameter)
    → All (λ x. IsMadeOf root (under_root root ps) x.0 x.1) (visit_parameters root ps [])
visit_parameters-IsMadeOf root ps =
    subst (All (λ x. IsMadeOf root (under_root root ps) x.0 x.1))
      (sym (visits-parameters root ps [])) (visits-IsMadeOf root (under_root root ps))

pub visit_objects-IsMadeOf :
    (bucket : Text) (l : List Object)
    → All
        (λ x. IsMadeOf (bucket_id bucket ++ codes "/") (in_bucket l) x.0 x.1)
        (visit_objects bucket l [])
visit_objects-IsMadeOf bucket l =
    subst (All (λ x. IsMadeOf (bucket_id bucket ++ codes "/") (in_bucket l) x.0 x.1))
      (sym (visits-objects bucket l []))
      (visits-IsMadeOf (bucket_id bucket ++ codes "/") (in_bucket l))

pub time_sub-antitone : (t l m : ℤ) → m ≤ℤ l → time_sub t l ≤ℤ time_sub t m
unfolding time_sub ◌-ℤ◌
time_sub-antitone t l m h = ground arith
