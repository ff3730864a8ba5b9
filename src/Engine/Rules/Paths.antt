-- ===== src/Engine/Rules/Paths.antt =====
-- splitTenantPath and topSegment of pkg/engine/plan.go.
use gemaal.Base.{
  [], ◌∷◌, ◌++◌, false, none, some, Text, codes, slash, ◌≡◌, ◌≢◌, refl, subst, sym, inl, inr, arith,
  All, Option-cases, cut, split_n, trim_prefix, is_empty,
}
use gemaal.Engine.Types.{Tenant}
use gemaal.Engine.Rules.{tenant_parts, split_tenant_path, top_segment}

-- A text without a slash.
abbrev pub IsSlashFree : Text → Type 0
IsSlashFree = All (λ c. c ≢ slash)

-- "<ns>/<rel>/"
abbrev pub tenant_key : Tenant → Text
tenant_key t = t.namespace ++ (codes "/" ++ (t.release ++ codes "/"))

pub cut-append : (s r : Text) → IsSlashFree s → cut (s ++ slash ∷ r) slash ≡ some (s, r)
unfolding cut
cut-append [] r h = refl
cut-append (c ∷ s) r h = ground (arith, cut-append s r h.1)

pub cut_sound : (s a b : Text) → cut s slash ≡ some (a, b) → (s ≡ a ++ slash ∷ b) × IsSlashFree a
unfolding cut
cut_sound [] a b h = absurd (ground arith)
cut_sound (c ∷ s) [] b h = (ground arith, tt)
cut_sound (c ∷ s) (d ∷ a) b h =
    let rest : cut s slash ≡ some (a, b) = ground arith in
    let (whole, free) = cut_sound s a b rest in (ground arith, (ground arith, free))

pub cut-none : (s : Text) → cut s slash ≡ none → IsSlashFree s
unfolding cut
cut-none [] h = tt
cut-none (c ∷ s) h = (ground arith, cut-none s (ground arith))

-- A path that decomposes: its two first segments, neither empty, before a non-empty rest.
pub record Decomposes (path : Text) (t : Tenant) : Type 0 where
  pub rest : Text
  pub whole : path ≡ t.namespace ++ slash ∷ (t.release ++ slash ∷ rest)
  pub namespace_free : IsSlashFree t.namespace
  pub release_free : IsSlashFree t.release
  pub namespace_set : t.namespace ≢ []
  pub release_set : t.release ≢ []

parts_sound :
    (a b c : Text) (t : Tenant)
    → tenant_parts (a ∷ b ∷ c ∷ []) ≡ some t
    → (t.namespace ≡ a) × (t.release ≡ b) × (a ≢ []) × (b ≢ [])
parts_sound a b c t h = (ground arith, ground arith, ground arith, ground arith)

split_sound : (s : Text) (t : Tenant) → tenant_parts (split_n s slash 3) ≡ some t → Decomposes s t
unfolding split_n
split_sound s t h = elim (Option-cases (cut s slash)) [
  | inl e ↦ absurd (ground arith)
  | inr (ab, e) ↦ elim (Option-cases (cut ab.1 slash)) [
    | inl q ↦ absurd (ground arith)
    | inr (cd, q) ↦
        let (n, r, ns, rs) = parts_sound ab.0 cd.0 cd.1 t (ground arith) in
        let (whole, free) = cut_sound s ab.0 ab.1 e in
        let (whole', free') = cut_sound ab.1 cd.0 cd.1 q in
        record {
          rest = cd.1;
          whole = ground arith;
          namespace_free = subst IsSlashFree (sym n) free;
          release_free = subst IsSlashFree (sym r) free';
          namespace_set = rw n ns;
          release_set = rw r rs;
        }
  ]
]

-- splitTenantPath reads the path behind at most one leading slash.
pub split_tenant_path_sound :
    (key : Text) (t : Tenant)
    → split_tenant_path key ≡ some t
    → Decomposes (trim_prefix key (codes "/")) t
unfolding split_tenant_path
split_tenant_path_sound key t = split_sound (trim_prefix key (codes "/")) t

pub top_segment-IsSlashFree : (key : Text) → IsSlashFree (top_segment key)
unfolding top_segment
top_segment-IsSlashFree key = elim (Option-cases (cut (trim_prefix key (codes "/")) slash)) [
  | inl e ↦ rw e (cut-none (trim_prefix key (codes "/")) e)
  | inr (ab, e) ↦ rw e (cut_sound (trim_prefix key (codes "/")) ab.0 ab.1 e).1
]

-- The key of an unattributable group is no tenant's key.
pub top_segment-ne-tenant_key :
    (key : Text) (t : Tenant)
    → IsSlashFree t.namespace
    → top_segment key ++ codes "/" ≢ tenant_key t
top_segment-ne-tenant_key key t free h = cc (
  cut-append (top_segment key) [] (top_segment-IsSlashFree key),
  cut-append t.namespace (t.release ++ codes "/") free,
  not_empty t.release,
)
  where
    not_empty : (l : Text) → is_empty (l ++ codes "/") ≡ false
    not_empty [] = refl
    not_empty (c ∷ l) = refl
