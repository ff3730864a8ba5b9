-- ===== src/Engine/Apply/Reach.antt =====
-- The reach of `authorize` of pkg/engine/apply.go and the calls of `Apply`.
use gemaal.Base.{
  ℤ, List, [], ◌∷◌, ◌++◌, Bool, true, false, none, some, Text, ◌≡◌, refl, sym, ap, ◌∙◌, inl, inr,
  arith, All, All-append, Any, any, Option-cases, Bool-cases, codes, slash, text_eq, text_eq_iff,
  cut_prefix, trim_prefix, has_prefix, cut, is_some, subst,
}
use mathlib.Core.List.{append-nil}
use gemaal.Config.{AllowList}
use gemaal.Engine.Types.{
  Engine, Source, Kind, helm_release, s3_prefix, ssm_prefix, other, Tenant, Item, Action, Plan,
}
use gemaal.Engine.Rules.{sort_actions}
use gemaal.Engine.Rules.Paths.{IsSlashFree, cut-append}
use gemaal.Engine.Rules.Order.{All-sort_actions}
use gemaal.Engine.Artifacts.{normalized_root}
use gemaal.Engine.Sweep.{tier_selected}
use gemaal.Engine.Apply.{
  Call, uninstall, delete_parameters, delete_prefix, label_secret, subtree, bucket_prefix, outside,
  authorize_release, authorize_ssm, authorize_s3, authorize, World, Trace, refusal, apply,
}
use gemaal.Engine.Apply.Calls.{calls_of_kind, calls_of, apply_confirmed_calls}
use gemaal.Engine.Apply.Gates.{authorized_of_refusal, apply_dry_run}

-- What the reach of a plan and an allow-list lets a call touch: a release of a tier-selected
-- namespace, parameters under one tenant's subtree of an allow-listed root, one tenant's prefix of
-- an allow-listed bucket. Labels are never written by a sweep.
unfoldable pub InReach : AllowList → Plan → Call → Type 0
InReach a p (uninstall namespace release) = tier_selected namespace p ≡ true
InReach a p (delete_parameters names) =
    (t : Tenant) × Any
      (λ root. All (λ name. has_prefix name (subtree (normalized_root root) t) ≡ true) names)
      a.ssm_roots
InReach a p (delete_prefix bucket prefix) =
    (t : Tenant) × Any (λ b. bucket ≡ b) a.s3_buckets
    × (prefix ≡ t.namespace ++ (codes "/" ++ (t.release ++ codes "/")))
InReach a p (label_secret namespace secret labels) = ⊥

outside-none :
    (want : Text) (names : List Text)
    → outside want names ≡ none
    → All (λ name. has_prefix name want ≡ true) names
unfolding outside
outside-none want [] h = tt
outside-none want (name ∷ names) h = ground (arith, outside-none want names)

any-Any :
    (P : Text → Type 0) (test : Text → Bool) (xs : List Text)
    → ((x : Text) → test x ≡ true → P x)
    → any test xs ≡ true
    → Any P xs
any-Any P test [] f h = absurd (ground arith)
any-Any P test (x ∷ xs) f h = elim (Bool-cases (test x)) [
  | inl e ↦ inl (f x e)
  | inr e ↦ inr (any-Any P test xs f (ground arith))
]

cut-bucket_prefix :
    (b : Text) (t : Tenant)
    → IsSlashFree b
    → cut (trim_prefix (bucket_prefix b t) (codes "s3://")) slash
      ≡ some (b, t.namespace ++ (codes "/" ++ (t.release ++ codes "/")))
unfolding cut_prefix
cut-bucket_prefix b t h = cut-append b (t.namespace ++ (codes "/" ++ (t.release ++ codes "/"))) h

-- an element that passes a test, with what all elements have
any-found :
    (P : Text → Type 0) (test : Text → Bool) (xs : List Text)
    → All P xs
    → any test xs ≡ true
    → (x : Text) × P x × (test x ≡ true) × Any (λ y. x ≡ y) xs
any-found P test [] h q = absurd (ground arith)
any-found P test (x ∷ xs) h q = elim (Bool-cases (test x)) [
  | inl e ↦ (x, h.0, e, inl refl)
  | inr e ↦ let (y, py, ty, my) = any-found P test xs h.1 (ground arith) in (y, py, ty, inr my)
]

module _ (a : AllowList) (p : Plan) (e : Engine) (i : Item) where
  release-InReach :
      authorize_release i p ≡ none → All (InReach a p) (calls_of_kind helm_release e i)
  unfolding authorize_release calls_of_kind InReach
  release-InReach h = elim (Option-cases (cut_prefix i.id (i.tenant.namespace ++ codes "/"))) [
    | inl q ↦ rw (q, calls_of_kind) tt
    | inr (r, q) ↦ rw (q, calls_of_kind) (ground arith, tt)
  ]

  ssm-InReach : authorize_ssm a i ≡ none → All (InReach a p) (calls_of_kind ssm_prefix e i)
  unfolding authorize_ssm calls_of_kind InReach
  ssm-InReach h = elim (Bool-cases (is_some e.ssm)) [
    | inr q ↦ rw (q, calls_of_kind) tt
    | inl q ↦ rw (q, calls_of_kind) ((i.tenant, roots), tt)
  ]
    where
      names : outside i.id i.names ≡ none
      names = ground arith

      roots :
          Any
            (λ root.
              All
                (λ name. has_prefix name (subtree (normalized_root root) i.tenant) ≡ true)
                i.names)
            a.ssm_roots
      roots =
          any-Any _ (λ x. text_eq i.id (subtree (normalized_root x) i.tenant)) a.ssm_roots
            (λ root q.
              subst (λ want. All (λ name. has_prefix name want ≡ true) i.names)
                ((text_eq_iff _ _).0 q) (outside-none i.id i.names names))
            (ground arith)

  s3-InReach :
      All IsSlashFree a.s3_buckets
      → authorize_s3 a i ≡ none
      → All (InReach a p) (calls_of_kind s3_prefix e i)
  unfolding authorize_s3 calls_of_kind InReach
  s3-InReach free h = elim (Bool-cases (is_some e.s3)) [
    | inr q ↦ rw (q, calls_of_kind) tt
    | inl q ↦
        let (b, slash_free, same, listed) =
          any-found IsSlashFree (λ b. text_eq i.id (bucket_prefix b i.tenant)) a.s3_buckets free
            (ground arith) in
        let id_eq = (text_eq_iff i.id (bucket_prefix b i.tenant)).0 same in
        let cut_eq =
          ap (λ id. cut (trim_prefix id (codes "s3://")) slash) id_eq
          ∙ cut-bucket_prefix b i.tenant slash_free in
        rw (q, cut_eq, calls_of_kind) ((i.tenant, listed, refl), tt)
  ]

  item-InReach :
      (k : Kind)
      → All IsSlashFree a.s3_buckets
      → (x : Action) → x.item ≡ i
      → i.kind ≡ k
      → authorize a x p ≡ none
      → All (InReach a p) (calls_of_kind i.kind e i)
  unfolding authorize calls_of_kind
  item-InReach helm_release free x xi h q = rw h (release-InReach (ground arith))
  item-InReach ssm_prefix free x xi h q = rw h (ssm-InReach (ground arith))
  item-InReach s3_prefix free x xi h q = rw h (s3-InReach free (ground arith))
  item-InReach (other k) free x xi h q = rw h tt

calls-InReach :
    (a : AllowList) (p : Plan) (e : Engine) (xs : List Action)
    → All IsSlashFree a.s3_buckets
    → All (λ x. authorize a x p ≡ none) xs
    → All (InReach a p) (calls_of e xs)
unfolding calls_of
calls-InReach a p e [] free h = tt
calls-InReach a p e (x ∷ xs) free h =
    All-append (InReach a p) (calls_of_kind x.item.kind e x.item) (calls_of e xs)
      (item-InReach a p e x.item x.item.kind free x refl refl h.0) (calls-InReach a p e xs free h.1)

module _ (e : Engine) (world : World) (now : ℤ) (p : Plan) (source : Source) (t : Trace) where
  -- Where the names of the allow-listed buckets hold no slash, `Apply` of any plan, confirmed or
  -- not, only adds calls to the trace that are in reach: uninstalls in namespaces that the plan
  -- selected, parameters that all lie in one tenant's subtree of an allow-listed root, and one
  -- tenant's prefix of an allow-listed bucket.
  pub apply-InReach :
      (confirm : Bool)
      → All IsSlashFree e.config.allow_list.s3_buckets
      → (calls : List Call) × ((apply e world now p confirm source t).trace ≡ t ++ calls)
        × All (InReach e.config.allow_list p) calls
  unfolding apply
  apply-InReach confirm free = elim (Option-cases (refusal e.config.allow_list p.delete p)) [
    | inr (r, q) ↦ ([], rw (q, apply) (sym (append-nil t)), tt)
    | inl q ↦ permitted confirm (authorized_of_refusal e.config.allow_list p.delete p q)
  ]
    where
      permitted :
          (c : Bool)
          → All (λ x. authorize e.config.allow_list x p ≡ none) p.delete
          → (calls : List Call) × ((apply e world now p c source t).trace ≡ t ++ calls)
            × All (InReach e.config.allow_list p) calls
      permitted false h = ([], (apply_dry_run e world now p source t).0 ∙ sym (append-nil t), tt)
      permitted true h = (
        calls_of e (sort_actions p.delete),
        (apply_confirmed_calls e world now p source t h).0,
        calls-InReach e.config.allow_list p e (sort_actions p.delete) free
            (All-sort_actions (λ x. authorize e.config.allow_list x p ≡ none) p.delete h),
      )
