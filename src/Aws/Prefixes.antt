-- ===== src/Aws/Prefixes.antt =====
-- DeletePrefix of pkg/engine/awss3client.go.
use mathlib.Core.List.{append_assoc, append-nil}
use gemaal.Base.{
  ℕ, zero, suc, ◌+◌, ◌≤◌, List, [], ◌∷◌, ◌++◌, true, none, Text, pos, ◌≡◌, ◌≢◌, ◌∙◌, refl, sym, ap,
  ◌⊎◌, inl, inr, arith, length, length-append, Bool-cases, All, All-append, All-map, All-members,
  Any, map,
}
use gemaal.Config.Validate.{is_test_bucket}
use gemaal.Engine.Types.{ok, Result-cases}
use gemaal.Aws.{
  s3_delete_batch, slices_chunk, DeleteObjects, S3Api, request, remove_batches,
  tenant_container_prefix, delete_prefix,
}
use gemaal.Aws.Batches.{joined, joined-chunks_within, chunks_within-All}

-- A request in reach: at most a thousand keys, all of them listed under a tenant's container of a
-- test-shaped bucket, which is the bucket it names.
pub record IsRequest (api : S3Api) (bucket prefix : Text) (r : DeleteObjects) : Type 0 where
  pub same_bucket : r.bucket ≡ bucket
  pub test_shaped : is_test_bucket bucket ≡ true
  pub container : tenant_container_prefix prefix ≡ true
  pub small : length r.keys ≤ 1000
  pub listed :
      (keys : List Text) × (api.list_keys bucket prefix ≡ ok keys)
      × All (λ k. Any (λ l. k ≡ l) keys) r.keys

-- the keys of all requests
abbrev pub asked_for : List DeleteObjects → List Text
asked_for t = joined (map (λ r. r.keys) t)

asked_for-append : (t u : List DeleteObjects) → asked_for (t ++ u) ≡ asked_for t ++ asked_for u
unfolding joined
asked_for-append [] u = refl
asked_for-append (r ∷ t) u =
    ap (λ l. r.keys ++ l) (asked_for-append t u)
    ∙ sym (append_assoc r.keys (asked_for t) (asked_for u))

module _ (api : S3Api) (bucket : Text) where
  remove_batches-All :
      (P : DeleteObjects → Type 0) (chunks : List (List Text)) (deleted : ℕ)
      (t : List DeleteObjects)
      → All (λ c. P (request bucket c)) chunks
      → All P t
      → All P (remove_batches api bucket chunks deleted t).requests
  unfolding remove_batches
  remove_batches-All P [] deleted t h k = k
  remove_batches-All P (chunk ∷ rest) deleted t (p, h) k =
      let more = All-append P t (request bucket chunk ∷ []) k (p, tt) in
      elim (Result-cases (api.delete_objects t (request bucket chunk))) [
        | inr (text, q) ↦ rw (q, remove_batches) more
        | inl (zero, q) ↦
            rw (q, remove_batches) (remove_batches-All P rest (deleted + length chunk) _ h more)
        | inl (suc n, q) ↦ rw (q, remove_batches) more
      ]

  -- The loop without a failure: every batch was asked for, and its keys were counted.
  remove_batches-done :
      (chunks : List (List Text)) (deleted : ℕ) (t : List DeleteObjects)
      → let d = remove_batches api bucket chunks deleted t in
        (d.error ≢ none)
        ⊎ ((asked_for d.requests ≡ asked_for t ++ joined chunks)
            × (d.deleted ≡ pos (deleted + length (joined chunks))))
  unfolding remove_batches joined
  remove_batches-done [] deleted t = inr (sym (append-nil (asked_for t)), ap pos (omega arith))
  remove_batches-done (chunk ∷ rest) deleted t =
      elim (Result-cases (api.delete_objects t (request bucket chunk))) [
        | inr (text, q) ↦ inl (λ h. cc (rw (q, remove_batches) at h))
        | inl (zero, q) ↦
            elim (remove_batches-done rest (deleted + length chunk)
              (t ++ request bucket chunk ∷ [])) [
                | inl bad ↦ inl (rw (q, remove_batches) bad)
                | inr (asked, counted) ↦ inr (
                  rw (q, remove_batches)
                      (asked
                        ∙ ap (λ l. l ++ joined rest)
                            (asked_for-append t (request bucket chunk ∷ []))
                        ∙ append_assoc (asked_for t) (chunk ++ []) (joined rest)
                        ∙ ap (λ l. asked_for t ++ (l ++ joined rest)) (append-nil chunk)),
                  rw (q, remove_batches)
                      (counted ∙ ap pos (omega (arith, length-append chunk (joined rest)))),
                )
              ]
        | inl (suc n, q) ↦ inl (λ h. cc (rw (q, remove_batches) at h))
      ]

from_none : (n m : ℕ) → n ≡ m → 0 + n ≡ m
from_none n m h = omega arith

-- DeletePrefix, whatever the service answers: each request that it makes names the given bucket,
-- which is test-shaped, and at most a thousand keys that are listed there under the prefix, which is
-- a tenant's container; and it returns an error, or has listed the keys under the prefix, asked to
-- delete exactly them, in their order, and counted them.
pub delete_prefix_lem :
    (api : S3Api) (bucket prefix : Text)
    → let d = delete_prefix api bucket prefix in
      All (IsRequest api bucket prefix) d.requests
      × ((d.error ≢ none)
          ⊎ ((keys : List Text) × (api.list_keys bucket prefix ≡ ok keys)
              × (asked_for d.requests ≡ keys)
              × (d.deleted ≡ pos (length keys))))
unfolding delete_prefix slices_chunk joined
delete_prefix_lem api bucket prefix = elim (Bool-cases (is_test_bucket bucket)) [
  | inr b ↦ (rw (b, delete_prefix) tt, inl (λ h. cc (rw (b, delete_prefix) at h)))
  | inl b ↦ elim (Bool-cases (tenant_container_prefix prefix)) [
    | inr c ↦ (rw (b, c, delete_prefix) tt, inl (λ h. cc (rw (b, c, delete_prefix) at h)))
    | inl c ↦ elim (Result-cases (api.list_keys bucket prefix)) [
      | inr (text, l) ↦
          (rw (b, c, l, delete_prefix) tt, inl (λ h. cc (rw (b, c, l, delete_prefix) at h)))
      | inl (keys, l) ↦
          let chunks = slices_chunk keys s3_delete_batch in
          let whole =
            joined-chunks_within (length keys) s3_delete_batch keys (omega arith) (omega arith) in
          let good =
            chunks_within-All (λ k. Any (λ l. k ≡ l) keys) (length keys) s3_delete_batch keys
              (All-members keys) in
          (
            rw (b, c, l, delete_prefix)
                (remove_batches-All api bucket (IsRequest api bucket prefix) chunks 0 []
                  (All-map
                    (λ chunk (small, members). record {
                      same_bucket = refl;
                      test_shaped = b;
                      container = c;
                      small = small;
                      listed = (keys, l, members);
                    })
                    chunks good)
                  tt),
            elim (remove_batches-done api bucket chunks 0 []) [
              | inl bad ↦ inl (rw (b, c, l, delete_prefix) bad)
              | inr (asked, counted) ↦ inr (
                keys,
                l,
                rw (b, c, l, delete_prefix) (asked ∙ whole),
                rw (b, c, l, delete_prefix) (counted ∙ ap pos (from_none _ _ (ap length whole))),
              )
            ],
          )
    ]
  ]
]
