-- ===== src/Aws/Batches.antt =====
-- DeleteParameters of pkg/engine/awsclient.go, and the batches of slicesChunk.
use mathlib.Core.List.{append_assoc, append-nil}
use gemaal.Base.{
  ℕ, zero, suc, ◌-◌, ◌≤◌, ◌<◌, List, [], ◌∷◌, ◌++◌, true, none, Text, ◌≡◌, ◌≢◌, ◌∙◌, refl, sym, ap,
  subst, ◌⊎◌, inl, inr, arith, All, length, length-take, take, has_prefix, Option-cases,
}
use gemaal.Aws.{
  ssm_delete_batch, drop, chunks_within, slices_chunk, SsmApi, ssm_problem, delete_batches,
  ssm_test_root, outside_root, delete_parameters,
}

-- The elements of all batches.
unfoldable pub joined : {A : Type 0} → List (List A) → List A
joined [] = []
joined (c ∷ cs) = c ++ joined cs

module _ {A : Type 0} where
  take-drop : (n : ℕ) (xs : List A) → take n xs ++ drop n xs ≡ xs
  take-drop zero xs = refl
  take-drop (suc n) [] = refl
  take-drop (suc n) (x ∷ xs) = ap (λ l. x ∷ l) (take-drop n xs)

  length-drop : (n : ℕ) (xs : List A) → length (drop n xs) ≡ length xs - n
  length-drop zero xs = omega arith
  length-drop (suc n) [] = omega arith
  length-drop (suc n) (x ∷ xs) = omega (arith, length-drop n xs)

  pub joined-chunks_within :
      (fuel size : ℕ) (xs : List A)
      → 0 < size
      → length xs ≤ fuel
      → joined (chunks_within fuel size xs) ≡ xs
  unfolding joined chunks_within
  joined-chunks_within zero size [] p h = refl
  joined-chunks_within zero size (x ∷ xs) p h = absurd (omega arith)
  joined-chunks_within (suc n) size [] p h = refl
  joined-chunks_within (suc n) size (x ∷ xs) p h =
      ap (λ l. take size (x ∷ xs) ++ l)
        (joined-chunks_within n size (drop size (x ∷ xs)) p
          (omega (arith, length-drop size (x ∷ xs))))
      ∙ take-drop size (x ∷ xs)

  module _ (P : A → Type 0) where
    All-take : (n : ℕ) (xs : List A) → All P xs → All P (take n xs)
    All-take zero xs h = tt
    All-take (suc n) [] h = tt
    All-take (suc n) (x ∷ xs) (p, h) = (p, All-take n xs h)

    All-drop : (n : ℕ) (xs : List A) → All P xs → All P (drop n xs)
    All-drop zero xs h = h
    All-drop (suc n) [] h = tt
    All-drop (suc n) (x ∷ xs) (p, h) = All-drop n xs h

    All-prefix : (xs ys : List A) → All P (xs ++ ys) → All P xs
    All-prefix [] ys h = tt
    All-prefix (x ∷ xs) ys (p, h) = (p, All-prefix xs ys h)

    pub chunks_within-All :
        (fuel size : ℕ) (xs : List A)
        → All P xs
        → All (λ c. (length c ≤ size) × All P c) (chunks_within fuel size xs)
    unfolding chunks_within
    chunks_within-All zero size xs h = tt
    chunks_within-All (suc n) size [] h = tt
    chunks_within-All (suc n) size (x ∷ xs) h = (
      (omega (arith, length-take size (x ∷ xs)), All-take size (x ∷ xs) h),
      chunks_within-All n size (drop size (x ∷ xs)) (All-drop size (x ∷ xs) h),
    )

-- what the loop has asked for: the batches in their order, all of them unless it failed
delete_batches-done :
    (api : SsmApi) (chunks t : List (List Text))
    → let d = delete_batches api chunks t in
      (done : List (List Text)) × (left : List (List Text)) × (chunks ≡ done ++ left)
      × (d.requests ≡ t ++ done)
      × ((d.error ≢ none) ⊎ (left ≡ []))
unfolding delete_batches
delete_batches-done api [] t = ([], [], refl, sym (append-nil t), inr refl)
delete_batches-done api (chunk ∷ rest) t = elim (Option-cases (ssm_problem (api t chunk))) [
  | inr (e, q) ↦ (
    chunk ∷ [],
    rest,
    refl,
    rw (q, delete_batches) refl,
    inl (λ h. cc (rw (q, delete_batches) at h)),
  )
  | inl q ↦
      let (done, left, whole, asked, ended) = delete_batches-done api rest (t ++ chunk ∷ []) in
      (
        chunk ∷ done,
        left,
        ap (λ l. chunk ∷ l) whole,
        rw (q, delete_batches) (asked ∙ append_assoc t (chunk ∷ []) done),
        rw (q, delete_batches) ended,
      )
]

outside_root-none :
    (names : List Text)
    → outside_root names ≡ none
    → All (λ name. has_prefix name ssm_test_root ≡ true) names
unfolding outside_root
outside_root-none [] h = tt
outside_root-none (name ∷ names) h = ground (arith, outside_root-none names)

-- DeleteParameters, whatever the service answers: every request that it makes has at most ten
-- names, all of them under "/test/"; and it returns an error, or has asked to delete exactly the
-- names that it was given, in their order.
pub delete_parameters_lem :
    (api : SsmApi) (names : List Text)
    → let d = delete_parameters api names in
      All (λ c. (length c ≤ 10) × All (λ name. has_prefix name ssm_test_root ≡ true) c) d.requests
      × ((d.error ≢ none) ⊎ (joined d.requests ≡ names))
unfolding delete_parameters slices_chunk
delete_parameters_lem api names = elim (Option-cases (outside_root names)) [
  | inr (name, e) ↦ (rw (e, delete_parameters) tt, inl (λ h. cc (rw (e, delete_parameters) at h)))
  | inl e ↦
      let chunks = slices_chunk names ssm_delete_batch in
      let (done, left, whole, asked, ended) = delete_batches-done api chunks [] in
      let good =
        chunks_within-All _ (length names) ssm_delete_batch names (outside_root-none names e) in
      let all_done =
        joined-chunks_within (length names) ssm_delete_batch names (omega arith) (omega arith) in
      (
        rw (e, delete_parameters, asked) (All-prefix _ done left (subst (All _) whole good)),
        elim ended [
          | inl bad ↦ inl (rw (e, delete_parameters) bad)
          | inr nothing_left ↦ inr (
              rw (e, delete_parameters, asked)
                (ap joined (sym (whole ∙ ap (λ l. done ++ l) nothing_left ∙ append-nil done))
                  ∙ all_done))
        ],
      )
]
