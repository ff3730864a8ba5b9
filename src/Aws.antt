-- ===== src/Aws.antt =====
-- pkg/engine/awsclient.go and awss3client.go: deletion in batches, behind a last check of the reach.
-- The services answer each request by a function of the requests before it.
pub mod Batches
pub mod Prefixes
use gemaal.Base.{
  ℕ, zero, suc, ◌+◌, ◌&&◌, not, false, List, [], ◌∷◌, ◌++◌, Bool, Option, none, some, Text, codes,
  slash, ℤ, pos, sub_ℕ, length, take, is_empty, has_prefix, split_n, if◌then◌else◌,
}
use gemaal.Config.Validate.{is_test_bucket}
use gemaal.Engine.Types.{Result, ok, err}

abbrev pub ssm_delete_batch : ℕ
ssm_delete_batch = 10

abbrev pub s3_delete_batch : ℕ
s3_delete_batch = 1000

abbrev pub drop : {A : Type 0} → ℕ → List A → List A
drop zero xs = xs
drop (suc n) [] = []
drop (suc n) (x ∷ xs) = drop n xs

-- the windows, one for each round that is left
unfoldable pub chunks_within : {A : Type 0} → ℕ → ℕ → List A → List (List A)
chunks_within zero size s = []
chunks_within (suc n) size [] = []
chunks_within (suc n) size (x ∷ s) = take size (x ∷ s) ∷ chunks_within n size (drop size (x ∷ s))

-- slicesChunk: a list takes at most as many rounds as it has elements
unfoldable pub slices_chunk : {A : Type 0} → List A → ℕ → List (List A)
slices_chunk s size = chunks_within (length s) size s

pub data AwsError : Type 0 where
  outside_test_root : Text → AwsError
  not_test_shaped not_a_tenant_prefix : Text → AwsError
  service_failed : Text → AwsError
  invalid_names : List Text → AwsError
  objects_failed : ℕ → AwsError

-- The names that were invalid, or an error's text.
abbrev pub SsmApi : Type 0
SsmApi = List (List Text) → List Text → Result Text (List Text)

-- Whether it failed, and the requests made.
abbrev pub Batched : Type 0
Batched = record { error : Option AwsError; requests : List (List Text) }

abbrev ssm_problem : Result Text (List Text) → Option AwsError
ssm_problem (err text) = some (service_failed text)
ssm_problem (ok []) = none
ssm_problem (ok (name ∷ names)) = some (invalid_names (name ∷ names))

-- The loop over the batches; the first failure ends it.
unfoldable pub delete_batches : SsmApi → List (List Text) → List (List Text) → Batched
delete_batches api [] t = record { error = none; requests = t }
delete_batches api (chunk ∷ rest) t = elim (ssm_problem (api t chunk)) [
  | some e ↦ record { error = some e; requests = t ++ chunk ∷ [] }
  | none ↦ delete_batches api rest (t ++ chunk ∷ [])
]

abbrev pub ssm_test_root : Text
ssm_test_root = codes "/test/"

-- the first name that is not under the root
unfoldable pub outside_root : List Text → Option Text
outside_root [] = none
outside_root (name ∷ names) =
    let rest = outside_root names in if has_prefix name ssm_test_root then rest else some name

-- DeleteParameters
unfoldable pub delete_parameters : SsmApi → List Text → Batched
delete_parameters api names = elim (outside_root names) [
  | some name ↦ record { error = some (outside_test_root name); requests = [] }
  | none ↦ delete_batches api (slices_chunk names ssm_delete_batch) []
]

-- A request to delete keys of a bucket.
pub record DeleteObjects : Type 0 where
  pub bucket : Text
  pub keys : List Text

-- S3's two operations: the keys under a prefix of a bucket, and how many of a request's failed,
-- after the requests before it.
pub record S3Api : Type 0 where
  pub list_keys : Text → Text → Result Text (List Text)
  pub delete_objects : List DeleteObjects → DeleteObjects → Result Text ℕ

-- A count, whether it failed, and the requests made.
abbrev pub Removed : Type 0
Removed = record { deleted : ℤ; error : Option AwsError; requests : List DeleteObjects }

abbrev pub request : Text → List Text → DeleteObjects
request bucket keys = record { bucket = bucket; keys = keys }

-- The loop over the batches, with the count so far; a partial failure counts what did not fail.
unfoldable pub remove_batches : S3Api → Text → List (List Text) → ℕ → List DeleteObjects → Removed
remove_batches api bucket [] deleted t = record {
  deleted = pos deleted;
  error = none;
  requests = t;
}
remove_batches api bucket (chunk ∷ rest) deleted t =
    elim (api.delete_objects t (request bucket chunk)) [
      | err text ↦ record {
        deleted = pos deleted;
        error = some (service_failed text);
        requests = t ++ request bucket chunk ∷ [];
      }
      | ok zero ↦
          remove_batches api bucket rest (deleted + length chunk) (t ++ request bucket chunk ∷ [])
      | ok (suc n) ↦ record {
        deleted = sub_ℕ (deleted + length chunk) (suc n);
        error = some (objects_failed (suc n));
        requests = t ++ request bucket chunk ∷ [];
      }
    ]

abbrev is_container : List Text → Bool
is_container (a ∷ b ∷ c ∷ []) = not (is_empty a) && (not (is_empty b) && is_empty c)
is_container _ = false

-- tenantContainerPrefix: a text has at most one part more than bytes
unfoldable pub tenant_container_prefix : Text → Bool
tenant_container_prefix prefix = is_container (split_n prefix slash (suc (length prefix)))

abbrev remove_listed : S3Api → Text → Result Text (List Text) → Removed
remove_listed api bucket (err text) = record {
  deleted = pos 0;
  error = some (service_failed text);
  requests = [];
}
remove_listed api bucket (ok keys) =
    remove_batches api bucket (slices_chunk keys s3_delete_batch) 0 []

-- DeletePrefix
unfoldable pub delete_prefix : S3Api → Text → Text → Removed
delete_prefix api bucket prefix =
    if not (is_test_bucket bucket)
    then record { deleted = pos 0; error = some (not_test_shaped bucket); requests = [] }
    else if not (tenant_container_prefix prefix)
    then record { deleted = pos 0; error = some (not_a_tenant_prefix prefix); requests = [] }
    else remove_listed api bucket (api.list_keys bucket prefix)
