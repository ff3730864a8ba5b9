-- ===== src/Engine/Types.antt =====
-- The data of pkg/engine: ports.go, plan.go, view.go, apply.go, engine.go. Times are nanoseconds
-- since Go's zero Time, durations nanoseconds. An error or a message is the data that its text is
-- made from.
use gemaal.Base.{ℕ, ◌≡◌, refl, ◌⊎◌, inl, inr, List, Bool, Option, Text, codes, ℤ}
use gemaal.Config.{Config}

pub record Namespace : Type 0 where
  pub name : Text
  pub tier : Text

-- `updated_problem` is empty where the "updated" stamp was readable.
pub record Release : Type 0 where
  pub namespace : Text
  pub name : Text
  pub updated : ℤ
  pub status : Text
  pub updated_problem : Text

pub record ReleaseSecret : Type 0 where
  pub namespace : Text
  pub name : Text
  pub release : Text
  pub version : ℕ
  pub labels : List (Text × Text)

pub record Object : Type 0 where
  pub key : Text
  pub last_modified : ℤ

pub record Parameter : Type 0 where
  pub name : Text
  pub last_modified : ℤ

pub record Lease : Type 0 where
  pub holder : Text
  pub renew_time : ℤ
  pub duration_seconds : ℤ

-- A value, or an error; a client's error is its text.
pub data Result (E A : Type 0) : Type 0 where
  ok : A → Result E A
  err : E → Result E A

infixl 5 ◌>>=◌
abbrev pub ◌>>=◌ : {E A B : Type 0} → Result E A → (A → Result E B) → Result E B
ok a >>= f = f a
err e >>= f = err e

pub Result-cases :
    {E A : Type 0} (r : Result E A) → ((a : A) × (r ≡ ok a)) ⊎ ((e : E) × (r ≡ err e))
Result-cases (ok a) = inl (a, refl)
Result-cases (err e) = inr (e, refl)

pub ok-inj : {E A : Type 0} (a b : A) → Path (Result E A) (ok a) (ok b) → a ≡ b
ok-inj a b h = cc h

pub err-ok : {E A : Type 0} (e : E) (a : A) → Path (Result E A) (err e) (ok a) → ⊥
err-ok e a h = cc h

-- A listing hands over items one by one, and ends well or with an error's text.
pub record Listing (A : Type 0) : Type 0 where
  pub items : List A
  pub failure : Option Text

-- What the clients answer when a pass reads from them.
pub record KubeClient : Type 0 where
  pub list_tier_namespaces : Text → List Text → Result Text (List Namespace)
  pub lease : Text → Text → Result Text Lease
  pub release_secrets : Text → Result Text (List ReleaseSecret)

pub record HelmClient : Type 0 where
  pub list_releases : Text → Result Text (List Release)

pub record SsmClient : Type 0 where
  pub list_parameters : Text → Listing Parameter

pub record S3Client : Type 0 where
  pub list_objects : Text → Listing Object

-- Package time's reading of durations and stamps, and its writing of stamps.
pub record TimeText : Type 0 where
  pub parse_duration : Text → Option ℤ
  pub parse_keep_until : Text → Option ℤ
  pub format_keep_until : ℤ → Text

-- An Engine and the answers of one pass. `ended` is the context's error, if the caller had gone
-- when a namespace's enumeration failed.
pub record Engine : Type 0 where
  pub config : Config
  pub kube : Option KubeClient
  pub helm : Option HelmClient
  pub ssm : Option SsmClient
  pub s3 : Option S3Client
  pub times : TimeText
  pub ended : Text → Option Text

-- A Kind is a string; `other` is any but the three constants.
pub data Kind : Type 0 where
  helm_release s3_prefix ssm_prefix : Kind
  other : Text → Kind

unfoldable pub kind_text : Kind → Text
kind_text helm_release = codes "helm-release"
kind_text s3_prefix = codes "s3-prefix"
kind_text ssm_prefix = codes "ssm-prefix"
kind_text (other t) = t

pub data Rule : Type 0 where
  ttl_expired orphan_grace decommission : Rule

pub data KeepReason : Type 0 where
  release_live within_ttl claim_live keep_until_holds within_grace ledger_unparseable : KeepReason
  out_of_reach unknown_tenant_shape : KeepReason

pub record Tenant : Type 0 where
  pub namespace : Text
  pub release : Text

-- A time to live or a stamp of zero means absent.
pub record Ledger : Type 0 where
  pub ttl : ℤ
  pub keep_until : ℤ
  pub execution_id : Text

pub data LedgerProblem : Type 0 where
  bad_updated : Text → Text → LedgerProblem
  bad_ttl : Text → LedgerProblem
  bad_keep_until : Text → LedgerProblem

pub data TtlSource : Type 0 where
  label tier_default : TtlSource

pub record TenantState : Type 0 where
  pub tenant : Tenant
  pub tier : Text
  pub releases : List Release
  pub ledger : Ledger
  pub ledger_problems : List LedgerProblem
  pub last_activity : ℤ
  pub ttl : ℤ
  pub ttl_source : TtlSource
  pub claim : Lease

pub record Item : Type 0 where
  pub kind : Kind
  pub tenant : Tenant
  pub id : Text
  pub last_activity : ℤ
  pub age : ℤ
  pub members : ℕ
  pub names : List Text

pub data Reason : Type 0 where
  idle_past_ttl : Text → ℤ → ℤ → TtlSource → Reason
  idle_past_grace : Tenant → ℤ → ℤ → Reason
  explicit_end : Reason

pub record Action : Type 0 where
  pub item : Item
  pub rule : Rule
  pub reason : Reason
  pub order : ℕ

pub record Kept : Type 0 where
  pub item : Item
  pub reason : KeepReason

-- What `namespaceTenants` fails with.
pub data NamespaceError : Type 0 where
  list_releases list_secrets : Text → Text → NamespaceError

pub record NamespaceProblem : Type 0 where
  pub namespace : Text
  pub reason : NamespaceError

-- What `View` fails with.
pub data ViewError : Type 0 where
  no_clients : ViewError
  list_namespaces : Text → ViewError
  abandoned : Text → Text → ViewError

pub data Problem : Type 0 where
  broken_ledger : List LedgerProblem → Problem
  not_enumerated : NamespaceError → Problem
  no_ssm_client s3_stubbed : Problem
  listing_failed : Text → Problem

pub record TargetProblem : Type 0 where
  pub target : Text
  pub error : Problem

pub record Plan : Type 0 where
  pub generated_at : ℤ
  pub grace : ℤ
  pub namespaces : List Text
  pub tenants : List TenantState
  pub delete : List Action
  pub keep : List Kept
  pub problems : List TargetProblem

pub record View : Type 0 where
  pub at : ℤ
  pub namespaces : List Namespace
  pub tenants : List TenantState
  pub unreadable : List NamespaceProblem

-- What `execute` fails with: a name that cannot be derived, a client that is missing, an unknown
-- kind, or the error of the client that was called.
pub data ExecuteError : Type 0 where
  no_release_name no_bucket_name : Text → ExecuteError
  no_ssm no_s3 : ExecuteError
  unknown_kind : Kind → ExecuteError
  client_error : Text → ExecuteError

pub record ActionResult : Type 0 where
  pub action : Action
  pub executed : Bool
  pub deleted : ℕ
  pub error : Option ExecuteError

pub data Source : Type 0 where
  loop rpc explicit : Source

pub record SweepRecord : Type 0 where
  pub at : ℤ
  pub dry_run : Bool
  pub source : Source
  pub results : List ActionResult
  pub problems : List TargetProblem
  pub kept : ℕ
  pub quiet_ticks : ℕ
