-- ===== src/Identity.antt =====
-- The evidence of who is calling, pkg/identity: identity.go, the drivers of env.go, kubectl.go and
-- aws.go, and their chain in chain.go. The tools, the environment and the JSON decoders are
-- parameters.
pub mod Outcomes
use gemaal.Base.{
  not, List, [], ◌∷◌, ◌++◌, Bool, false, Option, none, some, Text, codes, is_empty, trim_space, cut,
  cut_prefix, if◌then◌else◌,
}
use gemaal.Config.{default_text}
use gemaal.Engine.Types.{Result, ok, err}

-- A driver's answer: an address, an error that wraps ErrNoEvidence, or any other.
pub data Evidence : Type 0 where
  email no_evidence broken : Text → Evidence

pub record Driver : Type 0 where
  pub name : Text
  pub evidence : Evidence

pub record Attempt : Type 0 where
  pub driver : Text
  pub evidence : Evidence

pub record Resolution : Type 0 where
  pub address : Text
  pub driver : Text
  pub attempts : List Attempt

pub data ChainError : Type 0 where
  empty_chain : ChainError
  broken_driver : Text → Text → ChainError
  no_identity : List Attempt → ChainError

abbrev pub Outcome : Type 0
Outcome = Resolution × Option ChainError

-- the two parts of a text at the first "@", neither of them empty
abbrev pub both_parts : Option (Text × Text) → Bool
both_parts none = false
both_parts (some (local, domain)) = if is_empty local then false else not (is_empty domain)

unfoldable pub valid_email : Text → Bool
unfolding cut
valid_email candidate = both_parts (cut candidate b'@')

-- an address, or the error that it is none
abbrev pub checked : (Text → Evidence) → Text → Evidence
checked otherwise t = if valid_email t then email t else otherwise t

-- what stands behind the first occurrence of a text
abbrev pub behind : Text → Text → Option Text
behind [] marker = cut_prefix [] marker
behind (c ∷ s) marker =
    let rest = behind s marker in elim (cut_prefix (c ∷ s) marker) [ none ↦ rest | some t ↦ some t ]

abbrev pub session_in : Option (Text × Text) → Evidence
session_in none = no_evidence (codes "carries no role session name")
session_in (some (role, session)) =
    if is_empty session
    then no_evidence (codes "carries no role session name")
    else checked no_evidence session

abbrev pub session_behind : Option Text → Evidence
session_behind none = no_evidence (codes "not an assumed-role ARN")
session_behind (some tail) = session_in (cut tail b'/')

unfoldable pub session_email_from_arn : Text → Evidence
unfolding valid_email cut_prefix
session_email_from_arn arn = session_behind (behind arn (codes ":assumed-role/"))

-- What the drivers ask of their surroundings, and the two decoders: of a user's name in kubectl's
-- answer, and of the ARN in that of the aws tool.
pub record Ambient : Type 0 where
  pub getenv : Text → Text
  pub output : List Text → Result Text Text
  pub decode_username : Text → Result Text Text
  pub decode_arn : Text → Result Text Text

abbrev pub flag_if : Text → Text → List Text → List Text
flag_if flag value rest = if is_empty value then rest else flag ∷ value ∷ rest

unfoldable pub who_am_i_args : Text → Text → List Text
who_am_i_args kubecontext kubeconfig =
    codes "kubectl"
    ∷ flag_if (codes "--context") kubecontext (
        flag_if (codes "--kubeconfig") kubeconfig
          (codes "auth" ∷ codes "whoami" ∷ codes "-o" ∷ codes "json" ∷ []))

unfoldable pub caller_args : Text → List Text
caller_args profile =
    codes "aws"
    ∷ codes "sts"
    ∷ codes "get-caller-identity"
    ∷ codes "--output"
    ∷ codes "json"
    ∷ flag_if (codes "--profile") profile []

module _ (a : Ambient) where
  -- a failing tool is no evidence, an answer that cannot be decoded is breakage
  abbrev pub decoded_or : (Text → Evidence) → Result Text Text → Evidence
  decoded_or then_read (ok t) = then_read t
  decoded_or then_read (err e) = broken e

  abbrev pub answer_or : (Text → Evidence) → Result Text Text → Evidence
  answer_or then_decode (ok out) = then_decode out
  answer_or then_decode (err e) = no_evidence e

  unfoldable pub env_email : Text → Evidence
  unfolding trim_space valid_email
  env_email var =
      let t = trim_space (a.getenv (default_text var (codes "GEMAAL_EMAIL"))) in
      if is_empty t then no_evidence (codes "unset") else checked broken t

  abbrev pub email_from_username : Text → Evidence
  email_from_username t =
      if is_empty t then no_evidence (codes "no username") else checked no_evidence t

  unfoldable pub kubectl_email : Text → Text → Evidence
  unfolding who_am_i_args valid_email
  kubectl_email kubecontext kubeconfig =
      answer_or (λ out. decoded_or email_from_username (a.decode_username out))
        (a.output (who_am_i_args kubecontext kubeconfig))

  unfoldable pub aws_email : Text → Evidence
  unfolding caller_args session_email_from_arn
  aws_email profile =
      answer_or (λ out. decoded_or session_email_from_arn (a.decode_arn out))
        (a.output (caller_args profile))

  unfoldable pub default_chain : Text → Text → List Driver
  unfolding env_email kubectl_email aws_email
  default_chain kubecontext kubeconfig =
      record { name = codes "env"; evidence = env_email [] }
      ∷ record { name = codes "kubectl"; evidence = kubectl_email kubecontext kubeconfig }
      ∷ record { name = codes "aws"; evidence = aws_email [] }
      ∷ []

abbrev pub attempted : Driver → Attempt
attempted d = record { driver = d.name; evidence = d.evidence }

-- a driver consulted, with the outcome of the rest of the chain
abbrev pub consulted : List Attempt → Text → Evidence → Outcome → Outcome
consulted attempts name (email t) rest =
    (record { address = t; driver = name; attempts = attempts }, none)
consulted attempts name (no_evidence e) rest = rest
consulted attempts name (broken e) rest =
    (record { address = []; driver = []; attempts = attempts }, some (broken_driver name e))

-- the rest of a chain, behind the attempts made
abbrev pub resolve_from : List Attempt → List Driver → Outcome
resolve_from seen [] =
    (record { address = []; driver = []; attempts = seen }, some (no_identity seen))
resolve_from seen (d ∷ ds) =
    let seen = seen ++ (attempted d ∷ []) in consulted seen d.name d.evidence (resolve_from seen ds)

unfoldable pub resolve_chain : List Driver → Outcome
resolve_chain [] = (record { address = []; driver = []; attempts = [] }, some empty_chain)
resolve_chain (d ∷ ds) = resolve_from [] (d ∷ ds)
