-- ===== src/Tests/Identifying.antt =====
-- The theorem on the chain of evidence where only the aws tool knows the caller.
use gemaal.Base.{
  Text, List, [], ◌∷◌, Bool, true, false, Option, none, some, codes, text_eq, ◌≡◌, refl,
  if◌then◌else◌,
}
use gemaal.Engine.Types.{ok, err}
use gemaal.Identity.{
  no_evidence, broken, Ambient, Driver, default_chain, resolve_chain, session_email_from_arn,
  env_email, kubectl_email, aws_email,
}
use gemaal.Identity.Outcomes.{IsOutcome, resolve_chain-IsOutcome}

-- no override, no cluster, and a session of the identity center
abbrev ambient : Ambient
ambient = record {
  getenv = λ name. [];
  output = λ argv. if is_aws argv then ok (codes "{}") else err (codes "exit status 1");
  decode_username = λ out. err (codes "no JSON");
  decode_arn = λ out. ok (codes "arn:aws:sts::1:assumed-role/Dev/ann@example.org");
}
  where
    is_aws : List Text → Bool
    is_aws [] = false
    is_aws (w ∷ ws) = text_eq w (codes "aws")

abbrev others : List Driver
others =
    record { name = codes "kubectl"; evidence = kubectl_email ambient [] [] }
    ∷ record { name = codes "aws"; evidence = aws_email ambient [] }
    ∷ []

abbrev env_driver : Driver
env_driver = record { name = codes "env"; evidence = env_email ambient [] }

resolve_chain-IsOutcome_example :
    IsOutcome (env_driver ∷ others) (resolve_chain (env_driver ∷ others))
resolve_chain-IsOutcome_example = resolve_chain-IsOutcome env_driver others

same_chain : default_chain ambient [] [] ≡ env_driver ∷ others
unfolding default_chain
same_chain = refl

found_by_aws : (resolve_chain (env_driver ∷ others)).0.address ≡ codes "ann@example.org"
unfolding resolve_chain env_email kubectl_email text_eq aws_email
found_by_aws = refl

no_session :
    session_email_from_arn (codes "arn:aws:sts::1:assumed-role/Dev")
    ≡ no_evidence (codes "carries no role session name")
unfolding session_email_from_arn
no_session = refl

bad_override :
    env_email (record ambient { getenv = λ name. codes " ann " }) [] ≡ broken (codes "ann")
unfolding env_email gemaal.Base.cut_prefix
bad_override = refl
