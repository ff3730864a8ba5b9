-- ===== src/Authn.antt =====
-- pkg/authn/authn.go: from a bearer token to an identity. The cluster's token review and the
-- issuer's verification are services that answer, or fail with an error's text.
use gemaal.Base.{
  List, ◌&&◌, not, Bool, Option, none, some, Text, codes, any, text_eq, is_empty, if◌then◌else◌,
}
use gemaal.Engine.Types.{Result, ok, err}

-- the program's Identity
pub record Caller : Type 0 where
  pub subject : Text
  pub email : Text
  pub name : Text
  pub groups : List Text
  pub method : Text

-- what the issuer vouches for
pub record Verified : Type 0 where
  pub subject : Text
  pub email : Text
  pub name : Text
  pub groups : List Text

-- `review` answers none where the cluster does not know the token.
pub record Authenticator : Type 0 where
  pub reviewer : Option (Text → Result Text (Option Caller))
  pub issuer : Option (Text → Result Text Verified)

pub data AuthError : Type 0 where
  no_credentials no_issuer : AuthError
  review_failed issuer_failed : Text → AuthError

-- InAny
unfoldable pub in_any : Caller → List Text → Bool
in_any caller groups =
    any (λ g. not (is_empty g) && any (λ held. text_eq held g) caller.groups) groups

abbrev of_issuer : Result Text Verified → Result AuthError Caller
of_issuer (err e) = err (issuer_failed e)
of_issuer (ok who) = ok (record {
  subject = who.subject;
  email = who.email;
  name = who.name;
  groups = who.groups;
  method = codes "issuer";
})

unfoldable pub ask_issuer : Authenticator → Text → Result AuthError Caller
ask_issuer a token = elim a.issuer [ none ↦ err no_issuer | some verify ↦ of_issuer (verify token) ]

-- what a token review leaves to do
abbrev after_review : Authenticator → Text → Result Text (Option Caller) → Result AuthError Caller
after_review a token (err e) = err (review_failed e)
after_review a token (ok (some caller)) = ok caller
after_review a token (ok none) = ask_issuer a token

unfoldable pub authenticate : Authenticator → Text → Result AuthError Caller
authenticate a token = if is_empty token then err no_credentials else (elim a.reviewer [
  | none ↦ ask_issuer a token
  | some review ↦ after_review a token (review token)
])
