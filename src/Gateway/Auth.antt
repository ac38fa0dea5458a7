-- ===== src/Gateway/Auth.antt =====
-- internal/api/auth.go, and `authenticated` and `protected` of internal/api/api.go. The rate limiter
-- counts in floating point: its answer is an argument. `digest` is SHA-256 in the notation of the
-- configuration, which writes a token's hash down.
pub mod Admitted
use juno_exchange_gateway.Prelude.{
  Bool, List, Option, String, [], false, if◌then◌else◌, is_empty, leb, length, ltb, mem, none, not,
  some, str_eq, trim_space, true, ℕ, ◌&&◌, ◌+◌, ◌==◌, ◌||◌, ◌∷◌,
}
use Prim.Native.Char.{code}
use Prim.Native.String.{len}
use juno_exchange_gateway.Gateway.Response.{ApiError, Response, data_of, error_of, fail_with}

-- config.Credential
pub record Credential : Type 0 where
  pub name : String
  pub token_hash : String
  pub scopes : List String
  pub wallets : List String

pub record Principal : Type 0 where
  pub name : String
  pub scopes : List String
  pub wallets : List String
  pub all_access : Bool

unfoldable pub has_scope : Principal → String → Bool
has_scope p scope = p.all_access || mem scope p.scopes || mem "admin" p.scopes

unfoldable pub has_wallet : Principal → String → Bool
has_wallet p wallet = p.all_access || mem "*" p.wallets || mem wallet p.wallets

-- letters of ASCII, as `strings.EqualFold` compares them
lower_code : ℕ → ℕ
lower_code c = if leb b'A' c && leb c b'Z' then c + 32 else c

-- what follows a prefix, whose letters are compared by `lower_code`
strip_fold : List ℕ → String → Option String
strip_fold [] s = some s
strip_fold (c ∷ cs) String.[] = none
strip_fold (c ∷ cs) (String.◌∷◌ d s) = if lower_code (code d) == c then strip_fold cs s else none

-- "bearer "
abbrev bearer : List ℕ
bearer = b'b' ∷ b'e' ∷ b'a' ∷ b'r' ∷ b'e' ∷ b'r' ∷ 32 ∷ []

-- the token of an `Authorization` header
unfoldable pub bearer_token : String → Option String
unfolding lower_code strip_fold
bearer_token raw =
    let header = trim_space raw in
    if ltb (len header) 8 then none else elim (strip_fold bearer header) [
      | none ↦ none
      | some rest ↦ if is_empty (trim_space rest) then none else some (trim_space rest)
    ]

unfoldable pub principal_of : Credential → Principal
principal_of c = record {
  name = c.name;
  scopes = c.scopes;
  wallets = c.wallets;
  all_access = false;
}

-- the loop over the credentials
unfoldable pub find_credential : String → List Credential → Option Credential
find_credential hash [] = none
find_credential hash (c ∷ cs) = if str_eq hash c.token_hash then some c else find_credential hash cs

pub record Authenticator : Type 0 where
  pub credentials : List Credential
  pub allow_anonymous : Bool

abbrev pub anonymous : Principal
anonymous = record { name = "regtest-anonymous"; scopes = []; wallets = []; all_access = true }

module _ (digest : String → String) where
  unfoldable pub authenticate : Authenticator → String → Option Principal
  unfolding principal_of
  authenticate a header =
      if a.allow_anonymous && (length a.credentials == 0)
      then some anonymous
      else elim (bearer_token header) [
        | none ↦ none
        | some token ↦ elim (find_credential (digest token) a.credentials) [
          | none ↦ none
          | some c ↦ some (principal_of c)
        ]
      ]

  -- `authenticated`
  unfoldable pub authenticated {ℓ} :
      {A : Type ℓ} → Authenticator → String → (Principal → Response A) → Response A
  authenticated a header next = elim (authenticate a header) [
    | none ↦ fail_with 401 "unauthorized" false
    | some p ↦ next p
  ]

  -- what `protected` finds before it calls the handler
  unfoldable pub admit :
      Authenticator → String → Bool → String → String → (Principal → Bool) → Response Principal
  admit a scope wallet_scoped header wallet allow = elim (authenticate a header) [
    | none ↦ fail_with 401 "unauthorized" false
    | some p ↦
        if not (has_scope p scope)
        then fail_with 403 "forbidden" false
        else if wallet_scoped && not (has_wallet p wallet)
        then fail_with 403 "forbidden" false
        else if not (allow p)
        then fail_with 429 "rate_limited" true
        else data_of 200 p
  ]

  -- `protected`
  unfoldable pub protected {ℓ} :
      {A : Type ℓ}
      → Authenticator
      → String
      → Bool
      → String
      → String
      → (Principal → Bool)
      → (Principal → Response A)
      → Response A
  protected a scope wallet_scoped header wallet allow next =
      elim (admit a scope wallet_scoped header wallet allow) [
        | data_of status p ↦ next p
        | error_of e ↦ error_of e
      ]
