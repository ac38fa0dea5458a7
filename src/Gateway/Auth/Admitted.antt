-- ===== src/Gateway/Auth/Admitted.antt =====
-- Who is let through.
use mathlib.Core.Path.{subst}
use juno_exchange_gateway.Prelude.{
  Bool, Bool-cases, List, String, [], arith, inl, inr, mem, some, str_eq, str_eq_iff, true, ℕ, ◌||◌,
  ◌∷◌, ◌≡◌, ◌⊎◌, Option-cases, length, refl, ◌&&◌, ◌==◌, ap, false, not, sym, ◌∙◌,
}
use juno_exchange_gateway.Gateway.Response.{data_of}
use juno_exchange_gateway.Gateway.Auth.{
  Credential, anonymous, admit, authenticate, Authenticator, Principal, bearer_token,
  find_credential, has_scope, has_wallet, principal_of,
}

-- the credential is one of the list
pub data IsConfigured (c : Credential) : List Credential → Type 0 where
  first : {cs : List Credential} → IsConfigured c (c ∷ cs)
  later : {d : Credential} {cs : List Credential} → IsConfigured c cs → IsConfigured c (d ∷ cs)

-- A configured credential whose token the caller has, with the scope and the wallet.
pub record Authorised (digest : String → String) (a : Authenticator) (scope : String)
    (wallet_scoped : Bool) (header wallet : String) (p : Principal) : Type 0 where
  pub credential : Credential
  pub configured : IsConfigured credential a.credentials
  pub token : String
  pub token_eq : bearer_token header ≡ some token
  pub hash_eq : digest token ≡ credential.token_hash
  pub name_eq : p.name ≡ credential.name
  pub scope_held : (mem scope credential.scopes || mem "admin" credential.scopes) ≡ true
  pub wallet_held :
      wallet_scoped ≡ true → (mem "*" credential.wallets || mem wallet credential.wallets) ≡ true

length_zero : (cs : List Credential) → (length cs == 0) ≡ true → cs ≡ []
length_zero [] h = refl
length_zero (c ∷ cs) h = absurd (ground (arith, h))

find_credential_sound :
    (hash : String) (cs : List Credential) (c : Credential)
    → find_credential hash cs ≡ some c
    → IsConfigured c cs × (hash ≡ c.token_hash)
unfolding find_credential
find_credential_sound hash [] c h = absurd (cc h)
find_credential_sound hash (d ∷ cs) c h = elim (Bool-cases (str_eq hash d.token_hash)) [
  | inl e ↦
      let i : d ≡ c = ground (arith, h, e) in
      (
        subst (λ x. IsConfigured x (d ∷ cs)) i first,
        subst (λ x. hash ≡ x.token_hash) i ((str_eq_iff hash d.token_hash).0 e),
      )
  | inr e ↦ let ih = find_credential_sound hash cs c (ground (arith, h, e)) in (later ih.0, ih.1)
]

authenticate_sound :
    (digest : String → String) (a : Authenticator) (header : String) (p : Principal)
    → authenticate digest a header ≡ some p
    → ((a.allow_anonymous ≡ true) × (a.credentials ≡ []) × (p ≡ anonymous))
      ⊎ ((c : Credential) × (token : String) × (IsConfigured c a.credentials)
          × (bearer_token header ≡ some token)
          × (digest token ≡ c.token_hash)
          × (p ≡ principal_of c))
unfolding authenticate
authenticate_sound digest a header p h =
    elim (Bool-cases (a.allow_anonymous && (length a.credentials == 0))) [
      | inl e ↦
          inl
            (ground (arith, e), length_zero a.credentials (ground (arith, e)), ground (arith, h, e))
      | inr e ↦ elim (Option-cases (bearer_token header)) [
        | inl b ↦ absurd (ground (arith, h, e, b))
        | inr (token, b) ↦ elim (Option-cases (find_credential (digest token) a.credentials)) [
          | inl f ↦ absurd (ground (arith, h, e, b, f))
          | inr (c, f) ↦
              let s = find_credential_sound (digest token) a.credentials c f in
              inr (c, token, s.0, b, s.1, ground (arith, h, e, b, f))
        ]
      ]
    ]

authorised :
    (digest : String → String) (a : Authenticator) (scope : String) (wallet_scoped : Bool)
    (header wallet : String) (p : Principal) (c : Credential) (token : String)
    → IsConfigured c a.credentials
    → bearer_token header ≡ some token
    → digest token ≡ c.token_hash
    → p ≡ principal_of c
    → has_scope p scope ≡ true
    → (wallet_scoped && not (has_wallet p wallet)) ≡ false
    → Authorised digest a scope wallet_scoped header wallet p
unfolding principal_of has_scope has_wallet
authorised digest a scope wallet_scoped header wallet p c token listed token_eq hash_eq i hs hw =
    record {
      credential = c;
      configured = listed;
      token = token;
      token_eq = token_eq;
      hash_eq = hash_eq;
      name_eq = ap (λ x. x.name) i;
      scope_held = sym (ap (λ x. has_scope x scope) i) ∙ hs;
      wallet_held = λ w.
          let e : has_wallet p wallet ≡ true = ground (arith, hw, w) in
          sym (ap (λ x. has_wallet x wallet) i) ∙ e;
    }

-- The handler of a protected route runs only for a caller with a configured credential's token, whose
-- credential has the route's scope or `admin`, and the wallet or all of them where the route names
-- one, and whose rate limit has room. The one exception is a gateway that allows anonymous callers and has no
-- credential.
pub admit_sound :
    (digest : String → String) (a : Authenticator) (scope : String) (wallet_scoped : Bool)
    (header wallet : String) (allow : Principal → Bool) (status : ℕ) (p : Principal)
    → admit digest a scope wallet_scoped header wallet allow ≡ data_of status p
    → (allow p ≡ true)
      × (Authorised digest a scope wallet_scoped header wallet p
          ⊎ ((a.allow_anonymous ≡ true) × (a.credentials ≡ []) × (p ≡ anonymous)))
unfolding admit has_scope has_wallet
admit_sound digest a scope wallet_scoped header wallet allow status p h =
    elim (Option-cases (authenticate digest a header)) [
      | inl e ↦ absurd (ground (arith, h, e))
      | inr (q, e) ↦
          let i : q ≡ p = ground (arith, h, e) in
          let ok_allow : allow p ≡ true = ground (arith, h, e, i) in
          let ok_scope : has_scope p scope ≡ true = ground (arith, h, e, i) in
          let ok_wallet : (wallet_scoped && not (has_wallet p wallet)) ≡ false =
            ground (arith, h, e, i) in
          (
            ok_allow,
            elim (authenticate_sound digest a header p (e ∙ ap some i)) [
              | inl anon ↦ inr anon
              | inr (c, token, listed, token_eq, hash_eq, p_eq) ↦ inl (
                  authorised digest a scope wallet_scoped header wallet p c token listed token_eq
                    hash_eq p_eq ok_scope ok_wallet)
            ],
          )
    ]
