-- ===== src/Gateway/Response.antt =====
-- internal/api/api.go, `writeData` and `writeError`: what a handler answers. Of an error the HTTP
-- status, the code and the retry flag are modelled; the texts and the details are not.
use juno_exchange_gateway.Prelude.{ℕ, Bool, String, ◌≡◌, ◌⊎◌, inl, inr, refl}

pub record ApiError : Type 0 where
  pub status : ℕ
  pub code : String
  pub retryable : Bool

pub data Response {ℓ} (A : Type ℓ) : Type ℓ where
  data_of : ℕ → A → Response A
  error_of : ApiError → Response A

-- `writeError`
abbrev pub fail_with {ℓ} : {A : Type ℓ} → ℕ → String → Bool → Response A
fail_with status code retryable =
    error_of (record { status = status; code = code; retryable = retryable })

pub Response-cases {ℓ} :
    {A : Type ℓ} (r : Response A)
    → ((n : ℕ) × (a : A) × (r ≡ data_of n a)) ⊎ ((e : ApiError) × (r ≡ error_of e))
Response-cases (data_of n a) = inl (n, a, refl)
Response-cases (error_of e) = inr (e, refl)
