-- ===== src/Tests/Gateway.antt =====
-- The gateway's HTTP API at concrete inputs.
use juno_exchange_gateway.Tests.Codec.{shifting_codec, shifting_codec-IsCodec}
use juno_exchange_gateway.Gateway.Cursor.RoundTrip.{IsSignedFor, decode-encode, decode_sound}
use juno_exchange_gateway.Gateway.Auth.Admitted.{Authorised, admit_sound}
use juno_exchange_gateway.Gateway.Auth.{
  Authenticator, Credential, Principal, anonymous, admit, authenticate, bearer_token,
  find_credential, has_scope, has_wallet,
}
use juno_exchange_gateway.Gateway.Cursor.{
  decode, encode, Codec, CursorPayload, at_position, bytes_eq, cursor_parts, signed_payload,
  split_dot, check_payload,
}
use juno_exchange_gateway.Prelude.{
  String, [], false, refl, some, true, ◌∷◌, ◌≡◌, ◌⊎◌, str_eq, trim_space,
}

abbrev token_digest : String → String
token_digest s = s

abbrev exchange_credential : Credential
exchange_credential = record {
  name = "exchange";
  token_hash = "secret";
  scopes = "broadcast" ∷ [];
  wallets = "hot" ∷ [];
}

abbrev exchange_auth : Authenticator
exchange_auth = record { credentials = exchange_credential ∷ []; allow_anonymous = false }

abbrev exchange : Principal
exchange = record {
  name = "exchange";
  scopes = "broadcast" ∷ [];
  wallets = "hot" ∷ [];
  all_access = false;
}

admit_sound_example :
    ((λ (p : Principal). true) exchange ≡ true)
    × (Authorised token_digest exchange_auth "broadcast" true "Bearer secret" "hot" exchange
        ⊎ ((exchange_auth.allow_anonymous ≡ true)
            × (exchange_auth.credentials ≡ [])
            × (exchange ≡ anonymous)))
unfolding admit authenticate bearer_token trim_space str_eq find_credential has_scope has_wallet
admit_sound_example =
    admit_sound token_digest exchange_auth "broadcast" true "Bearer secret" "hot" (λ p. true) 200
      exchange refl

abbrev cursor_payload : CursorPayload
cursor_payload = record {
  version = 2;
  wallet_id = b'h' ∷ [];
  epoch = b'e' ∷ [];
  filter = [];
  position = 7;
}

abbrev codec : Codec
codec = shifting_codec (λ xs. some cursor_payload)

decode-encode_example :
    decode codec (encode codec (b'h' ∷ []) (b'e' ∷ []) [] 7) (b'h' ∷ []) (b'e' ∷ []) []
    ≡ at_position 7
decode-encode_example =
    decode-encode codec (b'h' ∷ []) (b'e' ∷ []) [] 7
      (shifting_codec-IsCodec (λ xs. some cursor_payload)) refl

decode_sound_example : IsSignedFor codec (107 ∷ b'.' ∷ 101 ∷ 107 ∷ []) (b'h' ∷ []) (b'e' ∷ []) [] 7
unfolding decode signed_payload cursor_parts split_dot bytes_eq check_payload
decode_sound_example =
    decode_sound codec 107 (b'.' ∷ 101 ∷ 107 ∷ []) (b'h' ∷ []) (b'e' ∷ []) [] 7 refl
