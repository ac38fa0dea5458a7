-- ===== src/Gateway/Cursor/RoundTrip.antt =====
-- Cursors that the gateway wrote, and those that it accepts.
use juno_exchange_gateway.Prelude.{
  Bool-cases, List, [], all, arith, inl, inr, not, refl, some, true, ℕ, ◌++◌, ◌==◌, ◌∙◌, ◌∷◌, ◌≡◌,
  Option-cases, ap,
}
use juno_exchange_gateway.Gateway.Cursor.{
  Codec, CursorPayload, at_position, split_dot, cursor_parts, encode, decode, check_payload,
  signed_payload, bytes_eq,
}

-- What is documented of the libraries: unpadded base64 is read back, its alphabet has no `.`, and only
-- the empty text is written as nothing; a JSON object and a MAC are not empty.
pub record IsCodec (c : Codec) : Type 0 where
  pub reads_back : (xs : List ℕ) → c.unb64 (c.b64 xs) ≡ some xs
  pub no_dot : (xs : List ℕ) → all (λ x. not (x == b'.')) (c.b64 xs) ≡ true
  pub nonempty : (xs : List ℕ) → c.b64 xs ≡ [] → xs ≡ []
  pub object : (p : CursorPayload) → ¬ (c.marshal p ≡ [])
  pub tag : (xs : List ℕ) → ¬ (c.mac xs ≡ [])

bytes_eq_refl : (xs : List ℕ) → bytes_eq xs xs ≡ true
unfolding bytes_eq
bytes_eq_refl [] = refl
bytes_eq_refl (x ∷ xs) = ground (arith, bytes_eq_refl xs)

pub bytes_eq_sound : (xs ys : List ℕ) → bytes_eq xs ys ≡ true → xs ≡ ys
unfolding bytes_eq
bytes_eq_sound [] [] h = refl
bytes_eq_sound [] (y ∷ ys) h = absurd (cc h)
bytes_eq_sound (x ∷ xs) [] h = absurd (cc h)
bytes_eq_sound (x ∷ xs) (y ∷ ys) h =
    let e : x ≡ y = ground (arith, h) in
    let es : xs ≡ ys = bytes_eq_sound xs ys (ground (arith, h)) in cc (e, es)

split_dot-append :
    (xs ys : List ℕ)
    → all (λ x. not (x == b'.')) xs ≡ true
    → split_dot (xs ++ b'.' ∷ ys) ≡ some (xs, ys)
unfolding split_dot
split_dot-append [] ys h = refl
split_dot-append (x ∷ xs) ys h = elim (Bool-cases (x == b'.')) [
  | inl e ↦ absurd (ground (arith, h, e))
  | inr e ↦ let ih = split_dot-append xs ys (ground (arith, h, e)) in ground (arith, ih, e)
]

cursor_parts_lem :
    (raw xs ys : List ℕ)
    → split_dot raw ≡ some (xs, ys)
    → ¬ (xs ≡ [])
    → ¬ (ys ≡ [])
    → cursor_parts raw ≡ some (xs, ys)
unfolding cursor_parts
cursor_parts_lem raw [] ys h hx hy = absurd (hx refl)
cursor_parts_lem raw (x ∷ xs) [] h hx hy = absurd (hy refl)
cursor_parts_lem raw (x ∷ xs) (y ∷ ys) h hx hy = rw (h, cursor_parts) refl

signed_payload-written :
    (c : Codec) (p : CursorPayload)
    → IsCodec c
    → c.unmarshal (c.marshal p) ≡ some p
    → signed_payload c (c.b64 (c.marshal p) ++ b'.' ∷ c.b64 (c.mac (c.marshal p))) ≡ some p
unfolding signed_payload
signed_payload-written c p hc hu =
    let parts =
      cursor_parts_lem (c.b64 (c.marshal p) ++ b'.' ∷ c.b64 (c.mac (c.marshal p)))
        (c.b64 (c.marshal p)) (c.b64 (c.mac (c.marshal p)))
        (split_dot-append (c.b64 (c.marshal p)) (c.b64 (c.mac (c.marshal p)))
          (hc.no_dot (c.marshal p)))
        (λ e. hc.object p (hc.nonempty _ e)) (λ e. hc.tag _ (hc.nonempty _ e)) in
    ground (
      arith,
      parts,
      hc.reads_back (c.marshal p),
      hc.reads_back (c.mac (c.marshal p)),
      bytes_eq_refl (c.mac (c.marshal p)),
      hu,
    )

decode_lem :
    (c : Codec) (raw w e f : List ℕ) (p : CursorPayload)
    → signed_payload c raw ≡ some p
    → ¬ (raw ≡ [])
    → decode c raw w e f ≡ check_payload p w e f
unfolding decode
decode_lem c [] w e f p h hr = absurd (hr refl)
decode_lem c (r ∷ rs) w e f p h hr = rw (h, decode) refl

append_nonempty : (xs ys : List ℕ) (y : ℕ) → ¬ (xs ++ y ∷ ys ≡ [])
append_nonempty [] ys y h = absurd (cc h)
append_nonempty (x ∷ xs) ys y h = absurd (cc h)

-- Where JSON reads the payload back that it wrote (its texts are valid UTF-8), the gateway reads
-- the position back that it wrote, when the wallet, the epoch and the filter are those of the
-- writing.
pub decode-encode :
    (c : Codec) (wallet_id epoch filter : List ℕ) (position : ℕ)
    → IsCodec c
    → (let p : CursorPayload = record {
      version = 2;
      wallet_id = wallet_id;
      epoch = epoch;
      filter = filter;
      position = position;
    } in
        c.unmarshal (c.marshal p) ≡ some p)
    → decode c (encode c wallet_id epoch filter position) wallet_id epoch filter
      ≡ at_position position
unfolding encode check_payload
decode-encode c w e f n hc hu =
    decode_lem c (encode c w e f n) w e f _ (signed_payload-written c _ hc hu)
      (append_nonempty _ _ _)
    ∙ rw (bytes_eq_refl w, bytes_eq_refl e, bytes_eq_refl f) refl

-- A cursor names a wallet, an epoch and a filter: `p` is what it was signed for.
pub record IsSignedFor (c : Codec) (raw wallet_id epoch filter : List ℕ) (position : ℕ)
    : Type 0 where
  pub before : List ℕ
  pub behind : List ℕ
  pub text : List ℕ
  pub payload : CursorPayload
  pub parts_eq : cursor_parts raw ≡ some (before, behind)
  pub text_eq : c.unb64 before ≡ some text
  pub mac_eq : c.unb64 behind ≡ some (c.mac text)
  pub payload_eq : c.unmarshal text ≡ some payload
  pub wallet_eq : payload.wallet_id ≡ wallet_id
  pub version_eq : payload.version ≡ 2
  pub epoch_eq : payload.epoch ≡ epoch
  pub filter_eq : payload.filter ≡ filter
  pub position_eq : payload.position ≡ position

check_payload_sound :
    (p : CursorPayload) (w e f : List ℕ) (n : ℕ)
    → check_payload p w e f ≡ at_position n
    → (p.wallet_id ≡ w) × (p.version ≡ 2) × (p.epoch ≡ e) × (p.filter ≡ f) × (p.position ≡ n)
unfolding check_payload
check_payload_sound p w e f n h =
    let hw : bytes_eq p.wallet_id w ≡ true = ground (arith, h) in
    let hv : p.version ≡ 2 = ground (arith, h) in
    let he : bytes_eq p.epoch e ≡ true = ground (arith, h) in
    let hf : bytes_eq p.filter f ≡ true = ground (arith, h) in
    (
      bytes_eq_sound p.wallet_id w hw,
      hv,
      bytes_eq_sound p.epoch e he,
      bytes_eq_sound p.filter f hf,
      ground (arith, h),
    )

-- The position of a cursor that is not empty is one that was signed with the codec's key, for this
-- wallet, this epoch and this filter.
pub decode_sound :
    (c : Codec) (r : ℕ) (rs wallet_id epoch filter : List ℕ) (position : ℕ)
    → decode c (r ∷ rs) wallet_id epoch filter ≡ at_position position
    → IsSignedFor c (r ∷ rs) wallet_id epoch filter position
unfolding decode signed_payload
decode_sound c r rs w e f n h = elim (Option-cases (cursor_parts (r ∷ rs))) [
  | inl a ↦ absurd (ground (arith, h, a))
  | inr (parts, a) ↦ elim (Option-cases (c.unb64 parts.0)) [
    | inl b ↦ absurd (ground (arith, h, a, b))
    | inr (text, b) ↦ elim (Option-cases (c.unb64 parts.1)) [
      | inl d ↦ absurd (ground (arith, h, a, b, d))
      | inr (tag, d) ↦ elim (Bool-cases (bytes_eq tag (c.mac text))) [
        | inr m ↦ absurd (ground (arith, h, a, b, d, m))
        | inl m ↦ elim (Option-cases (c.unmarshal text)) [
          | inl u ↦ absurd (ground (arith, h, a, b, d, m, u))
          | inr (q, u) ↦
              let k = check_payload_sound q w e f n (ground (arith, h, a, b, d, m, u)) in
              record {
                before = parts.0;
                behind = parts.1;
                text = text;
                payload = q;
                parts_eq = a;
                text_eq = b;
                mac_eq = d ∙ ap some (bytes_eq_sound tag (c.mac text) m);
                payload_eq = u;
                wallet_eq = k.0;
                version_eq = k.1;
                epoch_eq = k.2;
                filter_eq = k.3;
                position_eq = k.4;
              }
        ]
      ]
    ]
  ]
]
