-- ===== src/Tests/Codec.antt =====
-- A codec that moves bytes up by 100, so that none is a dot.
use juno_exchange_gateway.Gateway.Cursor.RoundTrip.{IsCodec}
use juno_exchange_gateway.Gateway.Cursor.{CursorPayload, Codec}
use juno_exchange_gateway.Prelude.{
  List, Option, [], all, ap, arith, not, refl, some, true, ℕ, ◌+◌, ◌-◌, ◌==◌, ◌∷◌, ◌≡◌,
}

abbrev pub shifted : List ℕ → List ℕ
shifted [] = []
shifted (x ∷ xs) = (x + 100) ∷ shifted xs

abbrev pub shifted_back : List ℕ → List ℕ
shifted_back [] = []
shifted_back (x ∷ xs) = (x - 100) ∷ shifted_back xs

shifted_back-shifted : (xs : List ℕ) → shifted_back (shifted xs) ≡ xs
shifted_back-shifted [] = refl
shifted_back-shifted (x ∷ xs) =
    let i : x + 100 - 100 ≡ x = omega arith in cc (i, shifted_back-shifted xs)

shifted_no_dot : (xs : List ℕ) → all (λ x. not (x == b'.')) (shifted xs) ≡ true
shifted_no_dot [] = refl
shifted_no_dot (x ∷ xs) = ground (arith, shifted_no_dot xs)

shifted_nonempty : (xs : List ℕ) → shifted xs ≡ [] → xs ≡ []
shifted_nonempty [] h = refl
shifted_nonempty (x ∷ xs) h = absurd (cc h)

-- a codec that writes the position alone, and reads what `read` says
abbrev pub shifting_codec : (List ℕ → Option CursorPayload) → Codec
shifting_codec read = record {
  b64 = shifted;
  unb64 = λ xs. some (shifted_back xs);
  mac = λ xs. 1 ∷ xs;
  marshal = λ p. p.position ∷ [];
  unmarshal = read;
}

pub shifting_codec-IsCodec : (read : List ℕ → Option CursorPayload) → IsCodec (shifting_codec read)
shifting_codec-IsCodec read = record {
  reads_back = λ xs. ap some (shifted_back-shifted xs);
  no_dot = shifted_no_dot;
  nonempty = shifted_nonempty;
  object = λ p h. absurd (cc h);
  tag = λ xs h. absurd (cc h);
}
