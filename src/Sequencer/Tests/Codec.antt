-- ===== src/Sequencer/Tests/Codec.antt =====
-- The codec of envelopes (crates/sequencer/src/envelope.rs) at one envelope.
use lighter_integration.Base.{Bytes, ◌≡◌, refl, [], ◌∷◌, ◌++◌, ok, length, replicate, arith}
use lighter_integration.Plugin.Canonical.{to_be_bytes}
use lighter_integration.Sequencer.Identity.{Primitives}
use lighter_integration.Sequencer.Envelope.{Envelope, encode, envelope_magic, envelope_version}
use lighter_integration.Sequencer.Envelope.Decode.{decode}
use lighter_integration.Sequencer.Envelope.Layout.{length-replicate}
use lighter_integration.Sequencer.Envelope.RoundTrip.{Sized, decode-encode}
use lighter_integration.Sequencer.Tests.{constant, envelope}

-- Integers as that many bytes.
abbrev unary : Primitives
unary = record constant {
  biguint_to_bytes_be = λ n. replicate n 1;
  biguint_from_bytes_be = λ b. length b;
}

abbrev sealed : Envelope
sealed = record envelope { ciphertext = record { class = 0; u = 3; body = 7 ∷ 7 ∷ [] } }

sealed-Sized : Sized sealed
sealed-Sized = record {
  namespace_small = omega arith;
  start_small = omega arith;
  len_small = omega arith;
  nonce_length = refl;
  id_length = refl;
  sig_length = refl;
  one_class = refl;
}

abbrev sent : Bytes
sent =
    envelope_magic
    ++ (envelope_version ∷ 0 ∷ replicate 7 0 ++ 1 ∷ [])
    ++ (replicate 7 0 ++ 1 ∷ 0 ∷ 4 ∷ 0 ∷ [])
    ++ replicate 16 3
    ++ replicate 16 8
    ++ (0 ∷ 0 ∷ [])
    ++ replicate 64 1
    ++ (27 ∷ 0 ∷ 3 ∷ [])
    ++ replicate 253 0
    ++ (1 ∷ 1 ∷ 1 ∷ 0 ∷ 2 ∷ 7 ∷ 7 ∷ [])

encodes_sealed : encode unary sealed 384 ≡ ok sent
unfolding encode to_be_bytes
encodes_sealed = refl

decode-encode_example : decode unary sent 384 ≡ ok sealed
decode-encode_example =
    decode-encode unary sealed 384 (λ n. length-replicate n 1) sealed-Sized
      (λ e. absurd (omega arith)) encodes_sealed
