-- ===== src/Sequencer/Envelope/Decode.antt =====
-- `Envelope::decode` (crates/sequencer/src/envelope.rs). A slice or an index out of range panics.
use lighter_integration.Base.{
  ℕ, ◌+◌, ◌-◌, Bool, not, Bytes, bytes_eq, [], ◌∷◌, take, drop, get_elem?, length, replicate, ltb,
  ◌==◌, ◌!=◌, Result, ok, err, guarded, ok_or, ◌>>=◌, ◌>>◌, if◌then◌else◌,
}
use lighter_integration.Plugin.Binding.{from_be_bytes}
use lighter_integration.Sequencer.Identity.{Primitives}
use lighter_integration.Sequencer.Envelope.{
  Envelope, EnvelopeError, wrong_size, bad_magic, bad_version, bad_bucket, bad_field, panicked,
  envelope_magic, envelope_version, u_max, body_offset, from_u8,
}

-- `bytes[from..to]`
unfoldable pub slice : Bytes → ℕ → ℕ → Result EnvelopeError Bytes
slice bytes from to =
    if ltb (length bytes) to then err panicked else ok (take (to - from) (drop from bytes))

-- `bytes[i]`
unfoldable pub byte_at : Bytes → ℕ → Result EnvelopeError ℕ
byte_at bytes i = ok_or (get_elem? bytes i) panicked

-- `uN::from_be_bytes(bytes[from..to])`
unfoldable pub number_at : Bytes → ℕ → ℕ → Result EnvelopeError ℕ
unfolding slice from_be_bytes
number_at bytes from to = slice bytes from to >>= λ b. ok (from_be_bytes 0 b)

-- `iter().any(|&b| b != 0)`
unfoldable pub any_nonzero : Bytes → Bool
any_nonzero bytes = not (bytes_eq bytes (replicate (length bytes) 0))

module _ (primitives : Primitives) where
  open primitives use {biguint_from_bytes_be}

  unfoldable pub decode : Bytes → ℕ → Result EnvelopeError Envelope
  unfolding slice byte_at number_at any_nonzero from_u8
  decode bytes expected_size = do
    guarded ((length bytes != expected_size, wrong_size) ∷ []) (ok (tt {0}))
    magic ← slice bytes 0 2
    guarded ((not (bytes_eq magic envelope_magic), bad_magic) ∷ []) (ok (tt {0}))
    version ← byte_at bytes 2
    guarded ((version != envelope_version, bad_version) ∷ []) (ok (tt {0}))
    bucket_byte ← byte_at bytes 3
    bucket ← ok_or (from_u8 bucket_byte) bad_bucket
    ticket_bucket_byte ← byte_at bytes 56
    ticket_bucket ← ok_or (from_u8 ticket_bucket_byte) bad_bucket
    namespace ← number_at bytes 4 12
    start ← number_at bytes 12 20
    len ← number_at bytes 20 22
    guarded ((len == 0, bad_field) ∷ []) (ok (tt {0}))
    delay_class ← byte_at bytes 22
    nonce ← slice bytes 23 39
    id ← slice bytes 39 55
    denomination ← byte_at bytes 55
    issuer_sig ← slice bytes 57 122
    u_len ← number_at bytes 122 124
    guarded ((ltb u_max u_len, bad_field) ∷ []) (ok (tt {0}))
    u ← slice bytes (124 + (u_max - u_len)) (124 + u_max)
    body_len ← number_at bytes 380 382
    guarded ((ltb expected_size (body_offset + body_len), bad_field) ∷ []) (ok (tt {0}))
    body ← slice bytes body_offset (body_offset + body_len)
    guarded ((any_nonzero (drop (body_offset + body_len) bytes), bad_field) ∷ []) (ok (tt {0}))
    ok (record {
      bucket = bucket;
      namespace = namespace;
      window = record { start = start; len = len };
      delay_class = delay_class;
      nonce = nonce;
      ticket = record {
        id = id;
        denomination = denomination;
        bucket = ticket_bucket;
        issuer_sig = issuer_sig;
      };
      ciphertext = record { class = delay_class; u = biguint_from_bytes_be u; body = body };
    })
