-- ===== src/Sequencer/Envelope/RoundTrip.antt =====
-- `Envelope::encode` and `Envelope::decode` (crates/sequencer/src/envelope.rs) against each other.
use lighter_integration.Base.{
  ℕ, ◌+◌, ◌-◌, ◌^◌, ◌<◌, ◌≤◌, ◌≡◌, ◌≢◌, refl, ap, ◌∙◌, sym, Bytes, bytes_eq, List, [], ◌∷◌, length,
  arith, Result, ok, guarded-eq-ok, ltb, some, replicate, false, ◌==◌, ◌!=◌,
}
use mathlib.Core.List.{append_assoc, append-nil}
use lighter_integration.Plugin.Canonical.{to_be_bytes}
use lighter_integration.Plugin.Canonical.Reading.{length-to_be_bytes}
use lighter_integration.Sequencer.Identity.{Primitives}
use lighter_integration.Sequencer.Envelope.{
  Envelope, EnvelopeError, bad_field, wrong_size, Bucket, header_prefix, bucket_code, from_u8,
  majors, long_tail, encode, envelope_magic, envelope_version, body_offset, u_max,
}
use lighter_integration.Sequencer.Envelope.Decode.{any_nonzero, decode}
use lighter_integration.Sequencer.Envelope.Layout.{
  laid_one, length-replicate, zeros_pass, drop-laid, length-laid, laid, offset, field, slice-laid,
  number_at-laid, byte_at-laid,
}

-- What the types of the fields bound: integers that fit, arrays of one length. The two delay classes
-- agree, since one byte carries both.
pub record Sized (e : Envelope) : Type 0 where
  pub namespace_small : e.namespace < 2 ^ 64
  pub start_small : e.window.start < 2 ^ 64
  pub len_small : e.window.len < 2 ^ 16
  pub nonce_length : length e.nonce ≡ 16
  pub id_length : length e.ticket.id ≡ 16
  pub sig_length : length e.ticket.issuer_sig ≡ 65
  pub one_class : e.ciphertext.class ≡ e.delay_class

-- The fields of an encoded envelope.
abbrev fields : Envelope → Bytes → Bytes → List Bytes
fields e u pad =
    envelope_magic
    ∷ (envelope_version ∷ [])
    ∷ (bucket_code e.bucket ∷ [])
    ∷ to_be_bytes 8 e.namespace
    ∷ to_be_bytes 8 e.window.start
    ∷ to_be_bytes 2 e.window.len
    ∷ (e.delay_class ∷ [])
    ∷ e.nonce
    ∷ e.ticket.id
    ∷ (e.ticket.denomination ∷ [])
    ∷ (bucket_code e.ticket.bucket ∷ [])
    ∷ e.ticket.issuer_sig
    ∷ to_be_bytes 2 (length u)
    ∷ replicate (u_max - length u) 0
    ∷ u
    ∷ to_be_bytes 2 (length e.ciphertext.body)
    ∷ e.ciphertext.body
    ∷ pad
    ∷ []

from_u8-bucket_code : (b : Bucket) → from_u8 (bucket_code b) ≡ some b
unfolding from_u8 bucket_code
from_u8-bucket_code majors = refl
from_u8-bucket_code long_tail = refl

ok-injective : {a b : Bytes} → ◌≡◌ {A = Result EnvelopeError Bytes} (ok a) (ok b) → a ≡ b
ok-injective e = cc

module _ (primitives : Primitives) where
  open primitives use {biguint_to_bytes_be, biguint_from_bytes_be}

  encode-laid :
      (e : Envelope) (size : ℕ) {bytes : Bytes}
      → encode primitives e size ≡ ok bytes
      → (length (biguint_to_bytes_be e.ciphertext.u) ≤ u_max)
        × (body_offset + length e.ciphertext.body ≤ size)
        × (length e.ciphertext.body ≤ 65535)
        × (bytes
            ≡ laid (
                fields e
                  (biguint_to_bytes_be e.ciphertext.u)
                  (replicate (size - (body_offset + length e.ciphertext.body)) 0)))
  unfolding encode header_prefix laid
  encode-laid e size h =
      let u = biguint_to_bytes_be e.ciphertext.u in
      let body = e.ciphertext.body in
      let (passes, same) =
        guarded-eq-ok
          ((ltb u_max (length u), bad_field)
            ∷ (ltb size (body_offset + length body), wrong_size)
            ∷ (ltb 65535 (length body), wrong_size)
            ∷ [])
          _ h in
      let (short, (room, (fits, ok_all))) = passes in
      let bytes_are = ok-injective same in
      (ground arith, ground arith, ground arith, sym bytes_are ∙ simp (append_assoc, append-nil))

  module _ (e : Envelope) (sized : Sized e) (u pad : Bytes) (short : length u ≤ 256) where
    offsets :
        (3 ≡ offset 2 (fields e u pad))
        × (56 ≡ offset 10 (fields e u pad))
        × (4 ≡ offset 3 (fields e u pad))
        × (12 ≡ offset 4 (fields e u pad))
        × (20 ≡ offset 5 (fields e u pad))
        × (22 ≡ offset 6 (fields e u pad))
        × (23 ≡ offset 7 (fields e u pad))
        × (39 ≡ offset 8 (fields e u pad))
        × (55 ≡ offset 9 (fields e u pad))
        × (57 ≡ offset 11 (fields e u pad))
        × (122 ≡ offset 12 (fields e u pad))
        × (124 + (256 - length u) ≡ offset 14 (fields e u pad))
        × (380 ≡ offset 15 (fields e u pad))
        × (382 ≡ offset 16 (fields e u pad))
        × (382 + length e.ciphertext.body ≡ offset 17 (fields e u pad))
        × (382 + length e.ciphertext.body + length pad ≡ offset 18 (fields e u pad))
    unfolding offset
    offsets =
        let namespace = length-to_be_bytes 8 e.namespace in
        let start = length-to_be_bytes 8 e.window.start in
        let len = length-to_be_bytes 2 e.window.len in
        let u_len = length-to_be_bytes 2 (length u) in
        let body_len = length-to_be_bytes 2 (length e.ciphertext.body) in
        let before_u = length-replicate (256 - length u) 0 in
        let nonce = sized.nonce_length in
        let id = sized.id_length in
        let issuer_sig = sized.sig_length in
        (
          refl,
          omega arith,
          omega arith,
          omega arith,
          omega arith,
          omega arith,
          omega arith,
          omega arith,
          omega arith,
          omega arith,
          omega arith,
          omega arith,
          omega arith,
          omega arith,
          omega arith,
          omega arith,
        )

    module _ (size : ℕ) (some_window : e.window.len ≢ 0) (fits : length e.ciphertext.body ≤ 65535)
        (zeros : any_nonzero pad ≡ false)
        (total : size ≡ 382 + length e.ciphertext.body + length pad) where
      decode-laid :
          biguint_from_bytes_be u ≡ e.ciphertext.u
          → decode primitives (laid (fields e u pad)) size ≡ ok e
      unfolding decode offset field bytes_eq
      decode-laid recovers =
          let ps = fields e u pad in
          let (o2, o10, o3, o4, o5, o6, o7, o8, o9, o11, o12, o14, o15, o16, o17, o18) = offsets in
          let exact : (length (laid ps) != size) ≡ false = ground (arith, length-laid ps) in
          let windowed : (e.window.len == 0) ≡ false = ground arith in
          let small_u : ltb u_max (length u) ≡ false = ground arith in
          let room : ltb size (body_offset + length e.ciphertext.body) ≡ false = ground arith in
          rw
            (
              exact,
              slice-laid 0 ps 0 2 refl refl,
              byte_at-laid 1 ps 2 envelope_version refl refl,
              byte_at-laid 2 ps 3 (bucket_code e.bucket) o2 refl,
              from_u8-bucket_code e.bucket,
              byte_at-laid 10 ps 56 (bucket_code e.ticket.bucket) o10 refl,
              from_u8-bucket_code e.ticket.bucket,
              number_at-laid 3 ps 4 12 8 e.namespace sized.namespace_small o3 refl refl,
              number_at-laid 4 ps 12 20 8 e.window.start sized.start_small o4 refl refl,
              number_at-laid 5 ps 20 22 2 e.window.len sized.len_small o5 refl refl,
              windowed,
              byte_at-laid 6 ps 22 e.delay_class o6 refl,
              slice-laid 7 ps 23 39 o7 (omega (arith, sized.nonce_length)),
              slice-laid 8 ps 39 55 o8 (omega (arith, sized.id_length)),
              byte_at-laid 9 ps 55 e.ticket.denomination o9 refl,
              slice-laid 11 ps 57 122 o11 (omega (arith, sized.sig_length)),
              number_at-laid 12 ps 122 124 2 (length u) (omega arith) o12 refl refl,
              small_u,
              slice-laid 14 ps (124 + (256 - length u)) 380 o14 (omega arith),
              number_at-laid 15 ps 380 382 2 (length e.ciphertext.body) (omega arith) o15 refl refl,
              room,
              slice-laid 16 ps 382 (382 + length e.ciphertext.body) o16 refl,
              drop-laid 17 ps (382 + length e.ciphertext.body) o17,
              laid_one pad,
              zeros,
              recovers,
            )
            (ap
              (λ (c : ℕ). ok (record {
                bucket = e.bucket;
                namespace = e.namespace;
                window = e.window;
                delay_class = e.delay_class;
                nonce = e.nonce;
                ticket = e.ticket;
                ciphertext = record { class = c; u = e.ciphertext.u; body = e.ciphertext.body };
              }))
              (sym sized.one_class))

  -- Decode gives back every envelope that encode accepted for a size, if its integers fit their
  -- types, its arrays have their lengths, the delay class of the ciphertext is that of the envelope,
  -- the window is not empty, and the byte form of big integers is read back as the same integer.
  pub decode-encode :
      (e : Envelope) (size : ℕ) {bytes : Bytes}
      → ((n : ℕ) → biguint_from_bytes_be (biguint_to_bytes_be n) ≡ n)
      → Sized e
      → e.window.len ≢ 0
      → encode primitives e size ≡ ok bytes
      → decode primitives bytes size ≡ ok e
  decode-encode e size recovers sized some_window encoded =
      let body = e.ciphertext.body in
      let rest = size - (body_offset + length body) in
      let (short, room, fits, laid_out) = encode-laid e size encoded in
      rw laid_out (
        decode-laid e sized (biguint_to_bytes_be e.ciphertext.u) (replicate rest 0) short size
          some_window fits (zeros_pass rest) (omega (arith, length-replicate rest 0))
          (recovers e.ciphertext.u))
