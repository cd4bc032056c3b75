-- ===== src/Sequencer/Envelope.antt =====
-- crates/sequencer/src/envelope.rs: envelopes, windows, fee tickets and intents.
pub mod Decode
pub mod Layout
pub mod RoundTrip
use lighter_integration.Base.{
  ℕ, ◌+◌, ◌-◌, ◌*◌, ◌^◌, Bool, true, false, ◌&&◌, not, Bytes, Hash32, bytes_eq, List, [], ◌∷◌, ◌++◌,
  Option, none, some, take, drop, length, replicate, ltb, leb, ◌==◌, ◌!=◌, if◌then◌else◌, codes,
  Result, ok, err, guarded, ok_or, ◌>>=◌, ◌>>◌, wrap,
}
use lighter_integration.Plugin.Canonical.{to_be_bytes}
use lighter_integration.Sequencer.Identity.{
  Primitives, Sig65, Address, sign, verify_signed, address,
}

abbrev pub envelope_magic : Bytes
envelope_magic = codes "PQ"

abbrev pub envelope_version : ℕ
envelope_version = 1

abbrev pub u_max : ℕ
u_max = 256

abbrev pub body_offset : ℕ
body_offset = 382

pub data Bucket : Type 0 where
  majors long_tail : Bucket

-- `bucket as u8`
unfoldable pub bucket_code : Bucket → ℕ
bucket_code majors = 0
bucket_code long_tail = 1

-- `Bucket::from_u8`
unfoldable pub from_u8 : ℕ → Option Bucket
from_u8 b = if b == 0 then some majors else if b == 1 then some long_tail else none

pub record Window : Type 0 where
  pub start : ℕ
  pub len : ℕ

-- `Window::contains`
unfoldable pub window_contains : Window → ℕ → Bool
window_contains w tick = leb w.start tick && ltb tick (wrap (w.start + w.len))

-- `self.start + self.len as u64 - 1` in `u64`: adding 2 ^ 64 - 1 takes one away.
unfoldable pub end_inclusive : Window → ℕ
end_inclusive w = wrap (wrap (w.start + w.len) + (2 ^ 64 - 1))

pub record Ticket : Type 0 where
  pub id : Bytes
  pub denomination : ℕ
  pub bucket : Bucket
  pub issuer_sig : Sig65

-- `Ticket::signing_message`
unfoldable pub ticket_message : Bytes → ℕ → Bucket → Bytes
unfolding bucket_code
ticket_message id denomination bucket =
    codes "posq-ticket-v1" ++ (id ++ denomination ∷ bucket_code bucket ∷ [])

module _ (primitives : Primitives) where
  -- `Ticket::issue`
  unfoldable pub issue : Bytes → Bytes → ℕ → Bucket → Ticket
  unfolding ticket_message
  issue issuer id denomination bucket = record {
    id = id;
    denomination = denomination;
    bucket = bucket;
    issuer_sig = sign primitives issuer (ticket_message id denomination bucket);
  }

  -- `Ticket::verify`
  unfoldable pub ticket_verify : Ticket → Address → Bool
  unfolding ticket_message
  ticket_verify t issuer_address =
      verify_signed primitives (ticket_message t.id t.denomination t.bucket) t.issuer_sig
        issuer_address

-- `vdf::tlk::Ciphertext`; `u` is a big integer.
pub record Ciphertext : Type 0 where
  pub class : ℕ
  pub u : ℕ
  pub body : Bytes

pub record Envelope : Type 0 where
  pub bucket : Bucket
  pub namespace : ℕ
  pub window : Window
  pub delay_class : ℕ
  pub nonce : Bytes
  pub ticket : Ticket
  pub ciphertext : Ciphertext

-- `panicked` is a slice out of range.
pub data EnvelopeError : Type 0 where
  wrong_size bad_magic bad_version bad_bucket bad_field panicked : EnvelopeError

-- The fields in the order of their offsets.
unfoldable pub header_prefix : Bucket → ℕ → Window → ℕ → Bytes → Bytes
unfolding bucket_code
header_prefix bucket namespace window delay_class nonce =
    envelope_magic
    ++ (envelope_version ∷ bucket_code bucket ∷ [])
    ++ to_be_bytes 8 namespace
    ++ to_be_bytes 8 window.start
    ++ to_be_bytes 2 window.len
    ++ (delay_class ∷ [])
    ++ nonce

module _ (primitives : Primitives) where
  open primitives use {keccak256, biguint_to_bytes_be, biguint_from_bytes_be}

  -- `Envelope::encode`: the bytes in the order of their offsets, zeros where nothing is written.
  unfoldable pub encode : Envelope → ℕ → Result EnvelopeError Bytes
  unfolding header_prefix bucket_code
  encode e size =
      let u_bytes = biguint_to_bytes_be e.ciphertext.u in
      let body = e.ciphertext.body in
      guarded
        ((ltb u_max (length u_bytes), bad_field)
          ∷ (ltb size (body_offset + length body), wrong_size)
          ∷ (ltb 65535 (length body), wrong_size)
          ∷ [])
        (ok (
          header_prefix e.bucket e.namespace e.window e.delay_class e.nonce
          ++ e.ticket.id
          ++ (e.ticket.denomination ∷ bucket_code e.ticket.bucket ∷ [])
          ++ e.ticket.issuer_sig
          ++ to_be_bytes 2 (length u_bytes)
          ++ replicate (u_max - length u_bytes) 0
          ++ u_bytes
          ++ to_be_bytes 2 (length body)
          ++ body
          ++ replicate (size - (body_offset + length body)) 0))

  -- `Envelope::commitment_hash`
  unfoldable pub commitment_hash : ℕ → Bytes → Hash32
  commitment_hash epoch envelope_bytes =
      keccak256 (codes "posq-commit-v1" ++ to_be_bytes 8 epoch ++ envelope_bytes)

-- The plaintext intent
pub record Intent : Type 0 where
  pub namespace : ℕ
  pub account : Address
  pub nonce : ℕ
  pub expiry_tick : ℕ
  pub payload : Bytes
  pub signature : Sig65

module _ (primitives : Primitives) where
  open primitives use {keccak256}

  -- `Intent::signing_message`
  unfoldable pub intent_message : ℕ → Address → ℕ → ℕ → Bytes → Bytes
  intent_message namespace account nonce expiry_tick payload =
      codes "posq-intent-v1"
      ++ to_be_bytes 8 namespace
      ++ account
      ++ to_be_bytes 8 nonce
      ++ to_be_bytes 8 expiry_tick
      ++ keccak256 payload

  -- `Intent::sign_new`
  unfoldable pub sign_new : Bytes → ℕ → ℕ → ℕ → Bytes → Intent
  unfolding intent_message
  sign_new signer namespace nonce expiry_tick payload =
      let account = address primitives signer in
      record {
        namespace = namespace;
        account = account;
        nonce = nonce;
        expiry_tick = expiry_tick;
        payload = payload;
        signature =
            sign primitives signer (intent_message namespace account nonce expiry_tick payload);
      }

  -- `Intent::verify`
  unfoldable pub intent_verify : Intent → Bool
  unfolding intent_message
  intent_verify i =
      verify_signed primitives
        (intent_message i.namespace i.account i.nonce i.expiry_tick i.payload) i.signature i.account
