-- ===== src/Sequencer/Records.antt =====
-- crates/sequencer/src/records.rs: the hash chains and the signed objects. Records/Merkle has the tree.
pub mod Merkle
pub mod Objects
use lighter_integration.Base.{
  ℕ, ◌-◌, Bool, Bytes, Hash32, bytes_eq, List, [], ◌∷◌, ◌++◌, length, replicate, codes, false,
  if◌then◌else◌,
}
use lighter_integration.Plugin.Canonical.{to_be_bytes}
use lighter_integration.Sequencer.Identity.{Primitives, Sig65, Address, verify_signed}
use lighter_integration.Sequencer.Envelope.{Bucket, bucket_code, Window}

-- Batch entry
pub record BatchEntry : Type 0 where
  pub tick : ℕ
  pub pos : ℕ
  pub h : Hash32
  pub bucket : Bucket
  pub ticket_id : Bytes
  pub receipt_sig : Sig65

pub record TickRecord : Type 0 where
  pub epoch : ℕ
  pub segment : ℕ
  pub tick : ℕ
  pub x : ℕ
  pub c_prev : Hash32
  pub c_t : Hash32
  pub batch_root : Hash32
  pub da_ref : Hash32
  pub sig : Sig65

pub record Receipt : Type 0 where
  pub epoch : ℕ
  pub tick : ℕ
  pub pos : ℕ
  pub h : Hash32
  pub bucket : Bucket
  pub window : Window
  pub ticket_id : Bytes
  pub x_prev_hash : Hash32
  pub c_prev : Hash32
  pub d_prev : Hash32
  pub d : Hash32
  pub sig : Sig65

-- `vdf::posq::SequentialProof`
pub record SequentialProof : Type 0 where
  pub y : ℕ
  pub pi : ℕ
  pub iterations : ℕ

pub record SegmentSeal : Type 0 where
  pub epoch : ℕ
  pub segment : ℕ
  pub entropy : Hash32
  pub y : ℕ
  pub x_end : ℕ
  pub proof : SequentialProof
  pub sig : Sig65

module _ (primitives : Primitives) where
  open primitives use {keccak256, biguint_to_bytes_be}

  unfoldable pub hash_group_element : ℕ → Hash32
  hash_group_element x =
      let bytes = biguint_to_bytes_be x in keccak256 (replicate (256 - length bytes) 0 ++ bytes)

  unfoldable pub log_genesis : ℕ → Hash32
  log_genesis epoch = keccak256 (codes "posq-log-genesis-v1" ++ to_be_bytes 8 epoch)

  unfoldable pub log_step : Hash32 → ℕ → Hash32 → Hash32 → Hash32
  log_step c_prev tick batch_root x_hash =
      keccak256 (codes "posq-log-v1" ++ c_prev ++ to_be_bytes 8 tick ++ batch_root ++ x_hash)

  unfoldable pub digest_genesis : ℕ → ℕ → Hash32
  digest_genesis epoch tick =
      keccak256 (codes "posq-digest-genesis-v1" ++ to_be_bytes 8 epoch ++ to_be_bytes 8 tick)

  unfoldable pub digest_step : Hash32 → ℕ → ℕ → Hash32 → Bucket → Bytes → Hash32
  unfolding bucket_code
  digest_step d_prev tick pos h bucket ticket_id = keccak256 (
      codes "posq-digest-v1"
      ++ d_prev
      ++ to_be_bytes 8 tick
      ++ to_be_bytes 4 pos
      ++ h
      ++ (bucket_code bucket ∷ [])
      ++ ticket_id)

  -- `BatchEntry::leaf`
  unfoldable pub leaf : BatchEntry → Hash32
  unfolding bucket_code
  leaf e = keccak256 (
      codes "posq-leaf-v1"
      ++ to_be_bytes 8 e.tick
      ++ to_be_bytes 4 e.pos
      ++ e.h
      ++ (bucket_code e.bucket ∷ [])
      ++ e.ticket_id
      ++ keccak256 e.receipt_sig)

  -- `TickRecord::signing_message`
  unfoldable pub tick_record_message :
      ℕ → ℕ → ℕ → Hash32 → Hash32 → Hash32 → Hash32 → Hash32 → Bytes
  tick_record_message epoch segment tick x_hash c_prev c_t batch_root da_ref =
      (1 ∷ codes "posq-tick-record-v1")
      ++ to_be_bytes 8 epoch
      ++ to_be_bytes 8 segment
      ++ to_be_bytes 8 tick
      ++ x_hash
      ++ c_prev
      ++ c_t
      ++ batch_root
      ++ da_ref

  -- `TickRecord::x_hash`
  unfoldable pub x_hash : TickRecord → Hash32
  unfolding hash_group_element
  x_hash r = hash_group_element r.x

  -- `TickRecord::message`
  unfoldable pub record_message : TickRecord → Bytes
  unfolding tick_record_message x_hash
  record_message r =
      tick_record_message r.epoch r.segment r.tick (x_hash r) r.c_prev r.c_t r.batch_root r.da_ref

  -- `TickRecord::verify`
  unfoldable pub record_verify : TickRecord → Address → Bool
  unfolding record_message
  record_verify r sequencer = verify_signed primitives (record_message r) r.sig sequencer

  -- `TickRecord::content_hash`
  unfoldable pub content_hash : TickRecord → Hash32
  unfolding record_message
  content_hash r = keccak256 (record_message r)

  -- `Receipt::signing_message`
  unfoldable pub receipt_signing_message :
      ℕ → ℕ → ℕ → Hash32 → Bucket → Window → Bytes → Hash32 → Hash32 → Hash32 → Hash32 → Bytes
  unfolding bucket_code
  receipt_signing_message epoch tick pos h bucket window ticket_id x_prev_hash c_prev d_prev d =
      (2 ∷ codes "posq-receipt-v1")
      ++ to_be_bytes 8 epoch
      ++ to_be_bytes 8 tick
      ++ to_be_bytes 4 pos
      ++ h
      ++ (bucket_code bucket ∷ [])
      ++ to_be_bytes 8 window.start
      ++ to_be_bytes 2 window.len
      ++ ticket_id
      ++ x_prev_hash
      ++ c_prev
      ++ d_prev
      ++ d

  -- `Receipt::message`
  unfoldable pub receipt_message : Receipt → Bytes
  unfolding receipt_signing_message
  receipt_message r =
      receipt_signing_message r.epoch r.tick r.pos r.h r.bucket r.window r.ticket_id r.x_prev_hash
        r.c_prev r.d_prev r.d

  -- `Receipt::verify`
  unfoldable pub receipt_verify : Receipt → Address → Bool
  unfolding digest_step receipt_message
  receipt_verify r sequencer =
      if bytes_eq (digest_step r.d_prev r.tick r.pos r.h r.bucket r.ticket_id) r.d
      then verify_signed primitives (receipt_message r) r.sig sequencer
      else false

  -- `SegmentSeal::signing_message`
  unfoldable pub segment_seal_message : ℕ → ℕ → Hash32 → Hash32 → Hash32 → Bytes
  segment_seal_message epoch segment entropy y_hash x_end_hash =
      (5 ∷ codes "posq-segment-seal-v1")
      ++ to_be_bytes 8 epoch
      ++ to_be_bytes 8 segment
      ++ entropy
      ++ y_hash
      ++ x_end_hash

  -- `SegmentSeal::message`
  unfoldable pub seal_message : SegmentSeal → Bytes
  unfolding segment_seal_message hash_group_element
  seal_message s =
      segment_seal_message s.epoch s.segment s.entropy (hash_group_element s.y)
        (hash_group_element s.x_end)

  -- `SegmentSeal::verify_sig`
  unfoldable pub seal_verify_sig : SegmentSeal → Address → Bool
  unfolding seal_message
  seal_verify_sig s sequencer = verify_signed primitives (seal_message s) s.sig sequencer
