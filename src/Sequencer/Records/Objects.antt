-- ===== src/Sequencer/Records/Objects.antt =====
-- crates/sequencer/src/records.rs: the signed answers to a submission.
use lighter_integration.Base.{ℕ, Bool, Bytes, Hash32, [], ◌∷◌, ◌++◌, codes}
use lighter_integration.Plugin.Canonical.{to_be_bytes}
use lighter_integration.Sequencer.Identity.{Primitives, Sig65, Address, verify_signed}
use lighter_integration.Sequencer.Envelope.{Bucket, bucket_code, Window}
use lighter_integration.Sequencer.Records.{Receipt}

pub data RejectReason : Type 0 where
  malformed wrong_size bad_ticket ticket_consumed duplicate window_not_open window_expired :
      RejectReason
  bad_delay_class fenced : RejectReason

-- `reason as u8`
unfoldable pub reason_code : RejectReason → ℕ
reason_code malformed = 1
reason_code wrong_size = 2
reason_code bad_ticket = 3
reason_code ticket_consumed = 4
reason_code duplicate = 5
reason_code window_not_open = 6
reason_code window_expired = 7
reason_code bad_delay_class = 8
reason_code fenced = 9

pub record SignedRejection : Type 0 where
  pub epoch : ℕ
  pub h : Hash32
  pub bucket : Bucket
  pub window : Window
  pub reason : RejectReason
  pub c_latest : Hash32
  pub sig : Sig65

pub record FullWindowResponse : Type 0 where
  pub epoch : ℕ
  pub bucket : Bucket
  pub window : Window
  pub capacity : ℕ
  pub c_latest : Hash32
  pub sig : Sig65

-- `panicked` is no answer: the code divides by zero, or reads out of range.
pub data AdmissionOutcome : Type 0 where
  admitted : Receipt → AdmissionOutcome
  rejected : SignedRejection → AdmissionOutcome
  full_window : FullWindowResponse → AdmissionOutcome
  panicked : AdmissionOutcome

-- `SignedRejection::message_of`
unfoldable pub rejection_message : ℕ → Hash32 → Bucket → Window → RejectReason → Hash32 → Bytes
unfolding bucket_code reason_code
rejection_message epoch h bucket window reason c_latest =
    (3 ∷ codes "posq-rejection-v1")
    ++ to_be_bytes 8 epoch
    ++ h
    ++ (bucket_code bucket ∷ [])
    ++ to_be_bytes 8 window.start
    ++ to_be_bytes 2 window.len
    ++ (reason_code reason ∷ [])
    ++ c_latest

-- `FullWindowResponse::message_of`
unfoldable pub full_window_message : ℕ → Bucket → Window → ℕ → Hash32 → Bytes
unfolding bucket_code
full_window_message epoch bucket window capacity c_latest =
    (4 ∷ codes "posq-full-window-v1")
    ++ to_be_bytes 8 epoch
    ++ (bucket_code bucket ∷ [])
    ++ to_be_bytes 8 window.start
    ++ to_be_bytes 2 window.len
    ++ to_be_bytes 4 capacity
    ++ c_latest

module _ (primitives : Primitives) where
  -- `SignedRejection::verify`
  unfoldable pub rejection_verify : SignedRejection → Address → Bool
  unfolding rejection_message
  rejection_verify r sequencer =
      verify_signed primitives (rejection_message r.epoch r.h r.bucket r.window r.reason r.c_latest)
        r.sig sequencer

  -- `FullWindowResponse::verify`
  unfoldable pub full_window_verify : FullWindowResponse → Address → Bool
  unfolding full_window_message
  full_window_verify r sequencer =
      verify_signed primitives (full_window_message r.epoch r.bucket r.window r.capacity r.c_latest)
        r.sig sequencer
