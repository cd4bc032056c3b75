-- ===== src/Sequencer/Admission/Signed.antt =====
-- The answers of `Admission::submit` (crates/sequencer/src/admission.rs) and the verifiers of
-- crates/sequencer/src/records.rs.
use lighter_integration.Base.{ℕ, ◌≡◌, Bool, true, Bytes, Hash32, bytes_eq_refl}
use lighter_integration.Sequencer.Envelope.{Bucket, Window, Envelope}
use lighter_integration.Sequencer.Identity.{Primitives, Address, Recovers, address}
use lighter_integration.Sequencer.Identity.Signing.{verify_signed-sign}
use lighter_integration.Sequencer.Records.{receipt_verify, receipt_message}
use lighter_integration.Sequencer.Records.Objects.{
  AdmissionOutcome, admitted, full_window, rejected, panicked, RejectReason, rejection_verify,
  full_window_verify,
}
use lighter_integration.Sequencer.Admission.{Admission, TickBuffer, buffer_or_default, get_tick}
use lighter_integration.Sequencer.Admission.Submit.{
  Submitted, submit, reject, reserve, full_answer, receipt_of,
}
use lighter_integration.Sequencer.Admission.Outcomes.{Answered, refused, crashed, full, reserved}
use lighter_integration.Sequencer.Admission.Answers.{submit-Answered}

module _ (primitives : Primitives) where
  -- A signed answer verifies; a panic is none.
  abbrev pub Verifies : AdmissionOutcome → Address → Type 0
  Verifies (admitted r) sequencer = receipt_verify primitives r sequencer ≡ true
  Verifies (rejected r) sequencer = rejection_verify primitives r sequencer ≡ true
  Verifies (full_window r) sequencer = full_window_verify primitives r sequencer ≡ true
  Verifies panicked sequencer = Unit

  module _ (law : Recovers primitives) (st : Admission) where
    receipt_of-verifies :
        (t : ℕ) (buffer : TickBuffer) (h : Hash32) (env : Envelope)
        → receipt_verify primitives
            (receipt_of primitives st t buffer h env)
            (address primitives st.identity)
          ≡ true
    unfolding receipt_verify receipt_of receipt_message
    receipt_of-verifies t buffer h env =
        rw (bytes_eq_refl _) (verify_signed-sign primitives law st.identity _)

    reject-Verifies :
        (h : Hash32) (bucket : Bucket) (window : Window) (reason : RejectReason)
        → Verifies (reject primitives st h bucket window reason) (address primitives st.identity)
    unfolding reject rejection_verify
    reject-Verifies h bucket window reason = verify_signed-sign primitives law st.identity _

    full_answer-Verifies :
        (bucket : Bucket) (window : Window)
        → Verifies (full_answer primitives st bucket window) (address primitives st.identity)
    unfolding full_answer full_window_verify
    full_answer-Verifies bucket window = verify_signed-sign primitives law st.identity _

    -- Under the laws of ECDSA, every receipt, rejection and full-window response that submit gives
    -- verifies at the address of the sequencer's key.
    pub submit-Verifies :
        (bytes : Bytes) (stored : Bool)
        → Verifies (submit primitives st bytes stored).1 (address primitives st.identity)
    unfolding reserve
    submit-Verifies bytes stored =
        from (submit primitives st bytes stored) (submit-Answered primitives st bytes stored)
      where
        from :
            (result : Submitted)
            → Answered primitives st bytes stored result
            → Verifies result.1 (address primitives st.identity)
        from _ (refused h bucket window reason put hh why) = reject-Verifies h bucket window reason
        from _ (crashed why) = tt
        from _ (full h env hh d ad f) = full_answer-Verifies env.bucket env.window
        from _ (reserved h env t hh d ad b room low high before) =
            receipt_of-verifies t (buffer_or_default (get_tick t st.ticks)) h env
