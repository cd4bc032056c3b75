-- ===== src/Sequencer/Admission/Promises.antt =====
-- The receipts and the full-window responses of `Admission::submit` (crates/sequencer/src/admission.rs).
use lighter_integration.Base.{
  ℕ, ◌+◌, ◌≤◌, ◌≡◌, refl, Bool, true, false, Bytes, Hash32, bytes_eq_refl,
}
use mathlib.Core.Path.{subst}
use lighter_integration.Sequencer.Envelope.{end_inclusive, Envelope, commitment_hash}
use lighter_integration.Sequencer.Identity.{Primitives}
use lighter_integration.Sequencer.Records.{Receipt}
use lighter_integration.Sequencer.Records.Objects.{admitted, full_window, FullWindowResponse}
use lighter_integration.Sequencer.Admission.{
  Admission, member, is_consumed, buffer_or_default, get_tick,
}
use lighter_integration.Sequencer.Admission.Submit.{
  Submitted, submit, reject, reserve, full_answer, receipt_of,
}
use lighter_integration.Sequencer.Admission.Outcomes.{
  HasRoom, FullBefore, Admissible, Answered, refused, crashed, full, reserved,
}
use lighter_integration.Sequencer.Admission.Answers.{submit-Answered}

-- What a receipt promises, of the state before and the state after.
pub record Promised (primitives : Primitives) (st : Admission) (bytes : Bytes) (r : Receipt)
    (after : Admission) : Type 0 where
  pub commitment : r.h ≡ commitment_hash primitives st.params.epoch bytes
  pub room : HasRoom st r.bucket r.tick
  pub not_sealed : st.open_tick ≤ r.tick
  pub window_started : r.window.start ≤ st.open_tick
  pub in_window : r.tick ≤ end_inclusive r.window
  pub earliest : FullBefore st r.bucket r.tick
  pub was_fresh : is_consumed st r.ticket_id ≡ false
  pub now_consumed : is_consumed after r.ticket_id ≡ true

module _ (primitives : Primitives) (st : Admission) (bytes : Bytes) (stored : Bool) where
  transfer :
      (a r : FullWindowResponse)
      → full_window a ≡ full_window r
      → FullBefore st a.bucket (end_inclusive a.window + 1)
      → FullBefore st r.bucket (end_inclusive r.window + 1)
  transfer a r e f =
      let same : a ≡ r = cc e in
      subst (λ (x : FullWindowResponse). FullBefore st x.bucket (end_inclusive x.window + 1)) same f

  -- No false fullness: a full-window response comes only when every tick from the open one to the
  -- end of the window is full for the bucket, and it changes nothing.
  pub full_window_honest :
      (r : FullWindowResponse)
      → (submit primitives st bytes stored).1 ≡ full_window r
      → ((submit primitives st bytes stored).0 ≡ st)
        × FullBefore st r.bucket (end_inclusive r.window + 1)
  unfolding reserve reject full_answer
  full_window_honest r =
      from (submit primitives st bytes stored) (submit-Answered primitives st bytes stored)
    where
      from :
          (result : Submitted)
          → Answered primitives st bytes stored result
          → result.1 ≡ full_window r
          → (result.0 ≡ st) × FullBefore st r.bucket (end_inclusive r.window + 1)
      from _ (refused h bucket window reason put hh why) e = absurd (cc e)
      from _ (crashed why) e = absurd (cc e)
      from _ (full h env hh d ad f) e = (refl, transfer _ r e f)
      from _ (reserved h env t hh d ad b room low high before) e = absurd (cc e)

  reserve-Promised :
      (h : Hash32) (env : Envelope) (t : ℕ)
      → h ≡ commitment_hash primitives st.params.epoch bytes
      → Admissible primitives st h env
      → HasRoom st env.bucket t
      → st.open_tick ≤ t
      → t ≤ end_inclusive env.window
      → FullBefore st env.bucket t
      → Promised primitives st bytes
          (receipt_of primitives st t (buffer_or_default (get_tick t st.ticks)) h env)
          (reserve primitives st t h env bytes).0
  unfolding reserve receipt_of is_consumed member
  reserve-Promised h env t hh ad room low high before = record {
    commitment = hh;
    room = room;
    not_sealed = low;
    window_started = ad.started;
    in_window = high;
    earliest = before;
    was_fresh = ad.fresh_ticket;
    now_consumed = rw (bytes_eq_refl env.ticket.id) refl;
  }

  -- A receipt is for the commitment of the submitted bytes and the first tick with room, not before
  -- the open tick, in a window that has started by the open tick and has not ended before that tick;
  -- its ticket was not consumed before, and is now.
  pub submit-Promised :
      (r : Receipt)
      → (submit primitives st bytes stored).1 ≡ admitted r
      → Promised primitives st bytes r (submit primitives st bytes stored).0
  unfolding reserve reject full_answer
  submit-Promised r =
      from (submit primitives st bytes stored) (submit-Answered primitives st bytes stored)
    where
      from :
          (result : Submitted)
          → Answered primitives st bytes stored result
          → result.1 ≡ admitted r
          → Promised primitives st bytes r result.0
      from _ (refused h bucket window reason put hh why) e = absurd (cc e)
      from _ (crashed why) e = absurd (cc e)
      from _ (full h env hh d ad f) e = absurd (cc e)
      from _ (reserved h env t hh d ad b room low high before) e =
          subst (λ x. Promised primitives st bytes x (reserve primitives st t h env bytes).0) (cc e)
            (reserve-Promised h env t hh ad room low high before)
