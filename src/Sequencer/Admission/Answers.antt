-- ===== src/Sequencer/Admission/Answers.antt =====
-- The stages of `Admission::submit` (crates/sequencer/src/admission.rs) and the answers of
-- Admission/Outcomes.
use lighter_integration.Base.{
  ℕ, ◌≡◌, refl, Bool, true, false, Bytes, Hash32, Option, none, some, Result, ok, err, guarded,
  guarded-eq-ok, ◌!=◌, length, arith, if◌then◌else◌,
}
use lighter_integration.Sequencer.Envelope.{
  Bucket, majors, Window, end_inclusive, Envelope, EnvelopeError, commitment_hash,
}
use lighter_integration.Sequencer.Envelope
use lighter_integration.Sequencer.Envelope.Decode.{decode}
use lighter_integration.Sequencer.Identity.{Primitives}
use lighter_integration.Sequencer.Records.Objects.{malformed, wrong_size}
use lighter_integration.Sequencer.Admission.{Admission}
use lighter_integration.Sequencer.Admission.Causes.{Judged, submit_checks-Judged}
use lighter_integration.Sequencer.Admission.Submit.{
  target, reject, answer, full_answer, reserve, place, submit_checks, submit_decoded, submit,
  no_window, Refusal, refuse, panic,
}
use lighter_integration.Sequencer.Admission.Outcomes.{
  wrong_length, unreadable, blamed, unstored, bad_slice, no_rate, target-some, target_none,
  Admissible, Passes-Admissible, Answered, refused, crashed, full, reserved,
}

module _ (primitives : Primitives) (st : Admission) (bytes : Bytes) (stored : Bool) where
  abbrev HasSize : Type 0
  HasSize = length bytes ≡ st.params.envelope_bytes

  place-Answered :
      (h : Hash32) (env : Envelope)
      → h ≡ commitment_hash primitives st.params.epoch bytes
      → HasSize
      → decode primitives bytes st.params.envelope_bytes ≡ ok env
      → Admissible primitives st h env
      → Answered primitives st bytes stored (place primitives st h env bytes stored)
  unfolding place
  place-Answered h env hh size d ad = split (target st env.bucket env.window) refl stored refl
    where
      split :
          (o : Option ℕ)
          → target st env.bucket env.window ≡ o
          → (s : Bool) → stored ≡ s
          → Answered primitives st bytes stored (elim o [
            | none ↦ (st, full_answer primitives st env.bucket env.window, none)
            | some t ↦
                if s
                then (
                  (reserve primitives st t h env bytes).0,
                  (reserve primitives st t h env bytes).1,
                  some (h, bytes),
                )
                else (st, reject primitives st h env.bucket env.window malformed, some (h, bytes))
          ])
      split none e s b = full h env hh d ad (target_none st env.bucket env.window ad.unexpired e)
      split (some t) e true b =
          let (room, low, high, before) = target-some st env.bucket env.window t ad.unexpired e in
          reserved h env t hh d ad b room low high before
      split (some t) e false b =
          let (room, low, high, before) = target-some st env.bucket env.window t ad.unexpired e in
          refused h env.bucket env.window malformed (some (h, bytes)) hh
            (unstored env t size d ad.rules room low high b)

  answer-Answered :
      (h : Hash32) (env : Envelope) (r : Refusal)
      → h ≡ commitment_hash primitives st.params.epoch bytes
      → HasSize
      → decode primitives bytes st.params.envelope_bytes ≡ ok env
      → Judged primitives st h env r
      → Answered primitives st bytes stored
          (st, answer primitives st h env.bucket env.window r, none)
  unfolding answer
  answer-Answered h env (refuse reason) hh size d blame =
      refused h env.bucket env.window reason none hh (blamed env reason size d blame)
  answer-Answered h env panic hh size d (bounded, rate) = crashed (no_rate env size d bounded rate)

  submit_decoded-Answered :
      (h : Hash32) (d : Result EnvelopeError Envelope)
      → h ≡ commitment_hash primitives st.params.epoch bytes
      → HasSize
      → decode primitives bytes st.params.envelope_bytes ≡ d
      → Answered primitives st bytes stored (submit_decoded primitives st h d bytes stored)
  unfolding submit_decoded
  submit_decoded-Answered h (err Envelope.panicked) hh size e = crashed (bad_slice size e)
  submit_decoded-Answered h (err Envelope.wrong_size) hh size e =
      refused h majors no_window malformed none hh (unreadable _ size e (λ q. cc q))
  submit_decoded-Answered h (err Envelope.bad_magic) hh size e =
      refused h majors no_window malformed none hh (unreadable _ size e (λ q. cc q))
  submit_decoded-Answered h (err Envelope.bad_version) hh size e =
      refused h majors no_window malformed none hh (unreadable _ size e (λ q. cc q))
  submit_decoded-Answered h (err Envelope.bad_bucket) hh size e =
      refused h majors no_window malformed none hh (unreadable _ size e (λ q. cc q))
  submit_decoded-Answered h (err Envelope.bad_field) hh size e =
      refused h majors no_window malformed none hh (unreadable _ size e (λ q. cc q))
  submit_decoded-Answered h (ok env) hh size e =
      split (guarded (submit_checks primitives st h env) (ok (tt {0}))) refl
    where
      split :
          (r : Result Refusal (Unit {0}))
          → guarded (submit_checks primitives st h env) (ok (tt {0})) ≡ r
          → Answered primitives st bytes stored (elim r [
            | err refusal ↦ (st, answer primitives st h env.bucket env.window refusal, none)
            | ok u ↦ place primitives st h env bytes stored
          ])
      split (err refusal) p =
          answer-Answered h env refusal hh size e
            (submit_checks-Judged primitives st h env refusal p)
      split (ok u) p = place-Answered h env hh size e (
          Passes-Admissible primitives st h env
            (guarded-eq-ok (submit_checks primitives st h env) (ok (tt {0})) p).0)

  -- Submit refuses bytes of the wrong size, or that do not decode; it refuses a decoded envelope
  -- with the reason of the first rule that the envelope breaks, of window length, delay class,
  -- ticket, fence, window not open, window expired, ticket consumed and commitment seen; an envelope
  -- that breaks none finds every tick from the open one to the end of its window full for its
  -- bucket, or is given to the store for the first tick with room, and is reserved there if the
  -- store takes it and else refused as malformed; nothing else is given to the store, only a
  -- reservation changes the state, and submit panics only where decode does or at a delay that
  -- cannot be divided into ticks.
  pub submit-Answered : Answered primitives st bytes stored (submit primitives st bytes stored)
  unfolding submit
  submit-Answered = split (length bytes != st.params.envelope_bytes) refl
    where
      split :
          (wrong : Bool)
          → (length bytes != st.params.envelope_bytes) ≡ wrong
          → Answered primitives st bytes stored (
              if wrong
              then (
                st,
                reject primitives st
                    (commitment_hash primitives st.params.epoch bytes)
                    majors
                    no_window
                    wrong_size,
                none,
              )
              else submit_decoded primitives st
                  (commitment_hash primitives st.params.epoch bytes)
                  (decode primitives bytes st.params.envelope_bytes)
                  bytes
                  stored)
      split true e =
          refused _ majors no_window wrong_size none refl (wrong_length (ground (arith, e)))
      split false e = submit_decoded-Answered _ _ refl (ground (arith, e)) refl
