-- ===== src/Sequencer/Admission/Submit.antt =====
-- `Admission::submit` (crates/sequencer/src/admission.rs), stage by stage. `stored` says whether the
-- data-availability store takes the envelope; what it was called with is part of the result.
use lighter_integration.Base.{
  ℕ, zero, suc, ◌+◌, ◌-◌, ◌%◌, ◌^◌, Bool, true, false, ◌||◌, not, Bytes, Hash32, List, [], ◌∷◌,
  ◌++◌, Option, none, some, ltb, leb, ◌==◌, ◌!=◌, if◌then◌else◌, length, Result, ok, err, guarded,
}
use lighter_integration.Sequencer.Params.{delay_ticks}
use lighter_integration.Sequencer.Identity.{Primitives, sign}
use lighter_integration.Sequencer.Envelope.{
  Bucket, majors, bucket_code, Window, end_inclusive, Envelope, EnvelopeError, commitment_hash,
  ticket_verify,
}
use lighter_integration.Sequencer.Envelope
use lighter_integration.Sequencer.Envelope.Decode.{decode}
use lighter_integration.Sequencer.Records.{
  Receipt, digest_genesis, digest_step, receipt_signing_message,
}
use lighter_integration.Sequencer.Records.Objects.{
  RejectReason, malformed, wrong_size, bad_ticket, ticket_consumed, duplicate, window_not_open,
  window_expired, bad_delay_class, fenced, AdmissionOutcome, admitted, rejected, full_window,
  panicked, rejection_message, full_window_message,
}
use lighter_integration.Sequencer.Admission.{
  TickBuffer, buffer_or_default, Admission, member, get_tick, put_tick,
}

-- A signed reason, or the panic of a division by zero.
pub data Refusal : Type 0 where
  refuse : RejectReason → Refusal
  panic : Refusal

-- `self.params.delay_ticks(class).is_none()`, and whether the call panics
abbrev pub is_absent : Option (Option ℕ) → Bool
is_absent (some none) = true
is_absent (some (some d)) = false
is_absent none = false

abbrev pub is_panic : Option (Option ℕ) → Bool
is_panic none = true
is_panic (some o) = false

-- `self.fence_until.is_some_and(|until| window.start <= until)`
abbrev pub is_fenced : Option ℕ → ℕ → Bool
is_fenced none start = false
is_fenced (some until) start = leb start until

-- The count of a bucket in the buffer of a tick.
unfoldable pub count_at : Admission → Bucket → ℕ → ℕ
unfolding get_tick bucket_code
count_at st bucket t = (buffer_or_default (get_tick t st.ticks)).bucket_counts (bucket_code bucket)

-- `(from..from + fuel).find(..)`
unfoldable pub earliest : Admission → Bucket → ℕ → ℕ → Option ℕ
unfolding count_at
earliest st bucket zero from = none
earliest st bucket (suc fuel) from =
    let rest = earliest st bucket fuel (from + 1) in
    if ltb (count_at st bucket from) st.params.capacity_per_tick_per_bucket then some from else rest

-- `(self.open_tick..=window.end_inclusive()).find(..)`
unfoldable pub target : Admission → Bucket → Window → Option ℕ
unfolding earliest end_inclusive
target st bucket window = earliest st bucket (end_inclusive window + 1 - st.open_tick) st.open_tick

-- `Window { start: 0, len: 1 }`
abbrev pub no_window : Window
no_window = record { start = 0; len = 1 }

-- The state, the answer, and the envelope that `put_envelope` was called with, if it was.
abbrev pub Submitted : Type 0
Submitted = Admission × AdmissionOutcome × Option (Hash32 × Bytes)

module _ (primitives : Primitives) where
  -- `Admission::reject`
  unfoldable pub reject : Admission → Hash32 → Bucket → Window → RejectReason → AdmissionOutcome
  unfolding rejection_message
  reject st h bucket window reason = rejected (record {
    epoch = st.params.epoch;
    h = h;
    bucket = bucket;
    window = window;
    reason = reason;
    c_latest = st.c_prev;
    sig =
        sign primitives st.identity
          (rejection_message st.params.epoch h bucket window reason st.c_prev);
  })

  unfoldable pub answer : Admission → Hash32 → Bucket → Window → Refusal → AdmissionOutcome
  unfolding reject
  answer st h bucket window (refuse reason) = reject st h bucket window reason
  answer st h bucket window panic = panicked

  -- the checks on a decoded envelope, in order
  unfoldable pub submit_checks : Admission → Hash32 → Envelope → List (Bool × Refusal)
  unfolding delay_ticks bucket_code ticket_verify end_inclusive member
  submit_checks st h env =
      (ltb st.params.window_ticks env.window.len, refuse malformed)
      ∷ (is_panic (delay_ticks st.params env.delay_class), panic)
      ∷ (is_absent (delay_ticks st.params env.delay_class), refuse bad_delay_class)
      ∷ (
        env.ticket.denomination != env.delay_class
            || bucket_code env.ticket.bucket != bucket_code env.bucket
            || not (ticket_verify primitives env.ticket st.ticket_issuer),
        refuse bad_ticket,
      )
      ∷ (is_fenced st.fence_until env.window.start, refuse fenced)
      ∷ (ltb st.open_tick env.window.start, refuse window_not_open)
      ∷ (ltb (end_inclusive env.window) st.open_tick, refuse window_expired)
      ∷ (member env.ticket.id st.consumed_tickets, refuse ticket_consumed)
      ∷ (member h st.seen_h, refuse duplicate)
      ∷ []

  unfoldable pub full_answer : Admission → Bucket → Window → AdmissionOutcome
  unfolding full_window_message
  full_answer st bucket window =
      let cap = st.params.capacity_per_tick_per_bucket in
      full_window (record {
        epoch = st.params.epoch;
        bucket = bucket;
        window = window;
        capacity = cap;
        c_latest = st.c_prev;
        sig =
            sign primitives st.identity
              (full_window_message st.params.epoch bucket window cap st.c_prev);
      })

  -- `buffer.d_last.unwrap_or_else(|| digest_genesis(epoch, t))`
  unfoldable pub last_digest : ℕ → ℕ → Option Hash32 → Hash32
  unfolding digest_genesis
  last_digest epoch t none = digest_genesis primitives epoch t
  last_digest epoch t (some d) = d

  -- the receipt of step 8
  unfoldable pub receipt_of : Admission → ℕ → TickBuffer → Hash32 → Envelope → Receipt
  unfolding last_digest digest_step receipt_signing_message
  receipt_of st t buffer h env =
      let d_prev = last_digest st.params.epoch t buffer.d_last in
      let d = digest_step primitives d_prev t buffer.next_pos h env.bucket env.ticket.id in
      record {
        epoch = st.params.epoch;
        tick = t;
        pos = buffer.next_pos;
        h = h;
        bucket = env.bucket;
        window = env.window;
        ticket_id = env.ticket.id;
        x_prev_hash = st.x_prev_hash;
        c_prev = st.c_prev;
        d_prev = d_prev;
        d = d;
        sig = sign primitives st.identity (
            receipt_signing_message primitives st.params.epoch t buffer.next_pos h env.bucket
              env.window env.ticket.id st.x_prev_hash st.c_prev d_prev d);
      }

  -- the buffer with the entry; its counters are `u32`
  unfoldable pub push_entry : TickBuffer → Receipt → Hash32 → Envelope → Bytes → TickBuffer
  unfolding bucket_code
  push_entry buffer receipt h env bytes = record {
    next_pos = (buffer.next_pos + 1) % 2 ^ 32;
    d_last = some receipt.d;
    bucket_counts = λ b.
        if b == bucket_code env.bucket
        then (buffer.bucket_counts b + 1) % 2 ^ 32
        else buffer.bucket_counts b;
    entries =
        buffer.entries
        ++ record {
          tick = receipt.tick;
          pos = receipt.pos;
          h = h;
          bucket = env.bucket;
          delay_class = env.delay_class;
          ticket_id = env.ticket.id;
          envelope = env;
          envelope_bytes = bytes;
          receipt = receipt;
        }
          ∷ [];
  }

  -- step 8
  unfoldable pub reserve : Admission → ℕ → Hash32 → Envelope → Bytes → Admission × AdmissionOutcome
  unfolding get_tick put_tick receipt_of push_entry
  reserve st t h env bytes =
      let buffer = buffer_or_default (get_tick t st.ticks) in
      let receipt = receipt_of st t buffer h env in
      (
        record st {
          ticks = put_tick t (push_entry buffer receipt h env bytes) st.ticks;
          consumed_tickets = env.ticket.id ∷ st.consumed_tickets;
          seen_h = h ∷ st.seen_h;
        },
        admitted receipt,
      )

  -- steps 6 to 8
  unfoldable pub place : Admission → Hash32 → Envelope → Bytes → Bool → Submitted
  unfolding target full_answer reserve reject
  place st h env bytes stored = elim (target st env.bucket env.window) [
    | none ↦ (st, full_answer st env.bucket env.window, none)
    | some t ↦
        if stored
        then ((reserve st t h env bytes).0, (reserve st t h env bytes).1, some (h, bytes))
        else (st, reject st h env.bucket env.window malformed, some (h, bytes))
  ]

  unfoldable pub submit_decoded :
      Admission → Hash32 → Result EnvelopeError Envelope → Bytes → Bool → Submitted
  unfolding submit_checks place answer reject
  submit_decoded st h (err Envelope.panicked) bytes stored = (st, panicked, none)
  submit_decoded st h (err e) bytes stored = (st, reject st h majors no_window malformed, none)
  submit_decoded st h (ok env) bytes stored =
      elim (guarded (submit_checks st h env) (ok (tt {0}))) [
        | err refusal ↦ (st, answer st h env.bucket env.window refusal, none)
        | ok u ↦ place st h env bytes stored
      ]

  unfoldable pub submit : Admission → Bytes → Bool → Submitted
  unfolding submit_decoded decode commitment_hash reject
  submit st bytes stored =
      let h = commitment_hash primitives st.params.epoch bytes in
      if length bytes != st.params.envelope_bytes
      then (st, reject st h majors no_window wrong_size, none)
      else submit_decoded st h (decode primitives bytes st.params.envelope_bytes) bytes stored
