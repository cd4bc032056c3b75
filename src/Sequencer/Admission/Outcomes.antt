-- ===== src/Sequencer/Admission/Outcomes.antt =====
-- The answers of `Admission::submit` (crates/sequencer/src/admission.rs), each with its conditions, and the
-- search for the tick.
use lighter_integration.Base.{
  ℕ, zero, suc, ◌+◌, ◌<◌, ◌≤◌, ◌≡◌, refl, Bool, true, false, Bytes, Hash32, Option, none, some, ◌⊎◌,
  inl, inr, ok, err, ◌≢◌, length, Passes, ltb, if◌then◌else◌, arith,
}
use native.Mathlib.Decide.{dec_lt}
use lighter_integration.Sequencer.Params.{delay_ticks}
use lighter_integration.Sequencer.Envelope.{
  Bucket, majors, Window, end_inclusive, Envelope, EnvelopeError, commitment_hash,
}
use lighter_integration.Sequencer.Envelope
use lighter_integration.Sequencer.Envelope.Decode.{decode}
use lighter_integration.Sequencer.Identity.{Primitives}
use lighter_integration.Sequencer.Records.Objects.{panicked, RejectReason, malformed, wrong_size}
use lighter_integration.Sequencer.Admission.{Admission, member}
use lighter_integration.Sequencer.Admission.Causes.{Bounded, Unseen, Blames, Passes-Unseen}
use lighter_integration.Sequencer.Admission.Submit.{
  Submitted, no_window, count_at, earliest, target, reject, full_answer, reserve, submit_checks,
  is_fenced,
}

-- The tick has room for the bucket.
abbrev pub HasRoom : Admission → Bucket → ℕ → Type 0
HasRoom st bucket t = count_at st bucket t < st.params.capacity_per_tick_per_bucket

-- All ticks from the open one up to `until`, without it, are full for the bucket.
abbrev pub FullBefore : Admission → Bucket → ℕ → Type 0
FullBefore st bucket until =
    (s : ℕ)
    → st.open_tick ≤ s
    → s < until
    → st.params.capacity_per_tick_per_bucket ≤ count_at st bucket s

earliest_step :
    (st : Admission) (bucket : Bucket) (fuel from : ℕ) (o : Option ℕ)
    → earliest st bucket (suc fuel) from ≡ o
    → (HasRoom st bucket from × (some from ≡ o))
      ⊎ ((st.params.capacity_per_tick_per_bucket ≤ count_at st bucket from)
          × (earliest st bucket fuel (from + 1) ≡ o))
unfolding earliest
earliest_step st bucket fuel from o h =
    split (ltb (count_at st bucket from) st.params.capacity_per_tick_per_bucket) refl h
  where
    split :
        (room : Bool)
        → ltb (count_at st bucket from) st.params.capacity_per_tick_per_bucket ≡ room
        → (if room then some from else earliest st bucket fuel (from + 1)) ≡ o
        → (HasRoom st bucket from × (some from ≡ o))
          ⊎ ((st.params.capacity_per_tick_per_bucket ≤ count_at st bucket from)
              × (earliest st bucket fuel (from + 1) ≡ o))
    split true e h = inl (ground arith, h)
    split false e h = inr (ground arith, h)

-- `earliest` finds the first tick with room.
earliest_some :
    (st : Admission) (bucket : Bucket) (fuel from t : ℕ)
    → earliest st bucket fuel from ≡ some t
    → HasRoom st bucket t
      × (from ≤ t)
      × (t < from + fuel)
      × ((s : ℕ) → from ≤ s → s < t → st.params.capacity_per_tick_per_bucket ≤ count_at st bucket s)
unfolding earliest
earliest_some st bucket zero from t h = cc
earliest_some st bucket (suc fuel) from t h = elim (earliest_step st bucket fuel from (some t) h) [
  | inl (room, e) ↦
      let same : from ≡ t = cc e in
      (
        ground (arith, same),
        omega (arith, same),
        omega (arith, same),
        λ s a b. absurd (omega (arith, same)),
      )
  | inr (full, rest) ↦
      let (room, low, high, before) = earliest_some st bucket fuel (from + 1) t rest in
      (
        room,
        omega arith,
        omega arith,
        λ s a b. elim (dec_lt from s) [
          | yes l ↦ before s (omega arith) b
          | no g ↦ let same : from ≡ s = omega arith in ground (arith, same)
        ],
      )
]

-- Where it finds none, all ticks are full.
earliest_none :
    (st : Admission) (bucket : Bucket) (fuel from : ℕ)
    → earliest st bucket fuel from ≡ none
    → (s : ℕ) → from ≤ s
    → s < from + fuel
    → st.params.capacity_per_tick_per_bucket ≤ count_at st bucket s
unfolding earliest
earliest_none st bucket zero from h s a b = absurd (omega arith)
earliest_none st bucket (suc fuel) from h s a b = elim (earliest_step st bucket fuel from none h) [
  | inl (room, e) ↦ absurd (cc e)
  | inr (full, rest) ↦ elim (dec_lt from s) [
    | yes l ↦ earliest_none st bucket fuel (from + 1) rest s (omega arith) (omega arith)
    | no g ↦ let same : from ≡ s = omega arith in ground (arith, same)
  ]
]

-- The open tick is at most the last one, so the range of `target` ends right after that.
pub target-some :
    (st : Admission) (bucket : Bucket) (w : Window) (t : ℕ)
    → st.open_tick ≤ end_inclusive w
    → target st bucket w ≡ some t
    → HasRoom st bucket t × (st.open_tick ≤ t) × (t ≤ end_inclusive w) × FullBefore st bucket t
unfolding target
target-some st bucket w t l e =
    let (room, low, high, before) = earliest_some st bucket _ st.open_tick t e in
    (room, low, omega arith, before)

pub target_none :
    (st : Admission) (bucket : Bucket) (w : Window)
    → st.open_tick ≤ end_inclusive w
    → target st bucket w ≡ none
    → FullBefore st bucket (end_inclusive w + 1)
unfolding target
target_none st bucket w l e s a b = earliest_none st bucket _ st.open_tick e s a (omega arith)

module _ (primitives : Primitives) (st : Admission) (h : Hash32) (env : Envelope) where
  -- A decoded envelope that no check of `submit` refuses.
  pub record Admissible : Type 0 where
    pub passes : Passes (submit_checks primitives st h env)
    pub started : env.window.start ≤ st.open_tick
    pub unexpired : st.open_tick ≤ end_inclusive env.window
    pub unfenced : is_fenced st.fence_until env.window.start ≡ false
    pub bounded : env.window.len ≤ st.params.window_ticks
    pub fresh_ticket : member env.ticket.id st.consumed_tickets ≡ false
    pub fresh_commitment : member h st.seen_h ≡ false
    pub rules : Unseen primitives st h env

  pub Passes-Admissible : Passes (submit_checks primitives st h env) → Admissible
  unfolding submit_checks
  Passes-Admissible (c0, (c1, (c2, (c3, (c4, (c5, (c6, (c7, (c8, _))))))))) = record {
    passes = (c0, (c1, (c2, (c3, (c4, (c5, (c6, (c7, (c8, tt)))))))));
    started = ground arith;
    unexpired = ground arith;
    unfenced = c4;
    bounded = ground arith;
    fresh_ticket = c7;
    fresh_commitment = c8;
    rules =
        Passes-Unseen primitives st h env (c0, (c1, (c2, (c3, (c4, (c5, (c6, (c7, (c8, tt)))))))));
  }

-- Why a submission is refused, the fields of the rejection (what does not decode has no window), and
-- the envelope that the store was given: only a failure of the store comes after that.
pub data Refused (primitives : Primitives) (st : Admission) (bytes : Bytes) (stored : Bool)
    (h : Hash32) : Bucket → Window → RejectReason → Option (Hash32 × Bytes) → Type 0 where
  wrong_length :
      length bytes ≢ st.params.envelope_bytes
      → Refused primitives st bytes stored h majors no_window wrong_size none
  unreadable :
      (e : EnvelopeError)
      → length bytes ≡ st.params.envelope_bytes
      → decode primitives bytes st.params.envelope_bytes ≡ err e
      → e ≢ Envelope.panicked
      → Refused primitives st bytes stored h majors no_window malformed none
  blamed :
      (env : Envelope) (reason : RejectReason)
      → length bytes ≡ st.params.envelope_bytes
      → decode primitives bytes st.params.envelope_bytes ≡ ok env
      → Blames primitives st h env reason
      → Refused primitives st bytes stored h env.bucket env.window reason none
  unstored :
      (env : Envelope) (t : ℕ)
      → length bytes ≡ st.params.envelope_bytes
      → decode primitives bytes st.params.envelope_bytes ≡ ok env
      → Unseen primitives st h env
      → HasRoom st env.bucket t
      → st.open_tick ≤ t
      → t ≤ end_inclusive env.window
      → stored ≡ false
      → Refused primitives st bytes stored h env.bucket env.window malformed (some (h, bytes))

-- Why a submission panics: a slice out of range, or the squarings of a tick are 0.
pub data Crashes (primitives : Primitives) (st : Admission) (bytes : Bytes) : Type 0 where
  bad_slice :
      length bytes ≡ st.params.envelope_bytes
      → decode primitives bytes st.params.envelope_bytes ≡ err Envelope.panicked
      → Crashes primitives st bytes
  no_rate :
      (env : Envelope)
      → length bytes ≡ st.params.envelope_bytes
      → decode primitives bytes st.params.envelope_bytes ≡ ok env
      → Bounded primitives st (commitment_hash primitives st.params.epoch bytes) env
      → delay_ticks st.params env.delay_class ≡ none
      → Crashes primitives st bytes

-- What `submit` may answer, and the state that it leaves.
pub data Answered (primitives : Primitives) (st : Admission) (bytes : Bytes) (stored : Bool)
    : Submitted → Type 0 where
  refused :
      (h : Hash32) (bucket : Bucket) (window : Window) (reason : RejectReason)
      (put : Option (Hash32 × Bytes))
      → h ≡ commitment_hash primitives st.params.epoch bytes
      → Refused primitives st bytes stored h bucket window reason put
      → Answered primitives st bytes stored (st, reject primitives st h bucket window reason, put)
  crashed : Crashes primitives st bytes → Answered primitives st bytes stored (st, panicked, none)
  full :
      (h : Hash32) (env : Envelope)
      → h ≡ commitment_hash primitives st.params.epoch bytes
      → decode primitives bytes st.params.envelope_bytes ≡ ok env
      → Admissible primitives st h env
      → FullBefore st env.bucket (end_inclusive env.window + 1)
      → Answered primitives st bytes stored
          (st, full_answer primitives st env.bucket env.window, none)
  reserved :
      (h : Hash32) (env : Envelope) (t : ℕ)
      → h ≡ commitment_hash primitives st.params.epoch bytes
      → decode primitives bytes st.params.envelope_bytes ≡ ok env
      → Admissible primitives st h env
      → stored ≡ true
      → HasRoom st env.bucket t
      → st.open_tick ≤ t
      → t ≤ end_inclusive env.window
      → FullBefore st env.bucket t
      → Answered primitives st bytes stored (
        (reserve primitives st t h env bytes).0,
        (reserve primitives st t h env bytes).1,
        some (h, bytes),
      )
