-- ===== src/Sequencer/Admission/Distinct.antt =====
-- How often a commitment is reserved (crates/sequencer/src/admission.rs): the hashes of the sealed and the
-- buffered entries, and the set of the hashes that were seen.
use lighter_integration.Base.{
  ℕ, ◌+◌, ◌<◌, ◌≤◌, ◌≡◌, refl, Bool, true, false, ◌||◌, Bytes, Hash32, bytes_eq, bytes_eq_refl,
  bytes_eq_iff, List, [], ◌∷◌, Bool-cases, ◌⊎◌, inl, inr, arith,
}
use native.Mathlib.Decide.{dec_lt}
use lighter_integration.Sequencer.Identity.{Primitives}
use lighter_integration.Sequencer.Envelope.{Envelope}
use lighter_integration.Sequencer.Admission.{
  PendingEntry, buffer_or_default, Admission, member, get_tick, drop_tick, take_tick,
}
use lighter_integration.Sequencer.Admission.Buffers.{
  Ascending, Ascending-put_tick, Ascending-drop_tick,
}
use lighter_integration.Sequencer.Admission.Submit.{
  Submitted, push_entry, receipt_of, reserve, submit,
}
use lighter_integration.Sequencer.Admission.Outcomes.{Answered, refused, crashed, full, reserved}
use lighter_integration.Sequencer.Admission.Answers.{submit-Answered}
use lighter_integration.Sequencer.Admission.Occurs.{
  same_hash, occurs, occurs_entries, occurs_ticks, occurs_entries-append, occurs_ticks-put_tick,
  occurs_ticks-drop_tick, member-occurs,
}

-- The commitments of an admission after the entries with the hashes `sealed` were taken: none occurs
-- twice, and each was seen.
pub record Distinct (sealed : List Hash32) (st : Admission) : Type 0 where
  pub sorted : Ascending st.ticks
  pub once : (h : Hash32) → occurs h sealed + occurs_ticks h st.ticks ≤ 1
  pub seen :
      (h : Hash32) → 0 < occurs h sealed + occurs_ticks h st.ticks → member h st.seen_h ≡ true

-- A hash that was not seen does not occur.
unseen :
    (sealed : List Hash32) (st : Admission) (h : Hash32)
    → Distinct sealed st
    → member h st.seen_h ≡ false
    → occurs h sealed + occurs_ticks h st.ticks ≡ 0
unseen sealed st h d new = elim (dec_lt 0 (occurs h sealed + occurs_ticks h st.ticks)) [
  | yes pos ↦ absurd (cc (d.seen h pos, new))
  | no absent ↦ omega arith
]

module _ (primitives : Primitives) where
  -- One occurrence more, of the hash that is reserved.
  occurs_ticks-reserve :
      (st : Admission) (t : ℕ) (h : Hash32) (env : Envelope) (bytes : Bytes) (k : Hash32)
      → Ascending st.ticks
      → occurs_ticks k (reserve primitives st t h env bytes).0.ticks
        ≤ occurs_ticks k st.ticks + same_hash k h
  unfolding reserve push_entry
  occurs_ticks-reserve st t h env bytes k sorted =
      let b = buffer_or_default (get_tick t st.ticks) in
      let added = push_entry primitives b (receipt_of primitives st t b h env) h env bytes in
      let more : occurs_entries k added.entries ≡ occurs_entries k b.entries + same_hash k h =
        occurs_entries-append k b.entries _ in
      omega (arith, occurs_ticks-put_tick k t added st.ticks sorted, more)

  Distinct-reserve :
      (sealed : List Hash32) (st : Admission) (t : ℕ) (h : Hash32) (env : Envelope) (bytes : Bytes)
      → member h st.seen_h ≡ false
      → Distinct sealed st
      → Distinct sealed (reserve primitives st t h env bytes).0
  unfolding reserve member
  Distinct-reserve sealed st t h env bytes new d = record {
    sorted = Ascending-put_tick t _ st.ticks d.sorted;
    once = λ k. once_more k (Bool-cases (bytes_eq h k));
    seen = λ k pos. seen_too k (Bool-cases (bytes_eq h k)) pos;
  }
    where
      grown :
          (k : Hash32)
          → occurs_ticks k (reserve primitives st t h env bytes).0.ticks
            ≤ occurs_ticks k st.ticks + same_hash k h
      grown k = occurs_ticks-reserve st t h env bytes k d.sorted

      once_more :
          (k : Hash32)
          → (bytes_eq h k ≡ true) ⊎ (bytes_eq h k ≡ false)
          → occurs k sealed + occurs_ticks k (reserve primitives st t h env bytes).0.ticks ≤ 1
      once_more k (inl e) =
          let same : h ≡ k = (bytes_eq_iff h k).0 e in
          let none : occurs k sealed + occurs_ticks k st.ticks ≡ 0 =
            unseen sealed st k d (rw (← same) new) in
          let one : same_hash k h ≡ 1 = rw e refl in omega (arith, grown k)
      once_more k (inr e) =
          let zero' : same_hash k h ≡ 0 = rw e refl in omega (arith, grown k, d.once k)

      seen_too :
          (k : Hash32)
          → (bytes_eq h k ≡ true) ⊎ (bytes_eq h k ≡ false)
          → 0 < occurs k sealed + occurs_ticks k (reserve primitives st t h env bytes).0.ticks
          → (bytes_eq h k || member k st.seen_h) ≡ true
      seen_too k (inl e) pos = rw e refl
      seen_too k (inr e) pos =
          let zero' : same_hash k h ≡ 0 = rw e refl in rw e (d.seen k (omega (arith, grown k)))

  pub Distinct-submit :
      (sealed : List Hash32) (st : Admission) (bytes : Bytes) (stored : Bool)
      → Distinct sealed st
      → Distinct sealed (submit primitives st bytes stored).0
  Distinct-submit sealed st bytes stored d =
      from (submit primitives st bytes stored) (submit-Answered primitives st bytes stored)
    where
      from :
          (result : Submitted)
          → Answered primitives st bytes stored result
          → Distinct sealed result.0
      from _ (refused h bucket window reason put hh why) = d
      from _ (crashed why) = d
      from _ (full h env hh decoded ad f) = d
      from _ (reserved h env t hh decoded ad b room low high before) =
          Distinct-reserve sealed st t h env bytes ad.fresh_commitment d

-- The hashes of a batch, put on those that were sealed before, as `verify_span` puts them.
unfoldable pub sealed_after : List Hash32 → List PendingEntry → List Hash32
sealed_after sealed [] = sealed
sealed_after sealed (e ∷ entries) = sealed_after (e.h ∷ sealed) entries

pub occurs-sealed_after :
    (h : Hash32) (sealed : List Hash32) (entries : List PendingEntry)
    → occurs h (sealed_after sealed entries) ≡ occurs h sealed + occurs_entries h entries
unfolding sealed_after occurs_entries occurs
occurs-sealed_after h sealed [] = omega arith
occurs-sealed_after h sealed (e ∷ entries) =
    omega (arith, occurs-sealed_after h (e.h ∷ sealed) entries)

-- Taking the batch of a tick moves its hashes to the sealed ones.
pub Distinct-take_tick :
    (sealed : List Hash32) (st : Admission) (t : ℕ)
    → Distinct sealed st
    → Distinct (sealed_after sealed (take_tick st t).1) (take_tick st t).0
unfolding take_tick
Distinct-take_tick sealed st t d = record {
  sorted = Ascending-drop_tick t st.ticks d.sorted;
  once = λ h. omega (arith, moved h, d.once h);
  seen = λ h pos. d.seen h (omega (arith, moved h));
}
  where
    moved :
        (h : Hash32)
        → occurs h (sealed_after sealed (take_tick st t).1) + occurs_ticks h (drop_tick t st.ticks)
          ≤ occurs h sealed + occurs_ticks h st.ticks
    moved h = omega (
      arith,
      occurs-sealed_after h sealed (take_tick st t).1,
      occurs_ticks-drop_tick h t st.ticks,
    )

-- What was never sealed before and occurs once is fresh, entry by entry.
abbrev pub FreshEntries : List Hash32 → List PendingEntry → Type 0
FreshEntries sealed [] = Unit
FreshEntries sealed (e ∷ entries) =
    (member e.h sealed ≡ false) × FreshEntries (e.h ∷ sealed) entries

fresh_entries :
    (sealed : List Hash32) (entries : List PendingEntry)
    → ((h : Hash32) → occurs h sealed + occurs_entries h entries ≤ 1)
    → FreshEntries sealed entries
unfolding occurs_entries occurs
fresh_entries sealed [] once = tt
fresh_entries sealed (e ∷ entries) once =
    let one : same_hash e.h e.h ≡ 1 = rw (bytes_eq_refl e.h) refl in
    (
      member-occurs e.h sealed (omega (arith, once e.h)),
      fresh_entries (e.h ∷ sealed) entries (λ h. omega (arith, once h)),
    )

pub Distinct-FreshEntries :
    (sealed : List Hash32) (st : Admission) (t : ℕ)
    → Distinct sealed st
    → FreshEntries sealed (take_tick st t).1
unfolding take_tick
Distinct-FreshEntries sealed st t d =
    fresh_entries sealed (take_tick st t).1
      (λ h. omega (arith, d.once h, occurs_ticks-drop_tick h t st.ticks))
