-- ===== src/Sequencer/Transcript.antt =====
-- crates/sequencer/src/transcript.rs: the sequencing predicate `verify_span`, loop by loop.
pub mod Valid
pub mod Binding
pub mod Complete
use lighter_integration.Base.{
  ℕ, zero, suc, ◌+◌, ◌-◌, ◌%◌, ◌^◌, Bool, false, not, ◌||◌, Bytes, Hash32, bytes_eq, List, [], ◌∷◌,
  ◌++◌, Option, none, some, map, get_elem?, ◌!=◌, codes, Result, ok, err, guarded, ok_or, ◌>>=◌,
  ◌>>◌, if◌then◌else◌,
}
use lighter_integration.Plugin.Canonical.{to_be_bytes}
use lighter_integration.Plugin.Join.{differs}
use lighter_integration.Sequencer.Identity.{Primitives, Address}
use lighter_integration.Sequencer.Records.{
  BatchEntry, Receipt, TickRecord, leaf, digest_genesis, digest_step, log_step, x_hash,
  record_verify,
}
use lighter_integration.Sequencer.Records.Merkle.{merkle_root}
use lighter_integration.Sequencer.Admission.{member}
use lighter_integration.Sequencer.Store.{SealedTick}

pub data TranscriptViolation : Type 0 where
  missing_tick log_chain_broken batch_root_mismatch bad_signature : ℕ → TranscriptViolation
  digest_chain_broken entry_order_broken : ℕ → ℕ → TranscriptViolation
  duplicate_commitment : Hash32 → TranscriptViolation

-- The variables of the loop over the entries of a tick.
pub record EntryScan : Type 0 where
  pub d : Hash32
  pub seen : List Hash32

module _ (primitives : Primitives) where
  -- `merkle_root(&leaves) != record.batch_root`
  unfoldable pub root_differs : List BatchEntry → Hash32 → Bool
  unfolding leaf merkle_root
  root_differs entries root = elim (merkle_root primitives (map (leaf primitives) entries)) [
    | none ↦ false
    | some r ↦ differs r root
  ]

  unfoldable pub entry_checks : ℕ → ℕ → List Hash32 → BatchEntry → List (Bool × TranscriptViolation)
  unfolding member
  entry_checks t idx seen e =
      (e.tick != t || e.pos != idx % 2 ^ 32, entry_order_broken t e.pos)
      ∷ (member e.h seen, duplicate_commitment e.h)
      ∷ []

  -- `for (idx, e) in sealed.entries.iter().enumerate()`; `idx as u32` wraps.
  unfoldable pub scan_entries :
      ℕ → ℕ → EntryScan → List BatchEntry → Result TranscriptViolation EntryScan
  unfolding digest_step entry_checks
  scan_entries t idx s [] = ok s
  scan_entries t idx s (e ∷ entries) = guarded (entry_checks t idx s.seen e) (
      scan_entries t (idx + 1)
        (record {
          d = digest_step primitives s.d t e.pos e.h e.bucket e.ticket_id;
          seen = e.h ∷ s.seen;
        })
        entries)

  -- the conditions on a receipt and the entry at its position
  unfoldable pub receipt_differs : ℕ → Receipt → BatchEntry → Bool
  unfolding digest_step
  receipt_differs t r e =
      differs r.d (digest_step primitives r.d_prev t r.pos e.h e.bucket e.ticket_id)
      || differs r.h e.h

  unfoldable pub receipt_check : ℕ → Receipt → BatchEntry → List (Bool × TranscriptViolation)
  unfolding receipt_differs
  receipt_check t r entry = (receipt_differs t r entry, digest_chain_broken t r.pos) ∷ []

  -- `for r in &sealed.receipts`
  unfoldable pub check_receipts :
      ℕ → List BatchEntry → List Receipt → Result TranscriptViolation (Unit {0})
  unfolding receipt_check
  check_receipts t entries [] = ok tt
  check_receipts t entries (r ∷ receipts) = do
    entry ← ok_or (get_elem? entries r.pos) (digest_chain_broken t r.pos)
    guarded (receipt_check t r entry) (ok (tt {0}))
    check_receipts t entries receipts

  unfoldable pub record_checks : ℕ → Address → ℕ → SealedTick → List (Bool × TranscriptViolation)
  unfolding root_differs record_verify
  record_checks epoch sequencer t sealed =
      (sealed.record_of.tick != t || sealed.record_of.epoch != epoch, missing_tick t)
      ∷ (not (record_verify primitives sealed.record_of sequencer), bad_signature t)
      ∷ (root_differs sealed.entries sealed.record_of.batch_root, batch_root_mismatch t)
      ∷ []

  unfoldable pub chain_checks : ℕ → Hash32 → Hash32 → SealedTick → List (Bool × TranscriptViolation)
  chain_checks t c expected_c sealed =
      (
        differs sealed.record_of.c_prev c || differs sealed.record_of.c_t expected_c,
        log_chain_broken t,
      )
      ∷ []

  -- The body of the loop over the ticks: the commitment after the tick, and the hashes seen.
  unfoldable pub verify_tick :
      ℕ
      → Address
      → ℕ
      → Hash32
      → List Hash32
      → SealedTick
      → Result TranscriptViolation (Hash32 × List Hash32)
  unfolding record_checks scan_entries check_receipts chain_checks log_step x_hash digest_genesis
  verify_tick epoch sequencer t c seen sealed = do
    guarded (record_checks epoch sequencer t sealed) (ok (tt {0}))
    scan ←
        scan_entries t 0 (record { d = digest_genesis primitives epoch t; seen = seen })
          sealed.entries
    checked ← check_receipts t sealed.entries sealed.receipts
    let expected_c =
        log_step primitives c t sealed.record_of.batch_root (x_hash primitives sealed.record_of)
    guarded (chain_checks t c expected_c sealed) (ok (expected_c, scan.seen))

  -- `for t in from..=to`, of which `count` ticks are left
  unfoldable pub verify_ticks :
      ℕ
      → Address
      → (ℕ → Option SealedTick)
      → ℕ
      → ℕ
      → Hash32
      → List Hash32
      → Result TranscriptViolation Hash32
  unfolding verify_tick
  verify_ticks epoch sequencer ticks zero t c seen = ok c
  verify_ticks epoch sequencer ticks (suc count) t c seen = do
    sealed ← ok_or (ticks t) (missing_tick t)
    next ← verify_tick epoch sequencer t c seen sealed
    verify_ticks epoch sequencer ticks count (t + 1) next.0 next.1

  unfoldable pub verify_span :
      ℕ
      → Address
      → Hash32
      → ℕ
      → ℕ
      → (ℕ → Option SealedTick)
      → List Hash32
      → Result TranscriptViolation Hash32
  unfolding verify_ticks
  verify_span epoch sequencer c_before from to ticks seen_h_before =
      verify_ticks epoch sequencer ticks (to + 1 - from) from c_before seen_h_before

  unfoldable pub predicate_commitment : ℕ → ℕ → ℕ → Hash32 → Hash32 → Hash32
  predicate_commitment epoch from to c_before c_after = primitives.keccak256 (
      codes "posq-transcript-predicate-v1"
      ++ to_be_bytes 8 epoch
      ++ to_be_bytes 8 from
      ++ to_be_bytes 8 to
      ++ c_before
      ++ c_after)

-- The system's name and the proof are bytes.
pub data TranscriptProof : Type 0 where
  optimistic : Hash32 → TranscriptProof
  succinct : Bytes → Bytes → TranscriptProof

-- `ReplayProver::prove`
unfoldable pub replay_prove :
    (primitives : Primitives)
    → ℕ
    → Address
    → Hash32
    → ℕ
    → ℕ
    → (ℕ → Option SealedTick)
    → Result TranscriptViolation (Hash32 × TranscriptProof)
unfolding verify_span predicate_commitment
replay_prove primitives epoch sequencer c_before from to ticks = do
  c_after ← verify_span primitives epoch sequencer c_before from to ticks []
  ok (c_after, optimistic (predicate_commitment primitives epoch from to c_before c_after))
