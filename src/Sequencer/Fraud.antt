-- ===== src/Sequencer/Fraud.antt =====
-- crates/sequencer/src/fraud.rs: the verifiers of fraud proofs.
pub mod Honest
pub mod Reorder
use lighter_integration.Base.{
  ℕ, ◌+◌, Bool, true, false, not, ◌&&◌, ◌||◌, Hash32, bytes_eq, List, [], ◌∷◌, Option, none, some,
  map, ◌==◌, ◌!=◌, if◌then◌else◌, wrap,
}
use lighter_integration.Plugin.Join.{differs}
use lighter_integration.Sequencer.Identity.{Primitives, Address}
use lighter_integration.Sequencer.Records.{
  BatchEntry, Receipt, TickRecord, leaf, log_step, x_hash, content_hash, record_verify,
  receipt_verify,
}
use lighter_integration.Sequencer.Records.Merkle.{merkle_verify}
use lighter_integration.Sequencer.Transcript.{root_differs}

pub record EquivocationProof : Type 0 where
  pub a : TickRecord
  pub b : TickRecord

pub record ReorderProof : Type 0 where
  pub receipt : Receipt
  pub record_of : TickRecord
  pub conflicting_entry : BatchEntry
  pub merkle_path : List Hash32

pub record OmissionProof : Type 0 where
  pub receipt : Receipt
  pub record_of : TickRecord
  pub full_batch : List BatchEntry

pub record InvalidLogProof : Type 0 where
  pub prev : TickRecord
  pub curr : TickRecord

-- `any(|e| e.pos == receipt.pos && e.h == receipt.h)`
unfoldable pub holds_receipt : Receipt → List BatchEntry → Bool
holds_receipt r [] = false
holds_receipt r (e ∷ entries) = e.pos == r.pos && bytes_eq e.h r.h || holds_receipt r entries

module _ (primitives : Primitives) where
  -- `EquivocationProof::verify`
  unfoldable pub equivocation_verify : EquivocationProof → Address → Bool
  unfolding content_hash record_verify
  equivocation_verify p sequencer =
      p.a.epoch == p.b.epoch
      && p.a.tick == p.b.tick
      && differs (content_hash primitives p.a) (content_hash primitives p.b)
      && record_verify primitives p.a sequencer
      && record_verify primitives p.b sequencer

  -- The first two early returns of `ReorderProof::verify` and of `OmissionProof::verify`.
  unfoldable pub both_signed : Receipt → TickRecord → Address → Bool
  unfolding receipt_verify record_verify
  both_signed receipt r sequencer =
      if receipt.epoch != r.epoch || receipt.tick != r.tick
      then false
      else not (
          not (receipt_verify primitives receipt sequencer)
          || not (record_verify primitives r sequencer))

  -- `ReorderProof::verify`
  unfoldable pub reorder_verify : ReorderProof → Address → Bool
  unfolding both_signed leaf merkle_verify
  reorder_verify p sequencer =
      if not (both_signed p.receipt p.record_of sequencer)
      then false
      else if p.conflicting_entry.tick != p.receipt.tick
          || p.conflicting_entry.pos != p.receipt.pos
          || bytes_eq p.conflicting_entry.h p.receipt.h
      then false
      else merkle_verify primitives p.record_of.batch_root (leaf primitives p.conflicting_entry)
          p.conflicting_entry.pos p.merkle_path

  -- `OmissionProof::verify`
  unfoldable pub omission_verify : OmissionProof → Address → Bool
  unfolding both_signed root_differs holds_receipt
  omission_verify p sequencer =
      if not (both_signed p.receipt p.record_of sequencer)
      then false
      else if root_differs primitives p.full_batch p.record_of.batch_root
      then false
      else not (holds_receipt p.receipt p.full_batch)

  -- `InvalidLogProof::verify`
  unfoldable pub invalid_log_verify : InvalidLogProof → Address → Bool
  unfolding record_verify log_step x_hash
  invalid_log_verify p sequencer =
      if p.prev.epoch != p.curr.epoch || p.curr.tick != wrap (p.prev.tick + 1)
      then false
      else if not (record_verify primitives p.prev sequencer)
          || not (record_verify primitives p.curr sequencer)
      then false
      else differs p.curr.c_prev p.prev.c_t
        || differs p.curr.c_t (
            log_step primitives p.curr.c_prev p.curr.tick p.curr.batch_root
              (x_hash primitives p.curr))
