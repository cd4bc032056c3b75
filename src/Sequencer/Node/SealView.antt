-- ===== src/Sequencer/Node/SealView.antt =====
-- The part of the node (crates/sequencer/src/node.rs) that the seals of the segments depend on, and the
-- events that leave it as it is.
use lighter_integration.Base.{
  ℕ, zero, suc, ◌+◌, ◌≡◌, refl, ap, ◌∙◌, Bool, true, false, ◌&&◌, ◌==◌, Bytes, Hash32, List, [],
  ◌∷◌, Option, some, none, if◌then◌else◌, Result, ok, err,
}
use lighter_integration.Sequencer.Identity.{Primitives}
use lighter_integration.Sequencer.Envelope.{Intent}
use lighter_integration.Sequencer.Records.{SegmentSeal}
use lighter_integration.Sequencer.Params.{PosqParams, grace_ticks}
use lighter_integration.Sequencer.Admission.{PendingEntry, take_tick, lift_fence}
use lighter_integration.Sequencer.Store.{
  ChainStore, SealedTick, add_position, set_outcome, set_gaps, insert_tick, overdue_positions,
}
use lighter_integration.Vdf.Hashing.{Crypto}
use lighter_integration.Vdf.Wave.{WaveSolution}
use lighter_integration.Sequencer.Anchor.{Anchor}
use lighter_integration.Sequencer.Node.{Node, NodeStatus, WaveItem, SeedInput}
use lighter_integration.Sequencer.Node.Tick.{
  tape_entries, record_tick, keep_time, is_late, dispatch_waves, cut_overdue, report, seal_batch,
  on_tick,
}
use lighter_integration.Sequencer.Node.Waves.{apply_wave, solved_wave}
use lighter_integration.Sequencer.Node.Anchors.{
  keys_bound, next_anchor, push_anchor, anchor_rounds, maybe_anchor,
}
use lighter_integration.Sequencer.Node.Coordinator.{
  Event, submission, tick_end, segment_end, segment_proof, wave, clock_closed, on_wave,
  final_cutoff, coordinate, handle,
}

pub record SealView : Type 0 where
  pub segments : List (ℕ × SegmentSeal)
  pub bases : List (ℕ × (ℕ × ℕ))
  pub entropies : List (ℕ × Hash32)
  pub seeds : List SeedInput

abbrev pub seal_view : Node → SealView
seal_view node = record {
  segments = node.store.segments;
  bases = node.seal_bases;
  entropies = node.entropies;
  seeds = node.seeds;
}

-- the view with other segments
abbrev with_segments : SealView → List (ℕ × SegmentSeal) → SealView
with_segments v segments = record v { segments = segments }

segments-set_gaps :
    (keys : List (ℕ × ℕ)) (store : ChainStore) → (set_gaps keys store).segments ≡ store.segments
unfolding set_gaps set_outcome
segments-set_gaps [] store = refl
segments-set_gaps ((t, j) ∷ keys) store = segments-set_gaps keys _

segments-tape_entries :
    (params : PosqParams) (tick : ℕ) (entries : List PendingEntry) (store : ChainStore)
    → (tape_entries params tick entries store).segments ≡ store.segments
unfolding tape_entries add_position
segments-tape_entries params tick [] store = refl
segments-tape_entries params tick (e ∷ entries) store = segments-tape_entries params tick entries _

segments-record_tick :
    (sealed : SealedTick) (written : Bool) (store : ChainStore)
    → (record_tick sealed written store).segments ≡ store.segments
unfolding record_tick insert_tick
segments-record_tick sealed true store = refl
segments-record_tick sealed false store = refl

pub seal_view-final_cutoff : (node : Node) → seal_view (final_cutoff node) ≡ seal_view node
unfolding final_cutoff
seal_view-final_cutoff node =
    split (node.clock_closed && node.proofs_pending == 0 && node.solver_outstanding == 0)
  where
    split :
        (b : Bool)
        → seal_view (
            if b
            then record node {
              store =
                  set_gaps
                    (overdue_positions node.store node.current_tick
                      (grace_ticks node.config.params))
                    node.store;
              status = record node.status { finished = true };
            }
            else node)
          ≡ seal_view node
    split true = ap (with_segments (seal_view node)) (
        segments-set_gaps
          (overdue_positions node.store node.current_tick (grace_ticks node.config.params))
          node.store)
    split false = refl

seal_view-cut_overdue :
    (tick : ℕ) (node : Node) → seal_view (cut_overdue tick node) ≡ seal_view node
unfolding cut_overdue
seal_view-cut_overdue tick node = ap (with_segments (seal_view node)) (
    segments-set_gaps (overdue_positions node.store tick (grace_ticks node.config.params))
      node.store)

seal_view-keep_time :
    (late : Bool) (tick : ℕ) (node : Node) → seal_view (keep_time late tick node) ≡ seal_view node
unfolding keep_time
seal_view-keep_time true tick node = refl
seal_view-keep_time false tick node = split node.fence_active
  where
    split :
        (b : Bool)
        → seal_view (
            if b
            then record node { admission = lift_fence node.admission; fence_active = false }
            else node)
          ≡ seal_view node
    split true = refl
    split false = refl

-- An event that neither ends a segment nor brings a proof.
abbrev pub keeps_seals : Event → Bool
keeps_seals (submission bytes stored) = true
keeps_seals (tick_end segment tick x written elapsed) = true
keeps_seals (segment_end segment y x_end entropy) = false
keeps_seals (segment_proof segment proof written attest takes) = false
keeps_seals (wave key items solution) = true
keeps_seals clock_closed = true

module _ (primitives : Primitives) where
  seal_view-seal_batch :
      (segment tick x : ℕ) (written : Bool) (node : Node)
      → seal_view (seal_batch primitives segment tick x written node) ≡ seal_view node
  unfolding seal_batch
  seal_view-seal_batch segment tick x written node = ap (with_segments (seal_view node)) (
      segments-tape_entries node.config.params tick (take_tick node.admission tick).1 _
      ∙ segments-record_tick _ written node.store)

  seal_view-on_tick :
      (segment tick x elapsed : ℕ) (written : Bool) (node : Node)
      → seal_view (on_tick primitives segment tick x written elapsed node) ≡ seal_view node
  unfolding on_tick report dispatch_waves
  seal_view-on_tick segment tick x elapsed written node =
      let sealed = seal_batch primitives segment tick x written node in
      let timed = keep_time (is_late node.config tick elapsed) tick sealed in
      seal_view-cut_overdue tick (dispatch_waves tick timed)
      ∙ seal_view-keep_time (is_late node.config tick elapsed) tick sealed
      ∙ seal_view-seal_batch segment tick x written node

  seal_view-anchor_rounds :
      (fuel : ℕ) (attest : ℕ → ℕ → Hash32) (takes : Bool) (node : Node)
      → seal_view (anchor_rounds primitives fuel attest takes node) ≡ seal_view node
  unfolding anchor_rounds push_anchor
  seal_view-anchor_rounds zero attest takes node = refl
  seal_view-anchor_rounds (suc fuel) attest takes node =
      split (next_anchor primitives node attest)
        (λ a. seal_view-anchor_rounds fuel attest takes (push_anchor primitives takes a node))
    where
      split :
          (o : Option Anchor)
          → ((a : Anchor)
              → seal_view
                  (anchor_rounds primitives fuel attest takes (push_anchor primitives takes a node))
                ≡ seal_view node)
          → seal_view (elim o [
            | none ↦ node
            | some a ↦
                anchor_rounds primitives fuel attest takes (push_anchor primitives takes a node)
          ])
            ≡ seal_view node
      split none rest = refl
      split (some a) rest = rest a

  pub seal_view-maybe_anchor :
      (attest : ℕ → ℕ → Hash32) (takes : Bool) (node : Node)
      → seal_view (maybe_anchor primitives attest takes node) ≡ seal_view node
  unfolding maybe_anchor
  seal_view-maybe_anchor attest takes node =
      seal_view-anchor_rounds (keys_bound node.store.segments + 1) attest takes node

  module _ (crypto : Crypto) (parse_intent : Bytes → Option Intent) where
    segments-apply_wave :
        (items : List WaveItem) (ws : List ℕ) (store : ChainStore) (status : NodeStatus)
        → (apply_wave primitives crypto parse_intent items ws (store, status)).0.segments
          ≡ store.segments
    unfolding apply_wave set_outcome
    segments-apply_wave [] ws store status = refl
    segments-apply_wave (item ∷ items) [] store status = refl
    segments-apply_wave (item ∷ items) (w ∷ ws) store status = segments-apply_wave items ws _ _

    seal_view-solved_wave :
        (key : ℕ × ℕ) (items : List WaveItem) (solution : Result Bytes WaveSolution) (node : Node)
        → seal_view (solved_wave primitives crypto parse_intent key items solution node)
          ≡ seal_view node
    unfolding solved_wave
    seal_view-solved_wave key items (err e) node = refl
    seal_view-solved_wave (m, class) items (ok sol) node =
        ap (with_segments (seal_view node))
          (segments-apply_wave items sol.witnesses node.store node.status)

    ended-seal_view :
        (node next : Node)
        → seal_view next ≡ seal_view node
        → seal_view (if node.status.finished then node else final_cutoff next) ≡ seal_view node
    ended-seal_view node next same = split node.status.finished
      where
        split : (b : Bool) → seal_view (if b then node else final_cutoff next) ≡ seal_view node
        split true = refl
        split false = seal_view-final_cutoff next ∙ same

    pub seal_view-coordinate :
        (ev : Event) (node : Node)
        → keeps_seals ev ≡ true
        → seal_view (coordinate primitives crypto parse_intent ev node) ≡ seal_view node
    unfolding coordinate handle on_wave
    seal_view-coordinate (submission bytes stored) node h = refl
    seal_view-coordinate (tick_end segment tick x written elapsed) node h =
        ended-seal_view node (on_tick primitives segment tick x written elapsed node)
          (seal_view-on_tick segment tick x elapsed written node)
    seal_view-coordinate (segment_end segment y x_end entropy) node h = absurd (cc h)
    seal_view-coordinate (segment_proof segment proof written attest takes) node h = absurd (cc h)
    seal_view-coordinate (wave key items solution) node h =
        ended-seal_view node (on_wave primitives crypto parse_intent key items solution node)
          (seal_view-solved_wave key items solution _)
    seal_view-coordinate clock_closed node h =
        ended-seal_view node (record node { clock_closed = true }) refl
