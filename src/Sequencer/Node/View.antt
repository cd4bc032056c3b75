-- ===== src/Sequencer/Node/View.antt =====
-- The part of the node (crates/sequencer/src/node.rs) that the log depends on, and the events that leave
-- it as it is.
use lighter_integration.Base.{
  ℕ, zero, suc, ◌+◌, ◌-◌, ◌≡◌, refl, ap, ◌∙◌, Bool, true, false, ◌&&◌, Bytes, Hash32, List, [], ◌∷◌,
  Option, some, none, ◌==◌, if◌then◌else◌, Result, ok, err,
}
use lighter_integration.Sequencer.Identity.{Primitives}
use lighter_integration.Sequencer.Envelope.{Intent}
use lighter_integration.Sequencer.Records.{SegmentSeal, SequentialProof}
use lighter_integration.Sequencer.Admission.{Admission, lift_fence}
use lighter_integration.Sequencer.Store.{
  ChainStore, SealedTick, insert_segment, set_outcome, set_gaps, overdue_positions,
}
use lighter_integration.Sequencer.Params.{grace_ticks}
use lighter_integration.Vdf.Hashing.{Crypto}
use lighter_integration.Vdf.Wave.{WaveSolution}
use lighter_integration.Sequencer.Anchor.{Anchor}
use lighter_integration.Sequencer.Node.{Node, NodeConfig, NodeStatus, WaveItem}
use lighter_integration.Sequencer.Node.Tick.{
  is_late, keep_time, dispatch_waves, cut_overdue, report, seal_batch, on_tick,
}
use lighter_integration.Sequencer.Node.Waves.{apply_wave, solved_wave}
use lighter_integration.Sequencer.Node.Anchors.{
  keys_bound, get, next_anchor, push_anchor, anchor_rounds, maybe_anchor,
}
use lighter_integration.Sequencer.Node.Coordinator.{
  entropy_or_zero, drop_key, Event, submission, tick_end, segment_end, segment_proof, wave,
  clock_closed, keep_segment, on_segment_end, on_segment_proof, on_wave, final_cutoff, seal_of,
  coordinate, handle,
}
use lighter_integration.Sequencer.Node.Log.{ticks-set_gaps}

pub record LogView : Type 0 where
  pub config : NodeConfig
  pub identity : Bytes
  pub admission : Admission
  pub ticks : List (ℕ × SealedTick)
  pub c_prev : Hash32
  pub fence_active : Bool

abbrev pub view : Node → LogView
view node = record {
  config = node.config;
  identity = node.identity;
  admission = node.admission;
  ticks = node.store.ticks;
  c_prev = node.c_prev;
  fence_active = node.fence_active;
}

-- the view with other ticks
abbrev pub with_ticks : LogView → List (ℕ × SealedTick) → LogView
with_ticks v ticks = record v { ticks = ticks }

final_cutoff-view : (node : Node) → view (final_cutoff node) ≡ view node
unfolding final_cutoff
final_cutoff-view node =
    split (node.clock_closed && node.proofs_pending == 0 && node.solver_outstanding == 0)
  where
    split :
        (b : Bool)
        → view (
            if b
            then record node {
              store =
                  set_gaps
                    (overdue_positions node.store node.current_tick
                      (grace_ticks node.config.params))
                    node.store;
              status = record node.status { finished = true };
            }
            else node)
          ≡ view node
    split true = ap (with_ticks (view node)) (
        ticks-set_gaps
          (overdue_positions node.store node.current_tick (grace_ticks node.config.params))
          node.store)
    split false = refl

cut_overdue-view : (tick : ℕ) (node : Node) → view (cut_overdue tick node) ≡ view node
unfolding cut_overdue
cut_overdue-view tick node =
    ap (with_ticks (view node)) (
      ticks-set_gaps (overdue_positions node.store tick (grace_ticks node.config.params))
        node.store)

-- An event that is neither the end of a tick nor a submission.
abbrev pub is_aside : Event → Bool
is_aside (submission bytes stored) = false
is_aside (tick_end segment tick x written elapsed) = false
is_aside (segment_end segment y x_end entropy) = true
is_aside (segment_proof segment proof written attest takes) = true
is_aside (wave key items solution) = true
is_aside clock_closed = true

module _ (primitives : Primitives) where
  anchor_rounds-view :
      (fuel : ℕ) (attest : ℕ → ℕ → Hash32) (takes : Bool) (node : Node)
      → view (anchor_rounds primitives fuel attest takes node) ≡ view node
  unfolding anchor_rounds push_anchor
  anchor_rounds-view zero attest takes node = refl
  anchor_rounds-view (suc fuel) attest takes node =
      split (next_anchor primitives node attest)
        (λ a. anchor_rounds-view fuel attest takes (push_anchor primitives takes a node))
    where
      split :
          (o : Option Anchor)
          → ((a : Anchor)
              → view
                  (anchor_rounds primitives fuel attest takes (push_anchor primitives takes a node))
                ≡ view node)
          → view (elim o [
            | none ↦ node
            | some a ↦
                anchor_rounds primitives fuel attest takes (push_anchor primitives takes a node)
          ])
            ≡ view node
      split none rest = refl
      split (some a) rest = rest a

  maybe_anchor-view :
      (attest : ℕ → ℕ → Hash32) (takes : Bool) (node : Node)
      → view (maybe_anchor primitives attest takes node) ≡ view node
  unfolding maybe_anchor
  maybe_anchor-view attest takes node =
      anchor_rounds-view (keys_bound node.store.segments + 1) attest takes node

  ticks-keep_segment :
      (seal : SegmentSeal) (written : Bool) (store : ChainStore)
      → (keep_segment seal written store).ticks ≡ store.ticks
  unfolding keep_segment insert_segment
  ticks-keep_segment seal true store = refl
  ticks-keep_segment seal false store = refl

  module _ (crypto : Crypto) (parse_intent : Bytes → Option Intent) where
    ticks-apply_wave :
        (items : List WaveItem) (ws : List ℕ) (store : ChainStore) (status : NodeStatus)
        → (apply_wave primitives crypto parse_intent items ws (store, status)).0.ticks ≡ store.ticks
    unfolding apply_wave set_outcome
    ticks-apply_wave [] ws store status = refl
    ticks-apply_wave (item ∷ items) [] store status = refl
    ticks-apply_wave (item ∷ items) (w ∷ ws) store status = ticks-apply_wave items ws _ _

    solved_wave-view :
        (key : ℕ × ℕ) (items : List WaveItem) (solution : Result Bytes WaveSolution) (node : Node)
        → view (solved_wave primitives crypto parse_intent key items solution node) ≡ view node
    unfolding solved_wave
    solved_wave-view key items (err e) node = refl
    solved_wave-view (m, class) items (ok sol) node =
        ap (with_ticks (view node)) (ticks-apply_wave items sol.witnesses node.store node.status)

    -- The events other than the end of a tick and a submission leave the log alone.
    ended-view :
        (node next : Node)
        → view next ≡ view node
        → view (if node.status.finished then node else final_cutoff next) ≡ view node
    ended-view node next same = split node.status.finished
      where
        split : (b : Bool) → view (if b then node else final_cutoff next) ≡ view node
        split true = refl
        split false = final_cutoff-view next ∙ same

    on_segment_proof-view :
        (segment : ℕ) (proof : SequentialProof) (written : Bool) (attest : ℕ → ℕ → Hash32)
        (takes : Bool) (node : Node)
        → view (on_segment_proof primitives segment proof written attest takes node) ≡ view node
    unfolding on_segment_proof
    on_segment_proof-view segment proof written attest takes node =
        split (get segment node.seal_bases)
      where
        entropy : Hash32
        entropy = entropy_or_zero (get segment node.entropies)

        counted : Node
        counted = record node { proofs_pending = node.proofs_pending - 1 }

        kept : ℕ × ℕ → Node
        kept base = record counted {
          seal_bases = drop_key segment node.seal_bases;
          store =
              keep_segment (seal_of primitives node segment entropy base proof) written node.store;
        }

        split :
            (o : Option (ℕ × ℕ))
            → view (elim o [
              | none ↦ counted
              | some base ↦ maybe_anchor primitives attest takes (kept base)
            ])
              ≡ view node
        split none = refl
        split (some base) =
            maybe_anchor-view attest takes (kept base)
            ∙ ap (with_ticks (view node)) (ticks-keep_segment _ written node.store)

    pub aside-view :
        (ev : Event) (node : Node)
        → is_aside ev ≡ true
        → view (coordinate primitives crypto parse_intent ev node) ≡ view node
    unfolding coordinate handle on_wave on_segment_end
    aside-view (submission bytes stored) node h = absurd (cc h)
    aside-view (tick_end segment tick x written elapsed) node h = absurd (cc h)
    aside-view (segment_end segment y x_end entropy) node h =
        ended-view node (on_segment_end segment y x_end entropy node) refl
    aside-view (segment_proof segment proof written attest takes) node h =
        ended-view node (on_segment_proof primitives segment proof written attest takes node)
          (on_segment_proof-view segment proof written attest takes node)
    aside-view (wave key items solution) node h =
        ended-view node (on_wave primitives crypto parse_intent key items solution node)
          (solved_wave-view key items solution _)
    aside-view clock_closed node h = ended-view node (record node { clock_closed = true }) refl

    keep_time_idle :
        (late : Bool) (tick : ℕ) (node : Node)
        → late ≡ false
        → node.fence_active ≡ false
        → keep_time late tick node ≡ node
    unfolding keep_time
    keep_time_idle true tick node in_time idle = absurd (cc in_time)
    keep_time_idle false tick node in_time idle = split node.fence_active idle
      where
        lifted : Node
        lifted = record node { admission = lift_fence node.admission; fence_active = false }

        split : (b : Bool) → b ≡ false → (if b then lifted else node) ≡ node
        split true e = absurd (cc e)
        split false e = refl

    -- The end of a tick in time, where no fence is up, is the sealing of the batch.
    pub tick_end-view :
        (segment tick x elapsed : ℕ) (written : Bool) (node : Node)
        → node.status.finished ≡ false
        → is_late node.config tick elapsed ≡ false
        → node.fence_active ≡ false
        → view (
            coordinate primitives crypto parse_intent
              (tick_end segment tick x written elapsed)
              node)
          ≡ view (seal_batch primitives segment tick x written node)
    unfolding coordinate handle on_tick dispatch_waves report
    tick_end-view segment tick x elapsed written node running in_time idle =
        let sealed = seal_batch primitives segment tick x written node in
        let timed = keep_time_idle (is_late node.config tick elapsed) tick sealed in_time idle in
        let next = on_tick primitives segment tick x written elapsed node in
        ap (λ (b : Bool). view (if b then node else final_cutoff next)) running
        ∙ final_cutoff-view next
        ∙ cut_overdue-view tick
            (dispatch_waves tick (keep_time (is_late node.config tick elapsed) tick sealed))
        ∙ ap view timed
