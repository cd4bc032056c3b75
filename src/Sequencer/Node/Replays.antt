-- ===== src/Sequencer/Node/Replays.antt =====
-- Runs of the coordinator (crates/sequencer/src/node.rs) whose ticks end in time, and the replay of the
-- log (crates/sequencer/src/transcript.rs).
use lighter_integration.Base.{
  ℕ, suc, ◌^◌, ◌≤◌, ◌≡◌, sym, Bool, true, false, Bytes, Hash32, [], Option, ok, arith,
}
use mathlib.Core.Path.{subst}
use lighter_integration.Sequencer.Identity.{Primitives, Recovers, Address, address}
use lighter_integration.Sequencer.Envelope.{Intent}
use lighter_integration.Sequencer.Records.{log_genesis}
use lighter_integration.Sequencer.Admission.Runs.{Capped-submit}
use lighter_integration.Sequencer.Admission.Placed.{PlacedTicks-submit}
use lighter_integration.Sequencer.Admission.Distinct.{Distinct-submit}
use lighter_integration.Sequencer.Transcript.{verify_span}
use lighter_integration.Sequencer.Transcript.Valid.{Span}
use lighter_integration.Sequencer.Transcript.Complete.{verify_span-iff-Span}
use lighter_integration.Vdf.Hashing.{Crypto}
use lighter_integration.Sequencer.Node.{Node, NodeConfig, new_node}
use lighter_integration.Sequencer.Node.Tick.{is_late}
use lighter_integration.Sequencer.Node.Anchors.{get}
use lighter_integration.Sequencer.Node.Coordinator.{Event, submission, tick_end, handle, coordinate}
use lighter_integration.Sequencer.Node.Log.{span_seen}
use lighter_integration.Sequencer.Node.View.{view, is_aside, aside-view, tick_end-view}
use lighter_integration.Sequencer.Node.Sound.{Sound, Sound-new_node, Sound-seal_batch, log_of}

module _ (primitives : Primitives) (config : NodeConfig) (identity : Bytes) (crypto : Crypto)
    (parse_intent : Bytes → Option Intent) where
  -- The states after `count` ticks that end in time, one by one, and whose batches are written;
  -- between them come submissions, ends and proofs of segments, waves and the end of the clock.
  pub data OnTime (start : Node) : ℕ → Node → Type 0 where
    started : OnTime start 0 start
    ticks :
        {count : ℕ} {node : Node} (segment x elapsed : ℕ)
        → OnTime start count node
        → node.status.finished ≡ false
        → is_late node.config (suc count) elapsed ≡ false
        → OnTime start (suc count) (
            coordinate primitives crypto parse_intent
              (tick_end segment (suc count) x true elapsed)
              node)
    takes :
        {count : ℕ} {node : Node} (bytes : Bytes) (stored : Bool)
        → OnTime start count node
        → OnTime start count
            (coordinate primitives crypto parse_intent (submission bytes stored) node)
    turns :
        {count : ℕ} {node : Node} (ev : Event)
        → is_aside ev ≡ true
        → OnTime start count node
        → OnTime start count (coordinate primitives crypto parse_intent ev node)

  Sound-submission :
      (count : ℕ) (bytes : Bytes) (stored : Bool) (node : Node)
      → config.params.capacity_per_tick_per_bucket ≤ 2 ^ 31
      → Sound primitives config identity count (view node)
      → Sound primitives config identity count
          (view (coordinate primitives crypto parse_intent (submission bytes stored) node))
  unfolding coordinate handle
  Sound-submission count bytes stored node small s = record {
    same_config = s.same_config;
    same_identity = s.same_identity;
    idle = s.idle;
    placed = PlacedTicks-submit primitives node.admission bytes stored s.placed;
    capped =
        Capped-submit primitives config.params node.admission bytes stored (omega arith) s.capped;
    distinct =
        Distinct-submit primitives
          (span_seen (log_of primitives config identity (view node)) count 1 []) node.admission
          bytes stored s.distinct;
    span = s.span;
  }

  OnTime-Sound :
      {start node : Node} {count : ℕ}
      → Recovers primitives
      → config.params.capacity_per_tick_per_bucket ≤ 2 ^ 31
      → Sound primitives config identity 0 (view start)
      → OnTime start count node
      → Sound primitives config identity count (view node)
  OnTime-Sound law small s started = s
  OnTime-Sound law small s (ticks {count} {node} segment x elapsed r running in_time) =
      let before = OnTime-Sound law small s r in
      let step =
        tick_end-view primitives crypto parse_intent segment (suc count) x elapsed true node running
          in_time before.idle in
      subst (λ v. Sound primitives config identity (suc count) v) (sym step)
        (Sound-seal_batch primitives config identity count segment x node law small before)
  OnTime-Sound law small s (takes {count} {node} bytes stored r) =
      Sound-submission count bytes stored node small (OnTime-Sound law small s r)
  OnTime-Sound law small s (turns {count} {node} ev aside r) =
      subst (λ v. Sound primitives config identity count v)
        (sym (aside-view primitives crypto parse_intent ev node aside)) (OnTime-Sound law small s r)

  -- Whatever submissions, waves, ends and proofs of segments come between the ticks, in a run of a
  -- fresh node whose ticks end one by one in time and are written, verify_span accepts the ticks
  -- sealed so far from the genesis commitment to the current one, if a batch has at most 2^31
  -- entries of a bucket and signatures recover.
  pub on_time_log_replays :
      (issuer : Address) (entropy : Hash32) (count : ℕ) (node : Node)
      → Recovers primitives
      → config.params.capacity_per_tick_per_bucket ≤ 2 ^ 31
      → OnTime (new_node primitives config identity issuer entropy) count node
      → verify_span primitives config.params.epoch
          (address primitives identity)
          (log_genesis primitives config.params.epoch)
          1
          count
          (λ t. get t node.store.ticks)
          []
        ≡ ok node.c_prev
  on_time_log_replays issuer entropy count node law small r =
      let s = OnTime-Sound law small (Sound-new_node primitives config identity issuer entropy) r in
      (verify_span-iff-Span primitives config.params.epoch (address primitives identity)
          (log_genesis primitives config.params.epoch) node.c_prev 1 count
          (λ t. get t node.store.ticks) []).1
        (subst
          (λ (n : ℕ).
            Span primitives config.params.epoch (address primitives identity)
              (log_of primitives config identity (view node)) n 1
              (log_genesis primitives config.params.epoch) node.c_prev [])
          (omega arith) s.span)
