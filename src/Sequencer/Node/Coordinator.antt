-- ===== src/Sequencer/Node/Coordinator.antt =====
-- The loop of `run_coordinator` (crates/sequencer/src/node.rs), one event at a time, with the submissions
-- of the service between the events.
use lighter_integration.Base.{
  ℕ, ◌+◌, ◌-◌, Bool, true, ◌&&◌, Bytes, Hash32, List, [], ◌∷◌, ◌++◌, Option, none, some, replicate,
  ◌==◌, if◌then◌else◌, Result, wrap,
}
use lighter_integration.Sequencer.Params.{grace_ticks}
use lighter_integration.Sequencer.Identity.{Primitives, sign}
use lighter_integration.Sequencer.Envelope.{Intent}
use lighter_integration.Sequencer.Records.{
  SegmentSeal, SequentialProof, hash_group_element, segment_seal_message,
}
use lighter_integration.Sequencer.Admission.Submit.{submit}
use lighter_integration.Sequencer.Store.{
  ChainStore, insert, insert_segment, overdue_positions, set_gaps,
}
use lighter_integration.Vdf.Hashing.{Crypto}
use lighter_integration.Vdf.Wave.{WaveSolution}
use lighter_integration.Sequencer.Node.{Node, WaveItem}
use lighter_integration.Sequencer.Node.Tick.{on_tick}
use lighter_integration.Sequencer.Node.Waves.{solved_wave}
use lighter_integration.Sequencer.Node.Anchors.{get, maybe_anchor}

-- `NodeEvent`, with what the machine decides: whether a write succeeds, the microseconds that have
-- elapsed, fresh entropy, the attestation of a span, whether the host takes an anchor. `submission` is
-- `Admission::submit` from the service; its flag says whether the envelope is stored.
pub data Event : Type 0 where
  submission : Bytes → Bool → Event
  tick_end : ℕ → ℕ → ℕ → Bool → ℕ → Event
  segment_end : ℕ → ℕ → ℕ → Hash32 → Event
  segment_proof : ℕ → SequentialProof → Bool → (ℕ → ℕ → Hash32) → Bool → Event
  wave : ℕ × ℕ → List WaveItem → Result Bytes WaveSolution → Event
  clock_closed : Event

-- `map.remove(&key)`
unfoldable pub drop_key {ℓ} : {A : Type ℓ} → ℕ → List (ℕ × A) → List (ℕ × A)
drop_key key [] = []
drop_key key ((k, v) ∷ map) =
    let rest = drop_key key map in if k == key then rest else (k, v) ∷ rest

-- `NodeEvent::Clock(ClockEvent::SegmentEnd { .. })`
unfoldable pub on_segment_end : ℕ → ℕ → ℕ → Hash32 → Node → Node
unfolding insert
on_segment_end segment y x_end entropy node = record node {
  proofs_pending = wrap (node.proofs_pending + 1);
  seal_bases = insert segment (y, x_end) node.seal_bases;
  entropies = insert (wrap (segment + 1)) entropy node.entropies;
  seeds = node.seeds ++ record { c_end = node.c_prev; entropy = entropy } ∷ [];
}

-- `entropies.get(&segment).copied().unwrap_or_default()`
abbrev pub entropy_or_zero : Option Hash32 → Hash32
entropy_or_zero none = replicate 32 0
entropy_or_zero (some r) = r

-- The result of `insert_segment` is ignored.
unfoldable pub keep_segment : SegmentSeal → Bool → ChainStore → ChainStore
unfolding insert_segment
keep_segment seal written store = elim (insert_segment store seal written) [
  | none ↦ store
  | some s ↦ s
]

-- The final cutoff pass, where nothing is outstanding any more.
unfoldable pub final_cutoff : Node → Node
unfolding overdue_positions set_gaps grace_ticks
final_cutoff node =
    if node.clock_closed && node.proofs_pending == 0 && node.solver_outstanding == 0
    then record node {
      store =
          set_gaps (overdue_positions node.store node.current_tick (grace_ticks node.config.params))
            node.store;
      status = record node.status { finished = true };
    }
    else node

module _ (primitives : Primitives) where
  -- the seal of a segment whose proof has arrived
  unfoldable pub seal_of : Node → ℕ → Hash32 → ℕ × ℕ → SequentialProof → SegmentSeal
  unfolding segment_seal_message hash_group_element
  seal_of node segment entropy (y, x_end) proof = record {
    epoch = node.config.params.epoch;
    segment = segment;
    entropy = entropy;
    y = y;
    x_end = x_end;
    proof = proof;
    sig = sign primitives node.identity (
        segment_seal_message primitives node.config.params.epoch segment entropy
          (hash_group_element primitives y) (hash_group_element primitives x_end));
  }

  -- `NodeEvent::Clock(ClockEvent::SegmentProof { .. })`
  unfoldable pub on_segment_proof :
      ℕ → SequentialProof → Bool → (ℕ → ℕ → Hash32) → Bool → Node → Node
  unfolding get drop_key seal_of keep_segment maybe_anchor
  on_segment_proof segment proof written attest takes node =
      let entropy = entropy_or_zero (get segment node.entropies) in
      let counted = record node { proofs_pending = node.proofs_pending - 1 } in
      elim (get segment node.seal_bases) [
        | none ↦ counted
        | some base ↦ maybe_anchor primitives attest takes (record counted {
          seal_bases = drop_key segment node.seal_bases;
          store = keep_segment (seal_of node segment entropy base proof) written node.store;
        })
      ]

  module _ (crypto : Crypto) (parse_intent : Bytes → Option Intent) where
    -- `NodeEvent::Wave { .. }`
    unfoldable pub on_wave : ℕ × ℕ → List WaveItem → Result Bytes WaveSolution → Node → Node
    unfolding solved_wave
    on_wave key items solution node =
        solved_wave primitives crypto parse_intent key items solution
          (record node { solver_outstanding = node.solver_outstanding - 1 })

    -- the `match` on the event
    unfoldable pub handle : Event → Node → Node
    unfolding submit on_tick on_segment_end on_segment_proof on_wave
    handle (submission bytes stored) node = record node {
      admission = (submit primitives node.admission bytes stored).0;
    }
    handle (tick_end segment tick x written elapsed) node =
        on_tick primitives segment tick x written elapsed node
    handle (segment_end segment y x_end entropy) node = on_segment_end segment y x_end entropy node
    handle (segment_proof segment proof written attest takes) node =
        on_segment_proof segment proof written attest takes node
    handle (wave key items solution) node = on_wave key items solution node
    handle clock_closed node = record node { clock_closed = true }

    -- The coordinator after an event; the service still takes submissions once it has ended.
    unfoldable pub coordinate : Event → Node → Node
    unfolding handle final_cutoff submit
    coordinate (submission bytes stored) node = handle (submission bytes stored) node
    coordinate (tick_end segment tick x written elapsed) node =
        if node.status.finished
        then node
        else final_cutoff (handle (tick_end segment tick x written elapsed) node)
    coordinate (segment_end segment y x_end entropy) node =
        if node.status.finished
        then node
        else final_cutoff (handle (segment_end segment y x_end entropy) node)
    coordinate (segment_proof segment proof written attest takes) node =
        if node.status.finished
        then node
        else final_cutoff (handle (segment_proof segment proof written attest takes) node)
    coordinate (wave key items solution) node =
        if node.status.finished then node else final_cutoff (handle (wave key items solution) node)
    coordinate clock_closed node =
        if node.status.finished then node else final_cutoff (handle clock_closed node)
