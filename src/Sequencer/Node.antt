-- ===== src/Sequencer/Node.antt =====
-- crates/sequencer/src/node.rs: the state of the node. What other threads do arrives as events; a solver
-- thread that was spawned is an entry of `solving`.
pub mod Tick
pub mod Waves
pub mod Anchors
pub mod Coordinator
pub mod Sealing
pub mod Log
pub mod View
pub mod Sound
pub mod Replays
pub mod SealView
pub mod Clocked
pub mod Start
pub mod Sealed
pub mod Kept
pub mod Proving
pub mod Keeping
pub mod SealsVerify
pub mod Rounds
pub mod Spans
pub mod StandsFor
pub mod Anchored
pub mod Opens
use lighter_integration.Base.{ℕ, ◌-◌, Bool, false, Bytes, Hash32, List, [], ◌∷◌, Option}
use lighter_integration.Sequencer.Params.{PosqParams}
use lighter_integration.Sequencer.Identity.{Primitives}
use lighter_integration.Sequencer.Envelope.{Ciphertext}
use lighter_integration.Sequencer.Records.{log_genesis}
use lighter_integration.Sequencer.Admission.{Admission, new_admission}
use lighter_integration.Sequencer.Store.{ChainStore, new_store}
use lighter_integration.Sequencer.Anchor.{Anchor}
use lighter_integration.Vdf.Wave.{WaveSolution}

-- The parts of `NodeConfig` that the coordinator reads.
pub record NodeConfig : Type 0 where
  pub params : PosqParams
  pub enforce_timeliness : Bool
  pub induce_late_tick : Option ℕ

pub record NodeStatus : Type 0 where
  pub current_tick : ℕ
  pub current_segment : ℕ
  pub admitted : ℕ
  pub opened : ℕ
  pub gaps : ℕ
  pub cadence_faults : List ℕ
  pub finished : Bool

pub record StoredWave : Type 0 where
  pub mature_tick : ℕ
  pub class : ℕ
  pub positions : List (ℕ × ℕ)
  pub solution : WaveSolution

pub record WaveItem : Type 0 where
  pub tick : ℕ
  pub pos : ℕ
  pub namespace : ℕ
  pub ct : Ciphertext
  pub aad : Bytes

pub record SeedInput : Type 0 where
  pub c_end : Hash32
  pub entropy : Hash32

-- `Shared` and the variables of `run_coordinator`; a key of a wave is its maturity and its class.
pub record Node : Type 0 where
  pub config : NodeConfig
  pub identity : Bytes
  pub admission : Admission
  pub store : ChainStore
  pub anchors : List Anchor
  pub posted : List Anchor
  pub stored_waves : List StoredWave
  pub status : NodeStatus
  pub current_tick : ℕ
  pub c_prev : Hash32
  pub waves : List ((ℕ × ℕ) × List WaveItem)
  pub solving : List ((ℕ × ℕ) × List WaveItem)
  pub clock_closed : Bool
  pub proofs_pending : ℕ
  pub solver_outstanding : ℕ
  pub entropies : List (ℕ × Hash32)
  pub seal_bases : List (ℕ × (ℕ × ℕ))
  pub seeds : List SeedInput
  pub next_anchor_after_segment : ℕ
  pub fence_active : Bool

abbrev pub default_status : NodeStatus
default_status = record {
  current_tick = 0;
  current_segment = 0;
  admitted = 0;
  opened = 0;
  gaps = 0;
  cadence_faults = [];
  finished = false;
}

-- The state that `SequencerNode::start` and the head of `run_coordinator` set up.
unfoldable pub new_node : Primitives → NodeConfig → Bytes → Bytes → Hash32 → Node
unfolding new_admission log_genesis
new_node primitives config identity issuer genesis_entropy = record {
  config = config;
  identity = identity;
  admission = new_admission primitives config.params identity issuer;
  store = new_store;
  anchors = [];
  posted = [];
  stored_waves = [];
  status = default_status;
  current_tick = 0;
  c_prev = log_genesis primitives config.params.epoch;
  waves = [];
  solving = [];
  clock_closed = false;
  proofs_pending = 0;
  solver_outstanding = 0;
  entropies = (0, genesis_entropy) ∷ [];
  seal_bases = [];
  seeds = [];
  next_anchor_after_segment = config.params.anchor_every_segments - 1;
  fence_active = false;
}
