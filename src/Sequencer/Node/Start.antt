-- ===== src/Sequencer/Node/Start.antt =====
-- `SequencerNode::start` (crates/sequencer/src/node.rs): what it refuses, and the node, the delay parameters,
-- the faucet and the clock that it sets up.
use lighter_integration.Base.{
  ℕ, ◌^◌, ◌<◌, ◌≡◌, ◌∙◌, ap, Bool, true, false, Bytes, Hash32, List, ◌++◌, All, map, Option, none,
  some, Result, ok, err, if◌then◌else◌, codes, wrap, ◌%◌, ◌≤◌, get_elem?,
}
use lighter_integration.Plugin.Canonical.{to_be_bytes}
use lighter_integration.Sequencer.Params.{dev, min_delay_squarings, check_no_look}
use lighter_integration.Sequencer.Params.NoLook.{NoLook, dev_passes}
use lighter_integration.Sequencer.Identity.{Primitives, Address, address}
use lighter_integration.Sequencer.Admission.Faucet.{
  TicketFaucet, Mint, new_faucet, issuer_address, mint_all,
}
use lighter_integration.Sequencer.Envelope.{Ticket, ticket_verify}
use lighter_integration.Sequencer.Clock.Loop.{ClockConfig}
use lighter_integration.Sequencer.Node.{Node, NodeConfig, new_node}
use lighter_integration.Sequencer.Node.Clocked.{clock_config}
use lighter_integration.Vdf.Hashing.{Crypto}
use lighter_integration.Vdf.Posq.{Group, Oracle}
use lighter_integration.Vdf.Tlk.{TlkParams, DelayClass, setup, verify_setup}

-- The class, its delay and the least delay of the message; and `DaStore::open` or `DaStore::temp`.
pub data StartError : Type 0 where
  violates_no_look : ℕ → ℕ → ℕ → StartError
  store_unavailable : StartError

-- The `NodeConfig` of `start`: what the coordinator reads of it, and the rest.
pub record Launch : Type 0 where
  pub config : NodeConfig
  pub identity_seed : Bytes
  pub max_segments : Option ℕ

-- `NodeConfig::dev`
abbrev pub dev_launch : ℕ → Launch
dev_launch max_segments = record {
  config = record { params = dev 2000 8; enforce_timeliness = false; induce_late_tick = none };
  identity_seed = codes "dev-sequencer";
  max_segments = some max_segments;
}

-- What `start` sets up before it spawns the threads.
pub record Started : Type 0 where
  pub node : Node
  pub tlk : TlkParams
  pub faucet : TicketFaucet
  pub sequencer_address : Address
  pub clock : ClockConfig

-- `entropy_for`, at a time in nanoseconds
unfoldable pub entropy_for : Primitives → ℕ → ℕ → ℕ → Hash32
unfolding to_be_bytes
entropy_for primitives epoch segment now = primitives.keccak256 (
    codes "posq-local-entropy"
    ++ to_be_bytes 8 epoch
    ++ to_be_bytes 8 segment
    ++ to_be_bytes 8 (wrap now))

module _ (primitives : Primitives) (oracle : Oracle) (crypto : Crypto) (group : Group)
    (from_seed : Bytes → Bytes) where
  unfoldable pub started : Launch → ℕ → Started
  unfolding setup new_faucet issuer_address address entropy_for new_node clock_config
  started launch now =
      let params = launch.config.params in
      let identity = from_seed launch.identity_seed in
      let faucet = new_faucet (from_seed (launch.identity_seed ++ codes "-tickets")) in
      let entropy = entropy_for primitives params.epoch 0 now in
      record {
        node =
            new_node primitives launch.config identity (issuer_address primitives faucet) entropy;
        tlk = setup oracle crypto group params.delay_classes;
        faucet = faucet;
        sequencer_address = address primitives identity;
        clock = clock_config primitives group launch.config launch.max_segments entropy;
      }

  abbrev pub past_check :
      Launch → Bool → ℕ → Result (ℕ × ℕ × ℕ) (Unit {0}) → Result StartError Started
  past_check launch opens now (err (k, t, min_t)) = err (violates_no_look k t min_t)
  past_check launch opens now (ok _) =
      if opens then ok (started launch now) else err store_unavailable

  -- `SequencerNode::start`, where the directory of the store opens or not; `none` is the division by
  -- zero in check_no_look.
  unfoldable pub start : Launch → Bool → ℕ → Option (Result StartError Started)
  unfolding check_no_look started
  start launch opens now = elim (check_no_look launch.config.params) [
    | none ↦ none
    | some result ↦ some (past_check launch opens now result)
  ]

module _ (primitives : Primitives) (oracle : Oracle) (crypto : Crypto) (group : Group) where
  -- What a node that has started offers: every delay class satisfies Equation (1), anybody can check the
  -- delay parameters, which are for these classes, and the admission takes the tickets of the faucet.
  pub record Serves (launch : Launch) (s : Started) : Type 0 where
    pub no_look : All (NoLook launch.config.params) launch.config.params.delay_classes
    pub set_up : verify_setup oracle crypto s.tlk ≡ ok true
    pub delays :
        map (λ (c : DelayClass). c.t_squarings) s.tlk.classes ≡ launch.config.params.delay_classes
    pub paid :
        (ms : List Mint)
        → All
            (λ (t : Ticket). ticket_verify primitives t s.node.admission.ticket_issuer ≡ true)
            (mint_all primitives s.faucet ms)

module _ (primitives : Primitives) (oracle : Oracle) (crypto : Crypto) (group : Group)
    (from_seed : Bytes → Bytes) (launch : Launch) where
  -- How `start` ends, where the store opens or not.
  pub data Answer (opens : Bool) : Option (Result StartError Started) → Type 0 where
    no_rate :
        min_delay_squarings launch.config.params launch.config.params.window_ticks ≡ none
        → Answer opens none
    refused :
        (k t min_t : ℕ)
        → min_delay_squarings launch.config.params launch.config.params.window_ticks ≡ some min_t
        → get_elem? launch.config.params.delay_classes k ≡ some t
        → t ≤ min_t
        → Answer opens (some (err (violates_no_look (k % 256) t min_t)))
    no_store : opens ≡ false → Answer opens (some (err store_unavailable))
    serves :
        (s : Started)
        → opens ≡ true
        → Serves primitives oracle crypto group launch s
        → Answer opens (some (ok s))

-- For every q from 1 to 2 ^ 40 and every segment length, a node with the development profile starts,
-- if its store opens.
pub start-dev :
    (primitives : Primitives) (oracle : Oracle) (crypto : Crypto) (group : Group)
    (from_seed : Bytes → Bytes) (launch : Launch) (q segment_ticks now : ℕ)
    → launch.config.params ≡ dev q segment_ticks
    → 0 < q
    → q < 2 ^ 40
    → start primitives oracle crypto group from_seed launch true now
      ≡ some (ok (started primitives oracle crypto group from_seed launch now))
unfolding start
start-dev primitives oracle crypto group from_seed launch q segment_ticks now profile pos small =
    ap
      (λ o. elim o as (λ _. Option (Result StartError Started)) [
        | none ↦ none
        | some result ↦
            some (past_check primitives oracle crypto group from_seed launch true now result)
      ])
      (ap check_no_look profile ∙ dev_passes q segment_ticks pos small)
