-- ===== src/Sequencer/Node/Clocked.antt =====
-- The clock (crates/sequencer/src/clock.rs) and the coordinator (crates/sequencer/src/node.rs) together: the
-- channel keeps the order of what the clock sends, and other events come between.
use lighter_integration.Base.{
  ℕ, suc, ◌+◌, ◌*◌, ◌^◌, ◌<◌, ◌≤◌, ◌≡◌, refl, sym, ap, ◌∙◌, Bool, true, false, Bytes, Hash32, List,
  [], ◌∷◌, ◌++◌, Option, some, get_elem?, length, length-append, ok, Result, arith,
}
use mathlib.Core.List.{append_assoc, append-nil}
use mathlib.Core.Path.{subst, subst₂}
use lighter_integration.Sequencer.Identity.{Primitives, Recovers, Address, address}
use lighter_integration.Sequencer.Envelope.{Intent}
use lighter_integration.Sequencer.Records.{log_genesis}
use lighter_integration.Sequencer.Transcript.{verify_span}
use lighter_integration.Vdf.Hashing.{Crypto}
use lighter_integration.Vdf.Posq.{Group, Oracle}
use lighter_integration.Vdf.Wave.{WaveSolution}
use lighter_integration.Sequencer.Clock.{Tick, segment_proof}
use lighter_integration.Sequencer.Clock.Loop.{ClockConfig, ClockEvent, ticked, ended, run_clock}
use lighter_integration.Sequencer.Clock.Numbering.{
  numbers, numbers-append, count_up, count_up-next, numbers-run_clock,
}
use lighter_integration.Sequencer.Node.{Node, NodeConfig, WaveItem, new_node}
use lighter_integration.Sequencer.Node.Tick.{is_late}
use lighter_integration.Sequencer.Node.Anchors.{get}
use lighter_integration.Sequencer.Node.Coordinator.{Event, submission, wave, coordinate}
use lighter_integration.Sequencer.Node.Replays.{OnTime, on_time_log_replays}

-- The segments that have ended.
unfoldable pub ends_of : List ClockEvent → List (ℕ × (ℕ × ℕ))
ends_of [] = []
ends_of (ticked t ∷ events) = ends_of events
ends_of (ended segment y x_end ∷ events) = (segment, (y, x_end)) ∷ ends_of events

-- `clock_cfg` of `SequencerNode::start`; `max_segments` is a field of the node's configuration that only
-- the clock reads.
unfoldable pub clock_config : Primitives → Group → NodeConfig → Option ℕ → Hash32 → ClockConfig
unfolding log_genesis
clock_config primitives group config max_segments genesis_entropy = record {
  group = group;
  epoch = config.params.epoch;
  q = config.params.q_squarings;
  segment_ticks = config.params.segment_ticks;
  max_segments = max_segments;
  genesis_entropy = genesis_entropy;
  genesis_c = log_genesis primitives config.params.epoch;
}

module _ (primitives : Primitives) (crypto : Crypto) (parse_intent : Bytes → Option Intent)
    (oracle : Oracle) (cfg : ClockConfig) where
  -- The coordinator has handled these events of the clock, each tick in time and written. Between them
  -- come submissions, solved waves, and the proof of a segment that has ended, from the thread that
  -- the clock spawned for it.
  pub data Handled (start : Node) : List ClockEvent → Node → Type 0 where
    begun : Handled start [] start
    ticks :
        {sent : List ClockEvent} {node : Node} (t : Tick) (elapsed : ℕ)
        → Handled start sent node
        → node.status.finished ≡ false
        → is_late node.config t.tick elapsed ≡ false
        → Handled start (sent ++ ticked t ∷ []) (
            coordinate primitives crypto parse_intent
              (Event.tick_end t.segment t.tick t.x true elapsed)
              node)
    ends :
        {sent : List ClockEvent} {node : Node} (segment y x_end : ℕ) (entropy : Hash32)
        → Handled start sent node
        → node.status.finished ≡ false
        → Handled start (sent ++ ended segment y x_end ∷ []) (
            coordinate primitives crypto parse_intent
              (Event.segment_end segment y x_end entropy)
              node)
    proves :
        {sent : List ClockEvent} {node : Node} (i segment y x_end : ℕ) (written : Bool)
        (attest : ℕ → ℕ → Hash32) (host_takes : Bool)
        → Handled start sent node
        → get_elem? (ends_of sent) i ≡ some (segment, (y, x_end))
        → Handled start sent (
            coordinate primitives crypto parse_intent
              (Event.segment_proof segment
                (segment_proof oracle cfg.group cfg.q cfg.segment_ticks y x_end)
                written
                attest
                host_takes)
              node)
    takes :
        {sent : List ClockEvent} {node : Node} (bytes : Bytes) (stored : Bool)
        → Handled start sent node
        → Handled start sent
            (coordinate primitives crypto parse_intent (submission bytes stored) node)
    solves :
        {sent : List ClockEvent} {node : Node} (key : ℕ × ℕ) (items : List WaveItem)
        (solution : Result Bytes WaveSolution)
        → Handled start sent node
        → Handled start sent
            (coordinate primitives crypto parse_intent (wave key items solution) node)
    closes :
        {sent : List ClockEvent} {node : Node}
        → Handled start sent node
        → Handled start sent (coordinate primitives crypto parse_intent Event.clock_closed node)

  numbers-ticked :
      (sent : List ClockEvent) (t : Tick)
      → numbers (sent ++ ticked t ∷ []) ≡ numbers sent ++ t.tick ∷ []
  unfolding numbers
  numbers-ticked sent t = numbers-append sent (ticked t ∷ [])

  numbers-ended :
      (sent : List ClockEvent) (segment y x_end : ℕ)
      → numbers (sent ++ ended segment y x_end ∷ []) ≡ numbers sent
  unfolding numbers
  numbers-ended sent segment y x_end =
      numbers-append sent (ended segment y x_end ∷ []) ∙ append-nil (numbers sent)

  module _ (config : NodeConfig) (identity : Bytes) where
    -- Where the ticks are numbered from 1 on, the run is one whose ticks end one by one in time.
    Handled-OnTime :
        {start node : Node} {sent : List ClockEvent} (rest : List ℕ) (n : ℕ)
        → numbers sent ++ rest ≡ count_up 1 n
        → Handled start sent node
        → OnTime primitives config identity crypto parse_intent start (length (numbers sent)) node
    unfolding numbers
    Handled-OnTime rest n e begun = OnTime.started
    Handled-OnTime {start} rest n e (ticks {sent} {node} t elapsed h running in_time) =
        let apart : numbers sent ++ t.tick ∷ rest ≡ count_up 1 n =
          sym (append_assoc (numbers sent) (t.tick ∷ []) rest)
          ∙ ap (λ l. l ++ rest) (sym (numbers-ticked sent t))
          ∙ e in
        let number : t.tick ≡ suc (length (numbers sent)) =
          omega (arith, count_up-next (numbers sent) rest t.tick 1 n apart) in
        let count : length (numbers (sent ++ ticked t ∷ [])) ≡ suc (length (numbers sent)) =
          ap length (numbers-ticked sent t)
          ∙ (length-append (numbers sent) (t.tick ∷ []) ∙ omega arith) in
        let late : is_late node.config (suc (length (numbers sent))) elapsed ≡ false =
          ap (λ k. is_late node.config k elapsed) (sym number) ∙ in_time in
        let next =
          OnTime.ticks t.segment t.x elapsed (Handled-OnTime (t.tick ∷ rest) n apart h) running
            late in
        subst₂
          (λ k number. OnTime primitives config identity crypto parse_intent start k (
            coordinate primitives crypto parse_intent
              (Event.tick_end t.segment number t.x true elapsed) node))
          (sym count) (sym number) next
    Handled-OnTime {start} rest n e (ends {sent} {node} segment y x_end entropy h running) =
        let same = numbers-ended sent segment y x_end in
        subst
          (λ k. OnTime primitives config identity crypto parse_intent start k (
            coordinate primitives crypto parse_intent (Event.segment_end segment y x_end entropy)
              node))
          (ap length (sym same))
          (OnTime.turns (Event.segment_end segment y x_end entropy) refl
            (Handled-OnTime rest n (ap (λ l. l ++ rest) (sym same) ∙ e) h))
    Handled-OnTime {start} rest n e (proves i segment y x_end written attest host_takes h of) =
        OnTime.turns _ refl (Handled-OnTime rest n e h)
    Handled-OnTime {start} rest n e (takes bytes stored h) =
        OnTime.takes bytes stored (Handled-OnTime rest n e h)
    Handled-OnTime {start} rest n e (solves key items solution h) =
        OnTime.turns (wave key items solution) refl (Handled-OnTime rest n e h)
    Handled-OnTime {start} rest n e (closes h) =
        OnTime.turns Event.clock_closed refl (Handled-OnTime rest n e h)

-- In a run of a fresh node and its clock, however submissions, waves and the proofs of segments come
-- between what the clock sends, if the ticks end in time and are written, verify_span accepts the
-- ticks 1 to the number of ticks handled, from the genesis commitment to the current one; a batch
-- has at most 2^31 entries of a bucket, signatures recover, and the tick numbers of the segments fit
-- in 64 bits.
pub clocked_log_replays :
    (primitives : Primitives) (crypto : Crypto) (parse_intent : Bytes → Option Intent)
    (oracle : Oracle) (hash_to_group : Bytes → Bytes → ℕ) (group : Group) (config : NodeConfig)
    (max_segments : Option ℕ) (identity : Bytes) (issuer : Address) (entropy : Hash32)
    (sent rest : List ClockEvent) (node : Node)
    → Recovers primitives
    → config.params.capacity_per_tick_per_bucket ≤ 2 ^ 31
    → length node.seeds + 1 < 2 ^ 64
    → (length node.seeds + 1) * config.params.segment_ticks < 2 ^ 64
    → Handled primitives crypto parse_intent oracle
        (clock_config primitives group config max_segments entropy)
        (new_node primitives config identity issuer entropy)
        sent
        node
    → sent ++ rest
      ≡ run_clock primitives hash_to_group
          (clock_config primitives group config max_segments entropy)
          node.seeds
    → verify_span primitives config.params.epoch
        (address primitives identity)
        (log_genesis primitives config.params.epoch)
        1
        (length (numbers sent))
        (λ t. get t node.store.ticks)
        []
      ≡ ok node.c_prev
unfolding clock_config
clocked_log_replays primitives crypto parse_intent oracle hash_to_group group config max_segments
      identity issuer entropy sent rest node law small few fits h clock =
    let cfg = clock_config primitives group config max_segments entropy in
    let numbered =
      sym (numbers-append sent rest)
      ∙ ap numbers clock
      ∙ numbers-run_clock primitives hash_to_group cfg node.seeds few fits in
    on_time_log_replays primitives config identity crypto parse_intent issuer entropy
      (length (numbers sent)) node law small
      (Handled-OnTime primitives crypto parse_intent oracle cfg config identity (numbers rest) _
        numbered h)
