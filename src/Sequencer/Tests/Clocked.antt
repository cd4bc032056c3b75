-- ===== src/Sequencer/Tests/Clocked.antt =====
-- A node and its clock (crates/sequencer/src/node.rs, crates/sequencer/src/clock.rs) over one segment of
-- two ticks, and the proof of it, in a small group.
use lighter_integration.Base.{
  ℕ, ◌%◌, ◌≤◌, ◌≡◌, ◌^◌, refl, true, false, Bytes, List, [], ◌∷◌, ◌++◌, some, none, ok, length,
  get_elem?, replicate, arith,
}
use lighter_integration.Vdf.Posq.{Group, Oracle, IsOracle, tick_advance}
use lighter_integration.Sequencer.Identity.{address, sign}
use lighter_integration.Sequencer.Records.{log_genesis, SegmentSeal}
use lighter_integration.Sequencer.Transcript.{verify_span}
use lighter_integration.Sequencer.Clock.{Tick, segment_proof, verify_segment}
use lighter_integration.Sequencer.Clock.Loop.{
  ClockConfig, ClockEvent, ticked, ended, run_clock, clock_rounds, SegmentRound,
}
use lighter_integration.Sequencer.Clock.Numbering.{numbers}
use lighter_integration.Vdf.Hashing.{Crypto}
use lighter_integration.Sequencer.Node.{Node, NodeConfig, new_node}
use lighter_integration.Sequencer.Node.Tick.{is_late}
use lighter_integration.Sequencer.Node.Anchors.{get}
use lighter_integration.Sequencer.Node.Coordinator.{Event, tick_end, coordinate}
use lighter_integration.Sequencer.Node.Clocked.{Handled, ends_of, clock_config, clocked_log_replays}
use lighter_integration.Sequencer.Node.Start.{dev_launch, started, start as start_node, start-dev}
use lighter_integration.Sequencer.Node.SealsVerify.{kept_seals_verify}
use lighter_integration.Sequencer.Tests.{
  constant, constant-Recovers, key, someone, small_params, zeros,
}

abbrev small_group : Group
small_group = record { modulus = 143 }

abbrev thirteen : Oracle
thirteen = record { modpow = λ x e n. x ^ e % n; challenge_prime = λ _ _ _ _. 13 }

thirteen-IsOracle : IsOracle thirteen
thirteen-IsOracle = record { power = λ x e n pos. refl; prime = λ domain x y t. omega arith }

abbrev five : Bytes → Bytes → ℕ
five = λ _ _. 5

abbrev cipher : Crypto
cipher = record {
  sha256 = λ _. zeros;
  seal = λ _ _ message _. some message;
  unseal = λ _ _ body _. some body;
  to_bytes_be = λ _. [];
  from_bytes_be = λ _. 0;
}

abbrev config : NodeConfig
config = record {
  params = record (small_params 2) {
    segment_ticks = 2;
    q_squarings = 2;
    anchor_every_segments = 2;
  };
  enforce_timeliness = true;
  induce_late_tick = none;
}

unfoldable clock : ClockConfig
unfolding clock_config
clock = clock_config constant small_group config none zeros

abbrev first : Tick
first = record { segment = 0; tick = 1; x = 53 }

abbrev second : Tick
second = record { segment = 0; tick = 2; x = 27 }

unfoldable start : Node
unfolding new_node
start = new_node constant config key someone zeros

unfoldable after : Event → Node → Node
unfolding coordinate
after ev node = coordinate constant cipher (λ _. none) ev node

abbrev first_done : Node
first_done = after (tick_end 0 1 53 true 5) start

abbrev second_done : Node
second_done = after (tick_end 0 2 27 true 6) first_done

abbrev ended_node : Node
ended_node = after (Event.segment_end 0 5 27 zeros) second_done

abbrev proven : Node
proven =
    after
      (Event.segment_proof 0 (segment_proof thirteen small_group 2 2 5 27) true (λ _ _. zeros) true)
      ended_node

running : start.status.finished ≡ false
unfolding start
running = refl

still_running : first_done.status.finished ≡ false
unfolding after start small_params
still_running = refl

running_yet : second_done.status.finished ≡ false
unfolding after start small_params
running_yet = refl

in_time : is_late start.config 1 5 ≡ false
unfolding start small_params is_late
in_time = refl

still_in_time : is_late first_done.config 2 6 ≡ false
unfolding after start small_params is_late
still_in_time = refl

abbrev sent : List ClockEvent
sent = (([] ++ ticked first ∷ []) ++ ticked second ∷ []) ++ ended 0 5 27 ∷ []

abbrev HandledHere : List ClockEvent → Node → Type 0
HandledHere events node = Handled constant cipher (λ _. none) thirteen clock start events node

handled_end : HandledHere sent ended_node
unfolding after
handled_end =
    Handled.ends 0 5 27 zeros
      (Handled.ticks second 6 (Handled.ticks first 5 Handled.begun running in_time) still_running
        still_in_time)
      running_yet

handled : HandledHere sent proven
unfolding after clock clock_config ends_of
handled = Handled.proves 0 0 5 27 true (λ _ _. zeros) true handled_end refl

-- What the clock sends in the next segment.
abbrev rest : List ClockEvent
rest =
    ticked (record { segment = 1; tick = 3; x = 53 })
    ∷ ticked (record { segment = 1; tick = 4; x = 27 })
    ∷ ended 1 5 27
    ∷ []

clocked : sent ++ rest ≡ run_clock constant five clock proven.seeds
unfolding run_clock clock clock_config after start small_params tick_advance
clocked = refl

small : config.params.capacity_per_tick_per_bucket ≤ 2 ^ 31
unfolding small_params
small = omega arith

one_seed : length proven.seeds ≡ 1
unfolding after start small_params
one_seed = refl

clocked_log_replays_example :
    verify_span constant 0
      (address constant key)
      (log_genesis constant 0)
      1
      (length (numbers sent))
      (λ t. get t proven.store.ticks)
      []
    ≡ ok proven.c_prev
unfolding small_params clock start
clocked_log_replays_example =
    clocked_log_replays constant cipher (λ _. none) thirteen five small_group config none key
      someone zeros sent rest proven constant-Recovers small (omega (arith, one_seed))
      (omega (arith, one_seed)) handled clocked

abbrev the_seal : SegmentSeal
the_seal = record {
  epoch = 0;
  segment = 0;
  entropy = zeros;
  y = 5;
  x_end = 27;
  proof = segment_proof thirteen small_group 2 2 5 27;
  sig = replicate 64 1 ++ 27 ∷ [];
}

sealed : get 0 proven.store.segments ≡ some the_seal
unfolding after start small_params sign
sealed = refl

kept_seals_verify_example :
    (r : SegmentRound) × (get_elem? (clock_rounds constant five clock proven.seeds) 0 ≡ some r)
    × (verify_segment thirteen five small_group 0 0 r.x_end_prev_hash r.c_end_prev 2 2 the_seal
        ≡ true)
unfolding small_params clock start
kept_seals_verify_example =
    kept_seals_verify constant cipher (λ _. none) thirteen five small_group config none key someone
      zeros sent rest proven 0 the_seal thirteen-IsOracle (omega arith)
      (λ domain input. omega arith) (omega arith) (omega (arith, one_seed)) handled clocked sealed

start-dev_example :
    start_node constant thirteen cipher small_group (λ seed. seed) (dev_launch 4) true 9
    ≡ some (ok (started constant thirteen cipher small_group (λ seed. seed) (dev_launch 4) 9))
start-dev_example =
    start-dev constant thirteen cipher small_group (λ seed. seed) (dev_launch 4) 2000 8 9 refl
      (omega arith) (omega arith)
