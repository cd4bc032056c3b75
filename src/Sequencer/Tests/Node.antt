-- ===== src/Sequencer/Tests/Node.antt =====
-- The theorems on the node (crates/sequencer/src/node.rs) and its anchors at the sequencer of
-- Sequencer/Tests.
use lighter_integration.Base.{
  replicate, ℕ, List, map, ◌≡◌, ◌≤◌, ◌^◌, refl, true, false, [], ◌∷◌, some, none, ok, bytes_eq,
  div_ceil, arith,
}
use lighter_integration.Sequencer.Identity.{address, sign, verify_signed}
use lighter_integration.Sequencer.Records.{BatchEntry, log_genesis}
use lighter_integration.Sequencer.Transcript.{verify_span}
use lighter_integration.Vdf.Hashing.{Crypto}
use lighter_integration.Sequencer.Node.{Node, NodeConfig, new_node}
use lighter_integration.Sequencer.Node.Tick.{is_late}
use lighter_integration.Sequencer.Node.Anchors.{get, next_anchor, maybe_anchor}
use lighter_integration.Sequencer.Node.Anchored.{AddsAnchors, maybe_anchor-AddsAnchors}
use lighter_integration.Sequencer.Node.Rounds.{maybe_anchor_ends}
use lighter_integration.Sequencer.Node.Coordinator.{Event, submission, tick_end, coordinate}
use lighter_integration.Sequencer.Node.Replays.{OnTime, started, ticks, takes, on_time_log_replays}
use lighter_integration.Sequencer.Tests.{
  constant, constant-Recovers, key, someone, small_params, zeros,
}
use lighter_integration.Sequencer.Tests

abbrev cipher : Crypto
cipher = record {
  sha256 = λ _. zeros;
  seal = λ _ _ message _. some message;
  unseal = λ _ _ body _. some body;
  to_bytes_be = λ _. [];
  from_bytes_be = λ _. 0;
}

abbrev config : NodeConfig
config = record {
  params = record (small_params 2) { segment_ticks = 2; anchor_every_segments = 1 };
  enforce_timeliness = true;
  induce_late_tick = none;
}

unfoldable genesis : Node
unfolding new_node
genesis = new_node constant config key someone zeros

unfoldable after : Event → Node → Node
unfolding coordinate
after ev node = coordinate constant cipher (λ _. none) ev node

abbrev first_tick : Event
first_tick = tick_end 0 1 5 true 0

abbrev second_tick : Event
second_tick = tick_end 0 2 6 true 0

small : config.params.capacity_per_tick_per_bucket ≤ 2 ^ 31
unfolding small_params
small = omega arith

abbrev entries_at : ℕ → Node → List BatchEntry
entries_at t node = elim (get t node.store.ticks) [ none ↦ [] | some sealed ↦ sealed.entries ]

-- An admission, two ticks, and the end of the clock between them.
abbrev submitted : Node
submitted = after (submission Tests.submission true) genesis

abbrev first_done : Node
first_done = after first_tick submitted

abbrev both_done : Node
both_done = after second_tick first_done

running : submitted.status.finished ≡ false
unfolding after genesis
running = refl

still_running : first_done.status.finished ≡ false
unfolding after genesis small_params
still_running = refl

in_time : is_late submitted.config 1 0 ≡ false
unfolding after genesis small_params is_late
in_time = refl

still_in_time : is_late first_done.config 2 0 ≡ false
unfolding after genesis small_params is_late
still_in_time = refl

run : OnTime constant config key cipher (λ _. none) genesis 2 both_done
unfolding after
run =
    ticks 0 6 0 (ticks 0 5 0 (takes Tests.submission true started) running in_time) still_running
      still_in_time

-- The submission is in the batch of tick 1.
admitted_first : (map (λ e. e.pos) (entries_at 1 both_done)) ≡ 0 ∷ []
unfolding after genesis small_params bytes_eq div_ceil verify_signed
admitted_first = refl

on_time_log_replays_example :
    verify_span constant 0
      (address constant key)
      (log_genesis constant 0)
      1
      2
      (λ t. get t both_done.store.ticks)
      []
    ≡ ok both_done.c_prev
unfolding small_params genesis
on_time_log_replays_example =
    on_time_log_replays constant config key cipher (λ _. none) someone zeros 2 both_done
      constant-Recovers small run

-- Segment 0 has its seal: its two ticks go into one anchor.
abbrev sealed_segment : Node
sealed_segment = record both_done {
  store = record both_done.store {
    segments =
        (
          0,
          record {
            epoch = 0;
            segment = 0;
            entropy = zeros;
            y = 4;
            x_end = 6;
            proof = record { y = 6; pi = 1; iterations = 16 };
            sig = replicate 65 1;
          },
        )
        ∷ [];
  };
}

abbrev anchored : Node
anchored = maybe_anchor constant (λ _ _. zeros) true sealed_segment

anchors_once : map (λ a. a.last_tick) anchored.anchors ≡ 2 ∷ []
unfolding after genesis small_params bytes_eq div_ceil verify_signed maybe_anchor sign address
anchors_once = refl

maybe_anchor_ends_example : next_anchor constant anchored (λ _ _. zeros) ≡ none
unfolding after genesis small_params
maybe_anchor_ends_example =
    maybe_anchor_ends constant sealed_segment (λ _ _. zeros) true (omega arith) (omega arith)

maybe_anchor-AddsAnchors_example : AddsAnchors constant sealed_segment anchored
unfolding after genesis small_params
maybe_anchor-AddsAnchors_example =
    maybe_anchor-AddsAnchors constant (λ _ _. zeros) true sealed_segment constant-Recovers
      (omega arith) (omega arith)
