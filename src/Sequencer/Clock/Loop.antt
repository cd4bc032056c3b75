-- ===== src/Sequencer/Clock/Loop.antt =====
-- `run_clock` of crates/sequencer/src/clock.rs: the loop over the segments, on the seeds that it receives.
-- The channel of the events is taken to stay open; where it closes, the events are cut off there.
use lighter_integration.Base.{
  ℕ, ◌+◌, Bool, false, Bytes, Hash32, List, [], ◌∷◌, ◌++◌, map, Option, none, some, leb,
  if◌then◌else◌, wrap,
}
use lighter_integration.Sequencer.Identity.{Primitives}
use lighter_integration.Sequencer.Records.{SequentialProof, hash_group_element}
use lighter_integration.Sequencer.Node.{SeedInput}
use lighter_integration.Vdf.Posq.{Group, Oracle}
use lighter_integration.Sequencer.Clock.{
  genesis_x_end_hash, segment_seed, Tick, segment_events, segment_end as x_after, segment_proof,
}

pub record ClockConfig : Type 0 where
  pub group : Group
  pub epoch : ℕ
  pub q : ℕ
  pub segment_ticks : ℕ
  pub max_segments : Option ℕ
  pub genesis_entropy : Hash32
  pub genesis_c : Hash32

-- `ClockEvent`, without the proofs, which other threads send.
pub data ClockEvent : Type 0 where
  ticked : Tick → ClockEvent
  ended : ℕ → ℕ → ℕ → ClockEvent

-- The variables of the loop at the head of a round.
pub record SegmentRound : Type 0 where
  pub segment : ℕ
  pub x_end_prev_hash : Hash32
  pub c_end_prev : Hash32
  pub entropy : Hash32

-- `cfg.max_segments.is_some_and(|m| segment >= m)`
unfoldable pub is_last : Option ℕ → ℕ → Bool
is_last none segment = false
is_last (some m) segment = leb m segment

module _ (primitives : Primitives) (hash_to_group : Bytes → Bytes → ℕ) (cfg : ClockConfig) where
  unfoldable pub first_round : SegmentRound
  unfolding genesis_x_end_hash
  first_round = record {
    segment = 0;
    x_end_prev_hash = genesis_x_end_hash primitives cfg.epoch;
    c_end_prev = cfg.genesis_c;
    entropy = cfg.genesis_entropy;
  }

  -- `y` and `x_end` of a round
  unfoldable pub y_of : SegmentRound → ℕ
  unfolding segment_seed
  y_of r = segment_seed hash_to_group cfg.epoch r.segment r.x_end_prev_hash r.c_end_prev r.entropy

  unfoldable pub x_end_of : SegmentRound → ℕ
  unfolding y_of x_after
  x_end_of r = x_after cfg.group cfg.q cfg.segment_ticks (y_of r)

  -- What the clock sends in a round.
  unfoldable pub round_events : SegmentRound → List ClockEvent
  unfolding y_of x_end_of segment_events
  round_events r =
      map ticked
        (segment_events cfg.group cfg.q cfg.segment_ticks r.segment cfg.segment_ticks 0 (y_of r))
      ++ ended r.segment (y_of r) (x_end_of r) ∷ []

  -- What the thread that the round spawns sends.
  unfoldable pub round_proof : Oracle → SegmentRound → SequentialProof
  unfolding segment_proof y_of x_end_of
  round_proof oracle r =
      segment_proof oracle cfg.group cfg.q cfg.segment_ticks (y_of r) (x_end_of r)

  -- The variables after a seed.
  unfoldable pub next_round : SegmentRound → SeedInput → SegmentRound
  unfolding hash_group_element x_end_of
  next_round r seed = record {
    segment = wrap (r.segment + 1);
    x_end_prev_hash = hash_group_element primitives (x_end_of r);
    c_end_prev = seed.c_end;
    entropy = seed.entropy;
  }

  -- The rounds of the loop: it ends where it has run the last segment, or where no seed comes.
  unfoldable pub rounds_from : List SeedInput → SegmentRound → List SegmentRound
  unfolding is_last next_round
  rounds_from [] r = if is_last cfg.max_segments r.segment then [] else r ∷ []
  rounds_from (seed ∷ seeds) r =
      let rest = rounds_from seeds (next_round r seed) in
      if is_last cfg.max_segments r.segment then [] else r ∷ rest

  unfoldable pub events_of : List SegmentRound → List ClockEvent
  unfolding round_events
  events_of [] = []
  events_of (r ∷ rounds) = round_events r ++ events_of rounds

  unfoldable pub clock_rounds : List SeedInput → List SegmentRound
  unfolding rounds_from first_round
  clock_rounds seeds = rounds_from seeds first_round

  -- What `run_clock` sends, for the seeds that it receives.
  unfoldable pub run_clock : List SeedInput → List ClockEvent
  unfolding clock_rounds events_of
  run_clock seeds = events_of (clock_rounds seeds)
