-- ===== src/Sequencer/Node/SealsVerify.antt =====
-- The seals that a node (crates/sequencer/src/node.rs) keeps, and the verifier of its clock
-- (crates/sequencer/src/clock.rs).
use lighter_integration.Base.{
  ℕ, ◌+◌, ◌*◌, ◌^◌, ◌<◌, ◌≡◌, sym, ap, ◌∙◌, true, Bytes, Hash32, List, [], ◌++◌, Option, some,
  length, get_elem?,
}
use mathlib.Core.List.{append-nil}
use lighter_integration.Sequencer.Identity.{Primitives, Address}
use lighter_integration.Sequencer.Envelope.{Intent}
use lighter_integration.Sequencer.Records.{SegmentSeal}
use lighter_integration.Vdf.Hashing.{Crypto}
use lighter_integration.Vdf.Posq.{Group, Oracle, IsOracle}
use lighter_integration.Sequencer.Clock.{
  segment_seed, segment_end as x_after, segment_proof, verify_segment,
}
use lighter_integration.Sequencer.Clock.Segment.{run_segment_verifies}
use lighter_integration.Sequencer.Clock.Loop.{
  ClockConfig, ClockEvent, SegmentRound, y_of, x_end_of, round_proof, clock_rounds, run_clock,
}
use lighter_integration.Sequencer.Node.{Node, NodeConfig, SeedInput, new_node}
use lighter_integration.Sequencer.Node.Anchors.{get}
use lighter_integration.Sequencer.Node.Clocked.{Handled, clock_config}
use lighter_integration.Sequencer.Node.Kept.{Sealed, Kept-start, round-segment}
use lighter_integration.Sequencer.Node.Keeping.{Handled-Kept}

Sealed-verifies :
    (primitives : Primitives) (hash_to_group : Bytes → Bytes → ℕ) (cfg : ClockConfig)
    (oracle : Oracle) (seeds : List SeedInput) (r : SegmentRound) (segment : ℕ) (seal : SegmentSeal)
    → IsOracle oracle
    → 1 < cfg.group.modulus
    → ((domain input : Bytes) → hash_to_group domain input < cfg.group.modulus)
    → cfg.q * cfg.segment_ticks < 2 ^ 64
    → r.segment ≡ segment
    → Sealed primitives hash_to_group cfg oracle seeds r seal
    → verify_segment oracle hash_to_group cfg.group cfg.epoch segment r.x_end_prev_hash r.c_end_prev
        cfg.q cfg.segment_ticks seal
      ≡ true
unfolding y_of x_end_of round_proof
Sealed-verifies primitives hash_to_group cfg oracle seeds r segment seal law one range fits number
      sealed =
    run_segment_verifies oracle hash_to_group cfg.group law one range cfg.epoch segment cfg.q
      cfg.segment_ticks r.x_end_prev_hash r.c_end_prev seal fits
      (sealed.y
        ∙ ap (λ s. segment_seed hash_to_group cfg.epoch s r.x_end_prev_hash r.c_end_prev r.entropy)
            number
        ∙ ap (segment_seed hash_to_group cfg.epoch segment r.x_end_prev_hash r.c_end_prev)
            (sym sealed.entropy))
      (sealed.x_end ∙ ap (x_after cfg.group cfg.q cfg.segment_ticks) (sym sealed.y))
      (sealed.proof
        ∙ ap
            (λ z.
              segment_proof oracle cfg.group cfg.q cfg.segment_ticks z
                (x_end_of primitives hash_to_group cfg r))
            (sym sealed.y)
        ∙ ap (segment_proof oracle cfg.group cfg.q cfg.segment_ticks seal.y) (sym sealed.x_end))

-- In a run of a fresh node and its clock, whose spawned threads prove the segments that have ended,
-- every seal that the node keeps is under the number of a round of the clock loop, and
-- verify_segment accepts it for that segment with the end hash and the commitment that the loop took
-- over from the segment before; the oracle obeys its law, seeds hash into the group, the modulus is
-- above 1, the squarings of a segment and the number of segments fit in 64 bits.
pub kept_seals_verify :
    (primitives : Primitives) (crypto : Crypto) (parse_intent : Bytes → Option Intent)
    (oracle : Oracle) (hash_to_group : Bytes → Bytes → ℕ) (group : Group) (config : NodeConfig)
    (max_segments : Option ℕ) (identity : Bytes) (issuer : Address) (entropy : Hash32)
    (sent rest : List ClockEvent) (node : Node) (segment : ℕ) (seal : SegmentSeal)
    → IsOracle oracle
    → 1 < group.modulus
    → ((domain input : Bytes) → hash_to_group domain input < group.modulus)
    → config.params.q_squarings * config.params.segment_ticks < 2 ^ 64
    → length node.seeds + 1 < 2 ^ 64
    → Handled primitives crypto parse_intent oracle
        (clock_config primitives group config max_segments entropy)
        (new_node primitives config identity issuer entropy)
        sent
        node
    → sent ++ rest
      ≡ run_clock primitives hash_to_group
          (clock_config primitives group config max_segments entropy)
          node.seeds
    → get segment node.store.segments ≡ some seal
    → (r : SegmentRound) × (get_elem?
          (clock_rounds primitives hash_to_group
            (clock_config primitives group config max_segments entropy)
            node.seeds)
          segment
        ≡ some r)
      × (verify_segment oracle hash_to_group group config.params.epoch segment r.x_end_prev_hash
            r.c_end_prev config.params.q_squarings config.params.segment_ticks seal
          ≡ true)
unfolding clock_config new_node
kept_seals_verify primitives crypto parse_intent oracle hash_to_group group config max_segments
      identity issuer entropy sent rest node segment seal law one range fits few h clock found =
    let cfg = clock_config primitives group config max_segments entropy in
    let k =
      Handled-Kept primitives crypto parse_intent oracle hash_to_group cfg node.seeds few [] rest
        (Kept-start primitives hash_to_group cfg oracle node.seeds) (append-nil node.seeds) clock
        h in
    let (r, at, sealed) = k.segments segment seal found in
    (
      r,
      at,
      Sealed-verifies primitives hash_to_group cfg oracle node.seeds r segment seal law one range
          fits (round-segment primitives hash_to_group cfg oracle node.seeds segment r few at)
          sealed,
    )
