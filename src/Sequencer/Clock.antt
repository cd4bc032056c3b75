-- ===== src/Sequencer/Clock.antt =====
-- crates/sequencer/src/clock.rs: the segment seed, the ticks of a segment, and `verify_segment`. The hash
-- into the group is an argument (SHA-256 is third-party code); threads and channels are not modelled.
pub mod Segment
pub mod Events
pub mod Numbering
pub mod Loop
pub mod Rounds
use lighter_integration.Base.{
  ℕ, zero, suc, ◌+◌, ◌*◌, Bool, true, false, ◌||◌, Bytes, Hash32, List, [], ◌∷◌, ◌++◌, codes, ◌!=◌,
  if◌then◌else◌, wrap, Result, ok, err,
}
use lighter_integration.Plugin.Canonical.{to_be_bytes}
use lighter_integration.Sequencer.Identity.{Primitives}
use lighter_integration.Sequencer.Records.{SegmentSeal, SequentialProof}
use lighter_integration.Vdf.Posq.{
  Group, Oracle, VdfError, tick_advance, prove_with_output, verify_sequential,
}

abbrev pub segment_seed_domain : Bytes
segment_seed_domain = codes "posq-segment-seed-v1"

abbrev pub segment_proof_domain : Bytes
segment_proof_domain = codes "posq-segment-proof-v1"

unfoldable pub genesis_x_end_hash : Primitives → ℕ → Hash32
genesis_x_end_hash primitives epoch =
    primitives.keccak256 (codes "posq-genesis-x-v1" ++ to_be_bytes 8 epoch)

-- `hash_to_group` takes the domain and the input.
unfoldable pub segment_seed : (Bytes → Bytes → ℕ) → ℕ → ℕ → Hash32 → Hash32 → Hash32 → ℕ
segment_seed hash_to_group epoch segment x_end_prev_hash c_end_prev entropy =
    hash_to_group segment_seed_domain
      (to_be_bytes 8 epoch ++ to_be_bytes 8 segment ++ x_end_prev_hash ++ c_end_prev ++ entropy)

-- `ClockEvent::Tick`
pub record Tick : Type 0 where
  pub segment : ℕ
  pub tick : ℕ
  pub x : ℕ

-- `for i in 0..cfg.segment_ticks`, of which `left` rounds are left: the events that are sent.
unfoldable pub segment_events : Group → ℕ → ℕ → ℕ → ℕ → ℕ → ℕ → List Tick
segment_events group q segment_ticks segment zero i x = []
segment_events group q segment_ticks segment (suc left) i x =
    record {
      segment = segment;
      tick = wrap (wrap (wrap (segment * segment_ticks) + i) + 1);
      x = tick_advance group x q;
    }
    ∷ segment_events group q segment_ticks segment left (i + 1) (tick_advance group x q)

-- The state after the rounds: `x_end`.
unfoldable pub segment_end : Group → ℕ → ℕ → ℕ → ℕ
segment_end group q zero x = x
segment_end group q (suc left) x = segment_end group q left (tick_advance group x q)

-- What the thread that proves a segment sends.
unfoldable pub segment_proof : Oracle → Group → ℕ → ℕ → ℕ → ℕ → SequentialProof
unfolding prove_with_output
segment_proof oracle group q segment_ticks y x_end =
    let t = wrap (q * segment_ticks) in
    record {
      y = x_end;
      pi = prove_with_output oracle group segment_proof_domain y x_end t;
      iterations = t;
    }

-- `.unwrap_or(false)`
abbrev pub true_or_false : Result VdfError Bool → Bool
true_or_false (ok b) = b
true_or_false (err e) = false

unfoldable pub verify_segment :
    Oracle → (Bytes → Bytes → ℕ) → Group → ℕ → ℕ → Hash32 → Hash32 → ℕ → ℕ → SegmentSeal → Bool
unfolding segment_seed verify_sequential
verify_segment oracle hash_to_group group epoch segment x_end_prev_hash c_end_prev q segment_ticks
      seal =
    if seal.y != segment_seed hash_to_group epoch segment x_end_prev_hash c_end_prev seal.entropy
      || seal.proof.iterations != wrap (q * segment_ticks)
    then false
    else if seal.proof.y != seal.x_end
    then false
    else true_or_false (verify_sequential oracle group segment_proof_domain seal.y seal.proof)
