-- ===== src/Sequencer/Clock/Segment.antt =====
-- The seal of a segment that the clock ran, and its verifier (crates/sequencer/src/clock.rs).
use lighter_integration.Base.{
  ℕ, zero, suc, ◌+◌, ◌*◌, ◌%◌, ◌^◌, ◌<◌, ◌≡◌, refl, sym, ap, ◌∙◌, true, Bytes, Hash32, ok, wrap,
  wrap_small, arith,
}
use lighter_integration.Sequencer.Records.{SegmentSeal, SequentialProof}
use lighter_integration.Vdf.Posq.{
  Group, Oracle, IsOracle, squarings, tick_advance, prove_sequential, verify_sequential,
}
use lighter_integration.Vdf.Posq.Complete.{verify_sequential-prove_sequential}
use lighter_integration.Sequencer.Clock.{
  segment_seed, segment_end, segment_proof, segment_proof_domain, verify_segment,
}

squarings_add : (n q p x : ℕ) → squarings n p (squarings n q x) ≡ squarings n (q + p) x
unfolding squarings
squarings_add n zero p x = let sum : 0 + p ≡ p = omega arith in rw sum refl
squarings_add n (suc q) p x =
    let sum : suc q + p ≡ suc (q + p) = omega arith in rw sum (squarings_add n q p (x * x % n))

-- The ticks of a segment together are as many squarings.
segment_end_squarings :
    (group : Group) (q left x : ℕ) → segment_end group q left x ≡ tick_advance group x (q * left)
unfolding segment_end tick_advance squarings
segment_end_squarings group q zero x = let none : q * 0 ≡ 0 = omega arith in rw none refl
segment_end_squarings group q (suc left) x =
    let more : q * suc left ≡ q + q * left = omega arith in
    segment_end_squarings group q left (tick_advance group x q)
    ∙ (squarings_add group.modulus q (q * left) x
        ∙ ap (λ m. squarings group.modulus m x) (sym more))

segment_proof_sequential :
    (oracle : Oracle) (group : Group) (q segment_ticks y x_end : ℕ)
    → q * segment_ticks < 2 ^ 64
    → x_end ≡ tick_advance group y (q * segment_ticks)
    → segment_proof oracle group q segment_ticks y x_end
      ≡ prove_sequential oracle group segment_proof_domain y (q * segment_ticks)
unfolding segment_proof prove_sequential
segment_proof_sequential oracle group q segment_ticks y x_end fits e =
    rw (wrap_small (q * segment_ticks) fits, e) refl

verify_segment_passes :
    (oracle : Oracle) (hash_to_group : Bytes → Bytes → ℕ) (group : Group)
    (epoch segment q segment_ticks : ℕ) (x_end_prev_hash c_end_prev : Hash32) (seal : SegmentSeal)
    → seal.y ≡ segment_seed hash_to_group epoch segment x_end_prev_hash c_end_prev seal.entropy
    → seal.proof.iterations ≡ wrap (q * segment_ticks)
    → seal.proof.y ≡ seal.x_end
    → verify_sequential oracle group segment_proof_domain seal.y seal.proof ≡ ok true
    → verify_segment oracle hash_to_group group epoch segment x_end_prev_hash c_end_prev q
        segment_ticks seal
      ≡ true
unfolding verify_segment
verify_segment_passes oracle hash_to_group group epoch segment q segment_ticks xh ch seal ey ei ep
      ev =
    rw (verify_segment, ev) (ground (arith, ey, ei, ep))

segment_seed_below :
    (hash_to_group : Bytes → Bytes → ℕ) (n epoch segment : ℕ) (xh ch entropy : Hash32)
    → ((domain input : Bytes) → hash_to_group domain input < n)
    → segment_seed hash_to_group epoch segment xh ch entropy < n
unfolding segment_seed
segment_seed_below hash_to_group n epoch segment xh ch entropy range = range _ _

-- The seal of a segment that was run from its seed for all its ticks, with the proof that the clock
-- makes, passes verify_segment, if the squarings of a segment fit in 64 bits.
pub run_segment_verifies :
    (oracle : Oracle) (hash_to_group : Bytes → Bytes → ℕ) (group : Group)
    → IsOracle oracle
    → 1 < group.modulus
    → ((domain input : Bytes) → hash_to_group domain input < group.modulus)
    → (epoch segment q segment_ticks : ℕ) (x_end_prev_hash c_end_prev : Hash32) (seal : SegmentSeal)
    → q * segment_ticks < 2 ^ 64
    → seal.y ≡ segment_seed hash_to_group epoch segment x_end_prev_hash c_end_prev seal.entropy
    → seal.x_end ≡ segment_end group q segment_ticks seal.y
    → seal.proof ≡ segment_proof oracle group q segment_ticks seal.y seal.x_end
    → verify_segment oracle hash_to_group group epoch segment x_end_prev_hash c_end_prev q
        segment_ticks seal
      ≡ true
unfolding segment_proof
run_segment_verifies oracle hash_to_group group law one range epoch segment q segment_ticks xh ch
      seal fits ey ex ep =
    let ended : seal.x_end ≡ tick_advance group seal.y (q * segment_ticks) =
      ex ∙ segment_end_squarings group q segment_ticks seal.y in
    let sequential : seal.proof
        ≡ prove_sequential oracle group segment_proof_domain seal.y (q * segment_ticks) =
      ep ∙ segment_proof_sequential oracle group q segment_ticks seal.y seal.x_end fits ended in
    let small : seal.y < group.modulus =
      rw ey
        (segment_seed_below hash_to_group group.modulus epoch segment xh ch seal.entropy range) in
    verify_segment_passes oracle hash_to_group group epoch segment q segment_ticks xh ch seal ey
      (ap (λ (p : SequentialProof). p.iterations) ep) (ap (λ (p : SequentialProof). p.y) ep)
      (ap (verify_sequential oracle group segment_proof_domain seal.y) sequential
        ∙ verify_sequential-prove_sequential oracle law group segment_proof_domain seal.y
            (q * segment_ticks) one small)
