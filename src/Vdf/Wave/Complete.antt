-- ===== src/Vdf/Wave/Complete.antt =====
-- Solving and verifying a wave (crates/vdf/src/batch_solve.rs).
use mathlib.Core.Path.{subst}
use lighter_integration.Base.{
  ℕ, zero, suc, ◌<◌, ◌≡◌, ◌≢◌, refl, sym, ap, ◌∙◌, true, false, ◌||◌, Bytes, List, [], ◌∷◌, length,
  get_elem?, some, ◌!=◌, ok, ok_some, ok_bind, arith,
}
use native.Mathlib.Nat.{mod-eq_of_lt}
use lighter_integration.Vdf.Posq.{
  Group, Oracle, IsOracle, invalid_input, tick_advance, prove_with_output, prove_sequential,
  verify_sequential,
}
use lighter_integration.Vdf.Posq.Complete.{verify_sequential-prove_sequential, tick_advance_power}
use lighter_integration.Vdf.Posq.Squarings.{squarings_below}
use lighter_integration.Sequencer.Envelope.{Ciphertext}
use lighter_integration.Vdf.Hashing.{Crypto, IsAead}
use lighter_integration.Vdf.Tlk.{
  DelayClass, TlkParams, solve_domain, class_of, encrypt, open_ciphertext,
}
use lighter_integration.Vdf.Tlk.Setup.{SetUp}
use lighter_integration.Vdf.Tlk.RoundTrip.{open-encrypt}
use lighter_integration.Vdf.Wave.{
  WaveSolution, Products, bad_ciphertext, check_ciphertexts, solved, elements, mismatch, aggregate,
  solution_of, solve_wave, verify_products, verify_wave,
}
use lighter_integration.Vdf.Wave.Aggregate.{Matched, aggregate-Matched}

-- A ciphertext that the loop of `solve_wave` lets pass.
pub record Solvable (params : TlkParams) (class : ℕ) (ct : Ciphertext) : Type 0 where
  pub same_class : ct.class ≡ class
  pub small : ct.u < params.group.modulus
  pub nonzero : ct.u ≢ 0

bad_ciphertext-Solvable :
    (params : TlkParams) (class : ℕ) (ct : Ciphertext)
    → bad_ciphertext params class ct ≡ false
    → Solvable params class ct
unfolding bad_ciphertext
bad_ciphertext-Solvable params class ct h = record {
  same_class = ground arith;
  small = ground arith;
  nonzero = ground arith;
}

check_ciphertexts-cons :
    (params : TlkParams) (class : ℕ) (ct : Ciphertext) (cts : List Ciphertext)
    → check_ciphertexts params class (ct ∷ cts) ≡ ok tt
    → Solvable params class ct × (check_ciphertexts params class cts ≡ ok tt)
unfolding check_ciphertexts
check_ciphertexts-cons params class ct cts h =
    (bad_ciphertext-Solvable params class ct (ground arith), ground arith)

tick_advance-lt :
    (group : Group) (u t : ℕ) → u < group.modulus → tick_advance group u t < group.modulus
unfolding tick_advance
tick_advance-lt group u t small = squarings_below group.modulus t u small

length-solved :
    (group : Group) (t : ℕ) (cts : List Ciphertext) → length (solved group t cts) ≡ length cts
unfolding solved
length-solved group t [] = refl
length-solved group t (ct ∷ cts) = omega (arith, length-solved group t cts)

mismatch-solved :
    (params : TlkParams) (class t : ℕ) (cts : List Ciphertext)
    → check_ciphertexts params class cts ≡ ok tt
    → mismatch params class cts (solved params.group t cts) ≡ false
unfolding mismatch solved
mismatch-solved params class t [] h = refl
mismatch-solved params class t (ct ∷ cts) h =
    let (good, rest) = check_ciphertexts-cons params class ct cts h in
    let same = good.same_class in
    let small = tick_advance-lt params.group ct.u t good.small in
    let later = mismatch-solved params class t cts rest in ground arith

-- A proof made from the known output is the one that is made with the squarings.
sequential_from_output :
    (oracle : Oracle) (group : Group) (u w t : ℕ)
    → w ≡ tick_advance group u t
    → verify_sequential oracle group solve_domain u
        (record { y = w; pi = prove_with_output oracle group solve_domain u w t; iterations = t })
      ≡ verify_sequential oracle group solve_domain u
          (prove_sequential oracle group solve_domain u t)
unfolding prove_sequential
sequential_from_output oracle group u w t same = rw same refl

-- The proof of the products is the proof of a sequential computation.
verify_products-Matched :
    (crypto : Crypto) (oracle : Oracle) (params : TlkParams) (class t : ℕ) (ws : List ℕ)
    (p : Products)
    → IsOracle oracle
    → 1 < params.group.modulus
    → Matched params.group.modulus t p
    → verify_products crypto oracle params p
        (solution_of crypto oracle params class t ws p).aggregate_proof
      ≡ ok true
unfolding verify_products solution_of
verify_products-Matched crypto oracle params class t ws p law one m =
    let same : p.cap_w ≡ tick_advance params.group p.cap_u t =
      sym (mod-eq_of_lt m.w_small)
      ∙ (m.powers ∙ sym (tick_advance_power params.group p.cap_u t m.u_small)) in
    let valid =
      sequential_from_output oracle params.group p.cap_u p.cap_w t same
      ∙ verify_sequential-prove_sequential oracle law params.group solve_domain p.cap_u t one
          m.u_small in
    ground (arith, valid)

module _ (crypto : Crypto) (oracle : Oracle) where
  -- What a solved wave consists of.
  pub record Solved (params : TlkParams) (class : ℕ) (wave_binding : Bytes) (cts : List Ciphertext)
      (sol : WaveSolution) : Type 0 where
    pub delay : DelayClass
    pub found : get_elem? params.classes class ≡ some delay
    pub checked : check_ciphertexts params class cts ≡ ok tt
    pub solution :
        sol
        ≡ solution_of crypto oracle params class delay.t_squarings
            (solved params.group delay.t_squarings cts)
            (aggregate crypto oracle params.group wave_binding
              (elements cts)
              (solved params.group delay.t_squarings cts))

  solve_wave-Solved :
      (params : TlkParams) (class : ℕ) (wave_binding : Bytes) (cts : List Ciphertext)
      (sol : WaveSolution)
      → solve_wave crypto oracle params class wave_binding cts ≡ ok sol
      → Solved params class wave_binding cts sol
  unfolding solve_wave class_of
  solve_wave-Solved params class wave_binding cts sol h =
      ok_some (get_elem? params.classes class) invalid_input h λ dc found rest.
        ok_bind (check_ciphertexts params class cts) rest λ u checked last. record {
          delay = dc;
          found = found;
          checked = checked;
          solution = sym (cc last);
        }

  -- A wave solution that solve_wave gives passes verify_wave for the same binding and ciphertexts.
  pub verify_wave-solve_wave :
      (params : TlkParams) (class : ℕ) (wave_binding : Bytes) (cts : List Ciphertext)
      (sol : WaveSolution)
      → IsOracle oracle
      → 1 < params.group.modulus
      → solve_wave crypto oracle params class wave_binding cts ≡ ok sol
      → verify_wave crypto oracle params wave_binding cts sol ≡ ok true
  unfolding verify_wave class_of solution_of
  verify_wave-solve_wave params class wave_binding cts sol law one h =
      let s = solve_wave-Solved params class wave_binding cts sol h in
      let t = s.delay.t_squarings in
      let ws = solved params.group t cts in
      let p = aggregate crypto oracle params.group wave_binding (elements cts) ws in
      let count = length-solved params.group t cts in
      let matching = mismatch-solved params class t cts s.checked in
      let found = s.found in
      let valid =
        verify_products-Matched crypto oracle params class t ws p law one
          (aggregate-Matched crypto oracle law params.group one t wave_binding cts) in
      let counts : (t != t || length ws != length cts || t != t) ≡ false = ground arith in
      rw (s.solution, found, counts, matching) valid

  get_elem?-solved :
      (params : TlkParams) (class t : ℕ) (cts : List Ciphertext) (i : ℕ) (ct : Ciphertext)
      → check_ciphertexts params class cts ≡ ok tt
      → get_elem? cts i ≡ some ct
      → (get_elem? (solved params.group t cts) i ≡ some (tick_advance params.group ct.u t))
        × Solvable params class ct
  unfolding solved
  get_elem?-solved params class t [] i ct checked h = absurd (cc)
  get_elem?-solved params class t (c ∷ cts) zero ct checked h =
      let (good, rest) = check_ciphertexts-cons params class c cts checked in
      let same : c ≡ ct = cc h in
      subst
        (λ (x : Ciphertext).
          (some (tick_advance params.group c.u t) ≡ some (tick_advance params.group x.u t))
          × Solvable params class x)
        same (refl, good)
  get_elem?-solved params class t (c ∷ cts) (suc i) ct checked h =
      get_elem?-solved params class t cts i ct (check_ciphertexts-cons params class c cts checked).1
        h

  -- A solved wave has a witness at the index of every ciphertext that encrypt made, and the witness
  -- opens it to the plaintext.
  pub wave_opens :
      (params : TlkParams) (class : ℕ) (wave_binding : Bytes) (cts : List Ciphertext)
      (sol : WaveSolution) (i : ℕ) (plaintext aad seed : Bytes) (ct : Ciphertext)
      → IsOracle oracle
      → IsAead crypto
      → SetUp params
      → solve_wave crypto oracle params class wave_binding cts ≡ ok sol
      → get_elem? cts i ≡ some ct
      → encrypt oracle crypto params class plaintext aad seed ≡ ok ct
      → (w : ℕ) × (get_elem? sol.witnesses i ≡ some w)
        × (open_ciphertext crypto ct w aad ≡ ok plaintext)
  unfolding solution_of
  wave_opens params class wave_binding cts sol i plaintext aad seed ct law aead ready solution at
        encrypted =
      let s = solve_wave-Solved params class wave_binding cts sol solution in
      let t = s.delay.t_squarings in
      let (witness, good) = get_elem?-solved params class t cts i ct s.checked at in
      (
        tick_advance params.group ct.u t,
        ap (λ (x : WaveSolution). get_elem? x.witnesses i) s.solution ∙ witness,
        open-encrypt oracle crypto params class plaintext aad seed ct s.delay law aead ready
            encrypted s.found,
      )
