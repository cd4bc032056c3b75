-- ===== src/Vdf/Posq/Complete.antt =====
-- The proofs of crates/vdf/src/posq.rs and their verifier.
use lighter_integration.Base.{
  ℕ, ◌+◌, ◌*◌, ◌%◌, ◌^◌, ◌<◌, ◌≡◌, refl, sym, ap, ◌∙◌, true, Bytes, ok, arith,
}
use native.Mathlib.Nat.{mod-eq_of_lt, mul-add-mod_self_left, pow-zero}
use lighter_integration.Vdf.Modular.{mul_congruent, pow_congruent, pow_add, pow_mul}
use lighter_integration.Vdf.Posq.{
  Group, Oracle, IsOracle, Division, squarings, tick_advance, divisions, quotient_power,
  two_pow_mod, prove_with_output, prove_sequential, verify_sequential,
}
use lighter_integration.Vdf.Posq.Squarings.{
  mod_mod, squarings_power, squarings_below, Divided, divisions-Divided, divisions_below,
}

-- The left side of the verifier's equation.
equation :
    (n x l t pi : ℕ)
    → 1 < n
    → (s : Division) → s.pi ≡ pi
    → Divided n x l 0 1 t s
    → pi ^ l % n * (x ^ (2 ^ t % l) % n) % n ≡ x ^ (2 ^ t) % n
equation n x l t pi one s same d =
    let whole : l * d.quotient + s.r ≡ 2 ^ t =
      ap (λ m. l * m + s.r) (omega arith) ∙ (d.divides ∙ omega arith) in
    let rest : 2 ^ t % l ≡ s.r =
      ap (λ m. m % l) (sym whole)
      ∙ (mul-add-mod_self_left l d.quotient s.r ∙ mod-eq_of_lt d.remainder) in
    let power : pi % n ≡ x ^ d.quotient % n =
      ap (λ m. m % n) (sym same) ∙ (d.power ∙ ap (λ m. x ^ m % n) (omega arith)) in
    let left : pi ^ l % n % n ≡ x ^ (d.quotient * l) % n =
      mod_mod (pi ^ l) n (omega arith)
      ∙ (pow_congruent n pi (x ^ d.quotient) l power ∙ ap (λ m. m % n) (pow_mul x d.quotient l)) in
    let right : x ^ (2 ^ t % l) % n % n ≡ x ^ s.r % n =
      mod_mod (x ^ (2 ^ t % l)) n (omega arith) ∙ ap (λ m. x ^ m % n) rest in
    let total : d.quotient * l + s.r ≡ 2 ^ t = omega (arith, whole) in
    mul_congruent n (pi ^ l % n) (x ^ (2 ^ t % l) % n) (x ^ (d.quotient * l)) (x ^ s.r) left right
    ∙ ap (λ m. m % n) (sym (pow_add x (d.quotient * l) s.r) ∙ ap (λ m. x ^ m) total)

module _ (oracle : Oracle) where
  open oracle use {modpow, challenge_prime}

  accepts :
      (group : Group) (domain : Bytes) (x y pi t : ℕ)
      → y < group.modulus
      → pi < group.modulus
      → modpow pi (challenge_prime domain x y t) group.modulus
          * modpow x (modpow 2 t (challenge_prime domain x y t)) group.modulus
          % group.modulus
        ≡ y
      → verify_sequential oracle group domain x (record { y = y; pi = pi; iterations = t })
        ≡ ok true
  unfolding verify_sequential two_pow_mod
  accepts group domain x y pi t hy hp e = ground (arith, e)

  -- For every modulus above 1 and every element below it, whatever the number of squarings, the
  -- proof that prove_sequential makes of them is accepted by verify_sequential.
  pub verify_sequential-prove_sequential :
      IsOracle oracle
      → (group : Group) (domain : Bytes) (x t : ℕ) → 1 < group.modulus
      → x < group.modulus
      → verify_sequential oracle group domain x (prove_sequential oracle group domain x t) ≡ ok true
  unfolding prove_sequential tick_advance prove_with_output quotient_power
  verify_sequential-prove_sequential law group domain x t one small =
      let n = group.modulus in
      let y = squarings n t x in
      let l = challenge_prime domain x y t in
      let start : Division = record { pi = 1; r = 1 } in
      let pos : 0 < n = omega arith in
      let divided =
        divisions-Divided n x l t 0 start pos (law.prime domain x y t)
          (ap (λ m. m % n) (sym (pow-zero x))) in
      let below = squarings_below n t x small in
      let l_pos : 0 < l = omega (arith, law.prime domain x y t) in
      accepts group domain x y (divisions n x l t start).pi t below
        (divisions_below n x l t start one)
        (rw
          (
            law.power (divisions n x l t start).pi l n pos,
            law.power 2 t l l_pos,
            law.power x (2 ^ t % l) n pos,
          )
          (equation n x l t (divisions n x l t start).pi one (divisions n x l t start) refl divided
            ∙ (sym (squarings_power n t x pos) ∙ mod-eq_of_lt below)))

-- Q squarings of an element below the modulus give its power by 2 ^ q.
pub tick_advance_power :
    (group : Group) (x q : ℕ)
    → x < group.modulus
    → tick_advance group x q ≡ x ^ (2 ^ q) % group.modulus
unfolding tick_advance
tick_advance_power group x q small =
    sym (mod-eq_of_lt (squarings_below group.modulus q x small))
    ∙ squarings_power group.modulus q x (omega arith)
