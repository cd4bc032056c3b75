-- ===== src/Vdf/Wave/Aggregate.antt =====
-- The random combination of crates/vdf/src/batch_solve.rs: products of witnesses and of elements.
use lighter_integration.Base.{
  ℕ, ◌+◌, ◌*◌, ◌%◌, ◌^◌, ◌<◌, ◌≡◌, refl, sym, ap, ◌∙◌, Bytes, List, [], ◌∷◌, arith,
}
use native.Mathlib.Nat.{mod-lt}
use lighter_integration.Vdf.Modular.{mul_congruent, pow_congruent, pow_mul, mul_pow, one_pow}
use lighter_integration.Vdf.Posq.{Group, Oracle, IsOracle, tick_advance}
use lighter_integration.Vdf.Posq.Squarings.{mod_mod, squarings_power}
use lighter_integration.Sequencer.Envelope.{Ciphertext}
use lighter_integration.Vdf.Hashing.{Crypto}
use lighter_integration.Vdf.Wave.{Products, aggregate_from, aggregate, rho, solved, elements}

-- Both products are below the modulus, and the second is the first after `t` squarings.
pub record Matched (n t : ℕ) (p : Products) : Type 0 where
  pub u_small : p.cap_u < n
  pub w_small : p.cap_w < n
  pub powers : p.cap_w % n ≡ p.cap_u ^ (2 ^ t) % n

tick_advance_congruent :
    (group : Group) (u t : ℕ)
    → 0 < group.modulus
    → tick_advance group u t % group.modulus ≡ u ^ (2 ^ t) % group.modulus
unfolding tick_advance
tick_advance_congruent group u t pos = squarings_power group.modulus t u pos

-- One factor more on each side.
powers_step :
    (n k u w e a b : ℕ)
    → w % n ≡ u ^ k % n
    → b % n ≡ a ^ k % n
    → 0 < n
    → b * (w ^ e % n) % n % n ≡ (a * (u ^ e % n) % n) ^ k % n
powers_step n k u w e a b hw hb pos =
    let right : w ^ e % n % n ≡ (u ^ e) ^ k % n =
      mod_mod (w ^ e) n pos
      ∙ (pow_congruent n w (u ^ k) e hw
          ∙ ap (λ m. m % n)
              (pow_mul u k e ∙ (ap (λ m. u ^ m) (omega arith) ∙ sym (pow_mul u e k)))) in
    let left : (a * (u ^ e % n) % n) ^ k % n ≡ a ^ k * (u ^ e) ^ k % n =
      pow_congruent n (a * (u ^ e % n) % n) (a * u ^ e) k (
        mod_mod (a * (u ^ e % n)) n pos
        ∙ mul_congruent n a (u ^ e % n) a (u ^ e) refl (mod_mod (u ^ e) n pos))
      ∙ ap (λ m. m % n) (mul_pow a (u ^ e) k) in
    mod_mod (b * (w ^ e % n)) n pos
    ∙ (mul_congruent n b (w ^ e % n) (a ^ k) ((u ^ e) ^ k) hb right ∙ sym left)

module _ (crypto : Crypto) (oracle : Oracle) (law : IsOracle oracle) (group : Group)
    (one : 1 < group.modulus) (t : ℕ) where
  aggregate_from-Matched :
      (wave_binding : Bytes) (i : ℕ) (cts : List Ciphertext) (p : Products)
      → Matched group.modulus t p
      → Matched group.modulus t (
          aggregate_from crypto oracle group.modulus wave_binding i
            (elements cts)
            (solved group t cts)
            p)
  unfolding aggregate_from elements solved
  aggregate_from-Matched wave_binding i [] p m = m
  aggregate_from-Matched wave_binding i (ct ∷ cts) p m =
      let n = group.modulus in
      let pos : 0 < n = omega arith in
      let w = tick_advance group ct.u t in
      let e = rho crypto wave_binding i ct.u w in
      aggregate_from-Matched wave_binding (i + 1) cts
        (record {
          cap_u = p.cap_u * oracle.modpow ct.u e n % n;
          cap_w = p.cap_w * oracle.modpow w e n % n;
        })
        (record {
          u_small = mod-lt _ pos;
          w_small = mod-lt _ pos;
          powers =
              rw (law.power ct.u e n pos, law.power w e n pos)
                (powers_step n (2 ^ t) ct.u w e p.cap_u p.cap_w
                  (tick_advance_congruent group ct.u t pos) m.powers pos);
        })

  pub aggregate-Matched :
      (wave_binding : Bytes) (cts : List Ciphertext)
      → Matched group.modulus t
          (aggregate crypto oracle group wave_binding (elements cts) (solved group t cts))
  unfolding aggregate
  aggregate-Matched wave_binding cts =
      aggregate_from-Matched wave_binding 0 cts (record { cap_u = 1; cap_w = 1 })
        (record {
          u_small = one;
          w_small = one;
          powers = ap (λ m. m % group.modulus) (sym (one_pow (2 ^ t)));
        })
