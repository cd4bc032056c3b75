-- ===== src/Vdf/Tlk/RoundTrip.antt =====
-- Encryption, public solving and opening (crates/vdf/src/tlk.rs) against each other.
use lighter_integration.Base.{
  ℕ, ◌*◌, ◌%◌, ◌^◌, ◌<◌, ◌≡◌, ◌≢◌, refl, sym, ap, ◌∙◌, true, Bytes, some, get_elem?, ok, leb, ◌==◌,
  ◌||◌, false, ok_some, codes, arith,
}
use native.Mathlib.Nat.{mod-lt}
use mathlib.Core.Path.{subst}
use lighter_integration.Vdf.Modular.{pow_congruent, pow_mul}
use lighter_integration.Vdf.Posq.{
  Group, Oracle, IsOracle, prove_sequential, tick_advance, invalid_input, computation_error,
}
use lighter_integration.Vdf.Posq.Complete.{verify_sequential-prove_sequential, tick_advance_power}
use lighter_integration.Vdf.Posq.Squarings.{mod_mod}
use lighter_integration.Sequencer.Envelope.{Ciphertext}
use lighter_integration.Vdf.Hashing.{Crypto, IsAead}
use lighter_integration.Vdf.Tlk.Setup.{SetUp}
use lighter_integration.Vdf.Tlk.{
  DelayClass, TlkParams, Opening, solve_domain, class_of, encrypt, exponent, session_key,
  nonce_from_u, solve, verify_opening, open_ciphertext,
}

-- Squaring a power of `g` gives the same power of the squared `g`.
pub same_witness :
    (group : Group) (g r t : ℕ)
    → g < group.modulus
    → tick_advance group (g ^ r % group.modulus) t ≡ tick_advance group g t ^ r % group.modulus
same_witness group g r t small =
    let n = group.modulus in
    let pos : 0 < n = omega arith in
    let solved : tick_advance group (g ^ r % n) t ≡ g ^ (r * 2 ^ t) % n =
      tick_advance_power group (g ^ r % n) t (mod-lt _ pos)
      ∙ (pow_congruent n (g ^ r % n) (g ^ r) (2 ^ t) (mod_mod (g ^ r) n pos)
          ∙ ap (λ m. m % n) (pow_mul g r (2 ^ t))) in
    let encrypted : tick_advance group g t ^ r % n ≡ g ^ (2 ^ t * r) % n =
      ap (λ m. m ^ r % n) (tick_advance_power group g t small)
      ∙ (pow_congruent n (g ^ (2 ^ t) % n) (g ^ (2 ^ t)) r (mod_mod (g ^ (2 ^ t)) n pos)
          ∙ ap (λ m. m % n) (pow_mul g (2 ^ t) r)) in
    let swap : r * 2 ^ t ≡ 2 ^ t * r = omega arith in
    solved ∙ (ap (λ m. g ^ m % n) swap ∙ sym encrypted)

module _ (oracle : Oracle) (crypto : Crypto) where
  -- What encryption gives, part by part.
  pub record Encrypted (params : TlkParams) (class : ℕ) (plaintext aad seed : Bytes)
      (ct : Ciphertext) : Type 0 where
    pub delay : DelayClass
    pub found : get_elem? params.classes class ≡ some delay
    pub same_class : ct.class ≡ class
    pub element : ct.u ≡ oracle.modpow params.g (exponent crypto seed) params.group.modulus
    pub sealed :
        crypto.seal
          (session_key crypto (oracle.modpow delay.h (exponent crypto seed) params.group.modulus))
          (nonce_from_u crypto ct.u)
          plaintext
          aad
        ≡ some ct.body

  encrypt-Encrypted :
      (params : TlkParams) (class : ℕ) (plaintext aad seed : Bytes) (ct : Ciphertext)
      → encrypt oracle crypto params class plaintext aad seed ≡ ok ct
      → Encrypted params class plaintext aad seed ct
  unfolding encrypt class_of
  encrypt-Encrypted params class plaintext aad seed ct h =
      ok_some (get_elem? params.classes class) invalid_input h λ dc found rest.
        let u = oracle.modpow params.g (exponent crypto seed) params.group.modulus in
        let w = oracle.modpow dc.h (exponent crypto seed) params.group.modulus in
        ok_some (crypto.seal (session_key crypto w) (nonce_from_u crypto u) plaintext aad)
          (computation_error (codes "aead encrypt")) rest
          λ body sealed last.
            let ct' : Ciphertext = record { class = class; u = u; body = body } in
            let same : ct' ≡ ct = cc last in
            subst (λ (c : Ciphertext). Encrypted params class plaintext aad seed c) same
              (record {
                delay = dc;
                found = found;
                same_class = refl;
                element = refl;
                sealed = sealed;
              })

  -- What solving gives.
  solve-eq-ok :
      (params : TlkParams) (ct : Ciphertext) (dc : DelayClass)
      → get_elem? params.classes ct.class ≡ some dc
      → ct.u < params.group.modulus
      → ct.u ≢ 0
      → solve oracle params ct
        ≡ ok (record {
          w = tick_advance params.group ct.u dc.t_squarings;
          proof = prove_sequential oracle params.group solve_domain ct.u dc.t_squarings;
        })
  unfolding solve class_of prove_sequential
  solve-eq-ok params ct dc found small nonzero =
      let low : (leb params.group.modulus ct.u || ct.u == 0) ≡ false = ground arith in
      rw (found, low) refl

  verify_opening-solved :
      (params : TlkParams) (ct : Ciphertext) (dc : DelayClass)
      → IsOracle oracle
      → 1 < params.group.modulus
      → get_elem? params.classes ct.class ≡ some dc
      → ct.u < params.group.modulus
      → verify_opening oracle params ct (record {
        w = tick_advance params.group ct.u dc.t_squarings;
        proof = prove_sequential oracle params.group solve_domain ct.u dc.t_squarings;
      })
        ≡ ok true
  unfolding verify_opening class_of prove_sequential
  verify_opening-solved params ct dc law one found small = rw found (
      ground (
        arith,
        verify_sequential-prove_sequential oracle law params.group solve_domain ct.u dc.t_squarings
            one small,
      ))

  -- The squared element opens what was encrypted.
  pub open-encrypt :
      (params : TlkParams) (class : ℕ) (plaintext aad seed : Bytes) (ct : Ciphertext)
      (dc : DelayClass)
      → IsOracle oracle
      → IsAead crypto
      → SetUp params
      → encrypt oracle crypto params class plaintext aad seed ≡ ok ct
      → get_elem? params.classes class ≡ some dc
      → open_ciphertext crypto ct (tick_advance params.group ct.u dc.t_squarings) aad ≡ ok plaintext
  unfolding open_ciphertext
  open-encrypt params class plaintext aad seed ct dc law aead ready encrypted found =
      let e = encrypt-Encrypted params class plaintext aad seed ct encrypted in
      let n = params.group.modulus in
      let pos : 0 < n = omega (arith, ready.one) in
      let r = exponent crypto seed in
      let same : e.delay ≡ dc = cc (e.found, found) in
      let element : ct.u ≡ params.g ^ r % n = e.element ∙ law.power params.g r n pos in
      let witness : tick_advance params.group ct.u dc.t_squarings ≡ oracle.modpow e.delay.h r n =
        ap (λ (c : DelayClass). tick_advance params.group ct.u c.t_squarings) (sym same)
        ∙ (ap (λ u. tick_advance params.group u e.delay.t_squarings) element
            ∙ (same_witness params.group params.g r e.delay.t_squarings ready.small
                ∙ (ap (λ h. h ^ r % n) (sym (ready.powers class e.delay e.found))
                    ∙ sym (law.power e.delay.h r n pos)))) in
      rw (witness, aead.unseal-seal _ _ plaintext aad e.sealed) refl

  -- Under parameters that were set up, the public solution of a ciphertext that encrypt made passes
  -- verify_opening and opens it to the plaintext, if the element of the ciphertext is not zero.
  pub open-solve-encrypt :
      (params : TlkParams) (class : ℕ) (plaintext aad seed : Bytes) (ct : Ciphertext)
      → IsOracle oracle
      → IsAead crypto
      → SetUp params
      → encrypt oracle crypto params class plaintext aad seed ≡ ok ct
      → ct.u ≢ 0
      → (opening : Opening) × (solve oracle params ct ≡ ok opening)
        × (verify_opening oracle params ct opening ≡ ok true)
        × (open_ciphertext crypto ct opening.w aad ≡ ok plaintext)
  unfolding open_ciphertext
  open-solve-encrypt params class plaintext aad seed ct law aead ready encrypted nonzero =
      let e = encrypt-Encrypted params class plaintext aad seed ct encrypted in
      let n = params.group.modulus in
      let pos : 0 < n = omega (arith, ready.one) in
      let r = exponent crypto seed in
      let element : ct.u ≡ params.g ^ r % n = e.element ∙ law.power params.g r n pos in
      let small : ct.u < n = omega (arith, element, mod-lt (params.g ^ r) pos) in
      let found : get_elem? params.classes ct.class ≡ some e.delay =
        ap (λ k. get_elem? params.classes k) e.same_class ∙ e.found in
      (
        record {
          w = tick_advance params.group ct.u e.delay.t_squarings;
          proof = prove_sequential oracle params.group solve_domain ct.u e.delay.t_squarings;
        },
        solve-eq-ok params ct e.delay found small nonzero,
        verify_opening-solved params ct e.delay law ready.one found small,
        open-encrypt params class plaintext aad seed ct e.delay law aead ready encrypted e.found,
      )
