-- ===== src/Vdf/Tlk/Setup.antt =====
-- The setup of crates/vdf/src/tlk.rs, its verifier, and the elements of its classes.
use lighter_integration.Base.{
  ℕ, zero, suc, ◌<◌, ◌≡◌, refl, true, List, [], ◌∷◌, some, map, get_elem?, codes, ok, arith,
}
use mathlib.Core.Path.{subst}
use lighter_integration.Vdf.Posq.{Group, Oracle, IsOracle, prove_sequential, tick_advance}
use lighter_integration.Vdf.Posq.Complete.{verify_sequential-prove_sequential}
use lighter_integration.Vdf.Hashing.{Crypto, hash_to_group-lt}
use lighter_integration.Vdf.Tlk.{
  DelayClass, TlkParams, setup_domain, generator_domain, generator, delay_class, setup,
  verify_classes, verify_setup,
}

iterations_given :
    (oracle : Oracle) (group : Group) (g t : ℕ)
    → (prove_sequential oracle group setup_domain g t).iterations ≡ t
unfolding prove_sequential
iterations_given oracle group g t = refl

-- The element of every class is the generator after that many squarings.
pub record SetUp (params : TlkParams) : Type 0 where
  pub one : 1 < params.group.modulus
  pub small : params.g < params.group.modulus
  pub powers :
      (k : ℕ) (dc : DelayClass)
      → get_elem? params.classes k ≡ some dc
      → dc.h ≡ tick_advance params.group params.g dc.t_squarings

module _ (oracle : Oracle) (law : IsOracle oracle) (group : Group) (one : 1 < group.modulus) where
  verify_classes-map :
      (g : ℕ) (delays : List ℕ)
      → g < group.modulus
      → verify_classes oracle group g (map (delay_class oracle group g) delays) ≡ ok true
  unfolding verify_classes delay_class
  verify_classes-map g [] small = refl
  verify_classes-map g (t ∷ delays) small =
      let rest = verify_classes-map g delays small in
      let valid = verify_sequential-prove_sequential oracle law group setup_domain g t one small in
      let count : (prove_sequential oracle group setup_domain g t).iterations ≡ t =
        iterations_given oracle group g t in
      ground (arith, valid, count, rest)

  get_elem?-delay_class :
      (g : ℕ) (delays : List ℕ) (k : ℕ) (dc : DelayClass)
      → get_elem? (map (delay_class oracle group g) delays) k ≡ some dc
      → dc.h ≡ tick_advance group g dc.t_squarings
  unfolding delay_class prove_sequential
  get_elem?-delay_class g [] k dc h = absurd (cc)
  get_elem?-delay_class g (t ∷ delays) zero dc h =
      let same : delay_class oracle group g t ≡ dc = cc h in
      subst (λ (c : DelayClass). c.h ≡ tick_advance group g c.t_squarings) same refl
  get_elem?-delay_class g (t ∷ delays) (suc k) dc h = get_elem?-delay_class g delays k dc h

  module _ (crypto : Crypto) where
    generator-lt : generator crypto group < group.modulus
    unfolding generator
    generator-lt =
        hash_to_group-lt crypto group generator_domain (codes "posq fixed base g") (omega arith)

    -- The parameters that setup makes for any delays pass their verification.
    pub verify_setup-setup :
        (delays : List ℕ) → verify_setup oracle crypto (setup oracle crypto group delays) ≡ ok true
    unfolding verify_setup setup
    verify_setup-setup delays =
        let classes = verify_classes-map (generator crypto group) delays generator-lt in
        ground (arith, classes)

    pub setup-SetUp : (delays : List ℕ) → SetUp (setup oracle crypto group delays)
    unfolding setup
    setup-SetUp delays = record {
      one = one;
      small = generator-lt;
      powers = λ k dc. get_elem?-delay_class (generator crypto group) delays k dc;
    }
