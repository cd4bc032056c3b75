-- ===== src/Vdf/Wave.antt =====
-- crates/vdf/src/batch_solve.rs: the waves, solved together under one aggregated proof. The threads are
-- the list of their results.
pub mod Aggregate
pub mod Complete
use lighter_integration.Base.{
  ℕ, zero, suc, ◌+◌, ◌*◌, ◌%◌, Bool, true, false, ◌||◌, Bytes, List, [], ◌∷◌, ◌++◌, length, take,
  map, leb, ◌==◌, ◌!=◌, codes, Result, ok, err, ◌>>=◌, ◌>>◌, if◌then◌else◌,
}
use lighter_integration.Plugin.Canonical.{to_be_bytes}
use lighter_integration.Sequencer.Records.{SequentialProof}
use lighter_integration.Sequencer.Envelope.{Ciphertext}
use lighter_integration.Vdf.Posq.{
  Group, Oracle, VdfError, invalid_input, tick_advance, prove_with_output, verify_sequential,
}
use lighter_integration.Vdf.Hashing.{Crypto}
use lighter_integration.Vdf.Tlk.{DelayClass, TlkParams, solve_domain, class_of}

abbrev pub agg_domain : Bytes
agg_domain = codes "posq-batch-agg-v1"

pub record WaveSolution : Type 0 where
  pub class : ℕ
  pub t_squarings : ℕ
  pub witnesses : List ℕ
  pub aggregate_proof : SequentialProof

-- The two products of `aggregate`.
pub record Products : Type 0 where
  pub cap_u : ℕ
  pub cap_w : ℕ

-- the condition in the loop of `solve_wave`
unfoldable pub bad_ciphertext : TlkParams → ℕ → Ciphertext → Bool
bad_ciphertext params class ct = ct.class != class || leb params.group.modulus ct.u || ct.u == 0

-- `for ct in cts`
unfoldable pub check_ciphertexts : TlkParams → ℕ → List Ciphertext → Result VdfError (Unit {0})
unfolding bad_ciphertext
check_ciphertexts params class [] = ok tt
check_ciphertexts params class (ct ∷ cts) =
    let rest = check_ciphertexts params class cts in
    if bad_ciphertext params class ct then err invalid_input else rest

-- the handles, joined
unfoldable pub solved : Group → ℕ → List Ciphertext → List ℕ
unfolding tick_advance
solved group t [] = []
solved group t (ct ∷ cts) = tick_advance group ct.u t ∷ solved group t cts

-- `cts.iter().map(|c| &c.u)`
unfoldable pub elements : List Ciphertext → List ℕ
elements [] = []
elements (ct ∷ cts) = ct.u ∷ elements cts

-- the loop of `verify_wave`; `zip` stops with the shorter list
unfoldable pub mismatch : TlkParams → ℕ → List Ciphertext → List ℕ → Bool
mismatch params class [] ws = false
mismatch params class (ct ∷ cts) [] = false
mismatch params class (ct ∷ cts) (w ∷ ws) =
    let rest = mismatch params class cts ws in
    if ct.class != class || leb params.group.modulus w then true else rest

module _ (crypto : Crypto) where
  open crypto use {sha256, to_bytes_be, from_bytes_be}

  unfoldable pub rho : Bytes → ℕ → ℕ → ℕ → ℕ
  rho wave_binding i u w = from_bytes_be (
      take 16 (
        sha256 (
          agg_domain
          ++ to_be_bytes 8 (length wave_binding)
          ++ wave_binding
          ++ to_be_bytes 8 i
          ++ to_bytes_be u
          ++ to_bytes_be w)))

  module _ (oracle : Oracle) where
    open oracle use {modpow}

    -- the loop of `aggregate`, from position `i`
    unfoldable pub aggregate_from : ℕ → Bytes → ℕ → List ℕ → List ℕ → Products → Products
    unfolding rho
    aggregate_from n wave_binding i [] ws p = p
    aggregate_from n wave_binding i (u ∷ us) [] p = p
    aggregate_from n wave_binding i (u ∷ us) (w ∷ ws) p =
        let e = rho wave_binding i u w in
        aggregate_from n wave_binding (i + 1) us ws
          (record { cap_u = p.cap_u * modpow u e n % n; cap_w = p.cap_w * modpow w e n % n })

    unfoldable pub aggregate : Group → Bytes → List ℕ → List ℕ → Products
    unfolding aggregate_from
    aggregate group wave_binding us ws =
        aggregate_from group.modulus wave_binding 0 us ws (record { cap_u = 1; cap_w = 1 })

    -- the solution for the witnesses and their products
    unfoldable pub solution_of : TlkParams → ℕ → ℕ → List ℕ → Products → WaveSolution
    unfolding prove_with_output
    solution_of params class t witnesses p = record {
      class = class;
      t_squarings = t;
      witnesses = witnesses;
      aggregate_proof = record {
        y = p.cap_w;
        pi = prove_with_output oracle params.group solve_domain p.cap_u p.cap_w t;
        iterations = t;
      };
    }

    unfoldable pub solve_wave :
        TlkParams → ℕ → Bytes → List Ciphertext → Result VdfError WaveSolution
    unfolding class_of check_ciphertexts solved elements aggregate solution_of
    solve_wave params class wave_binding cts = do
      dc ← class_of params class
      u ← check_ciphertexts params class cts
      let witnesses = solved params.group dc.t_squarings cts
      ok (
          solution_of params class dc.t_squarings witnesses
            (aggregate params.group wave_binding (elements cts) witnesses))

    -- the comparison of the products and the proof
    unfoldable pub verify_products : TlkParams → Products → SequentialProof → Result VdfError Bool
    unfolding verify_sequential
    verify_products params p proof =
        if p.cap_w != proof.y
        then ok false
        else verify_sequential oracle params.group solve_domain p.cap_u proof

    unfoldable pub verify_wave :
        TlkParams → Bytes → List Ciphertext → WaveSolution → Result VdfError Bool
    unfolding class_of mismatch elements aggregate verify_products
    verify_wave params wave_binding cts sol = class_of params sol.class >>= λ dc.
        if sol.t_squarings != dc.t_squarings
          || length sol.witnesses != length cts
          || sol.aggregate_proof.iterations != dc.t_squarings
        then ok false
        else if mismatch params sol.class cts sol.witnesses
        then ok false
        else verify_products params
            (aggregate params.group wave_binding (elements cts) sol.witnesses) sol.aggregate_proof
