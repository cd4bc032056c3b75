-- ===== src/Vdf/Tlk.antt =====
-- crates/vdf/src/tlk.rs: the setup of the delay classes, encryption, public solving and opening.
pub mod Setup
pub mod RoundTrip
use lighter_integration.Base.{
  ℕ, ◌+◌, Bool, true, false, ◌||◌, Bytes, List, [], ◌∷◌, ◌++◌, Option, take, get_elem?, map, leb,
  ◌==◌, ◌!=◌, codes, Result, ok, err, ok_or, guarded, ◌>>=◌, ◌>>◌, if◌then◌else◌,
}
use lighter_integration.Plugin.Canonical.{to_be_bytes}
use lighter_integration.Sequencer.Records.{SequentialProof}
use lighter_integration.Sequencer.Envelope.{Ciphertext}
use lighter_integration.Vdf.Posq.{
  Group, Oracle, VdfError, invalid_input, invalid_proof, computation_error, prove_sequential,
  verify_sequential,
}
use lighter_integration.Vdf.Hashing.{Crypto, hash_blocks, hash_to_group}

abbrev pub solve_domain : Bytes
solve_domain = codes "posq-tlk-solve-v1"

abbrev pub setup_domain : Bytes
setup_domain = codes "posq-tlk-setup-v1"

abbrev pub generator_domain : Bytes
generator_domain = codes "posq-tlk-generator-v1"

pub record DelayClass : Type 0 where
  pub t_squarings : ℕ
  pub h : ℕ
  pub proof : SequentialProof

pub record TlkParams : Type 0 where
  pub group : Group
  pub g : ℕ
  pub classes : List DelayClass

pub record Opening : Type 0 where
  pub w : ℕ
  pub proof : SequentialProof

-- `TlkParams::class`
unfoldable pub class_of : TlkParams → ℕ → Result VdfError DelayClass
class_of params k = ok_or (get_elem? params.classes k) invalid_input

module _ (crypto : Crypto) where
  open crypto use {sha256, unseal, to_bytes_be, from_bytes_be}

  -- the generator of `setup` and `verify`
  unfoldable pub generator : Group → ℕ
  unfolding hash_to_group
  generator group = hash_to_group crypto group generator_domain (codes "posq fixed base g")

  unfoldable pub session_key : ℕ → Bytes
  session_key w = sha256 (codes "posq-kem-key-v1" ++ to_bytes_be w)

  unfoldable pub nonce_from_u : ℕ → Bytes
  nonce_from_u u = take 12 (sha256 (codes "posq-kem-nonce-v1" ++ to_bytes_be u))

  -- the exponent of `encrypt`
  unfoldable pub exponent : Bytes → ℕ
  unfolding hash_blocks
  exponent rng_seed =
      from_bytes_be
        (hash_blocks (λ i. sha256 (codes "posq-kem-r" ++ to_be_bytes 4 i ++ rng_seed)) 10 0)

  -- `open`
  unfoldable pub open_ciphertext : Ciphertext → ℕ → Bytes → Result VdfError Bytes
  unfolding session_key nonce_from_u
  open_ciphertext ct w aad =
      ok_or (unseal (session_key w) (nonce_from_u ct.u) ct.body aad) invalid_proof

module _ (oracle : Oracle) where
  -- the closure of `setup`
  unfoldable pub delay_class : Group → ℕ → ℕ → DelayClass
  unfolding prove_sequential
  delay_class group g t =
      let proof = prove_sequential oracle group setup_domain g t in
      record { t_squarings = t; h = proof.y; proof = proof }

  -- the loop of `TlkParams::verify`
  unfoldable pub verify_classes : Group → ℕ → List DelayClass → Result VdfError Bool
  unfolding verify_sequential
  verify_classes group g [] = ok true
  verify_classes group g (c ∷ classes) =
      let rest = verify_classes group g classes in
      if c.proof.y != c.h || c.proof.iterations != c.t_squarings
      then ok false
      else verify_sequential oracle group setup_domain g c.proof >>= λ valid.
          if valid then rest else ok false

  -- `solve`; an element has no bits exactly when it is 0.
  unfoldable pub solve : TlkParams → Ciphertext → Result VdfError Opening
  unfolding class_of prove_sequential
  solve params ct = do
    dc ← class_of params ct.class
    guarded ((leb params.group.modulus ct.u || ct.u == 0, invalid_input) ∷ []) (ok (tt {0}))
    let proof = prove_sequential oracle params.group solve_domain ct.u dc.t_squarings
    ok (record { w = proof.y; proof = proof })

  unfoldable pub verify_opening : TlkParams → Ciphertext → Opening → Result VdfError Bool
  unfolding class_of verify_sequential
  verify_opening params ct opening = class_of params ct.class >>= λ dc.
      if opening.proof.iterations != dc.t_squarings || opening.proof.y != opening.w
      then ok false
      else verify_sequential oracle params.group solve_domain ct.u opening.proof

module _ (oracle : Oracle) (crypto : Crypto) where
  open oracle use {modpow}
  open crypto use {seal}

  -- `TlkParams::setup`
  unfoldable pub setup : Group → List ℕ → TlkParams
  unfolding generator delay_class
  setup group delays =
      let g = generator crypto group in
      record { group = group; g = g; classes = map (delay_class oracle group g) delays }

  -- `TlkParams::verify`
  unfoldable pub verify_setup : TlkParams → Result VdfError Bool
  unfolding generator verify_classes
  verify_setup params =
      if params.g != generator crypto params.group
      then ok false
      else verify_classes oracle params.group params.g params.classes

  unfoldable pub encrypt : TlkParams → ℕ → Bytes → Bytes → Bytes → Result VdfError Ciphertext
  unfolding class_of exponent session_key nonce_from_u
  encrypt params class plaintext aad rng_seed = do
    dc ← class_of params class
    let n = params.group.modulus
    let r = exponent crypto rng_seed
    let u = modpow params.g r n
    let w = modpow dc.h r n
    body ←
        ok_or (seal (session_key crypto w) (nonce_from_u crypto u) plaintext aad)
          (computation_error (codes "aead encrypt"))
    ok (record { class = class; u = u; body = body })
