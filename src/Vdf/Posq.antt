-- ===== src/Vdf/Posq.antt =====
-- crates/vdf/src/posq.rs: squarings in the group modulo `N` and the Wesolowski proofs of them. A big
-- integer is a number; `modpow` of the big integers and the challenge prime (a hash and a search for a
-- prime) are the interface `Oracle`.
pub mod Squarings
pub mod Complete
use lighter_integration.Base.{
  ℕ, zero, suc, ◌+◌, ◌-◌, ◌*◌, ◌%◌, ◌^◌, ◌<◌, ◌≡◌, Bool, ◌||◌, Bytes, leb, ◌==◌, if◌then◌else◌,
  Result, ok, err,
}
use lighter_integration.Sequencer.Records.{SequentialProof}

pub record Group : Type 0 where
  pub modulus : ℕ

pub record Oracle : Type 0 where
  pub modpow : ℕ → ℕ → ℕ → ℕ
  pub challenge_prime : Bytes → ℕ → ℕ → ℕ → ℕ

-- What they are documented to give: the power reduced by a positive modulus, and a number that the
-- primality test accepts, which accepts none below 2.
pub record IsOracle (oracle : Oracle) : Type 0 where
  pub power : (x e n : ℕ) → 0 < n → oracle.modpow x e n ≡ x ^ e % n
  pub prime : (domain : Bytes) (x y t : ℕ) → 1 < oracle.challenge_prime domain x y t

pub data VdfError : Type 0 where
  invalid_proof invalid_input : VdfError
  computation_error : Bytes → VdfError

-- the loop of `Group::tick_advance`
unfoldable pub squarings : ℕ → ℕ → ℕ → ℕ
squarings n zero y = y
squarings n (suc q) y = squarings n q (y * y % n)

-- `Group::tick_advance`
unfoldable pub tick_advance : Group → ℕ → ℕ → ℕ
unfolding squarings
tick_advance group x q = squarings group.modulus q x

-- The variables of the loop of `quotient_power`.
pub record Division : Type 0 where
  pub pi : ℕ
  pub r : ℕ

-- `if bit { pi = (&pi * x) % n; }`
abbrev pub multiplied : Bool → ℕ → ℕ → ℕ → ℕ
multiplied bit n x pi = if bit then pi * x % n else pi

-- the body of the loop
unfoldable pub division_step : ℕ → ℕ → ℕ → Division → Division
division_step n x l s =
    let r = 2 * s.r in
    let bit = leb l r in
    record { pi = multiplied bit n x (s.pi * s.pi % n); r = if bit then r - l else r }

unfoldable pub divisions : ℕ → ℕ → ℕ → ℕ → Division → Division
unfolding division_step
divisions n x l zero s = s
divisions n x l (suc t) s = divisions n x l t (division_step n x l s)

-- `quotient_power`
unfoldable pub quotient_power : Group → ℕ → ℕ → ℕ → ℕ
unfolding divisions
quotient_power group x t l = (divisions group.modulus x l t (record { pi = 1; r = 1 })).pi

module _ (oracle : Oracle) where
  open oracle use {modpow, challenge_prime}

  unfoldable pub two_pow_mod : ℕ → ℕ → ℕ
  two_pow_mod t l = modpow 2 t l

  -- `Group::prove_with_output`
  unfoldable pub prove_with_output : Group → Bytes → ℕ → ℕ → ℕ → ℕ
  unfolding quotient_power
  prove_with_output group domain x y t = quotient_power group x t (challenge_prime domain x y t)

  -- `Group::prove_sequential`
  unfoldable pub prove_sequential : Group → Bytes → ℕ → ℕ → SequentialProof
  unfolding tick_advance prove_with_output
  prove_sequential group domain x t =
      let y = tick_advance group x t in
      record { y = y; pi = prove_with_output group domain x y t; iterations = t }

  -- `Group::verify_sequential`
  unfoldable pub verify_sequential : Group → Bytes → ℕ → SequentialProof → Result VdfError Bool
  unfolding two_pow_mod
  verify_sequential group domain x proof =
      let n = group.modulus in
      let l = challenge_prime domain x proof.y proof.iterations in
      if leb n proof.y || leb n proof.pi
      then err invalid_input
      else ok (modpow proof.pi l n * modpow x (two_pow_mod proof.iterations l) n % n == proof.y)
