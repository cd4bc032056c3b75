-- ===== src/Vdf/Tests.antt =====
-- A small group, in which the theorems on crates/vdf/src/posq.rs are applied.
mod Locks
use lighter_integration.Base.{◌%◌, ◌^◌, ◌≡◌, refl, true, [], ok, arith}
use lighter_integration.Vdf.Posq.{
  Group, Oracle, IsOracle, tick_advance, prove_sequential, verify_sequential,
}
use lighter_integration.Vdf.Posq.Complete.{verify_sequential-prove_sequential, tick_advance_power}

abbrev pub small_group : Group
small_group = record { modulus = 143 }

abbrev pub thirteen : Oracle
thirteen = record { modpow = λ x e n. x ^ e % n; challenge_prime = λ _ _ _ _. 13 }

pub thirteen-IsOracle : IsOracle thirteen
thirteen-IsOracle = record { power = λ x e n pos. refl; prime = λ domain x y t. omega arith }

verify_sequential-prove_sequential_example :
    verify_sequential thirteen small_group [] 5 (prove_sequential thirteen small_group [] 5 6)
    ≡ ok true
verify_sequential-prove_sequential_example =
    verify_sequential-prove_sequential thirteen thirteen-IsOracle small_group [] 5 6 (omega arith)
      (omega arith)
