-- ===== src/Vdf/Modular.antt =====
-- Products and powers modulo `n`, for the groups of crates/vdf/src/posq.rs.
use lighter_integration.Base.{ℕ, zero, suc, ◌+◌, ◌*◌, ◌/◌, ◌%◌, ◌^◌, ◌≡◌, refl, sym, ap, ◌∙◌, arith}
use native.Mathlib.Nat.{div-add-mod, add-mul-mod_self_left, pow-zero, pow-suc}

mod_mul : (a b n : ℕ) → a % n * b % n ≡ a * b % n
mod_mul a b n =
    let parts : a * b ≡ a % n * b + n * (a / n * b) =
      ap (λ x. x * b) (sym (div-add-mod a n)) ∙ omega arith in
    sym (ap (λ x. x % n) parts ∙ add-mul-mod_self_left (a % n * b) n (a / n * b))

-- Products of congruent numbers are congruent.
pub mul_congruent : (n a b c d : ℕ) → a % n ≡ c % n → b % n ≡ d % n → a * b % n ≡ c * d % n
mul_congruent n a b c d e f =
    let left : a * b % n ≡ c * b % n =
      sym (mod_mul a b n) ∙ (ap (λ x. x * b % n) e ∙ mod_mul c b n) in
    let right : b * c % n ≡ d * c % n =
      sym (mod_mul b c n) ∙ (ap (λ x. x * c % n) f ∙ mod_mul d c n) in
    let swap : c * b ≡ b * c = omega arith in
    let swap' : d * c ≡ c * d = omega arith in
    left ∙ (ap (λ x. x % n) swap ∙ (right ∙ ap (λ x. x % n) swap'))

pub pow_congruent : (n a b k : ℕ) → a % n ≡ b % n → a ^ k % n ≡ b ^ k % n
pow_congruent n a b zero e = rw (pow-zero a, pow-zero b) refl
pow_congruent n a b (suc k) e =
    rw (pow-suc a k, pow-suc b k) (mul_congruent n (a ^ k) a (b ^ k) b (pow_congruent n a b k e) e)

pub pow_add : (a i j : ℕ) → a ^ (i + j) ≡ a ^ i * a ^ j
pow_add a i zero = let sum : i + 0 ≡ i = omega arith in rw (sum, pow-zero a) (omega arith)
pow_add a i (suc j) =
    let sum : i + suc j ≡ suc (i + j) = omega arith in
    let both = pow_add a i j in rw (sum, pow-suc a (i + j), pow-suc a j, both) (omega arith)

pub pow_mul : (a i j : ℕ) → (a ^ i) ^ j ≡ a ^ (i * j)
pow_mul a i zero =
    let none : i * 0 ≡ 0 = omega arith in rw (none, pow-zero a, pow-zero (a ^ i)) refl
pow_mul a i (suc j) =
    let more : i * suc j ≡ i * j + i = omega arith in
    rw (more, pow-suc (a ^ i) j, pow_mul a i j, pow_add a (i * j) i) refl

-- Squaring the base doubles the exponent.
pub pow_square : (a k : ℕ) → (a * a) ^ k ≡ a ^ (2 * k)
pow_square a zero = rw (pow-zero (a * a), pow-zero a) refl
pow_square a (suc k) =
    let more : 2 * suc k ≡ suc (suc (2 * k)) = omega arith in
    rw (more, pow-suc (a * a) k, pow-suc a (suc (2 * k)), pow-suc a (2 * k), pow_square a k)
      (omega arith)

pub mul_pow : (a b k : ℕ) → (a * b) ^ k ≡ a ^ k * b ^ k
mul_pow a b zero = rw (pow-zero (a * b), pow-zero a, pow-zero b) refl
mul_pow a b (suc k) =
    rw (pow-suc (a * b) k, pow-suc a k, pow-suc b k, mul_pow a b k) (regroup (a ^ k) (b ^ k) a b)
  where
    regroup : (p q a b : ℕ) → p * q * (a * b) ≡ p * a * (q * b)
    regroup p q a b = grind arith

pub one_pow : (k : ℕ) → 1 ^ k ≡ 1
one_pow zero = pow-zero 1
one_pow (suc k) = rw (pow-suc 1 k, one_pow k) refl
