-- ===== src/Vdf/Posq/Squarings.antt =====
-- What the loops of crates/vdf/src/posq.rs compute.
use lighter_integration.Base.{
  ℕ, zero, suc, ◌+◌, ◌-◌, ◌*◌, ◌%◌, ◌^◌, ◌<◌, ◌≤◌, ◌≡◌, refl, sym, ap, ◌∙◌, Bool, true, false, leb,
  if◌then◌else◌, arith,
}
use native.Mathlib.Nat.{mod-lt, mod-eq_of_lt, pow-suc, pow-zero}
use lighter_integration.Vdf.Modular.{mul_congruent, pow_congruent, pow_add, pow_square}
use lighter_integration.Vdf.Posq.{Division, multiplied, squarings, division_step, divisions}

pub mod_mod : (a n : ℕ) → 0 < n → a % n % n ≡ a % n
mod_mod a n pos = mod-eq_of_lt (mod-lt a pos)

pub pow_one : (a : ℕ) → a ^ 1 ≡ a
pow_one a = pow-suc a 0 ∙ (ap (λ x. x * a) (pow-zero a) ∙ omega arith)

two_pow_suc : (t : ℕ) → 2 ^ suc t ≡ 2 * 2 ^ t
two_pow_suc t = pow-suc 2 t ∙ omega arith

-- `q` squarings raise to the power `2 ^ q`.
pub squarings_power : (n q y : ℕ) → 0 < n → squarings n q y % n ≡ y ^ (2 ^ q) % n
unfolding squarings
squarings_power n zero y pos = ap (λ x. x % n) (sym (pow_one y))
squarings_power n (suc q) y pos =
    squarings_power n q (y * y % n) pos
    ∙ (pow_congruent n (y * y % n) (y * y) (2 ^ q) (mod_mod (y * y) n pos)
        ∙ ap (λ x. x % n) (pow_square y (2 ^ q) ∙ ap (λ e. y ^ e) (sym (two_pow_suc q))))

pub squarings_below : (n q y : ℕ) → y < n → squarings n q y < n
unfolding squarings
squarings_below n zero y l = l
squarings_below n (suc q) y l = squarings_below n q (y * y % n) (mod-lt (y * y) (omega arith))

-- After `t` steps from a quotient power `x ^ k` and a remainder `r`: the quotient and the remainder of
-- `(l * k + r) * 2 ^ t` by `l`.
pub record Divided (n x l k r t : ℕ) (s : Division) : Type 0 where
  pub quotient : ℕ
  pub divides : l * (k * 2 ^ t + quotient) + s.r ≡ (l * k + r) * 2 ^ t
  pub remainder : s.r < l
  pub power : s.pi % n ≡ x ^ (k * 2 ^ t + quotient) % n

-- One more step in front: the quotient and the remainder that it leaves go on.
Divided-step :
    (n x l k r b r' t : ℕ) (s : Division)
    → l * (2 * k + b) + r' ≡ 2 * (l * k + r)
    → Divided n x l (2 * k + b) r' t s
    → Divided n x l k r (suc t) s
Divided-step n x l k r b r' t s e d =
    let exponent : k * 2 ^ suc t + (b * 2 ^ t + d.quotient) ≡ (2 * k + b) * 2 ^ t + d.quotient =
      ap (λ p. k * p + (b * 2 ^ t + d.quotient)) (two_pow_suc t) ∙ omega arith in
    let scaled : (l * (2 * k + b) + r') * 2 ^ t ≡ (l * k + r) * 2 ^ suc t =
      ap (λ m. m * 2 ^ t) e ∙ (omega arith ∙ ap (λ p. (l * k + r) * p) (sym (two_pow_suc t))) in
    record {
      quotient = b * 2 ^ t + d.quotient;
      divides = ap (λ m. l * m + s.r) exponent ∙ (d.divides ∙ scaled);
      remainder = d.remainder;
      power = d.power ∙ ap (λ m. x ^ m % n) (sym exponent);
    }

-- What the loop of `quotient_power` has divided.
pub divisions-Divided :
    (n x l t k : ℕ) (s : Division)
    → 0 < n
    → s.r < l
    → s.pi % n ≡ x ^ k % n
    → Divided n x l k s.r t (divisions n x l t s)
unfolding divisions division_step
divisions-Divided n x l zero k s pos small e =
    let exponent : k * 1 + 0 ≡ k = omega arith in
    record {
      quotient = 0;
      divides = omega arith;
      remainder = small;
      power = e ∙ ap (λ m. x ^ m % n) (sym exponent);
    }
divisions-Divided n x l (suc t) k s pos small e =
    split (leb l (2 * s.r)) refl (λ k' s' small' e'. divisions-Divided n x l t k' s' pos small' e')
  where
    squared : s.pi * s.pi % n % n ≡ x ^ (2 * k) % n
    squared =
        mod_mod (s.pi * s.pi) n pos
        ∙ (mul_congruent n s.pi s.pi (x ^ k) (x ^ k) e e
            ∙ ap (λ m. m % n) (sym (pow_add x k k) ∙ ap (λ m. x ^ m) (omega arith)))

    split :
        (bit : Bool)
        → leb l (2 * s.r) ≡ bit
        → ((k' : ℕ) (s' : Division)
            → s'.r < l
            → s'.pi % n ≡ x ^ k' % n
            → Divided n x l k' s'.r t (divisions n x l t s'))
        → Divided n x l k s.r (suc t) (
            divisions n x l t (record {
              pi = multiplied bit n x (s.pi * s.pi % n);
              r = if bit then 2 * s.r - l else 2 * s.r;
            }))
    split true b rest =
        let big : l ≤ 2 * s.r = ground arith in
        Divided-step n x l k s.r 1 (2 * s.r - l) t _ (omega arith) (
          rest (2 * k + 1) _ (omega arith) (
            mod_mod (s.pi * s.pi % n * x) n pos
            ∙ (mul_congruent n (s.pi * s.pi % n) x (x ^ (2 * k)) x squared refl
                ∙ ap (λ m. m % n)
                    (ap (λ y. x ^ (2 * k) * y) (sym (pow_one x)) ∙ sym (pow_add x (2 * k) 1)))))
    split false b rest =
        let low : 2 * s.r < l = ground arith in
        let same : 2 * k + 0 ≡ 2 * k = omega arith in
        Divided-step n x l k s.r 0 (2 * s.r) t _ (omega arith)
          (rest (2 * k + 0) _ low (squared ∙ ap (λ m. x ^ m % n) (sym same)))

pub divisions_below : (n x l t : ℕ) (s : Division) → s.pi < n → (divisions n x l t s).pi < n
unfolding divisions division_step
divisions_below n x l zero s h = h
divisions_below n x l (suc t) s h =
    divisions_below n x l t (division_step n x l s) (split (leb l (2 * s.r)))
  where
    split : (bit : Bool) → multiplied bit n x (s.pi * s.pi % n) < n
    split true = mod-lt (s.pi * s.pi % n * x) (omega arith)
    split false = mod-lt (s.pi * s.pi) (omega arith)
