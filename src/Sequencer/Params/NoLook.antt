-- ===== src/Sequencer/Params/NoLook.antt =====
-- Equation (1) and the startup check (crates/sequencer/src/params.rs).
use lighter_integration.Base.{
  ℕ, ◌+◌, ◌*◌, ◌/◌, ◌%◌, ◌^◌, ◌<◌, ◌≤◌, ◌≡◌, refl, sym, List, [], ◌∷◌, All, Option, none, some, ok,
  wrap, wrap_small, div_ceil, div_ceil_covers, arith,
}
use native.Mathlib.Nat.{mul-lt-mul_of_pos_right}
use lighter_integration.Sequencer.Params.{
  PosqParams, dev, dev_delay, min_delay_squarings, check_classes, check_no_look, exposure_micros,
}

-- The adversary's squarings in the exposed time, times the tick's duration.
abbrev pub work : PosqParams → ℕ
work p =
    p.alpha_num
    * p.q_squarings
    * ((p.window_ticks + p.gamma_ticks) * p.delta_micros + p.xi_mu_micros)

-- No product or sum of the check leaves the 64 bits.
pub record Fits (p : PosqParams) : Type 0 where
  pub exposure : (p.window_ticks + p.gamma_ticks) * p.delta_micros + p.xi_mu_micros < 2 ^ 64
  pub window : p.window_ticks + p.gamma_ticks < 2 ^ 64
  pub rate : p.alpha_num * p.q_squarings < 2 ^ 64
  pub work : work p < 2 ^ 64
  pub unit : p.alpha_den * p.delta_micros < 2 ^ 64

check_classes-All :
    (min_t k : ℕ) (classes : List ℕ)
    → check_classes min_t k classes ≡ ok tt
    → All (λ t. min_t < t) classes
unfolding check_classes
check_classes-All min_t k [] h = tt
check_classes-All min_t k (t ∷ classes) h =
    (ground arith, check_classes-All min_t (k + 1) classes (ground arith))

-- Equation (1), with both sides times the denominator of the rate.
abbrev pub NoLook : PosqParams → ℕ → Type 0
NoLook p t = work p < t * (p.alpha_den * p.delta_micros)

exposure_exact :
    (p : PosqParams)
    → Fits p
    → exposure_micros p p.window_ticks
      ≡ (p.window_ticks + p.gamma_ticks) * p.delta_micros + p.xi_mu_micros
exposure_exact p fits = rw (wrap_small (p.window_ticks + p.gamma_ticks) fits.window) (
    rw
      (wrap_small ((p.window_ticks + p.gamma_ticks) * p.delta_micros)
        (omega (arith, fits.exposure)))
      (wrap_small _ fits.exposure))

min_delay_exact :
    (p : PosqParams)
    → Fits p
    → min_delay_squarings p p.window_ticks ≡ div_ceil (work p) (p.alpha_den * p.delta_micros)
unfolding min_delay_squarings
min_delay_exact p fits =
    rw
      (
        exposure_exact p fits,
        wrap_small (p.alpha_num * p.q_squarings) fits.rate,
        wrap_small (p.alpha_den * p.delta_micros) fits.unit,
        wrap_small _ fits.work,
      )
      refl

above :
    (unit w min_t : ℕ) (classes : List ℕ)
    → 0 < unit
    → w ≤ min_t * unit
    → All (λ t. min_t < t) classes
    → All (λ t. w < t * unit) classes
above unit w min_t [] pos h all = tt
above unit w min_t (t ∷ classes) pos h (l, rest) =
    (omega (arith, mul-lt-mul_of_pos_right l pos), above unit w min_t classes pos h rest)

-- Whenever the startup check passes on parameters whose products fit in 64 bits, every delay class
-- satisfies Equation (1) for the default window.
pub check_no_look-NoLook :
    (p : PosqParams) → Fits p → check_no_look p ≡ some (ok tt) → All (NoLook p) p.delay_classes
unfolding check_no_look
check_no_look-NoLook p fits h =
    from_min (min_delay_squarings p p.window_ticks) (min_delay_exact p fits) h
  where
    from_min :
        (min : Option ℕ)
        → min ≡ div_ceil (work p) (p.alpha_den * p.delta_micros)
        → elim min [ none ↦ none | some min_t ↦ some (check_classes min_t 0 p.delay_classes) ]
          ≡ some (ok tt)
        → All (NoLook p) p.delay_classes
    from_min none e h = absurd (cc h)
    from_min (some min_t) e h =
        let (covers, tight) =
          div_ceil_covers (work p) (p.alpha_den * p.delta_micros) min_t (sym e) in
        above (p.alpha_den * p.delta_micros) (work p) min_t p.delay_classes (omega arith) covers
          (check_classes-All min_t 0 p.delay_classes (cc h))

-- For every q from 1 to 2 ^ 40 and every segment length, the development profile passes the startup
-- check.
pub dev_passes :
    (q segment_ticks : ℕ) → 0 < q → q < 2 ^ 40 → check_no_look (dev q segment_ticks) ≡ some (ok tt)
unfolding check_no_look dev min_delay_squarings check_classes div_ceil
dev_passes q segment_ticks h l =
    let delay : dev_delay q ≡ 27 * q = omega arith in
    let next : wrap (2 * dev_delay q) ≡ 54 * q = omega arith in
    let rounded : wrap (wrap (2 * q) * 26000) ≡ 52000 * q = omega arith in
    let exact : 52000 * q % 2000 ≡ 0 = omega arith in
    let quotient : 52000 * q / 2000 ≡ 26 * q = omega arith in
    rw (next, delay, rounded, exact, quotient) (ground arith)
