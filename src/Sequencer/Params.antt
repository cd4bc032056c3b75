-- ===== src/Sequencer/Params.antt =====
-- crates/sequencer/src/params.rs: the deployment parameters and the no-look inequality. `u64`
-- arithmetic wraps around; `none` is the panic of a division by zero.
pub mod NoLook
use lighter_integration.Base.{
  ℕ, ◌+◌, ◌*◌, ◌%◌, List, [], ◌∷◌, Option, none, some, get_elem?, leb, if◌then◌else◌, wrap,
  div_ceil, Result, ok, err,
}

pub record PosqParams : Type 0 where
  pub epoch : ℕ
  pub delta_micros : ℕ
  pub q_squarings : ℕ
  pub segment_ticks : ℕ
  pub window_ticks : ℕ
  pub gamma_ticks : ℕ
  pub xi_mu_micros : ℕ
  pub alpha_num : ℕ
  pub alpha_den : ℕ
  pub delay_classes : List ℕ
  pub grace_segments : ℕ
  pub envelope_bytes : ℕ
  pub capacity_per_tick_per_bucket : ℕ
  pub anchor_every_segments : ℕ

abbrev pub reference : PosqParams
reference = record {
  epoch = 0;
  delta_micros = 100;
  q_squarings = 3600;
  segment_ticks = 256;
  window_ticks = 50;
  gamma_ticks = 3;
  xi_mu_micros = 3000;
  alpha_num = 2;
  alpha_den = 1;
  delay_classes = 1000000 ∷ 2000000 ∷ 10000000 ∷ [];
  grace_segments = 1;
  envelope_bytes = 1024;
  capacity_per_tick_per_bucket = 64;
  anchor_every_segments = 8;
}

-- `t1` of `dev`
abbrev pub dev_delay : ℕ → ℕ
dev_delay q = wrap (wrap (wrap (2 * q) * 13) + q)

unfoldable pub dev : ℕ → ℕ → PosqParams
dev q segment_ticks = record {
  epoch = 0;
  delta_micros = 2000;
  q_squarings = q;
  segment_ticks = segment_ticks;
  window_ticks = 12;
  gamma_ticks = 1;
  xi_mu_micros = 0;
  alpha_num = 2;
  alpha_den = 1;
  delay_classes = dev_delay q ∷ wrap (2 * dev_delay q) ∷ [];
  grace_segments = 12;
  envelope_bytes = 1024;
  capacity_per_tick_per_bucket = 16;
  anchor_every_segments = 2;
}

-- The outer `Option` is the panic, the inner one the result.
unfoldable pub delay_ticks : PosqParams → ℕ → Option (Option ℕ)
delay_ticks p class = elim (get_elem? p.delay_classes class) [
  | none ↦ some none
  | some t ↦ elim (div_ceil t p.q_squarings) [ none ↦ none | some d ↦ some (some d) ]
]

unfoldable pub grace_ticks : PosqParams → ℕ
grace_ticks p = wrap (p.grace_segments * p.segment_ticks)

abbrev pub exposure_micros : PosqParams → ℕ → ℕ
exposure_micros p window_ticks =
    wrap (wrap (wrap (window_ticks + p.gamma_ticks) * p.delta_micros) + p.xi_mu_micros)

unfoldable pub min_delay_squarings : PosqParams → ℕ → Option ℕ
min_delay_squarings p window_ticks =
    div_ceil (wrap (wrap (p.alpha_num * p.q_squarings) * exposure_micros p window_ticks))
      (wrap (p.alpha_den * p.delta_micros))

-- `for (k, &t) in self.delay_classes.iter().enumerate()`; `k as u8` keeps the low byte.
unfoldable pub check_classes : ℕ → ℕ → List ℕ → Result (ℕ × ℕ × ℕ) (Unit {0})
check_classes min_t k [] = ok tt
check_classes min_t k (t ∷ classes) =
    if leb t min_t then err (k % 256, t, min_t) else check_classes min_t (k + 1) classes

unfoldable pub check_no_look : PosqParams → Option (Result (ℕ × ℕ × ℕ) (Unit {0}))
unfolding min_delay_squarings check_classes
check_no_look p = elim (min_delay_squarings p p.window_ticks) [
  | none ↦ none
  | some min_t ↦ some (check_classes min_t 0 p.delay_classes)
]
