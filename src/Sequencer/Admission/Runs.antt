-- ===== src/Sequencer/Admission/Runs.antt =====
-- Runs of the operations of crates/sequencer/src/admission.rs: the states they reach, and the capacity
-- rule in all of them.
use lighter_integration.Base.{ℕ, ◌^◌, ◌<◌, ◌≤◌, ◌≡◌, refl, Bool, Bytes, Hash32, arith}
use lighter_integration.Sequencer.Params.{PosqParams}
use lighter_integration.Sequencer.Identity.{Primitives, Address}
use lighter_integration.Sequencer.Envelope.{bucket_code}
use lighter_integration.Sequencer.Admission.{
  buffer_or_default, Admission, new_admission, get_tick, take_tick, advance_open, fence, lift_fence,
}
use lighter_integration.Sequencer.Admission.Submit.{
  Submitted, count_at, submit, reserve, receipt_of,
}
use lighter_integration.Sequencer.Admission.Outcomes.{Answered, refused, crashed, full, reserved}
use lighter_integration.Sequencer.Admission.Answers.{submit-Answered}
use lighter_integration.Sequencer.Admission.Capacity.{
  entries_in, WithinTicks, WithinTicks-put_tick, WithinTicks-drop_tick, WithinBuffer-get_tick,
  WithinTicks-kept_ticks, WithinBuffer-push_entry,
}

-- The states that the operations reach, in any order and with any arguments.
pub data Reachable (primitives : Primitives) (start : Admission) : Admission → Type 0 where
  here : Reachable primitives start start
  submits :
      {st : Admission} (bytes : Bytes) (stored : Bool)
      → Reachable primitives start st
      → Reachable primitives start (submit primitives st bytes stored).0
  takes :
      {st : Admission} (t : ℕ)
      → Reachable primitives start st
      → Reachable primitives start (take_tick st t).0
  advances :
      {st : Admission} (t : ℕ) (x_hash c_t : Hash32)
      → Reachable primitives start st
      → Reachable primitives start (advance_open st t x_hash c_t)
  fences :
      {st : Admission} (fault_tick : ℕ)
      → Reachable primitives start st
      → Reachable primitives start (fence st fault_tick).0
  lifts :
      {st : Admission} → Reachable primitives start st → Reachable primitives start (lift_fence st)

-- The parameters stay, and all buffers keep to the capacity.
pub record Capped (params : PosqParams) (st : Admission) : Type 0 where
  pub same_params : st.params ≡ params
  pub within : WithinTicks params.capacity_per_tick_per_bucket st.ticks

module _ (primitives : Primitives) (params : PosqParams) where
  pub Capped-submit :
      (st : Admission) (bytes : Bytes) (stored : Bool)
      → params.capacity_per_tick_per_bucket < 2 ^ 32
      → Capped params st
      → Capped params (submit primitives st bytes stored).0
  unfolding reserve count_at
  Capped-submit st bytes stored small c =
      from (submit primitives st bytes stored) (submit-Answered primitives st bytes stored)
    where
      from :
          (result : Submitted) → Answered primitives st bytes stored result → Capped params result.0
      from _ (refused h bucket window reason put hh why) = c
      from _ (crashed why) = c
      from _ (full h env hh d ad f) = c
      from _ (reserved h env t hh d ad b room low high before) =
          let buffer = buffer_or_default (get_tick t st.ticks) in
          let roomy : buffer.bucket_counts (bucket_code env.bucket)
              < params.capacity_per_tick_per_bucket =
            rw (← c.same_params) room in
          record {
            same_params = c.same_params;
            within =
                WithinTicks-put_tick params.capacity_per_tick_per_bucket t _ st.ticks
                  (WithinBuffer-push_entry primitives params.capacity_per_tick_per_bucket buffer
                    (receipt_of primitives st t buffer h env) h env bytes small
                    (WithinBuffer-get_tick params.capacity_per_tick_per_bucket t st.ticks c.within)
                    roomy)
                  c.within;
          }

  Reachable-Capped :
      {start st : Admission}
      → params.capacity_per_tick_per_bucket < 2 ^ 32
      → Capped params start
      → Reachable primitives start st
      → Capped params st
  unfolding take_tick advance_open fence lift_fence
  Reachable-Capped small c here = c
  Reachable-Capped small c (submits {st} bytes stored r) =
      Capped-submit st bytes stored small (Reachable-Capped small c r)
  Reachable-Capped small c (takes {st} t r) =
      let k = Reachable-Capped small c r in
      record {
        same_params = k.same_params;
        within = WithinTicks-drop_tick params.capacity_per_tick_per_bucket t st.ticks k.within;
      }
  Reachable-Capped small c (advances t x_hash c_t r) =
      let k = Reachable-Capped small c r in
      record { same_params = k.same_params; within = k.within }
  Reachable-Capped small c (fences {st} fault_tick r) =
      let k = Reachable-Capped small c r in
      record {
        same_params = k.same_params;
        within =
            WithinTicks-kept_ticks params.capacity_per_tick_per_bucket fault_tick st.ticks k.within;
      }
  Reachable-Capped small c (lifts r) =
      let k = Reachable-Capped small c r in
      record { same_params = k.same_params; within = k.within }

  -- Whatever submissions, sealings, fences and lifts a fresh admission went through, the batch that
  -- it gives out for a tick has at most capacity_per_tick_per_bucket entries of each bucket.
  pub batch_within_capacity :
      (identity : Bytes) (issuer : Address) (st : Admission) (t code : ℕ)
      → params.capacity_per_tick_per_bucket < 2 ^ 32
      → Reachable primitives (new_admission primitives params identity issuer) st
      → entries_in code (take_tick st t).1 ≤ params.capacity_per_tick_per_bucket
  unfolding take_tick new_admission
  batch_within_capacity identity issuer st t code small r =
      let k = Reachable-Capped small (record { same_params = refl; within = tt }) r in
      let (covered, top) =
        WithinBuffer-get_tick params.capacity_per_tick_per_bucket t st.ticks k.within code in
      omega (arith, covered, top)
