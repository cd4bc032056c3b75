-- ===== src/Sequencer/Clock/Events.antt =====
-- The ticks that the clock (crates/sequencer/src/clock.rs) sends in one segment, by their index.
use lighter_integration.Base.{
  ℕ, zero, suc, ◌+◌, ◌*◌, ◌^◌, ◌<◌, ◌≡◌, sym, ap, ◌∙◌, some, get_elem?, wrap, arith,
}
use lighter_integration.Vdf.Posq.{Group, tick_advance}
use lighter_integration.Sequencer.Clock.{Tick, segment_events, segment_end}

-- The tick number that the clock computes in round `i`.
abbrev number : ℕ → ℕ → ℕ → ℕ
number segment_ticks segment i = wrap (wrap (wrap (segment * segment_ticks) + i) + 1)

segment_events_at :
    (group : Group) (q segment_ticks segment left i j x : ℕ) (e : Tick)
    → get_elem? (segment_events group q segment_ticks segment left i x) j ≡ some e
    → (j < left)
      × (e.segment ≡ segment)
      × (e.tick ≡ number segment_ticks segment (i + j))
      × (e.x ≡ segment_end group q (suc j) x)
unfolding segment_events segment_end
segment_events_at group q segment_ticks segment zero i j x e h = cc
segment_events_at group q segment_ticks segment (suc left) i zero x e h =
    let same : record {
      segment = segment;
      tick = number segment_ticks segment i;
      x = tick_advance group x q;
    }
        ≡ e =
      cc h in
    let index : i ≡ i + 0 = omega arith in
    (
      omega arith,
      sym (ap (λ (t : Tick). t.segment) same),
      sym (ap (λ (t : Tick). t.tick) same) ∙ ap (number segment_ticks segment) index,
      sym (ap (λ (t : Tick). t.x) same),
    )
segment_events_at group q segment_ticks segment (suc left) i (suc j) x e h =
    let (low, s, t, state) =
      segment_events_at group q segment_ticks segment left (i + 1) j (tick_advance group x q) e h in
    let index : i + 1 + j ≡ i + suc j = omega arith in
    (omega arith, s, t ∙ ap (number segment_ticks segment) index, state)

-- The event at index j of a segment s of F ticks is tick s * F + j + 1, belongs to the segment and
-- carries the state after j + 1 ticks, if the numbers fit in 64 bits.
pub segment_events_numbered :
    (group : Group) (q segment_ticks segment j x : ℕ) (e : Tick)
    → (segment + 1) * segment_ticks < 2 ^ 64
    → get_elem? (segment_events group q segment_ticks segment segment_ticks 0 x) j ≡ some e
    → (j < segment_ticks)
      × (e.segment ≡ segment)
      × (e.tick ≡ segment * segment_ticks + j + 1)
      × (e.x ≡ segment_end group q (suc j) x)
segment_events_numbered group q segment_ticks segment j x e fits h =
    let (low, s, t, state) =
      segment_events_at group q segment_ticks segment segment_ticks 0 j x e h in
    (low, s, t ∙ omega arith, state)
