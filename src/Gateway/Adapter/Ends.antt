-- ===== src/Gateway/Adapter/Ends.antt =====
-- The fuel of the loops of the scan of `advance` (demo/gateway/src/lighter_sim.rs).
use lighter_integration.Base.{
  ℕ, zero, suc, ◌+◌, ◌-◌, ◌^◌, ◌<◌, ◌≡◌, refl, ap, ◌∙◌, Bool, true, false, ◌||◌, Option, none, some,
  length, ltb, if◌then◌else◌, ◌⊎◌, inl, inr, wrap, arith,
}
use lighter_integration.Sequencer.Store.{ChainStore, SealedTick}
use lighter_integration.Sequencer.Node.Anchors.{get, keys_bound}
use lighter_integration.Gateway.Adapter.{SimState}
use lighter_integration.Sequencer.Node.Log.{get_below}
use lighter_integration.Gateway.Adapter.Advance.{
  Scan, read_entries, complete_tick, read_sealed, read_at, read_tick, read_ticks, scan,
}
use lighter_integration.Gateway.Adapter.Scans.{Reads, starts, tick-read_entries, read_ticks-Reads}

module _ (now : ℕ) (store : ChainStore) where
  -- The rounds of the outer loop.
  read_tick-progress :
      (s : Scan)
      → ((read_tick now store s).stopped ≡ true)
        ⊎ ((s.tick < keys_bound store.ticks) × ((read_tick now store s).tick ≡ wrap (s.tick + 1)))
  unfolding read_tick read_at read_sealed complete_tick
  read_tick-progress s = from (get s.tick store.ticks) refl
    where
      from :
          (o : Option SealedTick)
          → get s.tick store.ticks ≡ o
          → ((read_at now store o s).stopped ≡ true)
            ⊎ ((s.tick < keys_bound store.ticks)
                × ((read_at now store o s).tick ≡ wrap (s.tick + 1)))
      from none e = inl refl
      from (some sealed) e = closes (n.stopped || ltb n.pos size)
        where
          size : ℕ
          size = length sealed.entries

          n : Scan
          n = read_entries (size - s.pos) now store size s

          closes :
              (b : Bool)
              → ((if b then record n { stopped = true } else complete_tick n).stopped ≡ true)
                ⊎ ((s.tick < keys_bound store.ticks)
                    × ((if b then record n { stopped = true } else complete_tick n).tick
                        ≡ wrap (s.tick + 1)))
          closes true = inl refl
          closes false = inr (
            get_below s.tick store.ticks sealed e,
            ap (λ t. wrap (t + 1)) (tick-read_entries now store (size - s.pos) size s),
          )

  read_ticks-stopped : (fuel : ℕ) (s : Scan) → s.stopped ≡ true → read_ticks fuel now store s ≡ s
  unfolding read_ticks
  read_ticks-stopped zero s e = refl
  read_ticks-stopped (suc fuel) s e = rw e refl

  -- One round per tick up to the last one, and one more, bring the scan to its end.
  pub read_ticks_end :
      (fuel : ℕ) (s : Scan)
      → keys_bound store.ticks < 2 ^ 64
      → 0 < fuel
      → keys_bound store.ticks < s.tick + fuel
      → (read_ticks fuel now store s).stopped ≡ true
  unfolding read_ticks
  read_ticks_end zero s small pos enough = absurd (omega (arith, pos))
  read_ticks_end (suc fuel) s small pos enough =
      from s.stopped refl (read_tick-progress s)
        (λ pos' enough'. read_ticks_end fuel (read_tick now store s) small pos' enough')
    where
      next : Scan
      next = read_tick now store s

      from :
          (stop : Bool)
          → s.stopped ≡ stop
          → (next.stopped ≡ true)
            ⊎ ((s.tick < keys_bound store.ticks) × (next.tick ≡ wrap (s.tick + 1)))
          → (0 < fuel
              → keys_bound store.ticks < next.tick + fuel
              → (read_ticks fuel now store next).stopped ≡ true)
          → (if stop then s else read_ticks fuel now store next).stopped ≡ true
      from true e p rest = e
      from false e (inl done) rest =
          ap (λ (x : Scan). x.stopped) (read_ticks-stopped fuel next done) ∙ done
      from false e (inr (below, on)) rest =
          let at : next.tick ≡ s.tick + 1 = omega (arith, on, below, small) in
          rest (omega (arith, enough, below)) (omega (arith, enough, at))

  -- The scan comes to its end, and what it collected are positions that were read in order.
  pub scan-Reads :
      (s : SimState)
      → keys_bound store.ticks < 2 ^ 64
      → ((scan now store s).stopped ≡ true)
        × Reads store s.cursor_tick s.cursor_pos
            (scan now store s).batch
            (scan now store s).ticks_completed
            (scan now store s).tick
            (scan now store s).pos
  unfolding scan
  scan-Reads s small = (
    read_ticks_end (keys_bound store.ticks + 1 - s.cursor_tick + 1) _ small (omega arith)
        (omega arith),
    read_ticks-Reads now store s.cursor_tick s.cursor_pos
        (keys_bound store.ticks + 1 - s.cursor_tick + 1) _ starts,
  )
