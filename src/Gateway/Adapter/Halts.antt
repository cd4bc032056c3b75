-- ===== src/Gateway/Adapter/Halts.antt =====
-- Where the scan of `advance` (demo/gateway/src/lighter_sim.rs) stops.
use lighter_integration.Base.{
  ℕ, zero, suc, ◌+◌, ◌-◌, ◌%◌, ◌^◌, ◌<◌, ◌≤◌, ◌≡◌, refl, sym, ap, ◌∙◌, Bool, true, false, ◌||◌,
  List, Option, none, some, length, ltb, if◌then◌else◌, ◌⊎◌, inl, inr, arith,
}
use mathlib.Core.Path.{subst}
use lighter_integration.Sequencer.Store.{
  ChainStore, SealedTick, TapePosition, get_position, Outcome, pending, opened, gap,
}
use lighter_integration.Sequencer.Node.Anchors.{get, keys_bound}
use lighter_integration.Gateway.Adapter.{SimState}
use lighter_integration.Gateway.Adapter.Advance.{
  Resolved, Scan, read_outcome, read_found, read_position, read_entries, complete_tick, read_sealed,
  read_at, read_tick, read_ticks, scan,
}
use lighter_integration.Gateway.Adapter.Scans.{is_pending, tick-read_found}

-- The tick is not sealed yet, its next position is pending or not on the tape yet, or the pass is long
-- enough.
pub data Halted (store : ChainStore) (batch : List Resolved) (t j : ℕ) : Type 0 where
  unsealed : get t store.ticks ≡ none → Halted store batch t j
  waiting :
      (sealed : SealedTick) (p : TapePosition)
      → get t store.ticks ≡ some sealed
      → j < length sealed.entries
      → get_position (t, j) store.tape ≡ some p
      → is_pending p.outcome ≡ true
      → Halted store batch t j
  untaped :
      (sealed : SealedTick)
      → get t store.ticks ≡ some sealed
      → j < length sealed.entries
      → get_position (t, j) store.tape ≡ none
      → Halted store batch t j
  bounded : 512 ≤ length batch → Halted store batch t j

-- No batch is as long as 2 ^ 32.
abbrev pub ShortBatches : ChainStore → Type 0
ShortBatches store =
    (t : ℕ) (sealed : SealedTick) → get t store.ticks ≡ some sealed → length sealed.entries < 2 ^ 32

module _ (now : ℕ) (store : ChainStore) where
  abbrev HaltedScan : Scan → Type 0
  HaltedScan s = Halted store s.batch s.tick s.pos

  -- A round over the positions halts or goes to the next one.
  read_position-Halted :
      (sealed : SealedTick) (s : Scan)
      → s.stopped ≡ false
      → get s.tick store.ticks ≡ some sealed
      → s.pos < length sealed.entries
      → ((read_position now store s).stopped ≡ true) × HaltedScan (read_position now store s)
        ⊎ ((read_position now store s).stopped ≡ false)
          × ((read_position now store s).pos ≡ (s.pos + 1) % 2 ^ 32)
  unfolding read_position read_found read_outcome
  read_position-Halted sealed s go at short = from (get_position (s.tick, s.pos) store.tape) refl
    where
      outcome :
          (p : TapePosition) (o : Outcome)
          → p.outcome ≡ o
          → get_position (s.tick, s.pos) store.tape ≡ some p
          → ((read_outcome now o s).stopped ≡ true) × HaltedScan (read_outcome now o s)
            ⊎ ((read_outcome now o s).stopped ≡ false)
              × ((read_outcome now o s).pos ≡ (s.pos + 1) % 2 ^ 32)
      outcome p (pending m) e found = inl (refl, waiting sealed p at short found (ap is_pending e))
      outcome p (opened intent) e found = inr (go, refl)
      outcome p (gap reason) e found = inr (go, refl)

      from :
          (o : Option TapePosition)
          → get_position (s.tick, s.pos) store.tape ≡ o
          → ((read_found now o s).stopped ≡ true) × HaltedScan (read_found now o s)
            ⊎ ((read_found now o s).stopped ≡ false)
              × ((read_found now o s).pos ≡ (s.pos + 1) % 2 ^ 32)
      from none e = inl (refl, untaped sealed at short e)
      from (some p) e = outcome p p.outcome refl e

  read_entries-stopped :
      (fuel n : ℕ) (s : Scan) → s.stopped ≡ true → read_entries fuel now store n s ≡ s
  unfolding read_entries
  read_entries-stopped zero n s e = refl
  read_entries-stopped (suc fuel) n s e = rw e refl

  -- The rounds that are left read the whole tick, or halt in it.
  read_entries-Halted :
      (fuel : ℕ) (sealed : SealedTick) (s : Scan)
      → s.stopped ≡ false
      → get s.tick store.ticks ≡ some sealed
      → length sealed.entries ≤ s.pos + fuel
      → length sealed.entries < 2 ^ 32
      → ((read_entries fuel now store (length sealed.entries) s).stopped ≡ true)
          × HaltedScan (read_entries fuel now store (length sealed.entries) s)
        ⊎ ((read_entries fuel now store (length sealed.entries) s).stopped ≡ false)
          × (length sealed.entries ≤ (read_entries fuel now store (length sealed.entries) s).pos)
  unfolding read_entries
  read_entries-Halted zero sealed s go at enough small = inr (go, omega (arith, enough))
  read_entries-Halted (suc fuel) sealed s go at enough small =
      from s.stopped (ltb s.pos (length sealed.entries)) go refl (λ go' pos' short.
        read_entries-Halted fuel sealed (read_position now store s) go'
          (ap (λ t. get t store.ticks)
              (tick-read_found now store (get_position (s.tick, s.pos) store.tape) s)
            ∙ at)
          (omega (arith, enough, pos', short, small)) small)
    where
      size : ℕ
      size = length sealed.entries

      next : Scan
      next = read_position now store s

      Ends : Scan → Type 0
      Ends n = (n.stopped ≡ true) × HaltedScan n ⊎ (n.stopped ≡ false) × (size ≤ n.pos)

      from :
          (stop more : Bool)
          → stop ≡ false
          → ltb s.pos size ≡ more
          → (next.stopped ≡ false
              → next.pos ≡ (s.pos + 1) % 2 ^ 32
              → s.pos < size
              → Ends (read_entries fuel now store size next))
          → Ends (if stop then s else if more then read_entries fuel now store size next else s)
      from true more runs e rest = absurd (cc runs)
      from false true runs e rest = elim (read_position-Halted sealed s go at (ground arith)) [
        | inl (stop, halted) ↦
            subst Ends (sym (read_entries-stopped fuel size next stop)) (inl (stop, halted))
        | inr (go', pos') ↦ rest go' pos' (ground arith)
      ]
      from false false runs e rest = inr (go, ground arith)

  read_sealed-Halted :
      (sealed : SealedTick) (s : Scan)
      → s.stopped ≡ false
      → get s.tick store.ticks ≡ some sealed
      → length sealed.entries < 2 ^ 32
      → (read_sealed now store sealed s).stopped ≡ true
      → HaltedScan (read_sealed now store sealed s)
  unfolding read_sealed complete_tick
  read_sealed-Halted sealed s go at small =
      from (n.stopped || ltb n.pos size) refl
        (read_entries-Halted (size - s.pos) sealed s go at (omega arith) small)
    where
      size : ℕ
      size = length sealed.entries

      n : Scan
      n = read_entries (size - s.pos) now store size s

      from :
          (b : Bool)
          → (n.stopped || ltb n.pos size) ≡ b
          → (n.stopped ≡ true) × HaltedScan n ⊎ (n.stopped ≡ false) × (size ≤ n.pos)
          → (if b then record n { stopped = true } else complete_tick n).stopped ≡ true
          → HaltedScan (if b then record n { stopped = true } else complete_tick n)
      from true e (inl (stop, halted)) h = halted
      from true e (inr (runs, past)) h =
          let short : ltb n.pos size ≡ true = rw runs at e in absurd (ground (arith, short, past))
      from false e p h = bounded (ground arith)

  read_tick-Halted :
      (s : Scan)
      → ShortBatches store
      → s.stopped ≡ false
      → (read_tick now store s).stopped ≡ true
      → HaltedScan (read_tick now store s)
  unfolding read_tick read_at
  read_tick-Halted s short go = from (get s.tick store.ticks) refl
    where
      from :
          (o : Option SealedTick)
          → get s.tick store.ticks ≡ o
          → (read_at now store o s).stopped ≡ true
          → HaltedScan (read_at now store o s)
      from none e h = unsealed e
      from (some sealed) e h = read_sealed-Halted sealed s go e (short s.tick sealed e) h

  read_ticks-Halted :
      (fuel : ℕ) (s : Scan)
      → ShortBatches store
      → (s.stopped ≡ true → HaltedScan s)
      → (read_ticks fuel now store s).stopped ≡ true
      → HaltedScan (read_ticks fuel now store s)
  unfolding read_ticks
  read_ticks-Halted zero s short before = before
  read_ticks-Halted (suc fuel) s short before =
      from s.stopped refl
        (λ go. read_ticks-Halted fuel (read_tick now store s) short (read_tick-Halted s short go))
    where
      from :
          (stop : Bool)
          → s.stopped ≡ stop
          → (s.stopped ≡ false
              → (read_ticks fuel now store (read_tick now store s)).stopped ≡ true
              → HaltedScan (read_ticks fuel now store (read_tick now store s)))
          → (if stop then s else read_ticks fuel now store (read_tick now store s)).stopped ≡ true
          → HaltedScan (if stop then s else read_ticks fuel now store (read_tick now store s))
      from true e rest h = before e
      from false e rest h = rest e h

  pub scan-Halted :
      (s : SimState)
      → ShortBatches store
      → (scan now store s).stopped ≡ true
      → Halted store (scan now store s).batch (scan now store s).tick (scan now store s).pos
  unfolding scan
  scan-Halted s short =
      read_ticks-Halted (keys_bound store.ticks + 1 - s.cursor_tick + 1) _ short
        (λ e. absurd (cc e))
