-- ===== src/Gateway/Adapter/Scans.antt =====
-- The scan of `advance` (demo/gateway/src/lighter_sim.rs): the positions of the tape that it reads from
-- the cursor on.
use lighter_integration.Base.{
  ℕ, zero, suc, ◌+◌, ◌-◌, ◌%◌, ◌^◌, ◌<◌, ◌≤◌, ◌≡◌, refl, ap, ◌∙◌, Bool, true, false, ◌||◌, List, [],
  ◌∷◌, ◌++◌, Option, none, some, length, ltb, if◌then◌else◌, wrap, or_false, arith,
}
use mathlib.Core.Path.{subst}
use lighter_integration.Sequencer.Store.{
  ChainStore, SealedTick, TapePosition, get_position, Outcome, pending, opened, gap,
}
use lighter_integration.Sequencer.Node.Anchors.{get}
use lighter_integration.Gateway.Adapter.Advance.{
  Resolved, Scan, read_outcome, read_found, read_position, read_entries, complete_tick, read_sealed,
  read_at, read_tick, read_ticks,
}

abbrev pub is_pending : Outcome → Bool
is_pending (pending m) = true
is_pending (opened intent) = false
is_pending (gap reason) = false

-- The resolved positions from a cursor on, in the order of the tape, the ticks that end with them and the
-- cursor behind them: every position of a tick before the next tick, and none twice.
pub data Reads (store : ChainStore) (from_tick from_pos : ℕ)
    : List Resolved → List ℕ → ℕ → ℕ → Type 0 where
  starts : Reads store from_tick from_pos [] [] from_tick from_pos
  reads :
      {batch : List Resolved} {completed : List ℕ} {t j : ℕ} (sealed : SealedTick)
      (p : TapePosition)
      → Reads store from_tick from_pos batch completed t j
      → get t store.ticks ≡ some sealed
      → j < length sealed.entries
      → get_position (t, j) store.tape ≡ some p
      → is_pending p.outcome ≡ false
      → Reads store from_tick from_pos
          (batch ++ record { tick = t; pos = j; outcome = p.outcome } ∷ [])
          completed
          t
          ((j + 1) % 2 ^ 32)
  completes :
      {batch : List Resolved} {completed : List ℕ} {t j : ℕ} (sealed : SealedTick)
      → Reads store from_tick from_pos batch completed t j
      → get t store.ticks ≡ some sealed
      → length sealed.entries ≤ j
      → Reads store from_tick from_pos batch (completed ++ t ∷ []) (wrap (t + 1)) 0

module _ (now : ℕ) (store : ChainStore) where
  -- Reading the positions of a tick stays at the tick.
  pub tick-read_found : (o : Option TapePosition) (s : Scan) → (read_found now o s).tick ≡ s.tick
  unfolding read_found
  tick-read_found none s = refl
  tick-read_found (some p) s = from p.outcome
    where
      from : (o : Outcome) → (read_outcome now o s).tick ≡ s.tick
      from (pending m) = refl
      from (opened intent) = refl
      from (gap reason) = refl

  pub tick-read_entries : (fuel n : ℕ) (s : Scan) → (read_entries fuel now store n s).tick ≡ s.tick
  unfolding read_entries read_position
  tick-read_entries zero n s = refl
  tick-read_entries (suc fuel) n s = from s.stopped (ltb s.pos n) (
      tick-read_entries fuel n (read_position now store s)
      ∙ tick-read_found (get_position (s.tick, s.pos) store.tape) s)
    where
      rest : Scan
      rest = read_entries fuel now store n (read_position now store s)

      from :
          (stop more : Bool)
          → rest.tick ≡ s.tick
          → (if stop then s else if more then rest else s).tick ≡ s.tick
      from true more e = refl
      from false true e = e
      from false false e = refl

  module _ (from_tick from_pos : ℕ) where
    abbrev ReadsScan : Scan → Type 0
    ReadsScan s = Reads store from_tick from_pos s.batch s.ticks_completed s.tick s.pos

    read_outcome-Reads :
        (sealed : SealedTick) (p : TapePosition) (o : Outcome) (s : Scan)
        → p.outcome ≡ o
        → ReadsScan s
        → get s.tick store.ticks ≡ some sealed
        → s.pos < length sealed.entries
        → get_position (s.tick, s.pos) store.tape ≡ some p
        → ReadsScan (read_outcome now o s)
    unfolding read_outcome
    read_outcome-Reads sealed p o s e r at short found = from o e
      where
        added : Outcome → Type 0
        added o =
            Reads store from_tick from_pos
              (s.batch ++ record { tick = s.tick; pos = s.pos; outcome = o } ∷ []) s.ticks_completed
              s.tick ((s.pos + 1) % 2 ^ 32)

        from : (o : Outcome) → p.outcome ≡ o → ReadsScan (read_outcome now o s)
        from (pending m) e = r
        from (opened intent) e = subst added e (reads sealed p r at short found (ap is_pending e))
        from (gap reason) e = subst added e (reads sealed p r at short found (ap is_pending e))

    read_position-Reads :
        (sealed : SealedTick) (s : Scan)
        → ReadsScan s
        → get s.tick store.ticks ≡ some sealed
        → s.pos < length sealed.entries
        → ReadsScan (read_position now store s)
    unfolding read_position read_found
    read_position-Reads sealed s r at short = from (get_position (s.tick, s.pos) store.tape) refl
      where
        from :
            (o : Option TapePosition)
            → get_position (s.tick, s.pos) store.tape ≡ o
            → ReadsScan (read_found now o s)
        from none e = r
        from (some p) e = read_outcome-Reads sealed p p.outcome s refl r at short e

    read_entries-Reads :
        (fuel : ℕ) (sealed : SealedTick) (s : Scan)
        → ReadsScan s
        → get s.tick store.ticks ≡ some sealed
        → ReadsScan (read_entries fuel now store (length sealed.entries) s)
    unfolding read_entries read_position
    read_entries-Reads zero sealed s r at = r
    read_entries-Reads (suc fuel) sealed s r at =
        from s.stopped (ltb s.pos (length sealed.entries)) refl (λ short.
          read_entries-Reads fuel sealed (read_position now store s)
            (read_position-Reads sealed s r at short)
            (ap (λ t. get t store.ticks)
                (tick-read_found (get_position (s.tick, s.pos) store.tape) s)
              ∙ at))
      where
        rest : Scan
        rest = read_entries fuel now store (length sealed.entries) (read_position now store s)

        from :
            (stop more : Bool)
            → ltb s.pos (length sealed.entries) ≡ more
            → (s.pos < length sealed.entries → ReadsScan rest)
            → ReadsScan (if stop then s else if more then rest else s)
        from true more e go = r
        from false true e go = go (ground arith)
        from false false e go = r

    read_sealed-Reads :
        (sealed : SealedTick) (s : Scan)
        → ReadsScan s
        → get s.tick store.ticks ≡ some sealed
        → ReadsScan (read_sealed now store sealed s)
    unfolding read_sealed complete_tick
    read_sealed-Reads sealed s r at =
        from (n.stopped || ltb n.pos size) refl (read_entries-Reads (size - s.pos) sealed s r at)
      where
        size : ℕ
        size = length sealed.entries

        n : Scan
        n = read_entries (size - s.pos) now store size s

        from :
            (b : Bool)
            → (n.stopped || ltb n.pos size) ≡ b
            → ReadsScan n
            → ReadsScan (if b then record n { stopped = true } else complete_tick n)
        from true e last = last
        from false e last =
            let (_, long) = or_false n.stopped (ltb n.pos size) e in
            completes sealed last
              (ap (λ t. get t store.ticks) (tick-read_entries (size - s.pos) size s) ∙ at)
              (ground arith)

    read_tick-Reads : (s : Scan) → ReadsScan s → ReadsScan (read_tick now store s)
    unfolding read_tick read_at
    read_tick-Reads s r = from (get s.tick store.ticks) refl
      where
        from :
            (o : Option SealedTick) → get s.tick store.ticks ≡ o → ReadsScan (read_at now store o s)
        from none e = r
        from (some sealed) e = read_sealed-Reads sealed s r e

    pub read_ticks-Reads :
        (fuel : ℕ) (s : Scan) → ReadsScan s → ReadsScan (read_ticks fuel now store s)
    unfolding read_ticks
    read_ticks-Reads zero s r = r
    read_ticks-Reads (suc fuel) s r =
        from s.stopped (read_ticks-Reads fuel (read_tick now store s) (read_tick-Reads s r))
      where
        from :
            (stop : Bool)
            → ReadsScan (read_ticks fuel now store (read_tick now store s))
            → ReadsScan (if stop then s else read_ticks fuel now store (read_tick now store s))
        from true rest = r
        from false rest = rest
