-- ===== src/Gateway/Adapter/Consumes.antt =====
-- `advance` of demo/gateway/src/lighter_sim.rs as a whole: the scan, and the replay of what it found.
use lighter_integration.Base.{
  ℕ, ◌^◌, ◌<◌, ◌≡◌, refl, sym, ◌∙◌, true, false, ◌&&◌, Bytes, List, [], ◌∷◌, Option, some, All,
  All-snoc, Bool-cases, inl, inr, and_true, arith,
}
use mathlib.Core.Path.{subst, subst₂}
use lighter_integration.Sequencer.Identity.{Primitives}
use lighter_integration.Sequencer.Store.{ChainStore}
use lighter_integration.Gateway.Book.{Hex, LighterTx}
use lighter_integration.Gateway.Adapter.{SimState}
use lighter_integration.Sequencer.Node.Anchors.{keys_bound}
use lighter_integration.Gateway.Adapter.Advance.{
  Resolved, Scan, Replay, Advanced, replay, scan, advance, is_empty,
}
use lighter_integration.Gateway.Adapter.Scans.{is_pending, Reads, starts, reads, completes}
use lighter_integration.Gateway.Adapter.Ends.{scan-Reads}
use lighter_integration.Gateway.Adapter.Halts.{Halted, ShortBatches, scan-Halted}
use lighter_integration.Gateway.Adapter.Cursor.{cursor_ticks, cursor_rest, queue_after, Reads-Lands}
use lighter_integration.Gateway.Adapter.Plays.{cursor_of, stream_over, Plays, Plays-none}
use lighter_integration.Gateway.Adapter.Replaying.{replay-Plays}

Reads-Ready :
    (store : ChainStore) (from_tick from_pos : ℕ) {batch : List Resolved} {completed : List ℕ}
    {t j : ℕ}
    → Reads store from_tick from_pos batch completed t j
    → All (λ (x : Resolved). is_pending x.outcome ≡ false) batch
Reads-Ready store from_tick from_pos starts = tt
Reads-Ready store from_tick from_pos (reads {batch} sealed p r at short found ready) =
    All-snoc (λ (x : Resolved). is_pending x.outcome ≡ false) batch _
      (Reads-Ready store from_tick from_pos r) ready
Reads-Ready store from_tick from_pos (completes sealed r at long) =
    Reads-Ready store from_tick from_pos r

is_empty-nil {ℓ} : {A : Type ℓ} (xs : List A) → is_empty xs ≡ true → xs ≡ []
is_empty-nil [] e = refl
is_empty-nil (x ∷ xs) e = absurd (cc e)

-- Where nothing was read the cursor stays.
nothing_read :
    (c d : ℕ × ℕ) (batch : List Resolved) (completed : List ℕ)
    → batch ≡ []
    → completed ≡ []
    → cursor_rest (queue_after completed batch) (cursor_ticks completed c) ≡ d
    → c ≡ d
unfolding queue_after cursor_ticks cursor_rest
nothing_read c d batch completed eb ec =
    subst₂ (λ b l. cursor_rest (queue_after l b) (cursor_ticks l c) ≡ d → c ≡ d) (sym eb) (sym ec)
      (λ h. h)

module _ (primitives : Primitives) (hex : Hex) (parse_tx : Bytes → Option LighterTx) where
  -- The positions from the cursor of `s` on have been executed, and the cursor of `s'` is behind them,
  -- where the tape halts.
  pub record Consumed (store : ChainStore) (s s' : SimState) : Type 0 where
    pub batch : List Resolved
    pub completed : List ℕ
    pub in_order :
        Reads store s.cursor_tick s.cursor_pos batch completed s'.cursor_tick s'.cursor_pos
    pub halted : Halted store batch s'.cursor_tick s'.cursor_pos
    pub plays : Plays primitives hex parse_tx batch s s'

  scan-Consumed :
      (store : ChainStore) (s s' : SimState) (found : Scan)
      → Reads store s.cursor_tick s.cursor_pos found.batch found.ticks_completed found.tick
          found.pos
      → Halted store found.batch found.tick found.pos
      → Plays primitives hex parse_tx found.batch s s'
      → cursor_of s' ≡ (found.tick, found.pos)
      → Consumed store s s'
  scan-Consumed store s s' found r halted plays at = record {
    batch = found.batch;
    completed = found.ticks_completed;
    in_order =
        subst
          (λ (c : ℕ × ℕ).
            Reads store s.cursor_tick s.cursor_pos found.batch found.ticks_completed c.0 c.1)
          (sym at) r;
    halted = subst (λ (c : ℕ × ℕ). Halted store found.batch c.0 c.1) (sym at) halted;
    plays = plays;
  }

  advance_idle :
      (now block_ticks delta_ms : ℕ) (store : ChainStore) (s : SimState)
      → (is_empty (scan now store s).batch && is_empty (scan now store s).ticks_completed) ≡ true
      → advance primitives hex parse_tx now block_ticks delta_ms store s
        ≡ some (record {
          sim = record s { head_blocked = (scan now store s).head_block };
          new_trades = [];
          sealed_blocks = [];
          made_progress = false;
        })
  unfolding advance
  advance_idle now block_ticks delta_ms store s e = rw e refl

  advance_moves :
      (now block_ticks delta_ms : ℕ) (store : ChainStore) (s : SimState) (last : Replay)
      → (is_empty (scan now store s).batch && is_empty (scan now store s).ticks_completed) ≡ false
      → replay primitives hex parse_tx block_ticks delta_ms (scan now store s) s ≡ some last
      → advance primitives hex parse_tx now block_ticks delta_ms store s
        ≡ some (record {
          sim = record last.sim { head_blocked = (scan now store s).head_block };
          new_trades = last.new_trades;
          sealed_blocks = last.sealed_blocks;
          made_progress = true;
        })
  unfolding advance
  advance_moves now block_ticks delta_ms store s last e gives = rw (e, gives) refl

  -- If a range has at least one tick, no batch has 2^32 entries and the numbers of the sealed ticks
  -- are below 2^64, advance does not panic: it takes the positions of the tape from the cursor on in
  -- order, each once, leaves the cursor behind them, and stops only at a tick that is not sealed, at
  -- a position that is pending or not on the tape, or after 512 positions; the book is that after
  -- the transactions among them, each executed once in this order, where a transaction is the
  -- payload of an opened intent of the namespace that reads as one; the stream commitment runs over
  -- exactly these payloads, and the counters account for every position up to their wrap-around.
  pub advance-Consumed :
      (now block_ticks delta_ms : ℕ) (store : ChainStore) (s : SimState)
      → 0 < block_ticks
      → keys_bound store.ticks < 2 ^ 64
      → ShortBatches store
      → (result : Advanced) × (advance primitives hex parse_tx now block_ticks delta_ms store s
          ≡ some result)
        × Consumed store s result.sim
  unfolding stream_over
  advance-Consumed now block_ticks delta_ms store s some_ticks small short =
      let found = scan now store s in
      let (stop, r) = scan-Reads now store s small in
      let halted = scan-Halted now store s short stop in
      let lands = (Reads-Lands store s.cursor_tick s.cursor_pos small r).lands in
      elim (Bool-cases (is_empty found.batch && is_empty found.ticks_completed)) [
        | inl e ↦
            let (eb, ec) = and_true (is_empty found.batch) (is_empty found.ticks_completed) e in
            let nil = is_empty-nil found.batch eb in
            (
              _,
              advance_idle now block_ticks delta_ms store s e,
              scan-Consumed store s (record s { head_blocked = found.head_block }) found r halted
                  (subst
                    (λ xs.
                      Plays primitives hex parse_tx xs s
                        (record s { head_blocked = found.head_block }))
                    (sym nil)
                    (Plays-none primitives hex parse_tx s
                      (record s { head_blocked = found.head_block }) refl refl refl refl refl refl
                      refl))
                  (nothing_read (cursor_of s) (found.tick, found.pos) found.batch
                    found.ticks_completed nil (is_empty-nil found.ticks_completed ec) lands),
            )
        | inr e ↦
            let (last, gives, plays, at) =
              replay-Plays primitives hex parse_tx block_ticks delta_ms found s (ground arith)
                (Reads-Ready store s.cursor_tick s.cursor_pos r) in
            (
              _,
              advance_moves now block_ticks delta_ms store s last e gives,
              scan-Consumed store s (record last.sim { head_blocked = found.head_block }) found r
                  halted
                  (record {
                    stream = plays.stream;
                    books = plays.books;
                    seen = plays.seen;
                    settled = plays.settled;
                  })
                  (at ∙ lands),
            )
      ]
