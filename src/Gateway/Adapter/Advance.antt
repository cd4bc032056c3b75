-- ===== src/Gateway/Adapter/Advance.antt =====
-- `advance` of demo/gateway/src/lighter_sim.rs: the scan of the tape from the cursor, and the replay of
-- what it found. The events for subscribers are part of the result.
use lighter_integration.Base.{
  ℕ, zero, suc, ◌+◌, ◌-◌, ◌%◌, ◌^◌, Bool, true, false, ◌&&◌, ◌||◌, Bytes, List, [], ◌∷◌, ◌++◌,
  Option, none, some, length, ltb, leb, ◌==◌, if◌then◌else◌, wrap,
}
use lighter_integration.Sequencer.Identity.{Primitives}
use lighter_integration.Sequencer.Store.{
  ChainStore, SealedTick, TapePosition, get_position, Outcome, pending, opened, gap,
}
use lighter_integration.Sequencer.Node.Anchors.{get, keys_bound}
use lighter_integration.Gateway.Book.{Hex, LighterTx, Trade}
use lighter_integration.Gateway.Adapter.{
  SimState, HeadBlock, LighterBlock, process_position, seal_block,
}

pub record Resolved : Type 0 where
  pub tick : ℕ
  pub pos : ℕ
  pub outcome : Outcome

-- The variables of the scan; `stopped` stands for `break 'outer`.
pub record Scan : Type 0 where
  pub tick : ℕ
  pub pos : ℕ
  pub batch : List Resolved
  pub ticks_completed : List ℕ
  pub head_block : Option HeadBlock
  pub stopped : Bool

-- A resolved position goes into the batch, a pending one blocks the head.
unfoldable pub read_outcome : ℕ → Outcome → Scan → Scan
read_outcome now (pending mature_at) s = record s {
  head_block = some (record { tick = s.tick; pos = s.pos; mature_at = mature_at; since_ms = now });
  stopped = true;
}
read_outcome now (opened intent) s = record s {
  batch = s.batch ++ record { tick = s.tick; pos = s.pos; outcome = opened intent } ∷ [];
  pos = (s.pos + 1) % 2 ^ 32;
}
read_outcome now (gap reason) s = record s {
  batch = s.batch ++ record { tick = s.tick; pos = s.pos; outcome = gap reason } ∷ [];
  pos = (s.pos + 1) % 2 ^ 32;
}

unfoldable pub read_found : ℕ → Option TapePosition → Scan → Scan
unfolding read_outcome
read_found now none s = record s { stopped = true }
read_found now (some p) s = read_outcome now p.outcome s

unfoldable pub read_position : ℕ → ChainStore → Scan → Scan
unfolding get_position read_found
read_position now store s = read_found now (get_position (s.tick, s.pos) store.tape) s

-- `while (cp as usize) < entries.len()`, of which at most `fuel` rounds are left
unfoldable pub read_entries : ℕ → ℕ → ChainStore → ℕ → Scan → Scan
unfolding read_position
read_entries zero now store n s = s
read_entries (suc fuel) now store n s =
    let rest = read_entries fuel now store n (read_position now store s) in
    if s.stopped then s else if ltb s.pos n then rest else s

-- The end of a tick whose positions have been read; a pass is bounded.
unfoldable pub complete_tick : Scan → Scan
complete_tick s = record s {
  ticks_completed = s.ticks_completed ++ s.tick ∷ [];
  tick = wrap (s.tick + 1);
  pos = 0;
  stopped = leb 512 (length s.batch);
}

-- The body of the outer loop, for the tick at the cursor.
unfoldable pub read_sealed : ℕ → ChainStore → SealedTick → Scan → Scan
unfolding read_entries complete_tick
read_sealed now store sealed s =
    let n = length sealed.entries in
    let r = read_entries (n - s.pos) now store n s in
    if r.stopped || ltb r.pos n then record r { stopped = true } else complete_tick r

unfoldable pub read_at : ℕ → ChainStore → Option SealedTick → Scan → Scan
unfolding read_sealed
read_at now store none s = record s { stopped = true }
read_at now store (some sealed) s = read_sealed now store sealed s

unfoldable pub read_tick : ℕ → ChainStore → Scan → Scan
unfolding get read_at
read_tick now store s = read_at now store (get s.tick store.ticks) s

-- `'outer: loop`, of at most `fuel` rounds
unfoldable pub read_ticks : ℕ → ℕ → ChainStore → Scan → Scan
unfolding read_tick
read_ticks zero now store s = s
read_ticks (suc fuel) now store s =
    let rest = read_ticks fuel now store (read_tick now store s) in if s.stopped then s else rest

-- The scan from the cursor; one round per tick up to the last one, and one more, are enough
-- (Adapter/Ends).
unfoldable pub scan : ℕ → ChainStore → SimState → Scan
unfolding read_ticks keys_bound
scan now store s = read_ticks (keys_bound store.ticks + 1 - s.cursor_tick + 1) now store (record {
  tick = s.cursor_tick;
  pos = s.cursor_pos;
  batch = [];
  ticks_completed = [];
  head_block = none;
  stopped = false;
})

-- The variables of the replay; `queue` is `batch_iter`.
pub record Replay : Type 0 where
  pub sim : SimState
  pub new_trades : List Trade
  pub sealed_blocks : List LighterBlock
  pub queue : List Resolved

abbrev pub set_cursor : ℕ → ℕ → SimState → SimState
set_cursor tick pos s = record s { cursor_tick = tick; cursor_pos = pos }

-- The result, and whether progress was made.
pub record Advanced : Type 0 where
  pub sim : SimState
  pub new_trades : List Trade
  pub sealed_blocks : List LighterBlock
  pub made_progress : Bool

abbrev pub is_empty {ℓ} : {A : Type ℓ} → List A → Bool
is_empty [] = true
is_empty (x ∷ xs) = false

module _ (primitives : Primitives) (hex : Hex) (parse_tx : Bytes → Option LighterTx) where
  unfoldable pub play : Resolved → List Resolved → Replay → Option Replay
  unfolding process_position
  play x queue r = elim (process_position primitives hex parse_tx x.tick x.pos x.outcome r.sim) [
    | none ↦ none
    | some done ↦
        some (record r { sim = done.0; new_trades = r.new_trades ++ done.1; queue = queue })
  ]

  -- `while let Some(r) = batch_iter.peek()`
  unfoldable pub play_through : ℕ → List Resolved → Replay → Option Replay
  unfolding play
  play_through done [] r = some r
  play_through done (x ∷ queue) r =
      if ltb done x.tick
      then some r
      else elim (play x queue r) [ none ↦ none | some next ↦ play_through done queue next ]

  -- A block is sealed where the last tick of a range completes; the cursor goes on.
  unfoldable pub close_tick : ℕ → ℕ → ℕ → Replay → Replay
  unfolding seal_block
  close_tick block_ticks delta_ms done r =
      let (sim, blk) = seal_block hex done delta_ms r.sim in
      let closed =
        if done % block_ticks == 0
        then record r { sim = sim; sealed_blocks = r.sealed_blocks ++ blk ∷ [] }
        else r in
      record closed { sim = set_cursor (wrap (done + 1)) 0 closed.sim }

  -- `for done_tick in &ticks_completed`; a range of no ticks divides by zero.
  unfoldable pub play_ticks : ℕ → ℕ → List ℕ → Replay → Option Replay
  unfolding play_through close_tick
  play_ticks block_ticks delta_ms [] r = some r
  play_ticks block_ticks delta_ms (done ∷ ticks) r = elim (play_through done r.queue r) [
    | none ↦ none
    | some next ↦
        if block_ticks == 0
        then none
        else play_ticks block_ticks delta_ms ticks (close_tick block_ticks delta_ms done next)
  ]

  -- `for r in batch_iter`
  unfoldable pub play_rest : List Resolved → Replay → Option Replay
  unfolding play
  play_rest [] r = some r
  play_rest (x ∷ queue) r = elim (play x queue r) [
    | none ↦ none
    | some next ↦
        play_rest queue (record next { sim = set_cursor x.tick ((x.pos + 1) % 2 ^ 32) next.sim })
  ]

  unfoldable pub replay : ℕ → ℕ → Scan → SimState → Option Replay
  unfolding play_ticks play_rest
  replay block_ticks delta_ms found s =
      elim (play_ticks block_ticks delta_ms found.ticks_completed
        (record { sim = s; new_trades = []; sealed_blocks = []; queue = found.batch })) [
          | none ↦ none
          | some r ↦ play_rest r.queue r
        ]

  -- `advance`, at the time `now`
  unfoldable pub advance : ℕ → ℕ → ℕ → ChainStore → SimState → Option Advanced
  unfolding scan replay
  advance now block_ticks delta_ms store s =
      let found = scan now store s in
      if is_empty found.batch && is_empty found.ticks_completed
      then some (record {
        sim = record s { head_blocked = found.head_block };
        new_trades = [];
        sealed_blocks = [];
        made_progress = false;
      })
      else elim (replay block_ticks delta_ms found s) [
        | none ↦ none
        | some r ↦ some (record {
          sim = record r.sim { head_blocked = found.head_block };
          new_trades = r.new_trades;
          sealed_blocks = r.sealed_blocks;
          made_progress = true;
        })
      ]
