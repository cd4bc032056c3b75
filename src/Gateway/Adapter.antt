-- ===== src/Gateway/Adapter.antt =====
-- The ingest adapter of demo/gateway/src/lighter_sim.rs: its state, the opened-stream commitment, the
-- execution of one position and the sealing of a block. JSON is the argument `parse_tx`; the clock is an
-- argument; a panic is `none`.
pub mod Advance
pub mod Scans
pub mod Ends
pub mod Halts
pub mod Cursor
pub mod Plays
pub mod Goes
pub mod Replaying
pub mod Consumes
use lighter_integration.Base.{
  ℕ, zero, suc, ◌+◌, ◌-◌, ◌*◌, ◌%◌, ◌^◌, Bool, true, false, Bytes, Hash32, List, [], ◌∷◌, ◌++◌,
  Option, none, some, length, drop, replicate, leb, ◌==◌, ◌!=◌, if◌then◌else◌, codes, wrap,
}
use lighter_integration.Plugin.Canonical.{to_be_bytes}
use lighter_integration.Sequencer.Identity.{Primitives}
use lighter_integration.Sequencer.Envelope.{Intent}
use lighter_integration.Sequencer.Store.{
  GapReason, undecryptable, invalid_intent, unopened, Outcome, pending, opened, gap,
}
use lighter_integration.Gateway.Book.{
  Hex, LighterTx, Trade, Book, default_book, ExecResult, applied, failed, hex_addr,
}
use lighter_integration.Gateway.Book.Execute.{BookSnapshot, execute, snapshot}

abbrev pub lighter_namespace : ℕ
lighter_namespace = 1

pub record BlockTx : Type 0 where
  pub tick : ℕ
  pub pos : ℕ
  pub account : Bytes
  pub payload_hex : Bytes
  pub tx : LighterTx
  pub result : ExecResult
  pub stream_after : Bytes

pub record BlockGap : Type 0 where
  pub tick : ℕ
  pub pos : ℕ
  pub reason : Bytes

pub record LighterBlock : Type 0 where
  pub number : ℕ
  pub epoch : ℕ
  pub first_tick : ℕ
  pub last_tick : ℕ
  pub timestamp_ms : ℕ
  pub txs : List BlockTx
  pub gaps : List BlockGap
  pub stream_commitment : Bytes
  pub book_after : BookSnapshot

pub record HeadBlock : Type 0 where
  pub tick : ℕ
  pub pos : ℕ
  pub mature_at : ℕ
  pub since_ms : ℕ

pub record SimState : Type 0 where
  pub book : Book
  pub blocks : List LighterBlock
  pub trades : List Trade
  pub block_counter : ℕ
  pub stream_s : Hash32
  pub epoch : ℕ
  pub epoch_start_ms : ℕ
  pub cursor_tick : ℕ
  pub cursor_pos : ℕ
  pub head_blocked : Option HeadBlock
  pub cur_txs : List BlockTx
  pub cur_gaps : List BlockGap
  pub cur_first_tick : ℕ
  pub opened : ℕ
  pub applied : ℕ
  pub failed : ℕ
  pub adapter_gaps : ℕ
  pub tape_gaps : ℕ
  pub trades_total : ℕ

-- `SimState::new`
abbrev pub new_sim : SimState
new_sim = record {
  book = default_book;
  blocks = [];
  trades = [];
  block_counter = 0;
  stream_s = replicate 32 0;
  epoch = 0;
  epoch_start_ms = 0;
  cursor_tick = 1;
  cursor_pos = 0;
  head_blocked = none;
  cur_txs = [];
  cur_gaps = [];
  cur_first_tick = 1;
  opened = 0;
  applied = 0;
  failed = 0;
  adapter_gaps = 0;
  tape_gaps = 0;
  trades_total = 0;
}

-- The text of a gap.
unfoldable pub reason_text : GapReason → Bytes
reason_text undecryptable = codes "undecryptable (mauled ciphertext)"
reason_text invalid_intent = codes "invalid intent (sig/namespace/expiry)"
reason_text unopened = codes "unopened by cutoff"

-- `pop_front` at the bound, then `push_back`
unfoldable pub push_bounded {ℓ} : {A : Type ℓ} → ℕ → List A → A → List A
push_bounded bound xs x = if leb bound (length xs) then drop 1 xs ++ x ∷ [] else xs ++ x ∷ []

unfoldable pub keep_trades : List Trade → List Trade → List Trade
unfolding push_bounded
keep_trades kept [] = kept
keep_trades kept (t ∷ trades) = keep_trades (push_bounded 2048 kept t) trades

-- A position that is left out of the stream.
unfoldable pub adapter_gap : ℕ → ℕ → Bytes → SimState → SimState
adapter_gap tick pos reason s = record s {
  adapter_gaps = wrap (s.adapter_gaps + 1);
  cur_gaps = s.cur_gaps ++ record { tick = tick; pos = pos; reason = reason } ∷ [];
}

unfoldable pub tape_gap : ℕ → ℕ → GapReason → SimState → SimState
unfolding reason_text
tape_gap tick pos reason s = record s {
  tape_gaps = wrap (s.tape_gaps + 1);
  cur_gaps = s.cur_gaps ++ record { tick = tick; pos = pos; reason = reason_text reason } ∷ [];
}

-- The counters and the trades of a result.
unfoldable pub count_result : ExecResult → SimState → SimState
unfolding keep_trades
count_result (applied trades rested n) s = record s {
  applied = wrap (s.applied + 1);
  trades_total = wrap (s.trades_total + length trades);
  trades = keep_trades s.trades trades;
}
count_result (failed reason) s = record s { failed = wrap (s.failed + 1) }

abbrev pub trades_of : ExecResult → List Trade
trades_of (applied trades rested n) = trades
trades_of (failed reason) = []

module _ (primitives : Primitives) where
  open primitives use {keccak256}

  unfoldable pub stream_genesis : ℕ → ℕ → Hash32
  stream_genesis epoch first_tick =
      keccak256
        (codes "lighter-stream-genesis-v1" ++ (to_be_bytes 8 epoch ++ to_be_bytes 8 first_tick))

  unfoldable pub stream_step : Hash32 → ℕ → ℕ → Bytes → Hash32
  stream_step s_prev tick pos payload = keccak256 (
      codes "lighter-stream-v1"
      ++ (s_prev ++ (to_be_bytes 8 tick ++ (to_be_bytes 4 pos ++ keccak256 payload))))

  -- `SimState::begin_epoch`, at the time `now`
  unfoldable pub begin_epoch : ℕ → ℕ → SimState → SimState
  unfolding stream_genesis
  begin_epoch epoch now s = record s {
    epoch = epoch;
    epoch_start_ms = now;
    cursor_tick = 1;
    cursor_pos = 0;
    stream_s = stream_genesis epoch 1;
    cur_txs = [];
    cur_gaps = [];
    cur_first_tick = 1;
    head_blocked = none;
  }

  module _ (hex : Hex) (parse_tx : Bytes → Option LighterTx) where
    -- A transaction that was parsed: the stream, the execution, the counters and the block.
    unfoldable pub run_tx : ℕ → ℕ → Intent → LighterTx → SimState → SimState × List Trade
    unfolding stream_step execute count_result hex_addr
    run_tx tick pos intent tx s =
        let stream = stream_step s.stream_s tick pos intent.payload in
        let (book, result) = execute hex intent.account tx tick pos s.block_counter s.book in
        let counted = count_result result (record s { stream_s = stream; book = book }) in
        (
          record counted {
            cur_txs =
                s.cur_txs
                ++ record {
                  tick = tick;
                  pos = pos;
                  account = hex_addr hex intent.account;
                  payload_hex = hex.encode intent.payload;
                  tx = tx;
                  result = result;
                  stream_after = hex.encode stream;
                }
                  ∷ [];
          },
          trades_of result,
        )

    unfoldable pub run_payload :
        ℕ → ℕ → Intent → Option LighterTx → SimState → SimState × List Trade
    unfolding run_tx adapter_gap
    run_payload tick pos intent none s = (adapter_gap tick pos (codes "unparseable payload") s, [])
    run_payload tick pos intent (some tx) s = run_tx tick pos intent tx s

    unfoldable pub run_intent : ℕ → ℕ → Intent → SimState → SimState × List Trade
    unfolding run_payload adapter_gap
    run_intent tick pos intent s =
        if intent.namespace != lighter_namespace
        then (adapter_gap tick pos (codes "foreign namespace") s, [])
        else run_payload tick pos intent (parse_tx intent.payload) s

    -- `process_position`: the state and the new trades; a pending position is unreachable.
    unfoldable pub process_position : ℕ → ℕ → Outcome → SimState → Option (SimState × List Trade)
    unfolding tape_gap run_intent
    process_position tick pos (pending m) s = none
    process_position tick pos (gap reason) s = some (tape_gap tick pos reason s, [])
    process_position tick pos (opened intent) s =
        some (run_intent tick pos intent (record s { opened = wrap (s.opened + 1) }))

-- `seal_block`: the state and the block.
unfoldable pub seal_block : Hex → ℕ → ℕ → SimState → SimState × LighterBlock
unfolding push_bounded snapshot
seal_block hex last_tick delta_ms s =
    let blk : LighterBlock = record {
      number = s.block_counter;
      epoch = s.epoch;
      first_tick = s.cur_first_tick;
      last_tick = last_tick;
      timestamp_ms = wrap (s.epoch_start_ms + wrap (last_tick * delta_ms));
      txs = s.cur_txs;
      gaps = s.cur_gaps;
      stream_commitment = hex.encode s.stream_s;
      book_after = snapshot s.book 10;
    } in
    (
      record s {
        cur_txs = [];
        cur_gaps = [];
        block_counter = wrap (s.block_counter + 1);
        cur_first_tick = wrap (last_tick + 1);
        blocks = push_bounded 512 s.blocks blk;
      },
      blk,
    )
