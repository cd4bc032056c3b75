-- ===== src/Gateway/Tests.antt =====
-- The theorems on the demo gateway (demo/gateway/src/lighter_sim.rs) at concrete inputs: a hash of one
-- value, hexadecimal text that is the bytes themselves, and payloads that all read as one order.
use lighter_integration.Base.{
  ap, ℕ, ◌<◌, ◌≡◌, refl, Bytes, [], ◌∷◌, none, some, replicate, length, ◌==◌, Bool-cases, inl, inr,
  arith, bytes_eq,
}
use lighter_integration.Sequencer.Identity.{Primitives}
use lighter_integration.Sequencer.Envelope.{Intent, majors}
use lighter_integration.Sequencer.Records.{BatchEntry}
use lighter_integration.Sequencer.Store.{
  ChainStore, SealedTick, TapePosition, Outcome, opened, gap, unopened, new_store,
}
use lighter_integration.Sequencer.Node.Anchors.{get, keys_bound}
use lighter_integration.Gateway.Book.{
  Hex, bid, ask, limit, LighterTx, create, Book, RestingOrder, Trade, default_book, applied,
}
use lighter_integration.Gateway.Book.Execute.{execute, taker_of}
use lighter_integration.Gateway.Book.Filled.{Filled, execute-Filled}
use lighter_integration.Gateway.Book.Sides.{SoundBook}
use lighter_integration.Gateway.Book.Uncrossed.{opens, executes, Executed-Sound}
use lighter_integration.Gateway.Adapter.{new_sim}
use lighter_integration.Gateway.Adapter.Advance.{Advanced, advance, scan}
use lighter_integration.Gateway.Adapter.Halts.{ShortBatches}
use lighter_integration.Gateway.Adapter.Consumes.{Consumed, advance-Consumed}

abbrev zeros : Bytes
zeros = replicate 32 0

abbrev plain : Hex
plain = record { encode = λ b. b; decode = λ b. some b }

abbrev constant : Primitives
constant = record {
  keccak256 = λ _. zeros;
  sign_prehash_recoverable = λ _ _. (replicate 64 1, 0);
  recover_from_prehash = λ _ _ _. some (replicate 64 5);
  verifying_key = λ _. replicate 64 5;
  biguint_to_bytes_be = λ _. [];
  biguint_from_bytes_be = λ _. 0;
}

abbrev alice : Bytes
alice = replicate 20 1

abbrev bob : Bytes
bob = replicate 20 2

-- An ask of 5 at 100, then a bid for 7 at 101.
abbrev quote : LighterTx
quote = create 0 ask limit 100 5 1

abbrev order : LighterTx
order = create 0 bid limit 101 7 2

unfoldable quoted : Book
unfolding execute
quoted = (execute plain alice quote 1 0 0 default_book).0

unfoldable traded_book : Book
unfolding execute quoted
traded_book = (execute plain bob order 1 1 0 quoted).0

abbrev fill : Trade
fill = record {
  tick = 1;
  pos = 1;
  price = 100;
  size = 5;
  maker = 48 ∷ 120 ∷ alice;
  taker = 48 ∷ 120 ∷ bob;
  maker_coi = 1;
  taker_coi = 2;
  taker_side = bid;
  block = 0;
}

abbrev remainder : RestingOrder
remainder = record {
  account = 48 ∷ 120 ∷ bob;
  coi = 2;
  side = bid;
  price = 101;
  size = 2;
  nonce = 0;
}

fills :
    execute plain bob order 1 1 0 quoted
    ≡ (traded_book, applied (fill ∷ []) (some remainder) (some 0))
unfolding execute quoted traded_book bytes_eq
fills = refl

execute-Filled_example :
    Filled (taker_of bob bid limit 101 2 1 1 0) 7 quoted traded_book (fill ∷ []) (some remainder)
execute-Filled_example =
    execute-Filled plain bob 0 bid limit 101 7 2 1 1 0 quoted traded_book (fill ∷ [])
      (some remainder) (some 0) fills

Executed-Sound_example :
    SoundBook (execute plain bob order 1 1 0 (execute plain alice quote 1 0 0 default_book).0).0
Executed-Sound_example =
    Executed-Sound plain
      (execute plain bob order 1 1 0 (execute plain alice quote 1 0 0 default_book).0).0
      (executes bob order 1 1 0 (executes alice quote 1 0 0 opens))

abbrev tape_entry : ℕ → BatchEntry
tape_entry j = record {
  tick = 1;
  pos = j;
  h = zeros;
  bucket = majors;
  ticket_id = replicate 16 8;
  receipt_sig = replicate 65 1;
}

abbrev intent : Intent
intent = record {
  namespace = 1;
  account = alice;
  nonce = 0;
  expiry_tick = 9;
  payload = 1 ∷ [];
  signature = replicate 65 1;
}

-- A sealed tick of two entries: an intent that was opened, and a gap.
abbrev two_entries : SealedTick
two_entries = record {
  record_of = record {
    epoch = 0;
    segment = 0;
    tick = 1;
    x = 4;
    c_prev = zeros;
    c_t = zeros;
    batch_root = zeros;
    da_ref = zeros;
    sig = replicate 65 1;
  };
  entries = tape_entry 0 ∷ tape_entry 1 ∷ [];
  receipts = [];
}

abbrev position : ℕ → Outcome → (ℕ × ℕ) × TapePosition
position j o =
    ((1, j), record { tick = 1; pos = j; h = zeros; bucket = majors; delay_class = 0; outcome = o })

abbrev store : ChainStore
store = record new_store {
  ticks = (1, two_entries) ∷ [];
  tape = position 0 (opened intent) ∷ position 1 (gap unopened) ∷ [];
}

store-ShortBatches : ShortBatches store
unfolding get
store-ShortBatches t sealed h = elim (Bool-cases (1 == t)) [
  | inl e ↦
      let same : some two_entries ≡ some sealed = rw e at h in
      let two : two_entries ≡ sealed = cc same in
      let size : length two_entries.entries ≡ length sealed.entries =
        ap (λ (s : SealedTick). length s.entries) two in
      omega (arith, size)
  | inr e ↦ let no : none ≡ some sealed = rw e at h in absurd (cc no)
]

one_tick : keys_bound store.ticks < 18446744073709551616
unfolding keys_bound
one_tick = omega arith

-- The scan reads both positions and stops at tick 2.
reads_two : (scan 0 store new_sim).tick ≡ 2
unfolding scan
reads_two = refl

advance-Consumed_example :
    (result : Advanced) × (advance constant plain (λ _. some quote) 0 4 10 store new_sim
      ≡ some result)
    × Consumed constant plain (λ _. some quote) store new_sim result.sim
advance-Consumed_example =
    advance-Consumed constant plain (λ _. some quote) 0 4 10 store new_sim (omega arith) one_tick
      store-ShortBatches
