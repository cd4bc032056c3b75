-- ===== src/Gateway/Book/Execute.antt =====
-- `Book::execute` of demo/gateway/src/lighter_sim.rs, and the snapshot of a book.
use lighter_integration.Base.{
  ℕ, ◌+◌, Bool, true, false, ◌&&◌, Bytes, List, [], ◌∷◌, Option, none, some, length, take, ltb,
  ◌==◌, if◌then◌else◌,
}
use lighter_integration.Gateway.Book.{
  Hex, Side, OrderKind, LighterTx, create, cancel, RestingOrder, Book, unknown_order, zero_size,
  zero_price, index_in_use, ExecResult, applied, failed, hex_addr, insert_order, remove_order,
  find_order, forget_order, note_order, other_side, orders_of, set_orders, next_nonce, take_nonce,
  is_limit,
}
use lighter_integration.Gateway.Book.Cross.{Taker, Crossing, cross}

-- `is_some` of a lookup
abbrev pub is_found : Option (Side × (ℕ × ℕ)) → Bool
is_found none = false
is_found (some at) = true

-- `LighterTx::Cancel`, for what the index has of the order
unfoldable pub cancel_order : Bytes × ℕ → Option (Side × (ℕ × ℕ)) → Book → Book × ExecResult
unfolding remove_order forget_order
cancel_order client none book = (book, failed unknown_order)
cancel_order client (some (side, (price, nonce))) book = (
  record (set_orders side (remove_order (price, nonce) (orders_of side book)) book) {
    index = forget_order client book.index;
  },
  applied [] none (some nonce),
)

-- The book with the makers, the index and the last price after the loop.
unfoldable pub crossed : Side → Crossing → Book → Book
crossed side s book = record (set_orders (other_side side) s.makers book) {
  index = s.index;
  last_trade_price = s.last_price;
}

-- The variables before the loop.
unfoldable pub crossing : Side → ℕ → Book → Crossing
crossing side size book = record {
  makers = orders_of (other_side side) book;
  index = book.index;
  remaining = size;
  trades = [];
  last_price = book.last_trade_price;
}

abbrev pub taker_of : Bytes → Side → OrderKind → ℕ → ℕ → ℕ → ℕ → ℕ → Taker
taker_of account side kind price coi tick pos block = record {
  account = account;
  side = side;
  kind = kind;
  price = price;
  coi = coi;
  tick = tick;
  pos = pos;
  block = block;
}

-- The order goes onto its side and into the index.
unfoldable pub add_order : Taker → ℕ → RestingOrder → Book → Book
unfolding insert_order note_order
add_order taker nonce o book =
    record (set_orders taker.side
      (insert_order taker.side (taker.price, nonce) o (orders_of taker.side book)) book) {
        index = note_order (taker.account, taker.coi) (taker.side, (taker.price, nonce)) book.index;
      }

module _ (hex : Hex) where
  -- the order that rests
  unfoldable pub resting : Taker → ℕ → ℕ → RestingOrder
  unfolding hex_addr
  resting taker remaining nonce = record {
    account = hex_addr hex taker.account;
    coi = taker.coi;
    side = taker.side;
    price = taker.price;
    size = remaining;
    nonce = nonce;
  }

  -- `if remaining > 0 && matches!(kind, OrderKind::Limit)`
  unfoldable pub rest_order : Taker → ℕ → Crossing → Book → Book × ExecResult
  unfolding resting add_order
  rest_order taker nonce s book =
      if ltb 0 s.remaining && is_limit taker.kind
      then (
        add_order taker nonce (resting taker s.remaining nonce) book,
        applied s.trades (some (resting taker s.remaining nonce)) (some nonce),
      )
      else (book, applied s.trades none (some nonce))

  -- From the nonce on; a round per maker, and one more, are enough (Book/Fills).
  unfoldable pub place_order : Taker → ℕ → Book → Book × ExecResult
  unfolding cross crossing crossed rest_order
  place_order taker size book =
      let nonce = next_nonce taker.side book in
      let numbered = take_nonce taker.side book in
      let start = crossing taker.side size numbered in
      let s = cross hex (length start.makers + 1) taker start in
      rest_order taker nonce s (crossed taker.side s numbered)

  -- `LighterTx::Create`
  unfoldable pub create_order : Taker → ℕ → Book → Book × ExecResult
  unfolding place_order find_order
  create_order taker size book =
      if size == 0
      then (book, failed zero_size)
      else if is_limit taker.kind && taker.price == 0
      then (book, failed zero_price)
      else if is_found (find_order (taker.account, taker.coi) book.index)
      then (book, failed index_in_use)
      else place_order taker size book

  -- `Book::execute`
  unfoldable pub execute : Bytes → LighterTx → ℕ → ℕ → ℕ → Book → Book × ExecResult
  unfolding cancel_order create_order find_order
  execute account (cancel market_id coi) tick pos block book =
      cancel_order (account, coi) (find_order (account, coi) book.index) book
  execute account (create market_id side kind price size coi) tick pos block book =
      create_order (taker_of account side kind price coi tick pos block) size book

pub record BookSnapshot : Type 0 where
  pub bids : List RestingOrder
  pub asks : List RestingOrder
  pub next_ask_nonce : ℕ
  pub next_bid_nonce : ℕ
  pub last_trade_price : Option ℕ

-- `values()`
unfoldable pub values : List ((ℕ × ℕ) × RestingOrder) → List RestingOrder
values [] = []
values ((k, o) ∷ orders) = o ∷ values orders

-- `Book::snapshot`
unfoldable pub snapshot : Book → ℕ → BookSnapshot
unfolding values
snapshot book depth = record {
  bids = take depth (values book.bids);
  asks = take depth (values book.asks);
  next_ask_nonce = book.next_ask_nonce;
  next_bid_nonce = book.next_bid_nonce;
  last_trade_price = book.last_trade_price;
}
