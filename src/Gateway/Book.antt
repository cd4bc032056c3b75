-- ===== src/Gateway/Book.antt =====
-- demo/gateway/src/lighter_sim.rs: the order book. A `BTreeMap` of orders is a list of keys
-- `(price, nonce)` with their orders, best first: the side of the book gives the order of the keys. A
-- hash map is a list. The hex crate is the argument `Hex`.
pub mod Cross
pub mod Execute
pub mod Orders
pub mod Fills
pub mod Filled
pub mod Sides
pub mod Uncrossed
use lighter_integration.Base.{
  ℕ, zero, suc, ◌+◌, ◌-◌, ◌≡◌, Bool, true, false, ◌&&◌, ◌||◌, Bytes, bytes_eq, List, [], ◌∷◌, ◌++◌,
  Option, none, some, length, drop, replicate, ltb, leb, ◌==◌, ◌!=◌, if◌then◌else◌, codes, wrap,
}

pub record Hex : Type 0 where
  pub encode : Bytes → Bytes
  pub decode : Bytes → Option Bytes

pub data Side : Type 0 where
  bid ask : Side

pub data OrderKind : Type 0 where
  limit market ioc : OrderKind

-- A market, a side, a kind, a price, a size and the order index of the client; a market and an index.
pub data LighterTx : Type 0 where
  create : ℕ → Side → OrderKind → ℕ → ℕ → ℕ → LighterTx
  cancel : ℕ → ℕ → LighterTx

pub record RestingOrder : Type 0 where
  pub account : Bytes
  pub coi : ℕ
  pub side : Side
  pub price : ℕ
  pub size : ℕ
  pub nonce : ℕ

pub record Trade : Type 0 where
  pub tick : ℕ
  pub pos : ℕ
  pub price : ℕ
  pub size : ℕ
  pub maker : Bytes
  pub taker : Bytes
  pub maker_coi : ℕ
  pub taker_coi : ℕ
  pub taker_side : Side
  pub block : ℕ

pub record Book : Type 0 where
  pub asks : List ((ℕ × ℕ) × RestingOrder)
  pub bids : List ((ℕ × ℕ) × RestingOrder)
  pub next_ask_nonce : ℕ
  pub next_bid_nonce : ℕ
  pub index : List ((Bytes × ℕ) × (Side × (ℕ × ℕ)))
  pub last_trade_price : Option ℕ

-- `Book::default()`
abbrev pub default_book : Book
default_book = record {
  asks = [];
  bids = [];
  next_ask_nonce = 0;
  next_bid_nonce = 0;
  index = [];
  last_trade_price = none;
}

pub data FailReason : Type 0 where
  unknown_order zero_size zero_price index_in_use : FailReason

pub data ExecResult : Type 0 where
  applied : List Trade → Option RestingOrder → Option ℕ → ExecResult
  failed : FailReason → ExecResult

module _ (hex : Hex) where
  -- `hex_addr`
  unfoldable pub hex_addr : Bytes → Bytes
  hex_addr a = codes "0x" ++ hex.encode a

  -- `hex::decode(&account[2..])`, an array of 20 bytes, or zeros
  unfoldable pub account_of : Bytes → Bytes
  account_of text = elim (hex.decode (drop 2 text)) [
    | none ↦ replicate 20 0
    | some a ↦ if length a == 20 then a else replicate 20 0
  ]

-- The order of the keys: a lower ask is better, a higher bid is, and at one price the earlier nonce.
unfoldable pub before : Side → ℕ × ℕ → ℕ × ℕ → Bool
before ask (p, n) (q, m) = ltb p q || p == q && ltb n m
before bid (p, n) (q, m) = ltb q p || p == q && ltb n m

abbrev pub same_order : ℕ × ℕ → ℕ × ℕ → Bool
same_order (p, n) (q, m) = p == q && n == m

-- `map.insert(key, order)`
unfoldable pub insert_order :
    Side → ℕ × ℕ → RestingOrder → List ((ℕ × ℕ) × RestingOrder) → List ((ℕ × ℕ) × RestingOrder)
unfolding before
insert_order side key o [] = (key, o) ∷ []
insert_order side key o ((k, p) ∷ orders) =
    let rest = insert_order side key o orders in
    if same_order k key
    then (key, o) ∷ orders
    else if before side key k
    then (key, o) ∷ (k, p) ∷ orders
    else (k, p) ∷ rest

-- `map.remove(&key)`
unfoldable pub remove_order : ℕ × ℕ → List ((ℕ × ℕ) × RestingOrder) → List ((ℕ × ℕ) × RestingOrder)
remove_order key [] = []
remove_order key ((k, p) ∷ orders) =
    let rest = remove_order key orders in if same_order k key then orders else (k, p) ∷ rest

-- The index of the orders: `get`, `contains_key`, `remove` and `insert`.
abbrev pub same_client : Bytes × ℕ → Bytes × ℕ → Bool
same_client (a, i) (b, j) = bytes_eq a b && i == j

unfoldable pub find_order :
    Bytes × ℕ → List ((Bytes × ℕ) × (Side × (ℕ × ℕ))) → Option (Side × (ℕ × ℕ))
find_order client [] = none
find_order client ((c, at) ∷ index) =
    if same_client c client then some at else find_order client index

unfoldable pub forget_order :
    Bytes × ℕ → List ((Bytes × ℕ) × (Side × (ℕ × ℕ))) → List ((Bytes × ℕ) × (Side × (ℕ × ℕ)))
forget_order client [] = []
forget_order client ((c, at) ∷ index) =
    let rest = forget_order client index in if same_client c client then rest else (c, at) ∷ rest

unfoldable pub note_order :
    Bytes × ℕ
    → Side × (ℕ × ℕ)
    → List ((Bytes × ℕ) × (Side × (ℕ × ℕ)))
    → List ((Bytes × ℕ) × (Side × (ℕ × ℕ)))
unfolding forget_order
note_order client at index = (client, at) ∷ forget_order client index

-- `keys().next()` of a side
unfoldable pub best : List ((ℕ × ℕ) × RestingOrder) → Option ℕ
best [] = none
best (((p, n), o) ∷ orders) = some p

-- `Book::best_bid`, `Book::best_ask`
unfoldable pub best_bid : Book → Option ℕ
unfolding best
best_bid book = best book.bids

unfoldable pub best_ask : Book → Option ℕ
unfolding best
best_ask book = best book.asks

-- The orders of a side, the side against which it trades, and its next nonce.
abbrev pub other_side : Side → Side
other_side bid = ask
other_side ask = bid

abbrev pub orders_of : Side → Book → List ((ℕ × ℕ) × RestingOrder)
orders_of bid book = book.bids
orders_of ask book = book.asks

abbrev pub set_orders : Side → List ((ℕ × ℕ) × RestingOrder) → Book → Book
set_orders bid orders book = record book { bids = orders }
set_orders ask orders book = record book { asks = orders }

abbrev pub next_nonce : Side → Book → ℕ
next_nonce bid book = book.next_bid_nonce
next_nonce ask book = book.next_ask_nonce

abbrev pub take_nonce : Side → Book → Book
take_nonce bid book = record book { next_bid_nonce = wrap (book.next_bid_nonce + 1) }
take_nonce ask book = record book { next_ask_nonce = wrap (book.next_ask_nonce + 1) }

abbrev pub is_limit : OrderKind → Bool
is_limit limit = true
is_limit market = false
is_limit ioc = false

abbrev pub is_market : OrderKind → Bool
is_market market = true
is_market limit = false
is_market ioc = false
