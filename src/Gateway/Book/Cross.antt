-- ===== src/Gateway/Book/Cross.antt =====
-- demo/gateway/src/lighter_sim.rs: the loop in which an order trades with the other side of the book.
use lighter_integration.Base.{
  ℕ, zero, suc, ◌-◌, Bool, ◌||◌, Bytes, List, [], ◌∷◌, ◌++◌, Option, none, some, leb, ◌==◌,
  if◌then◌else◌,
}
use lighter_integration.Gateway.Book.{
  Hex, Side, OrderKind, RestingOrder, Trade, hex_addr, account_of, forget_order, is_market, bid,
  ask,
}

-- The order that is being executed.
pub record Taker : Type 0 where
  pub account : Bytes
  pub side : Side
  pub kind : OrderKind
  pub price : ℕ
  pub coi : ℕ
  pub tick : ℕ
  pub pos : ℕ
  pub block : ℕ

-- The variables of the loop.
pub record Crossing : Type 0 where
  pub makers : List ((ℕ × ℕ) × RestingOrder)
  pub index : List ((Bytes × ℕ) × (Side × (ℕ × ℕ)))
  pub remaining : ℕ
  pub trades : List Trade
  pub last_price : Option ℕ

-- A price on the other side that the order takes.
unfoldable pub within_limit : Side → ℕ → ℕ → Bool
within_limit bid price p = leb p price
within_limit ask price p = leb price p

unfoldable pub takes_price : Taker → ℕ → Bool
unfolding within_limit
takes_price taker p = is_market taker.kind || within_limit taker.side taker.price p

-- `remaining.min(maker.size)`
abbrev pub smaller : ℕ → ℕ → ℕ
smaller a b = if leb a b then a else b

module _ (hex : Hex) where
  unfoldable pub trade_of : Taker → ℕ → RestingOrder → ℕ → Trade
  unfolding hex_addr
  trade_of taker price maker fill = record {
    tick = taker.tick;
    pos = taker.pos;
    price = price;
    size = fill;
    maker = maker.account;
    taker = hex_addr hex taker.account;
    maker_coi = maker.coi;
    taker_coi = taker.coi;
    taker_side = taker.side;
    block = taker.block;
  }

  -- The first maker fills, and leaves the book if nothing of it is left.
  unfoldable pub fill_first :
      Taker → ℕ × ℕ → RestingOrder → List ((ℕ × ℕ) × RestingOrder) → Crossing → Crossing
  unfolding trade_of account_of forget_order
  fill_first taker key maker rest s =
      let fill = smaller s.remaining maker.size in
      let done = maker.size - fill == 0 in
      record {
        makers = if done then rest else (key, record maker { size = maker.size - fill }) ∷ rest;
        index =
            if done
            then forget_order (account_of hex maker.account, maker.coi) s.index
            else s.index;
        remaining = s.remaining - fill;
        trades = s.trades ++ trade_of taker key.0 maker fill ∷ [];
        last_price = some key.0;
      }

  -- The body of the loop; `none` is `break`.
  unfoldable pub cross_first : Taker → List ((ℕ × ℕ) × RestingOrder) → Crossing → Option Crossing
  unfolding takes_price fill_first
  cross_first taker [] s = none
  cross_first taker ((key, maker) ∷ rest) s =
      if takes_price taker key.0 then some (fill_first taker key maker rest s) else none

  unfoldable pub cross_step : Taker → Crossing → Option Crossing
  unfolding cross_first
  cross_step taker s = if s.remaining == 0 then none else cross_first taker s.makers s

  -- The loop, of at most `fuel` rounds.
  unfoldable pub cross : ℕ → Taker → Crossing → Crossing
  unfolding cross_step
  cross zero taker s = s
  cross (suc fuel) taker s = elim (cross_step taker s) [
    | none ↦ s
    | some next ↦ cross fuel taker next
  ]
