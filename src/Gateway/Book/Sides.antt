-- ===== src/Gateway/Book/Sides.antt =====
-- The two sides of a book of demo/gateway/src/lighter_sim.rs that are in the order of their keys and
-- apart from each other, seen from either side.
use lighter_integration.Base.{ℕ, Bytes, List, [], ◌∷◌, Option, none, some, arith}
use lighter_integration.Gateway.Book.{
  Side, bid, ask, RestingOrder, Book, remove_order, other_side, orders_of, set_orders, take_nonce,
}
use lighter_integration.Gateway.Book.Cross.{within_limit, Crossing}
use lighter_integration.Gateway.Book.Orders.{
  Keys, Ordered, OutOfReach, Apart, Keys-remove_order, Ordered-remove_order,
}
use lighter_integration.Gateway.Book.Execute.{cancel_order, crossed}

pub record SoundBook (book : Book) : Type 0 where
  pub asks_ordered : Ordered ask book.asks
  pub bids_ordered : Ordered bid book.bids
  pub apart : Apart bid book.bids book.asks

Apart-nil :
    (side : Side) (others : List ((ℕ × ℕ) × RestingOrder))
    → Keys (λ k. OutOfReach side k.0 []) others
Apart-nil side [] = tt
Apart-nil side ((k, o) ∷ others) = (tt, Apart-nil side others)

-- An order more on the other side.
Apart-cons :
    (side : Side) (key : ℕ × ℕ) (o : RestingOrder) (mine others : List ((ℕ × ℕ) × RestingOrder))
    → OutOfReach (other_side side) key.0 mine
    → Apart side mine others
    → Apart side mine ((key, o) ∷ others)
unfolding within_limit
Apart-cons side key o [] others h a = tt
Apart-cons bid key o ((k, q) ∷ mine) others (hk, h) (ak, a) =
    ((ground arith, ak), Apart-cons bid key o mine others h a)
Apart-cons ask key o ((k, q) ∷ mine) others (hk, h) (ak, a) =
    ((ground arith, ak), Apart-cons ask key o mine others h a)

-- The relation, seen from the other side.
Apart-swap :
    (side : Side) (mine others : List ((ℕ × ℕ) × RestingOrder))
    → Apart (other_side side) others mine
    → Apart side mine others
Apart-swap side mine [] a = Apart-nil side mine
Apart-swap side mine ((k, o) ∷ others) (ak, a) =
    Apart-cons side k o mine others ak (Apart-swap side mine others a)

-- The state of the two sides of an order.
pub record SoundSides (side : Side) (mine others : List ((ℕ × ℕ) × RestingOrder)) : Type 0 where
  pub mine_ordered : Ordered side mine
  pub others_ordered : Ordered (other_side side) others
  pub sides_apart : Apart side mine others

pub SoundBook-sides :
    (side : Side) (book : Book)
    → SoundBook book
    → SoundSides side (orders_of side book) (orders_of (other_side side) book)
SoundBook-sides bid book s = record {
  mine_ordered = s.bids_ordered;
  others_ordered = s.asks_ordered;
  sides_apart = s.apart;
}
SoundBook-sides ask book s = record {
  mine_ordered = s.asks_ordered;
  others_ordered = s.bids_ordered;
  sides_apart = Apart-swap ask book.asks book.bids s.apart;
}

pub sides-SoundBook :
    (side : Side) (book : Book)
    → SoundSides side (orders_of side book) (orders_of (other_side side) book)
    → SoundBook book
sides-SoundBook bid book s = record {
  bids_ordered = s.mine_ordered;
  asks_ordered = s.others_ordered;
  apart = s.sides_apart;
}
sides-SoundBook ask book s = record {
  asks_ordered = s.mine_ordered;
  bids_ordered = s.others_ordered;
  apart = Apart-swap bid book.bids book.asks s.sides_apart;
}

-- A cancelled order leaves its side.
Sound-remove :
    (side : Side) (key : ℕ × ℕ) (mine others : List ((ℕ × ℕ) × RestingOrder))
    → SoundSides side mine others
    → SoundSides side (remove_order key mine) others
Sound-remove side key mine others s = record {
  mine_ordered = Ordered-remove_order side key mine s.mine_ordered;
  others_ordered = s.others_ordered;
  sides_apart = Keys-remove_order (λ k. OutOfReach side k.0 others) key mine s.sides_apart;
}

-- A side is replaced.
pub set_orders-Sound :
    (side : Side) (mine : List ((ℕ × ℕ) × RestingOrder)) (book : Book)
    (index : List ((Bytes × ℕ) × (Side × (ℕ × ℕ))))
    → SoundSides side mine (orders_of (other_side side) book)
    → SoundBook (record (set_orders side mine book) { index = index })
set_orders-Sound bid mine book index s = sides-SoundBook bid _ s
set_orders-Sound ask mine book index s = sides-SoundBook ask _ s

pub cancel_order-Sound :
    (client : Bytes × ℕ) (at : Option (Side × (ℕ × ℕ))) (book : Book)
    → SoundBook book
    → SoundBook (cancel_order client at book).0
unfolding cancel_order
cancel_order-Sound client none book s = s
cancel_order-Sound client (some (side, key)) book s = set_orders-Sound side _ book _ (
    Sound-remove side key (orders_of side book) (orders_of (other_side side) book)
      (SoundBook-sides side book s))

pub crossed-Sound :
    (side : Side) (s : Crossing) (book : Book)
    → SoundSides side (orders_of side book) s.makers
    → SoundBook (crossed side s book)
unfolding crossed
crossed-Sound bid s book h = sides-SoundBook bid _ h
crossed-Sound ask s book h = sides-SoundBook ask _ h

pub take_nonce-Sound :
    (side : Side) (book : Book) → SoundBook book → SoundBook (take_nonce side book)
take_nonce-Sound bid book s = sides-SoundBook bid _ (SoundBook-sides bid book s)
take_nonce-Sound ask book s = sides-SoundBook bid _ (SoundBook-sides bid book s)

pub Apart-tail :
    (side : Side) (k : (ℕ × ℕ) × RestingOrder) (mine others : List ((ℕ × ℕ) × RestingOrder))
    → Apart side mine (k ∷ others)
    → Apart side mine others
Apart-tail side k [] others a = tt
Apart-tail side k (m ∷ mine) others ((ak, am), a) = (am, Apart-tail side k mine others a)
