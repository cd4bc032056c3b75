-- ===== src/Gateway/Book/Uncrossed.antt =====
-- The books that `Book::execute` (demo/gateway/src/lighter_sim.rs) reaches: the order of the keys, and the
-- prices of bids and asks.
use lighter_integration.Base.{
  ℕ, ◌+◌, ◌-◌, ◌<◌, ◌≡◌, refl, Bool, true, false, ◌&&◌, Bytes, List, [], ◌∷◌, some, length, ◌==◌,
  if◌then◌else◌, or_false, arith,
}
use mathlib.Core.Path.{subst}
use lighter_integration.Gateway.Book.{
  Hex, Side, bid, ask, RestingOrder, LighterTx, create, cancel, Book, default_book, ExecResult,
  failed, zero_size, zero_price, index_in_use, before, best, find_order, other_side, orders_of,
  next_nonce, take_nonce, is_limit,
}
use lighter_integration.Gateway.Book.Cross.{
  within_limit, smaller, takes_price, Taker, Crossing, cross, fill_first,
}
use lighter_integration.Gateway.Book.Orders.{
  Ordered, OutOfReach, Keys-insert_order, Keys-map, Ordered-insert_order,
}
use lighter_integration.Gateway.Book.Execute.{
  is_found, crossed, crossing, add_order, place_order, create_order, taker_of, execute,
}
use lighter_integration.Gateway.Book.Fills.{Round, cross-keeps, cross_ends}
use lighter_integration.Gateway.Book.Filled.{
  Rested, rests, drops, rest_order-Rested, cross_step-best, other-crossed,
}
use lighter_integration.Gateway.Book.Sides.{
  SoundBook, SoundSides, SoundBook-sides, set_orders-Sound, cancel_order-Sound, crossed-Sound,
  take_nonce-Sound, Apart-tail,
}

module _ (hex : Hex) (taker : Taker) where
  -- A round keeps the sides: the first maker goes, or has less.
  Round-Sound :
      (mine : List ((ℕ × ℕ) × RestingOrder)) (s next : Crossing)
      → Round hex taker s next
      → SoundSides taker.side mine s.makers
      → SoundSides taker.side mine next.makers
  unfolding fill_first
  Round-Sound mine s next r h = rw r.filled (
      split (r.maker.size - smaller s.remaining r.maker.size == 0)
        (subst (λ l. SoundSides taker.side mine l) r.first h))
    where
      split :
          (done : Bool)
          → SoundSides taker.side mine ((r.key, r.maker) ∷ r.rest)
          → SoundSides taker.side mine (
              if done
              then r.rest
              else (
                r.key,
                record r.maker { size = r.maker.size - smaller s.remaining r.maker.size },
              )
                ∷ r.rest)
      split true h = record {
        mine_ordered = h.mine_ordered;
        others_ordered = h.others_ordered.1;
        sides_apart = Apart-tail taker.side (r.key, r.maker) mine r.rest h.sides_apart;
      }
      split false h = record {
        mine_ordered = h.mine_ordered;
        others_ordered = h.others_ordered;
        sides_apart =
            Keys-map (λ k. OutOfReach taker.side k.0 ((r.key, r.maker) ∷ r.rest))
              (λ k. OutOfReach taker.side k.0 (
                (r.key, record r.maker { size = r.maker.size - smaller s.remaining r.maker.size })
                ∷ r.rest))
              mine (λ k a. a) h.sides_apart;
      }

  -- Behind a maker out of the limit, all are.
  best-OutOfReach :
      (side : Side) (price : ℕ) (makers : List ((ℕ × ℕ) × RestingOrder))
      → Ordered (other_side side) makers
      → ((p : ℕ) → best makers ≡ some p → within_limit side price p ≡ false)
      → OutOfReach side price makers
  unfolding best before within_limit
  best-OutOfReach side price [] o h = tt
  best-OutOfReach side price ((k, q) ∷ makers) (behind, o) h =
      let here : within_limit side price k.0 ≡ false = h k.0 refl in
      (
        here,
        Keys-map (λ j. before (other_side side) k j ≡ true)
            (λ j. within_limit side price j.0 ≡ false) makers (λ j b. farther side k j here b)
            behind,
      )
    where
      farther :
          (d : Side) (k j : ℕ × ℕ)
          → within_limit d price k.0 ≡ false
          → before (other_side d) k j ≡ true
          → within_limit d price j.0 ≡ false
      farther bid k j h b = ground arith
      farther ask k j h b = ground arith

  Sound-add_order :
      (nonce : ℕ) (o : RestingOrder) (book : Book)
      → SoundBook book
      → OutOfReach taker.side taker.price (orders_of (other_side taker.side) book)
      → SoundBook (add_order taker nonce o book)
  unfolding add_order
  Sound-add_order nonce o book s out =
      let side = taker.side in
      let others = orders_of (other_side side) book in
      let h = SoundBook-sides side book s in
      set_orders-Sound side _ book _ (record {
        mine_ordered =
            Ordered-insert_order side (taker.price, nonce) o (orders_of side book) h.mine_ordered;
        others_ordered = h.others_ordered;
        sides_apart =
            Keys-insert_order (λ k. OutOfReach side k.0 others) side (taker.price, nonce) o
              (orders_of side book) out h.sides_apart;
      })

  Rested-Sound :
      (nonce : ℕ) (s : Crossing) (book : Book) (result : Book × ExecResult)
      → SoundBook book
      → (0 < s.remaining
          → OutOfReach taker.side taker.price (orders_of (other_side taker.side) book))
      → Rested hex taker nonce s book result
      → SoundBook result.0
  Rested-Sound nonce s book result sound out (rests more lim) =
      Sound-add_order nonce _ book sound (out more)
  Rested-Sound nonce s book result sound out (drops nothing) = sound

  place_order-Sound :
      (size : ℕ) (book : Book) → SoundBook book → SoundBook (place_order hex taker size book).0
  unfolding place_order crossing takes_price
  place_order-Sound size book sound =
      let numbered = take_nonce taker.side book in
      let start = crossing taker.side size numbered in
      let fuel = length start.makers + 1 in
      let s = cross hex fuel taker start in
      let mine = orders_of taker.side numbered in
      let sides =
        cross-keeps hex taker (λ x. SoundSides taker.side mine x.makers) (Round-Sound mine) fuel
          start (SoundBook-sides taker.side numbered (take_nonce-Sound taker.side book sound)) in
      let stopped = cross_ends hex taker fuel start (omega arith) in
      let makers = other-crossed taker.side s numbered in
      Rested-Sound (next_nonce taker.side book) s (crossed taker.side s numbered) _
        (crossed-Sound taker.side s numbered sides)
        (λ more. rw makers (
          best-OutOfReach taker.side taker.price s.makers sides.others_ordered
            (λ p first. (or_false _ _ (cross_step-best hex taker s p stopped more first)).1)))
        (rest_order-Rested hex taker (next_nonce taker.side book) s (crossed taker.side s numbered))

  create_order-Sound :
      (size : ℕ) (book : Book) → SoundBook book → SoundBook (create_order hex taker size book).0
  unfolding create_order
  create_order-Sound size book sound =
      split (size == 0) (is_limit taker.kind && taker.price == 0)
        (is_found (find_order (taker.account, taker.coi) book.index))
    where
      split :
          (z p f : Bool)
          → SoundBook
              (if z
                then (book, failed zero_size)
                else if p
                then (book, failed zero_price)
                else if f
                then (book, failed index_in_use)
                else place_order hex taker size book).0
      split true p f = sound
      split false true f = sound
      split false false true = sound
      split false false false = place_order-Sound size book sound

-- The books that executions reach, in any order and with any arguments.
pub data Executed (hex : Hex) : Book → Type 0 where
  opens : Executed hex default_book
  executes :
      {book : Book} (account : Bytes) (tx : LighterTx) (tick pos block : ℕ)
      → Executed hex book
      → Executed hex (execute hex account tx tick pos block book).0

execute-Sound :
    (hex : Hex) (account : Bytes) (tx : LighterTx) (tick pos block : ℕ) (book : Book)
    → SoundBook book
    → SoundBook (execute hex account tx tick pos block book).0
unfolding execute
execute-Sound hex account (cancel market_id coi) tick pos block book s =
    cancel_order-Sound (account, coi) (find_order (account, coi) book.index) book s
execute-Sound hex account (create market_id side kind price size coi) tick pos block book s =
    create_order-Sound hex (taker_of account side kind price coi tick pos block) size book s

-- In every book that executions reach from the empty one, asks are in ascending and bids in
-- descending order of the price, orders of one price in the order of their nonces, and the price of
-- every bid is below the price of every ask.
pub Executed-Sound : (hex : Hex) (book : Book) → Executed hex book → SoundBook book
Executed-Sound hex _ opens = record { asks_ordered = tt; bids_ordered = tt; apart = tt }
Executed-Sound hex _ (executes {book} account tx tick pos block r) =
    execute-Sound hex account tx tick pos block book (Executed-Sound hex book r)
