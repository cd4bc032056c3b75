-- ===== src/Gateway/Book/Filled.antt =====
-- What `Book::execute` (demo/gateway/src/lighter_sim.rs) does for an order that it accepts.
use lighter_integration.Base.{
  Bytes, ℕ, ◌+◌, ◌<◌, ◌≤◌, ◌≡◌, refl, sym, ap, ◌∙◌, Bool, true, false, ◌&&◌, List, [], ◌∷◌, Option,
  none, some, length, All, ltb, ◌==◌, if◌then◌else◌, Bool-cases, inl, inr, arith,
}
use mathlib.Core.Path.{subst}
use lighter_integration.Gateway.Book.{
  Hex, Side, bid, ask, OrderKind, create, RestingOrder, Trade, Book, ExecResult, applied, failed,
  zero_size, zero_price, index_in_use, best, other_side, orders_of, next_nonce, take_nonce,
  find_order, is_limit,
}
use lighter_integration.Gateway.Book.Cross.{
  Taker, Crossing, takes_price, cross_first, cross_step, cross,
}
use lighter_integration.Gateway.Book.Execute.{
  is_found, crossed, crossing, resting, rest_order, place_order, create_order, add_order, taker_of,
  execute,
}
use lighter_integration.Gateway.Book.Fills.{traded, total_size, cross_ends, cross-Balanced}

abbrev pub rested_size : Option RestingOrder → ℕ
rested_size none = 0
rested_size (some o) = o.size

-- The order's fills and rest, for the book before and after.
pub record Filled (taker : Taker) (size : ℕ) (book after : Book) (trades : List Trade)
    (rested : Option RestingOrder) : Type 0 where
  pub got : traded trades + rested_size rested ≤ size
  pub whole : is_limit taker.kind ≡ true → traded trades + rested_size rested ≡ size
  pub given :
      total_size (orders_of (other_side taker.side) after) + traded trades
      ≡ total_size (orders_of (other_side taker.side) book)
  pub priced : All (λ (t : Trade). takes_price taker t.price ≡ true) trades
  pub exhausted :
      traded trades < size
      → (p : ℕ) → best (orders_of (other_side taker.side) after) ≡ some p
      → takes_price taker p ≡ false

-- The other side of the book, under the steps of the execution.
pub other-crossed :
    (side : Side) (s : Crossing) (book : Book)
    → orders_of (other_side side) (crossed side s book) ≡ s.makers
unfolding crossed
other-crossed bid s book = refl
other-crossed ask s book = refl

other-take_nonce :
    (side : Side) (book : Book)
    → orders_of (other_side side) (take_nonce side book) ≡ orders_of (other_side side) book
other-take_nonce bid book = refl
other-take_nonce ask book = refl

other-add_order :
    (side : Side) (taker : Taker) (nonce : ℕ) (o : RestingOrder) (book : Book)
    → taker.side ≡ side
    → orders_of (other_side side) (add_order taker nonce o book) ≡ orders_of (other_side side) book
unfolding add_order
other-add_order bid taker nonce o book e = rw e refl
other-add_order ask taker nonce o book e = rw e refl

-- The rest of an order stands in the book, or is dropped.
pub data Rested (hex : Hex) (taker : Taker) (nonce : ℕ) (s : Crossing) (book : Book)
    : Book × ExecResult → Type 0 where
  rests :
      0 < s.remaining
      → is_limit taker.kind ≡ true
      → Rested hex taker nonce s book (
        add_order taker nonce (resting hex taker s.remaining nonce) book,
        applied s.trades (some (resting hex taker s.remaining nonce)) (some nonce),
      )
  drops :
      (is_limit taker.kind ≡ true → s.remaining ≡ 0)
      → Rested hex taker nonce s book (book, applied s.trades none (some nonce))

module _ (hex : Hex) (taker : Taker) where
  pub rest_order-Rested :
      (nonce : ℕ) (s : Crossing) (book : Book)
      → Rested hex taker nonce s book (rest_order hex taker nonce s book)
  unfolding rest_order
  rest_order-Rested nonce s book = split (ltb 0 s.remaining && is_limit taker.kind) refl
    where
      split :
          (b : Bool)
          → (ltb 0 s.remaining && is_limit taker.kind) ≡ b
          → Rested hex taker nonce s book (
              if b
              then (
                add_order taker nonce (resting hex taker s.remaining nonce) book,
                applied s.trades (some (resting hex taker s.remaining nonce)) (some nonce),
              )
              else (book, applied s.trades none (some nonce)))
      split true e = rests (ground arith) (ground arith)
      split false e = drops (λ l. ground arith)

  -- the loop has stopped on an order that wants more: the best maker is out of its limit
  cross_first-best :
      (makers : List ((ℕ × ℕ) × RestingOrder)) (s : Crossing) (p : ℕ)
      → cross_first hex taker makers s ≡ none
      → best makers ≡ some p
      → takes_price taker p ≡ false
  unfolding cross_first best
  cross_first-best [] s p stopped first = absurd (cc first)
  cross_first-best ((key, maker) ∷ rest) s p stopped first =
      elim (Bool-cases (takes_price taker key.0)) [
        | inl t ↦ absurd (cc (rw t at stopped))
        | inr f ↦ let same : key.0 ≡ p = cc first in rw (← same) f
      ]

  pub cross_step-best :
      (s : Crossing) (p : ℕ)
      → cross_step hex taker s ≡ none
      → 0 < s.remaining
      → best s.makers ≡ some p
      → takes_price taker p ≡ false
  unfolding cross_step
  cross_step-best s p stopped more first =
      let wants : (s.remaining == 0) ≡ false = ground arith in
      cross_first-best s.makers s p (rw wants at stopped) first

  -- The crossing of an order of a size, to its end.
  abbrev pub crossing_of : ℕ → Book → Crossing
  crossing_of size book =
      let start = crossing taker.side size (take_nonce taker.side book) in
      cross hex (length start.makers + 1) taker start

  ended-Filled :
      (size : ℕ) (book after : Book) (trades : List Trade) (rested : Option RestingOrder)
      → trades ≡ (crossing_of size book).trades
      → orders_of (other_side taker.side) after ≡ (crossing_of size book).makers
      → rested_size rested ≤ (crossing_of size book).remaining
      → (is_limit taker.kind ≡ true → rested_size rested ≡ (crossing_of size book).remaining)
      → Filled taker size book after trades rested
  unfolding crossing traded
  ended-Filled size book after trades rested et em le lim =
      let numbered = take_nonce taker.side book in
      let start = crossing taker.side size numbered in
      let s = crossing_of size book in
      let b = cross-Balanced hex taker (length start.makers + 1) start refl in
      let ends = cross_ends hex taker (length start.makers + 1) start (omega arith) in
      let same : traded trades ≡ traded s.trades = ap traded et in
      let makers = ap total_size em in
      let first = ap total_size (other-take_nonce taker.side book) in
      record {
        got = omega (arith, b.got, same, le);
        whole = λ l. omega (arith, b.got, same, lim l);
        given = omega (arith, b.given, same, makers, first);
        priced =
            subst (λ l. All (λ (t : Trade). takes_price taker t.price ≡ true) l) (sym et) b.priced;
        exhausted = λ short p at.
            cross_step-best s p ends (omega (arith, b.got, same, short)) (ap best (sym em) ∙ at);
      }

  Rested-Filled :
      (size : ℕ) (book after : Book) (trades : List Trade) (rested : Option RestingOrder)
      (n : Option ℕ) (result : Book × ExecResult)
      → result ≡ (after, applied trades rested n)
      → Rested hex taker
          (next_nonce taker.side book)
          (crossing_of size book)
          (crossed taker.side (crossing_of size book) (take_nonce taker.side book))
          result
      → Filled taker size book after trades rested
  unfolding resting
  Rested-Filled size book after trades rested n result e (rests more lim) =
      let s = crossing_of size book in
      let numbered = crossed taker.side s (take_nonce taker.side book) in
      let o = resting hex taker s.remaining (next_nonce taker.side book) in
      let et : trades ≡ s.trades = cc e in
      let er : rested ≡ some o = cc e in
      let ea : add_order taker (next_nonce taker.side book) o numbered ≡ after = cc e in
      let size_eq : rested_size rested ≡ s.remaining = ap rested_size er in
      ended-Filled size book after trades rested et
        (ap (orders_of (other_side taker.side)) (sym ea)
          ∙ other-add_order taker.side taker (next_nonce taker.side book) o numbered refl
          ∙ other-crossed taker.side s (take_nonce taker.side book))
        (omega (arith, size_eq)) (λ l. size_eq)
  Rested-Filled size book after trades rested n result e (drops nothing) =
      let s = crossing_of size book in
      let et : trades ≡ s.trades = cc e in
      let er : rested ≡ none = cc e in
      let ea : crossed taker.side s (take_nonce taker.side book) ≡ after = cc e in
      let size_eq : rested_size rested ≡ 0 = ap rested_size er in
      ended-Filled size book after trades rested et
        (ap (orders_of (other_side taker.side)) (sym ea)
          ∙ other-crossed taker.side s (take_nonce taker.side book))
        (omega (arith, size_eq)) (λ l. size_eq ∙ sym (nothing l))

  place_order-Filled :
      (size : ℕ) (book after : Book) (trades : List Trade) (rested : Option RestingOrder)
      (n : Option ℕ)
      → place_order hex taker size book ≡ (after, applied trades rested n)
      → Filled taker size book after trades rested
  unfolding place_order
  place_order-Filled size book after trades rested n e =
      Rested-Filled size book after trades rested n _ e (
        rest_order-Rested (next_nonce taker.side book) (crossing_of size book)
          (crossed taker.side (crossing_of size book) (take_nonce taker.side book)))

  create_order-Filled :
      (size : ℕ) (book after : Book) (trades : List Trade) (rested : Option RestingOrder)
      (n : Option ℕ)
      → create_order hex taker size book ≡ (after, applied trades rested n)
      → Filled taker size book after trades rested
  unfolding create_order
  create_order-Filled size book after trades rested n e =
      split (size == 0) (is_limit taker.kind && taker.price == 0)
        (is_found (find_order (taker.account, taker.coi) book.index)) e
    where
      split :
          (z p f : Bool)
          → (if z
              then (book, failed zero_size)
              else if p
              then (book, failed zero_price)
              else if f
              then (book, failed index_in_use)
              else place_order hex taker size book)
            ≡ (after, applied trades rested n)
          → Filled taker size book after trades rested
      split true p f e = absurd (cc e)
      split false true f e = absurd (cc e)
      split false false true e = absurd (cc e)
      split false false false e = place_order-Filled size book after trades rested n e

-- An order that is accepted gets at most its size, and a limit order exactly its size in trades and
-- in what rests; the makers give what was traded, at prices within its limit; and an order that got
-- less than its size leaves no maker within its limit at the top of the other side.
pub execute-Filled :
    (hex : Hex) (account : Bytes) (market_id : ℕ) (side : Side) (kind : OrderKind)
    (price size coi tick pos block : ℕ) (book after : Book) (trades : List Trade)
    (rested : Option RestingOrder) (n : Option ℕ)
    → execute hex account (create market_id side kind price size coi) tick pos block book
      ≡ (after, applied trades rested n)
    → Filled (taker_of account side kind price coi tick pos block) size book after trades rested
unfolding execute
execute-Filled hex account market_id side kind price size coi tick pos block book after trades
      rested n e =
    create_order-Filled hex _ size book after trades rested n e
