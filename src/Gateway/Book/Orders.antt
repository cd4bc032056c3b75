-- ===== src/Gateway/Book/Orders.antt =====
-- The sides of the book of demo/gateway/src/lighter_sim.rs: the order of their keys, and prices that
-- are out of reach, under the operations of the map.
use lighter_integration.Base.{
  ℕ, ◌≡◌, refl, Bool, true, false, List, [], ◌∷◌, All, if◌then◌else◌, arith,
}
use lighter_integration.Gateway.Book.{
  Side, bid, ask, RestingOrder, before, same_order, insert_order, remove_order,
}
use lighter_integration.Gateway.Book.Cross.{within_limit}

-- What holds of the keys of all orders.
abbrev pub Keys : (ℕ × ℕ → Type 0) → List ((ℕ × ℕ) × RestingOrder) → Type 0
Keys P = All (λ ko. P ko.0)

abbrev pub Behind : Side → ℕ × ℕ → List ((ℕ × ℕ) × RestingOrder) → Type 0
Behind side key = Keys (λ k. before side key k ≡ true)

abbrev pub Ordered : Side → List ((ℕ × ℕ) × RestingOrder) → Type 0
Ordered side [] = Unit
Ordered side ((k, o) ∷ orders) = Behind side k orders × Ordered side orders

-- No order of the other side is within the limit `price` of an order of the side.
abbrev pub OutOfReach : Side → ℕ → List ((ℕ × ℕ) × RestingOrder) → Type 0
OutOfReach side price = Keys (λ k. within_limit side price k.0 ≡ false)

abbrev pub Apart : Side → List ((ℕ × ℕ) × RestingOrder) → List ((ℕ × ℕ) × RestingOrder) → Type 0
Apart side mine others = Keys (λ k. OutOfReach side k.0 others) mine

module _ (P : ℕ × ℕ → Type 0) where
  pub Keys-remove_order :
      (key : ℕ × ℕ) (orders : List ((ℕ × ℕ) × RestingOrder))
      → Keys P orders
      → Keys P (remove_order key orders)
  unfolding remove_order
  Keys-remove_order key [] h = tt
  Keys-remove_order key ((k, o) ∷ orders) (hk, h) =
      split (same_order k key) (Keys-remove_order key orders h)
    where
      split :
          (same : Bool)
          → Keys P (remove_order key orders)
          → Keys P (if same then orders else (k, o) ∷ remove_order key orders)
      split true rest = h
      split false rest = (hk, rest)

  pub Keys-insert_order :
      (side : Side) (key : ℕ × ℕ) (o : RestingOrder) (orders : List ((ℕ × ℕ) × RestingOrder))
      → P key
      → Keys P orders
      → Keys P (insert_order side key o orders)
  unfolding insert_order
  Keys-insert_order side key o [] hp h = (hp, tt)
  Keys-insert_order side key o ((k, q) ∷ orders) hp (hk, h) =
      split (same_order k key) (before side key k) (Keys-insert_order side key o orders hp h)
    where
      split :
          (same first : Bool)
          → Keys P (insert_order side key o orders)
          → Keys P (
              if same
              then (key, o) ∷ orders
              else if first
              then (key, o) ∷ (k, q) ∷ orders
              else (k, q) ∷ insert_order side key o orders)
      split true first rest = (hp, h)
      split false true rest = (hp, (hk, h))
      split false false rest = (hk, rest)

pub Keys-map :
    (P Q : ℕ × ℕ → Type 0) (orders : List ((ℕ × ℕ) × RestingOrder))
    → ((k : ℕ × ℕ) → P k → Q k)
    → Keys P orders
    → Keys Q orders
Keys-map P Q [] f h = tt
Keys-map P Q ((k, o) ∷ orders) f (hk, h) = (f k hk, Keys-map P Q orders f h)

-- `before` is a strict total order.
before_trans :
    (side : Side) (j k l : ℕ × ℕ)
    → before side j k ≡ true
    → before side k l ≡ true
    → before side j l ≡ true
unfolding before
before_trans bid j k l h i = ground arith
before_trans ask j k l h i = ground arith

before_total :
    (side : Side) (k key : ℕ × ℕ)
    → same_order k key ≡ false
    → before side key k ≡ false
    → before side k key ≡ true
unfolding before
before_total bid k key h i = ground arith
before_total ask k key h i = ground arith

before_same :
    (side : Side) (k key j : ℕ × ℕ)
    → same_order k key ≡ true
    → before side k j ≡ true
    → before side key j ≡ true
unfolding before
before_same bid k key j h i = ground arith
before_same ask k key j h i = ground arith

pub Ordered-remove_order :
    (side : Side) (key : ℕ × ℕ) (orders : List ((ℕ × ℕ) × RestingOrder))
    → Ordered side orders
    → Ordered side (remove_order key orders)
unfolding remove_order
Ordered-remove_order side key [] h = tt
Ordered-remove_order side key ((k, o) ∷ orders) (hk, h) =
    split (same_order k key) (Ordered-remove_order side key orders h)
  where
    split :
        (same : Bool)
        → Ordered side (remove_order key orders)
        → Ordered side (if same then orders else (k, o) ∷ remove_order key orders)
    split true rest = h
    split false rest = (Keys-remove_order (λ j. before side k j ≡ true) key orders hk, rest)

pub Ordered-insert_order :
    (side : Side) (key : ℕ × ℕ) (o : RestingOrder) (orders : List ((ℕ × ℕ) × RestingOrder))
    → Ordered side orders
    → Ordered side (insert_order side key o orders)
unfolding insert_order
Ordered-insert_order side key o [] h = (tt, tt)
Ordered-insert_order side key o ((k, q) ∷ orders) (hk, h) =
    split (same_order k key) (before side key k) refl refl
      (Ordered-insert_order side key o orders h)
  where
    split :
        (same first : Bool)
        → same_order k key ≡ same
        → before side key k ≡ first
        → Ordered side (insert_order side key o orders)
        → Ordered side (
            if same
            then (key, o) ∷ orders
            else if first
            then (key, o) ∷ (k, q) ∷ orders
            else (k, q) ∷ insert_order side key o orders)
    split true first e f rest = (
      Keys-map (λ j. before side k j ≡ true) (λ j. before side key j ≡ true) orders
          (λ j b. before_same side k key j e b) hk,
      h,
    )
    split false true e f rest = (
      (
        f,
        Keys-map (λ j. before side k j ≡ true) (λ j. before side key j ≡ true) orders
            (λ j b. before_trans side key k j f b) hk,
      ),
      (hk, h),
    )
    split false false e f rest = (
      Keys-insert_order (λ j. before side k j ≡ true) side key o orders
          (before_total side k key e f) hk,
      rest,
    )
