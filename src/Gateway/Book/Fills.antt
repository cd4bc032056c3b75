-- ===== src/Gateway/Book/Fills.antt =====
-- The loop of `Book::execute` (demo/gateway/src/lighter_sim.rs): its rounds, and what it takes from the
-- makers and gives to the order.
use lighter_integration.Base.{
  ℕ, zero, suc, ◌+◌, ◌-◌, ◌<◌, ◌≤◌, ◌≡◌, refl, sym, ap, ◌∙◌, Bool, true, false, List, [], ◌∷◌, ◌++◌,
  Option, none, some, length, All, All-snoc, ◌==◌, if◌then◌else◌, ◌⊎◌, inl, inr, arith,
}
use mathlib.Core.Path.{subst}
use lighter_integration.Gateway.Book.{Hex, RestingOrder, Trade}
use lighter_integration.Gateway.Book.Cross.{
  Taker, Crossing, takes_price, smaller, trade_of, fill_first, cross_first, cross_step, cross,
}

unfoldable pub traded : List Trade → ℕ
traded [] = 0
traded (t ∷ trades) = t.size + traded trades

unfoldable pub total_size : List ((ℕ × ℕ) × RestingOrder) → ℕ
total_size [] = 0
total_size ((k, o) ∷ orders) = o.size + total_size orders

traded-append :
    (trades : List Trade) (t : Trade) → traded (trades ++ t ∷ []) ≡ traded trades + t.size
unfolding traded
traded-append [] t = omega arith
traded-append (u ∷ trades) t = omega (arith, traded-append trades t)

-- The first maker after the round, or nothing of it.
total_size-rest :
    (key : ℕ × ℕ) (maker : RestingOrder) (rest : List ((ℕ × ℕ) × RestingOrder)) (left : ℕ)
    → total_size (if left == 0 then rest else (key, record maker { size = left }) ∷ rest)
      ≡ left + total_size rest
unfolding total_size
total_size-rest key maker rest left = ground arith

smaller_le : (a b : ℕ) → (smaller a b ≤ a) × (smaller a b ≤ b)
smaller_le a b = (ground arith, ground arith)

module _ (hex : Hex) (taker : Taker) where
  -- What a round that does not break has found.
  pub record Round (s next : Crossing) : Type 0 where
    pub key : ℕ × ℕ
    pub maker : RestingOrder
    pub rest : List ((ℕ × ℕ) × RestingOrder)
    pub first : s.makers ≡ (key, maker) ∷ rest
    pub wanted : (s.remaining == 0) ≡ false
    pub taken : takes_price taker key.0 ≡ true
    pub filled : next ≡ fill_first hex taker key maker rest s

  cross_first-Round :
      (s next : Crossing) (makers : List ((ℕ × ℕ) × RestingOrder))
      → (s.remaining == 0) ≡ false
      → s.makers ≡ makers
      → cross_first hex taker makers s ≡ some next
      → Round s next
  unfolding cross_first
  cross_first-Round s next [] wanted first h = absurd (cc h)
  cross_first-Round s next ((key, maker) ∷ rest) wanted first h =
      from (takes_price taker key.0) refl h
    where
      from :
          (takes : Bool)
          → takes_price taker key.0 ≡ takes
          → (if takes then some (fill_first hex taker key maker rest s) else none) ≡ some next
          → Round s next
      from true e h = record {
        key = key;
        maker = maker;
        rest = rest;
        first = first;
        wanted = wanted;
        taken = e;
        filled = cc h;
      }
      from false e h = absurd (cc h)

  pub cross_step-Round : (s next : Crossing) → cross_step hex taker s ≡ some next → Round s next
  unfolding cross_step
  cross_step-Round s next h = from (s.remaining == 0) refl h
    where
      from :
          (empty : Bool)
          → (s.remaining == 0) ≡ empty
          → (if empty then none else cross_first hex taker s.makers s) ≡ some next
          → Round s next
      from true e h = absurd (cc h)
      from false e h = cross_first-Round s next s.makers e refl h

  -- What every round keeps, the loop keeps.
  pub cross-keeps {ℓ} :
      (P : Crossing → Type ℓ)
      → ((s next : Crossing) → Round s next → P s → P next)
      → (fuel : ℕ) (s : Crossing) → P s
      → P (cross hex fuel taker s)
  unfolding cross
  cross-keeps P step zero s p = p
  cross-keeps P step (suc fuel) s p =
      from (cross_step hex taker s) refl (λ next q. cross-keeps P step fuel next q)
    where
      from :
          (o : Option Crossing)
          → cross_step hex taker s ≡ o
          → ((next : Crossing) → P next → P (cross hex fuel taker next))
          → P (elim o [ none ↦ s | some next ↦ cross hex fuel taker next ])
      from none e rest = p
      from (some next) e rest = rest next (step s next (cross_step-Round s next e) p)

  cross-stays :
      (fuel : ℕ) (s : Crossing) → cross_step hex taker s ≡ none → cross hex fuel taker s ≡ s
  unfolding cross
  cross-stays zero s e = refl
  cross-stays (suc fuel) s e = rw (cross, e) refl

  filled_up : (s : Crossing) → s.remaining ≡ 0 → cross_step hex taker s ≡ none
  unfolding cross_step
  filled_up s e = rw e refl

  -- A round fills the order, or takes a maker off the book.
  Round-progress :
      (s next : Crossing)
      → Round s next
      → (next.remaining ≡ 0) ⊎ (suc (length next.makers) ≡ length s.makers)
  unfolding fill_first
  Round-progress s next r =
      rw (r.filled, r.first) (from (r.maker.size - smaller s.remaining r.maker.size == 0) refl)
    where
      from :
          (done : Bool)
          → (r.maker.size - smaller s.remaining r.maker.size == 0) ≡ done
          → (s.remaining - smaller s.remaining r.maker.size ≡ 0)
            ⊎ (suc (
                  length (
                    if done
                    then r.rest
                    else (
                      r.key,
                      record r.maker { size = r.maker.size - smaller s.remaining r.maker.size },
                    )
                      ∷ r.rest))
                ≡ suc (length r.rest))
      from true e = inr refl
      from false e = inl (ground arith)

  -- A round per maker, and one more, bring the loop to its end.
  pub cross_ends :
      (fuel : ℕ) (s : Crossing)
      → length s.makers < fuel
      → cross_step hex taker (cross hex fuel taker s) ≡ none
  unfolding cross
  cross_ends zero s h = absurd (omega (arith, h))
  cross_ends (suc fuel) s h = from (cross_step hex taker s) refl (λ next l. cross_ends fuel next l)
    where
      from :
          (o : Option Crossing)
          → cross_step hex taker s ≡ o
          → ((next : Crossing)
              → length next.makers < fuel
              → cross_step hex taker (cross hex fuel taker next) ≡ none)
          → cross_step hex taker (elim o [ none ↦ s | some next ↦ cross hex fuel taker next ])
            ≡ none
      from none e rest = e
      from (some next) e rest = elim (Round-progress s next (cross_step-Round s next e)) [
        | inl full ↦
            ap (λ x. cross_step hex taker x) (cross-stays fuel next (filled_up next full))
            ∙ filled_up next full
        | inr fewer ↦ rest next (omega (arith, h, fewer))
      ]

  -- What was traded is what the order has got and what the makers have given, at prices it takes.
  pub record Balanced (start s : Crossing) : Type 0 where
    pub got : traded s.trades + s.remaining ≡ traded start.trades + start.remaining
    pub given :
        total_size s.makers + traded s.trades ≡ total_size start.makers + traded start.trades
    pub priced : All (λ (t : Trade). takes_price taker t.price ≡ true) s.trades

  Round-Balanced : (start s next : Crossing) → Round s next → Balanced start s → Balanced start next
  unfolding fill_first trade_of total_size
  Round-Balanced start s next r b =
      let fill = smaller s.remaining r.maker.size in
      let (short, fits) = smaller_le s.remaining r.maker.size in
      let trade = trade_of hex taker r.key.0 r.maker fill in
      let more : traded (s.trades ++ trade ∷ []) ≡ traded s.trades + fill =
        traded-append s.trades trade in
      let left = total_size-rest r.key r.maker r.rest (r.maker.size - fill) in
      let before : total_size s.makers ≡ r.maker.size + total_size r.rest = ap total_size r.first in
      subst (λ (x : Crossing). Balanced start x) (sym r.filled)
        (record {
          got = omega (arith, b.got, more, short);
          given = omega (arith, b.given, more, left, before, fits);
          priced =
              All-snoc (λ (t : Trade). takes_price taker t.price ≡ true) s.trades trade b.priced
                r.taken;
        })

  pub cross-Balanced :
      (fuel : ℕ) (s : Crossing) → s.trades ≡ [] → Balanced s (cross hex fuel taker s)
  cross-Balanced fuel s new =
      cross-keeps (λ x. Balanced s x) (λ x next r b. Round-Balanced s x next r b) fuel s
        (record {
          got = refl;
          given = refl;
          priced =
              subst (λ (l : List Trade). All (λ (t : Trade). takes_price taker t.price ≡ true) l)
                (sym new) tt;
        })
