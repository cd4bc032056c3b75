-- ===== src/Sequencer/Fraud/Honest.antt =====
-- The proofs of an omission and of an invalid log transition (crates/sequencer/src/fraud.rs) about valid
-- ticks.
use lighter_integration.Base.{
  ℕ, ◌+◌, ◌≡◌, refl, sym, ap, bytes_eq_iff, ◌∙◌, true, false, Hash32, bytes_eq, bytes_eq_refl, List,
  [], ◌∷◌, some, get_elem?, zero, suc, ◌%◌, ◌^◌, ◌<◌, arith,
}
use lighter_integration.Plugin.Join.{differs}
use lighter_integration.Sequencer.Identity.{Primitives, Address}
use lighter_integration.Sequencer.Records.{BatchEntry, Receipt, log_step, x_hash}
use lighter_integration.Sequencer.Store.{SealedTick}
use lighter_integration.Sequencer.Transcript.Valid.{ValidTick, Backed, Positioned}
use lighter_integration.Sequencer.Fraud.{holds_receipt, omission_verify, invalid_log_verify}

differs_refl : (a : Hash32) → differs a a ≡ false
differs_refl a = rw (bytes_eq_refl a) refl

module _ (primitives : Primitives) (sequencer : Address) where
  -- The records of two valid ticks, the second of which starts from the commitment of the first, are
  -- no proof of an invalid log transition.
  valid_log_not_fraud :
      (epoch t : ℕ) (c : Hash32) (seen seen' : List Hash32) (s s' : SealedTick)
      → ValidTick primitives epoch sequencer t c seen s
      → ValidTick primitives epoch sequencer (t + 1) s.record_of.c_t seen' s'
      → invalid_log_verify primitives (record { prev = s.record_of; curr = s'.record_of }) sequencer
        ≡ false
  unfolding invalid_log_verify
  valid_log_not_fraud epoch t c seen seen' s s' v v' =
      let linked : differs s'.record_of.c_prev s.record_of.c_t ≡ false =
        rw v'.linked (differs_refl s.record_of.c_t) in
      let step : s'.record_of.c_t
          ≡ log_step primitives s'.record_of.c_prev s'.record_of.tick s'.record_of.batch_root
              (x_hash primitives s'.record_of) =
        cc (v'.stepped, v'.linked, v'.at_tick) in
      let stepped : differs s'.record_of.c_t (
            log_step primitives s'.record_of.c_prev s'.record_of.tick s'.record_of.batch_root
              (x_hash primitives s'.record_of))
          ≡ false =
        rw (← step) (differs_refl s'.record_of.c_t) in
      ground (arith, linked, stepped)

  -- The entry that backs a receipt stands at the receipt's position.
  holds_backed :
      (t idx i : ℕ) (entries : List BatchEntry) (e : BatchEntry) (r : Receipt)
      → Positioned t idx entries
      → get_elem? entries i ≡ some e
      → r.pos ≡ (idx + i) % 2 ^ 32
      → r.h ≡ e.h
      → holds_receipt r entries ≡ true
  unfolding holds_receipt
  holds_backed t idx i [] e r ps h p q = cc
  holds_backed t idx zero (x ∷ entries) e r (_, at, ps) h p q =
      let same : x ≡ e = cc h in
      let hash : x.h ≡ r.h = cc (same, q) in
      let there : x.pos ≡ r.pos = at ∙ (ap (λ n. n % 2 ^ 32) (omega arith) ∙ sym p) in
      let equal : bytes_eq x.h r.h ≡ true = (bytes_eq_iff x.h r.h).1 hash in
      ground (arith, there, equal)
  holds_backed t idx (suc i) (x ∷ entries) e r (_, at, ps) h p q =
      let rest =
        holds_backed t (idx + 1) i entries e r ps h (p ∙ ap (λ n. n % 2 ^ 32) (omega arith)) q in
      ground (arith, rest)

  -- A receipt of a valid tick, with a position below 2 ^ 32, and the published batch are no proof of
  -- an omission.
  Backed-not_omitted :
      (epoch t : ℕ) (c : Hash32) (seen : List Hash32) (s : SealedTick) (r : Receipt)
      → ValidTick primitives epoch sequencer t c seen s
      → Backed primitives t s.entries r
      → r.pos < 2 ^ 32
      → omission_verify primitives
          (record { receipt = r; record_of = s.record_of; full_batch = s.entries })
          sequencer
        ≡ false
  unfolding omission_verify
  Backed-not_omitted epoch t c seen s r v b small =
      let held =
        holds_backed t 0 r.pos s.entries b.entry r v.positioned b.at_position (omega arith)
          b.commitment in
      ground (arith, held)

  -- The records of two valid ticks, the second of which starts from the commitment of the first, are
  -- no proof of an invalid log transition; nor are a receipt that is backed by the batch of the
  -- first, with a position below 2 ^ 32, and the published batch a proof of an omission.
  pub honest_not_accused :
      (epoch t : ℕ) (c : Hash32) (seen seen' : List Hash32) (s s' : SealedTick) (r : Receipt)
      → ValidTick primitives epoch sequencer t c seen s
      → ValidTick primitives epoch sequencer (t + 1) s.record_of.c_t seen' s'
      → Backed primitives t s.entries r
      → r.pos < 2 ^ 32
      → (invalid_log_verify primitives
            (record { prev = s.record_of; curr = s'.record_of })
            sequencer
          ≡ false)
        × (omission_verify primitives
              (record { receipt = r; record_of = s.record_of; full_batch = s.entries })
              sequencer
            ≡ false)
  honest_not_accused epoch t c seen seen' s s' r v v' b small = (
    valid_log_not_fraud epoch t c seen seen' s s' v v',
    Backed-not_omitted epoch t c seen s r v b small,
  )
