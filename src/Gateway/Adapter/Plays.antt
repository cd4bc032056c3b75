-- ===== src/Gateway/Adapter/Plays.antt =====
-- What one position does to the adapter (demo/gateway/src/lighter_sim.rs): the stream, the book, the
-- counters and the cursor.
use lighter_integration.Base.{
  ℕ, ◌+◌, ◌≡◌, refl, sym, ap, ◌∙◌, Bool, true, false, Bytes, Hash32, List, [], ◌∷◌, ◌++◌, Option,
  none, some, length, length-append, ◌!=◌, if◌then◌else◌, codes, wrap, arith,
}
use mathlib.Core.Path.{subst}
use lighter_integration.Sequencer.Identity.{Primitives}
use lighter_integration.Sequencer.Envelope.{Intent}
use lighter_integration.Sequencer.Store.{Outcome, pending, opened, gap}
use lighter_integration.Gateway.Book.{Hex, LighterTx, Book, Trade, ExecResult, applied, failed}
use lighter_integration.Gateway.Book.Execute.{execute}
use lighter_integration.Gateway.Adapter.{
  SimState, lighter_namespace, stream_step, adapter_gap, tape_gap, count_result, run_tx,
  run_payload, run_intent, process_position,
}
use lighter_integration.Gateway.Adapter.Advance.{Resolved}
use lighter_integration.Gateway.Adapter.Scans.{is_pending}

abbrev pub cursor_of : SimState → ℕ × ℕ
cursor_of s = (s.cursor_tick, s.cursor_pos)

module _ (parse_tx : Bytes → Option LighterTx) where
  -- The transaction of a position: the payload of an opened intent of the namespace, if it reads as one.
  unfoldable pub transaction_of : Resolved → Outcome → Option (Intent × LighterTx)
  transaction_of x (pending m) = none
  transaction_of x (gap reason) = none
  transaction_of x (opened intent) =
      if intent.namespace != lighter_namespace
      then none
      else elim (parse_tx intent.payload) [ none ↦ none | some tx ↦ some (intent, tx) ]

  -- The book after the transactions of the positions, each executed once, in order; the number of the
  -- block goes into the trades only.
  pub data Executes (hex : Hex) : List Resolved → Book → Book → Type 0 where
    done : {book : Book} → Executes hex [] book book
    left_out :
        {xs : List Resolved} {book book' : Book} (x : Resolved)
        → transaction_of x x.outcome ≡ none
        → Executes hex xs book book'
        → Executes hex (x ∷ xs) book book'
    executed :
        {xs : List Resolved} {book book' : Book} (x : Resolved) (intent : Intent) (tx : LighterTx)
        (block : ℕ)
        → transaction_of x x.outcome ≡ some (intent, tx)
        → Executes hex xs (execute hex intent.account tx x.tick x.pos block book).0 book'
        → Executes hex (x ∷ xs) book book'

  Executes-append :
      {hex : Hex} {xs ys : List Resolved} {a b c : Book}
      → Executes hex xs a b
      → Executes hex ys b c
      → Executes hex (xs ++ ys) a c
  Executes-append done q = q
  Executes-append (left_out x e p) q = left_out x e (Executes-append p q)
  Executes-append (executed x intent tx block e p) q =
      executed x intent tx block e (Executes-append p q)

module _ (primitives : Primitives) (hex : Hex) (parse_tx : Bytes → Option LighterTx) where
  -- The commitment after a position: only the payload of an opened intent of the namespace that is a
  -- transaction goes into the stream.
  unfoldable pub stream_payload : Resolved → Hash32 → Intent → Option LighterTx → Hash32
  stream_payload x c intent none = c
  stream_payload x c intent (some tx) = stream_step primitives c x.tick x.pos intent.payload

  unfoldable pub stream_outcome : Resolved → Hash32 → Outcome → Hash32
  unfolding stream_payload
  stream_outcome x c (pending m) = c
  stream_outcome x c (gap reason) = c
  stream_outcome x c (opened intent) =
      if intent.namespace != lighter_namespace
      then c
      else stream_payload x c intent (parse_tx intent.payload)

  unfoldable pub stream_over : List Resolved → Hash32 → Hash32
  unfolding stream_outcome
  stream_over [] c = c
  stream_over (x ∷ xs) c = stream_over xs (stream_outcome x c x.outcome)

  stream_over-append :
      (xs ys : List Resolved) (c : Hash32)
      → stream_over (xs ++ ys) c ≡ stream_over ys (stream_over xs c)
  unfolding stream_over
  stream_over-append [] ys c = refl
  stream_over-append (x ∷ xs) ys c = stream_over-append xs ys _

  -- The state after `xs`: the stream and the book have run over them, and, up to the wrap-around of the
  -- counters, each was counted once as opened or as a gap of
  -- the tape, and each that was opened once as applied, as failed or as a gap of the adapter.
  pub record Plays (xs : List Resolved) (s s' : SimState) : Type 0 where
    pub stream : s'.stream_s ≡ stream_over xs s.stream_s
    pub books : Executes parse_tx hex xs s.book s'.book
    pub seen : wrap (s'.opened + s'.tape_gaps) ≡ wrap (s.opened + s.tape_gaps + length xs)
    pub settled :
        wrap (s'.applied + s'.failed + s'.adapter_gaps + s.opened)
        ≡ wrap (s.applied + s.failed + s.adapter_gaps + s'.opened)

  pub Plays-none :
      (s s' : SimState)
      → s'.stream_s ≡ s.stream_s
      → s'.book ≡ s.book
      → s'.opened ≡ s.opened
      → s'.tape_gaps ≡ s.tape_gaps
      → s'.applied ≡ s.applied
      → s'.failed ≡ s.failed
      → s'.adapter_gaps ≡ s.adapter_gaps
      → Plays [] s s'
  unfolding stream_over
  Plays-none s s' a same b c d e f = record {
    stream = a;
    books = subst (λ x. Executes parse_tx hex [] s.book x) (sym same) done;
    seen = omega (arith, b, c);
    settled = omega (arith, b, d, e, f);
  }

  pub Plays-trans :
      (xs ys : List Resolved) (s s' t : SimState)
      → Plays xs s s'
      → Plays ys s' t
      → Plays (xs ++ ys) s t
  Plays-trans xs ys s s' t p q = record {
    stream = q.stream ∙ (ap (stream_over ys) p.stream ∙ sym (stream_over-append xs ys s.stream_s));
    books = Executes-append parse_tx p.books q.books;
    seen = omega (arith, p.seen, q.seen, length-append xs ys);
    settled = omega (arith, p.settled, q.settled);
  }

  -- The state after a result is counted.
  count_result-counts :
      (result : ExecResult) (s : SimState)
      → ((count_result result s).stream_s ≡ s.stream_s)
        × ((count_result result s).book ≡ s.book)
        × ((count_result result s).opened ≡ s.opened)
        × ((count_result result s).tape_gaps ≡ s.tape_gaps)
        × (wrap ((count_result result s).applied + (count_result result s).failed)
            ≡ wrap (s.applied + s.failed + 1))
        × ((count_result result s).adapter_gaps ≡ s.adapter_gaps)
  unfolding count_result
  count_result-counts (applied trades rested n) s = (refl, refl, refl, refl, omega arith, refl)
  count_result-counts (failed reason) s = (refl, refl, refl, refl, omega arith, refl)

  -- The execution does not move the cursor.
  cursor-count_result :
      (result : ExecResult) (s : SimState) → cursor_of (count_result result s) ≡ cursor_of s
  unfolding count_result
  cursor-count_result (applied trades rested n) s = refl
  cursor-count_result (failed reason) s = refl

  cursor-run_intent :
      (t j : ℕ) (intent : Intent) (s : SimState)
      → cursor_of (run_intent primitives hex parse_tx t j intent s).0 ≡ cursor_of s
  unfolding run_intent run_payload run_tx adapter_gap
  cursor-run_intent t j intent s =
      named (intent.namespace != lighter_namespace) (parse_tx intent.payload)
    where
      named :
          (foreign : Bool) (o : Option LighterTx)
          → cursor_of
              (if foreign
                then (adapter_gap t j (codes "foreign namespace") s, [])
                else run_payload primitives hex parse_tx t j intent o s).0
            ≡ cursor_of s
      named true o = refl
      named false none = refl
      named false (some tx) =
          let stream = stream_step primitives s.stream_s t j intent.payload in
          let ran = execute hex intent.account tx t j s.block_counter s.book in
          cursor-count_result ran.1 (record s { stream_s = stream; book = ran.0 })

  run_intent-Plays :
      (t j : ℕ) (intent : Intent) (s : SimState)
      → Plays
          (record { tick = t; pos = j; outcome = opened intent } ∷ [])
          s
          (run_intent primitives hex parse_tx t j intent
            (record s { opened = wrap (s.opened + 1) })).0
  unfolding run_intent run_payload run_tx adapter_gap stream_over stream_outcome stream_payload
      transaction_of
  run_intent-Plays t j intent s = named (intent.namespace != lighter_namespace) refl
    where
      x : Resolved
      x = record { tick = t; pos = j; outcome = opened intent }

      here : SimState
      here = record s { opened = wrap (s.opened + 1) }

      parsed :
          (o : Option LighterTx)
          → parse_tx intent.payload ≡ o
          → (intent.namespace != lighter_namespace) ≡ false
          → Plays (x ∷ []) s (run_payload primitives hex parse_tx t j intent o here).0
      parsed none e f = record {
        stream = rw (f, e) refl;
        books = left_out x (rw (f, e) refl) done;
        seen = omega arith;
        settled = omega arith;
      }
      parsed (some tx) e f =
          let stream = stream_step primitives s.stream_s t j intent.payload in
          let ran = execute hex intent.account tx t j s.block_counter s.book in
          let (a, same, b, c, d, g) =
            count_result-counts ran.1 (record here { stream_s = stream; book = ran.0 }) in
          record {
            stream = rw (f, e) a;
            books =
                executed x intent tx s.block_counter (rw (f, e) refl)
                  (subst (λ b. Executes parse_tx hex [] ran.0 b) (sym same) done);
            seen = omega (arith, b, c);
            settled = omega (arith, b, d, g);
          }

      named :
          (foreign : Bool)
          → (intent.namespace != lighter_namespace) ≡ foreign
          → Plays
              (x ∷ [])
              s
              (if foreign
                then (adapter_gap t j (codes "foreign namespace") here, [])
                else run_payload primitives hex parse_tx t j intent
                    (parse_tx intent.payload)
                    here).0
      named true f = record {
        stream = rw f refl;
        books = left_out x (rw f refl) done;
        seen = omega arith;
        settled = omega arith;
      }
      named false f = parsed (parse_tx intent.payload) refl f

  -- A position that is not pending is executed.
  pub process_position-Plays :
      (t j : ℕ) (o : Outcome) (s : SimState)
      → is_pending o ≡ false
      → (r : SimState × List Trade) × (process_position primitives hex parse_tx t j o s ≡ some r)
        × Plays (record { tick = t; pos = j; outcome = o } ∷ []) s r.0
        × (cursor_of r.0 ≡ cursor_of s)
  unfolding process_position tape_gap stream_over stream_outcome transaction_of
  process_position-Plays t j (pending m) s h = absurd (cc h)
  process_position-Plays t j (gap reason) s h = (
    _,
    refl,
    record {
      stream = refl;
      books = left_out _ refl done;
      seen = omega arith;
      settled = omega arith;
    },
    refl,
  )
  process_position-Plays t j (opened intent) s h = (
    _,
    refl,
    run_intent-Plays t j intent s,
    cursor-run_intent t j intent (record s { opened = wrap (s.opened + 1) }),
  )
