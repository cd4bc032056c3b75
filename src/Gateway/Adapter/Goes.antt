-- ===== src/Gateway/Adapter/Goes.antt =====
-- The steps of the replay by `advance` (demo/gateway/src/lighter_sim.rs): one position, the positions of
-- a tick, and the end of a tick.
use lighter_integration.Base.{
  ℕ, ◌+◌, ◌%◌, ◌≡◌, refl, sym, ap, ◌∙◌, Bool, true, false, Bytes, List, [], ◌∷◌, ◌++◌, Option, none,
  some, All, ltb, ◌==◌, if◌then◌else◌, wrap,
}
use mathlib.Core.Path.{subst₂}
use mathlib.Core.List.{append_assoc}
use lighter_integration.Sequencer.Identity.{Primitives}
use lighter_integration.Gateway.Book.{Hex, LighterTx}
use lighter_integration.Gateway.Adapter.{SimState, LighterBlock, seal_block}
use lighter_integration.Gateway.Adapter.Advance.{
  Resolved, Replay, set_cursor, play, play_through, close_tick,
}
use lighter_integration.Gateway.Adapter.Cursor.{drop_to}
use lighter_integration.Gateway.Adapter.Scans.{is_pending}
use lighter_integration.Gateway.Adapter.Plays.{
  cursor_of, stream_over, Plays, Plays-none, Plays-trans, process_position-Plays,
}

-- Every position of the queue is settled.
abbrev pub Ready : List Resolved → Type 0
Ready = All (λ (x : Resolved). is_pending x.outcome ≡ false)

module _ (primitives : Primitives) (hex : Hex) (parse_tx : Bytes → Option LighterTx) where
  -- The replay from one state to another: what left the queue was executed.
  pub record Replays (r r' : Replay) : Type 0 where
    pub played : List Resolved
    pub order : r.queue ≡ played ++ r'.queue
    pub plays : Plays primitives hex parse_tx played r.sim r'.sim

  pub Replays-refl :
      (r r' : Replay)
      → r'.queue ≡ r.queue
      → Plays primitives hex parse_tx [] r.sim r'.sim
      → Replays r r'
  Replays-refl r r' q p = record { played = []; order = sym q; plays = p }

  pub Replays-trans : (r s t : Replay) → Replays r s → Replays s t → Replays r t
  Replays-trans r s t p q = record {
    played = p.played ++ q.played;
    order =
        p.order ∙ (ap (λ l. p.played ++ l) q.order ∙ sym (append_assoc p.played q.played t.queue));
    plays = Plays-trans primitives hex parse_tx p.played q.played r.sim s.sim t.sim p.plays q.plays;
  }

  pub play-Replays :
      (x : Resolved) (queue : List Resolved) (r : Replay)
      → r.queue ≡ x ∷ queue
      → is_pending x.outcome ≡ false
      → (next : Replay) × (play primitives hex parse_tx x queue r ≡ some next)
        × (next.queue ≡ queue)
        × Replays r next
        × (cursor_of next.sim ≡ cursor_of r.sim)
  unfolding play
  play-Replays x queue r at ready =
      let (done, runs, plays, still) =
        process_position-Plays primitives hex parse_tx x.tick x.pos x.outcome r.sim ready in
      (
        record r { sim = done.0; new_trades = r.new_trades ++ done.1; queue = queue },
        rw (play, runs) refl,
        refl,
        record { played = x ∷ []; order = at; plays = plays },
        still,
      )

  -- A step of the replay that gives a state, with this queue and this cursor.
  pub record Goes (r : Replay) (queue : List Resolved) (c : ℕ × ℕ) (o : Option Replay)
      : Type 0 where
    pub next : Replay
    pub gives : o ≡ some next
    pub replays : Replays r next
    pub at_queue : next.queue ≡ queue
    pub at_cursor : cursor_of next.sim ≡ c

  pub Goes-stay :
      (r : Replay) (queue : List Resolved)
      → r.queue ≡ queue
      → Goes r queue (cursor_of r.sim) (some r)
  unfolding stream_over
  Goes-stay r queue at = record {
    next = r;
    gives = refl;
    replays =
        Replays-refl r r refl
          (Plays-none primitives hex parse_tx r.sim r.sim refl refl refl refl refl refl refl);
    at_queue = at;
    at_cursor = refl;
  }

  pub Goes-before :
      (r s : Replay) (queue : List Resolved) (c : ℕ × ℕ) (o : Option Replay)
      → Replays r s
      → Goes s queue c o
      → Goes r queue c o
  Goes-before r s queue c o p g = record {
    next = g.next;
    gives = g.gives;
    replays = Replays-trans r s g.next p g.replays;
    at_queue = g.at_queue;
    at_cursor = g.at_cursor;
  }

  pub play_through-Goes :
      (done : ℕ) (queue : List Resolved) (r : Replay)
      → r.queue ≡ queue
      → Ready queue
      → Goes r
          (drop_to done queue)
          (cursor_of r.sim)
          (play_through primitives hex parse_tx done queue r)
  unfolding play_through drop_to
  play_through-Goes done [] r at ready = Goes-stay r [] at
  play_through-Goes done (x ∷ queue) r at (now, ready) =
      let (next, gives, rest, p, still) = play-Replays x queue r at now in
      from (ltb done x.tick) (
        subst₂
          (λ o c. Goes r (drop_to done queue) c (elim o [
            | none ↦ none
            | some next ↦ play_through primitives hex parse_tx done queue next
          ]))
          (sym gives) still
          (Goes-before r next _ _ _ p (play_through-Goes done queue next rest ready)))
    where
      from :
          (later : Bool)
          → Goes r
              (drop_to done queue)
              (cursor_of r.sim)
              (elim (play primitives hex parse_tx x queue r) [
                | none ↦ none
                | some next ↦ play_through primitives hex parse_tx done queue next
              ])
          → Goes r (if later then x ∷ queue else drop_to done queue) (cursor_of r.sim) (
              if later then some r else elim (play primitives hex parse_tx x queue r) [
                | none ↦ none
                | some next ↦ play_through primitives hex parse_tx done queue next
              ])
      from true g = Goes-stay r (x ∷ queue) at
      from false g = g

  pub close_tick-Replays :
      (block_ticks delta_ms done : ℕ) (r : Replay)
      → Replays r (close_tick primitives hex parse_tx block_ticks delta_ms done r)
        × ((close_tick primitives hex parse_tx block_ticks delta_ms done r).queue ≡ r.queue)
        × (cursor_of (close_tick primitives hex parse_tx block_ticks delta_ms done r).sim
            ≡ (wrap (done + 1), 0))
  unfolding close_tick seal_block
  close_tick-Replays block_ticks delta_ms done r = from (done % block_ticks == 0)
    where
      sealed : SimState × LighterBlock
      sealed = seal_block hex done delta_ms r.sim

      closed : Bool → Replay
      closed b =
          if b
          then record r { sim = sealed.0; sealed_blocks = r.sealed_blocks ++ sealed.1 ∷ [] }
          else r

      moved : Bool → Replay
      moved b = record (closed b) { sim = set_cursor (wrap (done + 1)) 0 (closed b).sim }

      from :
          (b : Bool)
          → Replays r (moved b)
            × ((moved b).queue ≡ r.queue)
            × (cursor_of (moved b).sim ≡ (wrap (done + 1), 0))
      from true = (
        Replays-refl r (moved true) refl (
            Plays-none primitives hex parse_tx r.sim (moved true).sim refl refl refl refl refl refl
              refl),
        refl,
        refl,
      )
      from false = (
        Replays-refl r (moved false) refl (
            Plays-none primitives hex parse_tx r.sim (moved false).sim refl refl refl refl refl refl
              refl),
        refl,
        refl,
      )
