-- ===== src/Gateway/Adapter/Replaying.antt =====
-- The replay of a scan by `advance` (demo/gateway/src/lighter_sim.rs): the batch and the cursor.
use lighter_integration.Base.{
  ℕ, ◌+◌, ◌%◌, ◌^◌, ◌≡◌, refl, sym, ap, ◌∙◌, false, Bytes, List, [], ◌∷◌, ◌++◌, Option, some, ltb,
  ◌==◌, Bool-cases, inl, inr,
}
use mathlib.Core.Path.{subst}
use mathlib.Core.List.{append-nil}
use lighter_integration.Sequencer.Identity.{Primitives}
use lighter_integration.Gateway.Book.{Hex, LighterTx}
use lighter_integration.Gateway.Adapter.{SimState}
use lighter_integration.Gateway.Adapter.Advance.{
  Resolved, Scan, Replay, set_cursor, close_tick, play_ticks, play_rest, replay,
}
use lighter_integration.Gateway.Adapter.Cursor.{drop_to, queue_after, cursor_ticks, cursor_rest}
use lighter_integration.Gateway.Adapter.Plays.{cursor_of, stream_over, Plays, Plays-none}
use lighter_integration.Gateway.Adapter.Goes.{
  Replays-refl, Replays-trans, Ready, play-Replays, Goes, Goes-stay, Goes-before, play_through-Goes,
  close_tick-Replays,
}

module _ (primitives : Primitives) (hex : Hex) (parse_tx : Bytes → Option LighterTx) where
  Ready-drop_to : (done : ℕ) (queue : List Resolved) → Ready queue → Ready (drop_to done queue)
  unfolding drop_to
  Ready-drop_to done [] h = tt
  Ready-drop_to done (x ∷ queue) (now, h) = elim (Bool-cases (ltb done x.tick)) [
    | inl e ↦ rw e (now, h)
    | inr e ↦ rw e (Ready-drop_to done queue h)
  ]

  Ready-queue_after :
      (ticks : List ℕ) (queue : List Resolved) → Ready queue → Ready (queue_after ticks queue)
  unfolding queue_after
  Ready-queue_after [] queue h = h
  Ready-queue_after (done ∷ ticks) queue h =
      Ready-queue_after ticks (drop_to done queue) (Ready-drop_to done queue h)

  play_ticks-Goes :
      (block_ticks delta_ms : ℕ) (ticks : List ℕ) (queue : List Resolved) (r : Replay)
      → (block_ticks == 0) ≡ false
      → r.queue ≡ queue
      → Ready queue
      → Goes primitives hex parse_tx r
          (queue_after ticks queue)
          (cursor_ticks ticks (cursor_of r.sim))
          (play_ticks primitives hex parse_tx block_ticks delta_ms ticks r)
  unfolding play_ticks queue_after cursor_ticks
  play_ticks-Goes block_ticks delta_ms [] queue r some_ticks at ready =
      Goes-stay primitives hex parse_tx r queue at
  play_ticks-Goes block_ticks delta_ms (done ∷ ticks) queue r some_ticks at ready =
      let g =
        play_through-Goes primitives hex parse_tx done r.queue r refl
          (subst Ready (sym at) ready) in
      let (closes, same, moved) =
        close_tick-Replays primitives hex parse_tx block_ticks delta_ms done g.next in
      let next = close_tick primitives hex parse_tx block_ticks delta_ms done g.next in
      let left : next.queue ≡ drop_to done queue = same ∙ (g.at_queue ∙ ap (drop_to done) at) in
      let rest =
        play_ticks-Goes block_ticks delta_ms ticks (drop_to done queue) next some_ticks left
          (Ready-drop_to done queue ready) in
      rw (play_ticks, g.gives, some_ticks, ← moved)
        (Goes-before primitives hex parse_tx r next _ _ _
          (Replays-trans primitives hex parse_tx r g.next next g.replays closes) rest)

  play_rest-Goes :
      (queue : List Resolved) (r : Replay)
      → r.queue ≡ queue
      → Ready queue
      → Goes primitives hex parse_tx r []
          (cursor_rest queue (cursor_of r.sim))
          (play_rest primitives hex parse_tx queue r)
  unfolding play_rest stream_over cursor_rest
  play_rest-Goes [] r at ready = Goes-stay primitives hex parse_tx r [] at
  play_rest-Goes (x ∷ queue) r at (now, ready) =
      let (next, gives, rest, p, _) = play-Replays primitives hex parse_tx x queue r at now in
      let moved : Replay = record next {
        sim = set_cursor x.tick ((x.pos + 1) % 2 ^ 32) next.sim;
      } in
      let moves = Replays-refl primitives hex parse_tx next moved refl (
        Plays-none primitives hex parse_tx next.sim moved.sim refl refl refl refl refl refl refl) in
      rw (play_rest, gives)
        (Goes-before primitives hex parse_tx r moved _ _ _
          (Replays-trans primitives hex parse_tx r next moved p moves)
          (play_rest-Goes queue moved rest ready))

  pub replay-Plays :
      (block_ticks delta_ms : ℕ) (found : Scan) (s : SimState)
      → (block_ticks == 0) ≡ false
      → Ready found.batch
      → (last : Replay) × (replay primitives hex parse_tx block_ticks delta_ms found s ≡ some last)
        × Plays primitives hex parse_tx found.batch s last.sim
        × (cursor_of last.sim
            ≡ cursor_rest
                (queue_after found.ticks_completed found.batch)
                (cursor_ticks found.ticks_completed (cursor_of s)))
  unfolding replay
  replay-Plays block_ticks delta_ms found s some_ticks ready =
      let start : Replay = record {
        sim = s;
        new_trades = [];
        sealed_blocks = [];
        queue = found.batch;
      } in
      let g =
        play_ticks-Goes block_ticks delta_ms found.ticks_completed found.batch start some_ticks refl
          ready in
      let left = queue_after found.ticks_completed found.batch in
      let d = play_rest-Goes g.next.queue g.next refl (
        subst Ready (sym g.at_queue) (Ready-queue_after found.ticks_completed found.batch ready)) in
      let whole = Replays-trans primitives hex parse_tx start g.next d.next g.replays d.replays in
      let all : found.batch ≡ whole.played =
        whole.order ∙ (ap (λ q. whole.played ++ q) d.at_queue ∙ append-nil whole.played) in
      (
        d.next,
        rw (replay, g.gives) d.gives,
        subst (λ xs. Plays primitives hex parse_tx xs s d.next.sim) (sym all) whole.plays,
        d.at_cursor
            ∙ (ap (λ q. cursor_rest q (cursor_of g.next.sim)) g.at_queue
                ∙ ap (cursor_rest left) g.at_cursor),
      )
