-- ===== src/Plugin/Join/Replay.antt =====
-- Runs of settlements: the heads that `advance_head` (crates/continuum-lighter-plugin/src/join.rs)
-- reaches one batch after another.
use lighter_integration.Base.{ℕ, ◌+◌, ◌≤◌, ◌≡◌, ◌≢◌, ok, arith, List, [], ◌∷◌, ap, length}
use lighter_integration.Plugin.Join.{
  SettlementHeadV3, SequencePublicV3, ExecutionPublicV3, advance_head, next_head,
}
use lighter_integration.Plugin.Join.Relation.{Joins, advance_head-iff-Joins}

-- `settled` batches, each accepted on the head that the one before it left, lead from `start`.
pub data Reaches (start : SettlementHeadV3)
    : List SequencePublicV3 → SettlementHeadV3 → Type 0 where
  here : Reaches start [] start
  settle :
      {settled : List SequencePublicV3} {head next : SettlementHeadV3} (seq : SequencePublicV3)
      (exec : ExecutionPublicV3)
      → Reaches start settled head
      → advance_head head seq exec ≡ ok next
      → Reaches start (seq ∷ settled) next

-- The items that the settled batches put into the protected stream.
pub total_items : List SequencePublicV3 → ℕ
total_items [] = 0
total_items (seq ∷ settled) = seq.ordered_item_count + total_items settled

-- What a run of settlements leaves alone, and how far it moves the counters.
pub record Continues (start : SettlementHeadV3) (settled : List SequencePublicV3)
    (head : SettlementHeadV3) : Type 0 where
  pub same_domain : head.domain_hash ≡ start.domain_hash
  pub same_epoch : head.epoch ≡ start.epoch
  pub same_sequence_verifier : head.sequence_verifier_id ≡ start.sequence_verifier_id
  pub same_execution_verifier : head.execution_verifier_id ≡ start.execution_verifier_id
  pub cursor_grows : start.global_cursor + length settled ≤ head.global_cursor
  pub priority_grows : start.priority_head ≤ head.priority_head
  pub namespace_exact : head.namespace_count ≡ start.namespace_count + total_items settled

settle-Continues :
    {start head next : SettlementHeadV3} {settled : List SequencePublicV3} (seq : SequencePublicV3)
    (exec : ExecutionPublicV3)
    → Joins head seq exec
    → next ≡ next_head head seq exec
    → Continues start settled head
    → Continues start (seq ∷ settled) next
unfolding total_items next_head
settle-Continues seq exec j e c = rw e (record {
  same_domain = c.same_domain;
  same_epoch = c.same_epoch;
  same_sequence_verifier = c.same_sequence_verifier;
  same_execution_verifier = c.same_execution_verifier;
  cursor_grows = omega (arith, j.cursor, j.cursor_grows, c.cursor_grows);
  priority_grows = omega (arith, j.priority, j.priority_grows, c.priority_grows);
  namespace_exact = omega (arith, j.namespace, j.count_exact, c.namespace_exact);
})

-- Over any run of accepted settlements the domain, the epoch and the two verifiers stay, the cursor
-- grows by at least one for each batch, the priority head never falls, and the namespace count grows
-- by exactly the items of the settled batches.
pub Reaches-Continues :
    {start head : SettlementHeadV3} {settled : List SequencePublicV3}
    → Reaches start settled head
    → Continues start settled head
unfolding total_items
Reaches-Continues here = ground arith
Reaches-Continues (settle {head} {next} seq exec r e) =
    let (j, n) = (advance_head-iff-Joins head seq exec next).0 e in
    settle-Continues seq exec j n (Reaches-Continues r)

-- A sequence proof that has settled is refused by every later head, whatever execution proof comes
-- with it.
pub settled_once :
    (head next later : SettlementHeadV3) (settled : List SequencePublicV3) (seq : SequencePublicV3)
    (exec again : ExecutionPublicV3)
    → advance_head head seq exec ≡ ok next
    → Reaches next settled later
    → (h : SettlementHeadV3) → advance_head later seq again ≢ ok h
unfolding next_head
settled_once head next later settled seq exec again e r h twice =
    let (j, n) = (advance_head-iff-Joins head seq exec next).0 e in
    let (k, _) = (advance_head-iff-Joins later seq again h).0 twice in
    let c = Reaches-Continues r in
    let at : next.global_cursor ≡ seq.new_global_cursor =
      ap (λ (x : SettlementHeadV3). x.global_cursor) n in
    omega (arith, j.cursor, j.cursor_grows, k.cursor, c.cursor_grows, at)
