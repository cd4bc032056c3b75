-- ===== src/Plugin/Join.antt =====
-- crates/continuum-lighter-plugin/src/join.rs: the settlement head and `advance_head`, the relation
-- that the settlement contract applies once both proofs have verified.
pub mod Relation
pub mod Replay
use lighter_integration.Base.{
  ℕ, ◌-◌, Bool, not, ◌||◌, ltb, leb, ◌!=◌, Hash32, bytes_eq, Result, ok, guarded, List, [], ◌∷◌,
}

pub record SequencePublicV3 : Type 0 where
  pub domain_hash : Hash32
  pub verifier_id : Hash32
  pub epoch : ℕ
  pub old_global_cursor : ℕ
  pub new_global_cursor : ℕ
  pub old_transcript_root : Hash32
  pub new_transcript_root : Hash32
  pub old_namespace_count : ℕ
  pub new_namespace_count : ℕ
  pub ordered_item_root : Hash32
  pub execution_stream_root : Hash32
  pub ordered_item_count : ℕ
  pub priority_start : ℕ
  pub priority_end : ℕ
  pub c_bind : Hash32

pub record ExecutionPublicV3 : Type 0 where
  pub domain_hash : Hash32
  pub verifier_id : Hash32
  pub epoch : ℕ
  pub old_state_root : Hash32
  pub new_state_root : Hash32
  pub ordered_item_root : Hash32
  pub execution_stream_root : Hash32
  pub ordered_item_count : ℕ
  pub blob_c_bind : Hash32
  pub c_bind : Hash32

pub record SettlementHeadV3 : Type 0 where
  pub domain_hash : Hash32
  pub sequence_verifier_id : Hash32
  pub execution_verifier_id : Hash32
  pub epoch : ℕ
  pub global_cursor : ℕ
  pub namespace_count : ℕ
  pub transcript_root : Hash32
  pub lighter_state_root : Hash32
  pub priority_head : ℕ
  pub last_c_bind : Hash32

pub data JoinError : Type 0 where
  domain epoch sequence_verifier execution_verifier cursor_continuity : JoinError
  namespace_continuity transcript_continuity state_root_continuity : JoinError
  priority_continuity binding_mismatch blob_binding_mismatch : JoinError
  stream_mismatch count_mismatch : JoinError

-- `a != b` on two arrays.
abbrev pub differs : Hash32 → Hash32 → Bool
differs a b = not (bytes_eq a b)

-- The head that `advance_head` returns once every check has passed.
unfoldable pub next_head :
    SettlementHeadV3 → SequencePublicV3 → ExecutionPublicV3 → SettlementHeadV3
next_head head seq exec = record {
  domain_hash = head.domain_hash;
  sequence_verifier_id = head.sequence_verifier_id;
  execution_verifier_id = head.execution_verifier_id;
  epoch = head.epoch;
  global_cursor = seq.new_global_cursor;
  namespace_count = seq.new_namespace_count;
  transcript_root = seq.new_transcript_root;
  lighter_state_root = exec.new_state_root;
  priority_head = seq.priority_end;
  last_c_bind = seq.c_bind;
}

-- The checks of `advance_head`, in order. The difference of the two counts is taken after
-- `new ≥ old` is known, so it does not wrap.
unfoldable pub join_checks :
    SettlementHeadV3 → SequencePublicV3 → ExecutionPublicV3 → List (Bool × JoinError)
join_checks head seq exec =
    (differs seq.domain_hash head.domain_hash || differs exec.domain_hash head.domain_hash, domain)
    ∷ (seq.epoch != head.epoch || exec.epoch != head.epoch, epoch)
    ∷ (differs seq.verifier_id head.sequence_verifier_id, sequence_verifier)
    ∷ (differs exec.verifier_id head.execution_verifier_id, execution_verifier)
    ∷ (
      seq.old_global_cursor != head.global_cursor
          || leb seq.new_global_cursor seq.old_global_cursor,
      cursor_continuity,
    )
    ∷ (
      seq.old_namespace_count != head.namespace_count
          || ltb seq.new_namespace_count seq.old_namespace_count,
      namespace_continuity,
    )
    ∷ (differs seq.old_transcript_root head.transcript_root, transcript_continuity)
    ∷ (differs exec.old_state_root head.lighter_state_root, state_root_continuity)
    ∷ (
      seq.priority_start != head.priority_head || ltb seq.priority_end seq.priority_start,
      priority_continuity,
    )
    ∷ (differs seq.c_bind exec.c_bind, binding_mismatch)
    ∷ (differs exec.blob_c_bind exec.c_bind, blob_binding_mismatch)
    ∷ (
      differs seq.ordered_item_root exec.ordered_item_root
          || differs seq.execution_stream_root exec.execution_stream_root,
      stream_mismatch,
    )
    ∷ (
      seq.ordered_item_count != exec.ordered_item_count
          || seq.new_namespace_count - seq.old_namespace_count != seq.ordered_item_count,
      count_mismatch,
    )
    ∷ []

unfoldable pub advance_head :
    SettlementHeadV3 → SequencePublicV3 → ExecutionPublicV3 → Result JoinError SettlementHeadV3
unfolding join_checks next_head
advance_head head seq exec = guarded (join_checks head seq exec) (ok (next_head head seq exec))
