-- ===== src/Plugin/Sequence.antt =====
-- crates/continuum-lighter-plugin/src/sequence.rs: the objects of the sequence relation, and the
-- projection onto the public inputs of the settlement join. The relation is in Sequence/Verify.
pub mod Verify
pub mod Transition
pub mod Receipts
pub mod Items
pub mod Total
pub mod Sound
pub mod Roots
pub mod Settles
pub mod Pinned
use lighter_integration.Base.{ℕ, Bool, Bytes, Hash32, List}
use lighter_integration.Plugin.Types.{DerivedItemV3, ExecutionItemV3}
use lighter_integration.Plugin.Binding.{BindingInputsV3}
use lighter_integration.Plugin.Join.{SequencePublicV3}

pub record SequenceStateV3 : Type 0 where
  pub domain_hash : Hash32
  pub epoch : ℕ
  pub global_cursor : ℕ
  pub namespace_item_count : ℕ
  pub transcript_root : Hash32
  pub receipt_chain_root : Hash32
  pub frame_plan_root : Hash32
  pub da_commitment : Hash32
  pub config_hash : Hash32

pub record ReceiptV3 : Type 0 where
  pub epoch : ℕ
  pub global_cursor : ℕ
  pub tick : ℕ
  pub position : ℕ
  pub namespace_id : ℕ
  pub envelope_hash : Hash32
  pub previous_receipt_digest : Hash32
  pub receipt_digest : Hash32
  pub da_leaf : Hash32
  pub signature : Bytes

pub record ResolvedItemV3 : Type 0 where
  pub receipt_digest : Hash32
  pub derived : DerivedItemV3
  pub execution : ExecutionItemV3
  pub opening_commitment : Hash32

pub record SequenceTransitionPublicV3 : Type 0 where
  pub namespace_id : ℕ
  pub old_state : SequenceStateV3
  pub new_state : SequenceStateV3
  pub binding : BindingInputsV3
  pub c_bind : Hash32

pub record SequenceTransitionWitnessV3 : Type 0 where
  pub receipts : List ReceiptV3
  pub resolved_items : List ResolvedItemV3

-- `SequenceTransitionPublicV3::to_join_public`
unfoldable pub to_join_public : SequenceTransitionPublicV3 → Hash32 → SequencePublicV3
to_join_public public verifier_id = record {
  domain_hash = public.old_state.domain_hash;
  verifier_id = verifier_id;
  epoch = public.old_state.epoch;
  old_global_cursor = public.old_state.global_cursor;
  new_global_cursor = public.new_state.global_cursor;
  old_transcript_root = public.old_state.transcript_root;
  new_transcript_root = public.new_state.transcript_root;
  old_namespace_count = public.old_state.namespace_item_count;
  new_namespace_count = public.new_state.namespace_item_count;
  ordered_item_root = public.binding.ordered_item_root;
  execution_stream_root = public.binding.execution_stream_root;
  ordered_item_count = public.binding.ordered_item_count;
  priority_start = public.binding.priority_start;
  priority_end = public.binding.priority_end;
  c_bind = public.c_bind;
}

-- `TransitionAuthenticator`: the cryptographic checks that Continuum or the circuit supplies.
pub record TransitionAuthenticator : Type 0 where
  pub verify_receipt : ReceiptV3 → Bool
  pub verify_da : ReceiptV3 → Hash32 → Bool
  pub verify_resolution : ReceiptV3 → ResolvedItemV3 → Bool
  pub verify_transcript_transition : Hash32 → List ReceiptV3 → Hash32 → Bool
  pub verify_frame_commitments : SequenceTransitionWitnessV3 → SequenceTransitionPublicV3 → Bool

-- `panicked` is no variant of the source: it stands for a failed `expect`.
pub data SequenceTransitionError : Type 0 where
  domain epoch config empty_span cursor receipt_order receipt_chain : SequenceTransitionError
  duplicate_receipt duplicate_envelope invalid_receipt invalid_da : SequenceTransitionError
  missing_resolution duplicate_resolution orphan_resolution : SequenceTransitionError
  resolution_binding invalid_terminal_semantics invalid_execution_leaf : SequenceTransitionError
  transcript frame_commitment new_state ordered_item_root : SequenceTransitionError
  execution_stream_root binding panicked : SequenceTransitionError
