-- ===== src/Plugin/Binding/Inputs.antt =====
-- `BindingInputsV3` and `C_bind` (crates/continuum-lighter-plugin/src/binding.rs): the preimage and its
-- fields.
use lighter_integration.Base.{◌^◌, ◌<◌, ◌≡◌, sym, ◌∙◌, ◌⊎◌, inl, inr, length, [], ◌∷◌}
use lighter_integration.Plugin.Canonical.Reading.{put_fixed-injective, put_u64-injective}
use lighter_integration.Plugin.Hash.{LighterNativeHash}
use lighter_integration.Plugin.Hash.Chain.{Calls, Collision, same_digest}
use lighter_integration.Plugin.Binding.{
  BindingInputsV3, binding_bytes, binding_domain, compute_c_bind,
}

-- The ranges that the field types `[u8; 32]` and `u64` give.
pub record IsBindingInputs (b : BindingInputsV3) : Type 0 where
  pub domain_hash : length b.domain_hash ≡ 32
  pub epoch : b.epoch < 2 ^ 64
  pub old_global_cursor : b.old_global_cursor < 2 ^ 64
  pub new_global_cursor : b.new_global_cursor < 2 ^ 64
  pub old_transcript_root : length b.old_transcript_root ≡ 32
  pub new_transcript_root : length b.new_transcript_root ≡ 32
  pub frame_plan_root : length b.frame_plan_root ≡ 32
  pub ordered_item_root : length b.ordered_item_root ≡ 32
  pub execution_stream_root : length b.execution_stream_root ≡ 32
  pub ordered_item_count : b.ordered_item_count < 2 ^ 64
  pub priority_start : b.priority_start < 2 ^ 64
  pub priority_end : b.priority_end < 2 ^ 64
  pub priority_root : length b.priority_root ≡ 32
  pub oracle_snapshot_root : length b.oracle_snapshot_root ≡ 32
  pub protocol_event_root : length b.protocol_event_root ≡ 32
  pub l1_origin_hash : length b.l1_origin_hash ≡ 32
  pub policy_hash : length b.policy_hash ≡ 32
  pub decryption_module_id : length b.decryption_module_id ≡ 32

binding_bytes-injective :
    (a b : BindingInputsV3)
    → IsBindingInputs a
    → IsBindingInputs b
    → binding_bytes a ≡ binding_bytes b
    → a ≡ b
unfolding binding_bytes
binding_bytes-injective a b u v e0 =
    let (e1, x0) =
      put_fixed-injective _ _ _ _ (u.decryption_module_id ∙ sym v.decryption_module_id) e0 in
    let (e2, x1) = put_fixed-injective _ _ _ _ (u.policy_hash ∙ sym v.policy_hash) e1 in
    let (e3, x2) = put_fixed-injective _ _ _ _ (u.l1_origin_hash ∙ sym v.l1_origin_hash) e2 in
    let (e4, x3) =
      put_fixed-injective _ _ _ _ (u.protocol_event_root ∙ sym v.protocol_event_root) e3 in
    let (e5, x4) =
      put_fixed-injective _ _ _ _ (u.oracle_snapshot_root ∙ sym v.oracle_snapshot_root) e4 in
    let (e6, x5) = put_fixed-injective _ _ _ _ (u.priority_root ∙ sym v.priority_root) e5 in
    let (e7, x6) = put_u64-injective _ _ _ _ u.priority_end v.priority_end e6 in
    let (e8, x7) = put_u64-injective _ _ _ _ u.priority_start v.priority_start e7 in
    let (e9, x8) = put_u64-injective _ _ _ _ u.ordered_item_count v.ordered_item_count e8 in
    let (e10, x9) =
      put_fixed-injective _ _ _ _ (u.execution_stream_root ∙ sym v.execution_stream_root) e9 in
    let (e11, x10) =
      put_fixed-injective _ _ _ _ (u.ordered_item_root ∙ sym v.ordered_item_root) e10 in
    let (e12, x11) = put_fixed-injective _ _ _ _ (u.frame_plan_root ∙ sym v.frame_plan_root) e11 in
    let (e13, x12) =
      put_fixed-injective _ _ _ _ (u.new_transcript_root ∙ sym v.new_transcript_root) e12 in
    let (e14, x13) =
      put_fixed-injective _ _ _ _ (u.old_transcript_root ∙ sym v.old_transcript_root) e13 in
    let (e15, x14) = put_u64-injective _ _ _ _ u.new_global_cursor v.new_global_cursor e14 in
    let (e16, x15) = put_u64-injective _ _ _ _ u.old_global_cursor v.old_global_cursor e15 in
    let (e17, x16) = put_u64-injective _ _ _ _ u.epoch v.epoch e16 in
    let (e18, x17) = put_fixed-injective _ _ _ _ (u.domain_hash ∙ sym v.domain_hash) e17 in
    λ i. record {
      domain_hash = x17 i;
      epoch = x16 i;
      old_global_cursor = x15 i;
      new_global_cursor = x14 i;
      old_transcript_root = x13 i;
      new_transcript_root = x12 i;
      frame_plan_root = x11 i;
      ordered_item_root = x10 i;
      execution_stream_root = x9 i;
      ordered_item_count = x8 i;
      priority_start = x7 i;
      priority_end = x6 i;
      priority_root = x5 i;
      oracle_snapshot_root = x4 i;
      protocol_event_root = x3 i;
      l1_origin_hash = x2 i;
      policy_hash = x1 i;
      decryption_module_id = x0 i;
    }

-- The call of the hash in compute_c_bind.
abbrev pub c_bind_calls : BindingInputsV3 → Calls
c_bind_calls b = (binding_domain, binding_bytes b) ∷ []

-- Equal C_binds of binding inputs in range mean equal binding inputs, or the two calls of the hash
-- that make them collide.
pub c_bind_commits :
    (hasher : LighterNativeHash) (a b : BindingInputsV3)
    → IsBindingInputs a
    → IsBindingInputs b
    → compute_c_bind hasher a ≡ compute_c_bind hasher b
    → (a ≡ b) ⊎ Collision hasher.hash (c_bind_calls a) (c_bind_calls b)
unfolding compute_c_bind
c_bind_commits hasher a b u v e =
    elim (same_digest binding_domain (binding_bytes a) (binding_bytes b) e) [
      | inl same ↦ inl (binding_bytes-injective a b u v same)
      | inr c ↦ inr c
    ]
