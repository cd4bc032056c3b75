-- ===== src/Plugin/Join/Relation.antt =====
-- The relation of `advance_head` (crates/continuum-lighter-plugin/src/join.rs), stated as equations.
use lighter_integration.Base.{
  ◌+◌, ◌≤◌, ◌<◌, ◌≡◌, refl, ◌↔◌, bytes_eq_iff, ok, arith, Hash32, Passes, guarded-eq-ok,
  guarded_pass, false, ◌||◌,
}
use lighter_integration.Plugin.Join.{
  SettlementHeadV3, SequencePublicV3, ExecutionPublicV3, advance_head, next_head, join_checks,
  differs,
}

-- What the two proofs and the head must agree on for the batch to settle.
pub record Joins (head : SettlementHeadV3) (seq : SequencePublicV3) (exec : ExecutionPublicV3)
    : Type 0 where
  pub seq_domain : seq.domain_hash ≡ head.domain_hash
  pub exec_domain : exec.domain_hash ≡ head.domain_hash
  pub seq_epoch : seq.epoch ≡ head.epoch
  pub exec_epoch : exec.epoch ≡ head.epoch
  pub seq_verifier : seq.verifier_id ≡ head.sequence_verifier_id
  pub exec_verifier : exec.verifier_id ≡ head.execution_verifier_id
  pub cursor : seq.old_global_cursor ≡ head.global_cursor
  pub cursor_grows : seq.old_global_cursor < seq.new_global_cursor
  pub namespace : seq.old_namespace_count ≡ head.namespace_count
  pub transcript : seq.old_transcript_root ≡ head.transcript_root
  pub state_root : exec.old_state_root ≡ head.lighter_state_root
  pub priority : seq.priority_start ≡ head.priority_head
  pub priority_grows : seq.priority_start ≤ seq.priority_end
  pub binding : seq.c_bind ≡ exec.c_bind
  pub blob : exec.blob_c_bind ≡ exec.c_bind
  pub items : seq.ordered_item_root ≡ exec.ordered_item_root
  pub stream : seq.execution_stream_root ≡ exec.execution_stream_root
  pub count : seq.ordered_item_count ≡ exec.ordered_item_count
  pub count_exact : seq.old_namespace_count + seq.ordered_item_count ≡ seq.new_namespace_count

differs-eq : (a b : Hash32) → differs a b ≡ false → a ≡ b
differs-eq a b h = ground (arith, bytes_eq_iff a b)

differs_either : (a b c d : Hash32) → (differs a b || differs c d) ≡ false → (a ≡ b) × (c ≡ d)
differs_either a b c d h = ground (arith, bytes_eq_iff a b, bytes_eq_iff c d)

Passes-Joins :
    (head : SettlementHeadV3) (seq : SequencePublicV3) (exec : ExecutionPublicV3)
    → Passes (join_checks head seq exec)
    → Joins head seq exec
unfolding join_checks
Passes-Joins head seq exec
      (c0, (c1, (c2, (c3, (c4, (c5, (c6, (c7, (c8, (c9, (c10, (c11, (c12, _))))))))))))) =
    let (sd, ed) = differs_either _ _ _ _ c0 in
    let (ir, sr) = differs_either _ _ _ _ c11 in
    record {
      seq_domain = sd;
      exec_domain = ed;
      seq_epoch = ground arith;
      exec_epoch = ground arith;
      seq_verifier = differs-eq _ _ c2;
      exec_verifier = differs-eq _ _ c3;
      cursor = ground arith;
      cursor_grows = ground arith;
      namespace = ground arith;
      transcript = differs-eq _ _ c6;
      state_root = differs-eq _ _ c7;
      priority = ground arith;
      priority_grows = ground arith;
      binding = differs-eq _ _ c9;
      blob = differs-eq _ _ c10;
      items = ir;
      stream = sr;
      count = ground arith;
      count_exact = ground arith;
    }

same-differs : (a b : Hash32) → a ≡ b → differs a b ≡ false
same-differs a b e = ground (arith, bytes_eq_iff a b)

same_either : (a b c d : Hash32) → a ≡ b → c ≡ d → (differs a b || differs c d) ≡ false
same_either a b c d e f = ground (arith, bytes_eq_iff a b, bytes_eq_iff c d)

Joins-Passes :
    (head : SettlementHeadV3) (seq : SequencePublicV3) (exec : ExecutionPublicV3)
    → Joins head seq exec
    → Passes (join_checks head seq exec)
unfolding join_checks
Joins-Passes head seq exec j = (
  same_either _ _ _ _ j.seq_domain j.exec_domain,
  (
    ground arith,
    (
      same-differs _ _ j.seq_verifier,
      (
        same-differs _ _ j.exec_verifier,
        (
          ground arith,
          (
            ground arith,
            (
              same-differs _ _ j.transcript,
              (
                same-differs _ _ j.state_root,
                (
                  ground arith,
                  (
                    same-differs _ _ j.binding,
                    (
                      same-differs _ _ j.blob,
                      (same_either _ _ _ _ j.items j.stream, (ground arith, tt)),
                    ),
                  ),
                ),
              ),
            ),
          ),
        ),
      ),
    ),
  ),
)

-- `advance_head` returns a head exactly when the public inputs join, and then the next head.
pub advance_head-iff-Joins :
    (head : SettlementHeadV3) (seq : SequencePublicV3) (exec : ExecutionPublicV3)
    (h : SettlementHeadV3)
    → (advance_head head seq exec ≡ ok h) ↔ (Joins head seq exec × (h ≡ next_head head seq exec))
unfolding advance_head
advance_head-iff-Joins head seq exec h = (
  (λ e.
      let (p, last) = guarded-eq-ok (join_checks head seq exec) _ e in
      (Passes-Joins head seq exec p, cc)),
  (λ (j, e).
      rw (guarded_pass (join_checks head seq exec) _ (Joins-Passes head seq exec j), e) refl),
)
