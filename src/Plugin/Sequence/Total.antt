-- ===== src/Plugin/Sequence/Total.antt =====
-- The panics of `verify_sequence_transition` (crates/continuum-lighter-plugin/src/sequence.rs): its two
-- `expect`s.
use lighter_integration.Base.{
  ℕ, ◌+◌, ◌≡◌, ◌≢◌, refl, Bool, true, false, Hash32, List, [], ◌∷◌, length, All, Option, none, some,
  Result, ok, err, guarded, ok_or, ◌>>=◌, ◌>>◌, arith,
}
use lighter_integration.Plugin.Hash.{LighterNativeHash}
use lighter_integration.Plugin.Binding.Commitment.{compute_ordered_item_root-eq-chain}
use lighter_integration.Plugin.Sequence.{
  ReceiptV3, ResolvedItemV3, SequenceTransitionPublicV3, SequenceTransitionWitnessV3,
  TransitionAuthenticator, SequenceTransitionError, panicked,
}
use lighter_integration.Plugin.Sequence.Verify.{
  ReceiptScan, index_checks, cursor_checks, receipt_checks, scan_receipt, scan_receipts,
  index_resolutions, item_checks, derive_items, checked_add, find_resolution, protected_receipts,
}
use lighter_integration.Plugin.Sequence.Transition.{
  last, state_checks, count_checks, new_state_checks, commitment_checks, root_checks, verify_roots,
  derive, verify_sequence_transition, initial_scan,
}
use lighter_integration.Plugin.Sequence.Sound.{derive-Derived}

module _ {A : Type 0} where
  abbrev Calm : Result SequenceTransitionError A → Type 0
  Calm m = m ≢ err panicked

  Calm-ok : (a : A) → Calm (ok a)
  Calm-ok a e = cc e

  Calm-guarded :
      (checks : List (Bool × SequenceTransitionError)) (k : Result SequenceTransitionError A)
      → All (λ c. c.1 ≢ panicked) checks
      → Calm k
      → Calm (guarded checks k)
  Calm-guarded [] k h calm = calm
  Calm-guarded ((true, e) ∷ checks) k h calm = λ p. h.0 (cc p)
  Calm-guarded ((false, e) ∷ checks) k h calm = Calm-guarded checks k h.1 calm

module _ {A B : Type 0} where
  Calm-bind :
      (m : Result SequenceTransitionError A) (f : A → Result SequenceTransitionError B)
      → Calm m
      → ((a : A) → m ≡ ok a → Calm (f a))
      → Calm (m >>= f)
  Calm-bind (ok a) f calm rest = rest a refl
  Calm-bind (err e) f calm rest = λ p. calm (cc p)

  Calm-some :
      (o : Option A) (e : SequenceTransitionError) (f : A → Result SequenceTransitionError B)
      → e ≢ panicked
      → ((a : A) → Calm (f a))
      → Calm (ok_or o e >>= f)
  Calm-some none e f ne rest = λ p. ne (cc p)
  Calm-some (some a) e f ne rest = rest a

module _ {B : Type 0} where
  Calm-pass :
      (checks : List (Bool × SequenceTransitionError)) (k : Result SequenceTransitionError B)
      → All (λ c. c.1 ≢ panicked) checks
      → Calm k
      → Calm (guarded checks (ok (tt {0})) >> k)
  Calm-pass checks k h calm =
      Calm-bind (guarded checks (ok (tt {0}))) (λ _. k)
        (Calm-guarded checks (ok (tt {0})) h (Calm-ok (tt {0}))) (λ _ _. calm)

last_some : (rs : List ReceiptV3) → rs ≢ [] → last rs ≢ none
last_some [] h = λ e. h refl
last_some (r ∷ []) h = λ e. cc e
last_some (r ∷ s ∷ rs) h = last_some (s ∷ rs) (λ e. cc e)

Calm-last :
    {B : Type 0} (o : Option ReceiptV3) (f : ReceiptV3 → Result SequenceTransitionError B)
    → o ≢ none
    → ((r : ReceiptV3) → Calm (f r))
    → Calm (ok_or o panicked >>= f)
Calm-last none f ne rest = absurd (ne refl)
Calm-last (some r) f ne rest = rest r

module _ (hasher : LighterNativeHash) (authenticator : TransitionAuthenticator)
    (public : SequenceTransitionPublicV3) where
  Calm-scan :
      (s : ReceiptScan) (rs : List ReceiptV3) → Calm (scan_receipts authenticator public s rs)
  unfolding scan_receipts scan_receipt cursor_checks receipt_checks
  Calm-scan s [] = Calm-ok s
  Calm-scan s (r ∷ rs) =
      Calm-bind (scan_receipt authenticator public s r)
        (λ next. scan_receipts authenticator public next rs)
        (Calm-pass (cursor_checks authenticator public s r) _ (ground arith) (
          Calm-some (checked_add s.expected_cursor 1) _ _ (λ e. cc e)
            λ n.
              Calm-guarded (receipt_checks authenticator public s r) _ (ground arith) (Calm-ok _)))
        (λ next _. Calm-scan next rs)

  Calm-index :
      (keys : List Hash32) (m items : List ResolvedItemV3) → Calm (index_resolutions keys m items)
  unfolding index_resolutions index_checks
  Calm-index keys m [] = Calm-ok m
  Calm-index keys m (item ∷ items) =
      Calm-guarded (index_checks keys m item) (index_resolutions keys (item ∷ m) items)
        (ground arith) (Calm-index keys (item ∷ m) items)

  Calm-derive :
      (m : List ResolvedItemV3) (i : ℕ) (rs : List ReceiptV3)
      → Calm (derive_items authenticator public m i rs)
  unfolding derive_items item_checks
  Calm-derive m i [] = Calm-ok []
  Calm-derive m i (r ∷ rs) =
      Calm-some (find_resolution r.receipt_digest m) _ _ (λ e. cc e)
        λ item. Calm-pass (item_checks authenticator public i r item) _ (ground arith) (
          Calm-bind (derive_items authenticator public m (i + 1) rs) _ (Calm-derive m (i + 1) rs)
            (λ rest _. Calm-ok _))

  module _ (witness : SequenceTransitionWitnessV3) where
    Calm-derivation : Calm (derive hasher authenticator public witness)
    unfolding derive state_checks count_checks
    Calm-derivation =
        Calm-pass (state_checks hasher authenticator public witness) _ (ground arith) (
          Calm-some (checked_add public.old_state.global_cursor 1) _ _ (λ e. cc e)
            λ first.
              Calm-bind
                (scan_receipts authenticator public (initial_scan public first) witness.receipts) _
                (Calm-scan (initial_scan public first) witness.receipts)
                λ scan _.
                  Calm-bind (index_resolutions scan.seen_receipts [] witness.resolved_items) _
                    (Calm-index scan.seen_receipts [] witness.resolved_items)
                    λ m _.
                      Calm-bind
                        (derive_items authenticator public m 0
                          (protected_receipts public.namespace_id witness.receipts))
                        _ (Calm-derive m 0 _)
                        λ items _.
                          Calm-pass
                            (count_checks m
                              (protected_receipts public.namespace_id witness.receipts))
                            _ (ground arith) (Calm-ok _))

    Calm-roots :
        (digest : Hash32) (items : List ResolvedItemV3)
        → witness.receipts ≢ []
        → Calm (verify_roots hasher authenticator public witness digest items)
    unfolding verify_roots commitment_checks root_checks new_state_checks
    Calm-roots digest items ne =
        Calm-pass (commitment_checks hasher authenticator public witness) _ (ground arith) (
          Calm-last (last witness.receipts) _ (last_some witness.receipts ne) λ r.
            Calm-some (checked_add public.old_state.namespace_item_count (length items)) _ _
              (λ e. cc e)
              λ count.
                Calm-pass (new_state_checks public r.global_cursor count digest) _ (ground arith) (
                  rw (compute_ordered_item_root-eq-chain hasher) (
                    Calm-guarded (root_checks hasher authenticator public items _) _ (ground arith)
                      (Calm-ok tt))))

  -- For every hasher, authenticator, public input and witness the sequence verifier returns without
  -- a panic: its expects never fail.
  pub verify_sequence_transition_total :
      (witness : SequenceTransitionWitnessV3)
      → verify_sequence_transition hasher authenticator public witness ≢ err panicked
  unfolding verify_sequence_transition
  verify_sequence_transition_total witness =
      Calm-bind (derive hasher authenticator public witness) _ (Calm-derivation witness) λ result e.
        Calm-roots witness result.0 result.1
          (derive-Derived hasher authenticator public witness result.0 result.1 e).nonempty
