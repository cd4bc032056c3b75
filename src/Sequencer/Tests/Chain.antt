-- ===== src/Sequencer/Tests/Chain.antt =====
-- The theorems on records, the store, transcripts and fraud proofs (crates/sequencer/src/records.rs,
-- store.rs, transcript.rs, fraud.rs) at one sealed tick of the sequencer of Sequencer/Tests.
use lighter_integration.Base.{
  ◌↔◌, bytes_eq, ℕ, ◌≡◌, ◌⊎◌, refl, true, false, Hash32, List, [], ◌∷◌, ◌++◌, some, Option, ok,
  replicate, arith,
}
use lighter_integration.Sequencer.Envelope.{majors}
use lighter_integration.Sequencer.Identity.{verify_signed}
use lighter_integration.Sequencer.Records.{
  BatchEntry, Receipt, record_verify, leaf, digest_step, log_step,
}
use lighter_integration.Sequencer.Records.Merkle.{merkle_root, merkle_path, merkle_verify}
use lighter_integration.Sequencer.Records.Merkle.Path.{merkle_path_verifies}
use lighter_integration.Sequencer.Records.Merkle.Binding.{KeccakCollision, merkle_verify_binds}
use lighter_integration.Sequencer.Admission.{member}
use lighter_integration.Sequencer.Store.{
  Outcome, pending, gap, undecryptable, TapePosition, ChainStore, SealedTick, get_position,
  set_outcome, overdue_positions, cut_off, add_position, insert_position,
}
use lighter_integration.Sequencer.Store.Tape.{here, sets, Resolved, Resolved-is_final}
use lighter_integration.Sequencer.Store.Sorted.{Built, empty, added}
use lighter_integration.Sequencer.Store.Exact.{settled_tape, cut_off-settled}
use lighter_integration.Sequencer.Store.Cutoff.{overdue_positions-cut_off}
use lighter_integration.Sequencer.Transcript.{verify_span}
use lighter_integration.Sequencer.Transcript.Valid.{ValidTick, Backed, Span, verify_span-Span}
use lighter_integration.Sequencer.Transcript.Complete.{verify_span-iff-Span}
use lighter_integration.Sequencer.Transcript.Binding.{SameLog, log_commits}
use lighter_integration.Sequencer.Fraud.{
  ReorderProof, invalid_log_verify, omission_verify, reorder_verify,
}
use lighter_integration.Sequencer.Fraud.Honest.{honest_not_accused}
use lighter_integration.Sequencer.Fraud.Reorder.{reorder_takes_collision}
use lighter_integration.Sequencer.Tests.{zeros, constant, someone}

abbrev leaves : List Hash32
leaves = zeros ∷ replicate 32 1 ∷ replicate 32 2 ∷ []

merkle_path_verifies_example :
    (path : List Hash32) × (root : Hash32) × (merkle_path constant leaves 2 ≡ some path)
    × (merkle_root constant leaves ≡ some root)
    × (merkle_verify constant root (replicate 32 2) 2 path ≡ true)
merkle_path_verifies_example = merkle_path_verifies constant leaves 2 (replicate 32 2) refl

merkle_verify_binds_example : (zeros ≡ zeros) ⊎ KeccakCollision constant
unfolding merkle_verify bytes_eq
merkle_verify_binds_example =
    merkle_verify_binds constant (λ _. refl) zeros zeros zeros 0 (zeros ∷ []) (zeros ∷ []) refl refl
      refl (refl, tt) (refl, tt) refl refl

abbrev position : Outcome → TapePosition
position o = record { tick = 1; pos = 0; h = zeros; bucket = majors; delay_class = 0; outcome = o }

abbrev stored : Outcome → ChainStore
stored o = record { ticks = []; segments = []; tape = ((1, 0), position o) ∷ [] }

gap-Resolved : Resolved (gap undecryptable)
gap-Resolved m e = cc e

Resolved-is_final_example :
    get_position (1, 0) (set_outcome (stored (gap undecryptable)) 1 0 (pending 5)).0.tape
    ≡ some (position (gap undecryptable))
unfolding get_position
Resolved-is_final_example =
    Resolved-is_final (1, 0) (position (gap undecryptable)) gap-Resolved refl
      (sets 1 0 (pending 5) here)

overdue_positions-cut_off_example : overdue_positions (cut_off (stored (pending 10)) 15 5) 15 5 ≡ []
overdue_positions-cut_off_example = overdue_positions-cut_off 15 5 (stored (pending 10))

stored-Built : Built (stored (pending 10))
unfolding add_position insert_position
stored-Built = added (position (pending 10)) empty

cut_off-settled_example :
    (cut_off (stored (pending 10)) 12 5).tape ≡ settled_tape 12 5 (stored (pending 10)).tape
cut_off-settled_example = cut_off-settled 12 5 (stored (pending 10)) stored-Built

-- What matures later than the cutoff reaches stays pending.
still_pending : (cut_off (stored (pending 10)) 12 5).tape ≡ ((1, 0), position (pending 10)) ∷ []
unfolding cut_off
still_pending = refl

abbrev entry : BatchEntry
entry = record {
  tick = 1;
  pos = 0;
  h = zeros;
  bucket = majors;
  ticket_id = replicate 16 8;
  receipt_sig = replicate 64 1 ++ 27 ∷ [];
}

abbrev receipt : Receipt
receipt = record {
  epoch = 0;
  tick = 1;
  pos = 0;
  h = zeros;
  bucket = majors;
  window = record { start = 1; len = 4 };
  ticket_id = replicate 16 8;
  x_prev_hash = zeros;
  c_prev = zeros;
  d_prev = zeros;
  d = zeros;
  sig = replicate 64 1 ++ 27 ∷ [];
}

abbrev sealed : ℕ → List BatchEntry → List Receipt → SealedTick
sealed t entries receipts = record {
  record_of = record {
    epoch = 0;
    segment = 0;
    tick = t;
    x = 4;
    c_prev = zeros;
    c_t = zeros;
    batch_root = zeros;
    da_ref = zeros;
    sig = replicate 64 1 ++ 27 ∷ [];
  };
  entries = entries;
  receipts = receipts;
}

abbrev published : ℕ → Option SealedTick
published t = some (sealed 1 (entry ∷ []) (receipt ∷ []))

span_verifies : verify_span constant 0 someone zeros 1 1 published [] ≡ ok zeros
unfolding verify_span verify_signed bytes_eq
span_verifies = refl

verify_span-iff-Span_example :
    (verify_span constant 0 someone zeros 1 1 published [] ≡ ok zeros)
    ↔ Span constant 0 someone published 1 1 zeros zeros []
verify_span-iff-Span_example = verify_span-iff-Span constant 0 someone zeros zeros 1 1 published []

abbrev the_span : Span constant 0 someone published 1 1 zeros zeros []
the_span = verify_span-Span constant 0 someone zeros zeros 1 1 published [] span_verifies

log_commits_example :
    SameLog constant 0 someone published published 1 1 zeros zeros zeros [] [] the_span the_span
    ⊎ KeccakCollision constant
log_commits_example =
    log_commits constant 0 someone published published (λ _. refl) 1 1 zeros zeros zeros [] [] refl
      the_span the_span

backs : Backed constant 1 (entry ∷ []) receipt
unfolding digest_step
backs = record { entry = entry; at_position = refl; commitment = refl; digest = refl }

first_valid : ValidTick constant 0 someone 1 zeros [] (sealed 1 (entry ∷ []) (receipt ∷ []))
unfolding record_verify verify_signed bytes_eq merkle_root leaf member log_step
first_valid = record {
  at_tick = refl;
  in_epoch = refl;
  signed = refl;
  rooted = refl;
  positioned = (refl, refl, tt);
  fresh = (refl, tt);
  backed = (backs, tt);
  linked = refl;
  stepped = refl;
}

second_valid : ValidTick constant 0 someone 2 zeros [] (sealed 2 [] [])
unfolding record_verify verify_signed bytes_eq merkle_root log_step
second_valid = record {
  at_tick = refl;
  in_epoch = refl;
  signed = refl;
  rooted = refl;
  positioned = tt;
  fresh = tt;
  backed = tt;
  linked = refl;
  stepped = refl;
}

honest_not_accused_example :
    (invalid_log_verify constant
        (record {
          prev = (sealed 1 (entry ∷ []) (receipt ∷ [])).record_of;
          curr = (sealed 2 [] []).record_of;
        })
        someone
      ≡ false)
    × (omission_verify constant
          (record {
            receipt = receipt;
            record_of = (sealed 1 (entry ∷ []) (receipt ∷ [])).record_of;
            full_batch = entry ∷ [];
          })
          someone
        ≡ false)
honest_not_accused_example =
    honest_not_accused constant someone 0 1 zeros [] [] (sealed 1 (entry ∷ []) (receipt ∷ []))
      (sealed 2 [] []) receipt first_valid second_valid backs (omega arith)

abbrev accusation : ReorderProof
accusation = record {
  receipt = receipt;
  record_of = (sealed 1 (entry ∷ []) (receipt ∷ [])).record_of;
  conflicting_entry = record entry { h = replicate 32 1 };
  merkle_path = [];
}

accepts : reorder_verify constant accusation someone ≡ true
unfolding reorder_verify verify_signed bytes_eq
accepts = refl

reorder_takes_collision_example : KeccakCollision constant
unfolding merkle_path
reorder_takes_collision_example =
    reorder_takes_collision constant (λ _. refl) someone 0 1 zeros []
      (sealed 1 (entry ∷ []) (receipt ∷ [])) accusation [] first_valid backs refl refl refl tt refl
      refl accepts
