-- ===== src/Vdf/Tests/Locks.antt =====
-- The theorems on crates/vdf/src/tlk.rs and batch_solve.rs in the small group, with a toy hash and a
-- cipher that puts the key before the message, and on a wave of the node (crates/sequencer/src/node.rs).
use lighter_integration.Base.{
  Option, none, replicate, bytes_eq, ◌≡◌, refl, true, Bytes, List, [], ◌∷◌, ◌++◌, some, ok, length,
  drop, arith,
}
use lighter_integration.Sequencer.Identity.{verify_signed}
use lighter_integration.Sequencer.Envelope.{Ciphertext, Intent, majors}
use lighter_integration.Sequencer.Store.{TapePosition, pending, opened, get_position, new_store}
use lighter_integration.Sequencer.Store.Tape.{here}
use lighter_integration.Sequencer.Node.{Node, NodeConfig, WaveItem, new_node}
use lighter_integration.Sequencer.Node.Waves.{is_valid_intent, solved_wave, solve_items}
use lighter_integration.Sequencer.Node.Opens.{IsFirst, solved_wave-opens}
use lighter_integration.Sequencer.Tests.{constant, key, someone, small_params, zeros}
use lighter_integration.Vdf.Hashing.{Crypto, IsAead}
use lighter_integration.Vdf.Tlk.{
  TlkParams, Opening, setup, verify_setup, encrypt, solve, verify_opening, open_ciphertext,
}
use lighter_integration.Vdf.Tlk.Setup.{verify_setup-setup, setup-SetUp}
use lighter_integration.Vdf.Tlk.RoundTrip.{open-solve-encrypt}
use lighter_integration.Vdf.Wave.{WaveSolution, solve_wave, verify_wave}
use lighter_integration.Vdf.Wave.Complete.{verify_wave-solve_wave}
use lighter_integration.Vdf.Tests.{small_group, thirteen, thirteen-IsOracle}

abbrev toy : Crypto
toy = record {
  sha256 = λ b. 7 ∷ [];
  seal = λ key nonce message aad. some (key ++ message);
  unseal = λ key nonce body aad. some (drop (length key) body);
  to_bytes_be = λ n. n ∷ [];
  from_bytes_be = λ b. length b;
}

drop-length : (key message : Bytes) → drop (length key) (key ++ message) ≡ message
drop-length [] message = refl
drop-length (k ∷ key) message = drop-length key message

toy_unseal :
    (key message : Bytes) {body : Bytes}
    → some (key ++ message) ≡ some body
    → some (drop (length key) body) ≡ some message
toy_unseal key message e = cc (drop-length key message, e)

toy-IsAead : IsAead toy
toy-IsAead = record { unseal-seal = λ key nonce message aad e. toy_unseal key message e }

abbrev toy_params : TlkParams
toy_params = setup thirteen toy small_group (3 ∷ 5 ∷ [])

verify_setup-setup_example : verify_setup thirteen toy toy_params ≡ ok true
verify_setup-setup_example =
    verify_setup-setup thirteen thirteen-IsOracle small_group (omega arith) toy (3 ∷ 5 ∷ [])

abbrev sealed : Ciphertext
sealed = record { class = 1; u = 133; body = 7 ∷ 5 ∷ 6 ∷ [] }

encrypts : encrypt thirteen toy toy_params 1 (5 ∷ 6 ∷ []) [] [] ≡ ok sealed
unfolding encrypt setup
encrypts = refl

open-solve-encrypt_example :
    (opening : Opening) × (solve thirteen toy_params sealed ≡ ok opening)
    × (verify_opening thirteen toy_params sealed opening ≡ ok true)
    × (open_ciphertext toy sealed opening.w [] ≡ ok (5 ∷ 6 ∷ []))
open-solve-encrypt_example =
    open-solve-encrypt thirteen toy toy_params 1 (5 ∷ 6 ∷ []) [] [] sealed thirteen-IsOracle
      toy-IsAead (setup-SetUp thirteen thirteen-IsOracle small_group (omega arith) toy (3 ∷ 5 ∷ []))
      encrypts (omega arith)

abbrev wave : List Ciphertext
wave = sealed ∷ record { class = 1; u = 4; body = [] } ∷ []

abbrev solution : WaveSolution
solution = record {
  class = 1;
  t_squarings = 5;
  witnesses = 100 ∷ 16 ∷ [];
  aggregate_proof = record { y = 27; pi = 27; iterations = 5 };
}

solves : solve_wave toy thirteen toy_params 1 [] wave ≡ ok solution
unfolding solve_wave setup
solves = refl

verify_wave-solve_wave_example : verify_wave toy thirteen toy_params [] wave solution ≡ ok true
unfolding setup
verify_wave-solve_wave_example =
    verify_wave-solve_wave toy thirteen toy_params 1 [] wave solution thirteen-IsOracle
      (omega arith) solves

abbrev intent : Intent
intent = record {
  namespace = 1;
  account = someone;
  nonce = 0;
  expiry_tick = 9;
  payload = [];
  signature = replicate 64 1 ++ 27 ∷ [];
}

-- The plaintext of every ciphertext is the intent.
abbrev parse_intent : Bytes → Option Intent
parse_intent _ = some intent

abbrev items : List WaveItem
items =
    record { tick = 1; pos = 0; namespace = 1; ct = sealed; aad = [] }
    ∷ record {
      tick = 1;
      pos = 1;
      namespace = 1;
      ct = record { class = 1; u = 4; body = [] };
      aad = [];
    }
    ∷ []

abbrev waiting : TapePosition
waiting = record {
  tick = 1;
  pos = 0;
  h = zeros;
  bucket = majors;
  delay_class = 1;
  outcome = pending 4;
}

-- A node whose tape has the position of the first item.
abbrev waiting_node : Node
unfolding new_node
waiting_node =
    let config : NodeConfig = record {
      params = small_params 2;
      enforce_timeliness = true;
      induce_late_tick = none;
    } in
    record (new_node constant config key someone zeros) {
      store = record new_store { tape = ((1, 0), waiting) ∷ [] };
    }

solves_items : solve_items toy thirteen toy_params 0 (4, 1) items ≡ ok solution
unfolding solve_items solve_wave setup
solves_items = refl

first : IsFirst items 0 (record { tick = 1; pos = 0; namespace = 1; ct = sealed; aad = [] })
first j other below at = ground (arith, below)

valid :
    is_valid_intent constant toy parse_intent
      (record { tick = 1; pos = 0; namespace = 1; ct = sealed; aad = [] })
      intent
    ≡ true
unfolding is_valid_intent verify_signed bytes_eq
valid = refl

on_tape : get_position (1, 0) waiting_node.store.tape ≡ some waiting
unfolding get_position waiting_node
on_tape = refl

solved_wave-opens_example :
    get_position
      (1, 0)
      (solved_wave constant toy parse_intent (4, 1) items (ok solution) waiting_node).store.tape
    ≡ some (record waiting { outcome = opened intent })
solved_wave-opens_example =
    solved_wave-opens constant toy parse_intent thirteen toy_params 0 4 1 items solution 0
      (record { tick = 1; pos = 0; namespace = 1; ct = sealed; aad = [] }) (5 ∷ 6 ∷ []) [] intent
      waiting_node waiting 4
      (solved_wave constant toy parse_intent (4, 1) items (ok solution) waiting_node).store
      thirteen-IsOracle toy-IsAead
      (setup-SetUp thirteen thirteen-IsOracle small_group (omega arith) toy (3 ∷ 5 ∷ []))
      solves_items refl first encrypts refl valid on_tape refl here
