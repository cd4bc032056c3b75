-- ===== src/Sequencer/Node/Waves.antt =====
-- A solved wave on the tape: `apply_wave` of crates/sequencer/src/node.rs. bincode's reading of an intent
-- is the argument `parse_intent`.
use lighter_integration.Base.{
  wrap, ℕ, ◌+◌, Bool, true, false, ◌&&◌, Bytes, List, [], ◌∷◌, ◌++◌, Option, none, some, leb, ◌==◌,
  Result, ok, err, if◌then◌else◌, codes,
}
use lighter_integration.Plugin.Canonical.{to_be_bytes}
use lighter_integration.Sequencer.Identity.{Primitives}
use lighter_integration.Sequencer.Envelope.{Intent, Ciphertext, intent_verify}
use lighter_integration.Sequencer.Store.{
  ChainStore, Outcome, pending, opened, gap, undecryptable, invalid_intent, set_outcome,
}
use lighter_integration.Vdf.Posq.{VdfError, Oracle}
use lighter_integration.Vdf.Hashing.{Crypto}
use lighter_integration.Vdf.Tlk.{TlkParams, open_ciphertext}
use lighter_integration.Vdf.Wave.{WaveSolution, solve_wave}
use lighter_integration.Sequencer.Node.{Node, NodeStatus, WaveItem}

-- `is_gap`
abbrev pub is_gap : Outcome → Bool
is_gap (gap reason) = true
is_gap (opened intent) = false
is_gap (pending m) = false

-- the counter of the outcome
abbrev pub count_outcome : Outcome → NodeStatus → NodeStatus
count_outcome o status =
    if is_gap o
    then record status { gaps = wrap (status.gaps + 1) }
    else record status { opened = wrap (status.opened + 1) }

unfoldable pub wave_positions : List WaveItem → List (ℕ × ℕ)
wave_positions [] = []
wave_positions (i ∷ items) = (i.tick, i.pos) ∷ wave_positions items

module _ (primitives : Primitives) (crypto : Crypto) (parse_intent : Bytes → Option Intent) where
  -- the guard of the match
  unfoldable pub is_valid_intent : WaveItem → Intent → Bool
  unfolding intent_verify
  is_valid_intent item intent =
      intent_verify primitives intent
      && intent.namespace == item.namespace
      && leb item.tick intent.expiry_tick

  unfoldable pub parsed_outcome : WaveItem → Option Intent → Outcome
  unfolding is_valid_intent
  parsed_outcome item none = gap invalid_intent
  parsed_outcome item (some intent) =
      if is_valid_intent item intent then opened intent else gap invalid_intent

  unfoldable pub decrypted_outcome : WaveItem → Result VdfError Bytes → Outcome
  unfolding parsed_outcome
  decrypted_outcome item (err e) = gap undecryptable
  decrypted_outcome item (ok plaintext) = parsed_outcome item (parse_intent plaintext)

  -- the outcome of an item for its witness
  unfoldable pub outcome_of : WaveItem → ℕ → Outcome
  unfolding decrypted_outcome open_ciphertext
  outcome_of item w = decrypted_outcome item (open_ciphertext crypto item.ct w item.aad)

  -- `for (item, w) in items.iter().zip(..)`: the store and the counters
  unfoldable pub apply_wave :
      List WaveItem → List ℕ → ChainStore × NodeStatus → ChainStore × NodeStatus
  unfolding outcome_of set_outcome
  apply_wave [] ws s = s
  apply_wave (item ∷ items) [] s = s
  apply_wave (item ∷ items) (w ∷ ws) (store, status) =
      let o = outcome_of item w in
      apply_wave items ws ((set_outcome store item.tick item.pos o).0, count_outcome o status)

  -- The wave is applied and kept, if it was solved.
  unfoldable pub solved_wave : ℕ × ℕ → List WaveItem → Result Bytes WaveSolution → Node → Node
  unfolding apply_wave wave_positions
  solved_wave key items (err e) node = node
  solved_wave (mature_tick, class) items (ok sol) node =
      let (store, status) = apply_wave items sol.witnesses (node.store, node.status) in
      record node {
        store = store;
        status = status;
        stored_waves =
            node.stored_waves
            ++ record {
              mature_tick = mature_tick;
              class = class;
              positions = wave_positions items;
              solution = sol;
            }
              ∷ [];
      }

-- `wave_binding`
unfoldable pub wave_binding : ℕ → ℕ → ℕ → Bytes
wave_binding epoch mature_tick class =
    codes "posq-wave" ++ (to_be_bytes 8 epoch ++ (to_be_bytes 8 mature_tick ++ class ∷ []))

-- `items.iter().map(|i| i.ct.clone())`
unfoldable pub ciphertexts : List WaveItem → List Ciphertext
ciphertexts [] = []
ciphertexts (i ∷ items) = i.ct ∷ ciphertexts items

-- The solver thread of a wave, before `map_err` makes a text of an error for the event.
unfoldable pub solve_items :
    Crypto → Oracle → TlkParams → ℕ → ℕ × ℕ → List WaveItem → Result VdfError WaveSolution
unfolding solve_wave wave_binding ciphertexts
solve_items crypto oracle tlk epoch (mature_tick, class) items =
    solve_wave crypto oracle tlk class (wave_binding epoch mature_tick class) (ciphertexts items)
