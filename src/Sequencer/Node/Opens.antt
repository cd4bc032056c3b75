-- ===== src/Sequencer/Node/Opens.antt =====
-- The way of a client's ciphertext to the tape: a wave that is solved and applied
-- (crates/sequencer/src/node.rs, crates/vdf/src/batch_solve.rs).
use lighter_integration.Base.{
  ℕ, zero, suc, ◌≡◌, refl, sym, ap, ◌∙◌, true, false, Bytes, List, [], ◌∷◌, Option, some, get_elem?,
  ok, if◌then◌else◌, Bool-cases, inl, inr, arith, ◌<◌,
}
use lighter_integration.Sequencer.Identity.{Primitives}
use lighter_integration.Sequencer.Envelope.{Intent}
use lighter_integration.Sequencer.Store.{
  ChainStore, TapePosition, Outcome, pending, opened, same_key, get_position, resolve, update,
  set_outcome,
}
use lighter_integration.Sequencer.Store.Tape.{Resolved, Sets, here, sets, Resolved-is_final}
use lighter_integration.Vdf.Posq.{Oracle, IsOracle}
use lighter_integration.Vdf.Hashing.{Crypto, IsAead}
use lighter_integration.Vdf.Tlk.{TlkParams, encrypt, open_ciphertext}
use lighter_integration.Vdf.Tlk.Setup.{SetUp}
use lighter_integration.Vdf.Wave.{WaveSolution}
use lighter_integration.Vdf.Wave.Complete.{wave_opens}
use lighter_integration.Sequencer.Node.{Node, NodeStatus, WaveItem}
use lighter_integration.Sequencer.Node.Waves.{
  count_outcome, is_valid_intent, parsed_outcome, decrypted_outcome, outcome_of, apply_wave,
  solved_wave, wave_binding, ciphertexts, solve_items,
}

-- Looking up and updating, by whether the first position has the key.
module _ (key k : ℕ × ℕ) (q : TapePosition) (tape : List ((ℕ × ℕ) × TapePosition)) where
  get_first : same_key k key ≡ true → get_position key ((k, q) ∷ tape) ≡ some q
  unfolding get_position
  get_first at = rw at refl

  get_later : same_key k key ≡ false → get_position key ((k, q) ∷ tape) ≡ get_position key tape
  unfolding get_position
  get_later at = rw at refl

  update_first :
      (new : Outcome)
      → same_key k key ≡ true
      → update key new ((k, q) ∷ tape) ≡ (k, resolve new q) ∷ update key new tape
  unfolding update
  update_first new at = rw at refl

  update_later :
      (new : Outcome)
      → same_key k key ≡ false
      → update key new ((k, q) ∷ tape) ≡ (k, q) ∷ update key new tape
  unfolding update
  update_later new at = rw at refl

update_other :
    (key k : ℕ × ℕ) (new : Outcome) (tape : List ((ℕ × ℕ) × TapePosition))
    → same_key key k ≡ false
    → get_position k (update key new tape) ≡ get_position k tape
unfolding get_position update
update_other key k new [] h = refl
update_other key k new ((j, q) ∷ tape) h = elim (Bool-cases (same_key j key)) [
  | inl e ↦
      let differs : same_key j k ≡ false = ground (arith, e, h) in
      rw (e, differs) (update_other key k new tape h)
  | inr e ↦ rw e (ap (λ l. if same_key j k then some q else l) (update_other key k new tape h))
]

resolve_pending :
    (new : Outcome) (p : TapePosition) (m : ℕ)
    → p.outcome ≡ pending m
    → resolve new p ≡ record p { outcome = new }
unfolding resolve
resolve_pending new p m e = rw e refl

update_self :
    (key : ℕ × ℕ) (new : Outcome) (tape : List ((ℕ × ℕ) × TapePosition)) (p : TapePosition) (m : ℕ)
    → get_position key tape ≡ some p
    → p.outcome ≡ pending m
    → get_position key (update key new tape) ≡ some (record p { outcome = new })
unfolding get_position
update_self key new [] p m h e = absurd (cc h)
update_self key new ((k, q) ∷ tape) p m h e = elim (Bool-cases (same_key k key)) [
  | inl at ↦
      let same : q ≡ p = cc (get_first key k q tape at, h) in
      ap (get_position key) (update_first key k q tape new at)
      ∙ get_first key k (resolve new q) (update key new tape) at
      ∙ ap (λ x. some (resolve new x)) same
      ∙ ap (λ x. some x) (resolve_pending new p m e)
  | inr at ↦
      ap (get_position key) (update_later key k q tape new at)
      ∙ get_later key k q (update key new tape) at
      ∙ update_self key new tape p m (sym (get_later key k q tape at) ∙ h) e
]

-- No item before the index i is for the position of the item.
abbrev pub IsFirst : List WaveItem → ℕ → WaveItem → Type 0
IsFirst items i item =
    (j : ℕ) (other : WaveItem)
    → j < i
    → get_elem? items j ≡ some other
    → same_key (other.tick, other.pos) (item.tick, item.pos) ≡ false

get_elem?-ciphertexts :
    (items : List WaveItem) (i : ℕ) (item : WaveItem)
    → get_elem? items i ≡ some item
    → get_elem? (ciphertexts items) i ≡ some item.ct
unfolding ciphertexts
get_elem?-ciphertexts [] i item h = absurd (cc h)
get_elem?-ciphertexts (x ∷ items) zero item h =
    (let same : x ≡ item = cc h in ap (λ (y : WaveItem). some y.ct) same)
get_elem?-ciphertexts (x ∷ items) (suc i) item h = get_elem?-ciphertexts items i item h

module _ (primitives : Primitives) (crypto : Crypto) (parse_intent : Bytes → Option Intent) where
  apply_wave-Sets :
      (items : List WaveItem) (ws : List ℕ) {start : ChainStore} (store : ChainStore)
      (status : NodeStatus)
      → Sets start store
      → Sets start (apply_wave primitives crypto parse_intent items ws (store, status)).0
  unfolding apply_wave
  apply_wave-Sets [] ws store status s = s
  apply_wave-Sets (item ∷ items) [] store status s = s
  apply_wave-Sets (item ∷ items) (w ∷ ws) store status s =
      let o = outcome_of primitives crypto parse_intent item w in
      apply_wave-Sets items ws (set_outcome store item.tick item.pos o).0 (count_outcome o status)
        (sets item.tick item.pos o s)

  -- The wave gives a pending position the outcome of its item.
  apply_wave-sets :
      (items : List WaveItem) (ws : List ℕ) (i : ℕ) (item : WaveItem) (w : ℕ) (store : ChainStore)
      (status : NodeStatus) (p : TapePosition) (m : ℕ)
      → get_elem? items i ≡ some item
      → get_elem? ws i ≡ some w
      → IsFirst items i item
      → get_position (item.tick, item.pos) store.tape ≡ some p
      → p.outcome ≡ pending m
      → Resolved (outcome_of primitives crypto parse_intent item w)
      → get_position
          (item.tick, item.pos)
          (apply_wave primitives crypto parse_intent items ws (store, status)).0.tape
        ≡ some (record p { outcome = outcome_of primitives crypto parse_intent item w })
  unfolding apply_wave set_outcome
  apply_wave-sets [] ws i item w store status p m at of first holds e r = absurd (cc at)
  apply_wave-sets (x ∷ items) [] i item w store status p m at of first holds e r = absurd (cc of)
  apply_wave-sets (x ∷ items) (v ∷ ws) zero item w store status p m at of first holds e r =
      let o = outcome_of primitives crypto parse_intent x v in
      let same_item : x ≡ item = cc at in
      let same_witness : v ≡ w = cc of in
      let start : get_position (x.tick, x.pos) store.tape ≡ some p =
        ap (λ (y : WaveItem). get_position (y.tick, y.pos) store.tape) same_item ∙ holds in
      let outcome : o ≡ outcome_of primitives crypto parse_intent item w =
        rw (same_item, same_witness) refl in
      let step : get_position (item.tick, item.pos) (set_outcome store x.tick x.pos o).0.tape
          ≡ some (record p { outcome = outcome_of primitives crypto parse_intent item w }) =
        ap
          (λ (y : WaveItem). get_position (y.tick, y.pos) (set_outcome store x.tick x.pos o).0.tape)
          (sym same_item)
        ∙ update_self (x.tick, x.pos) o store.tape p m start e
        ∙ ap (λ y. some (record p { outcome = y })) outcome in
      Resolved-is_final (item.tick, item.pos)
        (record p { outcome = outcome_of primitives crypto parse_intent item w }) r step
        (apply_wave-Sets items ws (set_outcome store x.tick x.pos o).0 (count_outcome o status)
          here)
  apply_wave-sets (x ∷ items) (v ∷ ws) (suc i) item w store status p m at of first holds e r =
      let o = outcome_of primitives crypto parse_intent x v in
      let differs = first 0 x (omega arith) refl in
      apply_wave-sets items ws i item w (set_outcome store x.tick x.pos o).0
        (count_outcome o status) p m at of
        (λ j other below is. first (suc j) other (omega (arith, below)) is)
        (update_other (x.tick, x.pos) (item.tick, item.pos) o store.tape differs ∙ holds) e r

  -- The outcome for a witness that opens the ciphertext.
  outcome_of-opened :
      (item : WaveItem) (w : ℕ) (plaintext : Bytes) (intent : Intent)
      → open_ciphertext crypto item.ct w item.aad ≡ ok plaintext
      → parse_intent plaintext ≡ some intent
      → is_valid_intent primitives crypto parse_intent item intent ≡ true
      → outcome_of primitives crypto parse_intent item w ≡ opened intent
  unfolding outcome_of decrypted_outcome parsed_outcome
  outcome_of-opened item w plaintext intent opens parses valid = rw (opens, parses, valid) refl

  -- With an oracle and a cipher that obey their laws and parameters that are set up: if encrypt made
  -- the ciphertext of an item, its plaintext reads as an intent that is valid for the item, the
  -- position of the item is pending and no earlier item of the wave has it, then a wave that is
  -- solved and applied gives the position the intent as opened, and it keeps it whatever set_outcome
  -- does afterwards.
  pub solved_wave-opens :
      (oracle : Oracle) (tlk : TlkParams) (epoch mature_tick class : ℕ) (items : List WaveItem)
      (sol : WaveSolution) (i : ℕ) (item : WaveItem) (plaintext seed : Bytes) (intent : Intent)
      (node : Node) (p : TapePosition) (m : ℕ) (later : ChainStore)
      → IsOracle oracle
      → IsAead crypto
      → SetUp tlk
      → solve_items crypto oracle tlk epoch (mature_tick, class) items ≡ ok sol
      → get_elem? items i ≡ some item
      → IsFirst items i item
      → encrypt oracle crypto tlk class plaintext item.aad seed ≡ ok item.ct
      → parse_intent plaintext ≡ some intent
      → is_valid_intent primitives crypto parse_intent item intent ≡ true
      → get_position (item.tick, item.pos) node.store.tape ≡ some p
      → p.outcome ≡ pending m
      → Sets
          (solved_wave primitives crypto parse_intent
            (mature_tick, class)
            items
            (ok sol)
            node).store
          later
      → get_position (item.tick, item.pos) later.tape ≡ some (record p { outcome = opened intent })
  unfolding solved_wave solve_items
  solved_wave-opens oracle tlk epoch mature_tick class items sol i item plaintext seed intent node p
        m later law aead ready solution at first encrypted parses valid holds waits reaches =
      let (w, of, opens) =
        wave_opens crypto oracle tlk class (wave_binding epoch mature_tick class)
          (ciphertexts items) sol i plaintext item.aad seed item.ct law aead ready solution
          (get_elem?-ciphertexts items i item at) encrypted in
      let outcome = outcome_of-opened item w plaintext intent opens parses valid in
      let final : (o : Outcome) → o ≡ opened intent → Resolved o = λ o e k is. cc (e, is) in
      let set =
        apply_wave-sets items sol.witnesses i item w node.store node.status p m at of first holds
          waits (final (outcome_of primitives crypto parse_intent item w) outcome) in
      Resolved-is_final (item.tick, item.pos) (record p { outcome = opened intent })
        (final (opened intent) refl) (set ∙ ap (λ o. some (record p { outcome = o })) outcome)
        reaches
