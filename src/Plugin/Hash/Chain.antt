-- ===== src/Plugin/Hash/Chain.antt =====
-- Hash chains over a list of items, and the calls of the hash that they make. The two accumulators of
-- crates/continuum-lighter-plugin (accumulator.rs, binding.rs) are such chains.
use mathlib.Core.Path.{ap₂, subst}
use native.Mathlib.Decide.{dec_lt}
use lighter_integration.Base.{
  ℕ, suc, ◌+◌, ◌^◌, ◌<◌, All-drop, length-append, ◌≡◌, ◌≢◌, refl, sym, ap, ◌∙◌, ◌⊎◌, inl, inr,
  Bytes, Hash32, List, [], ◌∷◌, ◌++◌, All, length, arith, bytes_dec,
}
use lighter_integration.Plugin.Hash.{IsHash32}

-- Inputs of a hash: a domain and a payload.
abbrev pub Calls : Type 0
Calls = List (Bytes × Bytes)

abbrev pub Made : Bytes × Bytes → Calls → Type 0
Made call [] = ⊥
Made call (c ∷ calls) = (call ≡ c) ⊎ Made call calls

-- Among the calls of one run and the calls of another, two different ones with one digest.
pub record Collision (hash : Bytes → Bytes → Hash32) (calls calls' : Calls) : Type 0 where
  pub call : Bytes × Bytes
  pub call' : Bytes × Bytes
  pub made : Made call calls
  pub made' : Made call' calls'
  pub differ : (call.0 ≢ call'.0) ⊎ (call.1 ≢ call'.1)
  pub same : hash call.0 call.1 ≡ hash call'.0 call'.1

module _ {hash : Bytes → Bytes → Hash32} where
  pub Collision-later :
      {calls calls' : Calls} (c c' : Bytes × Bytes)
      → Collision hash calls calls'
      → Collision hash (c ∷ calls) (c' ∷ calls')
  Collision-later c c' k = record {
    call = k.call;
    call' = k.call';
    made = inr k.made;
    made' = inr k.made';
    differ = k.differ;
    same = k.same;
  }

  -- A collision of two first calls.
  pub Collision-first :
      {c c' : Bytes × Bytes} {calls calls' : Calls}
      → Collision hash (c ∷ []) (c' ∷ [])
      → Collision hash (c ∷ calls) (c' ∷ calls')
  Collision-first k = record {
    call = k.call;
    call' = k.call';
    made = elim k.made [ inl e ↦ inl e | inr none ↦ absurd none ];
    made' = elim k.made' [ inl e ↦ inl e | inr none ↦ absurd none ];
    differ = k.differ;
    same = k.same;
  }

  Collision-sym : {calls calls' : Calls} → Collision hash calls calls' → Collision hash calls' calls
  Collision-sym k = record {
    call = k.call';
    call' = k.call;
    made = k.made';
    made' = k.made;
    differ = elim k.differ [ inl d ↦ inl (λ e. d (sym e)) | inr d ↦ inr (λ e. d (sym e)) ];
    same = sym k.same;
  }

  -- Two runs whose first calls have one digest made the same first call, or collide there.
  pub same_digest :
      {calls calls' : Calls} (domain p q : Bytes)
      → hash domain p ≡ hash domain q
      → (p ≡ q) ⊎ Collision hash ((domain, p) ∷ calls) ((domain, q) ∷ calls')
  same_digest domain p q e = elim (bytes_dec p q) [
    | inl same ↦ inl same
    | inr other ↦ inr (record {
      call = (domain, p);
      call' = (domain, q);
      made = inl refl;
      made' = inl refl;
      differ = inr other;
      same = e;
    })
  ]

-- What a chain over items of type `A` needs: the step's preimage, an invariant of the items, and that
-- the preimage determines the digest before, and the item.
pub record StepEncoding {A : Type 0} (payload : ℕ → Hash32 → A → Bytes) (IsItem : A → Type 0)
    : Type 0 where
  pub injective :
      (i j : ℕ) (d d' : Hash32) (x y : A)
      → i < 2 ^ 64
      → j < 2 ^ 64
      → IsHash32 d
      → IsHash32 d'
      → IsItem x
      → IsItem y
      → payload i d x ≡ payload j d' y
      → (d ≡ d') × (x ≡ y)

-- The end of `ys` that has `n` items, and a first item before it.
split_end :
    {A : Type 0} (n : ℕ) (ys : List A)
    → n < length ys
    → (y : A) × (front : List A) × (back : List A) × (ys ≡ y ∷ (front ++ back)) × (length back ≡ n)
split_end n [] h = absurd (omega arith)
split_end n (y ∷ ys) h = elim (dec_lt n (length ys)) [
  | yes p ↦
      let (z, front, back, e, l) = split_end n ys p in (y, z ∷ front, back, ap (λ t. y ∷ t) e, l)
  | no p ↦ (y, [], ys, refl, omega arith)
]

module _ {A : Type 0} (hash : Bytes → Bytes → Hash32) (step : Bytes)
    (payload : ℕ → Hash32 → A → Bytes) where
  -- The digest after the items, the first of which has index `i`.
  unfoldable pub chain : ℕ → Hash32 → List A → Hash32
  chain i d [] = d
  chain i d (x ∷ xs) = chain (i + 1) (hash step (payload i d x)) xs

  chain-append :
      (i : ℕ) (d : Hash32) (xs ys : List A)
      → chain i d (xs ++ ys) ≡ chain (i + length xs) (chain i d xs) ys
  unfolding chain
  chain-append i d [] ys = ap (λ (n : ℕ). chain n d ys) (omega arith)
  chain-append i d (x ∷ xs) ys =
      chain-append (i + 1) (hash step (payload i d x)) xs ys
      ∙ ap (λ (n : ℕ). chain n (chain (i + 1) (hash step (payload i d x)) xs) ys) (omega arith)

  -- The calls of the hash that the chain makes.
  unfoldable pub chain_calls : ℕ → Hash32 → List A → Calls
  chain_calls i d [] = []
  chain_calls i d (x ∷ xs) =
      (step, payload i d x) ∷ chain_calls (i + 1) (hash step (payload i d x)) xs

  -- All calls of a chain whose first digest is that of a seed.
  abbrev pub run_calls : Bytes → Bytes → List A → Calls
  run_calls init seed xs = (init, seed) ∷ chain_calls 0 (hash init seed) xs

  Made-back :
      (i : ℕ) (d : Hash32) (xs ys : List A) (c : Bytes × Bytes)
      → Made c (chain_calls (i + length xs) (chain i d xs) ys)
      → Made c (chain_calls i d (xs ++ ys))
  unfolding chain chain_calls
  Made-back i d [] ys c m = subst (λ n. Made c (chain_calls n d ys)) (omega arith) m
  Made-back i d (x ∷ xs) ys c m =
      let next = hash step (payload i d x) in
      inr (
        Made-back (i + 1) next xs ys c
          (subst (λ n. Made c (chain_calls n (chain (i + 1) next xs) ys)) (omega arith) m))

  Made-front :
      (i : ℕ) (d : Hash32) (xs ys : List A) (c : Bytes × Bytes)
      → Made c (chain_calls i d xs)
      → Made c (chain_calls i d (xs ++ ys))
  unfolding chain_calls
  Made-front i d [] ys c m = absurd m
  Made-front i d (x ∷ xs) ys c (inl e) = inl e
  Made-front i d (x ∷ xs) ys c (inr m) =
      inr (Made-front (i + 1) (hash step (payload i d x)) xs ys c m)

  -- A chain of at least one item ends in a digest of the step's domain.
  chain_step :
      (i : ℕ) (d : Hash32) (x : A) (xs : List A)
      → (p : Bytes) × (chain i d (x ∷ xs) ≡ hash step p) × Made (step, p) (chain_calls i d (x ∷ xs))
  unfolding chain chain_calls
  chain_step i d x [] = (payload i d x, refl, inl refl)
  chain_step i d x (y ∷ ys) =
      let (p, ends, made) = chain_step (i + 1) (hash step (payload i d x)) y ys in
      (p, ends, inr made)

  module _ {IsItem : A → Type 0} (encoding : StepEncoding payload IsItem)
      (typed : (domain p : Bytes) → IsHash32 (hash domain p)) where
    -- Two chains of one length and one last digest, or a collision, agree throughout.
    chain_aligned :
        (i j : ℕ) (d d' : Hash32) (xs ys : List A)
        → length xs ≡ length ys
        → i + length xs < 2 ^ 64
        → j + length ys < 2 ^ 64
        → IsHash32 d
        → IsHash32 d'
        → All IsItem xs
        → All IsItem ys
        → chain i d xs ≡ chain j d' ys
        → ((d ≡ d') × (xs ≡ ys)) ⊎ Collision hash (chain_calls i d xs) (chain_calls j d' ys)
    unfolding chain chain_calls
    chain_aligned i j d d' [] [] l bi bj hd hd' ix iy e = inl (e, refl)
    chain_aligned i j d d' [] (y ∷ ys) l bi bj hd hd' ix iy e = absurd (omega arith)
    chain_aligned i j d d' (x ∷ xs) [] l bi bj hd hd' ix iy e = absurd (omega arith)
    chain_aligned i j d d' (x ∷ xs) (y ∷ ys) l bi bj hd hd' ix iy e = after (
        chain_aligned (i + 1) (j + 1) (hash step (payload i d x)) (hash step (payload j d' y)) xs ys
          (omega arith) (omega arith) (omega arith) (typed _ _) (typed _ _) ix.1 iy.1 e)
      where
        Collides : Type 0
        Collides = Collision hash (chain_calls i d (x ∷ xs)) (chain_calls j d' (y ∷ ys))

        from_payload :
            (xs ≡ ys)
            → (payload i d x ≡ payload j d' y) ⊎ Collides
            → ((d ≡ d') × (x ∷ xs ≡ y ∷ ys)) ⊎ Collides
        from_payload t (inr c) = inr c
        from_payload t (inl p) =
            let (digests, items) =
              encoding.injective i j d d' x y (omega arith) (omega arith) hd hd' ix.0 iy.0 p in
            inl (digests, ap₂ (λ (h : A) (r : List A). h ∷ r) items t)

        after :
            ((hash step (payload i d x) ≡ hash step (payload j d' y)) × (xs ≡ ys))
              ⊎ Collision hash
                  (chain_calls (i + 1) (hash step (payload i d x)) xs)
                  (chain_calls (j + 1) (hash step (payload j d' y)) ys)
            → ((d ≡ d') × (x ∷ xs ≡ y ∷ ys)) ⊎ Collides
        after (inr c) = inr (Collision-later (step, payload i d x) (step, payload j d' y) c)
        after (inl (h, t)) = from_payload t (same_digest step _ _ h)

    -- Two chains of different lengths that start in one domain and step in another collide.
    chain_longer :
        (init p q : Bytes) (xs ys : List A)
        → init ≢ step
        → length xs < length ys
        → length ys < 2 ^ 64
        → All IsItem xs
        → All IsItem ys
        → chain 0 (hash init p) xs ≡ chain 0 (hash init q) ys
        → Collision hash (run_calls init p xs) (run_calls init q ys)
    chain_longer init p q xs ys ne l b ix iy e =
        let (y, front, back, cut, size) = split_end (length xs) ys l in
        let (last, ends, made) = chain_step 0 (hash init q) y front in
        let d = chain 0 (hash init q) (y ∷ front) in
        let whole : All IsItem (y ∷ (front ++ back)) = subst (All IsItem) cut iy in
        let typed_d : IsHash32 d = rw ends (typed step last) in
        let total : length ys ≡ suc (length (front ++ back)) = ap (λ (t : List A). length t) cut in
        collide y front back cut last ends made (
          chain_aligned 0 (0 + length (y ∷ front)) (hash init p) d xs back (sym size) (omega arith)
            (omega (arith, length-append front back)) (typed init p) typed_d ix
            (All-drop IsItem front back whole.1)
            (e
              ∙ ap (λ t. chain 0 (hash init q) t) cut
              ∙ chain-append 0 (hash init q) (y ∷ front) back))
      where
        collide :
            (y : A) (front back : List A)
            → ys ≡ y ∷ (front ++ back)
            → (last : Bytes) → chain 0 (hash init q) (y ∷ front) ≡ hash step last
            → Made (step, last) (chain_calls 0 (hash init q) (y ∷ front))
            → ((hash init p ≡ chain 0 (hash init q) (y ∷ front)) × (xs ≡ back))
              ⊎ Collision hash
                  (chain_calls 0 (hash init p) xs)
                  (chain_calls (0 + length (y ∷ front)) (chain 0 (hash init q) (y ∷ front)) back)
            → Collision hash (run_calls init p xs) (run_calls init q ys)
        collide y front back cut last ends made (inr c) = record {
          call = c.call;
          call' = c.call';
          made = inr c.made;
          made' = inr (
              subst (λ l. Made c.call' (chain_calls 0 (hash init q) l)) (sym cut)
                (Made-back 0 (hash init q) (y ∷ front) back c.call' c.made'));
          differ = c.differ;
          same = c.same;
        }
        collide y front back cut last ends made (inl (d, _)) = record {
          call = (init, p);
          call' = (step, last);
          made = inl refl;
          made' = inr (
              subst (λ l. Made (step, last) (chain_calls 0 (hash init q) l)) (sym cut)
                (Made-front 0 (hash init q) (y ∷ front) back (step, last) made));
          differ = inl ne;
          same = d ∙ ends;
        }

    -- Chains that start in one domain and step in another: equal last digests commit to equal seeds
    -- and equal items, or two of
    -- the calls of the hash that the chains make collide.
    pub chain-commits :
        (init p q : Bytes) (xs ys : List A)
        → init ≢ step
        → length xs < 2 ^ 64
        → length ys < 2 ^ 64
        → All IsItem xs
        → All IsItem ys
        → chain 0 (hash init p) xs ≡ chain 0 (hash init q) ys
        → ((p ≡ q) × (xs ≡ ys)) ⊎ Collision hash (run_calls init p xs) (run_calls init q ys)
    chain-commits init p q xs ys ne bx b ix iy e = elim (dec_lt (length xs) (length ys)) [
      | yes l ↦ inr (chain_longer init p q xs ys ne l b ix iy e)
      | no g ↦ elim (dec_lt (length ys) (length xs)) [
        | yes l ↦ inr (Collision-sym (chain_longer init q p ys xs ne l bx iy ix (sym e)))
        | no g' ↦ seeds (
            chain_aligned 0 0 (hash init p) (hash init q) xs ys (omega arith) (omega arith)
              (omega arith) (typed init p) (typed init q) ix iy e)
      ]
    ]
      where
        seeds :
            ((hash init p ≡ hash init q) × (xs ≡ ys))
              ⊎ Collision hash (chain_calls 0 (hash init p) xs) (chain_calls 0 (hash init q) ys)
            → ((p ≡ q) × (xs ≡ ys)) ⊎ Collision hash (run_calls init p xs) (run_calls init q ys)
        seeds (inr c) = inr (Collision-later (init, p) (init, q) c)
        seeds (inl (d, t)) = elim (same_digest init p q d) [ inl s ↦ inl (s, t) | inr c ↦ inr c ]
