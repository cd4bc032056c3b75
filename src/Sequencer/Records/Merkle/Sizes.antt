-- ===== src/Sequencer/Records/Merkle/Sizes.antt =====
-- The sizes of the nodes on a membership path (crates/sequencer/src/records.rs).
use lighter_integration.Base.{
  map, ℕ, zero, suc, ◌+◌, ◌-◌, ◌/◌, ◌%◌, ◌≡◌, refl, Bool, true, false, Hash32, List, [], ◌∷◌,
  Option, none, some, get_elem?, length, leb, ◌==◌, if◌then◌else◌,
}
use lighter_integration.Sequencer.Identity.{Primitives}
use lighter_integration.Sequencer.Records.Merkle.{
  merkle_parent, next_level, sibling, path_of, merkle_path,
}
use lighter_integration.Sequencer.Records.{BatchEntry, leaf}
use lighter_integration.Sequencer.Records.Merkle.Binding.{HasDigestSize, IsPath}

module _ (primitives : Primitives) where
  pub next_level-IsPath :
      HasDigestSize primitives → (level : List Hash32) → IsPath (next_level primitives level)
  unfolding next_level merkle_parent
  next_level-IsPath size [] = tt
  next_level-IsPath size (a ∷ []) = (size _, tt)
  next_level-IsPath size (a ∷ b ∷ level) = (size _, next_level-IsPath size level)

  get_elem?-size :
      (level : List Hash32) (i : ℕ) (s : Hash32)
      → IsPath level
      → get_elem? level i ≡ some s
      → length s ≡ 32
  get_elem?-size [] i s h e = cc
  get_elem?-size (a ∷ level) zero s (ha, h) e = let same : a ≡ s = cc e in rw (← same) ha
  get_elem?-size (a ∷ level) (suc i) s (ha, h) e = get_elem?-size level i s h e

  sibling-size :
      (level : List Hash32) (i : ℕ) (s : Hash32)
      → IsPath level
      → sibling primitives level i ≡ some s
      → length s ≡ 32
  unfolding sibling
  sibling-size level i s h e =
      split (i % 2 == 0) (get_elem? level (i + 1)) (λ s e. get_elem?-size level (i + 1) s h e) e
    where
      split :
          (even : Bool) (next : Option Hash32)
          → ((s : Hash32) → next ≡ some s → length s ≡ 32)
          → (if even
              then elim next [ some s ↦ some s | none ↦ get_elem? level i ]
              else get_elem? level (i - 1))
            ≡ some s
          → length s ≡ 32
      split true (some s') hs e = hs s e
      split true none hs e = get_elem?-size level i s h e
      split false next hs e = get_elem?-size level (i - 1) s h e

  path_of-IsPath :
      HasDigestSize primitives
      → (fuel : ℕ) (level : List Hash32) (i : ℕ) (path : List Hash32) → IsPath level
      → path_of primitives fuel level i ≡ some path
      → IsPath path
  unfolding path_of
  path_of-IsPath size fuel [] i path h e = let same : [] ≡ path = cc e in rw (← same) tt
  path_of-IsPath size fuel (a ∷ []) i path h e = let same : [] ≡ path = cc e in rw (← same) tt
  path_of-IsPath size zero (a ∷ b ∷ level) i path h e = cc
  path_of-IsPath size (suc fuel) (a ∷ b ∷ level) i path h e =
      split (sibling primitives (a ∷ b ∷ level) i)
        (path_of primitives fuel (next_level primitives (a ∷ b ∷ level)) (i / 2))
        (λ s e. sibling-size (a ∷ b ∷ level) i s h e)
        (λ p e.
          path_of-IsPath size fuel (next_level primitives (a ∷ b ∷ level)) (i / 2) p
            (next_level-IsPath size (a ∷ b ∷ level)) e)
        e
    where
      split :
          (here : Option Hash32) (rest : Option (List Hash32))
          → ((s : Hash32) → here ≡ some s → length s ≡ 32)
          → ((p : List Hash32) → rest ≡ some p → IsPath p)
          → elim here [ none ↦ none | some s ↦ elim rest [ none ↦ none | some p ↦ some (s ∷ p) ] ]
            ≡ some path
          → IsPath path
      split none rest hs hp e = cc
      split (some s) none hs hp e = cc
      split (some s) (some p) hs hp e =
          let same : s ∷ p ≡ path = cc e in rw (← same) (hs s refl, hp p refl)

  -- All nodes of a path among 32-byte leaves have 32 bytes.
  pub merkle_path-IsPath :
      HasDigestSize primitives
      → (leaves : List Hash32) (i : ℕ) (path : List Hash32) → IsPath leaves
      → merkle_path primitives leaves i ≡ some path
      → IsPath path
  unfolding merkle_path
  merkle_path-IsPath size leaves i path h e = split (leb (length leaves) i) e
    where
      split :
          (out : Bool)
          → (if out then none else path_of primitives (length leaves) leaves i) ≡ some path
          → IsPath path
      split true e = cc
      split false e = path_of-IsPath size (length leaves) leaves i path h e

  -- The leaves of a batch have 32 bytes.
  pub leaves-IsPath :
      HasDigestSize primitives
      → (entries : List BatchEntry) → IsPath (map (leaf primitives) entries)
  unfolding leaf
  leaves-IsPath size [] = tt
  leaves-IsPath size (e ∷ entries) = (size _, leaves-IsPath size entries)
