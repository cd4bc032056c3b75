-- ===== src/Sequencer/Records/Merkle/Path.antt =====
-- Membership paths (crates/sequencer/src/records.rs) and the root.
use lighter_integration.Base.{
  ℕ, zero, suc, ◌+◌, ◌/◌, ◌%◌, ◌-◌, ◌∙◌, ◌<◌, ◌≤◌, ◌≡◌, refl, true, Hash32, bytes_eq_refl, List, [],
  ◌∷◌, some, get_elem?, length, ◌==◌, if◌then◌else◌, arith,
}
use lighter_integration.Sequencer.Identity.{Primitives}
use lighter_integration.Sequencer.Records.Merkle.{
  empty_batch_root, merkle_parent, next_level, root_of, merkle_root, sibling, path_of, merkle_path,
  climb, merkle_verify,
}

module _ (primitives : Primitives) where
  length-next_level :
      (a b : Hash32) (level : List Hash32)
      → length (next_level primitives (a ∷ b ∷ level)) ≤ length level + 1
  unfolding next_level
  length-next_level a b [] = omega arith
  length-next_level a b (c ∷ []) = omega arith
  length-next_level a b (c ∷ d ∷ level) = omega (arith, length-next_level c d level)

  -- Two nodes in front move the sibling with the node.
  sibling_shift :
      (a b : Hash32) (level : List Hash32) (i : ℕ)
      → sibling primitives (a ∷ b ∷ level) (suc (suc i)) ≡ sibling primitives level i
  unfolding sibling
  sibling_shift a b level zero = refl
  sibling_shift a b level (suc j) =
      let parity : suc (suc (suc j)) % 2 ≡ suc j % 2 = omega arith in
      let next : suc (suc (suc j)) + 1 ≡ suc (suc (suc j + 1)) = omega arith in
      let before : suc (suc (suc j)) - 1 ≡ suc (suc j) = omega arith in
      let before' : suc j - 1 ≡ j = omega arith in rw (sibling, parity, next, before, before') refl

  -- One step up: the node above a node and its sibling.
  step_up :
      (level : List Hash32) (i : ℕ) (x : Hash32)
      → get_elem? level i ≡ some x
      → (s : Hash32) × (sibling primitives level i ≡ some s)
        × (get_elem? (next_level primitives level) (i / 2)
            ≡ some
                (if i % 2 == 0 then merkle_parent primitives x s else merkle_parent primitives s x))
  unfolding next_level sibling
  step_up [] i x h = cc
  step_up (a ∷ []) zero x h = (a, refl, cc)
  step_up (a ∷ []) (suc i) x h = cc
  step_up (a ∷ b ∷ level) zero x h = (b, refl, cc)
  step_up (a ∷ b ∷ level) (suc zero) x h = (a, refl, cc)
  step_up (a ∷ b ∷ level) (suc (suc i)) x h =
      let (s, found, above) = step_up level i x h in
      let parity : suc (suc i) % 2 ≡ i % 2 = omega arith in
      let half : suc (suc i) / 2 ≡ suc (i / 2) = omega arith in
      (s, sibling_shift a b level i ∙ found, rw (parity, half) above)

  path_of_step :
      (fuel i : ℕ) (a c s : Hash32) (level path : List Hash32)
      → sibling primitives (a ∷ c ∷ level) i ≡ some s
      → path_of primitives fuel (next_level primitives (a ∷ c ∷ level)) (i / 2) ≡ some path
      → path_of primitives (suc fuel) (a ∷ c ∷ level) i ≡ some (s ∷ path)
  unfolding path_of
  path_of_step fuel i a c s level path e p = ground arith

  -- The two loops on one level, with as much fuel as it has nodes.
  climbs :
      (fuel : ℕ) (level : List Hash32) (i : ℕ) (x : Hash32)
      → length level ≤ fuel
      → get_elem? level i ≡ some x
      → (path : List Hash32) × (path_of primitives fuel level i ≡ some path)
        × (root_of primitives fuel level ≡ some (climb primitives x i path))
  unfolding path_of root_of climb
  climbs fuel [] i x b h = cc
  climbs fuel (a ∷ []) zero x b h = ([], refl, h)
  climbs fuel (a ∷ []) (suc i) x b h = cc
  climbs zero (a ∷ c ∷ level) i x b h = absurd (omega arith)
  climbs (suc fuel) (a ∷ c ∷ level) i x b h =
      let (s, found, above) = step_up (a ∷ c ∷ level) i x h in
      let (path, ps, rs) =
        climbs fuel (next_level primitives (a ∷ c ∷ level)) (i / 2) _
          (omega (arith, length-next_level a c level)) above in
      (s ∷ path, path_of_step fuel i a c s level path found ps, rs)

  in_range :
      (leaves : List Hash32) (i : ℕ) (x : Hash32) → get_elem? leaves i ≡ some x → i < length leaves
  in_range [] i x h = cc
  in_range (a ∷ leaves) zero x h = omega arith
  in_range (a ∷ leaves) (suc i) x h = omega (arith, in_range leaves i x h)

  merkle_path_in_range :
      (leaves : List Hash32) (i : ℕ)
      → i < length leaves
      → merkle_path primitives leaves i ≡ path_of primitives (length leaves) leaves i
  unfolding merkle_path
  merkle_path_in_range leaves i l = ground arith

  -- Any leaf of a batch has a membership path, and the path verifies it against the root of the
  -- batch.
  pub merkle_path_verifies :
      (leaves : List Hash32) (i : ℕ) (x : Hash32)
      → get_elem? leaves i ≡ some x
      → (path : List Hash32) × (root : Hash32) × (merkle_path primitives leaves i ≡ some path)
        × (merkle_root primitives leaves ≡ some root)
        × (merkle_verify primitives root x i path ≡ true)
  unfolding merkle_path merkle_root merkle_verify
  merkle_path_verifies [] i x h = cc
  merkle_path_verifies (a ∷ leaves) i x h =
      let (path, ps, rs) = climbs (length (a ∷ leaves)) (a ∷ leaves) i x (omega arith) h in
      (
        path,
        climb primitives x i path,
        merkle_path_in_range (a ∷ leaves) i (in_range (a ∷ leaves) i x h) ∙ ps,
        rs,
        bytes_eq_refl _,
      )

  -- The loop of `merkle_root` ends.
  pub merkle_root_total :
      (leaves : List Hash32) → (root : Hash32) × (merkle_root primitives leaves ≡ some root)
  unfolding merkle_root
  merkle_root_total [] = (empty_batch_root primitives, refl)
  merkle_root_total (a ∷ leaves) =
      let (path, _, root) = climbs (length (a ∷ leaves)) (a ∷ leaves) 0 a (omega arith) refl in
      (climb primitives a 0 path, root)
