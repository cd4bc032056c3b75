-- ===== src/Sequencer/Records/Merkle.antt =====
-- The Merkle tree of crates/sequencer/src/records.rs. Each round of its `while` loops halves the
-- level, so as many rounds as there are leaves are enough (Merkle/Path).
pub mod Path
pub mod Binding
pub mod Sizes
use lighter_integration.Base.{
  ℕ, zero, suc, ◌+◌, ◌-◌, ◌/◌, ◌%◌, Bool, Bytes, Hash32, bytes_eq, List, [], ◌∷◌, ◌++◌, Option,
  none, some, codes, get_elem?, length, leb, ◌==◌, if◌then◌else◌,
}
use lighter_integration.Sequencer.Identity.{Primitives}

module _ (primitives : Primitives) where
  open primitives use {keccak256}

  unfoldable pub empty_batch_root : Hash32
  empty_batch_root = keccak256 (codes "posq-empty-batch-v1")

  unfoldable pub merkle_parent : Hash32 → Hash32 → Hash32
  merkle_parent left right = keccak256 ((1 ∷ []) ++ left ++ right)

  -- `for pair in level.chunks(2)`: a last single node is paired with itself.
  unfoldable pub next_level : List Hash32 → List Hash32
  next_level [] = []
  next_level (a ∷ []) = merkle_parent a a ∷ []
  next_level (a ∷ b ∷ level) = merkle_parent a b ∷ next_level level

  -- `while level.len() > 1` and `level[0]`
  unfoldable pub root_of : ℕ → List Hash32 → Option Hash32
  unfolding next_level
  root_of fuel [] = none
  root_of fuel (a ∷ []) = some a
  root_of zero (a ∷ b ∷ level) = none
  root_of (suc fuel) (a ∷ b ∷ level) = root_of fuel (next_level (a ∷ b ∷ level))

  -- `none` never comes (Merkle/Path).
  unfoldable pub merkle_root : List Hash32 → Option Hash32
  unfolding root_of empty_batch_root
  merkle_root [] = some empty_batch_root
  merkle_root (a ∷ leaves) = root_of (length (a ∷ leaves)) (a ∷ leaves)

  -- The sibling in one level; `none` is an index out of range.
  unfoldable pub sibling : List Hash32 → ℕ → Option Hash32
  sibling level idx =
      if idx % 2 == 0
      then elim (get_elem? level (idx + 1)) [ some s ↦ some s | none ↦ get_elem? level idx ]
      else get_elem? level (idx - 1)

  -- the loop of `merkle_path`
  unfoldable pub path_of : ℕ → List Hash32 → ℕ → Option (List Hash32)
  unfolding next_level sibling
  path_of fuel [] idx = some []
  path_of fuel (a ∷ []) idx = some []
  path_of zero (a ∷ b ∷ level) idx = none
  path_of (suc fuel) (a ∷ b ∷ level) idx =
      let rest = path_of fuel (next_level (a ∷ b ∷ level)) (idx / 2) in
      elim (sibling (a ∷ b ∷ level) idx) [
        | none ↦ none
        | some s ↦ elim rest [ none ↦ none | some path ↦ some (s ∷ path) ]
      ]

  unfoldable pub merkle_path : List Hash32 → ℕ → Option (List Hash32)
  unfolding path_of
  merkle_path leaves index =
      if leb (length leaves) index then none else path_of (length leaves) leaves index

  -- the loop of `merkle_verify`
  unfoldable pub climb : Hash32 → ℕ → List Hash32 → Hash32
  unfolding merkle_parent
  climb acc idx [] = acc
  climb acc idx (s ∷ path) =
      climb (if idx % 2 == 0 then merkle_parent acc s else merkle_parent s acc) (idx / 2) path

  unfoldable pub merkle_verify : Hash32 → Hash32 → ℕ → List Hash32 → Bool
  unfolding climb
  merkle_verify root leaf index path = bytes_eq (climb leaf index path) root
