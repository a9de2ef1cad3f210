-- ===== src/Merkle.antt =====
-- packages/log-c2sp-tlog/src/merkle.ts. `digest` stands for `createHash('sha256')` of node:crypto.
pub mod Spec
pub mod Levels
pub mod Root
pub mod Inclusion
pub mod AuditPath
pub mod Binding
pub mod Places
mod Tests
use dnsid_ts.Common.{
  ℕ, zero, suc, ◌+◌, ◌-◌, ◌/◌, ◌%◌, Bool, not, ◌||◌, Option, none, some, List, [], ◌∷◌, map, length,
  ltb, leb, ◌==◌, if◌then◌else◌, is_safe_integer, Bytes, bytes_eq, Result, ok, ◌>>=◌, ◌>>◌,
  throw_if,
}
use mathlib.Core.List.{flatten}

-- `throw new Error('invalid inclusion index or tree size')`
pub data InclusionError : Type 0 where
  invalid_index_or_size : InclusionError

module _ (digest : Bytes → Bytes) where
  -- The chunks are hashed as one string.
  unfoldable pub sha256 : List Bytes → Bytes
  sha256 chunks = digest (flatten chunks)

  unfoldable pub leaf_hash : Bytes → Bytes
  leaf_hash entry_bytes = sha256 ((0 ∷ []) ∷ entry_bytes ∷ [])

  unfoldable pub node_hash : Bytes → Bytes → Bytes
  node_hash left right = sha256 ((1 ∷ []) ∷ left ∷ right ∷ [])

  -- One round of the loop over the proof: the new hash.
  unfoldable pub inclusion_step : Bytes → ℕ → ℕ → Bytes → Bytes
  inclusion_step hash i n sibling =
      if i % 2 == 1
      then node_hash sibling hash
      else if ltb i (n - 1)
      then node_hash hash sibling
      else node_hash sibling hash

  unfoldable pub inclusion_loop : Bytes → ℕ → ℕ → List Bytes → Bytes
  inclusion_loop hash i n [] = hash
  inclusion_loop hash i n (sibling ∷ proof) =
      inclusion_loop (inclusion_step hash i n sibling) (i / 2) ((n + 1) / 2) proof

  unfoldable pub inclusion_root : Bytes → ℕ → ℕ → List Bytes → Result InclusionError Bytes
  inclusion_root leaf index tree_size proof = do
    throw_if (not (is_safe_integer index) || not (is_safe_integer tree_size) || leb tree_size index)
        invalid_index_or_size
    ok (inclusion_loop leaf index tree_size proof)

  unfoldable pub verify_inclusion : Bytes → ℕ → ℕ → Bytes → List Bytes → Result InclusionError Bool
  verify_inclusion entry_bytes index tree_size root_hash proof = do
    root ← inclusion_root (leaf_hash entry_bytes) index tree_size proof
    ok (bytes_eq root root_hash)

  -- One level from the level below: neighbours are joined, and an odd last node moves up.
  unfoldable pub next_level : List Bytes → List Bytes
  next_level [] = []
  next_level (x ∷ []) = x ∷ []
  next_level (x ∷ y ∷ rest) = node_hash x y ∷ next_level rest

  -- `while (level.length > 1)`; `none` when the fuel runs out.
  unfoldable pub level_loop : ℕ → List Bytes → Option Bytes
  level_loop fuel [] = none
  level_loop fuel (x ∷ []) = some x
  level_loop zero (x ∷ y ∷ rest) = none
  level_loop (suc fuel) (x ∷ y ∷ rest) = level_loop fuel (next_level (x ∷ y ∷ rest))

  -- Each level has fewer nodes than the one below, so as many rounds as entries are enough.
  unfoldable pub merkle_root_from_entries : List Bytes → Option Bytes
  merkle_root_from_entries [] = some (sha256 [])
  merkle_root_from_entries (e ∷ entries) =
      level_loop (length (e ∷ entries)) (map leaf_hash (e ∷ entries))
