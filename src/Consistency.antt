-- ===== src/Consistency.antt =====
-- `verifyC2spConsistencyProof` of packages/log-c2sp-tlog/src/checkpoint-trust.ts.
pub mod Spec
pub mod Subproof
pub mod Seed
pub mod Shifts
pub mod Climb
pub mod Sized
pub mod Indices
pub mod Completeness
mod Tests
use dnsid_ts.Common.{
  ℕ, zero, suc, ◌-◌, ◌/◌, ◌%◌, Bool, true, false, not, ◌&&◌, ◌||◌, List, [], ◌∷◌, length, ltb, ◌==◌,
  if◌then◌else◌, is_safe_integer, Bytes, bytes_eq,
}
use dnsid_ts.Merkle.{sha256, node_hash}

-- `while ((oldIndex & 1) === 1)`: both indices are halved. `x & 1` is the parity of x, also where `&`
-- takes x modulo 2^32. An odd index is more than its half, so the index itself is fuel enough.
unfoldable pub shift_odd : ℕ → ℕ → ℕ → ℕ × ℕ
shift_odd zero old new = (old, new)
shift_odd (suc fuel) old new =
    let more = shift_odd fuel (old / 2) (new / 2) in if old % 2 == 1 then more else (old, new)

-- `while (oldIndex !== 0 && (oldIndex & 1) === 0)`
unfoldable pub shift_even : ℕ → ℕ → ℕ → ℕ × ℕ
shift_even zero old new = (old, new)
shift_even (suc fuel) old new =
    let more = shift_even fuel (old / 2) (new / 2) in
    if not (old == 0) && old % 2 == 0 then more else (old, new)

abbrev pub all_sized : List Bytes → Bool
all_sized [] = true
all_sized (node ∷ proof) = length node == 32 && all_sized proof

module _ (digest : Bytes → Bytes) (from_root to_root : Bytes) where
  -- The loop over the proof from `cursor` on, and the tests behind it.
  unfoldable pub proof_loop : ℕ → ℕ → Bytes → Bytes → List Bytes → Bool
  proof_loop old new old_hash new_hash [] =
      new == 0 && (bytes_eq old_hash from_root && bytes_eq new_hash to_root)
  proof_loop old new old_hash new_hash (node ∷ proof) =
      let shifted = shift_even old old new in
      let on_left =
        proof_loop (shifted.0 / 2) (shifted.1 / 2) (node_hash digest node old_hash)
          (node_hash digest node new_hash) proof in
      let on_right =
        proof_loop (old / 2) (new / 2) old_hash (node_hash digest new_hash node) proof in
      if new == 0 then false else if old % 2 == 1 || old == new then on_left else on_right

  -- The first hashes: the old root itself, or the head of the proof.
  unfoldable pub with_seed : ℕ → ℕ → List Bytes → Bool
  with_seed zero new proof = proof_loop zero new from_root from_root proof
  with_seed (suc old) new [] = false
  with_seed (suc old) new (seed ∷ proof) = proof_loop (suc old) new seed seed proof

  unfoldable pub from_indices : ℕ → ℕ → List Bytes → Bool
  from_indices old new proof =
      let shifted = shift_odd old old new in with_seed shifted.0 shifted.1 proof

  unfoldable pub verify_consistency_proof : ℕ → ℕ → List Bytes → Bool
  verify_consistency_proof from_size to_size proof =
      if not (is_safe_integer from_size) || not (is_safe_integer to_size)
      then false
      else if not (length from_root == 32) || (not (length to_root == 32) || not (all_sized proof))
      then false
      else if from_size == 0
      then length proof == 0
        && (bytes_eq from_root (sha256 digest [])
            && (not (to_size == 0) || bytes_eq from_root to_root))
      else if from_size == to_size
      then length proof == 0 && bytes_eq from_root to_root
      else if ltb to_size from_size
      then false
      else from_indices (from_size - 1) (to_size - 1) proof
