-- ===== src/Trust.antt =====
-- packages/log-c2sp-tlog/src/checkpoint-trust.ts: the latest checkpoint that a client trusts for a log
-- origin, and how it is advanced. Snapshots of a checkpoint (`cloneCheckpoint`) are values here.
pub mod Store
pub mod Advance
pub mod Client
pub mod Successor
pub mod World
pub mod Interleaving
pub mod Progress
mod Tests
use dnsid_ts.Common.{
  ℕ, Bool, true, false, not, ◌&&◌, ◌||◌, Option, none, some, String, str_eq, List, [], ◌∷◌, length,
  ltb, leb, ◌==◌, is_safe_integer, Bytes, bytes_eq, codes, Result, ok, ◌>>◌, throw_if,
}
use dnsid_ts.Merkle.{merkle_root_from_entries}

-- `witness_time` is the time of the date in milliseconds, or `none` for an invalid date.
pub record TrustedCheckpoint : Type 0 where
  pub origin : String
  pub tree_size : ℕ
  pub root_hash : Bytes
  pub witness_time : Option ℕ

pub data Contradiction : Type 0 where
  log_rollback : Contradiction
  log_fork : Contradiction
  log_inconsistent : Contradiction

-- The errors by their classes; `contradicts` is C2spCheckpointConsistencyError with both checkpoints.
pub data TrustError : Type 0 where
  argument_error : TrustError
  aborted_signal : TrustError
  canceled : TrustError
  store_error : TrustError
  empty_root : TrustError
  bad_scan : TrustError
  proof_unavailable : TrustError
  tiles_unavailable : TrustError
  missing_evidence : TrustError
  contradicts : Contradiction → TrustedCheckpoint → TrustedCheckpoint → TrustError

-- The white space and line ends that `String.prototype.trim` takes off.
abbrev pub is_space : ℕ → Bool
is_space c =
    leb 9 c && leb c 13
    || (c == 32
        || (c == 160
            || (c == 5760
                || (leb 8192 c && leb c 8202
                    || (c == 8232
                        || (c == 8233
                            || (c == 8239 || (c == 8287 || (c == 12288 || c == 65279)))))))))

abbrev pub all_space : Bytes → Bool
all_space [] = true
all_space (c ∷ cs) = is_space c && all_space cs

unfoldable pub validate_origin : String → Result TrustError (Unit {0})
validate_origin origin = throw_if (all_space (codes origin)) argument_error

-- `equalBytes(merkleRootFromEntries(...), root)`
unfoldable pub root_matches : Option Bytes → Bytes → Bool
root_matches none root = false
root_matches (some computed) root = bytes_eq computed root

abbrev pub valid_time : Option ℕ → Bool
valid_time none = false
valid_time (some ms) = is_safe_integer ms

-- `getTime() === getTime()`; the time of an invalid date is NaN, which is not equal to itself.
abbrev pub same_time : Option ℕ → Option ℕ → Bool
same_time (some a) (some b) = a == b
same_time _ _ = false

unfoldable pub same_checkpoint : Option TrustedCheckpoint → Option TrustedCheckpoint → Bool
same_checkpoint none none = true
same_checkpoint (some l) (some r) =
    str_eq l.origin r.origin
    && (l.tree_size == r.tree_size
        && (same_time l.witness_time r.witness_time && bytes_eq l.root_hash r.root_hash))
same_checkpoint _ _ = false

module _ (digest : Bytes → Bytes) where
  unfoldable pub validate_checkpoint : TrustedCheckpoint → String → Result TrustError (Unit {0})
  validate_checkpoint value origin = do
    validate_origin origin
    throw_if (not (str_eq value.origin origin)) argument_error
    throw_if (not (is_safe_integer value.tree_size)) argument_error
    throw_if (not (length value.root_hash == 32)) argument_error
    throw_if
        (value.tree_size == 0
          && not (root_matches (merkle_root_from_entries digest []) value.root_hash))
        argument_error
    throw_if (not (valid_time value.witness_time)) argument_error
