-- ===== src/Trust/Tests.antt =====
-- One call on an empty store, for a log of one entry and then of two, under a digest that a test can follow.
use dnsid_ts.Common.{
  ℕ, zero, suc, bytes_eq, ◌+◌, ◌%◌, false, none, some, List, [], ◌∷◌, Bytes, ok, ◌≡◌, refl,
}
use mathlib.Core.List.{flatten}
use dnsid_ts.Merkle.{sha256, leaf_hash, node_hash, next_level, level_loop, merkle_root_from_entries}
use dnsid_ts.Trust.{
  TrustedCheckpoint, validate_origin, validate_checkpoint, same_checkpoint, root_matches,
}
use dnsid_ts.Trust.Store.{Checkpoints, set, load, compare_and_swap}
use dnsid_ts.Trust.Advance.{
  Evidence, IndexedEntry, insert_entry, sort_entries, indices_from, verify_complete_entries_prefix,
  verify_growth, verify_scan, verify_against, verify_checkpoint_advance,
}
use dnsid_ts.Trust.Client.{in_phase, loading, Client, begin_advance, load_previous, turn}
use dnsid_ts.Trust.Successor.{Successor, verify_checkpoint_advance-Successor}
use dnsid_ts.Trust.World.{World, empty_world, Run, stop, step, call, take_turn, Chain}
use dnsid_ts.Trust.Interleaving.{advance-Chain, advance-IsLater, IsLater}
use dnsid_ts.Trust.Progress.{advance_alone, turns_alone, end_of_call}

abbrev total : Bytes → ℕ
total [] = 0
total (b ∷ bs) = b + total bs

abbrev padding : ℕ → Bytes
padding zero = []
padding (suc n) = 0 ∷ padding n

abbrev digest : Bytes → Bytes
digest bs = (total bs % 256) ∷ padding 31

abbrev checkpoint : ℕ → ℕ → TrustedCheckpoint
checkpoint size root = record {
  origin = "log.example";
  tree_size = size;
  root_hash = root ∷ padding 31;
  witness_time = some 1000;
}

abbrev scan : List IndexedEntry → Evidence
scan entries = record {
  complete_entries = some entries;
  consistency_proof_source = none;
  tile_prefix_root = none;
}

abbrev one : Evidence
one = scan (record { index = 0; bytes = 7 ∷ [] } ∷ [])

-- The entries come in any order.
abbrev two : Evidence
two = scan (record { index = 1; bytes = 8 ∷ [] } ∷ record { index = 0; bytes = 7 ∷ [] } ∷ [])

abbrev caller : TrustedCheckpoint → Client
caller c = record { reference_origin = "log.example"; candidate = c; phase = loading }

runs : Unit {0}
unfolding bytes_eq flatten sha256 leaf_hash node_hash next_level level_loop merkle_root_from_entries
    validate_origin validate_checkpoint same_checkpoint root_matches set load compare_and_swap
    insert_entry sort_entries indices_from verify_complete_entries_prefix verify_growth verify_scan
    verify_against verify_checkpoint_advance begin_advance load_previous turn
runs = tt

accepts : verify_checkpoint_advance digest two (some (checkpoint 1 7)) (checkpoint 2 16) ≡ ok tt
unfolding runs
accepts = refl

begins : begin_advance digest "log.example" (checkpoint 1 7) ≡ ok (caller (checkpoint 1 7))
unfolding runs
begins = refl

begins_again : begin_advance digest "log.example" (checkpoint 2 16) ≡ ok (caller (checkpoint 2 16))
unfolding runs
begins_again = refl

-- A call takes `n` turns, while the calls behind it stand still.
abbrev turns : ℕ → Evidence → Checkpoints → Client → List Client → World
turns zero evidence store c rest = record { store = store; clients = c ∷ rest }
turns (suc n) evidence store c rest =
    let next = turn digest false false evidence c.reference_origin c.candidate c.phase store in
    turns n evidence next.1 (in_phase c next.0) rest

turns-Run :
    (n : ℕ) (evidence : Evidence) (store : Checkpoints) (c : Client) (rest : List Client)
    (w : World)
    → Run digest w (record { store = store; clients = c ∷ rest })
    → Run digest w (turns n evidence store c rest)
turns-Run zero evidence store c rest w r = r
turns-Run (suc n) evidence store c rest w r =
    let next = turn digest false false evidence c.reference_origin c.candidate c.phase store in
    turns-Run n evidence next.1 (in_phase c next.0) rest w
      (step r (take_turn store [] c rest false false evidence))

abbrev first_call : World
first_call = turns 3 one empty_world.store (caller (checkpoint 1 7)) []

first_call-Run : Run digest empty_world first_call
first_call-Run =
    turns-Run 3 one empty_world.store (caller (checkpoint 1 7)) [] empty_world
      (step stop (call "log.example" (checkpoint 1 7) (caller (checkpoint 1 7)) begins))

-- A second call, for the larger tree.
abbrev second_call : World
second_call = turns 3 two first_call.store (caller (checkpoint 2 16)) first_call.clients

second_call-Run : Run digest first_call second_call
second_call-Run =
    turns-Run 3 two first_call.store (caller (checkpoint 2 16)) first_call.clients first_call
      (step stop (call "log.example" (checkpoint 2 16) (caller (checkpoint 2 16)) begins_again))

stored_twice : second_call.store "log.example" ≡ some (checkpoint 2 16)
unfolding runs
stored_twice = refl

stored : first_call.store "log.example" ≡ some (checkpoint 1 7)
unfolding runs
stored = refl

verify_checkpoint_advance-Successor_example :
    Successor digest two (some (checkpoint 1 7)) (checkpoint 2 16)
verify_checkpoint_advance-Successor_example =
    verify_checkpoint_advance-Successor digest two (some (checkpoint 1 7)) (checkpoint 2 16) accepts

advance-Chain_example :
    Chain digest "log.example" (first_call.store "log.example") (second_call.store "log.example")
advance-Chain_example = advance-Chain digest "log.example" first_call-Run second_call-Run

advance-IsLater_example :
    (new : TrustedCheckpoint) × (second_call.store "log.example" ≡ some new)
    × IsLater (checkpoint 1 7) new
advance-IsLater_example =
    advance-IsLater digest "log.example" (checkpoint 1 7) first_call-Run second_call-Run stored

advance_alone_example :
    turns_alone digest two "log.example" (checkpoint 1 7) 3 loading empty_world.store
    ≡ end_of_call "log.example"
        (checkpoint 1 7)
        empty_world.store
        (verify_checkpoint_advance digest two none (checkpoint 1 7))
advance_alone_example = advance_alone digest two "log.example" (checkpoint 1 7) stop begins
