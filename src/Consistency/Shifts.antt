-- ===== src/Consistency/Shifts.antt =====
-- The inner shift of the loop of `verifyC2spConsistencyProof`, and one round of the loop.
use dnsid_ts.Common.{
  ℕ, zero, suc, ◌/◌, ◌%◌, ◌≤◌, ◌<◌, List, [], ◌∷◌, take, Bytes, ◌≡◌, refl, ap, ◌∙◌, arith,
}
use dnsid_ts.Merkle.{node_hash}
use dnsid_ts.Merkle.Levels.{double, double-eq}
use dnsid_ts.Consistency.{shift_even, proof_loop}

pub take-take : (n m : ℕ) (xs : List Bytes) → n ≤ m → take n (take m xs) ≡ take n xs
take-take zero m xs h = refl
take-take (suc n) zero xs h = absurd (omega arith)
take-take (suc n) (suc m) [] h = refl
take-take (suc n) (suc m) (x ∷ xs) h = ap (λ r. x ∷ r) (take-take n m xs (omega arith))

-- As many rounds as the old index are enough.
shift_even_fuel : (f g o n : ℕ) → o ≤ f → o ≤ g → shift_even f o n ≡ shift_even g o n
unfolding shift_even
shift_even_fuel zero zero o n h k = refl
shift_even_fuel zero (suc g) o n h k = let none_left : o ≡ 0 = omega arith in ground arith
shift_even_fuel (suc f) zero o n h k = let none_left : o ≡ 0 = omega arith in ground arith
shift_even_fuel (suc f) (suc g) zero n h k = refl
shift_even_fuel (suc f) (suc g) (suc o) n h k =
    rw (shift_even_fuel f g (suc o / 2) (n / 2) (omega arith) (omega arith)) refl

shift_even_odd : (o n : ℕ) → o % 2 ≡ 1 → shift_even o o n ≡ (o, n)
unfolding shift_even
shift_even_odd zero n h = refl
shift_even_odd (suc o) n h = ground arith

shift_even_step :
    (f o n : ℕ) → 0 < o → o % 2 ≡ 0 → shift_even (suc f) o n ≡ shift_even f (o / 2) (n / 2)
unfolding shift_even
shift_even_step f o n pos even = ground arith

pub halves : (k : ℕ) → (double k / 2 ≡ k) × (suc (double k) / 2 ≡ k)
halves k = omega (arith, double-eq k)

shift_even-double : (k n : ℕ) → 0 < k → shift_even (double k) (double k) n ≡ shift_even k k (n / 2)
shift_even-double zero n h = absurd (omega arith)
shift_even-double (suc k) n h =
    shift_even_step (suc (double k)) (double (suc k)) n (omega arith)
      (omega (arith, double-eq (suc k)))
    ∙ rw ((halves (suc k)).0) (
        shift_even_fuel (suc (double k)) (suc k) (suc k) (n / 2) (omega (arith, double-eq k))
          (omega arith))

module _ (digest : Bytes → Bytes) (from_root to_root : Bytes) where
  -- One level without a sibling: an even last node of both trees.
  pub proof_loop-double :
      (k : ℕ) (p q : Bytes) (proof : List Bytes)
      → proof_loop digest from_root to_root (double k) (double k) p q proof
        ≡ proof_loop digest from_root to_root k k p q proof
  unfolding proof_loop
  proof_loop-double zero p q proof = refl
  proof_loop-double (suc k) p q [] = ground (arith, double-eq (suc k))
  proof_loop-double (suc k) p q (node ∷ proof) =
      let shifted : shift_even (double (suc k)) (double (suc k)) (double (suc k))
          ≡ shift_even (suc k) (suc k) (suc k) =
        rw (shift_even-double (suc k) (double (suc k)) (omega arith), (halves (suc k)).0) in
      ground (arith, shifted, double-eq (suc k))

  module _ (k n : ℕ) (p q node : Bytes) (proof : List Bytes) where
    pub proof_loop_odd :
        suc (double k) ≤ n
        → proof_loop digest from_root to_root (suc (double k)) n p q (node ∷ proof)
          ≡ proof_loop digest from_root to_root k
              (n / 2)
              (node_hash digest node p)
              (node_hash digest node q)
              proof
    unfolding proof_loop
    proof_loop_odd h =
        let shifted : shift_even (suc (double k)) (suc (double k)) n ≡ (suc (double k), n) =
          shift_even_odd (suc (double k)) n (omega (arith, double-eq k)) in
        rw (shifted, (halves k).1) (ground (arith, double-eq k))

    pub proof_loop_even :
        double k < n
        → proof_loop digest from_root to_root (double k) n p q (node ∷ proof)
          ≡ proof_loop digest from_root to_root k (n / 2) p (node_hash digest q node) proof
    unfolding proof_loop
    proof_loop_even h = rw ((halves k).0) (ground (arith, double-eq k))
