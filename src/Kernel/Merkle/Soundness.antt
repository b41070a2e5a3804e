-- ===== src/Kernel/Merkle/Soundness.antt =====
-- verifyMerkleProof of merkle/merkle.ts: which leaf an accepted proof is about.
use verity_os_v.Base.{
  ℕ, Str, str_eq_iff, List, [], ◌∷◌, ok, >>=-eq-ok, some, true, Option-cases, ◌≡◌, refl, arith,
  length, All, ◌⊎◌, inl, inr, get_or, ◌<◌, All-get_or,
}
use verity_os_v.Kernel.Noble.{Noble, Lawful, IsHash}
use verity_os_v.Kernel.Merkle.{
  hash_pair, MerkleProof, MerkleProofStep, Position, left, right, other, get_merkle_proof,
  verify_merkle_proof, fold_proof,
}
use verity_os_v.Kernel.Merkle.Tree.{hash_pair_total}
use verity_os_v.Kernel.Merkle.Pairs.{
  ProofPair, on_left, on_right, above_left, above_right, ProofsCollide,
}
use verity_os_v.Kernel.Merkle.Binding.{hash_pair-binding}
use verity_os_v.Kernel.Merkle.Completeness.{AreHashes, verify-get_proof}

-- Two proofs have one length and name the same side at each level.
abbrev pub SameSides : List MerkleProofStep → List MerkleProofStep → Type 0
SameSides [] [] = Unit
SameSides [] (t ∷ q) = ⊥
SameSides (s ∷ p) [] = ⊥
SameSides (s ∷ p) (t ∷ q) = (s.position ≡ t.position) × SameSides p q

Position-cases : (p : Position) → (p ≡ left) ⊎ (p ≡ right) ⊎ (p ≡ other)
Position-cases left = inl refl
Position-cases right = inr (inl refl)
Position-cases other = inr (inr refl)

module _ (n : Noble) (w : Lawful n) where
  -- The parent that a step leads to, and the order of the two nodes in it.
  abbrev Parent : Str → MerkleProofStep → Str → Type 0
  Parent x s above =
      ((s.position ≡ left) × (hash_pair n s.sibling_hash x ≡ ok above))
      ⊎ ((s.position ≡ right) × (hash_pair n x s.sibling_hash ≡ ok above))

  fold_proof-Parent :
      (x r : Str) (s : MerkleProofStep) (p : List MerkleProofStep)
      → fold_proof n x (s ∷ p) ≡ ok (some r)
      → (above : Str) × Parent x s above × (fold_proof n above p ≡ ok (some r))
  unfolding fold_proof
  fold_proof-Parent x r s p e = elim (Position-cases s.position) [
    | inl l ↦
        let (above, ea, e') =
          >>=-eq-ok (hash_pair n s.sibling_hash x) (λ a. fold_proof n a p) (ground (arith, e)) in
        (above, inl (l, ea), e')
    | inr (inl l) ↦
        let (above, ea, e') =
          >>=-eq-ok (hash_pair n x s.sibling_hash) (λ a. fold_proof n a p) (ground (arith, e)) in
        (above, inr (l, ea), e')
    | inr (inr o) ↦ absurd (ground (arith, e))
  ]

  Parent-IsHash :
      (x : Str) (s : MerkleProofStep) (above : Str)
      → IsHash x
      → IsHash s.sibling_hash
      → Parent x s above
      → IsHash above
  Parent-IsHash x s above hx hs (inl (_, e)) =
      let (p, ep, hp) = hash_pair_total n w s.sibling_hash x hs hx in
      let same : p ≡ above = cc in rw same at hp
  Parent-IsHash x s above hx hs (inr (_, e)) =
      let (p, ep, hp) = hash_pair_total n w x s.sibling_hash hx hs in
      let same : p ≡ above = cc in rw same at hp

  Parent-binding :
      (x y : Str) (s t : MerkleProofStep) (p q : List MerkleProofStep) (above : Str)
      → IsHash x
      → IsHash y
      → IsHash s.sibling_hash
      → IsHash t.sibling_hash
      → s.position ≡ t.position
      → Parent x s above
      → Parent y t above
      → ((x ≡ y) × (s.sibling_hash ≡ t.sibling_hash)) ⊎ ProofsCollide n x y (s ∷ p) (t ∷ q)
  Parent-binding x y s t p q above hx hy hs ht pos (inl (l, e)) (inl (l', f)) =
      elim (hash_pair-binding n w _ _ _ _ above hs hx ht hy e f) [
        | inl h ↦ inl (h.1, h.0)
        | inr c ↦ inr (record {
          l = s.sibling_hash;
          r = x;
          l' = t.sibling_hash;
          r' = y;
          pair = on_left l;
          pair' = on_left l';
          collide = c;
        })
      ]
  Parent-binding x y s t p q above hx hy hs ht pos (inl (l, e)) (inr (r, f)) = cc
  Parent-binding x y s t p q above hx hy hs ht pos (inr (r, e)) (inl (l, f)) = cc
  Parent-binding x y s t p q above hx hy hs ht pos (inr (r, e)) (inr (r', f)) =
      elim (hash_pair-binding n w _ _ _ _ above hx hs hy ht e f) [
        | inl h ↦ inl h
        | inr c ↦ inr (record {
          l = x;
          r = s.sibling_hash;
          l' = y;
          r' = t.sibling_hash;
          pair = on_right r;
          pair' = on_right r';
          collide = c;
        })
      ]

  -- A pair above the first step.
  Parent-above :
      (x : Str) (s : MerkleProofStep) (p : List MerkleProofStep) (above l r : Str)
      → Parent x s above
      → ProofPair n above p l r
      → ProofPair n x (s ∷ p) l r
  Parent-above x s p above l r (inl (pos, e)) pair = above_left pos e pair
  Parent-above x s p above l r (inr (pos, e)) pair = above_right pos e pair

  -- Two proofs with the same sides that lead to one root start from one leaf.
  pub fold_proof-binding :
      (p q : List MerkleProofStep) (x y r : Str)
      → IsHash x
      → IsHash y
      → AreHashes p
      → AreHashes q
      → SameSides p q
      → fold_proof n x p ≡ ok (some r)
      → fold_proof n y q ≡ ok (some r)
      → (x ≡ y) ⊎ ProofsCollide n x y p q
  unfolding fold_proof
  fold_proof-binding [] [] x y r hx hy hp hq sides e f = inl (ground arith)
  fold_proof-binding [] (t ∷ q) x y r hx hy hp hq sides e f = absurd sides
  fold_proof-binding (s ∷ p) [] x y r hx hy hp hq sides e f = absurd sides
  fold_proof-binding (s ∷ p) (t ∷ q) x y r hx hy hp hq sides e f =
      let (a, pa, ea) = fold_proof-Parent x r s p e in
      let (b, pb, eb) = fold_proof-Parent y r t q f in
      elim (fold_proof-binding p q a b r (Parent-IsHash x s a hx hp.0 pa)
        (Parent-IsHash y t b hy hq.0 pb) hp.1 hq.1 sides.1 ea eb) [
          | inl same ↦
              elim (Parent-binding x y s t p q b hx hy hp.0 hq.0 sides.0 (rw same at pa) pb) [
                | inl h ↦ inl h.0
                | inr c ↦ inr c
              ]
          | inr c ↦ inr (record {
            l = c.l;
            r = c.r;
            l' = c.l';
            r' = c.r';
            pair = Parent-above x s p a c.l c.r pa c.pair;
            pair' = Parent-above y t q b c.l' c.r' pb c.pair';
            collide = c.collide;
          })
        ]

  verify-fold_proof :
      (x r : Str) (p : List MerkleProofStep)
      → verify_merkle_proof n x p r ≡ ok true
      → fold_proof n x p ≡ ok (some r)
  unfolding verify_merkle_proof
  verify-fold_proof x r p e =
      let (folded, ef, e') = >>=-eq-ok (fold_proof n x p) _ e in
      elim (Option-cases folded) [
        | inl no_root ↦ absurd (ground (arith, e'))
        | inr (c, ec) ↦ ground (arith, e', str_eq_iff c r)
      ]

  -- With lawful hashing, for well-formed leaf hashes and an index i in range: if a proof of hashes
  -- with the sides of the proof of leaf i is accepted for a hash x and the computed root, then x is
  -- leaf i, or the two proofs lead through a pair of nodes each whose bytes are different and have
  -- one digest.
  pub verify_sound :
      (leaves : List Str) (i : ℕ) (x : Str) (p : MerkleProof) (q : List MerkleProofStep)
      → All IsHash leaves
      → i < length leaves
      → IsHash x
      → AreHashes q
      → get_merkle_proof n leaves i ≡ ok p
      → SameSides q p.proof
      → verify_merkle_proof n x q p.root ≡ ok true
      → (x ≡ get_or leaves i []) ⊎ ProofsCollide n x (get_or leaves i []) q p.proof
  verify_sound leaves i x p q hl lt hx hq built sides accepted =
      let (p', built', _, good, hp) = verify-get_proof n w leaves i hl lt in
      let same : p' ≡ p = cc in
      fold_proof-binding q p.proof x (get_or leaves i []) p.root hx
        (All-get_or IsHash leaves i [] hl lt) hq (rw same at hp) sides
        (verify-fold_proof x p.root q accepted)
        (verify-fold_proof (get_or leaves i []) p.root p.proof (rw same at good))
