-- ===== src/Kernel/Merkle/Completeness.antt =====
-- getMerkleProof of merkle/merkle.ts, and the proofs that it returns.
use verity_os_v.Base.{
  ℕ, zero, suc, ◌+◌, ◌-◌, ◌/◌, ◌%◌, ◌<◌, ◌≤◌, Str, str_eq_refl, List, [], ◌∷◌, ok, some, true, ◌≡◌,
  refl, arith, length, All, get_or, inl, inr, ltb, ltb_iff, Bool-cases, All-get_or, ◌==◌, ◌∙◌,
}
use verity_os_v.Kernel.Noble.{Noble, Lawful, IsHash}
use verity_os_v.Kernel.Merkle.{
  next_level, grow, MerkleTree, MerkleProof, MerkleProofStep, left, right, build_merkle_tree,
  compute_merkle_root, get_merkle_proof, verify_merkle_proof, fold_proof, proof_step, proof_steps,
}
use verity_os_v.Kernel.Merkle.Tree.{next_level_total, next_level-pair}

proof_step-pair :
    (x y : Str) (rest : List Str) (j : ℕ)
    → j < length rest
    → proof_step (x ∷ y ∷ rest) (suc (suc j)) ≡ proof_step rest j
unfolding proof_step
proof_step-pair x y rest zero h = ground arith
proof_step-pair x y rest (suc j) h = ground arith

proof_step-left :
    (x y : Str) (rest : List Str)
    → proof_step (x ∷ y ∷ rest) 0 ≡ record { sibling_hash = y; position = right }
unfolding proof_step
proof_step-left x y rest = ground arith

proof_step-right :
    (x y : Str) (rest : List Str)
    → proof_step (x ∷ y ∷ rest) 1 ≡ record { sibling_hash = x; position = left }
unfolding proof_step
proof_step-right x y rest = ground arith

half-suc-suc : (j : ℕ) → suc (suc j) / 2 ≡ suc (j / 2)
half-suc-suc j = omega arith

-- The siblings of a proof are hashes.
abbrev pub AreHashes : List MerkleProofStep → Type 0
AreHashes = All (λ s. IsHash s.sibling_hash)

proof_step-IsHash :
    (xs : List Str) (i : ℕ) → All IsHash xs → i < length xs → IsHash (proof_step xs i).sibling_hash
unfolding proof_step
proof_step-IsHash xs i h lt = elim (Bool-cases (i % 2 == 0)) [
  | inl even ↦ elim (Bool-cases (ltb (i + 1) (length xs))) [
    | inl inside ↦
        rw (even, inside)
          (All-get_or IsHash xs (i + 1) [] h ((ltb_iff (i + 1) (length xs)).0 inside))
    | inr last ↦ rw (even, last) (All-get_or IsHash xs i [] h lt)
  ]
  | inr odd ↦ rw odd (All-get_or IsHash xs (i - 1) [] h (omega arith))
]

module _ (n : Noble) where
  -- The steps from the first two nodes of a level, and from a single one.
  fold_proof-single :
      (x : Str) (ys : List Str) (p : List MerkleProofStep)
      → next_level n (x ∷ []) ≡ ok ys
      → fold_proof n x (proof_step (x ∷ []) 0 ∷ p) ≡ fold_proof n (get_or ys 0 []) p
  unfolding fold_proof next_level proof_step
  fold_proof-single x ys p e = ground arith

  fold_proof-left :
      (x y : Str) (rest ys : List Str) (p : List MerkleProofStep)
      → next_level n (x ∷ y ∷ rest) ≡ ok ys
      → fold_proof n x (proof_step (x ∷ y ∷ rest) 0 ∷ p) ≡ fold_proof n (get_or ys 0 []) p
  unfolding fold_proof
  fold_proof-left x y rest ys p e =
      let (q, above, eq, _, ey) = next_level-pair n x y rest ys e in
      rw (proof_step-left x y rest, ey, eq)

  fold_proof-right :
      (x y : Str) (rest ys : List Str) (p : List MerkleProofStep)
      → next_level n (x ∷ y ∷ rest) ≡ ok ys
      → fold_proof n y (proof_step (x ∷ y ∷ rest) 1 ∷ p) ≡ fold_proof n (get_or ys 0 []) p
  unfolding fold_proof
  fold_proof-right x y rest ys p e =
      let (q, above, eq, _, ey) = next_level-pair n x y rest ys e in
      rw (proof_step-right x y rest, ey, eq)

  -- One step of a proof leads from a node to its parent in the next level.
  pub fold_proof-step :
      (xs ys : List Str) (i : ℕ) (p : List MerkleProofStep)
      → next_level n xs ≡ ok ys
      → i < length xs
      → fold_proof n (get_or xs i []) (proof_step xs i ∷ p) ≡ fold_proof n (get_or ys (i / 2) []) p
  fold_proof-step [] ys i p e h = absurd (omega arith)
  fold_proof-step (x ∷ []) ys zero p e h = fold_proof-single x ys p e
  fold_proof-step (x ∷ []) ys (suc i) p e h = absurd (omega arith)
  fold_proof-step (x ∷ y ∷ rest) ys zero p e h = fold_proof-left x y rest ys p e
  fold_proof-step (x ∷ y ∷ rest) ys (suc zero) p e h = fold_proof-right x y rest ys p e
  fold_proof-step (x ∷ y ∷ rest) ys (suc (suc i)) p e h =
      let (q, above, _, ea, ey) = next_level-pair n x y rest ys e in
      rw (proof_step-pair x y rest i (omega arith), half-suc-suc i, ey)
        (fold_proof-step rest above i p ea (omega arith))

  -- `grow` keeps the level that it starts from as the first layer.
  abbrev Starts : List Str → MerkleTree → Type 0
  Starts xs t = (more : List (List Str)) × (t.layers ≡ xs ∷ more)

  -- What a tree proves of the nodes of its first layer.
  abbrev Proves : List Str → MerkleTree → Type 0
  Proves xs t =
      (i : ℕ)
      → i < length xs
      → (fold_proof n (get_or xs i []) (proof_steps t.layers i) ≡ ok (some t.root))
        × AreHashes (proof_steps t.layers i)

  Proves-single : (x : Str) → Proves (x ∷ []) (record { root = x; layers = (x ∷ []) ∷ [] })
  unfolding proof_steps fold_proof
  Proves-single x zero h = (refl, tt)
  Proves-single x (suc i) h = absurd (omega arith)

  Proves-next :
      (xs ys : List Str) (t : MerkleTree)
      → next_level n xs ≡ ok ys
      → length ys ≡ (length xs + 1) / 2
      → All IsHash xs
      → Starts ys t
      → Proves ys t
      → Proves xs (record { root = t.root; layers = xs ∷ t.layers })
  unfolding proof_steps
  Proves-next xs ys t e len hx (more, em) fold i h =
      let (above, hashes) = rw em at fold (i / 2) (omega arith) in
      rw em (
        fold_proof-step xs ys i (proof_steps (ys ∷ more) (i / 2)) e h ∙ above,
        (proof_step-IsHash xs i hx h, hashes),
      )

module _ (n : Noble) (w : Lawful n) where
  pub grow_complete :
      (fuel : ℕ) (xs : List Str)
      → 0 < length xs
      → length xs ≤ fuel
      → All IsHash xs
      → (t : MerkleTree) × (grow n fuel xs ≡ ok t) × Starts n xs t × Proves n xs t
  unfolding grow
  grow_complete fuel [] pos len h = absurd (omega arith)
  grow_complete zero (x ∷ xs) pos len h = absurd (omega arith)
  grow_complete (suc fuel) (x ∷ []) pos len h =
      (record { root = x; layers = (x ∷ []) ∷ [] }, refl, ([], refl), Proves-single n x)
  grow_complete (suc fuel) (x ∷ y ∷ rest) pos len h =
      let (ys, e, hys, lys) = next_level_total n w (x ∷ y ∷ rest) h in
      let (t, et, (more, em), fold) = grow_complete fuel ys (omega arith) (omega arith) hys in
      (
        record { root = t.root; layers = (x ∷ y ∷ rest) ∷ t.layers },
        rw (e, et),
        (t.layers, refl),
        Proves-next n (x ∷ y ∷ rest) ys t e lys h (more, em) fold,
      )

  -- For well-formed leaf hashes, one at least, and an index in range: the proof is built of hashes,
  -- its root is the computed one, and it is accepted for the leaf and that root.
  pub verify-get_proof :
      (leaves : List Str) (i : ℕ)
      → All IsHash leaves
      → i < length leaves
      → (p : MerkleProof) × (get_merkle_proof n leaves i ≡ ok p)
        × (compute_merkle_root n leaves ≡ ok p.root)
        × (verify_merkle_proof n (get_or leaves i []) p.proof p.root ≡ ok true)
        × AreHashes p.proof
  unfolding get_merkle_proof compute_merkle_root build_merkle_tree verify_merkle_proof
  verify-get_proof [] i h lt = absurd (omega arith)
  verify-get_proof (x ∷ xs) i h lt =
      let (t, et, _, fold) =
        grow_complete (length (x ∷ xs)) (x ∷ xs) (omega arith) (omega arith) h in
      (
        record { proof = proof_steps t.layers i; root = t.root },
        rw ((ltb_iff i (length (x ∷ xs))).1 lt, et),
        rw et,
        rw ((fold i lt).0, str_eq_refl t.root),
        (fold i lt).1,
      )
