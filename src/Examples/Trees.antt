-- ===== src/Examples/Trees.antt =====
-- Merkle trees of three leaves, under the checksum that stands for SHA-256.
use verity_os_v.Base.{ℕ, Str, List, [], ◌∷◌, ◌++◌, ok, All, true, ◌≡◌, refl, arith, get_or, ◌⊎◌}
use verity_os_v.Kernel.Noble.{IsHash}
use verity_os_v.Kernel.Noble.Checksum.{checksum_noble, checksum-Lawful}
use verity_os_v.Kernel.Merkle.{
  MerkleProof, MerkleProofStep, get_merkle_proof, compute_merkle_root, verify_merkle_proof,
}
use verity_os_v.Kernel.Merkle.Completeness.{AreHashes, verify-get_proof}
use verity_os_v.Kernel.Merkle.Pairs.{TreesCollide, ProofsCollide}
use verity_os_v.Kernel.Merkle.Binding.{root_binding}
use verity_os_v.Kernel.Merkle.Soundness.{SameSides, verify_sound}
use verity_os_v.Kernel.Merkle.Duplicate.{root_duplicate}

-- The leaf of one byte.
abbrev leaf : ℕ → Str
leaf b = checksum_noble.bytes_to_hex (checksum_noble.sha256 (b ∷ []))

leaf-IsHash : (b : ℕ) → IsHash (leaf b)
leaf-IsHash b = checksum-Lawful.digest_IsHash (b ∷ [])

abbrev three : List Str
three = leaf 1 ∷ leaf 2 ∷ leaf 3 ∷ []

three-AreHashes : All IsHash three
three-AreHashes = (leaf-IsHash 1, (leaf-IsHash 2, (leaf-IsHash 3, tt)))

verify-get_proof_example :
    (p : MerkleProof) × (get_merkle_proof checksum_noble three 2 ≡ ok p)
    × (compute_merkle_root checksum_noble three ≡ ok p.root)
    × (verify_merkle_proof checksum_noble (get_or three 2 []) p.proof p.root ≡ ok true)
    × AreHashes p.proof
verify-get_proof_example =
    verify-get_proof checksum_noble checksum-Lawful three 2 three-AreHashes (omega arith)

-- The proof of the last of the three leaves, and what the code says of it.
last_proof :
    (p : MerkleProof) × (get_merkle_proof checksum_noble three 2 ≡ ok p)
    × (compute_merkle_root checksum_noble three ≡ ok p.root)
    × (verify_merkle_proof checksum_noble (get_or three 2 []) p.proof p.root ≡ ok true)
    × AreHashes p.proof
last_proof = verify-get_proof checksum_noble checksum-Lawful three 2 three-AreHashes (omega arith)

SameSides-refl : (p : List MerkleProofStep) → SameSides p p
SameSides-refl [] = tt
SameSides-refl (s ∷ p) = (refl, SameSides-refl p)

verify_sound_example :
    (get_or three 2 [] ≡ get_or three 2 [])
    ⊎ ProofsCollide checksum_noble
        (get_or three 2 [])
        (get_or three 2 [])
        last_proof.0.proof
        last_proof.0.proof
verify_sound_example =
    verify_sound checksum_noble checksum-Lawful three 2 (get_or three 2 []) last_proof.0
      last_proof.0.proof three-AreHashes (omega arith) (leaf-IsHash 3) last_proof.4 last_proof.1
      (SameSides-refl last_proof.0.proof) last_proof.3

root_binding_example : (three ≡ three) ⊎ TreesCollide checksum_noble three three
root_binding_example =
    root_binding checksum_noble checksum-Lawful three three last_proof.0.root three-AreHashes
      three-AreHashes refl last_proof.2 last_proof.2

root_duplicate_example :
    compute_merkle_root checksum_noble ((leaf 1 ∷ leaf 2 ∷ []) ++ leaf 3 ∷ leaf 3 ∷ [])
    ≡ compute_merkle_root checksum_noble ((leaf 1 ∷ leaf 2 ∷ []) ++ leaf 3 ∷ [])
root_duplicate_example =
    root_duplicate checksum_noble (leaf 1 ∷ leaf 2 ∷ []) (leaf 3) refl (omega arith)
