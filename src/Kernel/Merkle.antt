-- ===== src/Kernel/Merkle.antt =====
-- merkle/merkle.ts: the tree over the entry hashes of a checkpoint, proofs and their check. Hashes
-- are hex strings; hexToBytes throws on text that is no hex, and so do the functions that call it.
pub mod Tree
pub mod Completeness
pub mod Pairs
pub mod Binding
pub mod Soundness
pub mod Duplicate
use verity_os_v.Base.{
  ℕ, zero, suc, ◌+◌, ◌-◌, ◌/◌, ◌%◌, Str, str_eq, Bool, false, List, [], ◌∷◌, ◌++◌, Option, none,
  some, ok, throw, ◌>>=◌, or_throw, if◌then◌else◌, ltb, ◌==◌, length, get_or,
}
use verity_os_v.Kernel.Noble.{Noble, Bytes}
use verity_os_v.Kernel.Error.{Throws, malformed_hex, leaf_index_out_of_range, no_root}

-- `other` is any string but "left" and "right", as it may stand in a file that is checked.
pub data Position : Type 0 where
  left right other : Position

pub record MerkleProofStep : Type 0 where
  pub sibling_hash : Str
  pub position : Position

pub record MerkleTree : Type 0 where
  pub root : Str
  pub layers : List (List Str)

pub record MerkleProof : Type 0 where
  pub proof : List MerkleProofStep
  pub root : Str

module _ (n : Noble) where
  unfoldable pub hex_to_bytes : Str → Throws Bytes
  hex_to_bytes s = or_throw malformed_hex (n.hex_to_bytes s)

  unfoldable pub hash_pair : Str → Str → Throws Str
  hash_pair left_hex right_hex = do
    l ← hex_to_bytes left_hex
    r ← hex_to_bytes right_hex
    ok (n.bytes_to_hex (n.sha256 (l ++ r)))

  -- One round of the `for` loop over pairs: a last node without a partner is paired with itself.
  unfoldable pub next_level : List Str → Throws (List Str)
  next_level [] = ok []
  next_level (x ∷ []) = do p ← hash_pair x x; ok (p ∷ [])
  next_level (x ∷ y ∷ rest) = do p ← hash_pair x y; above ← next_level rest; ok (p ∷ above)

  -- `while (current.length > 1)`. Each level has about half the nodes of the one below, so the
  -- number of leaves is fuel enough.
  unfoldable pub grow : ℕ → List Str → Throws MerkleTree
  grow zero current = throw no_root
  grow (suc fuel) [] = throw no_root
  grow (suc fuel) (x ∷ []) = ok (record { root = x; layers = (x ∷ []) ∷ [] })
  grow (suc fuel) (x ∷ y ∷ rest) = do
    next ← next_level (x ∷ y ∷ rest)
    above ← grow fuel next
    ok (record { root = above.root; layers = (x ∷ y ∷ rest) ∷ above.layers })

  unfoldable pub build_merkle_tree : List Str → Throws MerkleTree
  build_merkle_tree [] =
      let empty_hash = n.bytes_to_hex (n.sha256 []) in
      ok (record { root = empty_hash; layers = (empty_hash ∷ []) ∷ [] })
  build_merkle_tree (x ∷ xs) = grow (length (x ∷ xs)) (x ∷ xs)

  unfoldable pub compute_merkle_root : List Str → Throws Str
  compute_merkle_root leaf_hashes = do tree ← build_merkle_tree leaf_hashes; ok tree.root

  -- The loop of verifyMerkleProof: the root that the proof leads to, `none` at the early return.
  unfoldable pub fold_proof : Str → List MerkleProofStep → Throws (Option Str)
  fold_proof current [] = ok (some current)
  fold_proof current (step ∷ proof) = elim step.position [
    | left ↦ do above ← hash_pair step.sibling_hash current; fold_proof above proof
    | right ↦ do above ← hash_pair current step.sibling_hash; fold_proof above proof
    | other ↦ ok none
  ]

  unfoldable pub verify_merkle_proof : Str → List MerkleProofStep → Str → Throws Bool
  verify_merkle_proof leaf_hash proof expected_root = do
    folded ← fold_proof leaf_hash proof
    ok (elim folded [ none ↦ false | some current ↦ str_eq current expected_root ])

-- The step that a proof records at one level: the sibling, a copy of the node where there is none.
unfoldable pub proof_step : List Str → ℕ → MerkleProofStep
proof_step layer idx =
    if idx % 2 == 0
    then record {
      sibling_hash =
          if ltb (idx + 1) (length layer) then get_or layer (idx + 1) [] else get_or layer idx [];
      position = right;
    }
    else record { sibling_hash = get_or layer (idx - 1) []; position = left }

-- The loop of getMerkleProof over all layers but the last.
unfoldable pub proof_steps : List (List Str) → ℕ → List MerkleProofStep
proof_steps [] idx = []
proof_steps (layer ∷ []) idx = []
proof_steps (layer ∷ next ∷ layers) idx =
    proof_step layer idx ∷ proof_steps (next ∷ layers) (idx / 2)

-- An index is a natural number here, so the test `leafIndex < 0` has no counterpart.
unfoldable pub get_merkle_proof : Noble → List Str → ℕ → Throws MerkleProof
get_merkle_proof n leaf_hashes leaf_index =
    if ltb leaf_index (length leaf_hashes)
    then (do
      tree ← build_merkle_tree n leaf_hashes
      ok (record { proof = proof_steps tree.layers leaf_index; root = tree.root }))
    else throw leaf_index_out_of_range
