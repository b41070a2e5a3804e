-- ===== src/Kernel/Merkle/Pairs.antt =====
-- The pairs of nodes that buildMerkleTree and verifyMerkleProof of merkle/merkle.ts hash, and the bytes
-- that they hash for them.
use verity_os_v.Base.{Str, List, [], ◌∷◌, ◌++◌, some, ok, ◌≡◌}
use verity_os_v.Kernel.Noble.{Noble, Bytes, Collides}
use verity_os_v.Kernel.Merkle.{hash_pair, next_level, MerkleProofStep, left, right}

-- The bytes of the two nodes, one behind the other.
pub record IsInput (n : Noble) (l r : Str) (m : Bytes) : Type 0 where
  pub left_bytes : Bytes
  pub right_bytes : Bytes
  pub left_decodes : n.hex_to_bytes l ≡ some left_bytes
  pub right_decodes : n.hex_to_bytes r ≡ some right_bytes
  pub joined : m ≡ left_bytes ++ right_bytes

-- The bytes hashed for the two pairs are different and have one digest.
pub record PairsCollide (n : Noble) (l r l' r' : Str) : Type 0 where
  pub input : Bytes
  pub input' : Bytes
  pub is_input : IsInput n l r input
  pub is_input' : IsInput n l' r' input'
  pub collide : Collides n input input'

-- The pairs of one level.
pub data LevelPair : List Str → Str → Str → Type 0 where
  single : (x : Str) → LevelPair (x ∷ []) x x
  first : (x y : Str) (rest : List Str) → LevelPair (x ∷ y ∷ rest) x y
  later :
      (x y : Str) {rest : List Str} {l r : Str} → LevelPair rest l r → LevelPair (x ∷ y ∷ rest) l r

-- The pairs of a tree: those of its lowest level, and those of the levels above.
pub data TreePair (n : Noble) : List Str → Str → Str → Type 0 where
  in_level :
      {x y : Str} {rest : List Str} {l r : Str}
      → LevelPair (x ∷ y ∷ rest) l r
      → TreePair n (x ∷ y ∷ rest) l r
  above :
      {x y : Str} {rest next : List Str} {l r : Str}
      → next_level n (x ∷ y ∷ rest) ≡ ok next
      → TreePair n next l r
      → TreePair n (x ∷ y ∷ rest) l r

-- The pairs that a proof leads through.
pub data ProofPair (n : Noble) : Str → List MerkleProofStep → Str → Str → Type 0 where
  on_left :
      {x : Str} {s : MerkleProofStep} {p : List MerkleProofStep}
      → s.position ≡ left
      → ProofPair n x (s ∷ p) s.sibling_hash x
  on_right :
      {x : Str} {s : MerkleProofStep} {p : List MerkleProofStep}
      → s.position ≡ right
      → ProofPair n x (s ∷ p) x s.sibling_hash
  above_left :
      {x above l r : Str} {s : MerkleProofStep} {p : List MerkleProofStep}
      → s.position ≡ left
      → hash_pair n s.sibling_hash x ≡ ok above
      → ProofPair n above p l r
      → ProofPair n x (s ∷ p) l r
  above_right :
      {x above l r : Str} {s : MerkleProofStep} {p : List MerkleProofStep}
      → s.position ≡ right
      → hash_pair n x s.sibling_hash ≡ ok above
      → ProofPair n above p l r
      → ProofPair n x (s ∷ p) l r

-- A pair of each of the two levels, and the pairs collide.
pub record LevelsCollide (n : Noble) (xs ys : List Str) : Type 0 where
  pub l : Str
  pub r : Str
  pub l' : Str
  pub r' : Str
  pub pair : LevelPair xs l r
  pub pair' : LevelPair ys l' r'
  pub collide : PairsCollide n l r l' r'

pub record TreesCollide (n : Noble) (xs ys : List Str) : Type 0 where
  pub l : Str
  pub r : Str
  pub l' : Str
  pub r' : Str
  pub pair : TreePair n xs l r
  pub pair' : TreePair n ys l' r'
  pub collide : PairsCollide n l r l' r'

pub record ProofsCollide (n : Noble) (x y : Str) (p q : List MerkleProofStep) : Type 0 where
  pub l : Str
  pub r : Str
  pub l' : Str
  pub r' : Str
  pub pair : ProofPair n x p l r
  pub pair' : ProofPair n y q l' r'
  pub collide : PairsCollide n l r l' r'
