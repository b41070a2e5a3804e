-- ===== src/Kernel/Merkle/Tree.antt =====
-- buildMerkleTree of merkle/merkle.ts: its levels over well-formed hashes.
use verity_os_v.Base.{
  ◌+◌, ◌/◌, ◌++◌, Str, List, [], ◌∷◌, ok, ◌≡◌, refl, arith, length, All, >>=-eq-ok,
}
use verity_os_v.Kernel.Noble.{Noble, Lawful, IsHash}
use verity_os_v.Kernel.Merkle.{hash_pair, next_level, hex_to_bytes}

module _ (n : Noble) where
  -- The parts of a level that was built.
  pub next_level-pair :
      (x y : Str) (rest ys : List Str)
      → next_level n (x ∷ y ∷ rest) ≡ ok ys
      → (p : Str) × (above : List Str) × (hash_pair n x y ≡ ok p)
        × (next_level n rest ≡ ok above)
        × (ys ≡ p ∷ above)
  unfolding next_level
  next_level-pair x y rest ys e =
      let (p, ep, e') = >>=-eq-ok (hash_pair n x y) _ e in
      let (above, ea, e'') = >>=-eq-ok (next_level n rest) _ e' in (p, above, ep, ea, cc)

  pub next_level-single :
      (x : Str) (ys : List Str)
      → next_level n (x ∷ []) ≡ ok ys
      → (p : Str) × (hash_pair n x x ≡ ok p) × (ys ≡ p ∷ [])
  unfolding next_level
  next_level-single x ys e = let (p, ep, e') = >>=-eq-ok (hash_pair n x x) _ e in (p, ep, cc)

  pub length-next_level :
      (xs ys : List Str) → next_level n xs ≡ ok ys → length ys ≡ (length xs + 1) / 2
  unfolding next_level
  length-next_level [] ys e = ground arith
  length-next_level (x ∷ []) ys e = let (p, _, ey) = next_level-single x ys e in rw ey (omega arith)
  length-next_level (x ∷ y ∷ rest) ys e =
      let (p, above, _, ea, ey) = next_level-pair x y rest ys e in
      rw ey (omega (arith, length-next_level rest above ea))

module _ (n : Noble) (w : Lawful n) where
  pub hash_pair_total :
      (l r : Str) → IsHash l → IsHash r → (p : Str) × (hash_pair n l r ≡ ok p) × IsHash p
  unfolding hash_pair hex_to_bytes
  hash_pair_total l r hl hr =
      let (a, ea, _, _) = w.hash_decodes l hl in
      let (b, eb, _, _) = w.hash_decodes r hr in
      (n.bytes_to_hex (n.sha256 (a ++ b)), rw (ea, eb), w.digest_IsHash (a ++ b))

  pub next_level_total :
      (xs : List Str)
      → All IsHash xs
      → (ys : List Str) × (next_level n xs ≡ ok ys)
        × All IsHash ys
        × (length ys ≡ (length xs + 1) / 2)
  unfolding next_level
  next_level_total [] h = ([], refl, tt, omega arith)
  next_level_total (x ∷ []) h =
      let (p, e, hp) = hash_pair_total x x h.0 h.0 in (p ∷ [], rw e, (hp, tt), omega arith)
  next_level_total (x ∷ y ∷ rest) h =
      let (p, e, hp) = hash_pair_total x y h.0 h.1.0 in
      let (ys, es, hs, len) = next_level_total rest h.1.1 in
      (p ∷ ys, rw (e, es), (hp, hs), omega arith)
