-- ===== src/Kernel/Merkle/Binding.antt =====
-- computeMerkleRoot of merkle/merkle.ts: what a root says of the leaves.
use verity_os_v.Base.{
  ℕ, zero, suc, Str, str_eq, str_eq_iff, List, [], ◌∷◌, ◌++◌, some, ok, >>=-eq-ok, Bool-cases, ◌≡◌,
  refl, ap, sym, ◌∙◌, arith, length, All, ◌⊎◌, inl, inr,
}
use verity_os_v.Kernel.Noble.{Noble, Lawful, IsHash, Bytes, Collides}
use verity_os_v.Kernel.Merkle.{
  hash_pair, next_level, hex_to_bytes, grow, MerkleTree, build_merkle_tree, compute_merkle_root,
}
use verity_os_v.Kernel.Merkle.Pairs.{
  PairsCollide, single, first, later, in_level, above, LevelsCollide, TreesCollide,
}
use verity_os_v.Kernel.Merkle.Tree.{
  next_level_total, next_level-pair, next_level-single, length-next_level,
}

append-injective : (a b c d : Bytes) → length a ≡ length c → a ++ b ≡ c ++ d → (a ≡ c) × (b ≡ d)
append-injective [] b [] d len e = (refl, e)
append-injective [] b (y ∷ c) d len e = absurd (omega arith)
append-injective (x ∷ a) b [] d len e = absurd (omega arith)
append-injective (x ∷ a) b (y ∷ c) d len e =
    let (ea, eb) = append-injective a b c d (omega arith) (cc) in (cc, eb)

module _ (n : Noble) (w : Lawful n) where
  -- Equal digests in hex come from equal inputs, or show two inputs of one digest.
  pub digest_binding :
      (a b : Bytes)
      → n.bytes_to_hex (n.sha256 a) ≡ n.bytes_to_hex (n.sha256 b)
      → (a ≡ b) ⊎ Collides n a b
  digest_binding a b e =
      let same : n.sha256 a ≡ n.sha256 b = cc (w.digest_round a, w.digest_round b) in
      elim (Bool-cases (str_eq a b)) [
        | inl h ↦ inl ((str_eq_iff a b).0 h)
        | inr h ↦ inr ((λ p. ground (arith, str_eq_iff a b)), same)
      ]

  hash_pair-bytes :
      (l r : Str) (p : Str)
      → IsHash l
      → IsHash r
      → hash_pair n l r ≡ ok p
      → (a : Bytes) × (b : Bytes) × (n.hex_to_bytes l ≡ some a)
        × (n.hex_to_bytes r ≡ some b)
        × (length a ≡ 32)
        × (n.bytes_to_hex a ≡ l)
        × (n.bytes_to_hex b ≡ r)
        × (p ≡ n.bytes_to_hex (n.sha256 (a ++ b)))
  unfolding hash_pair hex_to_bytes
  hash_pair-bytes l r p hl hr e =
      let (a, ea, la, xa) = w.hash_decodes l hl in
      let (b, eb, lb, xb) = w.hash_decodes r hr in
      (a, b, ea, eb, la, xa, xb, ground (arith, ea, eb))

  pub hash_pair-binding :
      (l r l' r' p : Str)
      → IsHash l
      → IsHash r
      → IsHash l'
      → IsHash r'
      → hash_pair n l r ≡ ok p
      → hash_pair n l' r' ≡ ok p
      → ((l ≡ l') × (r ≡ r')) ⊎ PairsCollide n l r l' r'
  hash_pair-binding l r l' r' p hl hr hl' hr' e e' =
      let (a, b, da, db, la, xa, xb, pa) = hash_pair-bytes l r p hl hr e in
      let (a', b', da', db', la', xa', xb', pa') = hash_pair-bytes l' r' p hl' hr' e' in
      elim (digest_binding (a ++ b) (a' ++ b') (cc)) [
        | inl same ↦ let (ea, eb) = append-injective a b a' b' (omega arith) same in inl (cc, cc)
        | inr c ↦ inr (record {
          input = a ++ b;
          input' = a' ++ b';
          is_input = record {
            left_bytes = a;
            right_bytes = b;
            left_decodes = da;
            right_decodes = db;
            joined = refl;
          };
          is_input' = record {
            left_bytes = a';
            right_bytes = b';
            left_decodes = da';
            right_decodes = db';
            joined = refl;
          };
          collide = c;
        })
      ]

  next_level-binding :
      (xs ys zs : List Str)
      → All IsHash xs
      → All IsHash ys
      → length xs ≡ length ys
      → next_level n xs ≡ ok zs
      → next_level n ys ≡ ok zs
      → (xs ≡ ys) ⊎ LevelsCollide n xs ys
  next_level-binding [] [] zs hx hy len e f = inl refl
  next_level-binding [] (y ∷ ys) zs hx hy len e f = absurd (omega arith)
  next_level-binding (x ∷ xs) [] zs hx hy len e f = absurd (omega arith)
  next_level-binding (x ∷ []) (y ∷ []) zs hx hy len e f =
      let (p, ep, ez) = next_level-single n x zs e in
      let (q, eq, fz) = next_level-single n y zs f in
      let same : p ≡ q = cc in
      elim (hash_pair-binding x x y y q hx.0 hx.0 hy.0 hy.0 (ep ∙ ap ok same) eq) [
        | inl h ↦ inl (cc)
        | inr c ↦ inr (record {
          l = x;
          r = x;
          l' = y;
          r' = y;
          pair = single x;
          pair' = single y;
          collide = c;
        })
      ]
  next_level-binding (x ∷ []) (y ∷ y' ∷ ys) zs hx hy len e f = absurd (omega arith)
  next_level-binding (x ∷ x' ∷ xs) (y ∷ []) zs hx hy len e f = absurd (omega arith)
  next_level-binding (x ∷ x' ∷ xs) (y ∷ y' ∷ ys) zs hx hy len e f =
      let (p, us, ep, ea, ez) = next_level-pair n x x' xs zs e in
      let (q, vs, eq, fa, fz) = next_level-pair n y y' ys zs f in
      let same : p ≡ q = cc in
      let above : us ≡ vs = cc in
      elim (hash_pair-binding x x' y y' q hx.0 hx.1.0 hy.0 hy.1.0 (ep ∙ ap ok same) eq) [
        | inl h ↦
            elim (next_level-binding xs ys vs hx.1.1 hy.1.1 (omega arith) (ea ∙ ap ok above) fa) [
              | inl h' ↦ inl (cc)
              | inr c ↦ inr (record {
                l = c.l;
                r = c.r;
                l' = c.l';
                r' = c.r';
                pair = later x x' c.pair;
                pair' = later y y' c.pair';
                collide = c.collide;
              })
            ]
        | inr c ↦ inr (record {
          l = x;
          r = x';
          l' = y;
          r' = y';
          pair = first x x' xs;
          pair' = first y y' ys;
          collide = c;
        })
      ]

  -- The last two nodes of a built tree: what `grow` does above one level.
  grow-next :
      (fuel : ℕ) (x y : Str) (rest : List Str) (t : MerkleTree)
      → grow n (suc fuel) (x ∷ y ∷ rest) ≡ ok t
      → (next : List Str) × (u : MerkleTree) × (next_level n (x ∷ y ∷ rest) ≡ ok next)
        × (grow n fuel next ≡ ok u)
        × (t.root ≡ u.root)
  unfolding grow
  grow-next fuel x y rest t e =
      let (next, en, e') = >>=-eq-ok (next_level n (x ∷ y ∷ rest)) _ e in
      let (u, eu, e'') = >>=-eq-ok (grow n fuel next) _ e' in (next, u, en, eu, ground arith)

  in_lowest :
      (x x' y y' : Str) (xs ys : List Str)
      → (x ∷ x' ∷ xs ≡ y ∷ y' ∷ ys) ⊎ LevelsCollide n (x ∷ x' ∷ xs) (y ∷ y' ∷ ys)
      → (x ∷ x' ∷ xs ≡ y ∷ y' ∷ ys) ⊎ TreesCollide n (x ∷ x' ∷ xs) (y ∷ y' ∷ ys)
  in_lowest x x' y y' xs ys (inl same) = inl same
  in_lowest x x' y y' xs ys (inr c) = inr (record {
    l = c.l;
    r = c.r;
    l' = c.l';
    r' = c.r';
    pair = in_level c.pair;
    pair' = in_level c.pair';
    collide = c.collide;
  })

  grow-binding :
      (fuel : ℕ) (xs ys : List Str) (t u : MerkleTree)
      → All IsHash xs
      → All IsHash ys
      → length xs ≡ length ys
      → grow n fuel xs ≡ ok t
      → grow n fuel ys ≡ ok u
      → t.root ≡ u.root
      → (xs ≡ ys) ⊎ TreesCollide n xs ys
  unfolding grow
  grow-binding zero xs ys t u hx hy len e f r = cc
  grow-binding (suc fuel) [] ys t u hx hy len e f r = cc
  grow-binding (suc fuel) (x ∷ xs) [] t u hx hy len e f r = cc
  grow-binding (suc fuel) (x ∷ []) (y ∷ []) t u hx hy len e f r = inl (ground arith)
  grow-binding (suc fuel) (x ∷ []) (y ∷ y' ∷ ys) t u hx hy len e f r = absurd (omega arith)
  grow-binding (suc fuel) (x ∷ x' ∷ xs) (y ∷ []) t u hx hy len e f r = absurd (omega arith)
  grow-binding (suc fuel) (x ∷ x' ∷ xs) (y ∷ y' ∷ ys) t u hx hy len e f r =
      let (us, t', ea, et, rt) = grow-next fuel x x' xs t e in
      let (vs, u', eb, eu, ru) = grow-next fuel y y' ys u f in
      let (us', ea', ha', _) = next_level_total n w (x ∷ x' ∷ xs) hx in
      let (vs', eb', hb', _) = next_level_total n w (y ∷ y' ∷ ys) hy in
      let pa : us' ≡ us = cc in
      let pb : vs' ≡ vs = cc in
      elim (grow-binding fuel us vs t' u' (rw pa at ha') (rw pb at hb')
        (omega
          (arith, length-next_level n (x ∷ x' ∷ xs) us ea, length-next_level n (y ∷ y' ∷ ys) vs eb))
        et eu (cc)) [
          | inl same ↦
              in_lowest x x' y y' xs ys
                (next_level-binding (x ∷ x' ∷ xs) (y ∷ y' ∷ ys) vs hx hy len (ea ∙ ap ok same) eb)
          | inr c ↦ inr (record {
            l = c.l;
            r = c.r;
            l' = c.l';
            r' = c.r';
            pair = above ea c.pair;
            pair' = above eb c.pair';
            collide = c.collide;
          })
        ]

  -- With lawful hashing, two lists of hashes of one length with one Merkle root are equal, or the
  -- trees hold a pair of nodes each whose bytes are different and have one digest.
  pub root_binding :
      (xs ys : List Str) (r : Str)
      → All IsHash xs
      → All IsHash ys
      → length xs ≡ length ys
      → compute_merkle_root n xs ≡ ok r
      → compute_merkle_root n ys ≡ ok r
      → (xs ≡ ys) ⊎ TreesCollide n xs ys
  unfolding compute_merkle_root build_merkle_tree
  root_binding [] [] r hx hy len e f = inl refl
  root_binding [] (y ∷ ys) r hx hy len e f = absurd (omega arith)
  root_binding (x ∷ xs) [] r hx hy len e f = absurd (omega arith)
  root_binding (x ∷ xs) (y ∷ ys) r hx hy len e f =
      let same : length ys ≡ length xs = sym (omega arith) in
      let (t, et, e') = >>=-eq-ok (grow n (length (x ∷ xs)) (x ∷ xs)) _ e in
      let (u, eu, f') = >>=-eq-ok (grow n (length (y ∷ ys)) (y ∷ ys)) _ f in
      grow-binding (length (x ∷ xs)) (x ∷ xs) (y ∷ ys) t u hx hy len et
        (ap (λ k. grow n (suc k) (y ∷ ys)) (sym same) ∙ eu) (cc)
