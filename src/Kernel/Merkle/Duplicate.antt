-- ===== src/Kernel/Merkle/Duplicate.antt =====
-- buildMerkleTree of merkle/merkle.ts: the rule that pairs a last node without a partner with
-- itself.
use verity_os_v.Base.{
  ℕ, zero, suc, ◌+◌, ◌%◌, ◌≤◌, ◌<◌, Str, List, [], ◌∷◌, ◌++◌, ok, ◌>>=◌, ◌≡◌, refl, ap, sym, ◌∙◌,
  arith, length, >>=-agree, >>=-assoc, ◌/◌,
}
use verity_os_v.Kernel.Error.{Throws}
use verity_os_v.Kernel.Noble.{Noble}
use verity_os_v.Kernel.Merkle.{next_level, grow, build_merkle_tree, compute_merkle_root}
use verity_os_v.Kernel.Merkle.Tree.{length-next_level}

module _ (n : Noble) where
  -- More fuel than nodes changes nothing.
  pub grow_fuel :
      (f g : ℕ) (xs : List Str)
      → 0 < length xs
      → length xs ≤ f
      → length xs ≤ g
      → grow n f xs ≡ grow n g xs
  unfolding grow
  grow_fuel f g [] pos lf lg = absurd (omega arith)
  grow_fuel zero g (x ∷ xs) pos lf lg = absurd (omega arith)
  grow_fuel (suc f) zero (x ∷ xs) pos lf lg = absurd (omega arith)
  grow_fuel (suc f) (suc g) (x ∷ []) pos lf lg = refl
  grow_fuel (suc f) (suc g) (x ∷ y ∷ rest) pos lf lg =
      >>=-agree (next_level n (x ∷ y ∷ rest)) _ _ (λ next e.
        let len : length next ≡ (length (x ∷ y ∷ rest) + 1) / 2 =
          length-next_level n (x ∷ y ∷ rest) next e in
        rw (grow_fuel f g next (omega arith) (omega arith) (omega arith)))

  next_level-duplicate :
      (xs : List Str) (a : Str)
      → length xs % 2 ≡ 0
      → next_level n (xs ++ a ∷ a ∷ []) ≡ next_level n (xs ++ a ∷ [])
  unfolding next_level
  next_level-duplicate [] a even = refl
  next_level-duplicate (x ∷ []) a even = absurd (omega arith)
  next_level-duplicate (x ∷ y ∷ xs) a even = rw (next_level-duplicate xs a (omega arith))

  -- The root in terms of the level above the leaves.
  abbrev root_above : Throws (List Str) → Throws Str
  root_above m = m >>= λ next. grow n (length next) next >>= λ t. ok t.root

  root-next :
      (x y : Str) (zs : List Str)
      → compute_merkle_root n (x ∷ y ∷ zs) ≡ root_above (next_level n (x ∷ y ∷ zs))
  unfolding compute_merkle_root build_merkle_tree grow
  root-next x y zs =
      >>=-assoc (next_level n (x ∷ y ∷ zs)) _ _
      ∙ >>=-agree (next_level n (x ∷ y ∷ zs)) _ _ (λ next e.
        let len : length next ≡ (length (x ∷ y ∷ zs) + 1) / 2 =
          length-next_level n (x ∷ y ∷ zs) next e in
        >>=-assoc (grow n (suc (length zs)) next) _ _
        ∙ rw (
            grow_fuel (suc (length zs)) (length next) next (omega arith) (omega arith)
              (omega arith)))

  -- Where the leaves before the last one are even in number and there are some, writing the last
  -- leaf twice leaves the result, root or error, as it is.
  pub root_duplicate :
      (xs : List Str) (a : Str)
      → length xs % 2 ≡ 0
      → 0 < length xs
      → compute_merkle_root n (xs ++ a ∷ a ∷ []) ≡ compute_merkle_root n (xs ++ a ∷ [])
  root_duplicate [] a even pos = absurd (omega arith)
  root_duplicate (x ∷ []) a even pos = absurd (omega arith)
  root_duplicate (x ∷ y ∷ xs) a even pos =
      root-next x y (xs ++ a ∷ a ∷ [])
      ∙ ap root_above (next_level-duplicate (x ∷ y ∷ xs) a even)
      ∙ sym (root-next x y (xs ++ a ∷ []))
