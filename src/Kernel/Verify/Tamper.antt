-- ===== src/Kernel/Verify/Tamper.antt =====
-- verifyOrganizationChain of verify/verify.ts: the entries of an accepted export.
use verity_os_v.Base.{
  ℕ, suc, ◌+◌, Str, sort_by, sort-id, List, [], ◌∷◌, map, Option, none, some, ok, ◌≡◌, refl, sym,
  ap, ◌∙◌, arith, length, All, Member, ◌⊎◌, inl, inr, Sorted, subst,
}
use verity_os_v.Kernel.Noble.{Noble, Lawful}
use verity_os_v.Kernel.Hash.{V2HashPayload, compute_entry_hash}
use verity_os_v.Kernel.Hash.Binding.{HasUnits, PayloadsCollide, entry_hash_binding}
use verity_os_v.Kernel.Rows.{LedgerEntryRow, Db}
use verity_os_v.Kernel.Ledger.{Host, AppendLedgerInput, get_ledger_entries}
use verity_os_v.Kernel.Ledger.Chain.{Chain, row_payload, last_hash}
use verity_os_v.Kernel.Ledger.Invariant.{
  IsChained, get_entries-IsChained, run_appends, run_appends-IsChained,
}
use verity_os_v.Kernel.Verify.{ExportedEntry, exported_lt, verify_organization_chain}
use verity_os_v.Kernel.Verify.ChainCheck.{rows, accepted, verify-Chain_iff}

abbrev pub payloads : List LedgerEntryRow → List V2HashPayload
payloads = map row_payload

some-injective {ℓ} : {A : Type ℓ} {a b : A} → some a ≡ some b → a ≡ b
some-injective h = cc

cons-same {ℓ} : {A : Type ℓ} {x y : A} {xs ys : List A} → x ≡ y → xs ≡ ys → x ∷ xs ≡ y ∷ ys
cons-same h k = cc

pub Chain-exported_Sorted :
    (n : Noble) (sequence : ℕ) (previous : Option Str) (entries : List ExportedEntry)
    → Chain n sequence previous (rows entries)
    → Sorted exported_lt entries
Chain-exported_Sorted n sequence previous [] c = tt
Chain-exported_Sorted n sequence previous (e ∷ []) c = tt
Chain-exported_Sorted n sequence previous (e ∷ f ∷ es) c =
    let a = c.0.sequence_is in
    let b = c.1.0.sequence_is in
    (ground (arith, a, b), Chain-exported_Sorted n (suc sequence) (some e.entry_hash) (f ∷ es) c.1)

-- An export of what any appends made of a chained ledger is accepted: the verifier reports no
-- issue, whichever proofs the entries carry.
pub verify-run_appends :
    (n : Noble) (calls : List (Host × AppendLedgerInput)) (db : Db) (org : Str)
    (entries : List ExportedEntry)
    → IsChained n org db
    → rows entries ≡ get_ledger_entries org (run_appends n calls db)
    → verify_organization_chain n entries ≡ ok accepted
verify-run_appends n calls db org entries c exported =
    let end = run_appends-IsChained n calls db org c in
    let chain : Chain n 1 none (rows entries) =
      subst (Chain n 1 none) (sym (exported ∙ get_entries-IsChained n org _ end)) end.chained in
    let ordered = sort-id exported_lt entries (Chain-exported_Sorted n 1 none entries chain) in
    (verify-Chain_iff n entries).1 (subst (λ es. Chain n 1 none (rows es)) (sym ordered) chain)

-- The last entry of a chain: its hash is the chain's last, and its sequence tells the length.
record IsLast (n : Noble) (sequence : ℕ) (previous : Option Str) (es : List LedgerEntryRow)
    (e : LedgerEntryRow) : Type 0 where
  hashed : compute_entry_hash n (row_payload e) ≡ ok e.entry_hash
  units : HasUnits (row_payload e)
  sequence_is : suc e.organization_sequence ≡ sequence + length es
  hash_is : last_hash previous es ≡ some e.entry_hash
  in_chain : Member (row_payload e) (payloads es)

Chain-IsLast :
    (n : Noble) (sequence : ℕ) (previous : Option Str) (e : LedgerEntryRow)
    (es : List LedgerEntryRow)
    → Chain n sequence previous (e ∷ es)
    → All HasUnits (payloads (e ∷ es))
    → (l : LedgerEntryRow) × IsLast n sequence previous (e ∷ es) l
Chain-IsLast n sequence previous e [] (next, c) u = (
  e,
  record {
    hashed = next.hashed;
    units = u.0;
    sequence_is = omega (arith, next.sequence_is);
    hash_is = refl;
    in_chain = inl refl;
  },
)
Chain-IsLast n sequence previous e (f ∷ es) (next, c) u =
    let (l, h) = Chain-IsLast n (suc sequence) (some e.entry_hash) f es c u.1 in
    (
      l,
      record {
        hashed = h.hashed;
        units = h.units;
        sequence_is = omega (arith, h.sequence_is);
        hash_is = h.hash_is;
        in_chain = inr h.in_chain;
      },
    )

-- A payload of each of the two lists, and the payloads collide.
pub record ChainsCollide (n : Noble) (ps qs : List V2HashPayload) : Type 0 where
  pub p : V2HashPayload
  pub q : V2HashPayload
  pub in_first : Member p ps
  pub in_second : Member q qs
  pub collide : PayloadsCollide n p q

module _ (n : Noble) (w : Lawful n) where
  -- Chains of one length and one last hash have the same payloads.
  same_length_binding :
      (sequence : ℕ) (p q : Option Str) (es fs : List LedgerEntryRow)
      → length es ≡ length fs
      → Chain n sequence p es
      → Chain n sequence q fs
      → All HasUnits (payloads es)
      → All HasUnits (payloads fs)
      → last_hash p es ≡ last_hash q fs
      → ((p ≡ q) × (payloads es ≡ payloads fs)) ⊎ ChainsCollide n (payloads es) (payloads fs)
  same_length_binding sequence p q [] [] len c d u v h = inl (h, refl)
  same_length_binding sequence p q [] (f ∷ fs) len c d u v h = ground (arith, len)
  same_length_binding sequence p q (e ∷ es) [] len c d u v h = ground (arith, len)
  same_length_binding sequence p q (e ∷ es) (f ∷ fs) len (a, c) (b, d) u v h =
      elim (same_length_binding (suc sequence) (some e.entry_hash) (some f.entry_hash) es fs
        (omega (arith, len)) c d u.1 v.1 h) [
          | inl (hash, rest) ↦
              elim (entry_hash_binding n w (row_payload e) (row_payload f) e.entry_hash u.0 v.0
                a.hashed (b.hashed ∙ ap ok (sym (some-injective hash)))) [
                  | inl same ↦ inl (
                    sym a.previous_is ∙ ap (λ x. x.previous_entry_hash) same ∙ b.previous_is,
                    cons-same same rest,
                  )
                  | inr found ↦ inr (record {
                    p = row_payload e;
                    q = row_payload f;
                    in_first = inl refl;
                    in_second = inl refl;
                    collide = found;
                  })
                ]
          | inr c ↦ inr (record {
            p = c.p;
            q = c.q;
            in_first = inr c.in_first;
            in_second = inr c.in_second;
            collide = c.collide;
          })
        ]

  -- The lengths agree too, since the last payload holds its sequence.
  length_binding :
      (e f : LedgerEntryRow) (es fs : List LedgerEntryRow)
      → Chain n 1 none (e ∷ es)
      → Chain n 1 none (f ∷ fs)
      → All HasUnits (payloads (e ∷ es))
      → All HasUnits (payloads (f ∷ fs))
      → last_hash none (e ∷ es) ≡ last_hash none (f ∷ fs)
      → (length (e ∷ es) ≡ length (f ∷ fs))
        ⊎ ChainsCollide n (payloads (e ∷ es)) (payloads (f ∷ fs))
  length_binding e f es fs c d u v h =
      let (l, hl) = Chain-IsLast n 1 none e es c u in
      let (m, hm) = Chain-IsLast n 1 none f fs d v in
      let hash : l.entry_hash ≡ m.entry_hash = some-injective (sym hl.hash_is ∙ h ∙ hm.hash_is) in
      elim (entry_hash_binding n w (row_payload l) (row_payload m) l.entry_hash hl.units hm.units
        hl.hashed (hm.hashed ∙ ap ok (sym hash))) [
          | inl same ↦
              let s : l.organization_sequence ≡ m.organization_sequence =
                ap (λ x. x.ledger_sequence) same in
              inl (omega (arith, s, hl.sequence_is, hm.sequence_is))
          | inr found ↦ inr (record {
            p = row_payload l;
            q = row_payload m;
            in_first = hl.in_chain;
            in_second = hm.in_chain;
            collide = found;
          })
        ]

  some_last :
      (x : LedgerEntryRow) (xs : List LedgerEntryRow) (p : Option Str)
      → (h : Str) × (last_hash p (x ∷ xs) ≡ some h)
  some_last x [] p = (x.entry_hash, refl)
  some_last x (y ∷ xs) p = some_last y xs (some x.entry_hash)

  chains_binding :
      (es fs : List LedgerEntryRow)
      → Chain n 1 none es
      → Chain n 1 none fs
      → All HasUnits (payloads es)
      → All HasUnits (payloads fs)
      → last_hash none es ≡ last_hash none fs
      → (payloads es ≡ payloads fs) ⊎ ChainsCollide n (payloads es) (payloads fs)
  chains_binding [] [] c d u v h = inl refl
  chains_binding [] (f ∷ fs) c d u v h = let l = some_last f fs none in let k = l.1 in cc
  chains_binding (e ∷ es) [] c d u v h = let l = some_last e es none in let k = l.1 in cc
  chains_binding (e ∷ es) (f ∷ fs) c d u v h = elim (length_binding e f es fs c d u v h) [
    | inl len ↦ elim (same_length_binding 1 none none (e ∷ es) (f ∷ fs) len c d u v h) [
      | inl same ↦ inl same.1
      | inr found ↦ inr found
    ]
    | inr found ↦ inr found
  ]

  -- With lawful hashing and strings of JavaScript, two accepted exports whose last entries have one
  -- hash have the same payloads in the same order, or hold a payload each whose canonical texts are
  -- different in UTF-8 and have one digest.
  pub export_binding :
      (es fs : List ExportedEntry)
      → verify_organization_chain n es ≡ ok accepted
      → verify_organization_chain n fs ≡ ok accepted
      → All HasUnits (payloads (rows (sort_by exported_lt es)))
      → All HasUnits (payloads (rows (sort_by exported_lt fs)))
      → last_hash none (rows (sort_by exported_lt es))
        ≡ last_hash none (rows (sort_by exported_lt fs))
      → (payloads (rows (sort_by exported_lt es)) ≡ payloads (rows (sort_by exported_lt fs)))
        ⊎ ChainsCollide n
            (payloads (rows (sort_by exported_lt es)))
            (payloads (rows (sort_by exported_lt fs)))
  export_binding es fs ae af =
      chains_binding (rows (sort_by exported_lt es)) (rows (sort_by exported_lt fs))
        ((verify-Chain_iff n es).0 ae) ((verify-Chain_iff n fs).0 af)
