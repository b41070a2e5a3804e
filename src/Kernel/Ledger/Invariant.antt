-- ===== src/Kernel/Ledger/Invariant.antt =====
-- appendLedgerEntry of ledger/append.ts, and the hash chains of the organizations.
use verity_os_v.Base.{
  ◌+◌, Str, str_eq, str_eq_iff, List, [], ◌∷◌, ◌++◌, Option, none, some, ok, throw, ◌≡◌, ◌≢◌, refl,
  sym, ap, ◌∙◌, arith, length, Bool-cases, inl, inr, subst, sort-id,
}
use verity_os_v.Kernel.Error.{Throws}
use verity_os_v.Kernel.Noble.{Noble}
use verity_os_v.Kernel.Rows.{LedgerEntryRow, ChainStateRow, Db}
use verity_os_v.Kernel.Ledger.{
  Host, AppendLedgerInput, new_row, append_ledger_entry, append_ledger_entry_in_transaction,
  in_transaction, commit_or_rollback, entries_of, get_ledger_entries, sequence_lt,
}
use verity_os_v.Kernel.Ledger.Chain.{
  Chain, IsNext, last_hash, Chain-append, last_hash-append, Chain-Sorted,
}
use verity_os_v.Kernel.Ledger.Append.{Appended, append-Appended}
use verity_os_v.Kernel.Ledger.States.{
  state_of, find-ensure, state_of-append-same, state_of-append-other, new_row-IsNext,
  entries_of-own, entries_of-other, length-snoc,
}

-- The entries of an organization are a chain from 1, and its state row is at the chain's end.
pub record IsChained (n : Noble) (org : Str) (db : Db) : Type 0 where
  pub chained : Chain n 1 none (entries_of org db.ledger_entries)
  pub sequence_is :
      (state_of org db.chain_state).latest_sequence ≡ length (entries_of org db.ledger_entries)
  pub hash_is :
      (state_of org db.chain_state).latest_entry_hash
      ≡ last_hash none (entries_of org db.ledger_entries)

-- The chain with one entry more, for the organization of the entry.
extend-IsChained :
    (n : Noble) (org : Str) (db db' : Db) (row : LedgerEntryRow) (locked : ChainStateRow)
    → IsChained n org db
    → state_of org db.chain_state ≡ locked
    → IsNext n (locked.latest_sequence + 1) locked.latest_entry_hash row
    → entries_of org db'.ledger_entries ≡ entries_of org db.ledger_entries ++ row ∷ []
    → state_of org db'.chain_state ≡ record locked {
      latest_sequence = locked.latest_sequence + 1;
      latest_entry_hash = some row.entry_hash;
    }
    → IsChained n org db'
extend-IsChained n org db db' row locked c same next entries state =
    let es = entries_of org db.ledger_entries in
    let sequence : locked.latest_sequence ≡ length es =
      sym (ap (λ s. s.latest_sequence) same) ∙ c.sequence_is in
    let hash : locked.latest_entry_hash ≡ last_hash none es =
      sym (ap (λ s. s.latest_entry_hash) same) ∙ c.hash_is in
    let next' : IsNext n (locked.latest_sequence + 1) (last_hash none es) row =
      subst (λ h. IsNext n (locked.latest_sequence + 1) h row) hash next in
    record {
      chained =
          subst (Chain n 1 none) (sym entries) (
            Chain-append n 1 (locked.latest_sequence + 1) none es row (omega arith) c.chained
              next');
      sequence_is =
          ap (λ s. s.latest_sequence) state
          ∙ omega (arith, sequence, length-snoc es row)
          ∙ sym (ap length entries);
      hash_is =
          ap (λ s. s.latest_entry_hash) state
          ∙ sym (last_hash-append n none es row)
          ∙ sym (ap (last_hash none) entries);
    }

same-IsChained :
    (n : Noble) (org : Str) (db db' : Db)
    → entries_of org db'.ledger_entries ≡ entries_of org db.ledger_entries
    → state_of org db'.chain_state ≡ state_of org db.chain_state
    → IsChained n org db
    → IsChained n org db'
same-IsChained n org db db' entries state c = record {
  chained = subst (Chain n 1 none) (sym entries) c.chained;
  sequence_is = ap (λ s. s.latest_sequence) state ∙ c.sequence_is ∙ sym (ap length entries);
  hash_is = ap (λ s. s.latest_entry_hash) state ∙ c.hash_is ∙ sym (ap (last_hash none) entries);
}

some-injective {ℓ} : {A : Type ℓ} {o : Option A} {a b : A} → o ≡ some a → o ≡ some b → a ≡ b
some-injective h h' = cc

-- Every organization has a chain after an append, if it had one before.
module _ (n : Noble) (host : Host) (input : AppendLedgerInput) (db : Db) (row : LedgerEntryRow)
    (db' : Db) (a : Appended n host input db row db') where
  row-IsNext : IsNext n (a.locked.latest_sequence + 1) a.locked.latest_entry_hash row
  row-IsNext =
      subst (IsNext n (a.locked.latest_sequence + 1) a.locked.latest_entry_hash) (sym a.row_is) (
        new_row-IsNext n host input a.created (a.locked.latest_sequence + 1)
          a.locked.latest_entry_hash a.hash a.checkpoint a.hashed)

  row-organization : row.organization_id ≡ input.organization_id
  unfolding new_row
  row-organization = ap (λ r. r.organization_id) a.row_is

  row-hash : row.entry_hash ≡ a.hash
  unfolding new_row
  row-hash = ap (λ r. r.entry_hash) a.row_is

  own-IsChained : IsChained n input.organization_id db → IsChained n input.organization_id db'
  own-IsChained c =
      let org = input.organization_id in
      extend-IsChained n org db db' row a.locked c
        (some-injective (find-ensure org db.chain_state) a.found) row-IsNext
        (ap (entries_of org) a.entries ∙ entries_of-own org db.ledger_entries row row-organization)
        (ap (state_of org) a.states
          ∙ state_of-append-same org (a.locked.latest_sequence + 1) a.hash db.chain_state a.locked
              a.found
          ∙ ap
              (λ h. record a.locked {
                latest_sequence = a.locked.latest_sequence + 1;
                latest_entry_hash = some h;
              })
              (sym row-hash))

  other-IsChained :
      (other : Str) → input.organization_id ≢ other → IsChained n other db → IsChained n other db'
  other-IsChained other ne c =
      same-IsChained n other db db'
        (ap (entries_of other) a.entries
          ∙ entries_of-other other db.ledger_entries row (λ e. ne (sym row-organization ∙ e)))
        (ap (state_of other) a.states
          ∙ state_of-append-other input.organization_id other _ _ db.chain_state ne)
        c

  pub Appended-IsChained : (org : Str) → IsChained n org db → IsChained n org db'
  Appended-IsChained org c = elim (Bool-cases (str_eq input.organization_id org)) [
    | inl same ↦
        let e = (str_eq_iff input.organization_id org).0 same in
        subst (λ o. IsChained n o db') e (own-IsChained (subst (λ o. IsChained n o db) (sym e) c))
    | inr differ ↦ other-IsChained org (ground (arith, str_eq_iff input.organization_id org)) c
  ]

-- What holds before a transaction and after its commit holds whether it commits or rolls back.
pub transaction-keeps {ℓ} :
    {A : Type ℓ} (P : Db → Type 0) (r : Throws (A × Db)) (db : Db)
    → P db
    → ((a : A) (db' : Db) → r ≡ ok (a, db') → P db')
    → P ((commit_or_rollback r db).1)
unfolding commit_or_rollback
transaction-keeps P (ok (a, db')) db h step = step a db' refl
transaction-keeps P (throw e) db h step = h

-- One append, whether it commits or throws, keeps the hash chain of every organization.
pub append-IsChained :
    (n : Noble) (host : Host) (input : AppendLedgerInput) (db : Db) (org : Str)
    → IsChained n org db
    → IsChained n org ((append_ledger_entry n host input db).1)
unfolding append_ledger_entry in_transaction
append-IsChained n host input db org c =
    transaction-keeps (IsChained n org) (append_ledger_entry_in_transaction n host input db) db c
      (λ row db' e.
        Appended-IsChained n host input db row db' (append-Appended n host input db row db' e) org
          c)

unfoldable pub run_appends : Noble → List (Host × AppendLedgerInput) → Db → Db
run_appends n [] db = db
run_appends n ((host, input) ∷ calls) db =
    run_appends n calls ((append_ledger_entry n host input db).1)

-- Any sequence of appends keeps the chain of every organization.
pub run_appends-IsChained :
    (n : Noble) (calls : List (Host × AppendLedgerInput)) (db : Db) (org : Str)
    → IsChained n org db
    → IsChained n org (run_appends n calls db)
unfolding run_appends
run_appends-IsChained n [] db org c = c
run_appends-IsChained n ((host, input) ∷ calls) db org c =
    run_appends-IsChained n calls ((append_ledger_entry n host input db).1) org
      (append-IsChained n host input db org c)

-- The query of a chained ledger is its chain: the entries in the order that they were appended.
pub get_entries-IsChained :
    (n : Noble) (org : Str) (db : Db)
    → IsChained n org db
    → get_ledger_entries org db ≡ entries_of org db.ledger_entries
unfolding get_ledger_entries
get_entries-IsChained n org db c = sort-id sequence_lt _ (Chain-Sorted n 1 none _ c.chained)
