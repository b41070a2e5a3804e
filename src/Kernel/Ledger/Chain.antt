-- ===== src/Kernel/Ledger/Chain.antt =====
-- The hash chain of an organization, as a specification: sequences without a gap from a first one,
-- each entry linked to the hash of the one before it and hashed as its payload.
use verity_os_v.Base.{
  ℕ, suc, ◌+◌, Str, Sorted, List, [], ◌∷◌, ◌++◌, Option, some, ok, ◌≡◌, refl, arith, length,
}
use verity_os_v.Kernel.Noble.{Noble}
use verity_os_v.Kernel.Hash.{V2HashPayload, compute_entry_hash, hash_format_version}
use verity_os_v.Kernel.Rows.{LedgerEntryRow}
use verity_os_v.Kernel.Ledger.{sequence_lt}

-- What the hash of a row is taken of.
abbrev pub row_payload : LedgerEntryRow → V2HashPayload
row_payload e = record {
  hash_format_version = hash_format_version;
  organization_id = e.organization_id;
  ledger_sequence = e.organization_sequence;
  execution_id = e.execution_id;
  entry_type = e.entry_type;
  request_hash = e.request_hash;
  response_hash = e.response_hash;
  execution_graph_hash = e.execution_graph_hash;
  previous_entry_hash = e.previous_entry_hash;
  kernel_version = e.kernel_version;
  created_at = e.created_at_canonical;
}

pub record IsNext (n : Noble) (sequence : ℕ) (previous : Option Str) (e : LedgerEntryRow)
    : Type 0 where
  pub sequence_is : e.organization_sequence ≡ sequence
  pub previous_is : e.previous_entry_hash ≡ previous
  pub hashed : compute_entry_hash n (row_payload e) ≡ ok e.entry_hash
  pub format_is : e.hash_format_version ≡ hash_format_version
  pub stamped : e.created_at ≡ e.created_at_canonical

abbrev pub Chain : Noble → ℕ → Option Str → List LedgerEntryRow → Type 0
Chain n sequence previous [] = Unit
Chain n sequence previous (e ∷ es) =
    IsNext n sequence previous e × Chain n (suc sequence) (some e.entry_hash) es

-- The hash that the next entry is to be linked to.
abbrev pub last_hash : Option Str → List LedgerEntryRow → Option Str
last_hash previous [] = previous
last_hash previous (e ∷ es) = last_hash (some e.entry_hash) es

module _ (n : Noble) where
  pub Chain-append :
      (sequence next : ℕ) (previous : Option Str) (es : List LedgerEntryRow) (e : LedgerEntryRow)
      → next ≡ sequence + length es
      → Chain n sequence previous es
      → IsNext n next (last_hash previous es) e
      → Chain n sequence previous (es ++ e ∷ [])
  Chain-append sequence next previous [] e eq c h =
      let same : next ≡ sequence = omega arith in (rw same at h, tt)
  Chain-append sequence next previous (x ∷ es) e eq c h =
      (c.0, Chain-append (suc sequence) next (some x.entry_hash) es e (omega arith) c.1 h)

  pub last_hash-append :
      (previous : Option Str) (es : List LedgerEntryRow) (e : LedgerEntryRow)
      → last_hash previous (es ++ e ∷ []) ≡ some e.entry_hash
  last_hash-append previous [] e = refl
  last_hash-append previous (x ∷ es) e = last_hash-append (some x.entry_hash) es e

  -- A chain is sorted by its sequences.
  pub Chain-Sorted :
      (sequence : ℕ) (previous : Option Str) (es : List LedgerEntryRow)
      → Chain n sequence previous es
      → Sorted sequence_lt es
  Chain-Sorted sequence previous [] c = tt
  Chain-Sorted sequence previous (e ∷ []) c = tt
  Chain-Sorted sequence previous (e ∷ f ∷ es) c =
      let a = c.0.sequence_is in
      let b = c.1.0.sequence_is in
      (ground (arith, a, b), Chain-Sorted (suc sequence) (some e.entry_hash) (f ∷ es) c.1)
