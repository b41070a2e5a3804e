-- ===== src/Kernel/Verify.antt =====
-- verify/verify.ts: the checks of an evidence bundle on its ledger entries and checkpoints.
pub mod ChainCheck
pub mod Tamper
use verity_os_v.Base.{
  ℕ, suc, ◌+◌, Str, str_eq, sort_by, Bool, true, false, not, List, [], ◌∷◌, ◌++◌, Option, none,
  some, ok, ◌>>=◌, if◌then◌else◌, ltb, ◌==◌,
}
use verity_os_v.Kernel.Error.{Throws}
use verity_os_v.Kernel.Noble.{Noble}
use verity_os_v.Kernel.Hash.{
  HashFieldInput, build_hash_payload, compute_entry_hash, hash_format_version,
}
use verity_os_v.Kernel.Merkle.{MerkleProofStep, compute_merkle_root, verify_merkle_proof}
use verity_os_v.Kernel.Rows.{LedgerEntryRow, MerkleCheckpointRow}

-- An entry of the bundle: `created_at` is the exported text.
pub record ExportedEntry : Type 0 where
  pub row : LedgerEntryRow
  pub open row use *
  pub merkle_proof : Option (List MerkleProofStep)

pub data IssueCode : Type 0 where
  entry_hash_mismatch hash_format previous_hash_mismatch canonical_timestamp_drift : IssueCode
  sequence_gap sequence_start : IssueCode
  merkle_root_mismatch merkle_leaf_missing merkle_leaf_mismatch merkle_proof_invalid : IssueCode
  plaintext_export org_mismatch : IssueCode
  graph_evidence_missing graph_duplicate graph_events_missing graph_org_mismatch : IssueCode
  graph_hash_mismatch graph_evidence_mismatch graph_ledger_mismatch : IssueCode
  graph_parent_unresolved : IssueCode

-- The message of an issue is fixed by its code and the entry, and left out.
pub record VerifyIssue : Type 0 where
  pub code : IssueCode
  pub sequence : Option ℕ
  pub entry_hash : Option Str

pub record VerifyResult : Type 0 where
  pub valid : Bool
  pub issues : List VerifyIssue

unfoldable pub is_nil {ℓ} : {A : Type ℓ} → List A → Bool
is_nil [] = true
is_nil (x ∷ xs) = false

-- a === b, where null may stand
unfoldable pub nullable_eq : Option Str → Option Str → Bool
nullable_eq none none = true
nullable_eq none (some b) = false
nullable_eq (some a) none = false
nullable_eq (some a) (some b) = str_eq a b

-- `if (failed) issues.push(issue)`
abbrev pub issue_if : Bool → VerifyIssue → List VerifyIssue
issue_if true issue = issue ∷ []
issue_if false issue = []

abbrev pub issue_at : IssueCode → ExportedEntry → VerifyIssue
issue_at code e = record { code = code; sequence = some e.organization_sequence; entry_hash = none }

abbrev pub issue_on : IssueCode → ExportedEntry → VerifyIssue
issue_on code e = record {
  code = code;
  sequence = some e.organization_sequence;
  entry_hash = some e.entry_hash;
}

unfoldable pub payload_input : ExportedEntry → HashFieldInput
payload_input e = record {
  organization_id = e.organization_id;
  ledger_sequence = e.organization_sequence;
  execution_id = e.execution_id;
  entry_type = e.entry_type;
  request_hash = e.request_hash;
  response_hash = e.response_hash;
  execution_graph_hash = e.execution_graph_hash;
  previous_entry_hash = e.previous_entry_hash;
  kernel_version = some e.kernel_version;
  created_at_canonical = e.created_at_canonical;
}

unfoldable pub verify_ledger_entry : Noble → ExportedEntry → Option Str → Throws (List VerifyIssue)
unfolding nullable_eq
verify_ledger_entry n entry previous = do
  recomputed ← compute_entry_hash n (build_hash_payload (payload_input entry))
  ok (
      issue_if (not (str_eq recomputed entry.entry_hash)) (issue_on entry_hash_mismatch entry)
      ++ (issue_if (not (str_eq entry.hash_format_version hash_format_version))
            (issue_at hash_format entry)
          ++ (issue_if (not (nullable_eq entry.previous_entry_hash previous))
                (issue_at previous_hash_mismatch entry)
              ++ issue_if (not (str_eq entry.created_at entry.created_at_canonical))
                  (issue_at canonical_timestamp_drift entry))))

abbrev pub exported_lt : ExportedEntry → ExportedEntry → Bool
exported_lt a b = ltb a.organization_sequence b.organization_sequence

-- The checks on the place of an entry: it is the first, or it follows another.
unfoldable pub position_issues : Option ExportedEntry → ExportedEntry → List VerifyIssue
position_issues none entry =
    issue_if (not (entry.organization_sequence == 1)) (issue_at sequence_start entry)
position_issues (some before) entry =
    issue_if (not (entry.organization_sequence == before.organization_sequence + 1))
      (issue_at sequence_gap entry)

abbrev pub hash_of : Option ExportedEntry → Option Str
hash_of none = none
hash_of (some e) = some e.entry_hash

-- The loop over the sorted entries.
unfoldable pub chain_issues :
    Noble → Option ExportedEntry → List ExportedEntry → Throws (List VerifyIssue)
chain_issues n before [] = ok []
chain_issues n before (entry ∷ entries) = do
  own ← verify_ledger_entry n entry (hash_of before)
  rest ← chain_issues n (some entry) entries
  ok (position_issues before entry ++ (own ++ rest))

abbrev pub result_of : List VerifyIssue → VerifyResult
result_of issues = record { valid = is_nil issues; issues = issues }

unfoldable pub verify_organization_chain : Noble → List ExportedEntry → Throws VerifyResult
unfolding is_nil
verify_organization_chain n [] = ok (record { valid = true; issues = [] })
verify_organization_chain n (e ∷ es) = do
  issues ← chain_issues n none (sort_by exported_lt (e ∷ es))
  ok (result_of issues)

-- `new Map(entries.map((e) => [e.organization_sequence, e]))`: the last entry of a sequence stands.
unfoldable pub entry_at : ℕ → List ExportedEntry → Option ExportedEntry
entry_at sequence [] = none
entry_at sequence (e ∷ es) =
    let later = entry_at sequence es in
    elim later [
      | some x ↦ some x
      | none ↦ if e.organization_sequence == sequence then some e else none
    ]

abbrev pub issue_sequence : IssueCode → ℕ → VerifyIssue
issue_sequence code sequence = record { code = code; sequence = some sequence; entry_hash = none }

-- The proof that an entry carries, checked against the root of the checkpoint.
unfoldable pub proof_issues : Noble → Str → ℕ → ExportedEntry → Throws (List VerifyIssue)
proof_issues n root sequence entry = elim entry.merkle_proof [
  | none ↦ ok []
  | some proof ↦ do
    accepted ← verify_merkle_proof n entry.entry_hash proof root
    ok (
        issue_if (not accepted) (record {
          code = merkle_proof_invalid;
          sequence = some sequence;
          entry_hash = some entry.entry_hash;
        }))
]

unfoldable pub leaf_issues :
    Noble → List ExportedEntry → Str → ℕ → List Str → Throws (List VerifyIssue)
leaf_issues n entries root sequence [] = ok []
leaf_issues n entries root sequence (leaf ∷ leaves) = elim (entry_at sequence entries) [
  | none ↦ do
    rest ← leaf_issues n entries root (suc sequence) leaves
    ok (issue_sequence merkle_leaf_missing sequence ∷ rest)
  | some entry ↦ do
    proof ← proof_issues n root sequence entry
    rest ← leaf_issues n entries root (suc sequence) leaves
    ok (
        issue_if (not (str_eq entry.entry_hash leaf)) (issue_sequence merkle_leaf_mismatch sequence)
        ++ (proof ++ rest))
]

unfoldable pub verify_merkle_checkpoints :
    Noble → List ExportedEntry → List MerkleCheckpointRow → Throws (List VerifyIssue)
verify_merkle_checkpoints n entries [] = ok []
verify_merkle_checkpoints n entries (c ∷ checkpoints) = do
  recomputed ← compute_merkle_root n c.leaf_hashes
  leaves ← leaf_issues n entries c.root c.from_sequence c.leaf_hashes
  rest ← verify_merkle_checkpoints n entries checkpoints
  ok (
      issue_if (not (str_eq recomputed c.root))
        (issue_sequence merkle_root_mismatch c.through_sequence)
      ++ (leaves ++ rest))
