-- ===== src/Kernel/Verify/ChainCheck.antt =====
-- verifyOrganizationChain of verify/verify.ts, and the hash chain of a ledger.
use verity_os_v.Base.{
  ℕ, suc, ◌+◌, Str, str_eq, str_eq_iff, str_eq_refl, sort_by, Bool, true, false, not, List, [], ◌∷◌,
  ◌++◌, map, Option, none, some, ok, ◌>>=◌, >>=-eq-ok, ok-injective, subst, ==_iff, ◌≡◌, ◌↔◌, refl,
  sym, ap, ◌∙◌, arith,
}
use verity_os_v.Kernel.Noble.{Noble}
use verity_os_v.Kernel.Hash.{
  build_hash_payload, compute_entry_hash, hash_format_version, or_default,
}
use verity_os_v.Kernel.Rows.{LedgerEntryRow}
use verity_os_v.Kernel.Ledger.Chain.{Chain, IsNext, row_payload}
use verity_os_v.Kernel.Verify.{
  ExportedEntry, VerifyIssue, VerifyResult, is_nil, nullable_eq, issue_if, payload_input,
  verify_ledger_entry, exported_lt, position_issues, hash_of, chain_issues, result_of,
  verify_organization_chain,
}

abbrev pub rows : List ExportedEntry → List LedgerEntryRow
rows = map (λ e. e.row)

-- The sequence that is due after an entry.
abbrev pub due : Option ExportedEntry → ℕ
due none = 1
due (some e) = suc e.organization_sequence

pub append-nil {ℓ} : {A : Type ℓ} (xs ys : List A) → xs ++ ys ≡ [] → (xs ≡ []) × (ys ≡ [])
append-nil [] ys h = (refl, h)
append-nil (x ∷ xs) ys h = cc

pub not-false : (b : Bool) → not b ≡ false → b ≡ true
not-false true h = refl
not-false false h = cc

pub issue_if-nil : (b : Bool) (issue : VerifyIssue) → issue_if b issue ≡ [] → b ≡ false
issue_if-nil true issue h = cc
issue_if-nil false issue h = refl

pub str_eq-accept : (a b : Str) → not (str_eq a b) ≡ false → a ≡ b
str_eq-accept a b h = (str_eq_iff a b).0 (not-false _ h)

nullable_eq_sound : (a b : Option Str) → nullable_eq a b ≡ true → a ≡ b
unfolding nullable_eq
nullable_eq_sound none none h = refl
nullable_eq_sound none (some b) h = cc
nullable_eq_sound (some a) none h = cc
nullable_eq_sound (some a) (some b) h = ap some ((str_eq_iff a b).0 h)

nullable_eq_refl : (a : Option Str) → nullable_eq a a ≡ true
unfolding nullable_eq
nullable_eq_refl none = refl
nullable_eq_refl (some a) = str_eq_refl a

entry_sound :
    (n : Noble) (entry : ExportedEntry) (previous : Option Str)
    → verify_ledger_entry n entry previous ≡ ok []
    → IsNext n entry.organization_sequence previous entry.row
unfolding verify_ledger_entry payload_input build_hash_payload or_default
entry_sound n entry previous h =
    let (hash, eh, h1) = >>=-eq-ok (compute_entry_hash n (row_payload entry.row)) _ h in
    let issues : _ ≡ [] = ok-injective h1 in
    let (mismatch, rest) = append-nil _ _ issues in
    let (format, rest') = append-nil _ _ rest in
    let (linked, stamped) = append-nil _ _ rest' in
    let same = str_eq-accept hash entry.entry_hash (issue_if-nil _ _ mismatch) in
    record {
      sequence_is = refl;
      previous_is =
          nullable_eq_sound entry.previous_entry_hash previous
            (not-false _ (issue_if-nil _ _ linked));
      hashed = eh ∙ ap ok same;
      format_is =
          str_eq-accept entry.hash_format_version hash_format_version (issue_if-nil _ _ format);
      stamped =
          str_eq-accept entry.created_at entry.created_at_canonical (issue_if-nil _ _ stamped);
    }

position_sound :
    (before : Option ExportedEntry) (entry : ExportedEntry)
    → position_issues before entry ≡ []
    → entry.organization_sequence ≡ due before
unfolding position_issues
position_sound none entry h =
    (==_iff entry.organization_sequence 1).0 (not-false _ (issue_if-nil _ _ h))
position_sound (some b) entry h =
    let e =
      (==_iff entry.organization_sequence (b.organization_sequence + 1)).0
        (not-false _ (issue_if-nil _ _ h)) in
    omega (arith, e)

Chain-sound :
    (n : Noble) (before : Option ExportedEntry) (entries : List ExportedEntry)
    → chain_issues n before entries ≡ ok []
    → Chain n (due before) (hash_of before) (rows entries)
unfolding chain_issues
Chain-sound n before [] h = tt
Chain-sound n before (entry ∷ entries) h =
    let (own, eo, h1) = >>=-eq-ok (verify_ledger_entry n entry (hash_of before)) _ h in
    let (rest, er, h2) = >>=-eq-ok (chain_issues n (some entry) entries) _ h1 in
    let (p, h3) = append-nil (position_issues before entry) (own ++ rest) (ok-injective h2) in
    let (o, r) = append-nil own rest h3 in
    let place = position_sound before entry p in
    let next = entry_sound n entry (hash_of before) (eo ∙ ap ok o) in
    let tail = Chain-sound n (some entry) entries (er ∙ ap ok r) in
    (
      record {
        sequence_is = place;
        previous_is = next.previous_is;
        hashed = next.hashed;
        format_is = next.format_is;
        stamped = next.stamped;
      },
      subst (λ k. Chain n (suc k) (some entry.entry_hash) (rows entries)) place tail,
    )

entry_complete :
    (n : Noble) (entry : ExportedEntry) (sequence : ℕ) (previous : Option Str)
    → IsNext n sequence previous entry.row
    → verify_ledger_entry n entry previous ≡ ok []
unfolding verify_ledger_entry payload_input build_hash_payload or_default
entry_complete n entry sequence previous h =
    rw (h.hashed, h.previous_is, h.stamped, h.format_is)
      (rw
        (
          str_eq_refl entry.entry_hash,
          nullable_eq_refl previous,
          str_eq_refl hash_format_version,
          str_eq_refl entry.created_at_canonical,
        )
        refl)

position_complete :
    (before : Option ExportedEntry) (entry : ExportedEntry)
    → entry.organization_sequence ≡ due before
    → position_issues before entry ≡ []
unfolding position_issues
position_complete none entry h = ground (arith, ==_iff entry.organization_sequence 1)
position_complete (some b) entry h =
    ground (arith, ==_iff entry.organization_sequence (b.organization_sequence + 1))

Chain-complete :
    (n : Noble) (before : Option ExportedEntry) (entries : List ExportedEntry)
    → Chain n (due before) (hash_of before) (rows entries)
    → chain_issues n before entries ≡ ok []
unfolding chain_issues
Chain-complete n before [] c = refl
Chain-complete n before (entry ∷ entries) (next, c) =
    let c' =
      subst (λ k. Chain n (suc k) (some entry.entry_hash) (rows entries)) (sym next.sequence_is)
        c in
    rw
      (
        entry_complete n entry (due before) (hash_of before) next,
        Chain-complete n (some entry) entries c',
        position_complete before entry next.sequence_is,
      )
      refl

nil-valid :
    (issues : List VerifyIssue)
    → ((result_of issues).valid ≡ true) ↔ ((result_of issues).issues ≡ [])
unfolding is_nil
nil-valid [] = (λ _. refl, λ _. refl)
nil-valid (i ∷ issues) = (λ h. cc, λ h. cc)

-- The outcome of a check that found nothing.
abbrev pub accepted : VerifyResult
accepted = record { valid = true; issues = [] }

-- The verifier accepts an export with no issue exactly when its entries, ordered by sequence, are
-- a chain of sequences from 1 without a gap, each linked to the hash before it and hashed as its
-- payload.
pub verify-Chain_iff :
    (n : Noble) (entries : List ExportedEntry)
    → (verify_organization_chain n entries ≡ ok accepted)
      ↔ Chain n 1 none (rows (sort_by exported_lt entries))
unfolding verify_organization_chain sort_by
verify-Chain_iff n [] = (λ h. tt, λ h. refl)
verify-Chain_iff n (e ∷ es) = (
  λ h.
      let (issues, ei, h1) = >>=-eq-ok (chain_issues n none (sort_by exported_lt (e ∷ es))) _ h in
      let none_found : issues ≡ [] = ap (λ r. r.issues) (ok-injective h1) in
      Chain-sound n none (sort_by exported_lt (e ∷ es)) (ei ∙ ap ok none_found),
  λ c. ap (λ r. r >>= λ issues. ok (result_of issues)) (Chain-complete n none _ c),
)

-- The verifier says `valid` exactly when it reports no issue.
pub verify_chain-valid :
    (n : Noble) (entries : List ExportedEntry) (result : VerifyResult)
    → verify_organization_chain n entries ≡ ok result
    → (result.valid ≡ true) ↔ (result.issues ≡ [])
unfolding verify_organization_chain is_nil
verify_chain-valid n [] result h = let same = ok-injective h in rw⁻¹ same (λ _. refl, λ _. refl)
verify_chain-valid n (e ∷ es) result h =
    let (issues, _, h1) = >>=-eq-ok (chain_issues n none (sort_by exported_lt (e ∷ es))) _ h in
    subst (λ r. (r.valid ≡ true) ↔ (r.issues ≡ [])) (ok-injective h1) (nil-valid issues)
