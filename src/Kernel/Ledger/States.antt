-- ===== src/Kernel/Ledger/States.antt =====
-- The state rows and the entries of one organization, before and after an append.
use verity_os_v.Base.{
  ℕ, suc, Str, str_eq, str_eq_iff, str_eq_refl, true, false, List, [], ◌∷◌, ◌++◌, Option, none,
  some, ok, ◌≡◌, ◌≢◌, refl, ap, ◌∙◌, arith, length, Bool-cases, Option-cases, inl, inr,
}
use verity_os_v.Kernel.Noble.{Noble}
use verity_os_v.Kernel.Hash.{build_hash_payload, compute_entry_hash, or_default}
use verity_os_v.Kernel.Rows.{LedgerEntryRow, ChainStateRow}
use verity_os_v.Kernel.Ledger.{
  Host, AppendLedgerInput, Checkpoint, find_state, ensure_state, update_state, next_payload,
  new_row, entries_of,
}
use verity_os_v.Kernel.Ledger.Chain.{IsNext}

-- The state row that an append to the organization locks.
unfoldable pub state_of : Str → List ChainStateRow → ChainStateRow
state_of org states = elim (find_state org states) [
  | none ↦ record { organization_id = org; latest_sequence = 0; latest_entry_hash = none }
  | some s ↦ s
]

find-last :
    (org : Str) (states : List ChainStateRow) (s : ChainStateRow)
    → find_state org states ≡ none
    → str_eq s.organization_id org ≡ true
    → find_state org (states ++ s ∷ []) ≡ some s
unfolding find_state
find-last org [] s h e = ground (arith)
find-last org (x ∷ states) s h e = elim (Bool-cases (str_eq x.organization_id org)) [
  | inl found ↦ ground (arith)
  | inr missed ↦ let r = find-last org states s (ground (arith)) e in ground (arith)
]

find-other :
    (org : Str) (states : List ChainStateRow) (s : ChainStateRow)
    → str_eq s.organization_id org ≡ false
    → find_state org (states ++ s ∷ []) ≡ find_state org states
unfolding find_state
find-other org [] s e = ground (arith)
find-other org (x ∷ states) s e = let r = find-other org states s e in ground (arith)

pub find-ensure :
    (org : Str) (states : List ChainStateRow)
    → find_state org (ensure_state org states) ≡ some (state_of org states)
unfolding ensure_state state_of find_state
find-ensure org states = elim (Option-cases (find_state org states)) [
  | inl e ↦
      let fresh : ChainStateRow = record {
        organization_id = org;
        latest_sequence = 0;
        latest_entry_hash = none;
      } in
      let r = find-last org states fresh e (str_eq_refl org) in ground (arith)
  | inr (s, e) ↦ ground (arith)
]

update-same :
    (org : Str) (sequence : ℕ) (hash : Str) (states : List ChainStateRow) (s : ChainStateRow)
    → find_state org states ≡ some s
    → find_state org (update_state org sequence hash states)
      ≡ some (record s { latest_sequence = sequence; latest_entry_hash = some hash })
unfolding find_state update_state
update-same org sequence hash [] s h = cc
update-same org sequence hash (x ∷ states) s h = elim (Bool-cases (str_eq x.organization_id org)) [
  | inl found ↦ ground (arith)
  | inr missed ↦ let r = update-same org sequence hash states s (ground (arith)) in ground (arith)
]

update-other :
    (org other : Str) (sequence : ℕ) (hash : Str) (states : List ChainStateRow)
    → org ≢ other
    → find_state other (update_state org sequence hash states) ≡ find_state other states
unfolding find_state update_state
update-other org other sequence hash [] ne = refl
update-other org other sequence hash (x ∷ states) ne =
    let r = update-other org other sequence hash states ne in
    ground (arith, str_eq_iff x.organization_id org, str_eq_iff x.organization_id other)

ensure-other :
    (org other : Str) (states : List ChainStateRow)
    → org ≢ other
    → find_state other (ensure_state org states) ≡ find_state other states
unfolding ensure_state find_state
ensure-other org other states ne =
    let fresh : ChainStateRow = record {
      organization_id = org;
      latest_sequence = 0;
      latest_entry_hash = none;
    } in
    let r = find-other other states fresh (ground (arith, str_eq_iff org other)) in ground (arith)

state_of-found :
    (org : Str) (states : List ChainStateRow) (s : ChainStateRow)
    → find_state org states ≡ some s
    → state_of org states ≡ s
unfolding state_of find_state
state_of-found org states s e = ground (arith)

state_of-agree :
    (org : Str) (states states' : List ChainStateRow)
    → find_state org states ≡ find_state org states'
    → state_of org states ≡ state_of org states'
unfolding state_of
state_of-agree org states states' e = ground (arith)

pub new_row-IsNext :
    (n : Noble) (host : Host) (input : AppendLedgerInput) (created : Str) (next : ℕ)
    (previous : Option Str) (hash : Str) (checkpoint : Option Checkpoint)
    → compute_entry_hash n (build_hash_payload (next_payload input created next previous)) ≡ ok hash
    → IsNext n next previous (new_row host input created next previous hash checkpoint)
unfolding new_row build_hash_payload next_payload or_default
new_row-IsNext n host input created next previous hash checkpoint h = record {
  sequence_is = refl;
  previous_is = refl;
  hashed = h;
  format_is = refl;
  stamped = refl;
}

pub entries_of-own :
    (org : Str) (es : List LedgerEntryRow) (e : LedgerEntryRow)
    → e.organization_id ≡ org
    → entries_of org (es ++ e ∷ []) ≡ entries_of org es ++ e ∷ []
entries_of-own org [] e h = ground (arith, str_eq_iff e.organization_id org)
entries_of-own org (x ∷ es) e h = let r = entries_of-own org es e h in ground (arith)

pub entries_of-other :
    (org : Str) (es : List LedgerEntryRow) (e : LedgerEntryRow)
    → e.organization_id ≢ org
    → entries_of org (es ++ e ∷ []) ≡ entries_of org es
entries_of-other org [] e h = ground (arith, str_eq_iff e.organization_id org)
entries_of-other org (x ∷ es) e h = let r = entries_of-other org es e h in ground (arith)

pub length-snoc {ℓ} : {A : Type ℓ} (xs : List A) (x : A) → length (xs ++ x ∷ []) ≡ suc (length xs)
length-snoc [] x = refl
length-snoc (y ∷ xs) x = ap suc (length-snoc xs x)

pub state_of-append-same :
    (org : Str) (sequence : ℕ) (hash : Str) (states : List ChainStateRow) (locked : ChainStateRow)
    → find_state org (ensure_state org states) ≡ some locked
    → state_of org (update_state org sequence hash (ensure_state org states))
      ≡ record locked { latest_sequence = sequence; latest_entry_hash = some hash }
state_of-append-same org sequence hash states locked found =
    state_of-found org _ _ (update-same org sequence hash (ensure_state org states) locked found)

pub state_of-append-other :
    (org other : Str) (sequence : ℕ) (hash : Str) (states : List ChainStateRow)
    → org ≢ other
    → state_of other (update_state org sequence hash (ensure_state org states))
      ≡ state_of other states
state_of-append-other org other sequence hash states ne = state_of-agree other _ states (
    update-other org other sequence hash (ensure_state org states) ne
    ∙ ensure-other org other states ne)
