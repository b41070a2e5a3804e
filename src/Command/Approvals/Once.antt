-- ===== src/Command/Approvals/Once.antt =====
-- decideApproval of packages/command/src/index.ts over time.
use verity_os_v.Base.{
  Str, codes, str_eq, str_eq_iff, str_eq_refl, Bool, true, false, ◌&&◌, List, [], ◌∷◌, ◌++◌, none,
  some, select, select-append, ok, throw, find?, if◌then◌else◌, All, Bool-cases, ◌≡◌, refl, arith,
  inl, inr, codes,
}
use verity_os_v.Command.Rows.{ApprovalRow, CommandDb}
use verity_os_v.Command.Policy.{find_approval}
use verity_os_v.Command.Approvals.{
  CreateApprovalInput, create_approval, get_approval, DecideApprovalInput, is_pending, decided,
  update_pending, approval_not_pending, decide_approval,
}

decided-not_pending :
    (now : Str) (input again : DecideApprovalInput) (a : ApprovalRow)
    → is_pending again (decided now input a) ≡ false
unfolding decided str_eq
decided-not_pending now input again a = ground (arith)

-- After an update nothing of the same approval is pending.
none_pending :
    (now : Str) (input again : DecideApprovalInput) (approvals : List ApprovalRow)
    → again.approval_id ≡ input.approval_id
    → again.organization_id ≡ input.organization_id
    → select (is_pending again) (update_pending now input approvals) ≡ []
unfolding update_pending
none_pending now input again [] ei eo = refl
none_pending now input again (a ∷ approvals) ei eo =
    let rest = none_pending now input again approvals ei eo in
    let own = decided-not_pending now input again a in
    elim (Bool-cases (is_pending input a)) [
      | inl e ↦ ground (arith)
      | inr e ↦
          let same : is_pending again a ≡ is_pending input a = rw (ei, eo) refl in ground (arith)
    ]

update-none :
    (now : Str) (input : DecideApprovalInput) (approvals : List ApprovalRow)
    → select (is_pending input) approvals ≡ []
    → update_pending now input approvals ≡ approvals
unfolding update_pending
update-none now input [] h = refl
update-none now input (a ∷ approvals) h = elim (Bool-cases (is_pending input a)) [
  | inl e ↦ ground (arith)
  | inr e ↦ let rest = update-none now input approvals (ground (arith)) in ground (arith)
]

refused :
    (now : Str) (input : DecideApprovalInput) (db : CommandDb)
    → select (is_pending input) db.approvals ≡ []
    → decide_approval now input db ≡ (throw approval_not_pending, db)
unfolding decide_approval
refused now input db h =
    let same = update-none now input db.approvals h in rw (same, h) (ground (arith))

-- The calls that change approvals, with what each draws and the clock.
pub data ApprovalCall : Type 0 where
  creates : (id now : Str) → CreateApprovalInput → ApprovalCall
  decides : Str → DecideApprovalInput → ApprovalCall

abbrev pub run_approvals : List ApprovalCall → CommandDb → CommandDb
run_approvals [] db = db
run_approvals (creates id now input ∷ calls) db =
    run_approvals calls ((create_approval id now input db).1)
run_approvals (decides now input ∷ calls) db =
    run_approvals calls ((decide_approval now input db).1)

-- The id that a call draws is not the given one.
abbrev pub DrawsOther : Str → ApprovalCall → Type 0
DrawsOther approval (creates id now input) = str_eq id approval ≡ false
DrawsOther approval (decides now input) = Unit

update-none_left :
    (now : Str) (input again : DecideApprovalInput) (approvals : List ApprovalRow)
    → select (is_pending again) approvals ≡ []
    → select (is_pending again) (update_pending now input approvals) ≡ []
unfolding update_pending
update-none_left now input again [] h = refl
update-none_left now input again (a ∷ approvals) h =
    let own = decided-not_pending now input again a in
    elim (Bool-cases (is_pending again a)) [
      | inl e ↦ ground (arith)
      | inr e ↦
          let rest = update-none_left now input again approvals (ground (arith)) in
          elim (Bool-cases (is_pending input a)) [
            | inl hit ↦ ground (arith)
            | inr miss ↦ ground (arith)
          ]
    ]

create-none_left :
    (id now : Str) (input : CreateApprovalInput) (again : DecideApprovalInput) (db : CommandDb)
    → str_eq id again.approval_id ≡ false
    → select (is_pending again) db.approvals ≡ []
    → select (is_pending again) ((create_approval id now input db).1).approvals ≡ []
unfolding create_approval
create-none_left id now input again db other h =
    rw (select-append (is_pending again) db.approvals _, h, other) refl

run-none_left :
    (calls : List ApprovalCall) (again : DecideApprovalInput) (db : CommandDb)
    → All (DrawsOther again.approval_id) calls
    → select (is_pending again) db.approvals ≡ []
    → select (is_pending again) (run_approvals calls db).approvals ≡ []
run-none_left [] again db o h = h
run-none_left (creates id now input ∷ calls) again db o h =
    run-none_left calls again ((create_approval id now input db).1) o.1
      (create-none_left id now input again db o.0 h)
run-none_left (decides now input ∷ calls) again db o h =
    run-none_left calls again ((decide_approval now input db).1) o.1
      (unfold decide_approval in update-none_left now input again db.approvals h)

-- After a decision on an approval for an organization, accepted or not, and any further calls that
-- open approvals under other ids or decide approvals, a decision on that approval for that
-- organization throws and changes nothing.
pub decide-again :
    (now later : Str) (input again : DecideApprovalInput) (calls : List ApprovalCall)
    (db : CommandDb)
    → again.approval_id ≡ input.approval_id
    → again.organization_id ≡ input.organization_id
    → All (DrawsOther again.approval_id) calls
    → decide_approval later again (run_approvals calls ((decide_approval now input db).1))
      ≡ (throw approval_not_pending, run_approvals calls ((decide_approval now input db).1))
decide-again now later input again calls db ei eo others =
    refused later again (run_approvals calls ((decide_approval now input db).1)) (
      run-none_left calls again ((decide_approval now input db).1) others
        (unfold decide_approval in none_pending now input again db.approvals ei eo))

-- The row that a decision leaves.
module _ (now : Str) (input : DecideApprovalInput) where
  select-fresh :
      (approvals : List ApprovalRow)
      → find? (λ a. str_eq a.id input.approval_id) approvals ≡ none
      → select (is_pending input) approvals ≡ []
  select-fresh [] h = refl
  select-fresh (a ∷ approvals) h = elim (Bool-cases (str_eq a.id input.approval_id)) [
    | inl e ↦ ground (arith)
    | inr e ↦ let rest = select-fresh approvals (ground (arith)) in ground (arith)
  ]

  find-fresh :
      (approvals : List ApprovalRow) (a : ApprovalRow)
      → find? (λ b. str_eq b.id input.approval_id) approvals ≡ none
      → find?
          (λ b. str_eq b.id input.approval_id && str_eq b.organization_id input.organization_id)
          (approvals ++ a ∷ [])
        ≡ find?
            (λ b. str_eq b.id input.approval_id && str_eq b.organization_id input.organization_id)
            (a ∷ [])
  find-fresh [] a h = refl
  find-fresh (b ∷ approvals) a h = elim (Bool-cases (str_eq b.id input.approval_id)) [
    | inl e ↦ ground (arith)
    | inr e ↦ let rest = find-fresh approvals a (ground (arith)) in ground (arith)
  ]

  update-append :
      (xs ys : List ApprovalRow)
      → update_pending now input (xs ++ ys)
        ≡ update_pending now input xs ++ update_pending now input ys
  unfolding update_pending
  update-append [] ys = refl
  update-append (x ∷ xs) ys = rw (update-append xs ys) refl

-- The approval that a request opens.
abbrev pub opened : Str → Str → CreateApprovalInput → ApprovalRow
opened id now input = record {
  id = id;
  organization_id = input.organization_id;
  execution_id = input.execution_id;
  skill_id = input.skill_id;
  requested_by = input.requested_by;
  decided_by = none;
  status = codes "pending";
  reason_code = none;
  artifact_hash = input.artifact_hash;
  created_at = now;
  decided_at = none;
}

-- The approval as it stands after a decision.
abbrev pub settled : Str → Str → Str → CreateApprovalInput → Str → Bool → ApprovalRow
settled id now later input by allow = record {
  id = id;
  organization_id = input.organization_id;
  execution_id = input.execution_id;
  skill_id = input.skill_id;
  requested_by = input.requested_by;
  decided_by = some by;
  status = if allow then codes "approved" else codes "denied";
  reason_code = some (if allow then codes "APPROVED" else codes "DENIED");
  artifact_hash = input.artifact_hash;
  created_at = now;
  decided_at = some later;
}

abbrev pub decision_on : Str → CreateApprovalInput → Str → Bool → DecideApprovalInput
decision_on id input by allow = record {
  organization_id = input.organization_id;
  approval_id = id;
  decided_by = by;
  allow = allow;
}

opened-is_pending :
    (id now : Str) (input : CreateApprovalInput) (by : Str) (allow : Bool)
    → is_pending (decision_on id input by allow) (opened id now input) ≡ true
unfolding str_eq
opened-is_pending id now input by allow =
    rw (str_eq_refl id, str_eq_refl input.organization_id) refl

opened-found :
    (id now : Str) (input : CreateApprovalInput) (a : ApprovalRow)
    → a.id ≡ id
    → a.organization_id ≡ input.organization_id
    → find? (λ b. str_eq b.id id && str_eq b.organization_id input.organization_id) (a ∷ [])
      ≡ some a
opened-found id now input a ei eo =
    ground (arith, str_eq_iff a.id id, str_eq_iff a.organization_id input.organization_id)

-- An approval opened under an id that is not in use is accepted by the first decision on it, and
-- reads back as approved or denied as the decision says, with its decider, its time and its reason
-- code, and for the rest as it was opened.
pub create-decide :
    (id now later : Str) (input : CreateApprovalInput) (by : Str) (allow : Bool) (db : CommandDb)
    → find_approval db id ≡ none
    → ((decide_approval later
          (decision_on id input by allow)
          ((create_approval id now input db).1)).0
        ≡ ok tt)
      × (get_approval
            ((decide_approval later
              (decision_on id input by allow)
              ((create_approval id now input db).1)).1)
            input.organization_id
            id
          ≡ some (settled id now later input by allow))
unfolding create_approval decide_approval get_approval find_approval decided
create-decide id now later input by allow db fresh =
    let choice = decision_on id input by allow in
    let own = opened-is_pending id now input by allow in
    let before = select-fresh later choice db.approvals fresh in
    let count : select (is_pending choice) (db.approvals ++ opened id now input ∷ [])
        ≡ opened id now input ∷ [] =
      rw (select-append (is_pending choice) db.approvals (opened id now input ∷ []), before, own)
        refl in
    let kept : update_pending later choice (db.approvals ++ opened id now input ∷ [])
        ≡ db.approvals ++ decided later choice (opened id now input) ∷ [] =
      rw
        (
          update-append later choice db.approvals (opened id now input ∷ []),
          update-none later choice db.approvals before,
        )
        (unfold update_pending in rw own refl) in
    (
      rw count (ground (arith)),
      rw
          (
            kept,
            find-fresh later choice db.approvals (decided later choice (opened id now input)) fresh,
          )
          (opened-found id now input _ (unfold decided in refl) (unfold decided in refl)),
    )
