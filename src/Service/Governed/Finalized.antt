-- ===== src/Service/Governed/Finalized.antt =====
-- finalizeGovernedExecution of apps/core-api/src/execution/service.ts: what a call that returned
-- has read and sealed.
use verity_os_v.Base.{
  Str, str_eq, str_eq_iff, &&-true, true, false, ◌&&◌, Option, none, some, ok, throw, ◌>>=◌, ◌>>◌,
  ok-injective, ◌≡◌, refl, sym, ap, ◌∙◌, Bool-cases, inl, inr,
}
use verity_os_v.Base.Distinct.{find-Member}
use verity_os_v.Base.Stateful.{lift, query, >>=-ok, lift-ok}
use verity_os_v.Base.Stateful
use verity_os_v.Kernel.Error.{Throws}
use verity_os_v.Kernel.Noble.{Noble}
use verity_os_v.Kernel.Rows.{ExecutionRow, Db}
use verity_os_v.Kernel.Executions.{get_execution}
use verity_os_v.Kernel.Ledger.{Host, in_transaction}
use verity_os_v.Kernel.Events.{list_execution_events}
use verity_os_v.Kernel.Bundle.{closes}
use verity_os_v.Kernel.Seal.{
  Draw, SealExecutionInput, SealExecutionResult, seal_execution_in_transaction, seal_execution,
}
use verity_os_v.Service.World.{
  World, kernel_call, last_event_id, is_terminal, is_waiting, invalid_execution_transition,
  approval_pending,
}
use verity_os_v.Service.Returned.{kernel_call-ok, committed_body}
use verity_os_v.Service.Outcome.{
  Draws, Outcome, completes, fails, blocks, outcome_status, outcome_entry, is_completing,
  response_hash_of,
}
use verity_os_v.Service.Governed.{
  FinalizeInput, execution_for, finalizable, seal_input, finalize_governed_execution,
}

hooked_body :
    {A : Type 0} (r : Throws (A × Db)) (before_commit : Throws (Unit {0})) (a : A) (db' : Db)
    → (r >>= λ result. before_commit >> ok result) ≡ ok (a, db')
    → r ≡ ok (a, db')
hooked_body (ok (b, db1)) (ok u) a db' h = h
hooked_body (ok (b, db1)) (throw e) a db' h = cc
hooked_body (throw e) before_commit a db' h = cc

-- A seal that returned ran its transaction to the end.
seal-body :
    (n : Noble) (host : Host) (draw : Draw) (input : SealExecutionInput)
    (before_commit : Throws (Unit {0})) (db db' : Db) (result : SealExecutionResult)
    → seal_execution n host draw input before_commit db ≡ (ok result, db')
    → seal_execution_in_transaction n host draw input db ≡ ok (result, db')
unfolding seal_execution in_transaction
seal-body n host draw input before_commit db db' result h =
    hooked_body (seal_execution_in_transaction n host draw input db) before_commit result db'
      (committed_body _ db db' result h)

finalizable-ok :
    (row : Option ExecutionRow) (outcome : Outcome) (e : ExecutionRow)
    → finalizable row outcome ≡ ok e
    → (row ≡ some e)
      × (is_terminal e.status ≡ false)
      × ((is_waiting e.status && is_completing outcome) ≡ false)
unfolding finalizable
finalizable-ok none outcome e h = cc
finalizable-ok (some x) outcome e h = elim (Bool-cases (is_terminal x.status)) [
  | inl t ↦ let bad : throw invalid_execution_transition ≡ ok e = rw t at h in cc
  | inr t ↦ elim (Bool-cases (is_waiting x.status && is_completing outcome)) [
    | inl p ↦ let bad : throw approval_pending ≡ ok e = rw (t, p) at h in cc
    | inr p ↦
        let same : x ≡ e = ok-injective (rw (t, p) at h) in
        (
          ap some same,
          ap (λ (y : ExecutionRow). is_terminal y.status) (sym same) ∙ t,
          ap (λ (y : ExecutionRow). is_waiting y.status && is_completing outcome) (sym same) ∙ p,
        )
  ]
]

-- What a finalization that returned has read and sealed.
pub record Finalized (n : Noble) (host : Host) (draw : Draws) (seal_draw : Draw)
    (input : FinalizeInput) (w : World) (result : SealExecutionResult) (w' : World) : Type 0 where
  pub execution : ExecutionRow
  pub sealed_db : Db
  pub found : execution_for input input.organization_id w ≡ some execution
  pub live : is_terminal execution.status ≡ false
  pub not_pending : (is_waiting execution.status && is_completing input.outcome) ≡ false
  pub sealed :
      seal_execution_in_transaction n host seal_draw
        (seal_input draw input.outcome execution
          (last_event_id w execution.organization_id execution.id)
          (response_hash_of n input.outcome input.response_text
            (list_execution_events w.kernel execution.organization_id execution.id)))
        w.kernel
      ≡ ok (result, sealed_db)
  pub world_is : w' ≡ record w { kernel = sealed_db }

pub finalize-Finalized :
    (n : Noble) (host : Host) (draw : Draws) (seal_draw : Draw) (input : FinalizeInput)
    (before_commit : Throws (Unit {0})) (w w' : World) (result : SealExecutionResult)
    → finalize_governed_execution n host draw seal_draw input before_commit w ≡ (ok result, w')
    → Finalized n host draw seal_draw input w result w'
unfolding finalize_governed_execution Stateful.◌>>=◌
finalize-Finalized n host draw seal_draw input before_commit w w' result h =
    let (e, w1, o, h1) =
      >>=-ok (lift (finalizable (execution_for input input.organization_id w) input.outcome)) _ w
        h in
    let (checked, same) = lift-ok _ w w1 e o in
    let (found, live, not_pending) = finalizable-ok _ input.outcome e checked in
    finished e w1 same found live not_pending h1
  where
    finished :
        (e : ExecutionRow) (w1 : World)
        → w1 ≡ w
        → execution_for input input.organization_id w ≡ some e
        → is_terminal e.status ≡ false
        → (is_waiting e.status && is_completing input.outcome) ≡ false
        → kernel_call
            (seal_execution n host seal_draw
              (seal_input draw input.outcome e (last_event_id w1 e.organization_id e.id) (
                response_hash_of n input.outcome input.response_text
                  (list_execution_events w1.kernel e.organization_id e.id)))
              before_commit)
            w1
          ≡ (ok result, w')
        → Finalized n host draw seal_draw input w result w'
    finished e w1 same found live not_pending h1 =
        let h2 =
          ap
            (λ (v : World).
              kernel_call
                (seal_execution n host seal_draw
                  (seal_input draw input.outcome e (last_event_id v e.organization_id e.id) (
                    response_hash_of n input.outcome input.response_text
                      (list_execution_events v.kernel e.organization_id e.id)))
                  before_commit)
                v)
            (sym same)
          ∙ h1 in
        let (db, sealing, world) = kernel_call-ok _ w w' result h2 in
        record {
          execution = e;
          sealed_db = db;
          found = found;
          live = live;
          not_pending = not_pending;
          sealed = seal-body n host seal_draw _ before_commit w.kernel db result sealing;
          world_is = world;
        }

pub outcome_entry-closes : (outcome : Outcome) → closes (outcome_entry outcome) ≡ true
unfolding closes outcome_entry
outcome_entry-closes completes = refl
outcome_entry-closes fails = refl
outcome_entry-closes blocks = refl

pub outcome_status-terminal : (outcome : Outcome) → is_terminal (outcome_status outcome) ≡ true
unfolding is_terminal outcome_status
outcome_status-terminal completes = refl
outcome_status-terminal fails = refl
outcome_status-terminal blocks = refl

pub get_execution-own :
    (org id : Str) (db : Db) (e : ExecutionRow)
    → get_execution org id db ≡ some e
    → (e.id ≡ id) × (e.organization_id ≡ org)
unfolding get_execution
get_execution-own org id db e h =
    let (_, key) =
      find-Member (λ (x : ExecutionRow). str_eq x.id id && str_eq x.organization_id org)
        db.executions e h in
    let (a, b) = &&-true (str_eq e.id id) (str_eq e.organization_id org) key in
    ((str_eq_iff e.id id).0 a, (str_eq_iff e.organization_id org).0 b)
