-- ===== src/Service/Governed/Finalize.antt =====
-- finalizeGovernedExecution of apps/core-api/src/execution/service.ts: its effect, and a later
-- call.
use verity_os_v.Base.{
  Str, is_empty, ◌++◌, true, false, ◌&&◌, List, [], ◌∷◌, Option, inl, inr, some, ok, throw, ◌≡◌,
  refl, sym, ap, ◌∙◌,
}
use verity_os_v.Base.Stateful.{lift, query, >>=-ok, lift-ok}
use verity_os_v.Base.Stateful
use verity_os_v.Kernel.Error.{Throws}
use verity_os_v.Kernel.Noble.{Noble}
use verity_os_v.Kernel.Rows.{ExecutionRow, Db}
use verity_os_v.Kernel.Executions.{get_execution}
use verity_os_v.Kernel.Ledger.{Host}
use verity_os_v.Kernel.Events.{list_execution_events}
use verity_os_v.Kernel.Events.Parents.{IsTimeline}
use verity_os_v.Kernel.Graph.{build_execution_graph_v2, compute_execution_graph_hash}
use verity_os_v.Kernel.Seal.{Draw, SealExecutionResult}
use verity_os_v.Kernel.Seal.Rebuild.{seal-IsSealed}
use verity_os_v.Service.World.{World, is_terminal, is_waiting, invalid_execution_transition}
use verity_os_v.Kernel.Executions.Finality.{IsTerminal, HasStatus}
use verity_os_v.Service.Stable.{HasStatus-IsStable}
use verity_os_v.Service.Calls.{ServiceCall, serve_all, serve_all-keeps}
use verity_os_v.Service.Outcome.{
  Draws, Outcome, completes, fails, blocks, outcome_status, is_completing,
}
use verity_os_v.Service.Governed.{
  FinalizeInput, execution_for, finalizable, seal_input, finalize_governed_execution,
}
use verity_os_v.Service.Governed.Finalized.{
  finalize-Finalized, get_execution-own, outcome_entry-closes, outcome_status-terminal,
}

abbrev pub named : Str → Str → Outcome → Option Str → FinalizeInput
named org id outcome response = record {
  execution_id = id;
  organization_id = some org;
  outcome = outcome;
  response_text = response;
}

-- What the database holds of an execution after its finalization.
pub record IsFinal (n : Noble) (org id : Str) (outcome : Outcome) (w : World)
    (result : SealExecutionResult) (w' : World) : Type 0 where
  pub before : ExecutionRow
  pub found : get_execution org id w.kernel ≡ some before
  pub live : is_terminal before.status ≡ false
  pub not_pending : (is_waiting before.status && is_completing outcome) ≡ false
  pub after : ExecutionRow
  pub stored : get_execution org id w'.kernel ≡ some after
  pub status_is : after.status ≡ outcome_status outcome
  pub entry_is : after.final_entry_id ≡ some result.entry.id
  pub entries : w'.kernel.ledger_entries ≡ w.kernel.ledger_entries ++ result.entry ∷ []
  pub entry_binds : result.entry.execution_graph_hash ≡ some result.graph_hash
  pub rebuilt :
      build_execution_graph_v2 after (list_execution_events w'.kernel org id) ≡ ok result.graph
  pub hashed : compute_execution_graph_hash n result.graph ≡ ok result.graph_hash

outcome_status-IsTerminal : (outcome : Outcome) → IsTerminal (outcome_status outcome)
unfolding outcome_status
outcome_status-IsTerminal completes = inl refl
outcome_status-IsTerminal fails = inr (inl refl)
outcome_status-IsTerminal blocks = inr (inr (inl refl))

module _ (n : Noble) (host : Host) (draw : Draws) (seal_draw : Draw) (org id : Str)
    (outcome : Outcome) (response : Option Str) (w w' : World) (result : SealExecutionResult)
    (given : is_empty org ≡ false) where
  -- A finalization that returns, for an organization with a name and an execution with a timeline,
  -- met an execution of the organization that was not closed, nor waiting for an approval where it
  -- is to be completed; it has set its status and final entry, and the one ledger entry that it
  -- appended binds the hash of the graph of all its events.
  pub finalize-IsFinal :
      (before_commit : Throws (Unit {0}))
      → IsTimeline org id w.kernel
      → finalize_governed_execution n host draw seal_draw
          (named org id outcome response)
          before_commit
          w
        ≡ (ok result, w')
      → IsFinal n org id outcome w result w'
  unfolding execution_for seal_input
  finalize-IsFinal before_commit t h =
      let f =
        finalize-Finalized n host draw seal_draw (named org id outcome response) before_commit w w'
          result h in
      let e = f.execution in
      let found : get_execution org id w.kernel ≡ some e = rw given at (f.found) in
      let (same_id, same_org) = get_execution-own org id w.kernel e found in
      let t' : IsTimeline e.organization_id e.id w.kernel = rw (same_id, same_org) t in
      let s =
        seal-IsSealed n host seal_draw _ w.kernel f.sealed_db result t'
          (outcome_entry-closes outcome) f.sealed in
      let kernel : w'.kernel ≡ f.sealed_db = ap (λ (v : World). v.kernel) f.world_is in
      record {
        before = e;
        found = found;
        live = f.live;
        not_pending = f.not_pending;
        after = s.execution;
        stored =
            ap (λ o. get_execution o id w'.kernel) (sym same_org)
            ∙ ap (λ i. get_execution e.organization_id i w'.kernel) (sym same_id)
            ∙ ap (get_execution e.organization_id e.id) kernel
            ∙ s.stored;
        status_is = s.status_is;
        entry_is = s.final_entry;
        entries = ap (λ (d : Db). d.ledger_entries) kernel ∙ s.entries;
        entry_binds = s.entry_binds;
        rebuilt =
            ap (λ l. build_execution_graph_v2 s.execution l)
              (ap (λ o. list_execution_events w'.kernel o id) (sym same_org)
                ∙ ap (list_execution_events w'.kernel e.organization_id) (sym same_id)
                ∙ ap (λ d. list_execution_events d e.organization_id e.id) kernel)
            ∙ s.rebuilt;
        hashed = s.hashed;
      }

  -- Once a finalization has returned, for an organization with a name and an execution with a
  -- timeline, every later one that names the same organization and execution is refused and changes
  -- nothing, whatever its outcome and whatever openings, skill events, requests for approval,
  -- decisions and finalizations, of any execution, come in between.
  pub finalize-again :
      (before_commit again_commit : Throws (Unit {0})) (host' : Host) (draw' : Draws)
      (seal_draw' : Draw) (outcome' : Outcome) (response' : Option Str) (calls : List ServiceCall)
      → IsTimeline org id w.kernel
      → finalize_governed_execution n host draw seal_draw
          (named org id outcome response)
          before_commit
          w
        ≡ (ok result, w')
      → finalize_governed_execution n host' draw' seal_draw'
          (named org id outcome' response')
          again_commit
          (serve_all n calls w')
        ≡ (throw invalid_execution_transition, serve_all n calls w')
  unfolding finalize_governed_execution finalizable execution_for Stateful.◌>>=◌
  finalize-again before_commit again_commit host' draw' seal_draw' outcome' response' calls t h =
      let f = finalize-IsFinal before_commit t h in
      let s = outcome_status outcome in
      let (e, found, is) : HasStatus org id s (serve_all n calls w').kernel =
        serve_all-keeps n (HasStatus org id s)
          (HasStatus-IsStable n org id s (outcome_status-IsTerminal outcome)) calls w'
          (f.after, f.stored, f.status_is) in
      let closed : is_terminal e.status ≡ true =
        ap is_terminal is ∙ outcome_status-terminal outcome in
      rw (given, found, closed) refl
