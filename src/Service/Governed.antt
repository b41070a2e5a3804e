-- ===== src/Service/Governed.antt =====
-- apps/core-api/src/execution/service.ts: opening and finalizing a governed execution. The text of
-- a request or a response is what JSON.stringify gives for it.
pub mod Finalized
pub mod Finalize
use verity_os_v.Base.{
  Str, codes, is_empty, ◌&&◌, ◌||◌, [], ◌∷◌, ◌++◌, Option, none, some, Result, ok, throw,
  if◌then◌else◌,
}
use verity_os_v.Base.Stateful.{◌>>=◌, ◌>>◌, pure, query, lift}
use verity_os_v.Contracts.{RiskTier, low, medium, high, request_opened}
use verity_os_v.Kernel.Error.{Throws}
use verity_os_v.Kernel.Noble.{Noble}
use verity_os_v.Kernel.Canonicalize.{string}
use verity_os_v.Kernel.Hash.{sha256_hex}
use verity_os_v.Kernel.Rows.{ExecutionRow, Db}
use verity_os_v.Kernel.Executions.{get_execution, get_execution_by_id, open_execution}
use verity_os_v.Kernel.Ledger.{Host, append_ledger_entry}
use verity_os_v.Kernel.Events.{append_execution_event, list_execution_events}
use verity_os_v.Kernel.Seal.{Draw, SealExecutionInput, SealExecutionResult, seal_execution}
use verity_os_v.Service.World.{
  World, ServiceError, Action, kernel_call, last_event_id, as_parents, is_terminal, is_waiting,
  not_found, invalid_execution_transition, approval_pending,
}
use verity_os_v.Service.Outcome.{
  Draws, Outcome, outcome_status, outcome_entry, is_completing, closing_events, response_hash_of,
}

unfoldable pub risk_text : RiskTier → Str
risk_text low = codes "low"
risk_text medium = codes "medium"
risk_text high = codes "high"

-- `request_text` is JSON.stringify(request ?? {}).
pub record OpenInput : Type 0 where
  pub organization_id : Str
  pub actor_id : Str
  pub session_id : Option Str
  pub skill_id : Str
  pub risk_tier : RiskTier
  pub retention_mode : Option Str
  pub request_text : Str
  pub role_id : Str

abbrev pub or_standard : Option Str → Str
or_standard none = codes "standard"
or_standard (some mode) = mode

-- A call that cannot throw.
abbrev pub always : {A : Type 0} → A × Db → Throws A × Db
always (a, db) = (ok a, db)

-- running ?? execution
abbrev pub or_opened : Option ExecutionRow → ExecutionRow → ExecutionRow
or_opened none e = e
or_opened (some running) e = running

unfoldable pub open_governed_execution :
    Noble → Host → Draws → (id verity_record_id now : Str) → OpenInput → Action ExecutionRow
open_governed_execution n host draw id verity_record_id now input = do
  execution ← kernel_call (λ db. always (
      open_execution id verity_record_id now
        (record {
          organization_id = input.organization_id;
          actor_id = some input.actor_id;
          session_id = input.session_id;
          skill_id = some input.skill_id;
          risk_tier = some input.risk_tier;
          policy_version = none;
          retention_mode = some (or_standard input.retention_mode);
        })
        db))
  made ← kernel_call (
      append_execution_event (draw 0).id (draw 0).now (record {
        organization_id = input.organization_id;
        execution_id = execution.id;
        event_type = codes "execution.created";
        status = codes "recorded";
        parent_event_ids = [];
        input_hash = none;
        output_hash = none;
        metadata =
            (codes "skill_id", string input.skill_id)
            ∷ (codes "risk_tier", string (risk_text input.risk_tier))
            ∷ [];
        occurred_at_canonical = none;
      }))
  known ← kernel_call (
      append_execution_event (draw 1).id (draw 1).now (record {
        organization_id = input.organization_id;
        execution_id = execution.id;
        event_type = codes "identity.authenticated";
        status = codes "ok";
        parent_event_ids = made.id ∷ [];
        input_hash = none;
        output_hash = none;
        metadata =
            (codes "actor_id", string input.actor_id)
            ∷ (codes "role_id", string input.role_id)
            ∷ [];
        occurred_at_canonical = none;
      }))
  entry ← kernel_call (
      append_ledger_entry n host (record {
        organization_id = input.organization_id;
        execution_id = execution.id;
        entry_type = request_opened;
        request_hash = some (sha256_hex n input.request_text);
        response_hash = none;
        execution_graph_hash = none;
        merkle_snapshot_interval = none;
        created_at_canonical = none;
        kernel_version = none;
        execution_status = none;
      }))
  running ← query (λ w. get_execution input.organization_id execution.id w.kernel)
  pure (or_opened running execution)

pub record FinalizeInput : Type 0 where
  pub execution_id : Str
  pub organization_id : Option Str
  pub outcome : Outcome
  pub response_text : Option Str

-- The execution, by its organization where the caller names one.
unfoldable pub execution_for : FinalizeInput → Option Str → World → Option ExecutionRow
execution_for input none w = get_execution_by_id input.execution_id w.kernel
execution_for input (some org) w =
    if is_empty org
    then get_execution_by_id input.execution_id w.kernel
    else get_execution org input.execution_id w.kernel

unfoldable pub finalizable : Option ExecutionRow → Outcome → Result ServiceError ExecutionRow
unfolding is_completing
finalizable none outcome = throw not_found
finalizable (some e) outcome =
    if is_terminal e.status
    then throw invalid_execution_transition
    else if is_waiting e.status && is_completing outcome
    then throw approval_pending
    else ok e

unfoldable pub seal_input :
    Draws → Outcome → ExecutionRow → Option Str → Option Str → SealExecutionInput
unfolding outcome_status outcome_entry closing_events
seal_input draw outcome execution parent response = record {
  organization_id = execution.organization_id;
  execution_id = execution.id;
  entry_type = outcome_entry outcome;
  execution_status = outcome_status outcome;
  response_hash = response;
  parent_event_ids = as_parents parent;
  prelude_events = closing_events outcome draw (as_parents parent);
}

-- `before_commit` is the hook that `injectFailure` makes throw.
unfoldable pub finalize_governed_execution :
    Noble → Host → Draws → Draw → FinalizeInput → Throws (Unit {0}) → Action SealExecutionResult
finalize_governed_execution n host draw seal_draw input before_commit = do
  row ← query (execution_for input input.organization_id)
  execution ← lift (finalizable row input.outcome)
  parent ← query (λ w. last_event_id w execution.organization_id execution.id)
  events ← query (λ w. list_execution_events w.kernel execution.organization_id execution.id)
  let response = response_hash_of n input.outcome input.response_text events
  kernel_call (
      seal_execution n host seal_draw (seal_input draw input.outcome execution parent response)
        before_commit)
