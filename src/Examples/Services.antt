-- ===== src/Examples/Services.antt =====
-- Calls of the execution service on one organization.
use verity_os_v.Base.{
  ℕ, Str, codes, List, [], ◌∷◌, none, some, Result, ok, throw, true, false, ◌≡◌, refl, is_empty,
}
use verity_os_v.Base.Stateful
use verity_os_v.Contracts.{low}
use verity_os_v.Kernel.Noble.Checksum.{checksum_noble}
use verity_os_v.Kernel.Rows.{ExecutionEventRow}
use verity_os_v.Kernel.Seal.{Draw, SealExecutionResult}
use verity_os_v.Kernel.Calls.{IsSound}
use verity_os_v.Command.Rows.{CommandDb}
use verity_os_v.Command.Approvals.{create_approval}
use verity_os_v.Identity.Rows.{AuthDb}
use verity_os_v.Service.World.{World, ServiceError, invalid_execution_transition}
use verity_os_v.Service.Skills.{SkillEventInput, start}
use verity_os_v.Service.Lifecycle.{RequestApprovalInput, DecideInput, decide_execution_approval}
use verity_os_v.Service.Lifecycle.Decide.{IsDecided, decide-IsDecided}
use verity_os_v.Service.Outcome.{Draws, completes, fails}
use verity_os_v.Service.Governed.{OpenInput, FinalizeInput, finalize_governed_execution}
use verity_os_v.Service.Governed.Finalize.{IsFinal, named, finalize-IsFinal, finalize-again}
use verity_os_v.Service.Calls
use verity_os_v.Service.Calls.{ServiceCall, serve_all, serve_all-IsSound}
use verity_os_v.Examples.Chains.{org, host}
use verity_os_v.Examples.Policies.{around, started}
use verity_os_v.Examples.Sealing.{running_db, running-IsTimeline, running-IsSound, draw}
use verity_os_v.Base
use verity_os_v.Command.Policy
use verity_os_v.Command.Seed
use verity_os_v.Contracts
use verity_os_v.Kernel.Canonicalize
use verity_os_v.Kernel.Canonicalize.Normal
use verity_os_v.Kernel.Events
use verity_os_v.Kernel.Evidence
use verity_os_v.Kernel.Executions
use verity_os_v.Kernel.Hash
use verity_os_v.Kernel.Ledger
use verity_os_v.Kernel.Noble.Checksum
use verity_os_v.Kernel.Seal
use verity_os_v.Kernel.Utf8
use verity_os_v.Service.Governed
use verity_os_v.Service.Outcome
use verity_os_v.Service.Lifecycle
use verity_os_v.Service.World

abbrev artifact : Str
artifact = codes "0123456789abcdef0123456789abcdef0123456789abcdef0123456789abcdef"

-- Ann's request for an approval is open.
abbrev pending : CommandDb
pending =
    (create_approval (codes "a1") (codes "2026-01-02")
      (record {
        organization_id = org;
        execution_id = codes "e1";
        skill_id = codes "nova.social.draft";
        requested_by = codes "ann";
        artifact_hash = some artifact;
      })
      started).1

-- Bob is an administrator.
abbrev members : AuthDb
members = record {
  permissions = [];
  organizations = record { id = org; name = codes "Acme"; slug = codes "acme-1" } ∷ [];
  users =
      record {
        id = codes "bob";
        email = codes "bob@acme";
        password_hash = [];
        display_name = codes "Bob";
        disabled_at = none;
      }
      ∷ [];
  roles = record { id = codes "admin"; organization_id = org; name = codes "admin" } ∷ [];
  role_permissions = [];
  memberships =
      record {
        id = codes "m1";
        organization_id = org;
        user_id = codes "bob";
        role_id = codes "admin";
        created_at = 5;
      }
      ∷ [];
  sessions = [];
  service_credentials = [];
}

abbrev world : World
world = record { kernel = running_db; command = pending; auth = members }

abbrev decision : DecideInput
decision = record {
  organization_id = org;
  execution_id = codes "e1";
  approval_id = codes "a1";
  actor_id = codes "bob";
  allow = true;
  artifact_hash = artifact;
}

decided :
    (row : ExecutionEventRow) × (w : World) × (decide_execution_approval around
        (draw (codes "v1"))
        (codes "2026-01-03")
        decision
        world
      ≡ (ok row, w))
unfolding decide_execution_approval Stateful.◌>>=◌ Executions.get_execution Base.str_eq
    Lifecycle.decide_from Lifecycle.approval_of verity_os_v.Command.Approvals.get_approval
    create_approval verity_os_v.Command.Seed.Defaults.seeded Seed.seed_default_command
    verity_os_v.Kernel.Noble.is_sha256_hex is_empty Lifecycle.check_decision World.membership_of
    World.is_allow Policy.evaluate_policy Policy.load_active_policy Policy.policy_of Base.sort_by
    Policy.bound_policies Policy.evaluate_under Policy.evaluate_approval Policy.granted_skill
    Policy.find_approval Lifecycle.decide_accepted World.command_call
    verity_os_v.Command.Approvals.decide_approval World.kernel_call Events.append_execution_event
    Ledger.in_transaction Ledger.commit_or_rollback Events.append_execution_event_in_transaction
    Events.assert_event_evidence Base.includes Contracts.execution_event_types
    Evidence.assert_sha256_hex Canonicalize.canonicalize Canonicalize.encode Canonicalize.sequence
    Normal.to_fields Base.str_lt Canonicalize.encode_entry Evidence.assert_canonical_utc_timestamp
    Evidence.matches Hash.or_default Evidence.is_iso_date Events.check_parents
    Events.unique_sorted_ids World.last_event_id Events.list_execution_events Lifecycle.resume_if
    World.is_waiting
decided = (_, _, refl)

decide-IsDecided_example : IsDecided around (codes "2026-01-03") decision world decided.0 decided.1
decide-IsDecided_example =
    decide-IsDecided around (draw (codes "v1")) (codes "2026-01-03") decision world decided.1
      decided.0 decided.2

abbrev draws : Draws
draws k = draw (k ∷ [])

abbrev final : Str → FinalizeInput
final response = named org (codes "e1") fails (some response)

finalized :
    (result : SealExecutionResult) × (w : World) × (finalize_governed_execution checksum_noble host
        draws
        (draw (codes "v"))
        (final (codes "no"))
        (ok tt)
        world
      ≡ (ok result, w))
unfolding finalize_governed_execution Governed.execution_for Governed.finalizable
    Governed.seal_input Outcome.response_hash_of Outcome.outcome_status Outcome.outcome_entry
    Outcome.is_completing Outcome.closing_events Outcome.outcome_text Outcome.release_events
    World.kernel_call World.last_event_id World.is_terminal World.is_waiting Base.is_empty
    Stateful.◌>>=◌ Seal.seal_execution Ledger.in_transaction Ledger.commit_or_rollback Base.str_eq
    Base.str_lt Base.includes Base.sort_by Canonicalize.decimal_digits Canonicalize.decimal
    Canonicalize.stringify_integer Canonicalize.escape Canonicalize.quote_units Canonicalize.quote
    Canonicalize.join_rest Canonicalize.join Canonicalize.sequence Canonicalize.encode_entry
    Canonicalize.canonicalize Normal.to_fields Events.unique_sorted_ids Events.assert_event_evidence
    Events.max_sequence Events.check_parents Events.new_event
    Events.append_execution_event_in_transaction Events.list_execution_events
    verity_os_v.Kernel.Graph.build_execution_graph_v2
    verity_os_v.Kernel.Graph.compute_execution_graph_hash Ledger.ensure_state Ledger.make_checkpoint
    Ledger.follow_up Ledger.next_payload Ledger.append_ledger_entry_in_transaction
    Executions.status_eq Executions.transitions Executions.assert_execution_transition
    Executions.get_execution Executions.current_execution Executions.set_execution_status
    Hash.sha256_hex Hash.build_hash_payload Hash.nullable Hash.payload_fields
    Hash.compute_entry_hash Evidence.assert_sha256_hex Evidence.matches Evidence.is_iso_date
    Evidence.assert_canonical_utc_timestamp Evidence.assert_ledger_hash_fields Utf8.utf8_unit
    Utf8.utf8 Seal.load_request_opened_hash Seal.prelude_input Seal.append_preludes
    Seal.seal_event_input Seal.seal_entry_input Seal.seal_from Seal.seal_execution_in_transaction
    verity_os_v.Kernel.Noble.is_sha256_hex Checksum.to_hex Checksum.checksum
    verity_os_v.Kernel.Verify.is_nil Contracts.entry_type_text Contracts.status_text
    Contracts.execution_event_types Canonicalize.encode Canonicalize.unicode_escape
    Canonicalize.hex_unit
finalized = (_, _, refl)

finalize-IsFinal_example :
    IsFinal checksum_noble org (codes "e1") fails world finalized.0 finalized.1
unfolding is_empty
finalize-IsFinal_example =
    finalize-IsFinal checksum_noble host draws (draw (codes "v")) org (codes "e1") fails
      (some (codes "no")) world finalized.1 finalized.0 refl (ok tt) running-IsTimeline finalized.2

-- A skill, an approval and its decision, and the end of the execution.
abbrev skill : SkillEventInput
skill = record {
  organization_id = org;
  execution_id = codes "e1";
  phase = start;
  skill_id = codes "nova.social.draft";
  skill_version = codes "1";
  brand_id = none;
  config_hash = none;
  result_artifact_hash = none;
  reason_code = none;
}

abbrev asking : RequestApprovalInput
asking = record {
  organization_id = org;
  execution_id = codes "e1";
  skill_id = codes "nova.social.draft";
  requested_by = codes "bob";
  artifact_hash = artifact;
}

abbrev service_calls : List ServiceCall
service_calls =
    Calls.records_skill (draw (codes "v1")) skill
    ∷ Calls.requests_approval host (draw (codes "v2")) (codes "a2") (codes "2026-01-02") asking
    ∷ Calls.decides around (draw (codes "v3")) (codes "2026-01-03") decision
    ∷ Calls.finalizes host draws (draw (codes "v4")) (final (codes "no")) (ok tt)
    ∷ []

serve_all-IsSound_example :
    IsSound checksum_noble org (codes "e1") (serve_all checksum_noble service_calls world).kernel
serve_all-IsSound_example =
    serve_all-IsSound checksum_noble org (codes "e1") service_calls world running-IsSound

finalize-again_example :
    finalize_governed_execution checksum_noble host draws
      (draw (codes "w"))
      (named org (codes "e1") completes none)
      (ok tt)
      (serve_all checksum_noble service_calls finalized.1)
    ≡ (throw invalid_execution_transition, serve_all checksum_noble service_calls finalized.1)
unfolding is_empty
finalize-again_example =
    finalize-again checksum_noble host draws (draw (codes "v")) org (codes "e1") fails
      (some (codes "no")) world finalized.1 finalized.0 refl (ok tt) (ok tt) host draws
      (draw (codes "w")) completes none service_calls running-IsTimeline finalized.2
