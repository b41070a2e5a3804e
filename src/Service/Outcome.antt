-- ===== src/Service/Outcome.antt =====
-- apps/core-api/src/execution/service.ts: the events that close an execution, and the hash of its
-- response.
use verity_os_v.Base.{
  ℕ, String, Str, codes, str_eq, is_empty, Bool, true, false, not, ◌&&◌, List, [], ◌∷◌, Option,
  none, some, if◌then◌else◌, select, get_last?,
}
use verity_os_v.Contracts.{
  ExecutionStatus, completed, failed, blocked, LedgerEntryType, final, failure,
}
use verity_os_v.Kernel.Noble.{Noble}
use verity_os_v.Kernel.Canonicalize.{Value, string}
use verity_os_v.Kernel.Hash.{sha256_hex}
use verity_os_v.Kernel.Rows.{ExecutionEventRow}
use verity_os_v.Kernel.Seal.{Draw, PreludeEvent}

-- The random ids and the clock, for the n-th append of a call.
abbrev pub Draws : Type 0
Draws = ℕ → Draw

pub data Outcome : Type 0 where
  completes fails blocks : Outcome

unfoldable pub outcome_status : Outcome → ExecutionStatus
outcome_status completes = completed
outcome_status fails = failed
outcome_status blocks = blocked

unfoldable pub outcome_text : Outcome → Str
outcome_text completes = codes "completed"
outcome_text fails = codes "failed"
outcome_text blocks = codes "blocked"

unfoldable pub outcome_entry : Outcome → LedgerEntryType
outcome_entry completes = final
outcome_entry fails = failure
outcome_entry blocks = failure

unfoldable pub is_completing : Outcome → Bool
is_completing completes = true
is_completing fails = false
is_completing blocks = false

abbrev pub bare_event : Draw → String → Str → List Str → List (Str × Value) → PreludeEvent
bare_event draw event_type status parents metadata = record {
  draw = draw;
  event_type = codes event_type;
  status = status;
  parent_event_ids = parents;
  input_hash = none;
  output_hash = none;
  metadata = metadata;
  occurred_at_canonical = none;
}

unfoldable pub release_events : Outcome → Draws → List PreludeEvent
release_events completes draw =
    bare_event (draw 3) "release.started" (codes "started") [] []
    ∷ bare_event (draw 4) "release.completed" (codes "ok") [] []
    ∷ []
release_events fails draw =
    bare_event (draw 3) "release.blocked" (codes "blocked") []
      ((codes "outcome", string (codes "failed")) ∷ [])
    ∷ []
release_events blocks draw =
    bare_event (draw 3) "release.blocked" (codes "blocked") []
      ((codes "outcome", string (codes "blocked")) ∷ [])
    ∷ []

unfoldable pub closing_events : Outcome → Draws → List Str → List PreludeEvent
unfolding outcome_text release_events
closing_events outcome draw parents =
    bare_event (draw 0) "validation.started" (codes "started") parents []
    ∷ bare_event (draw 1)
        (elim outcome [ completes ↦ "validation.passed" | _ ↦ "validation.failed" ])
        (elim outcome [ completes ↦ codes "ok" | _ ↦ codes "failed" ]) []
        ((codes "outcome", string (outcome_text outcome)) ∷ [])
    ∷ bare_event (draw 2)
        (elim outcome [
          | completes ↦ "execution.completed"
          | blocks ↦ "execution.blocked"
          | fails ↦ "execution.failed"
        ])
        (elim outcome [
          | completes ↦ codes "ok"
          | blocks ↦ codes "blocked"
          | fails ↦ codes "failed"
        ])
        [] []
    ∷ release_events outcome draw

abbrev pub has_output : Option Str → Bool
has_output none = false
has_output (some hash) = not (is_empty hash)

-- The output of the last event that a test accepts.
abbrev pub last_output : Option ExecutionEventRow → Option Str
last_output none = none
last_output (some e) = e.output_hash

abbrev pub or_hash : Option Str → Option Str → Option Str
or_hash none b = b
or_hash (some a) b = some a

unfoldable pub artifact_hash_of : List ExecutionEventRow → Option Str
artifact_hash_of events =
    or_hash
      (last_output (
        get_last? (
          select
            (λ e. str_eq e.event_type (codes "nova.skill.completed") && has_output e.output_hash)
            events)))
      (last_output
        (get_last? (select (λ e. str_eq e.event_type (codes "model.execution.completed")) events)))

-- `response_text` is JSON.stringify(response), where there is one.
unfoldable pub response_hash_of : Noble → Outcome → Option Str → List ExecutionEventRow → Option Str
unfolding artifact_hash_of is_completing
response_hash_of n outcome (some text) events = some (sha256_hex n text)
response_hash_of n outcome none events =
    if is_completing outcome then artifact_hash_of events else none
