-- ===== src/Service/Skills.antt =====
-- apps/core-api/src/execution/lifecycle.ts: the events of skills.
use verity_os_v.Base.{
  Str, codes, is_empty, includes, not, List, [], ◌∷◌, ◌++◌, Option, none, some, Result, ok, throw,
  guard, if◌then◌else◌,
}
use verity_os_v.Base.Stateful.{◌>>=◌, ◌>>◌, pure, query, lift}
use verity_os_v.Contracts.{ExecutionStatus}
use verity_os_v.Kernel.Noble.{is_sha256_hex}
use verity_os_v.Kernel.Canonicalize.{Value, string}
use verity_os_v.Kernel.Events.{append_execution_event}
use verity_os_v.Kernel.Seal.{Draw}
use verity_os_v.Service.World.{
  ServiceError, Action, kernel_call, last_event_id, as_parents, require_scoped_open, invalid_input,
  unknown_skill,
}

pub data Phase : Type 0 where
  start complete fail : Phase

-- SKILL_EVENT_TYPES
unfoldable pub skill_event_type : Phase → Str
skill_event_type start = codes "nova.skill.started"
skill_event_type complete = codes "nova.skill.completed"
skill_event_type fail = codes "nova.skill.failed"

unfoldable pub phase_status : Phase → Str
phase_status start = codes "started"
phase_status complete = codes "ok"
phase_status fail = codes "failed"

unfoldable pub assert_sha256 : Option Str → Result ServiceError (Option Str)
assert_sha256 none = ok none
assert_sha256 (some value) =
    if not (is_sha256_hex value) then throw invalid_input else ok (some value)

-- `if (value) { metadata[key] = value; }`
abbrev pub entry_if : Str → Option Str → List (Str × Value)
entry_if key none = []
entry_if key (some value) = if is_empty value then [] else (key, string value) ∷ []

abbrev pub allowed_skills : List Str
allowed_skills =
    codes "nova.social.draft"
    ∷ codes "nova.research"
    ∷ codes "nova.drafting"
    ∷ codes "nova.use"
    ∷ []

pub record SkillEventInput : Type 0 where
  pub organization_id : Str
  pub execution_id : Str
  pub phase : Phase
  pub skill_id : Str
  pub skill_version : Str
  pub brand_id : Option Str
  pub config_hash : Option Str
  pub result_artifact_hash : Option Str
  pub reason_code : Option Str

pub record SkillEventResult : Type 0 where
  pub event_id : Str
  pub event_type : Str
  pub execution_id : Str
  pub status : ExecutionStatus

unfoldable pub skill_metadata : SkillEventInput → Option Str → Option Str → List (Str × Value)
skill_metadata input config artifact =
    (codes "skill_id", string input.skill_id)
    ∷ (codes "skill_version", string input.skill_version)
    ∷ (entry_if (codes "brand_id") input.brand_id
        ++ (entry_if (codes "config_hash") config
            ++ (entry_if (codes "result_artifact_hash") artifact
                ++ entry_if (codes "reason_code") input.reason_code)))

unfoldable pub record_skill_lifecycle_event : Draw → SkillEventInput → Action SkillEventResult
record_skill_lifecycle_event draw input = do
  found ← query (λ w. require_scoped_open w input.organization_id input.execution_id)
  execution ← lift found
  lift (guard (includes allowed_skills input.skill_id) unknown_skill)
  config ← lift (assert_sha256 input.config_hash)
  artifact ← lift (assert_sha256 input.result_artifact_hash)
  parent ← query (λ w. last_event_id w execution.organization_id execution.id)
  row ← kernel_call (
      append_execution_event draw.id draw.now (record {
        organization_id = execution.organization_id;
        execution_id = execution.id;
        event_type = skill_event_type input.phase;
        status = phase_status input.phase;
        parent_event_ids = as_parents parent;
        input_hash = none;
        output_hash = artifact;
        metadata = skill_metadata input config artifact;
        occurred_at_canonical = none;
      }))
  pure (record {
    event_id = row.id;
    event_type = row.event_type;
    execution_id = execution.id;
    status = execution.status;
  })
