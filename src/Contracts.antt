-- ===== src/Contracts.antt =====
-- The unions, records and tables of packages/contracts/src/index.ts that the components share.
-- A string literal union is a data type; event types stay strings, since they are checked at run
-- time against the list of known ones.
use verity_os_v.Base.{ℕ, Str, codes, List, [], ◌∷◌}

pub data RiskTier : Type 0 where
  low medium high : RiskTier

pub data DataClassification : Type 0 where
  public internal confidential restricted : DataClassification

pub data LedgerEntryType : Type 0 where
  request_opened approval_requested action_completed final failure : LedgerEntryType

pub data ExecutionStatus : Type 0 where
  created running waiting_approval completed failed blocked cancelled : ExecutionStatus

pub data PolicyDecisionValue : Type 0 where
  allow deny approval_required : PolicyDecisionValue

pub data DeploymentType : Type 0 where
  local private cloud : DeploymentType

pub data ModelProvider : Type 0 where
  mock anthropic openai openai_compatible : ModelProvider

-- CLASSIFICATION_RANK and RISK_RANK
unfoldable pub classification_rank : DataClassification → ℕ
classification_rank public = 0
classification_rank internal = 1
classification_rank confidential = 2
classification_rank restricted = 3

unfoldable pub risk_rank : RiskTier → ℕ
risk_rank low = 0
risk_rank medium = 1
risk_rank high = 2

-- The strings that the unions stand for, where the code hashes them.
unfoldable pub entry_type_text : LedgerEntryType → Str
entry_type_text request_opened = codes "request_opened"
entry_type_text approval_requested = codes "approval_requested"
entry_type_text action_completed = codes "action_completed"
entry_type_text final = codes "final"
entry_type_text failure = codes "failure"

unfoldable pub status_text : ExecutionStatus → Str
status_text created = codes "created"
status_text running = codes "running"
status_text waiting_approval = codes "waiting_approval"
status_text completed = codes "completed"
status_text failed = codes "failed"
status_text blocked = codes "blocked"
status_text cancelled = codes "cancelled"

unfoldable pub execution_event_types : List Str
execution_event_types =
    codes "execution.created"
    ∷ codes "identity.authenticated"
    ∷ codes "authorization.started"
    ∷ codes "authorization.allowed"
    ∷ codes "authorization.denied"
    ∷ codes "risk.classified"
    ∷ codes "knowledge.retrieval.started"
    ∷ codes "knowledge.retrieval.completed"
    ∷ codes "knowledge.retrieval.insufficient"
    ∷ codes "model.routing.started"
    ∷ codes "model.selected"
    ∷ codes "model.routing.failed"
    ∷ codes "model.execution.started"
    ∷ codes "model.execution.completed"
    ∷ codes "model.execution.failed"
    ∷ codes "nova.skill.started"
    ∷ codes "nova.skill.completed"
    ∷ codes "nova.skill.failed"
    ∷ codes "validation.started"
    ∷ codes "validation.passed"
    ∷ codes "validation.failed"
    ∷ codes "approval.requested"
    ∷ codes "approval.approved"
    ∷ codes "approval.rejected"
    ∷ codes "approval.expired"
    ∷ codes "tool.requested"
    ∷ codes "tool.authorized"
    ∷ codes "tool.denied"
    ∷ codes "tool.completed"
    ∷ codes "tool.failed"
    ∷ codes "release.started"
    ∷ codes "release.completed"
    ∷ codes "release.blocked"
    ∷ codes "execution.failed"
    ∷ codes "execution.blocked"
    ∷ codes "execution.completed"
    ∷ codes "audit.checkpoint.sealed"
    ∷ []

abbrev pub graph_schema_version : Str
graph_schema_version = codes "2"
