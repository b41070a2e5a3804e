-- ===== src/Service/Calls.antt =====
-- The calls of apps/core-api/src/execution that change the database, in any order.
use verity_os_v.Base.{Str, List, [], ◌∷◌}
use verity_os_v.Kernel.Error.{Throws}
use verity_os_v.Kernel.Noble.{Noble}
use verity_os_v.Kernel.Rows.{Db}
use verity_os_v.Kernel.Ledger.{Host}
use verity_os_v.Kernel.Seal.{Draw}
use verity_os_v.Kernel.Calls.{IsSound}
use verity_os_v.Service.Stable.{IsStable, IsSound-IsStable}
use verity_os_v.Command.Rows.{Surroundings}
use verity_os_v.Service.World.{World}
use verity_os_v.Service.Skills.{SkillEventInput, record_skill_lifecycle_event}
use verity_os_v.Service.Lifecycle.{
  RequestApprovalInput, request_execution_approval, DecideInput, decide_execution_approval,
}
use verity_os_v.Service.Outcome.{Draws}
use verity_os_v.Service.Governed.{
  OpenInput, open_governed_execution, FinalizeInput, finalize_governed_execution,
}
use verity_os_v.Service.Kept.{skill-Safe, request-Safe, decide-Safe, open-Safe, finalize-Safe}

-- The calls, with what each draws at random, the clock and the surroundings.
pub data ServiceCall : Type 0 where
  opens : Host → Draws → (id verity_record_id now : Str) → OpenInput → ServiceCall
  records_skill : Draw → SkillEventInput → ServiceCall
  requests_approval : Host → Draw → (id now : Str) → RequestApprovalInput → ServiceCall
  decides : Surroundings → Draw → Str → DecideInput → ServiceCall
  finalizes : Host → Draws → Draw → FinalizeInput → Throws (Unit {0}) → ServiceCall

abbrev pub serve : Noble → ServiceCall → World → World
serve n (opens host draw id verity_record_id now input) w =
    (open_governed_execution n host draw id verity_record_id now input w).1
serve n (records_skill draw input) w = (record_skill_lifecycle_event draw input w).1
serve n (requests_approval host draw id now input) w =
    (request_execution_approval n host draw id now input w).1
serve n (decides around draw now input) w = (decide_execution_approval around draw now input w).1
serve n (finalizes host draw seal_draw input before_commit) w =
    (finalize_governed_execution n host draw seal_draw input before_commit w).1

abbrev pub serve_all : Noble → List ServiceCall → World → World
serve_all n [] w = w
serve_all n (call ∷ calls) w = serve_all n calls (serve n call w)

module _ (n : Noble) (P : Db → Type 0) (k : IsStable n P) where
  serve-keeps : (call : ServiceCall) (w : World) → P w.kernel → P (serve n call w).kernel
  serve-keeps (opens host draw id verity_record_id now input) w s =
      open-Safe n P k host draw id verity_record_id now input w s
  serve-keeps (records_skill draw input) w s = skill-Safe n P k draw input w s
  serve-keeps (requests_approval host draw id now input) w s =
      request-Safe n P k host draw id now input w s
  serve-keeps (decides around draw now input) w s = decide-Safe n P k around draw now input w s
  serve-keeps (finalizes host draw seal_draw input before_commit) w s =
      finalize-Safe n P k host draw seal_draw input before_commit w s

  pub serve_all-keeps :
      (calls : List ServiceCall) (w : World) → P w.kernel → P (serve_all n calls w).kernel
  serve_all-keeps [] w s = s
  serve_all-keeps (call ∷ calls) w s = serve_all-keeps calls (serve n call w) (serve-keeps call w s)

module _ (n : Noble) (org execution : Str) where
  -- From a database where the entries of an organization are a hash chain and the events of an
  -- execution a timeline, any sequence of openings, skill events, requests for approval, decisions
  -- and finalizations of the execution service, each of which may throw part of the way, leads to
  -- one where they still are.
  pub serve_all-IsSound :
      (calls : List ServiceCall) (w : World)
      → IsSound n org execution w.kernel
      → IsSound n org execution (serve_all n calls w).kernel
  serve_all-IsSound calls w s =
      serve_all-keeps n (IsSound n org execution) (IsSound-IsStable n org execution) calls w s
