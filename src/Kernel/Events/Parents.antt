-- ===== src/Kernel/Events/Parents.antt =====
-- The order of the events of an execution: their numbers and their parents.
use verity_os_v.Base.{
  ℕ, suc, ◌+◌, ◌<◌, Str, str_eq, str_eq_iff, false, ◌&&◌, List, [], ◌∷◌, ◌++◌, some, ok, ltb_iff,
  All, Bool-cases, Option-cases, ◌≡◌, refl, arith, inl, inr, length,
}
use verity_os_v.Kernel.Rows.{ExecutionEventRow, Db}
use verity_os_v.Kernel.Events.{events_of, max_sequence, find_event, check_parents}

-- An event of the execution with a lower sequence.
pub record IsParent (org execution : Str) (events : List ExecutionEventRow) (sequence : ℕ)
    (id : Str) : Type 0 where
  pub parent : ExecutionEventRow
  pub found : find_event id events ≡ some parent
  pub organization_is : parent.organization_id ≡ org
  pub execution_is : parent.execution_id ≡ execution
  pub earlier : parent.event_sequence < sequence

abbrev pub HasParents : Str → Str → List ExecutionEventRow → ExecutionEventRow → Type 0
HasParents org execution events e =
    All (IsParent org execution events e.event_sequence) e.parent_event_ids

-- Sequences that count up from a first one.
abbrev pub Numbered : ℕ → List ExecutionEventRow → Type 0
Numbered first [] = Unit
Numbered first (e ∷ es) = (e.event_sequence ≡ first) × Numbered (suc first) es

pub record IsTimeline (org execution : Str) (db : Db) : Type 0 where
  pub numbered : Numbered 1 (events_of org execution db.execution_events)
  pub parents :
      All
        (HasParents org execution db.execution_events)
        (events_of org execution db.execution_events)

pub check_parents-IsParent :
    (org execution : Str) (next : ℕ) (events : List ExecutionEventRow) (ids : List Str)
    → check_parents org execution next events ids ≡ ok tt
    → All (IsParent org execution events next) ids
unfolding check_parents
check_parents-IsParent org execution next events [] h = tt
check_parents-IsParent org execution next events (id ∷ ids) h =
    elim (Option-cases (find_event id events)) [
      | inl e ↦ absurd (ground arith)
      | inr (p, e) ↦ (
        record {
          parent = p;
          found = e;
          organization_is = ground (arith, str_eq_iff p.organization_id org);
          execution_is = ground (arith, str_eq_iff p.execution_id execution);
          earlier = ground (arith, ltb_iff p.event_sequence next);
        },
        check_parents-IsParent org execution next events ids (ground arith),
      )
    ]

find_event-append :
    (id : Str) (events more : List ExecutionEventRow) (e : ExecutionEventRow)
    → find_event id events ≡ some e
    → find_event id (events ++ more) ≡ some e
unfolding find_event
find_event-append id [] more e h = cc
find_event-append id (x ∷ events) more e h = elim (Bool-cases (str_eq x.id id)) [
  | inl t ↦ ground arith
  | inr f ↦ let rest = find_event-append id events more e (ground arith) in ground arith
]

IsParent-append :
    (org execution : Str) (events more : List ExecutionEventRow) (sequence : ℕ) (ids : List Str)
    → All (IsParent org execution events sequence) ids
    → All (IsParent org execution (events ++ more) sequence) ids
IsParent-append org execution events more sequence [] h = tt
IsParent-append org execution events more sequence (id ∷ ids) (p, h) = (
  record {
    parent = p.parent;
    found = find_event-append id events more p.parent p.found;
    organization_is = p.organization_is;
    execution_is = p.execution_is;
    earlier = p.earlier;
  },
  IsParent-append org execution events more sequence ids h,
)

pub HasParents-append :
    (org execution : Str) (events more es : List ExecutionEventRow)
    → All (HasParents org execution events) es
    → All (HasParents org execution (events ++ more)) es
HasParents-append org execution events more [] h = tt
HasParents-append org execution events more (e ∷ es) h = (
  IsParent-append org execution events more e.event_sequence e.parent_event_ids h.0,
  HasParents-append org execution events more es h.1,
)

-- The maximum of numbers that count up from a first one.
Numbered-max_sequence :
    (first : ℕ) (es : List ExecutionEventRow)
    → Numbered (suc first) es
    → 0 < length es
    → max_sequence es ≡ first + length es
unfolding max_sequence
Numbered-max_sequence first [] h pos = absurd (omega arith)
Numbered-max_sequence first (e ∷ []) h pos =
    let a = h.0 in ground (arith, ltb_iff 0 e.event_sequence)
Numbered-max_sequence first (e ∷ f ∷ es) h pos =
    let a = h.0 in
    let rest = Numbered-max_sequence (suc first) (f ∷ es) h.1 (omega arith) in
    ground (arith, ltb_iff (max_sequence (f ∷ es)) e.event_sequence)

pub Numbered-append :
    (first : ℕ) (es : List ExecutionEventRow) (e : ExecutionEventRow)
    → Numbered first es
    → e.event_sequence ≡ first + length es
    → Numbered first (es ++ e ∷ [])
Numbered-append first [] e h s = (omega (arith, s), tt)
Numbered-append first (x ∷ es) e h s =
    (h.0, Numbered-append (suc first) es e h.1 (omega (arith, s)))

pub next-Numbered :
    (es : List ExecutionEventRow) → Numbered 1 es → max_sequence es + 1 ≡ 1 + length es
unfolding max_sequence
next-Numbered [] h = omega arith
next-Numbered (e ∷ es) h =
    let m = Numbered-max_sequence 0 (e ∷ es) h (omega arith) in omega (arith, m)

pub events_of-own :
    (org execution : Str) (es : List ExecutionEventRow) (e : ExecutionEventRow)
    → e.organization_id ≡ org
    → e.execution_id ≡ execution
    → events_of org execution (es ++ e ∷ []) ≡ events_of org execution es ++ e ∷ []
events_of-own org execution [] e h k =
    ground (arith, str_eq_iff e.organization_id org, str_eq_iff e.execution_id execution)
events_of-own org execution (x ∷ es) e h k =
    let r = events_of-own org execution es e h k in ground arith

pub events_of-other :
    (org execution : Str) (es : List ExecutionEventRow) (e : ExecutionEventRow)
    → (str_eq e.organization_id org && str_eq e.execution_id execution) ≡ false
    → events_of org execution (es ++ e ∷ []) ≡ events_of org execution es
events_of-other org execution [] e h = rw h refl
events_of-other org execution (x ∷ es) e h =
    let r = events_of-other org execution es e h in ground arith
