-- ===== src/Kernel/Graph/Forward.antt =====
-- buildExecutionGraphV2 of execution/graph-v2.ts on the recorded events of an execution.
use verity_os_v.Base.{
  ℕ, suc, ◌<◌, Str, str_eq, str_eq_iff, str_eq_refl, str_lt, sort_by, sort-id, sort-All, Sorted,
  Bool, true, not, ◌&&◌, List, [], ◌∷◌, map, some, ok, select, ltb_iff, All, Member, All-Member,
  Member-All, All-append, Bool-cases, ◌≡◌, refl, sym, ap, ◌∙◌, arith, inl, inr,
}
use verity_os_v.Contracts.{graph_schema_version}
use verity_os_v.Kernel.Rows.{ExecutionEventRow, ExecutionRow, Db}
use verity_os_v.Kernel.Events.{events_of, find_event, list_execution_events}
use verity_os_v.Kernel.Events.Parents.{IsParent, HasParents, Numbered, IsTimeline}
use verity_os_v.Kernel.Verify.{is_nil}
use verity_os_v.Kernel.Graph.{
  ExecutionGraphNode, ExecutionGraphEdge, ExecutionGraphV2, flat_map, to_node, event_lt, has_event,
  unresolved_parents, to_edges, edge_lt, build_execution_graph_v2,
}

-- An edge between two nodes of the graph, the first of which has the lower sequence.
pub record IsForward (nodes : List ExecutionGraphNode) (edge : ExecutionGraphEdge) : Type 0 where
  pub source : ExecutionGraphNode
  pub target : ExecutionGraphNode
  pub source_in : Member source nodes
  pub target_in : Member target nodes
  pub source_is : edge.from_event_id ≡ source.event_id
  pub target_is : edge.to_event_id ≡ target.event_id
  pub earlier : source.sequence < target.sequence

pub Numbered-Sorted :
    (first : ℕ) (es : List ExecutionEventRow) → Numbered first es → Sorted event_lt es
Numbered-Sorted first [] h = tt
Numbered-Sorted first (e ∷ []) h = tt
Numbered-Sorted first (e ∷ f ∷ es) h =
    let a = h.0 in
    let b = h.1.0 in
    (
      ground (arith, a, b, ltb_iff f.event_sequence e.event_sequence),
      Numbered-Sorted (suc first) (f ∷ es) h.1,
    )

All-flat_map :
    {A B : Type 0} (P : B → Type 0) (f : A → List B) (xs : List A)
    → All (λ x. All P (f x)) xs
    → All P (flat_map f xs)
unfolding flat_map
All-flat_map P f [] h = tt
All-flat_map P f (x ∷ xs) h = All-append P (f x) (flat_map f xs) h.0 (All-flat_map P f xs h.1)

All-map :
    {A B : Type 0} (P : B → Type 0) (f : A → B) (xs : List A)
    → All (λ x. P (f x)) xs
    → All P (map f xs)
All-map P f [] h = tt
All-map P f (x ∷ xs) h = (h.0, All-map P f xs h.1)

Member-map :
    (e : ExecutionEventRow) (es : List ExecutionEventRow)
    → Member e es
    → Member (to_node e) (map to_node es)
Member-map e [] h = absurd h
Member-map e (x ∷ es) (inl same) = inl (ap to_node same)
Member-map e (x ∷ es) (inr h) = inr (Member-map e es h)

-- The event that a lookup finds is among those of its execution.
found-Member :
    (org execution id : Str) (events : List ExecutionEventRow) (q : ExecutionEventRow)
    → find_event id events ≡ some q
    → q.organization_id ≡ org
    → q.execution_id ≡ execution
    → Member q (events_of org execution events) × (q.id ≡ id)
unfolding find_event
found-Member org execution id [] q h ho he = cc
found-Member org execution id (x ∷ events) q h ho he = elim (Bool-cases (str_eq x.id id)) [
  | inl t ↦
      let same : x ≡ q = ground arith in
      let own : (str_eq x.organization_id org && str_eq x.execution_id execution) ≡ true =
        rw (same, ho, he, str_eq_refl org, str_eq_refl execution) refl in
      (rw own (inl (sym same)), ap (λ r. r.id) (sym same) ∙ (str_eq_iff x.id id).0 t)
  | inr f ↦
      let (m, i) = found-Member org execution id events q (ground arith) ho he in
      elim (Bool-cases (str_eq x.organization_id org && str_eq x.execution_id execution)) [
        | inl own ↦ (rw own (inr m), i)
        | inr other ↦ (rw other m, i)
      ]
]

Member-has_event :
    (id : Str) (es : List ExecutionEventRow) (q : ExecutionEventRow)
    → Member q es
    → q.id ≡ id
    → has_event es id ≡ true
Member-has_event id [] q h e = absurd h
Member-has_event id (x ∷ es) q (inl same) e =
    let t : str_eq x.id id ≡ true = (str_eq_iff x.id id).1 (ap (λ r. r.id) (sym same) ∙ e) in
    ground arith
Member-has_event id (x ∷ es) q (inr h) e = let r = Member-has_event id es q h e in ground arith

select-none :
    (p : Str → Bool) (ids : List Str)
    → All (λ id. p id ≡ true) ids
    → select (λ id. not (p id)) ids ≡ []
select-none p [] h = refl
select-none p (id ∷ ids) h = let t = h.0 in let r = select-none p ids h.1 in ground arith

flat_map-none :
    {A B : Type 0} (f : A → List B) (xs : List A) → All (λ x. f x ≡ []) xs → flat_map f xs ≡ []
unfolding flat_map
flat_map-none f [] h = refl
flat_map-none f (x ∷ xs) h = rw (h.0, flat_map-none f xs h.1) refl

module _ (org execution : Str) (db : Db) (t : IsTimeline org execution db) where
  timeline : List ExecutionEventRow
  timeline = events_of org execution db.execution_events

  parent-has_event :
      (sequence : ℕ) (ids : List Str)
      → All (IsParent org execution db.execution_events sequence) ids
      → All (λ id. has_event timeline id ≡ true) ids
  unfolding timeline
  parent-has_event sequence [] h = tt
  parent-has_event sequence (id ∷ ids) (p, h) =
      let (m, i) =
        found-Member org execution id db.execution_events p.parent p.found p.organization_is
          p.execution_is in
      (Member-has_event id timeline p.parent m i, parent-has_event sequence ids h)

  none_unresolved : unresolved_parents timeline ≡ []
  unfolding unresolved_parents timeline
  none_unresolved = flat_map-none _ timeline (
      Member-All _ timeline λ e m. select-none (has_event timeline) e.parent_event_ids (
        parent-has_event e.event_sequence e.parent_event_ids
          (All-Member (HasParents org execution db.execution_events) e timeline t.parents m)))

  edge-IsForward :
      (e : ExecutionEventRow) (id : Str)
      → Member e timeline
      → IsParent org execution db.execution_events e.event_sequence id
      → IsForward (map to_node timeline) (record { from_event_id = id; to_event_id = e.id })
  unfolding to_node timeline
  edge-IsForward e id m p =
      let (k, i) =
        found-Member org execution id db.execution_events p.parent p.found p.organization_is
          p.execution_is in
      record {
        source = to_node p.parent;
        target = to_node e;
        source_in = Member-map p.parent timeline k;
        target_in = Member-map e timeline m;
        source_is = sym i;
        target_is = refl;
        earlier = p.earlier;
      }

  edges-IsForward :
      All (IsForward (map to_node timeline)) (sort_by edge_lt (flat_map to_edges timeline))
  edges-IsForward = sort-All edge_lt _ (flat_map to_edges timeline) (
      All-flat_map _ to_edges timeline (
        Member-All _ timeline λ e m.
          All-map (IsForward (map to_node timeline)) _ (sort_by str_lt e.parent_event_ids) (
            Member-All _ (sort_by str_lt e.parent_event_ids) λ id k. edge-IsForward e id m (
              All-Member (IsParent org execution db.execution_events e.event_sequence) id _
                (sort-All str_lt _ e.parent_event_ids (
                  unfold timeline in
                  All-Member (HasParents org execution db.execution_events) e timeline t.parents m))
                k))))

  ordered : sort_by event_lt timeline ≡ timeline
  unfolding timeline
  ordered = sort-id event_lt timeline (Numbered-Sorted 1 timeline t.numbered)

  listed : list_execution_events db org execution ≡ timeline
  unfolding list_execution_events timeline
  listed = sort-id event_lt timeline (Numbered-Sorted 1 timeline t.numbered)

  built : ExecutionRow → ExecutionGraphV2
  built row = record {
    schema_version = graph_schema_version;
    execution_id = row.id;
    verity_record_id = row.verity_record_id;
    organization_id = row.organization_id;
    status = row.status;
    nodes = map to_node timeline;
    edges = sort_by edge_lt (flat_map to_edges timeline);
  }

  -- The graph of an execution with a timeline is always built, and each of its edges leads from a
  -- node of the graph to a later one, so that the graph has no cycle.
  pub graph-IsForward :
      (row : ExecutionRow)
      → (graph : ExecutionGraphV2) × (build_execution_graph_v2 row
            (list_execution_events db org execution)
          ≡ ok graph)
        × All (IsForward graph.nodes) graph.edges
  unfolding build_execution_graph_v2 is_nil built
  graph-IsForward row = (built row, rw (listed, ordered, none_unresolved) refl, edges-IsForward)
