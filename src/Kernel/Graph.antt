-- ===== src/Kernel/Graph.antt =====
-- execution/graph-v2.ts: the graph of an execution, built from its events.
pub mod Forward
use verity_os_v.Base.{
  ℕ, Str, str_eq, str_lt, sort_by, Bool, not, List, [], ◌∷◌, ◌++◌, map, Option, ok, throw, any,
  select, ltb, if◌then◌else◌, ◌>>=◌, codes, false,
}
use verity_os_v.Contracts.{ExecutionStatus, graph_schema_version, status_text}
use verity_os_v.Kernel.Error.{Throws, unresolved_graph_parent}
use verity_os_v.Kernel.Noble.{Noble}
use verity_os_v.Kernel.Canonicalize.{
  Value, integer, string, array, object, Items, nil, cons, end, field, key_lt, canonicalize,
}
use verity_os_v.Kernel.Canonicalize.Normal.{to_fields}
use verity_os_v.Kernel.Hash.{nullable, sha256_hex}
use verity_os_v.Kernel.Rows.{ExecutionEventRow, ExecutionRow}
use verity_os_v.Kernel.Events.{unique}
use verity_os_v.Kernel.Verify.{is_nil}

pub record ExecutionGraphNode : Type 0 where
  pub event_id : Str
  pub sequence : ℕ
  pub event_type : Str
  pub status : Str
  pub occurred_at_canonical : Str
  pub input_hash : Option Str
  pub output_hash : Option Str
  pub metadata : List (Str × Value)

pub record ExecutionGraphEdge : Type 0 where
  pub from_event_id : Str
  pub to_event_id : Str

pub record ExecutionGraphV2 : Type 0 where
  pub schema_version : Str
  pub execution_id : Str
  pub verity_record_id : Str
  pub organization_id : Str
  pub status : ExecutionStatus
  pub nodes : List ExecutionGraphNode
  pub edges : List ExecutionGraphEdge

-- Array.prototype.flatMap
unfoldable pub flat_map : {A B : Type 0} → (A → List B) → List A → List B
flat_map f [] = []
flat_map f (x ∷ xs) = f x ++ flat_map f xs

unfoldable pub sort_metadata : List (Str × Value) → List (Str × Value)
sort_metadata metadata = sort_by key_lt metadata

unfoldable pub to_node : ExecutionEventRow → ExecutionGraphNode
unfolding sort_metadata
to_node event = record {
  event_id = event.id;
  sequence = event.event_sequence;
  event_type = event.event_type;
  status = event.status;
  occurred_at_canonical = event.occurred_at_canonical;
  input_hash = event.input_hash;
  output_hash = event.output_hash;
  metadata = sort_metadata event.metadata;
}

abbrev pub event_lt : ExecutionEventRow → ExecutionEventRow → Bool
event_lt a b = ltb a.event_sequence b.event_sequence

-- byId.has(id)
abbrev pub has_event : List ExecutionEventRow → Str → Bool
has_event events id = any (λ e. str_eq e.id id) events

unfoldable pub unresolved_parents : List ExecutionEventRow → List Str
unfolding flat_map
unresolved_parents ordered =
    flat_map (λ event. select (λ id. not (has_event ordered id)) event.parent_event_ids) ordered

abbrev pub to_edges : ExecutionEventRow → List ExecutionGraphEdge
to_edges event =
    map (λ id. record { from_event_id = id; to_event_id = event.id })
      (sort_by str_lt event.parent_event_ids)

unfoldable pub edge_lt : ExecutionGraphEdge → ExecutionGraphEdge → Bool
edge_lt a b =
    if str_lt a.from_event_id b.from_event_id
    then str_lt a.from_event_id b.from_event_id
    else if str_lt b.from_event_id a.from_event_id
    then str_lt a.from_event_id b.from_event_id
    else str_lt a.to_event_id b.to_event_id

unfoldable pub build_execution_graph_v2 :
    ExecutionRow → List ExecutionEventRow → Throws ExecutionGraphV2
unfolding flat_map unresolved_parents to_node edge_lt
build_execution_graph_v2 execution events =
    let ordered = sort_by event_lt events in
    if is_nil (unresolved_parents ordered)
    then ok (record {
      schema_version = graph_schema_version;
      execution_id = execution.id;
      verity_record_id = execution.verity_record_id;
      organization_id = execution.organization_id;
      status = execution.status;
      nodes = map to_node ordered;
      edges = sort_by edge_lt (flat_map to_edges ordered);
    })
    else throw (unresolved_graph_parent (unique (unresolved_parents ordered)))

unfoldable pub array_of : List Value → Items
array_of [] = nil
array_of (v ∷ vs) = cons v (array_of vs)

unfoldable pub node_value : ExecutionGraphNode → Value
node_value n = object (
    field (codes "event_id") (string n.event_id) (
      field (codes "sequence") (integer false n.sequence) (
        field (codes "event_type") (string n.event_type) (
          field (codes "status") (string n.status) (
            field (codes "occurred_at_canonical") (string n.occurred_at_canonical) (
              field (codes "input_hash") (nullable n.input_hash) (
                field (codes "output_hash") (nullable n.output_hash)
                  (field (codes "metadata") (object (to_fields n.metadata)) end))))))))

unfoldable pub edge_value : ExecutionGraphEdge → Value
edge_value e = object (
    field (codes "from_event_id") (string e.from_event_id)
      (field (codes "to_event_id") (string e.to_event_id) end))

-- The graph as the JavaScript object that `canonicalize` walks.
unfoldable pub graph_value : ExecutionGraphV2 → Value
unfolding array_of node_value edge_value
graph_value g = object (
    field (codes "schema_version") (string g.schema_version) (
      field (codes "execution_id") (string g.execution_id) (
        field (codes "verity_record_id") (string g.verity_record_id) (
          field (codes "organization_id") (string g.organization_id) (
            field (codes "status") (string (status_text g.status)) (
              field (codes "nodes") (array (array_of (map node_value g.nodes)))
                (field (codes "edges") (array (array_of (map edge_value g.edges))) end)))))))

-- computeExecutionGraphHash takes any value where it checks a graph that was read from a file.
unfoldable pub hash_graph_value : Noble → Value → Throws Str
hash_graph_value n graph = do
  text ← canonicalize (
      object (
        field (codes "execution_graph_schema_version") (string graph_schema_version)
          (field (codes "graph") graph end)))
  ok (sha256_hex n text)

unfoldable pub compute_execution_graph_hash : Noble → ExecutionGraphV2 → Throws Str
unfolding graph_value hash_graph_value
compute_execution_graph_hash n graph = hash_graph_value n (graph_value graph)
