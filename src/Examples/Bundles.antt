-- ===== src/Examples/Bundles.antt =====
-- The events and the graph of an execution, and a bundle with its final entry.
use verity_os_v.Base.{
  ℕ, Str, codes, List, [], ◌∷◌, ◌++◌, Option, none, some, ok, Bool, true, false, sort_by, insert_by,
  All, str_eq, str_lt, ◌≡◌, refl, sym, ap, ◌∙◌,
}
use verity_os_v.Contracts.{final, completed, graph_schema_version}
use verity_os_v.Kernel.Noble.Checksum.{checksum_noble}
use verity_os_v.Kernel.Canonicalize.{null}
use verity_os_v.Kernel.Hash.{
  V2HashPayload, hash_format_version, default_kernel_version, compute_entry_hash,
}
use verity_os_v.Kernel.Rows.{ExecutionEventRow, Db}
use verity_os_v.Kernel.Events.{
  AppendExecutionEventInput, append_execution_event, list_execution_events,
}
use verity_os_v.Kernel.Events.Parents.{IsTimeline}
use verity_os_v.Kernel.Events.Timeline.{append_event-IsTimeline}
use verity_os_v.Kernel.Graph.{
  ExecutionGraphNode, ExecutionGraphEdge, ExecutionGraphV2, build_execution_graph_v2,
  compute_execution_graph_hash, flat_map, unresolved_parents, to_node, sort_metadata, edge_lt,
}
use verity_os_v.Kernel.Graph.Forward.{IsForward, graph-IsForward}
use verity_os_v.Kernel.Verify.{ExportedEntry, is_nil}
use verity_os_v.Kernel.Bundle.{EvidenceBundle}
use verity_os_v.Examples.Chains.{org, execution, opened}
use verity_os_v.Kernel.Canonicalize
use verity_os_v.Kernel.Graph
use verity_os_v.Kernel.Hash

opened-IsTimeline : IsTimeline org (codes "e1") opened
opened-IsTimeline = record { numbered = tt; parents = tt }

abbrev pub created_event : AppendExecutionEventInput
created_event = record {
  organization_id = org;
  execution_id = codes "e1";
  event_type = codes "execution.created";
  status = codes "recorded";
  parent_event_ids = [];
  input_hash = none;
  output_hash = none;
  metadata = [];
  occurred_at_canonical = none;
}

-- The database after the first event.
abbrev recorded : Db
recorded =
    (append_execution_event (codes "v1") (codes "2026-01-01T00:00:00.000Z") created_event opened).1

append_event-IsTimeline_example : IsTimeline org (codes "e1") recorded
append_event-IsTimeline_example =
    append_event-IsTimeline (codes "v1") (codes "2026-01-01T00:00:00.000Z") created_event opened org
      (codes "e1") opened-IsTimeline

recorded-IsTimeline : IsTimeline org (codes "e1") recorded
recorded-IsTimeline =
    append_event-IsTimeline (codes "v1") (codes "2026-01-01T00:00:00.000Z") created_event opened org
      (codes "e1") opened-IsTimeline

graph-IsForward_example :
    (graph : ExecutionGraphV2) × (build_execution_graph_v2 execution
        (list_execution_events recorded org (codes "e1"))
      ≡ ok graph)
    × All (IsForward graph.nodes) graph.edges
graph-IsForward_example = graph-IsForward org (codes "e1") recorded recorded-IsTimeline execution

-- The events of a bundle.
abbrev event : Str → ℕ → List Str → ExecutionEventRow
event id sequence parents = record {
  id = id;
  organization_id = org;
  execution_id = codes "e1";
  event_sequence = sequence;
  event_type = codes "execution.created";
  status = codes "recorded";
  parent_event_ids = parents;
  input_hash = none;
  output_hash = none;
  metadata = [];
  occurred_at_canonical = codes "2026-01-01T00:00:00.000Z";
}

abbrev events : List ExecutionEventRow
events = event (codes "v1") 1 [] ∷ event (codes "v2") 2 (codes "v1" ∷ []) ∷ []

graph : (g : ExecutionGraphV2) × (build_execution_graph_v2 execution events ≡ ok g)
unfolding build_execution_graph_v2 flat_map unresolved_parents to_node edge_lt sort_by insert_by
    str_eq str_lt is_nil sort_metadata
graph = (_, refl)

graph_hash : (h : Str) × (compute_execution_graph_hash checksum_noble graph.0 ≡ ok h)
unfolding graph compute_execution_graph_hash Graph.hash_graph_value Graph.graph_value Graph.array_of
    Graph.node_value Graph.edge_value build_execution_graph_v2 flat_map unresolved_parents to_node
    edge_lt sort_by insert_by str_eq str_lt is_nil sort_metadata Canonicalize.canonicalize
    Canonicalize.encode Canonicalize.encode_fields Canonicalize.encode_items
    Canonicalize.encode_entry Canonicalize.sequence Canonicalize.join Canonicalize.join_rest
    Canonicalize.quote Canonicalize.quote_units Canonicalize.escape Canonicalize.decimal
    Canonicalize.decimal_digits Canonicalize.stringify_integer Hash.nullable
    verity_os_v.Kernel.Canonicalize.Normal.to_fields verity_os_v.Contracts.status_text
graph_hash = (_, refl)

abbrev final_payload : V2HashPayload
final_payload = record {
  hash_format_version = hash_format_version;
  organization_id = org;
  ledger_sequence = 1;
  execution_id = codes "e1";
  entry_type = final;
  request_hash = none;
  response_hash = none;
  execution_graph_hash = some graph_hash.0;
  previous_entry_hash = none;
  kernel_version = default_kernel_version;
  created_at = codes "2026-01-01T00:00:00.000Z";
}

-- The text of a payload is given whatever strings it holds.
final_hash : (h : Str) × (compute_entry_hash checksum_noble final_payload ≡ ok h)
unfolding compute_entry_hash Hash.payload_fields Hash.nullable verity_os_v.Contracts.entry_type_text
    sort_by insert_by str_lt Canonicalize.canonicalize Canonicalize.encode
    Canonicalize.encode_fields Canonicalize.encode_entry Canonicalize.sequence
final_hash = (_, refl)

abbrev last : ExportedEntry
last = record {
  row = record {
    id = codes "l1";
    organization_id = org;
    organization_sequence = 1;
    execution_id = codes "e1";
    entry_type = final;
    request_hash = none;
    response_hash = none;
    execution_graph_hash = some graph_hash.0;
    previous_entry_hash = none;
    entry_hash = final_hash.0;
    merkle_root = none;
    kernel_version = default_kernel_version;
    hash_format_version = hash_format_version;
    created_at = codes "2026-01-01T00:00:00.000Z";
    created_at_canonical = codes "2026-01-01T00:00:00.000Z";
  };
  merkle_proof = none;
}

abbrev bundle : EvidenceBundle
bundle = record {
  organization_id = org;
  includes_plaintext = false;
  ledger_entries = last ∷ [];
  executions = execution ∷ [];
  merkle_checkpoints = [];
  execution_events = events;
  execution_graphs =
      record {
        schema_version = graph_schema_version;
        execution_id = codes "e1";
        verity_record_id = codes "VR-1";
        organization_id = org;
        status = codes "completed";
        graph_hash = graph_hash.0;
        graph = null;
      }
      ∷ [];
}
