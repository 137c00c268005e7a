-- ===== src/Bpmn/Linking/Boundaries.antt =====
-- What `linkBoundaryRefs` of packages/js/sdk/src/bpmn/parser.ts computes.
use bfw_engine.Common.{
  String, Bool, List, [], ◌∷◌, ◌++◌, Option, none, some, ◌≡◌, refl, sym, ap, ◌∙◌, map, reverse,
  filter, lookup, lookup-set, or_default, is, is_empty, All, append_assoc, append-nil, arith,
  Bool-cases, Option-cases, inl, inr, eq_iff, ◌==◌, if◌then◌else◌,
}
use bfw_engine.Bpmn.Model.{FlowNode, flow_node, node_fields, type_data, BpmnProcess}
use bfw_engine.Bpmn.Linking.{
  attachment, add_attached, boundary_map, boundary_map_from, link_refs, link_boundary_refs,
}

abbrev pub node_id : FlowNode → String
node_id node = (node_fields node).id

abbrev pub attached_to : String → FlowNode → Bool
attached_to host node = is (attachment node) host

-- The ids of the boundary events attached to an element, last one of the document first.
abbrev pub attached_ids : List FlowNode → String → List String
attached_ids flow_nodes host = map node_id (filter (attached_to host) (reverse flow_nodes))

-- The reference: each node gets the list of the events attached to it.
abbrev pub with_refs : List FlowNode → FlowNode → FlowNode
with_refs all (flow_node fields td) =
    flow_node (record fields { boundary_event_refs = attached_ids all fields.id }) td

abbrev pub HasNoRefs : FlowNode → Type 0
HasNoRefs node = (node_fields node).boundary_event_refs ≡ []

-- an entry of the map, as the list that it stands for
abbrev listed : List (String × List String) → String → List String
listed found host = or_default (lookup host found) []

listed-add_attached :
    (o : Option String) (id : String) (found : List (String × List String)) (host : String)
    → listed (add_attached o id found) host
      ≡ listed found host ++ (if is o host then id ∷ [] else [])
unfolding add_attached
listed-add_attached none id found host = simp append-nil
listed-add_attached (some h) id found host = elim (Bool-cases (h == host)) [
  | inl e ↦ let same : h ≡ host = (eq_iff h host).0 e in simp (lookup-set, e) (rw same)
  | inr e ↦ simp (lookup-set, e, append-nil)
]

filter_cons :
    (host : String) (n : FlowNode) (ns : List FlowNode)
    → map node_id (filter (attached_to host) (n ∷ ns))
      ≡ (if attached_to host n then node_id n ∷ [] else [])
        ++ map node_id (filter (attached_to host) ns)
filter_cons host n ns = ground arith

boundary_map_from-listed :
    (ns : List FlowNode) (found : List (String × List String)) (host : String)
    → listed (boundary_map_from found ns) host
      ≡ listed found host ++ map node_id (filter (attached_to host) ns)
unfolding boundary_map_from
boundary_map_from-listed [] found host = simp append-nil
boundary_map_from-listed (n ∷ ns) found host =
    boundary_map_from-listed ns (add_attached (attachment n) (node_id n) found) host
    ∙ (simp (listed-add_attached, filter_cons, append_assoc))

link_refs-listed :
    (found : List (String × List String)) (node : FlowNode)
    → HasNoRefs node
    → link_refs found node
      ≡ flow_node
          (record (node_fields node) { boundary_event_refs = listed found (node_id node) })
          (type_data node)
unfolding link_refs
link_refs-listed found (flow_node fields td) h = elim (Option-cases (lookup fields.id found)) [
  | inl e ↦ rw (e, link_refs) (ap (λ r. flow_node (record fields { boundary_event_refs = r }) td) h)
  | inr (refs, e) ↦ rw (e, link_refs)
]

-- An entry of the map is the list of the ids attached to its key.
listed-boundary_map :
    (ns : List FlowNode) (host : String) → listed (boundary_map ns) host ≡ attached_ids ns host
unfolding boundary_map
listed-boundary_map ns host = boundary_map_from-listed (reverse ns) [] host

map-link_refs :
    (all ns : List FlowNode)
    → All HasNoRefs ns
    → map (link_refs (boundary_map all)) ns ≡ map (with_refs all) ns
map-link_refs all [] _ = refl
map-link_refs all (flow_node fields td ∷ ns) (h, hs) = simp (
  link_refs-listed (boundary_map all) (flow_node fields td) h,
  listed-boundary_map,
  map-link_refs all ns hs,
)

map-link_refs_nil : (ns : List FlowNode) → map (link_refs []) ns ≡ ns
unfolding link_refs
map-link_refs_nil [] = refl
map-link_refs_nil (flow_node fields td ∷ ns) = rw (map-link_refs_nil ns)

-- the early return does what the loop would do
no_early_return :
    (process : BpmnProcess) (found : List (String × List String))
    → (if is_empty found
        then process
        else record process { flow_nodes = map (link_refs found) process.flow_nodes })
      ≡ record process { flow_nodes = map (link_refs found) process.flow_nodes }
no_early_return process [] =
    ap (λ ns. record process { flow_nodes = ns }) (sym (map-link_refs_nil process.flow_nodes))
no_early_return process (entry ∷ found) = refl

-- If no node of the process has boundary event references yet, each node gets the ids of the
-- boundary events attached to it, the last one of the document first, and nothing else of the
-- process changes.
pub link_boundary_refs_lem :
    (process : BpmnProcess)
    → All HasNoRefs process.flow_nodes
    → link_boundary_refs process
      ≡ record process { flow_nodes = map (with_refs process.flow_nodes) process.flow_nodes }
unfolding link_boundary_refs
link_boundary_refs_lem process h =
    no_early_return process (boundary_map process.flow_nodes)
    ∙ ap (λ ns. record process { flow_nodes = ns })
        (map-link_refs process.flow_nodes process.flow_nodes h)
