-- ===== src/Bpmn/Formed/Kept.antt =====
-- What the linking passes of packages/js/sdk/src/bpmn/parser.ts keep of a well-formed node.
use mathlib.Core.List.{reverse-cons, map-append}
use bfw_engine.Common.{
  String, List, [], ◌∷◌, ◌++◌, Option, none, some, ◌≡◌, refl, sym, ap, ◌∙◌, map, filter,
  filter-append, lookup, All, arith, if◌then◌else◌,
}
use bfw_engine.Bpmn.Model.{
  FlowNode, flow_node, FlowNodeTypeData, FlowNodes, NodeFields, node_fields, nodes, from_list,
  Association, BoundaryEventTypeData, boundary_event, sub_process, exclusive_gateway,
  inclusive_gateway,
}
use bfw_engine.Bpmn.Linking.{attachment, is_boundary_type, set_handler}
use bfw_engine.Bpmn.Linking.Boundaries.{node_id, attached_ids, attached_to, with_refs, HasNoRefs}
use bfw_engine.Bpmn.Linking.Defaults.{with_default, take_default}
use bfw_engine.Bpmn.Linking.Handlers.{last_target, relink, relink_data, relink_all}
use bfw_engine.Bpmn.Formed.{kind, IsLinked, IsFormed, IsFormedInside, IsFormedEach}

abbrev ids_of_one : FlowNode → String → List String
ids_of_one n host = if attached_to host n then node_id n ∷ [] else []

filter_one :
    (host : String) (n : FlowNode)
    → map node_id (filter (attached_to host) (n ∷ [])) ≡ ids_of_one n host
filter_one host n = ground arith

attached_ids_cons :
    (n : FlowNode) (ns : List FlowNode) (host : String)
    → attached_ids (n ∷ ns) host ≡ attached_ids ns host ++ ids_of_one n host
attached_ids_cons n ns host = simp (reverse-cons, filter-append, map-append) (rw filter_one)

-- A pass that keeps the id and the attachment of every node keeps the attached events.
module _ (f : FlowNode → FlowNode) (id_kept : (n : FlowNode) → node_id (f n) ≡ node_id n)
    (attachment_kept : (n : FlowNode) → attachment (f n) ≡ attachment n) where
  pub attached_ids-map :
      (ns : List FlowNode) (host : String) → attached_ids (map f ns) host ≡ attached_ids ns host
  attached_ids-map [] host = refl
  attached_ids-map (n ∷ ns) host =
      simp (attached_ids_cons, attached_ids-map ns host, id_kept n, attachment_kept n)

-- The references that `linkBoundaryRefs` sets agree with the nodes that it returns.
attachment-with_refs :
    (all : List FlowNode) (n : FlowNode) → attachment (with_refs all n) ≡ attachment n
unfolding attachment
attachment-with_refs all (flow_node fields td) = refl

node_id-with_refs : (all : List FlowNode) (n : FlowNode) → node_id (with_refs all n) ≡ node_id n
node_id-with_refs all (flow_node fields td) = refl

linked_each :
    (all ns : List FlowNode)
    → ((host : String) → attached_ids (map (with_refs all) all) host ≡ attached_ids all host)
    → All
        (λ n.
          (node_fields n).boundary_event_refs ≡ attached_ids (map (with_refs all) all) (node_id n))
        (map (with_refs all) ns)
linked_each all [] h = tt
linked_each all (flow_node fields td ∷ ns) h = (sym (h fields.id), linked_each all ns h)

pub with_refs-IsLinked : (ns : List FlowNode) → IsLinked (map (with_refs ns) ns)
with_refs-IsLinked ns =
    linked_each ns ns
      (attached_ids-map (with_refs ns) (node_id-with_refs ns) (attachment-with_refs ns) ns)

pub with_refs-IsFormed :
    (all ns : List FlowNode) → All IsFormed ns → All IsFormed (map (with_refs all) ns)
with_refs-IsFormed all [] _ = tt
with_refs-IsFormed all (flow_node fields td ∷ ns) (h, hs) = (h, with_refs-IsFormed all ns hs)

-- `applyDefaultFlows` keeps the kind of type data, and changes gateways alone.
take_default-kind : (o : Option String) (td : FlowNodeTypeData) → kind (take_default o td) ≡ kind td
take_default-kind (some ref) (exclusive_gateway _) = refl
take_default-kind (some ref) (inclusive_gateway _) = refl
take_default-kind none _ = refl
take_default-kind _ _ = refl

take_default-IsFormedInside :
    (o : Option String) (td : FlowNodeTypeData)
    → IsFormedInside td
    → IsFormedInside (take_default o td)
take_default-IsFormedInside none (exclusive_gateway _) h = h
take_default-IsFormedInside (some ref) (exclusive_gateway _) h = h
take_default-IsFormedInside (some ref) (inclusive_gateway _) h = h
take_default-IsFormedInside _ _ h = h

-- What the parser knows of each node of a scope before it links them.
abbrev pub IsFresh : FlowNode → Type 0
IsFresh node = IsFormed node × HasNoRefs node

pub with_default-IsFresh :
    (defaults : List (String × String)) (ns : List FlowNode)
    → All IsFresh ns
    → All IsFresh (map (with_default defaults) ns)
with_default-IsFresh defaults [] _ = tt
with_default-IsFresh defaults (flow_node fields td ∷ ns) (((k, inside), refs), hs) = (
  (
    (
      take_default-kind (lookup fields.id defaults) td ∙ k,
      take_default-IsFormedInside (lookup fields.id defaults) td inside,
    ),
    refs,
  ),
  with_default-IsFresh defaults ns hs,
)

-- `linkCompensationHandlers` keeps ids, attachments and references at every depth.
node_id-relink : (links : List Association) (n : FlowNode) → node_id (relink links n) ≡ node_id n
unfolding relink
node_id-relink links (flow_node fields td) = refl

kind-relink :
    (links : List Association) (fields : NodeFields) (td : FlowNodeTypeData)
    → kind (relink_data links fields td) ≡ kind td
unfolding relink
kind-relink links fields (boundary_event b) = refl
kind-relink links fields _ = refl

attached-set_handler :
    (o : Option String) (b : BoundaryEventTypeData)
    → (set_handler o b).attached_to_ref ≡ b.attached_to_ref
attached-set_handler none b = refl
attached-set_handler (some handler) b = refl

attachment-relink :
    (links : List Association) (n : FlowNode) → attachment (relink links n) ≡ attachment n
unfolding relink attachment
attachment-relink links (flow_node fields (boundary_event b)) =
    ap (λ r. if is_boundary_type fields.type then r else none)
      (attached-set_handler (last_target fields.id links) b)
attachment-relink links (flow_node fields _) = refl

refs-relink :
    (links : List Association) (ns all : List FlowNode)
    → All (λ n. (node_fields n).boundary_event_refs ≡ attached_ids all (node_id n)) ns
    → All
        (λ n.
          (node_fields n).boundary_event_refs ≡ attached_ids (map (relink links) all) (node_id n))
        (map (relink links) ns)
unfolding relink
refs-relink links [] all _ = tt
refs-relink links (flow_node fields td ∷ ns) all (h, hs) = (
  h
      ∙ sym (
          attached_ids-map (relink links) (node_id-relink links) (attachment-relink links) all
            fields.id),
  refs-relink links ns all hs,
)

nodes-relink_all :
    (links : List Association) (inner : FlowNodes)
    → nodes (relink_all links inner) ≡ map (relink links) (nodes inner)
unfolding relink
nodes-relink_all links FlowNodes.nil = refl
nodes-relink_all links (FlowNodes.cons n rest) = rw (nodes-relink_all links rest)

mutual
  unfolding relink

  relink-IsFormed :
      (links : List Association) (n : FlowNode) → IsFormed n → IsFormed (relink links n)
  relink-IsFormed links (flow_node fields td) (k, inside) =
      (kind-relink links fields td ∙ k, relink-IsFormedInside links fields td inside)

  relink-IsFormedInside :
      (links : List Association) (fields : NodeFields) (td : FlowNodeTypeData)
      → IsFormedInside td
      → IsFormedInside (relink_data links fields td)
  relink-IsFormedInside links fields (sub_process d inner) (each, linked) = (
    relink-IsFormedEach links inner each,
    rw (nodes-relink_all links inner) (refs-relink links (nodes inner) (nodes inner) linked),
  )
  relink-IsFormedInside links fields (boundary_event b) h = h
  relink-IsFormedInside links fields _ h = h

  relink-IsFormedEach :
      (links : List Association) (inner : FlowNodes)
      → IsFormedEach inner
      → IsFormedEach (relink_all links inner)
  relink-IsFormedEach links FlowNodes.nil h = h
  relink-IsFormedEach links (FlowNodes.cons n rest) (h, hs) =
      (relink-IsFormed links n h, relink-IsFormedEach links rest hs)

pub relink-IsFresh :
    (links : List Association) (ns : List FlowNode)
    → All IsFresh ns
    → All IsFresh (map (relink links) ns)
unfolding relink
relink-IsFresh links [] _ = tt
relink-IsFresh links (flow_node fields td ∷ ns) ((formed, refs), hs) =
    ((relink-IsFormed links (flow_node fields td) formed, refs), relink-IsFresh links ns hs)

pub IsFresh-IsFormed : (ns : List FlowNode) → All IsFresh ns → All IsFormed ns
IsFresh-IsFormed [] _ = tt
IsFresh-IsFormed (n ∷ ns) ((h, _), hs) = (h, IsFresh-IsFormed ns hs)

pub IsFresh-HasNoRefs : (ns : List FlowNode) → All IsFresh ns → All HasNoRefs ns
IsFresh-HasNoRefs [] _ = tt
IsFresh-HasNoRefs (n ∷ ns) ((_, h), hs) = (h, IsFresh-HasNoRefs ns hs)

-- Between the two kinds of lists.
pub nodes-from_list : (ns : List FlowNode) → nodes (from_list ns) ≡ ns
nodes-from_list [] = refl
nodes-from_list (n ∷ ns) = rw (nodes-from_list ns)

pub IsFormedEach-from_list : (ns : List FlowNode) → All IsFormed ns → IsFormedEach (from_list ns)
IsFormedEach-from_list [] _ = tt
IsFormedEach-from_list (n ∷ ns) (h, hs) = (h, IsFormedEach-from_list ns hs)
