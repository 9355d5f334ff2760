-- ===== src/Topology/Edges.antt =====
-- The data edges and the application's flows: the loops over `edges` and over `application` in `validate`
-- of packages/lab-support/cpp/contracts.cpp.
pub mod Accepted
pub mod Apart
use Prim.Native.String.{String}
use text.Mathlib.Text.{◌==◌}
use graphlab.Prelude.{
  ℕ, Bool, true, false, not, ◌&&◌, ◌||◌, List, [], ◌∷◌, Option, none, some, leb, Result, ok, err,
  if◌then◌else◌, length, ◌==◌ as nat_eq,
}
use graphlab.Runtime.Source.Store.{lookup}
use graphlab.Topology.Json.{
  Json, Check, validation_error, unsupported_version, resource_limit, ◌>>=◌, ◌>>◌, expect, require,
  array, str, mem, need, getstr, fields, get,
}
use graphlab.Topology.Names.{split_at, is_schema}
use graphlab.Topology.Lock.{named, Kind}
use graphlab.Topology.Nodes.{Port, Node, is_switch, is_data}

pub record Edge : Type 0 where
  pub id : String
  pub first : String
  pub second : String

-- An endpoint that was found: its node, the node's kind and its port.
pub record End : Type 0 where
  pub node : String
  pub kind : Kind
  pub port : Port

abbrev port_in : String → Node → Option Port → Check End
port_in name n none = err validation_error
port_in name n (some p) = ok (record { node = name; kind = n.kind; port = p })

abbrev node_in : String → String → Option Node → Check End
node_in name port none = err validation_error
node_in name port (some n) = port_in name n (lookup n.ports port)

abbrev has_colon : Option (String × String) → Bool
has_colon none = false
has_colon (some x) = true

abbrev ends_in : List (String × Node) → Option (String × String) → Check End
ends_in nodes none = err validation_error
ends_in nodes (some (node, port)) =
    require (not (has_colon (split_at b':' port))) >> node_in node port (lookup nodes node)

-- The helper `endpoint`.
unfoldable pub endpoint : List (String × Node) → String → Check End
unfolding ◌>>=◌ expect split_at
endpoint nodes e = ends_in nodes (split_at b':' e)

abbrev pair : List Json → Check (String × String)
pair (a ∷ b ∷ []) = do first ← str a; second ← str b; ok (first, second)
pair _ = err validation_error

abbrev pub fit : End → End → Bool
fit a b = is_data a.port.role && is_data b.port.role && nat_eq a.port.mtu b.port.mtu

-- A link of a switch with itself needs the unprotected policy; no other node may have one.
abbrev pub link_allowed : Bool → End → End → Bool
link_allowed rstp a b = not (a.node == b.node) || (is_switch a.kind && not rstp)

-- One edge; `rstp` is the loop policy, `ids` and `used` the edges and endpoints before it.
abbrev edge_parts : List (String × Node) → Bool → List String → List String → Json → Check Edge
edge_parts nodes rstp ids used e = do
  fields e ("id" ∷ "endpoints" ∷ [])
  key ← getstr e "id"
  named key
  require (not (mem key ids))
  ends ← need e "endpoints" >>= array
  texts ← pair ends
  a ← endpoint nodes texts.0
  b ← endpoint nodes texts.1
  require (not (mem texts.0 used) && not (mem texts.1 (texts.0 ∷ used)))
  require (fit a b)
  require (link_allowed rstp a b)
  ok record { id = key; first = texts.0; second = texts.1 }

unfoldable pub edge_of : List (String × Node) → Bool → List String → List String → Json → Check Edge
unfolding ◌>>=◌ expect endpoint
edge_of nodes rstp ids used e = edge_parts nodes rstp ids used e

-- The loop over the edges; with the endpoints that it used.
unfoldable pub edges_of :
    List (String × Node)
    → Bool
    → List String
    → List String
    → List Json
    → Check (List Edge × List String)
unfolding ◌>>=◌ edge_of
edges_of nodes rstp ids used [] = ok ([], used)
edges_of nodes rstp ids used (v ∷ vs) = do
  e ← edge_of nodes rstp ids used v
  rest ← edges_of nodes rstp (e.id ∷ ids) (e.second ∷ e.first ∷ used) vs
  ok (e ∷ rest.0, rest.1)

abbrev is_workload : Option Node → Bool
is_workload none = false
is_workload (some n) = not (is_switch n.kind)

abbrev schema_in : Json → String → Check (Unit {0})
schema_in v k = getstr v k >>= λ s. require (is_schema s)

abbrev protocol_valid : Option Json → Check (Unit {0})
protocol_valid none = ok tt
protocol_valid (some v) = do
  fields v ("apiVersion" ∷ "transport" ∷ "framing" ∷ "schema" ∷ [])
  version ← getstr v "apiVersion"
  require (version == "graphlab.application-protocol/v1")
  schema_in v "transport"
  schema_in v "framing"
  schema_in v "schema"

unfoldable links_valid : List String → List String → List Json → Check (Unit {0})
unfolding ◌>>=◌ expect
links_valid edges links [] = ok tt
links_valid edges links (v ∷ vs) = do
  link ← str v
  require (mem link edges && not (mem link links))
  links_valid edges (link ∷ links) vs

module _ (nodes : List (String × Node)) (edges : List String) where
  unfoldable pub flow_of : List String → Json → Check String
  unfolding ◌>>=◌ expect links_valid
  flow_of ids flow = do
    fields flow ("id" ∷ "source" ∷ "target" ∷ "networkEdges" ∷ "protocol" ∷ [])
    key ← getstr flow "id"
    named key
    require (not (mem key ids))
    source ← getstr flow "source"
    require (is_workload (lookup nodes source))
    target ← getstr flow "target"
    require (is_workload (lookup nodes target))
    protocol_valid (get flow "protocol")
    refs ← need flow "networkEdges" >>= array
    expect (leb (length refs) 256) resource_limit
    links_valid edges [] refs
    ok key

  unfoldable flows_valid : List String → List Json → Check (Unit {0})
  unfolding ◌>>=◌ flow_of
  flows_valid ids [] = ok tt
  flows_valid ids (v ∷ vs) = do key ← flow_of ids v; flows_valid (key ∷ ids) vs

  unfoldable pub application_valid : Option Json → Check (Unit {0})
  unfolding ◌>>=◌ expect flows_valid
  application_valid none = ok tt
  application_valid (some app) = do
    fields app ("apiVersion" ∷ "edges" ∷ [])
    version ← getstr app "apiVersion"
    expect (version == "graphlab.application-dataflow/v1") unsupported_version
    flows ← need app "edges" >>= array
    expect (leb (length flows) 1024) resource_limit
    flows_valid [] flows
