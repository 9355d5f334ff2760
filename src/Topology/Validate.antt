-- ===== src/Topology/Validate.antt =====
-- The check of a topology and its artifact lock: `validate` of packages/lab-support/cpp/contracts.cpp.
-- The canonical document and its hash are left out; the digest of a value and the address of a text
-- are parameters.
pub mod Facts
pub mod Disjoint
use Prim.Native.String.{String}
use text.Mathlib.Text.{◌==◌}
use graphlab.Prelude.{
  ℕ, Bool, true, false, ◌&&◌, ◌||◌, List, [], ◌∷◌, Option, none, some, leb, Result, ok, err,
  if◌then◌else◌, length, map,
}
use graphlab.Topology.Json.{
  Json, Check, Code, validation_error, unsupported_version, unsupported_backend, resource_limit,
  integrity_error, ◌>>=◌, ◌>>◌, expect, require, object, array, str, boolean, number, need, getstr,
  fields, features, get,
}
use graphlab.Topology.Names.{is_before}
use graphlab.Topology.Lock.{Contract, named, hashed, validate_lock}
use graphlab.Topology.Nodes.{Node, nodes_of}
use graphlab.Topology.Edges.{Edge, edges_of, application_valid}
use graphlab.Topology.Switches.{forest_of, all_protected, switches_valid}
use graphlab.Topology.Management.{Network, Attachment, management_of}

-- What the callers of `validate` read of its result. The nodes stand in the order of their names, the
-- networks in the opposite one, the edges in the order of their names, and the attachments in that of the
-- document: `validate` sorts them in the canonical document, which is left out.
pub record ValidatedTopology : Type 0 where
  pub nodes : List (String × Node)
  pub edges : List Edge
  pub networks : List Network
  pub attachments : List Attachment
  pub rstp : Bool
  pub capture_required : Bool

abbrev limits_of : Option Json → Check (ℕ × ℕ)
limits_of none = ok (1024, 8192)
limits_of (some v) = do
  fields v ("maxNodes" ∷ "maxEdges" ∷ [])
  maxnodes ← need v "maxNodes" >>= λ n. number n 1 10000
  maxedges ← need v "maxEdges" >>= λ n. number n 0 100000
  ok (maxnodes, maxedges)

-- Whether the loop policy is `rstp`.
abbrev loop_of : Option Json → Check Bool
loop_of none = ok true
loop_of (some v) = do
  loop ← str v
  require (loop == "rstp" || loop == "unprotected")
  ok (loop == "rstp")

abbrev backend_valid : Json → Check (Unit {0})
backend_valid v = do
  fields v ("kind" ∷ "switchIsolation" ∷ [])
  kind ← getstr v "kind"
  isolation ← getstr v "switchIsolation"
  expect (kind == "linux-local" && isolation == "shared-ovs") unsupported_backend

abbrev capture_of : Json → Check Bool
capture_of v = do
  fields v ("required" ∷ "scope" ∷ "format" ∷ [])
  needed ← need v "required" >>= boolean
  scope ← getstr v "scope"
  format ← getstr v "format"
  require (scope == "all-data-edges" && format == "pcapng")
  ok needed

abbrev edge_id : Edge → String
edge_id e = e.id

-- The edges in the order of their names.
abbrev place_edge : Edge → List Edge → List Edge
place_edge e [] = e ∷ []
place_edge e (x ∷ xs) = if is_before e.id x.id then e ∷ x ∷ xs else x ∷ place_edge e xs

abbrev pub sort_edges : List Edge → List Edge
sort_edges [] = []
sort_edges (e ∷ es) = place_edge e (sort_edges es)

-- The members of the document ahead of its nodes: the capture, the limits and the loop policy.
pub record Settings : Type 0 where
  pub capture_required : Bool
  pub maxnodes : ℕ
  pub maxedges : ℕ
  pub rstp : Bool

module _ (inet_pton : String → Option ℕ) (digest : Json → String) where
  unfoldable pub settings_of : Json → Json → Check Settings
  unfolding ◌>>=◌ expect
  settings_of t lock = do
    fields t (
        "apiVersion" ∷ "id" ∷ "artifactLock" ∷ "backend" ∷ "management" ∷ "nodes" ∷ "edges"
        ∷ "managementAttachments" ∷ "capture" ∷ "requiredFeatures" ∷ "limits" ∷ "loopPolicy"
        ∷ "application" ∷ [])
    version ← getstr t "apiVersion"
    expect (version == "graphlab.topology/v2") unsupported_version
    id ← getstr t "id"
    named id
    features t
    lockhash ← getstr t "artifactLock"
    hashed lockhash
    expect (digest lock == lockhash) integrity_error
    need t "backend" >>= backend_valid
    capture ← need t "capture" >>= capture_of
    limits ← limits_of (get t "limits")
    rstp ← loop_of (get t "loopPolicy")
    ok record { capture_required = capture; maxnodes = limits.0; maxedges = limits.1; rstp = rstp }

  -- The rest of the check, behind the settings.
  abbrev checked_parts : List (String × Contract) → Settings → Json → Check ValidatedTopology
  checked_parts contracts s t = do
    members ← need t "nodes" >>= object
    expect (leb (length members) s.maxnodes) resource_limit
    nodes ← nodes_of inet_pton contracts [] members
    listed ← need t "edges" >>= array
    expect (leb (length listed) s.maxedges) resource_limit
    edges ← edges_of nodes s.rstp [] [] listed
    application_valid nodes (map edge_id edges.0) (get t "application")
    switches_valid nodes s.rstp edges.0
    managed ← management_of inet_pton t nodes edges.1
    ok record {
      nodes = nodes;
      edges = sort_edges edges.0;
      networks = managed.0;
      attachments = managed.1;
      rstp = s.rstp;
      capture_required = s.capture_required;
    }

  unfoldable pub checked : List (String × Contract) → Settings → Json → Check ValidatedTopology
  unfolding ◌>>=◌ expect nodes_of edges_of application_valid forest_of all_protected management_of
  checked contracts s t = checked_parts contracts s t

  abbrev validate_parts : Json → Json → Check ValidatedTopology
  validate_parts t lock = do
    contracts ← validate_lock digest lock
    s ← settings_of t lock
    checked contracts s t

  unfoldable pub validate : Json → Json → Check ValidatedTopology
  unfolding ◌>>=◌ validate_lock settings_of checked
  validate t lock = validate_parts t lock
