-- ===== src/Planner/Steps.antt =====
-- The steps of a plan: `plan` of cpp/planner.cpp up to its ordering, and the order of teardown. Of a
-- step's resource, the copies of the document and of the artifact lock are left out.
use Prim.Native.String.{String, ◌++◌}
use text.Mathlib.Text.{◌==◌, starts_with}
use text.Mathlib.TextEquality.{eq_iff}
use graphlab.Prelude.{ℕ, Bool, not, ◌&&◌, ◌||◌, List, [], ◌∷◌, Option, none, some, if◌then◌else◌}
use graphlab.Runtime.Source.Store.{lookup, place, replace}
use graphlab.Runtime.Jobs.Tables.{put}
use graphlab.Planner.Order.{Keys, insert}
use graphlab.Topology.Names.{node_of, is_before}
use graphlab.Topology.Lock.{Kind, docker, qemu, ovs_switch, is_qemu}
use graphlab.Topology.Nodes.{Node, is_switch}
use graphlab.Topology.Edges.{Edge}
use graphlab.Topology.Management.{Network, Attachment}

-- The keys of the maps: texts, in their order.
abbrev pub names : Keys
names = record { Key = String; eq = ◌==◌; lt = is_before; eq_iff = eq_iff }

pub data Primitive : Type 0 where
  attachment_bridge tap veth : Primitive

pub data Point : Type 0 where
  endpoint0_host_veth guest_tap endpoint0_container_veth workload_host_veth : Point

pub data Resource : Type 0 where
  nothing reservation : Resource
  network node guest health : String → Resource
  link : String → String → String → Primitive → Resource
  loop_policy : Bool → Resource
  capture : String → String → Point → Resource
  barrier : ℕ → Bool → Resource

pub record Step : Type 0 where
  pub id : String
  pub operation : String
  pub depends_on : List String
  pub resource : Resource

abbrev pub step : String → String → List String → Resource → Step
step key operation deps resource = record {
  id = key;
  operation = operation;
  depends_on = deps;
  resource = resource;
}

-- `std::sort`, `std::unique` and `erase`
abbrev pub sorted : List String → List String
sorted [] = []
sorted (d ∷ ds) = insert names d (sorted ds)

-- `add`
unfoldable pub add : Step → List (String × Step) → List (String × Step)
unfolding put insert place replace
add s steps = put is_before s.id (record s { depends_on = sorted s.depends_on }) steps

unfoldable pub add_all : List Step → List (String × Step) → List (String × Step)
unfolding add
add_all [] steps = steps
add_all (s ∷ ss) steps = add_all ss (add s steps)

abbrev pub managements : List Network → List Step
managements [] = []
managements (n ∷ ns) =
    step ("management/" ++ n.name) "prepare-management" ("preflight" ∷ []) (network n.name)
    ∷ managements ns

-- The networks of the ports of a node.
abbrev pub attached : String → List Attachment → List String
attached id [] = []
attached id (a ∷ rest) =
    if starts_with a.endpoint (id ++ ":")
    then ("management/" ++ a.network) ∷ attached id rest
    else attached id rest

abbrev preparing : Kind → String
preparing ovs_switch = "prepare-ovs-bridge"
preparing qemu = "prepare-guest-resources"
preparing docker = "prepare-gated-container"

abbrev pub preparations : List Attachment → List (String × Node) → List Step
preparations ends [] = []
preparations ends (n ∷ ns) =
    step ("node/" ++ n.0) (preparing n.1.kind) ("preflight" ∷ attached n.0 ends) (node n.0)
    ∷ preparations ends ns

-- The kind of the node of an endpoint, a switch where there is no such node.
abbrev kind_in : Option Node → Kind
kind_in none = ovs_switch
kind_in (some n) = n.kind

abbrev pub kind_at : List (String × Node) → String → Kind
kind_at nodes e = kind_in (lookup nodes (node_of e))

abbrev pub primitive : Kind → Kind → Primitive
primitive a b =
    if (is_qemu a || is_qemu b) && not (is_switch a) && not (is_switch b)
    then attachment_bridge
    else if is_qemu a || is_qemu b
    then tap
    else veth

abbrev pub links : List (String × Node) → List Edge → List Step
links nodes [] = []
links nodes (e ∷ es) =
    step ("edge/" ++ e.id) "prepare-disabled-link"
      (("node/" ++ node_of e.first) ∷ ("node/" ++ node_of e.second) ∷ [])
      (link e.id e.first e.second (primitive (kind_at nodes e.first) (kind_at nodes e.second)))
    ∷ links nodes es

abbrev pub guests : List (String × Node) → List Step
guests [] = []
guests (n ∷ ns) =
    if is_qemu n.1.kind
    then step ("guest/" ++ n.0 ++ "/paused") "prepare-paused-guest"
        ("policy" ∷ ("node/" ++ n.0) ∷ []) (guest n.0)
      ∷ guests ns
    else guests ns

abbrev is_docker : Kind → Bool
is_docker k = not (is_qemu k) && not (is_switch k)

-- The endpoint and the point of a link's capture.
abbrev pub capture_point : Kind → Kind → String → String → String × Point
capture_point a b first second =
    if is_qemu a || is_qemu b
    then (if is_qemu a then first else second, guest_tap)
    else if is_docker a && is_docker b
    then (first, endpoint0_container_veth)
    else if is_docker a || is_docker b
    then (if is_docker a then first else second, workload_host_veth)
    else (first, endpoint0_host_veth)

abbrev pub captures : List (String × Node) → List Edge → List Step
captures nodes [] = []
captures nodes (e ∷ es) =
    let at = capture_point (kind_at nodes e.first) (kind_at nodes e.second) e.first e.second in
    step ("capture/" ++ e.id) "arm-capture" ("policy" ∷ ("edge/" ++ e.id) ∷ [])
      (capture e.id at.0 at.1)
    ∷ captures nodes es

abbrev pub paused : Kind → String → List String
paused k id = if is_qemu k then ("guest/" ++ id ++ "/paused") ∷ [] else []

abbrev releases : Kind → String
releases k = if is_qemu k then "continue-guest" else "release-workload"

-- The release and the health of each workload.
abbrev pub workloads : List (String × Node) → List Step
workloads [] = []
workloads (n ∷ ns) =
    if is_switch n.1.kind
    then workloads ns
    else step ("release/" ++ n.0) (releases n.1.kind)
        ("converge" ∷ ("node/" ++ n.0) ∷ paused n.1.kind n.0) nothing
      ∷ step ("health/" ++ n.0) "await-workload-readiness" (("release/" ++ n.0) ∷ []) (health n.0)
      ∷ workloads ns

abbrev pub health_keys : List (String × Node) → List String
health_keys [] = []
health_keys (n ∷ ns) =
    if is_switch n.1.kind then health_keys ns else ("health/" ++ n.0) ∷ health_keys ns

abbrev pub or_else : String → List String → List String
or_else d [] = d ∷ []
or_else d (k ∷ ks) = k ∷ ks

abbrev pub key_of : Step → String
key_of s = s.id
