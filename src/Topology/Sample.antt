-- ===== src/Topology/Sample.antt =====
-- A small topology: a container, two switches with two links between them, and a management network.
use Prim.Native.String.{String}
use text.Mathlib.Text.{◌==◌}
use graphlab.Prelude.{
  ℕ, Bool, true, false, List, [], ◌∷◌, Option, none, some, ok, err, if◌then◌else◌,
}
use graphlab.Topology.Json.{Json, Items, Members, Check}
use graphlab.Topology.Validate.{ValidatedTopology, validate}

abbrev members : List (String × Json) → Members
members [] = Members.done
members (m ∷ ms) = Members.member m.0 m.1 (members ms)

abbrev items : List Json → Items
items [] = Items.end
items (v ∷ vs) = Items.item v (items vs)

abbrev pub obj : List (String × Json) → Json
obj ms = Json.mapping (members ms)

abbrev pub arr : List Json → Json
arr vs = Json.sequence (items vs)

abbrev pub txt : String → Json
txt s = Json.string s

abbrev pub num : ℕ → Json
num n = Json.integer n

abbrev hash : String
hash = "sha256:0123456789abcdef0123456789abcdef0123456789abcdef0123456789abcdef"

-- All values have the one digest that the sample names, and a few texts are addresses.
abbrev pub digest : Json → String
digest v = hash

abbrev pub inet_pton : String → Option ℕ
inet_pton s =
    if s == "10.0.0.0"
    then some 167772160
    else if s == "10.0.0.1"
    then some 167772161
    else if s == "10.0.0.10"
    then some 167772170
    else if s == "10.0.0.11"
    then some 167772171
    else if s == "10.0.0.128"
    then some 167772288
    else if s == "10.0.1.0"
    then some 167772416
    else if s == "10.0.1.1"
    then some 167772417
    else if s == "10.0.1.128"
    then some 167772544
    else none

abbrev interface : String → Bool → Json
interface role needed = obj (
    ("role", txt role)
    ∷ ("required", Json.flag needed)
    ∷ ("medium", txt "ethernet")
    ∷ ("mtuRange", arr (num 576 ∷ num 9000 ∷ []))
    ∷ [])

abbrev contract : Json
contract = obj (
    ("apiVersion", txt "graphlab.workload/v2")
    ∷ ("id", txt "app")
    ∷ ("kind", txt "docker")
    ∷ ("platforms", arr (txt "linux/amd64" ∷ []))
    ∷ (
      "interfaces",
      obj (
          ("eth0", interface "data" true)
          ∷ ("mgmt", interface "management" false)
          ∷ ("oob", interface "management" false)
          ∷ []),
    )
    ∷ ("lifecycle", obj (("gateUntilRelease", Json.flag true) ∷ ("quiesce", txt "supported") ∷ []))
    ∷ (
      "labSupport",
      obj (("language", txt "cpp23") ∷ ("version", txt "0.1.0") ∷ ("packageSha256", txt hash) ∷ []),
    )
    ∷ ("resources", obj (("cpus", num 1) ∷ ("memoryMiB", num 64) ∷ []))
    ∷ [])

abbrev pub lock : Json
lock = obj (
    ("apiVersion", txt "graphlab.artifacts/v1")
    ∷ (
      "workloads",
      obj (
          (
            "app",
            obj (
                ("contract", contract)
                ∷ ("contractSha256", txt hash)
                ∷ (
                  "image",
                  txt "app@sha256:0123456789abcdef0123456789abcdef0123456789abcdef0123456789abcdef",
                )
                ∷ ("platform", txt "linux/amd64")
                ∷ []),
          )
          ∷ []),
    )
    ∷ [])

abbrev port : String × Json
port = ("x", obj (("role", txt "data") ∷ ("vlan", obj (("access", num 10) ∷ [])) ∷ []))

abbrev switch : Bool → Json
switch rstp = obj (
    ("kind", txt "ovs-switch")
    ∷ (
      "policy",
      obj (("forwarding", txt "normal") ∷ ("rstp", Json.flag rstp) ∷ ("priority", num 4096) ∷ []),
    )
    ∷ ("ports", obj (("p1", port.1) ∷ ("p2", port.1) ∷ ("p3", port.1) ∷ []))
    ∷ [])

abbrev container : Json
container = obj (
    ("kind", txt "docker")
    ∷ ("workload", txt "app")
    ∷ (
      "ports",
      obj (
          ("eth0", obj (("role", txt "data") ∷ []))
          ∷ ("mgmt", obj (("role", txt "management") ∷ []))
          ∷ ("oob", obj (("role", txt "management") ∷ []))
          ∷ []),
    )
    ∷ [])

abbrev edge : String → String → String → Json
edge id a b = obj (("id", txt id) ∷ ("endpoints", arr (txt a ∷ txt b ∷ [])) ∷ [])

abbrev pub network : String → String → String → Json
network subnet pool gateway = obj (
    ("subnet", txt subnet)
    ∷ ("dynamicPool", txt pool)
    ∷ ("gateway", txt gateway)
    ∷ ("externalAccess", Json.flag false)
    ∷ [])

-- The document, with RSTP on both switches or on the first only.
abbrev pub document : Bool → Json
document second = obj (
    ("apiVersion", txt "graphlab.topology/v2")
    ∷ ("id", txt "lab")
    ∷ ("artifactLock", txt hash)
    ∷ ("backend", obj (("kind", txt "linux-local") ∷ ("switchIsolation", txt "shared-ovs") ∷ []))
    ∷ (
      "capture",
      obj (
          ("required", Json.flag true)
          ∷ ("scope", txt "all-data-edges")
          ∷ ("format", txt "pcapng")
          ∷ []),
    )
    ∷ ("nodes", obj (("a", container) ∷ ("s1", switch true) ∷ ("s2", switch second) ∷ []))
    ∷ (
      "edges",
      arr (edge "e3" "s1:p3" "s2:p2" ∷ edge "e1" "a:eth0" "s1:p1" ∷ edge "e2" "s1:p2" "s2:p1" ∷ []),
    )
    ∷ (
      "management",
      obj (
          (
            "networks",
            obj (
                ("net", network "10.0.0.0/24" "10.0.0.128/25" "10.0.0.1")
                ∷ ("side", network "10.0.1.0/24" "10.0.1.128/25" "10.0.1.1")
                ∷ []),
          )
          ∷ []),
    )
    ∷ (
      "managementAttachments",
      arr (
          obj (
            ("endpoint", txt "a:mgmt")
            ∷ ("network", txt "net")
            ∷ ("address", txt "10.0.0.10/24")
            ∷ [])
          ∷ obj (
              ("endpoint", txt "a:oob")
              ∷ ("network", txt "net")
              ∷ ("address", txt "10.0.0.11/24")
              ∷ [])
          ∷ []),
    )
    ∷ [])

abbrev none_valid : ValidatedTopology
none_valid = record {
  nodes = [];
  edges = [];
  networks = [];
  attachments = [];
  rstp = true;
  capture_required = false;
}

abbrev or_none : Check ValidatedTopology → ValidatedTopology
or_none (ok t) = t
or_none (err e) = none_valid

unfoldable pub lab : ValidatedTopology
unfolding validate
lab = or_none (validate inet_pton digest (document true) lock)
