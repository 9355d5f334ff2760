-- ===== src/Topology/Nodes.antt =====
-- The nodes of a topology and their ports: the loop over `nodes` in `validate` of
-- packages/lab-support/cpp/contracts.cpp.
use Prim.Native.String.{String}
use text.Mathlib.Text.{◌==◌}
use graphlab.Prelude.{
  ℕ, ◌%◌, Bool, true, false, not, ◌&&◌, ◌||◌, List, [], ◌∷◌, ◌++◌, Option, none, some,
  ◌==◌ as nat_eq, leb, ok, err, if◌then◌else◌, length,
}
use graphlab.Runtime.Source.Store.{lookup}
use graphlab.Topology.Json.{
  Json, Check, validation_error, unsupported_backend, ◌>>=◌, ◌>>◌, expect, require, object, array,
  str, boolean, number, within, need, getstr, fields, contains, get,
}
use graphlab.Topology.Cidr.{cidr}
use graphlab.Topology.Lock.{
  Kind, docker, qemu, ovs_switch, Role, data_port, management_port, Interface, Contract, role_of,
  named,
}

pub data Vlan : Type 0 where
  untagged : Vlan
  access : ℕ → Vlan
  trunk : List ℕ → Vlan

-- The medium of a port is ethernet.
pub record Port : Type 0 where
  pub role : Role
  pub mtu : ℕ
  pub vlan : Vlan

-- The workload is empty, and `rstp` false, where the kind has none.
pub record Node : Type 0 where
  pub kind : Kind
  pub workload : String
  pub ports : List (String × Port)
  pub rstp : Bool

abbrev pub is_switch : Kind → Bool
is_switch ovs_switch = true
is_switch _ = false

abbrev pub is_data : Role → Bool
is_data data_port = true
is_data management_port = false

abbrev same_role : Role → Role → Bool
same_role a b = elim (is_data a) [ true ↦ is_data b | false ↦ not (is_data b) ]

abbrev same_kind : Kind → Kind → Bool
same_kind docker docker = true
same_kind qemu qemu = true
same_kind ovs_switch ovs_switch = true
same_kind _ _ = false

abbrev node_kind : String → Check Kind
node_kind s =
    if s == "docker"
    then ok docker
    else if s == "qemu"
    then ok qemu
    else if s == "ovs-switch"
    then ok ovs_switch
    else err unsupported_backend

abbrev has {ℓ} : {A : Type ℓ} → List (String × A) → String → Bool
has es k = elim (lookup es k) [ none ↦ false | some a ↦ true ]

abbrev among : ℕ → List ℕ → Bool
among n [] = false
among n (x ∷ xs) = nat_eq n x || among n xs

abbrev found : {A : Type 0} → Option A → Check A
found none = err validation_error
found (some a) = ok a

-- A new number at its place in the order.
abbrev place_number : ℕ → List ℕ → List ℕ
place_number n [] = n ∷ []
place_number n (x ∷ xs) = if leb n x then n ∷ x ∷ xs else x ∷ place_number n xs

-- The VLANs of a trunk, in order and none twice.
unfoldable trunk_of : List ℕ → List Json → Check (List ℕ)
unfolding ◌>>=◌ expect
trunk_of seen [] = ok seen
trunk_of seen (v ∷ vs) = do
  n ← number v 1 4094
  require (not (among n seen))
  trunk_of (place_number n seen) vs

abbrev nonempty : List ℕ → Check Vlan
nonempty [] = err validation_error
nonempty (n ∷ ns) = ok (trunk (n ∷ ns))

abbrev access_or_trunk : Json → Option Json → Check Vlan
access_or_trunk v (some n) = number n 1 4094 >>= λ n. ok (access n)
access_or_trunk v none = need v "trunk" >>= array >>= trunk_of [] >>= nonempty

abbrev vlan_of : Kind → Option Json → Check Vlan
vlan_of k none = require (not (is_switch k)) >> ok untagged
vlan_of k (some v) = do
  require (is_switch k)
  fields v ("access" ∷ "trunk" ∷ [])
  ms ← object v
  require (nat_eq (length ms) 1)
  access_or_trunk v (get v "access")

abbrev medium_of : Option Json → Check String
medium_of none = ok "ethernet"
medium_of (some v) = str v

abbrev mtu_of : Option Json → Check ℕ
mtu_of none = ok 1500
mtu_of (some v) = number v 576 9216

-- A port of a workload is one that the contract declares.
abbrev fits : Option Contract → String → Role → ℕ → Check (Unit {0})
fits none name role mtu = ok tt
fits (some c) name role mtu = do
  spec ← found (lookup c.interfaces name)
  require (same_role spec.role role && within spec.mtu_low spec.mtu_high mtu)

unfoldable pub port_of : Option Contract → Kind → String × Json → Check Port
unfolding ◌>>=◌ expect trunk_of
port_of contract k (name, v) = do
  named name
  fields v ("role" ∷ "medium" ∷ "mtu" ∷ "vlan" ∷ [])
  role ← getstr v "role" >>= role_of
  require (not (is_switch k) || is_data role)
  medium ← medium_of (get v "medium")
  require (medium == "ethernet")
  mtu ← mtu_of (get v "mtu")
  vlan ← vlan_of k (get v "vlan")
  fits contract name role mtu
  ok record { role = role; mtu = mtu; vlan = vlan }

-- `emplace`: an entry that is there stays.
abbrev pub emplace {ℓ} : {A : Type ℓ} → String → A → List (String × A) → List (String × A)
emplace k a es = if has es k then es else es ++ (k, a) ∷ []

unfoldable pub ports_of :
    Option Contract
    → Kind
    → List (String × Port)
    → List (String × Json)
    → Check (List (String × Port))
unfolding ◌>>=◌ port_of
ports_of contract k ports [] = ok ports
ports_of contract k ports (m ∷ ms) = do
  p ← port_of contract k m
  ports_of contract k (emplace m.0 p ports) ms

unfoldable required_there : List (String × Port) → List (String × Interface) → Check (Unit {0})
unfolding ◌>>=◌ expect
required_there ports [] = ok tt
required_there ports (i ∷ is) =
    require (not i.1.is_required || has ports i.0) >> required_there ports is

abbrev complete : Option Contract → List (String × Port) → Check (Unit {0})
complete none ports = ok tt
complete (some c) ports = required_there ports c.interfaces

abbrev is_data_port : Option Port → Bool
is_data_port none = false
is_data_port (some p) = is_data p.role

abbrev policy_of : Json → Check Bool
policy_of policy = do
  fields policy ("forwarding" ∷ "rstp" ∷ "priority" ∷ [])
  forwarding ← getstr policy "forwarding"
  require (forwarding == "normal")
  rstp ← need policy "rstp" >>= boolean
  priority ← need policy "priority" >>= λ v. number v 0 61440
  require (nat_eq (priority % 4096) 0)
  ok rstp

-- The kind's own members: a switch's policy, or a workload and its contract.
abbrev own_of : List (String × Contract) → Kind → Json → Check (Bool × String × Option Contract)
own_of contracts ovs_switch n = do
  require (not (contains n "workload" || contains n "addresses"))
  rstp ← need n "policy" >>= policy_of
  ok (rstp, "", none)
own_of contracts k n = do
  require (not (contains n "policy"))
  workload ← getstr n "workload"
  c ← found (lookup contracts workload)
  require (same_kind c.kind k)
  ok (false, workload, some c)

module _ (inet_pton : String → Option ℕ) where
  unfoldable addresses_valid : List (String × Port) → List (String × Json) → Check (Unit {0})
  unfolding ◌>>=◌ expect cidr
  addresses_valid ports [] = ok tt
  addresses_valid ports (a ∷ rest) = do
    require (is_data_port (lookup ports a.0))
    text ← str a.1
    _ ← cidr inet_pton text
    addresses_valid ports rest

  abbrev hosts_valid : List (String × Port) → Option Json → Check (Unit {0})
  hosts_valid ports none = ok tt
  hosts_valid ports (some v) = object v >>= addresses_valid ports

  unfoldable pub node_of_json : List (String × Contract) → String × Json → Check Node
  unfolding ◌>>=◌ expect ports_of required_there addresses_valid
  node_of_json contracts (key, n) = do
    named key
    fields n ("kind" ∷ "workload" ∷ "ports" ∷ "policy" ∷ "addresses" ∷ [])
    kind ← getstr n "kind" >>= node_kind
    (rstp, workload, contract) ← own_of contracts kind n
    members ← need n "ports" >>= object
    ports ← ports_of contract kind [] members
    complete contract ports
    hosts_valid ports (get n "addresses")
    ok record { kind = kind; workload = workload; ports = ports; rstp = rstp }

  -- The loop over the nodes.
  unfoldable pub nodes_of :
      List (String × Contract)
      → List (String × Node)
      → List (String × Json)
      → Check (List (String × Node))
  unfolding ◌>>=◌ node_of_json
  nodes_of contracts nodes [] = ok nodes
  nodes_of contracts nodes (m ∷ ms) = do
    n ← node_of_json contracts m
    nodes_of contracts (emplace m.0 n nodes) ms
