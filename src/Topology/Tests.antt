-- ===== src/Topology/Tests.antt =====
-- The checks run on a small topology.
use Prim.Native.String.{String}
use mathlib.Core.List.{Memᴰ}
use graphlab.Prelude.{◌≡◌, ◌↔◌, ◌⊎◌, refl, true, false, List, [], ◌∷◌, length, ok, err}
use graphlab.Topology.Json.{Json, validation_error, fields, getstr}
use graphlab.Topology.Names.{split_at, node_of}
use graphlab.Topology.Lock.{ovs_switch}
use graphlab.Topology.Nodes.{Node}
use graphlab.Topology.Edges.{Edge}
use graphlab.Topology.Edges.Apart.{Apart}
use graphlab.Topology.Switches.{
  start, root, forest_of, joins_switches, same_tree, all_protected, switches_valid,
}
use graphlab.Topology.Switches.Roots.{Connected, same_tree_iff, root-Settled}
use graphlab.Topology.Switches.Rstp.{cycle-protected}
use graphlab.Topology.Management.{Network, Attachment, networks_of}
use graphlab.Topology.Management.Apart.{Separate}
use graphlab.Topology.Management.Nets.{Foreign, networks_of-Foreign}
use graphlab.Topology.Validate.Disjoint.{validate-Apart, validate-Separate}
use graphlab.Topology.Validate.{validate}
use graphlab.Topology.Sample.{lab, document, lock, network, inet_pton, digest}

lab_valid : validate inet_pton digest (document true) lock ≡ ok lab
unfolding validate lab
lab_valid = refl

unprotected : validate inet_pton digest (document false) lock ≡ err validation_error
unfolding validate
unprotected = refl

three_edges : length lab.edges ≡ 3
unfolding validate lab
three_edges = refl

abbrev first_edge : Edge
first_edge = record { id = "e1"; first = "a:eth0"; second = "s1:p1" }

abbrev third_edge : Edge
third_edge = record { id = "e3"; first = "s1:p3"; second = "s2:p2" }

first_there : Memᴰ first_edge lab.edges
unfolding validate lab
first_there = Memᴰ.head refl

third_there : Memᴰ third_edge lab.edges
unfolding validate lab
third_there = Memᴰ.tail (Memᴰ.tail (Memᴰ.head refl))

validate-Apart_example : (first_edge ≡ third_edge) ⊎ Apart first_edge third_edge
validate-Apart_example =
    validate-Apart inet_pton digest (document true) lock lab first_edge third_edge lab_valid
      first_there third_there

abbrev attachment : Attachment
attachment = record { endpoint = "a:mgmt"; network = "net"; address = 167772170 }

attachment_there : Memᴰ attachment lab.attachments
unfolding validate lab
attachment_there = Memᴰ.head refl

abbrev second_attachment : Attachment
second_attachment = record { endpoint = "a:oob"; network = "net"; address = 167772171 }

second_there : Memᴰ second_attachment lab.attachments
unfolding validate lab
second_there = Memᴰ.tail (Memᴰ.head refl)

validate-Separate_example : (attachment ≡ second_attachment) ⊎ Separate attachment second_attachment
validate-Separate_example =
    validate-Separate inet_pton digest (document true) lock lab attachment second_attachment
      lab_valid attachment_there second_there

-- The networks of the sample, the later first.
abbrev net : Network
net = record {
  name = "net";
  subnet = record { ip = 167772160; prefix = 24 };
  pool = record { ip = 167772288; prefix = 25 };
  allocations = 167772161 ∷ [];
}

abbrev side : Network
side = record {
  name = "side";
  subnet = record { ip = 167772416; prefix = 24 };
  pool = record { ip = 167772544; prefix = 25 };
  allocations = 167772417 ∷ [];
}

abbrev listed : List (String × Json)
listed =
    ("net", network "10.0.0.0/24" "10.0.0.128/25" "10.0.0.1")
    ∷ ("side", network "10.0.1.0/24" "10.0.1.128/25" "10.0.1.1")
    ∷ []

two_networks : networks_of inet_pton [] listed ≡ ok (side ∷ net ∷ [])
unfolding networks_of fields getstr
two_networks = refl

networks_of-Foreign_example : (side ≡ net) ⊎ Foreign side.subnet net.subnet
networks_of-Foreign_example =
    networks_of-Foreign inet_pton listed (side ∷ net ∷ []) side net two_networks (Memᴰ.head refl)
      (Memᴰ.tail (Memᴰ.head refl))

-- Two switches with two links.
abbrev switch : Node
switch = record { kind = ovs_switch; workload = ""; ports = []; rstp = true }

abbrev switches : List (String × Node)
switches = ("s1", switch) ∷ ("s2", switch) ∷ []

abbrev link_of : String → String → String → Edge
link_of id a b = record { id = id; first = a; second = b }

abbrev before : List Edge
before = link_of "e2" "s1:p2" "s2:p1" ∷ []

abbrev closing : Edge
closing = link_of "e3" "s1:p3" "s2:p2"

abbrev both : List Edge
both = link_of "e2" "s1:p2" "s2:p1" ∷ closing ∷ []

connected : Connected switches before "s1" "s2"
unfolding split_at
connected = Connected.link (link_of "e2" "s1:p2" "s2:p1") (Memᴰ.head refl) refl

connected_back : Connected switches both "s2" "s1"
unfolding split_at
connected_back =
    Connected.back (Connected.link (link_of "e2" "s1:p2" "s2:p1") (Memᴰ.head refl) refl)

same_tree_iff_example :
    (same_tree (forest_of switches start both) "s1" "s2" ≡ true) ↔ Connected switches both "s1" "s2"
same_tree_iff_example = same_tree_iff switches both "s1" "s2"

root-Settled_example :
    (forest_of switches start both).parent (root (forest_of switches start both) "s1")
    ≡ root (forest_of switches start both) "s1"
root-Settled_example = root-Settled switches both "s1"

both_valid : switches_valid switches true both ≡ ok tt
unfolding forest_of all_protected split_at
both_valid = refl

closes : joins_switches switches closing ≡ true
unfolding split_at
closes = refl

first_end : node_of closing.first ≡ "s1"
unfolding split_at
first_end = refl

cycle-protected_example : switch.rstp ≡ true
unfolding split_at
cycle-protected_example =
    cycle-protected switches before [] closing "s2" switch both_valid closes connected
      (Memᴰ.tail (Memᴰ.head refl)) refl connected_back
