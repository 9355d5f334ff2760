-- ===== src/Topology/Management.antt =====
-- The management networks and the ports attached to them: the loops over `networks` and over
-- `managementAttachments` in `validate` of packages/lab-support/cpp/contracts.cpp. The address of a text is
-- `inet_pton`, a parameter.
pub mod Nets
pub mod Attached
pub mod Apart
use Prim.Native.String.{String}
use text.Mathlib.Text.{◌==◌}
use graphlab.Prelude.{
  ℕ, ◌-◌, ◌+◌, Bool, true, false, not, ◌&&◌, ◌||◌, List, [], ◌∷◌, ◌++◌, Option, none, some,
  ◌==◌ as nat_eq, leb, ltb, Result, ok, err, if◌then◌else◌,
}
use graphlab.Runtime.Source.Store.{lookup}
use graphlab.Topology.Json.{
  Json, Check, validation_error, ◌>>=◌, ◌>>◌, expect, require, object, array, boolean, mem, need,
  getstr, fields, get,
}
use graphlab.Topology.Cidr.{Cidr, masked, last_of, inside, cidr, cidr_of}
use graphlab.Topology.Lock.{named}
use graphlab.Topology.Nodes.{Node, is_data}
use graphlab.Topology.Edges.{endpoint}

-- A network: its subnet, its dynamic pool and the addresses given out.
pub record Network : Type 0 where
  pub name : String
  pub subnet : Cidr
  pub pool : Cidr
  pub allocations : List ℕ

abbrev pub is_network : Cidr → Bool
is_network c = nat_eq c.ip (masked c.ip c)

abbrev pub overlap : Cidr → Cidr → Bool
overlap a b = inside a b || inside b a

abbrev pub overlaps_any : Cidr → List Network → Bool
overlaps_any c [] = false
overlaps_any c (n ∷ ns) = overlap c n.subnet || overlaps_any c ns

-- An address that a host may have: in the subnet, outside the pool, neither its first nor its last.
abbrev pub usable : Cidr → Cidr → Cidr → Bool
usable a subnet pool =
    inside a subnet
    && not (inside a pool)
    && not (nat_eq a.ip subnet.ip)
    && not (nat_eq a.ip (last_of subnet))

abbrev pub among : ℕ → List ℕ → Bool
among n [] = false
among n (x ∷ xs) = nat_eq n x || among n xs

-- An attachment that passed: the endpoint, the network and the address.
pub record Attachment : Type 0 where
  pub endpoint : String
  pub network : String
  pub address : ℕ

abbrev pub network_at : String → List Network → Option Network
network_at k [] = none
network_at k (n ∷ ns) = if n.name == k then some n else network_at k ns

abbrev pub allocate : String → ℕ → List Network → List Network
allocate k x [] = []
allocate k x (n ∷ ns) =
    if n.name == k then record n { allocations = x ∷ n.allocations } ∷ ns else n ∷ allocate k x ns

abbrev pub found : Option Network → Check Network
found none = err validation_error
found (some n) = ok n

module _ (inet_pton : String → Option ℕ) where
  -- One network; `before` are the networks before it.
  abbrev network_parts : List Network → String × Json → Check Network
  network_parts before (name, n) = do
    named name
    fields n ("subnet" ∷ "dynamicPool" ∷ "gateway" ∷ "externalAccess" ∷ [])
    subnet ← getstr n "subnet" >>= cidr inet_pton
    pool ← getstr n "dynamicPool" >>= cidr inet_pton
    require (leb 8 subnet.prefix && leb subnet.prefix 30 && is_network subnet)
    require (leb subnet.prefix pool.prefix && is_network pool && inside pool subnet)
    require (not (overlaps_any subnet before))
    gw ← getstr n "gateway" >>= λ s. cidr_of inet_pton s subnet.prefix
    require (usable gw subnet pool)
    external ← need n "externalAccess" >>= boolean
    require (not external)
    ok record { name = name; subnet = subnet; pool = pool; allocations = gw.ip ∷ [] }

  unfoldable pub network_of : List Network → String × Json → Check Network
  unfolding ◌>>=◌ expect cidr cidr_of
  network_of before m = network_parts before m

  -- The loop over the networks.
  unfoldable pub networks_of : List Network → List (String × Json) → Check (List Network)
  unfolding ◌>>=◌ network_of
  networks_of before [] = ok before
  networks_of before (m ∷ ms) = do n ← network_of before m; networks_of (n ∷ before) ms

  -- One attachment; `used` are the endpoints that edges and attachments before it used.
  abbrev attachment_parts :
      List (String × Node) → List Network → List String → Json → Check Attachment
  attachment_parts nodes nets used a = do
    fields a ("endpoint" ∷ "network" ∷ "address" ∷ [])
    ep ← getstr a "endpoint"
    end ← endpoint nodes ep
    require (not (is_data end.port.role) && not (mem ep used))
    network ← getstr a "network"
    net ← found (network_at network nets)
    address ← getstr a "address" >>= cidr inet_pton
    require (
        nat_eq address.prefix net.subnet.prefix
        && usable address net.subnet net.pool
        && not (among address.ip net.allocations))
    ok record { endpoint = ep; network = network; address = address.ip }

  unfoldable pub attachment_of :
      List (String × Node) → List Network → List String → Json → Check Attachment
  unfolding ◌>>=◌ expect cidr endpoint
  attachment_of nodes nets used a = attachment_parts nodes nets used a

  -- The loop over the attachments.
  unfoldable pub attachments_of :
      List (String × Node)
      → List Network
      → List String
      → List Json
      → Check (List Network × List Attachment)
  unfolding ◌>>=◌ attachment_of
  attachments_of nodes nets used [] = ok (nets, [])
  attachments_of nodes nets used (v ∷ vs) = do
    a ← attachment_of nodes nets used v
    rest ← attachments_of nodes (allocate a.network a.address nets) (a.endpoint ∷ used) vs
    ok (rest.0, a ∷ rest.1)

  abbrev given : Option Json → Check (List Json)
  given none = ok []
  given (some v) = array v

  abbrev management_parts :
      Json → List (String × Node) → List String → Check (List Network × List Attachment)
  management_parts t nodes used = do
    management ← need t "management"
    fields management ("networks" ∷ [])
    members ← need management "networks" >>= object
    nets ← networks_of [] members
    attachments ← given (get t "managementAttachments")
    attachments_of nodes nets used attachments

  unfoldable pub management_of :
      Json → List (String × Node) → List String → Check (List Network × List Attachment)
  unfolding ◌>>=◌ networks_of attachments_of
  management_of t nodes used = management_parts t nodes used
