-- ===== src/Topology/Management/Attached.antt =====
-- What the checks of packages/lab-support/cpp/contracts.cpp make sure of the management attachments.
use Prim.Native.String.{String}
use text.Mathlib.Text.{◌==◌}
use text.Mathlib.TextEquality.{eq_iff}
use mathlib.Core.List.{Memᴰ}
use graphlab.Prelude.{
  ℕ, ◌≡◌, refl, sym, ap, subst, ◌∙◌, Bool, true, false, not, ◌&&◌, List, [], ◌∷◌, map, Option, none,
  some, ok, All, Bool-cases, inl, inr, arith, ◌==◌ as nat_eq,
}
use graphlab.Topology.Json.{Json, Check, ◌>>=◌, bind-ok, require-ok, ok_inj, mem}
use graphlab.Topology.Cidr.{Cidr}
use graphlab.Topology.Nodes.{Node, is_data}
use graphlab.Topology.Edges.{End, endpoint}
use graphlab.Topology.Management.{
  Network, Attachment, network_at, allocate, found, usable, among, attachment_parts, attachment_of,
  attachments_of, management_of, management_parts,
}

abbrev pub network_name : Network → String
network_name n = n.name

-- What was checked of an attachment.
pub record Given (nodes : List (String × Node)) (nets : List Network) (used : List String)
    (a : Attachment) : Type 0 where
  pub end : End
  pub end_found : endpoint nodes a.endpoint ≡ ok end
  pub management : is_data end.port.role ≡ false
  pub unused : mem a.endpoint used ≡ false
  pub net : Network
  pub net_found : network_at a.network nets ≡ some net
  pub address : Cidr
  pub address_ip : address.ip ≡ a.address
  pub is_usable : usable address net.subnet net.pool ≡ true
  pub fresh : among a.address net.allocations ≡ false

found-ok : (o : Option Network) (n : Network) → found o ≡ ok n → o ≡ some n
found-ok none n h = absurd (cc h)
found-ok (some m) n h = ap some (ok_inj m n h)

abbrev names_of : List Network → List String
names_of nets = map network_name nets

allocate_names :
    (k : String) (x : ℕ) (nets : List Network) → names_of (allocate k x nets) ≡ names_of nets
allocate_names k x [] = refl
allocate_names k x (n ∷ ns) = elim (Bool-cases (n.name == k)) [
  | inl c ↦ rw c refl
  | inr c ↦ rw c (ap (λ l. n.name ∷ l) (allocate_names k x ns))
]

module _ (nodes : List (String × Node)) where
  -- Every attachment of a list was checked behind those before it.
  abbrev pub AllGiven : List Network → List String → List Attachment → Type 0
  AllGiven nets used [] = Unit
  AllGiven nets used (a ∷ rest) =
      Given nodes nets used a
      × AllGiven (allocate a.network a.address nets) (a.endpoint ∷ used) rest

  pub record Allotted (nets : List Network) (used : List String)
      (r : List Network × List Attachment) : Type 0 where
    pub given : AllGiven nets used r.1
    pub names : names_of r.0 ≡ names_of nets

module _ (inet_pton : String → Option ℕ) (nodes : List (String × Node)) where
  attachment_parts-Given :
      (nets : List Network) (used : List String) (v : Json) (a : Attachment)
      → attachment_parts inet_pton nodes nets used v ≡ ok a
      → Given nodes nets used a
  attachment_parts-Given nets used v a h =
      let (u0, t0, h0) = bind-ok _ _ a h in
      let (ep, t1, h1) = bind-ok _ _ a h0 in
      let (end, t2, h2) = bind-ok _ _ a h1 in
      let (u3, t3, h3) = bind-ok _ _ a h2 in
      let (network, t4, h4) = bind-ok _ _ a h3 in
      let (net, t5, h5) = bind-ok _ _ a h4 in
      let (address, t6, h6) = bind-ok _ _ a h5 in
      let (u7, t7, h7) = bind-ok _ _ a h6 in
      let r : Attachment = record { endpoint = ep; network = network; address = address.ip } in
      let role = require-ok (not (is_data end.port.role) && not (mem ep used)) u3 t3 in
      let fit =
        require-ok
          (nat_eq address.prefix net.subnet.prefix
            && usable address net.subnet net.pool
            && not (among address.ip net.allocations))
          u7 t7 in
      let given : Given nodes nets used r = record {
        end = end;
        end_found = t2;
        management = ground (arith, role);
        unused = ground (arith, role);
        net = net;
        net_found = found-ok (network_at network nets) net t5;
        address = address;
        address_ip = refl;
        is_usable =
            and_middle (nat_eq address.prefix net.subnet.prefix)
              (usable address net.subnet net.pool) (among address.ip net.allocations) fit;
        fresh =
            and_last (nat_eq address.prefix net.subnet.prefix) (usable address net.subnet net.pool)
              (among address.ip net.allocations) fit;
      } in
      subst (Given nodes nets used) (ok_inj r a h7) given
    where
      and_middle : (a b c : Bool) → (a && b && not c) ≡ true → b ≡ true
      and_middle a b c h = ground (arith, h)

      and_last : (a b c : Bool) → (a && b && not c) ≡ true → c ≡ false
      and_last a b c h = ground (arith, h)

  attachment_of-Given :
      (nets : List Network) (used : List String) (v : Json) (a : Attachment)
      → attachment_of inet_pton nodes nets used v ≡ ok a
      → Given nodes nets used a
  unfolding attachment_of
  attachment_of-Given nets used v a h = attachment_parts-Given nets used v a h

  abbrev attachments_step :
      List Network → List String → Json → List Json → Check (List Network × List Attachment)
  attachments_step nets used v vs = do
    a ← attachment_of inet_pton nodes nets used v
    rest ← attachments_of inet_pton nodes (allocate a.network a.address nets) (a.endpoint ∷ used) vs
    ok (rest.0, a ∷ rest.1)

  pub attachments_of-Allotted :
      (nets : List Network) (used : List String) (vs : List Json)
      (r : List Network × List Attachment)
      → attachments_of inet_pton nodes nets used vs ≡ ok r
      → Allotted nodes nets used r
  unfolding attachments_of
  attachments_of-Allotted nets used [] r h =
      let start : Allotted nodes nets used (nets, []) = record { given = tt; names = refl } in
      subst (Allotted nodes nets used) (ok_inj (nets, []) r h) start
  attachments_of-Allotted nets used (v ∷ vs) r h =
      let h' : attachments_step nets used v vs ≡ ok r = h in
      let (a, t0, h0) = bind-ok _ _ r h' in
      let (rest, t1, h1) = bind-ok _ _ r h0 in
      let l =
        attachments_of-Allotted (allocate a.network a.address nets) (a.endpoint ∷ used) vs rest
          t1 in
      let r' : List Network × List Attachment = (rest.0, a ∷ rest.1) in
      let allotted : Allotted nodes nets used r' = record {
        given = (attachment_of-Given nets used v a t0, l.given);
        names = l.names ∙ allocate_names a.network a.address nets;
      } in
      subst (Allotted nodes nets used) (ok_inj r' r h1) allotted

network_at-named :
    (k : String) (nets : List Network) (n : Network)
    → network_at k nets ≡ some n
    → Memᴰ k (map network_name nets)
network_at-named k [] n h = absurd (cc h)
network_at-named k (m ∷ ms) n h = elim (Bool-cases (m.name == k)) [
  | inl c ↦ Memᴰ.head (sym ((eq_iff m.name k).0 c))
  | inr c ↦
      let q : network_at k (m ∷ ms) ≡ network_at k ms = rw c in
      Memᴰ.tail (network_at-named k ms n (sym q ∙ h))
]

parts-Given :
    (inet_pton : String → Option ℕ) (nodes : List (String × Node)) (used : List String) (d : Json)
    (r : List Network × List Attachment)
    → management_parts inet_pton d nodes used ≡ ok r
    → (nets : List Network) × AllGiven nodes nets used r.1
      × (map network_name r.0 ≡ map network_name nets)
parts-Given inet_pton nodes used d r h =
    let (m, t0, h0) = bind-ok _ _ r h in
    let (u1, t1, h1) = bind-ok _ _ r h0 in
    let (members, t2, h2) = bind-ok _ _ r h1 in
    let (nets, t3, h3) = bind-ok _ _ r h2 in
    let (vs, t4, h4) = bind-ok _ _ r h3 in
    let l = attachments_of-Allotted inet_pton nodes nets used vs r h4 in (nets, l.given, l.names)

-- The management of a document: the networks as they were before the attachments, and what was given.
pub managed-Given :
    (inet_pton : String → Option ℕ) (nodes : List (String × Node)) (used : List String) (d : Json)
    (r : List Network × List Attachment)
    → management_of inet_pton d nodes used ≡ ok r
    → (nets : List Network) × AllGiven nodes nets used r.1
      × (map network_name r.0 ≡ map network_name nets)
unfolding management_of
managed-Given inet_pton nodes used d r h = parts-Given inet_pton nodes used d r h

pub given-named :
    (nodes : List (String × Node)) (nets : List Network) (used : List String)
    (ends : List Attachment)
    → AllGiven nodes nets used ends
    → All (λ (a : Attachment). Memᴰ a.network (map network_name nets)) ends
given-named nodes nets used [] g = tt
given-named nodes nets used (a ∷ rest) g = (
  network_at-named a.network nets g.0.net g.0.net_found,
  subst (λ l. All (λ (b : Attachment). Memᴰ b.network l) rest)
      (allocate_names a.network a.address nets)
      (given-named nodes (allocate a.network a.address nets) (a.endpoint ∷ used) rest g.1),
)
