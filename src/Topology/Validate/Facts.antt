-- ===== src/Topology/Validate/Facts.antt =====
-- What `validate` of packages/lab-support/cpp/contracts.cpp makes sure of a topology that it accepts.
use Prim.Native.String.{String}
use mathlib.Core.List.{Memᴰ}
use graphlab.Prelude.{
  ℕ, Option, ◌≡◌, refl, sym, subst, Bool, List, [], ◌∷◌, map, All, ok, Bool-cases, inl, inr,
}
use graphlab.Topology.Json.{Json, bind-ok, ok_inj}
use graphlab.Topology.Names.{node_of, is_before}
use graphlab.Topology.Lock.{Contract}
use graphlab.Topology.Nodes.{Node}
use graphlab.Topology.Edges.{Edge}
use graphlab.Topology.Edges.Accepted.{
  node_name, endpoint-named, AllAccepted, edges_of-Looped, all_used,
}
use graphlab.Topology.Switches.{switches_valid}
use graphlab.Topology.Management.{Network, Attachment}
use graphlab.Topology.Management.Attached.{network_name, AllGiven, managed-Given, given-named}
use graphlab.Topology.Validate.{
  ValidatedTopology, Settings, checked, checked_parts, validate, validate_parts, sort_edges,
  place_edge,
}

-- What `validate` knows of its result: how the edges, as the document lists them, and the attachments
-- were accepted.
pub record IsValid (t : ValidatedTopology) : Type 0 where
  pub listed : List Edge
  pub edges_sorted : t.edges ≡ sort_edges listed
  pub accepted : AllAccepted t.nodes t.rstp [] [] listed
  pub protected : switches_valid t.nodes t.rstp listed ≡ ok tt
  pub nets : List Network
  pub nets_named : map network_name t.networks ≡ map network_name nets
  pub given : AllGiven t.nodes nets (all_used [] listed) t.attachments

module _ (inet_pton : String → Option ℕ) (digest : Json → String) where
  checked-IsValid :
      (contracts : List (String × Contract)) (s : Settings) (d : Json) (t : ValidatedTopology)
      → checked_parts inet_pton digest contracts s d ≡ ok t
      → IsValid t
  checked-IsValid contracts s d t h =
      let (members, t0, h0) = bind-ok _ _ t h in
      let (u1, t1, h1) = bind-ok _ _ t h0 in
      let (nodes, t2, h2) = bind-ok _ _ t h1 in
      let (vs, t3, h3) = bind-ok _ _ t h2 in
      let (u4, t4, h4) = bind-ok _ _ t h3 in
      let (edges, t5, h5) = bind-ok _ _ t h4 in
      let (u6, t6, h6) = bind-ok _ _ t h5 in
      let (u7, t7, h7) = bind-ok _ _ t h6 in
      let (managed, t8, h8) = bind-ok _ _ t h7 in
      let r : ValidatedTopology = record {
        nodes = nodes;
        edges = sort_edges edges.0;
        networks = managed.0;
        attachments = managed.1;
        rstp = s.rstp;
        capture_required = s.capture_required;
      } in
      let l = edges_of-Looped nodes s.rstp [] [] vs edges t5 in
      let (nets, given, named) = managed-Given inet_pton nodes edges.1 d managed t8 in
      let valid : IsValid r = record {
        listed = edges.0;
        edges_sorted = refl;
        accepted = l.accepted;
        protected = t7;
        nets = nets;
        nets_named = named;
        given = subst (λ u. AllGiven nodes nets u managed.1) l.taken given;
      } in
      subst IsValid (ok_inj r t h8) valid

  settled-IsValid :
      (contracts : List (String × Contract)) (s : Settings) (d : Json) (t : ValidatedTopology)
      → checked inet_pton digest contracts s d ≡ ok t
      → IsValid t
  unfolding checked
  settled-IsValid contracts s d t h = checked-IsValid contracts s d t h

  validate_parts-IsValid :
      (d lock : Json) (t : ValidatedTopology)
      → validate_parts inet_pton digest d lock ≡ ok t
      → IsValid t
  validate_parts-IsValid d lock t h =
      let (contracts, t0, h0) = bind-ok _ _ t h in
      let (s, t1, h1) = bind-ok _ _ t h0 in settled-IsValid contracts s d t h1

  pub validate-IsValid :
      (d lock : Json) (t : ValidatedTopology) → validate inet_pton digest d lock ≡ ok t → IsValid t
  unfolding validate
  validate-IsValid d lock t h = validate_parts-IsValid d lock t h

-- The ends of the edges are nodes, in whatever order the edges stand.
abbrev pub EndsNamed : List (String × Node) → Edge → Type 0
EndsNamed nodes e =
    Memᴰ (node_of e.first) (map node_name nodes) × Memᴰ (node_of e.second) (map node_name nodes)

accepted-named :
    (nodes : List (String × Node)) (rstp : Bool) (ids used : List String) (es : List Edge)
    → AllAccepted nodes rstp ids used es
    → All (EndsNamed nodes) es
accepted-named nodes rstp ids used [] g = tt
accepted-named nodes rstp ids used (e ∷ es) g = (
  (
    endpoint-named nodes e.first g.0.first g.0.first_found,
    endpoint-named nodes e.second g.0.second g.0.second_found,
  ),
  accepted-named nodes rstp (e.id ∷ ids) (e.second ∷ e.first ∷ used) es g.1,
)

module _ {κ} (P : Edge → Type κ) where
  All-place_edge : (e : Edge) (es : List Edge) → P e → All P es → All P (place_edge e es)
  All-place_edge e [] p h = (p, tt)
  All-place_edge e (x ∷ xs) p h = elim (Bool-cases (is_before e.id x.id)) [
    | inl c ↦ rw c (p, h)
    | inr c ↦ rw c (h.0, All-place_edge e xs p h.1)
  ]

  pub All-sort_edges : (es : List Edge) → All P es → All P (sort_edges es)
  All-sort_edges [] h = tt
  All-sort_edges (e ∷ es) h = All-place_edge e (sort_edges es) h.0 (All-sort_edges es h.1)

module _ (t : ValidatedTopology) (v : IsValid t) where
  pub ends_named : All (EndsNamed t.nodes) t.edges
  ends_named = subst (All (EndsNamed t.nodes)) (sym v.edges_sorted) (
      All-sort_edges (EndsNamed t.nodes) v.listed
        (accepted-named t.nodes t.rstp [] [] v.listed v.accepted))

  pub attachments_named :
      All (λ (a : Attachment). Memᴰ a.network (map network_name t.networks)) t.attachments
  attachments_named =
      subst (λ l. All (λ (a : Attachment). Memᴰ a.network l) t.attachments) (sym v.nets_named)
        (given-named t.nodes v.nets (all_used [] v.listed) t.attachments v.given)
