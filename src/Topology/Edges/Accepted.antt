-- ===== src/Topology/Edges/Accepted.antt =====
-- What the checks of packages/lab-support/cpp/contracts.cpp make sure of the edges that they accept.
use Prim.Native.String.{String}
use text.Mathlib.Text.{◌==◌}
use text.Mathlib.TextEquality.{eq_iff}
use mathlib.Core.List.{Memᴰ}
use graphlab.Prelude.{
  ◌≡◌, refl, sym, subst, ◌∙◌, Bool, true, false, not, ◌&&◌, List, [], ◌∷◌, map, Option, none, some,
  ok, Bool-cases, inl, inr, arith,
}
use graphlab.Runtime.Source.Store.{lookup}
use graphlab.Topology.Json.{Json, Check, ◌>>=◌, bind-ok, require-ok, ok_inj, mem}
use graphlab.Topology.Names.{split_at, node_of}
use graphlab.Topology.Nodes.{Node}
use graphlab.Topology.Edges.{
  Edge, End, endpoint, ends_in, node_in, fit, link_allowed, edge_parts, edge_of, edges_of,
}

abbrev pub node_name : String × Node → String
node_name n = n.0

lookup-named :
    (nodes : List (String × Node)) (k : String) (n : Node)
    → lookup nodes k ≡ some n
    → Memᴰ k (map node_name nodes)
lookup-named [] k n h = absurd (cc h)
lookup-named (m ∷ ms) k n h = elim (Bool-cases (m.0 == k)) [
  | inl c ↦ Memᴰ.head (sym ((eq_iff m.0 k).0 c))
  | inr c ↦
      let q : lookup (m ∷ ms) k ≡ lookup ms k = rw c in Memᴰ.tail (lookup-named ms k n (sym q ∙ h))
]

node_in-named :
    (nodes : List (String × Node)) (x port : String) (o : Option Node) (a : End)
    → lookup nodes x ≡ o
    → node_in x port o ≡ ok a
    → Memᴰ x (map node_name nodes)
node_in-named nodes x port none a q h = absurd (cc h)
node_in-named nodes x port (some n) a q h = lookup-named nodes x n q

ends_in-named :
    (nodes : List (String × Node)) (e : String) (o : Option (String × String)) (a : End)
    → split_at b':' e ≡ o
    → ends_in nodes o ≡ ok a
    → Memᴰ (node_of e) (map node_name nodes)
ends_in-named nodes e none a q h = absurd (cc h)
ends_in-named nodes e (some (x, port)) a q h =
    let (u, t, g) = bind-ok _ _ a h in
    let named : node_of e ≡ x = rw q in
    subst (λ k. Memᴰ k (map node_name nodes)) (sym named)
      (node_in-named nodes x port (lookup nodes x) a refl g)

-- The node of an endpoint that was found is a node.
pub endpoint-named :
    (nodes : List (String × Node)) (e : String) (a : End)
    → endpoint nodes e ≡ ok a
    → Memᴰ (node_of e) (map node_name nodes)
unfolding endpoint
endpoint-named nodes e a h = ends_in-named nodes e (split_at b':' e) a refl h

-- What was checked of an edge.
pub record Accepted (nodes : List (String × Node)) (rstp : Bool) (ids used : List String) (e : Edge)
    : Type 0 where
  pub fresh : mem e.id ids ≡ false
  pub first : End
  pub second : End
  pub first_found : endpoint nodes e.first ≡ ok first
  pub second_found : endpoint nodes e.second ≡ ok second
  pub unused : (mem e.first used ≡ false) × (mem e.second (e.first ∷ used) ≡ false)
  pub fits : fit first second ≡ true
  pub allowed : link_allowed rstp first second ≡ true

edge_parts-Accepted :
    (nodes : List (String × Node)) (rstp : Bool) (ids used : List String) (v : Json) (e : Edge)
    → edge_parts nodes rstp ids used v ≡ ok e
    → Accepted nodes rstp ids used e
edge_parts-Accepted nodes rstp ids used v e h =
    let (u0, t0, h0) = bind-ok _ _ e h in
    let (key, t1, h1) = bind-ok _ _ e h0 in
    let (u2, t2, h2) = bind-ok _ _ e h1 in
    let (u3, t3, h3) = bind-ok _ _ e h2 in
    let (vs, t4, h4) = bind-ok _ _ e h3 in
    let (texts, t5, h5) = bind-ok _ _ e h4 in
    let (a, t6, h6) = bind-ok _ _ e h5 in
    let (b, t7, h7) = bind-ok _ _ e h6 in
    let (u8, t8, h8) = bind-ok _ _ e h7 in
    let (u9, t9, h9) = bind-ok _ _ e h8 in
    let (u10, t10, h10) = bind-ok _ _ e h9 in
    let r : Edge = record { id = key; first = texts.0; second = texts.1 } in
    let same : r ≡ e = ok_inj r e h10 in
    let fresh = require-ok (not (mem key ids)) u3 t3 in
    let unused = require-ok (not (mem texts.0 used) && not (mem texts.1 (texts.0 ∷ used))) u8 t8 in
    let accepted : Accepted nodes rstp ids used r = record {
      fresh = ground (arith, fresh);
      first = a;
      second = b;
      first_found = t6;
      second_found = t7;
      unused = (ground (arith, unused), ground (arith, unused));
      fits = require-ok (fit a b) u9 t9;
      allowed = require-ok (link_allowed rstp a b) u10 t10;
    } in
    subst (Accepted nodes rstp ids used) same accepted

edge_of-Accepted :
    (nodes : List (String × Node)) (rstp : Bool) (ids used : List String) (v : Json) (e : Edge)
    → edge_of nodes rstp ids used v ≡ ok e
    → Accepted nodes rstp ids used e
unfolding edge_of
edge_of-Accepted nodes rstp ids used v e h = edge_parts-Accepted nodes rstp ids used v e h

-- Every edge of a list was accepted behind those before it.
abbrev pub AllAccepted :
    List (String × Node) → Bool → List String → List String → List Edge → Type 0
AllAccepted nodes rstp ids used [] = Unit
AllAccepted nodes rstp ids used (e ∷ es) =
    Accepted nodes rstp ids used e
    × AllAccepted nodes rstp (e.id ∷ ids) (e.second ∷ e.first ∷ used) es

-- The endpoints that the edges use, in front of those used before.
abbrev pub all_used : List String → List Edge → List String
all_used used [] = used
all_used used (e ∷ es) = all_used (e.second ∷ e.first ∷ used) es

abbrev edges_step :
    (nodes : List (String × Node)) (rstp : Bool) (ids used : List String) (v : Json)
    (vs : List Json)
    → Check (List Edge × List String)
edges_step nodes rstp ids used v vs = do
  e ← edge_of nodes rstp ids used v
  rest ← edges_of nodes rstp (e.id ∷ ids) (e.second ∷ e.first ∷ used) vs
  ok (e ∷ rest.0, rest.1)

-- What the loop over the edges makes sure of.
pub record Looped (nodes : List (String × Node)) (rstp : Bool) (ids used : List String)
    (r : List Edge × List String) : Type 0 where
  pub accepted : AllAccepted nodes rstp ids used r.0
  pub taken : r.1 ≡ all_used used r.0

pub edges_of-Looped :
    (nodes : List (String × Node)) (rstp : Bool) (ids used : List String) (vs : List Json)
    (r : List Edge × List String)
    → edges_of nodes rstp ids used vs ≡ ok r
    → Looped nodes rstp ids used r
unfolding edges_of
edges_of-Looped nodes rstp ids used [] r h =
    let start : Looped nodes rstp ids used ([], used) = record { accepted = tt; taken = refl } in
    subst (Looped nodes rstp ids used) (ok_inj ([], used) r h) start
edges_of-Looped nodes rstp ids used (v ∷ vs) r h =
    let h' : edges_step nodes rstp ids used v vs ≡ ok r = h in
    let (e, t0, h0) = bind-ok _ _ r h' in
    let (rest, t1, h1) = bind-ok _ _ r h0 in
    let l = edges_of-Looped nodes rstp (e.id ∷ ids) (e.second ∷ e.first ∷ used) vs rest t1 in
    let r' : List Edge × List String = (e ∷ rest.0, rest.1) in
    let looped : Looped nodes rstp ids used r' = record {
      accepted = (edge_of-Accepted nodes rstp ids used v e t0, l.accepted);
      taken = l.taken;
    } in
    subst (Looped nodes rstp ids used) (ok_inj r' r h1) looped
