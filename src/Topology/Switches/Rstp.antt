-- ===== src/Topology/Switches/Rstp.antt =====
-- The switches of a cycle, in `validate` of packages/lab-support/cpp/contracts.cpp.
use Prim.Native.String.{String}
use text.Mathlib.Text.{◌==◌}
use mathlib.Core.List.{Memᴰ}
use graphlab.Prelude.{
  ◌≡◌, refl, sym, subst, Bool, true, false, not, ◌&&◌, List, [], ◌∷◌, ◌++◌, arith, ok,
}
use graphlab.Topology.Json.{bind-ok, require-ok, require}
use graphlab.Topology.Names.{node_of}
use graphlab.Topology.Nodes.{Node, is_switch}
use graphlab.Topology.Edges.{Edge}
use graphlab.Topology.Switches.{
  Forest, start, root, union, joined, step_if, forest_of, joins_switches, same_tree, shares_root,
  all_protected, switches_valid,
}
use graphlab.Topology.Switches.Roots.{Connected, same_tree_iff}

module _ (nodes : List (String × Node)) where
  forest-append :
      (s : Forest) (xs ys : List Edge)
      → forest_of nodes s (xs ++ ys) ≡ forest_of nodes (forest_of nodes s xs) ys
  unfolding forest_of
  forest-append s [] ys = refl
  forest-append s (x ∷ xs) ys = forest-append (step_if (joins_switches nodes x) s x) xs ys

  joined_keeps : (s : Forest) (a b c : String) → Memᴰ c s.cyclic → Memᴰ c (joined s a b).cyclic
  unfolding joined
  joined_keeps s a b c m = elim (root s a == root s b) as (λ t. Memᴰ c (union s a b t).cyclic) [
    | true ↦ Memᴰ.tail m
    | false ↦ m
  ]

  step_keeps :
      (t : Bool) (s : Forest) (e : Edge) (c : String)
      → Memᴰ c s.cyclic
      → Memᴰ c (step_if t s e).cyclic
  step_keeps true s e c m = joined_keeps s (node_of e.first) (node_of e.second) c m
  step_keeps false s e c m = m

  cyclic_stays :
      (s : Forest) (es : List Edge) (c : String)
      → Memᴰ c s.cyclic
      → Memᴰ c (forest_of nodes s es).cyclic
  unfolding forest_of
  cyclic_stays s [] c m = m
  cyclic_stays s (e ∷ es) c m =
      let t = joins_switches nodes e in cyclic_stays (step_if t s e) es c (step_keeps t s e c m)

  -- An edge between connected switches marks its first end.
  joined_marks :
      (s : Forest) (a b : String) → (root s a == root s b) ≡ true → Memᴰ a (joined s a b).cyclic
  unfolding joined
  joined_marks s a b q = subst (λ t. Memᴰ a (union s a b t).cyclic) (sym q) (Memᴰ.head refl)

  step_marks :
      (t : Bool) (s : Forest) (e : Edge)
      → t ≡ true
      → same_tree s (node_of e.first) (node_of e.second) ≡ true
      → Memᴰ (node_of e.first) (step_if t s e).cyclic
  step_marks true s e q h = joined_marks s (node_of e.first) (node_of e.second) h
  step_marks false s e q h = absurd (cc q)

shares :
    (s : Forest) (k c : String) (cs : List String)
    → Memᴰ c cs
    → same_tree s k c ≡ true
    → shares_root s k cs ≡ true
shares s k c [] m h = elim m [ ]
shares s k c (x ∷ xs) (Memᴰ.head q) h =
    let h' : same_tree s k x ≡ true = subst (λ y. same_tree s k y ≡ true) q h in rw h'
shares s k c (x ∷ xs) (Memᴰ.tail m) h = ground (arith, shares s k c xs m h)

has_rstp : (a b c : Bool) → not (a && b && not c) ≡ true → a ≡ true → b ≡ true → c ≡ true
has_rstp a b c h p q = ground (arith, h, p, q)

protected :
    (s : Forest) (ns : List (String × Node))
    → all_protected s ns ≡ ok tt
    → (k : String) (n : Node) → Memᴰ {A = String × Node} (k, n) ns
    → is_switch n.kind ≡ true
    → shares_root s k s.cyclic ≡ true
    → n.rstp ≡ true
unfolding all_protected
protected s [] h k n m w r = elim m [ ]
protected s (x ∷ xs) h k n (Memᴰ.head q) w r =
    let test = not (is_switch x.1.kind && shares_root s x.0 s.cyclic && not x.1.rstp) in
    let (u, e, rest) = bind-ok (require test) (λ _. all_protected s xs) tt h in
    let t : test ≡ true = require-ok test u e in
    let t' : not (is_switch n.kind && shares_root s k s.cyclic && not n.rstp) ≡ true =
      subst
        (λ (y : String × Node).
          not (is_switch y.1.kind && shares_root s y.0 s.cyclic && not y.1.rstp) ≡ true)
        (sym q) t in
    has_rstp (is_switch n.kind) (shares_root s k s.cyclic) n.rstp t' w r
protected s (x ∷ xs) h k n (Memᴰ.tail m) w r =
    let test = not (is_switch x.1.kind && shares_root s x.0 s.cyclic && not x.1.rstp) in
    let (u, e, rest) = bind-ok (require test) (λ _. all_protected s xs) tt h in
    protected s xs rest k n m w r

-- Under the loop policy rstp, a topology whose switches pass the check has RSTP on every switch of a
-- cycle: where an edge joins switches that the edges before it connect, each switch that the links
-- between switches connect with it has RSTP.
pub cycle-protected :
    (nodes : List (String × Node)) (xs ys : List Edge) (e : Edge) (k : String) (n : Node)
    → switches_valid nodes true (xs ++ e ∷ ys) ≡ ok tt
    → joins_switches nodes e ≡ true
    → Connected nodes xs (node_of e.first) (node_of e.second)
    → Memᴰ {A = String × Node} (k, n) nodes
    → is_switch n.kind ≡ true
    → Connected nodes (xs ++ e ∷ ys) k (node_of e.first)
    → n.rstp ≡ true
unfolding forest_of
cycle-protected nodes xs ys e k n h j c m w d =
    let s = forest_of nodes start xs in
    let a = node_of e.first in
    let t = joins_switches nodes e in
    let marked = step_marks nodes t s e j ((same_tree_iff nodes xs a (node_of e.second)).1 c) in
    let stays = cyclic_stays nodes (step_if t s e) ys a marked in
    let whole =
      subst (λ (f : Forest). Memᴰ a f.cyclic) (sym (forest-append nodes start xs (e ∷ ys))) stays in
    protected (forest_of nodes start (xs ++ e ∷ ys)) nodes h k n m w (
      shares (forest_of nodes start (xs ++ e ∷ ys)) k a _ whole
        ((same_tree_iff nodes (xs ++ e ∷ ys) k a).1 d))
