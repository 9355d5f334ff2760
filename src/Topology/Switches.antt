-- ===== src/Topology/Switches.antt =====
-- The search for cycles of switches, with its union-find, in `validate` of
-- packages/lab-support/cpp/contracts.cpp. The map `parent` is a function; the depth is a bound on the steps
-- of `root`, one more with each edge.
pub mod Trees
pub mod Unions
pub mod Roots
pub mod Rstp
use Prim.Native.String.{String}
use text.Mathlib.Text.{◌==◌}
use graphlab.Prelude.{
  ℕ, zero, suc, Bool, true, false, not, ◌&&◌, ◌||◌, List, [], ◌∷◌, Option, none, some, Result, ok,
  err, if◌then◌else◌,
}
use graphlab.Runtime.Source.Store.{lookup}
use graphlab.Topology.Json.{Check, Code, ◌>>=◌, ◌>>◌, expect, require}
use graphlab.Topology.Names.{node_of}
use graphlab.Topology.Nodes.{Node, is_switch}
use graphlab.Topology.Edges.{Edge}

pub record Forest : Type 0 where
  pub parent : String → String
  pub depth : ℕ
  pub cyclic : List String

abbrev pub start : Forest
start = record { parent = λ x. x; depth = 0; cyclic = [] }

abbrev pub point : (String → String) → String → String → String → String
point p a b x = if x == a then b else p x

-- `while (parent[x] != x) x = parent[x];`
unfoldable pub climb : (String → String) → ℕ → String → String
climb p zero x = x
climb p (suc n) x = let rest = climb p n (p x) in if p x == x then x else rest

-- The helper `root`.
abbrev pub root : Forest → String → String
root s x = climb s.parent s.depth x

-- Two ends whose roots are the same close a cycle; else one root is put under the other.
abbrev pub union : Forest → String → String → Bool → Forest
union s a b true = record s { depth = suc s.depth; cyclic = a ∷ s.cyclic }
union s a b false = record s { parent = point s.parent (root s a) (root s b); depth = suc s.depth }

unfoldable pub joined : Forest → String → String → Forest
unfolding climb
joined s a b = union s a b (root s a == root s b)

abbrev switch_there : Option Node → Bool
switch_there none = false
switch_there (some n) = is_switch n.kind

abbrev pub is_switch_at : List (String × Node) → String → Bool
is_switch_at nodes k = switch_there (lookup nodes k)

abbrev pub joins_switches : List (String × Node) → Edge → Bool
joins_switches nodes e =
    is_switch_at nodes (node_of e.first) && is_switch_at nodes (node_of e.second)

abbrev pub step_if : Bool → Forest → Edge → Forest
step_if true s e = joined s (node_of e.first) (node_of e.second)
step_if false s e = s

-- The loop over the edges.
unfoldable pub forest_of : List (String × Node) → Forest → List Edge → Forest
unfolding joined
forest_of nodes s [] = s
forest_of nodes s (e ∷ es) = forest_of nodes (step_if (joins_switches nodes e) s e) es

abbrev pub same_tree : Forest → String → String → Bool
same_tree s a b = root s a == root s b

abbrev pub shares_root : Forest → String → List String → Bool
shares_root s k [] = false
shares_root s k (c ∷ cs) = same_tree s k c || shares_root s k cs

-- The loop over the nodes.
unfoldable pub all_protected : Forest → List (String × Node) → Check (Unit {0})
unfolding ◌>>=◌ expect climb
all_protected s [] = ok tt
all_protected s (n ∷ ns) =
    require (not (is_switch n.1.kind && shares_root s n.0 s.cyclic && not n.1.rstp))
    >> all_protected s ns

-- The check of the switches, under the loop policy `rstp` or without it.
abbrev pub switches_valid : List (String × Node) → Bool → List Edge → Check (Unit {0})
switches_valid nodes true es = all_protected (forest_of nodes start es) nodes
switches_valid nodes false es = ok tt
