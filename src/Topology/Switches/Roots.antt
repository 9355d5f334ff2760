-- ===== src/Topology/Switches/Roots.antt =====
-- The roots of the union-find of packages/lab-support/cpp/contracts.cpp, and the links between switches.
use Prim.Native.String.{String}
use text.Mathlib.Text.{◌==◌}
use text.Mathlib.TextEquality.{eq_iff}
use mathlib.Core.List.{Memᴰ}
use graphlab.Prelude.{
  ◌≡◌, refl, sym, ap, ◌∙◌, subst, ◌↔◌, inl, inr, Bool, true, false, List, [], ◌∷◌, Bool-cases,
  arith,
}
use graphlab.Topology.Names.{node_of}
use graphlab.Topology.Nodes.{Node}
use graphlab.Topology.Edges.{Edge}
use graphlab.Topology.Switches.{
  Forest, start, climb, root, step_if, forest_of, joins_switches, same_tree,
}
use graphlab.Topology.Switches.Trees.{moved, same_true, same_iff_eq}
use graphlab.Topology.Switches.Unions.{Settled, joined-Joined}

-- The spanning of the switches by the links between them.
module _ (nodes : List (String × Node)) (es : List Edge) where
  pub data Connected : String → String → Type 0 where
    self : (a : String) → Connected a a
    link :
        (e : Edge)
        → Memᴰ e es
        → joins_switches nodes e ≡ true
        → Connected (node_of e.first) (node_of e.second)
    back : {a b : String} → Connected a b → Connected b a
    along : {a b c : String} → Connected a b → Connected b c → Connected a c

moved_end : (a b : String) → moved a b a ≡ b
moved_end a b = rw (same_true a)

moved_other : (a b : String) → moved a b b ≡ b
moved_other a b = elim (Bool-cases (b == a)) [ inl f ↦ rw f | inr f ↦ rw f ]

module _ (nodes : List (String × Node)) where
  -- A step keeps what is settled, and equal roots.
  step-Settled : (c : Bool) (s : Forest) (e : Edge) → Settled s → Settled (step_if c s e)
  step-Settled true s e h = (joined-Joined s (node_of e.first) (node_of e.second) h).settled
  step-Settled false s e h = h

  step_keeps :
      (c : Bool) (s : Forest) (e : Edge)
      → Settled s
      → (x y : String) → root s x ≡ root s y
      → root (step_if c s e) x ≡ root (step_if c s e) y
  step_keeps false s e h x y q = q
  step_keeps true s e h x y q =
      let a = node_of e.first in
      let b = node_of e.second in
      let j = joined-Joined s a b h in
      j.roots x ∙ ap (moved (root s a) (root s b)) q ∙ sym (j.roots y)

  step_joins :
      (s : Forest) (e : Edge)
      → Settled s
      → root (step_if true s e) (node_of e.first) ≡ root (step_if true s e) (node_of e.second)
  step_joins s e h =
      let a = node_of e.first in
      let b = node_of e.second in
      let j = joined-Joined s a b h in
      j.roots a
      ∙ moved_end (root s a) (root s b)
      ∙ sym (moved_other (root s a) (root s b))
      ∙ sym (j.roots b)

  pub forest-Settled : (s : Forest) (es : List Edge) → Settled s → Settled (forest_of nodes s es)
  unfolding forest_of
  forest-Settled s [] h = h
  forest-Settled s (e ∷ es) h =
      let c = joins_switches nodes e in forest-Settled (step_if c s e) es (step-Settled c s e h)

  pub forest_keeps :
      (s : Forest) (es : List Edge)
      → Settled s
      → (x y : String) → root s x ≡ root s y
      → root (forest_of nodes s es) x ≡ root (forest_of nodes s es) y
  unfolding forest_of
  forest_keeps s [] h x y q = q
  forest_keeps s (e ∷ es) h x y q =
      let c = joins_switches nodes e in
      forest_keeps (step_if c s e) es (step-Settled c s e h) x y (step_keeps c s e h x y q)

  step_linked :
      (c : Bool) (s : Forest) (e : Edge)
      → c ≡ true
      → Settled s
      → root (step_if c s e) (node_of e.first) ≡ root (step_if c s e) (node_of e.second)
  step_linked true s e q h = step_joins s e h
  step_linked false s e q h = absurd (cc q)

  -- The ends of a link have the same root in the end.
  pub forest_links :
      (s : Forest) (es : List Edge)
      → Settled s
      → (e : Edge) → Memᴰ e es
      → joins_switches nodes e ≡ true
      → root (forest_of nodes s es) (node_of e.first)
        ≡ root (forest_of nodes s es) (node_of e.second)
  unfolding forest_of
  forest_links s [] h e m j = elim m [ ]
  forest_links s (x ∷ xs) h e (Memᴰ.head q) j =
      let c = joins_switches nodes x in
      let j' : joins_switches nodes x ≡ true = subst (λ y. joins_switches nodes y ≡ true) q j in
      let r =
        forest_keeps (step_if c s x) xs (step-Settled c s x h) (node_of x.first) (node_of x.second)
          (step_linked c s x j' h) in
      subst
        (λ (y : Edge).
          root (forest_of nodes s (x ∷ xs)) (node_of y.first)
          ≡ root (forest_of nodes s (x ∷ xs)) (node_of y.second))
        (sym q) r
  forest_links s (x ∷ xs) h e (Memᴰ.tail m) j =
      let c = joins_switches nodes x in forest_links (step_if c s x) xs (step-Settled c s x h) e m j

-- What the trees join is connected.
module _ (nodes : List (String × Node)) (all : List Edge) where
  abbrev Spanned : Forest → Type 0
  Spanned s = (x : String) → Connected nodes all x (root s x)

  moved-Connected :
      (a b ra rb x r : String)
      → Connected nodes all a b
      → Connected nodes all a ra
      → Connected nodes all b rb
      → Connected nodes all x r
      → Connected nodes all x (moved ra rb r)
  moved-Connected a b ra rb x r l ca cb cx = elim (Bool-cases (r == ra)) [
    | inl f ↦
        let m : moved ra rb r ≡ rb = rw f in
        let q = subst (λ y. Connected nodes all x y) (same_iff_eq r ra f) cx in
        subst (λ y. Connected nodes all x y) (sym m) (along q (along (back ca) (along l cb)))
    | inr f ↦ let m : moved ra rb r ≡ r = rw f in subst (λ y. Connected nodes all x y) (sym m) cx
  ]

  step-Spanned :
      (c : Bool) (s : Forest) (e : Edge)
      → (c ≡ true → Connected nodes all (node_of e.first) (node_of e.second))
      → Settled s
      → Spanned s
      → Spanned (step_if c s e)
  step-Spanned false s e l h p = p
  step-Spanned true s e l h p = λ x.
      let a = node_of e.first in
      let b = node_of e.second in
      let j = joined-Joined s a b h in
      subst (λ y. Connected nodes all x y) (sym (j.roots x))
        (moved-Connected a b (root s a) (root s b) x (root s x) (l refl) (p a) (p b) (p x))

  forest-Spanned :
      (s : Forest) (es : List Edge)
      → ((e : Edge) → Memᴰ e es → Memᴰ e all)
      → Settled s
      → Spanned s
      → Spanned (forest_of nodes s es)
  unfolding forest_of
  forest-Spanned s [] i h p = p
  forest-Spanned s (e ∷ es) i h p =
      let c = joins_switches nodes e in
      forest-Spanned (step_if c s e) es (λ x m. i x (Memᴰ.tail m)) (step-Settled nodes c s e h)
        (step-Spanned c s e (λ q. link e (i e (Memᴰ.head refl)) q) h p)

start-Settled : Settled start
unfolding climb
start-Settled x = refl

start-Spanned :
    (nodes : List (String × Node)) (all : List Edge) (x : String)
    → Connected nodes all x (root start x)
unfolding climb
start-Spanned nodes all x = self x

module _ (nodes : List (String × Node)) (es : List Edge) where
  -- The loop of `root` ends in its fuel: behind the loop over the edges each root is its own parent.
  pub root-Settled : Settled (forest_of nodes start es)
  root-Settled = forest-Settled nodes start es start-Settled

  agree :
      (x y : String)
      → Connected nodes es x y
      → root (forest_of nodes start es) x ≡ root (forest_of nodes start es) y
  agree x _ (self _) = refl
  agree _ _ (link e m j) = forest_links nodes start es start-Settled e m j
  agree x y (back c) = sym (agree y x c)
  agree x y (along {b = b} c d) = agree x b c ∙ agree b y d

  -- Two nodes have the same root where the links between switches connect them, and else not.
  pub same_tree_iff :
      (x y : String) → (same_tree (forest_of nodes start es) x y ≡ true) ↔ Connected nodes es x y
  same_tree_iff x y = (
    λ q.
        let p =
          forest-Spanned nodes es start es (λ e m. m) start-Settled (start-Spanned nodes es) in
        let s = forest_of nodes start es in
        along (subst (λ r. Connected nodes es x r) (same_iff_eq (root s x) (root s y) q) (p x))
          (back (p y)),
    λ c. ground (
      arith,
      eq_iff (root (forest_of nodes start es) x) (root (forest_of nodes start es) y),
      agree x y c,
    ),
  )
