-- ===== src/Topology/Switches/Unions.antt =====
-- One union of packages/lab-support/cpp/contracts.cpp: what it makes of the roots.
use Prim.Native.String.{String}
use text.Mathlib.Text.{◌==◌}
use text.Mathlib.TextEquality.{eq_iff}
use graphlab.Prelude.{◌≡◌, refl, sym, ◌∙◌, subst, inl, inr, Bool, true, false, Bool-cases, arith}
use graphlab.Topology.Switches.{Forest, point, root, union, joined}
use graphlab.Topology.Switches.Trees.{climb-suc, climb-point, moved, same_iff_eq}

-- Every loop of `root` ends at a root.
abbrev pub Settled : Forest → Type 0
Settled s = (x : String) → s.parent (root s x) ≡ root s x

-- What a step leaves.
pub record Joined (s : Forest) (a b : String) (t : Forest) : Type 0 where
  pub settled : Settled t
  pub roots : (x : String) → root t x ≡ moved (root s a) (root s b) (root s x)

same-moved : (a b x : String) → (a == b) ≡ true → x ≡ moved a b x
same-moved a b x e = elim (Bool-cases (x == a)) [
  | inl f ↦ same_iff_eq x b (ground (arith, eq_iff x a, eq_iff x b, eq_iff a b, e, f)) ∙ sym (rw f)
  | inr f ↦ sym (rw f)
]

-- A moved root is a root of the joined trees.
moved_root :
    (p : String → String) (a b x : String)
    → p b ≡ b
    → p x ≡ x
    → (a == b) ≡ false
    → point p a b (moved a b x) ≡ moved a b x
moved_root p a b x hb hx n = elim (Bool-cases (x == a)) [
  | inl f ↦
      let m : moved a b x ≡ b = rw f in
      let q : (b == a) ≡ false = ground (arith, n, eq_iff a b, eq_iff b a) in
      let o : point p a b b ≡ b = rw q hb in subst (λ y. point p a b y ≡ y) (sym m) o
  | inr f ↦
      let m : moved a b x ≡ x = rw f in
      let o : point p a b x ≡ x = rw f hx in subst (λ y. point p a b y ≡ y) (sym m) o
]

union-Joined :
    (s : Forest) (a b : String) (c : Bool)
    → (root s a == root s b) ≡ c
    → Settled s
    → Joined s a b (union s a b c)
union-Joined s a b true e h = record {
  settled = λ x. subst (λ y. s.parent y ≡ y) (sym (climb-suc s.parent s.depth x (h x))) (h x);
  roots = λ x. climb-suc s.parent s.depth x (h x) ∙ same-moved (root s a) (root s b) (root s x) e;
}
union-Joined s a b false e h =
    let r =
      λ (x : String). climb-point s.parent (root s a) (root s b) (h a) (h b) e s.depth x (h x) in
    record {
      settled = λ x.
          subst (λ y. point s.parent (root s a) (root s b) y ≡ y) (sym (r x))
            (moved_root s.parent (root s a) (root s b) (root s x) (h b) (h x) e);
      roots = r;
    }

pub joined-Joined : (s : Forest) (a b : String) → Settled s → Joined s a b (joined s a b)
unfolding joined
joined-Joined s a b h = union-Joined s a b (root s a == root s b) refl h
