-- ===== src/Topology/Switches/Trees.antt =====
-- The trees of the union-find of packages/lab-support/cpp/contracts.cpp.
use Prim.Native.String.{String}
use text.Mathlib.Text.{◌==◌}
use text.Mathlib.TextEquality.{eq_iff}
use graphlab.Prelude.{
  ℕ, zero, suc, ◌≡◌, refl, sym, ap, ◌∙◌, subst, true, false, if◌then◌else◌, Bool-cases, inl, inr,
  arith,
}
use graphlab.Topology.Switches.{climb, point}

pub same_true : (x : String) → (x == x) ≡ true
same_true x = ground (arith, eq_iff x x)

pub same_iff_eq : (a b : String) → (a == b) ≡ true → a ≡ b
same_iff_eq a b e = ground (arith, eq_iff a b, e)

module _ (p : String → String) where
  climb_root : (k : ℕ) (x : String) → (p x == x) ≡ true → climb p (suc k) x ≡ x
  unfolding climb
  climb_root k x e = rw e

  climb_up : (k : ℕ) (x : String) → (p x == x) ≡ false → climb p (suc k) x ≡ climb p k (p x)
  unfolding climb
  climb_up k x e = rw e

  climb_none : (x : String) → climb p zero x ≡ x
  unfolding climb
  climb_none x = refl

  -- A climb that ended at a root ends there with one step more.
  pub climb-suc :
      (k : ℕ) (x : String) → p (climb p k x) ≡ climb p k x → climb p (suc k) x ≡ climb p k x
  climb-suc zero x h =
      let e : p x ≡ x = subst (λ r. p r ≡ r) (climb_none x) h in
      climb_root 0 x (ground (arith, eq_iff (p x) x, e)) ∙ sym (climb_none x)
  climb-suc (suc k) x h = elim (Bool-cases (p x == x)) [
    | inl e ↦ climb_root (suc k) x e ∙ sym (climb_root k x e)
    | inr e ↦
        let u = climb_up k x e in
        climb_up (suc k) x e ∙ climb-suc k (p x) (subst (λ r. p r ≡ r) u h) ∙ sym u
  ]

-- What `union` does to a root.
abbrev pub moved : String → String → String → String
moved a b r = if r == a then b else r

module _ (p : String → String) (a b : String) (at_a : p a ≡ a) (at_b : p b ≡ b)
    (n : (a == b) ≡ false) where
  point_at : point p a b a ≡ b
  point_at = rw (same_true a)

  point_off : (x : String) → (x == a) ≡ false → point p a b x ≡ p x
  point_off x e = rw e

  climb_b : (j : ℕ) → climb (point p a b) j b ≡ b
  climb_b zero = climb_none (point p a b) b
  climb_b (suc j) =
      let e : point p a b b ≡ b = point_off b (ground (arith, n, eq_iff a b, eq_iff b a)) ∙ at_b in
      climb_root (point p a b) j b (ground (arith, eq_iff (point p a b b) b, e))

  climb_a : (j : ℕ) → climb (point p a b) (suc j) a ≡ b
  climb_a j =
      let u =
        climb_up (point p a b) j a (rw (point_at) (ground (arith, n, eq_iff a b, eq_iff b a))) in
      u ∙ ap (climb (point p a b) j) point_at ∙ climb_b j

  climb_at_root : (j : ℕ) (x : String) → p x ≡ x → climb (point p a b) (suc j) x ≡ moved a b x
  climb_at_root j x h = elim (Bool-cases (x == a)) [
    | inl e ↦
        let q : moved a b x ≡ b = rw e in
        ap (climb (point p a b) (suc j)) (same_iff_eq x a e) ∙ climb_a j ∙ sym q
    | inr e ↦
        let q : moved a b x ≡ x = rw e in
        let o : point p a b x ≡ x = point_off x e ∙ h in
        climb_root (point p a b) j x (ground (arith, eq_iff (point p a b x) x, o)) ∙ sym q
  ]

  -- A climb behind a union, with one step more, ends at the root of the joined tree.
  pub climb-point :
      (k : ℕ) (x : String)
      → p (climb p k x) ≡ climb p k x
      → climb (point p a b) (suc k) x ≡ moved a b (climb p k x)
  climb-point zero x h =
      let u = climb_none p x in
      climb_at_root 0 x (subst (λ r. p r ≡ r) u h) ∙ ap (moved a b) (sym u)
  climb-point (suc k) x h = elim (Bool-cases (p x == x)) [
    | inl e ↦
        climb_at_root (suc k) x (same_iff_eq (p x) x e) ∙ ap (moved a b) (sym (climb_root p k x e))
    | inr e ↦
        let u = climb_up p k x e in
        let away : (x == a) ≡ false = ground (arith, eq_iff x a, eq_iff (p x) x, at_a, e) in
        let o : point p a b x ≡ p x = point_off x away in
        climb_up (point p a b) (suc k) x (rw (o, e))
        ∙ ap (climb (point p a b) (suc k)) o
        ∙ climb-point k (p x) (subst (λ r. p r ≡ r) u h)
        ∙ ap (moved a b) (sym u)
  ]
