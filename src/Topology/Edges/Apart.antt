-- ===== src/Topology/Edges/Apart.antt =====
-- The edges that packages/lab-support/cpp/contracts.cpp accepts share no endpoint and no name.
use Prim.Native.String.{String}
use text.Mathlib.TextEquality.{eq_iff}
use mathlib.Core.List.{Memᴰ}
use graphlab.Prelude.{
  ◌≡◌, ◌≢◌, sym, ap, subst, ◌∙◌, ◌⊎◌, inl, inr, Bool, true, false, List, [], ◌∷◌, arith,
}
use graphlab.Topology.Json.{mem}
use graphlab.Topology.Nodes.{Node}
use graphlab.Topology.Edges.{Edge}
use graphlab.Topology.Edges.Accepted.{AllAccepted}

-- Nothing in common, and no link of a port with itself.
pub record Apart (e f : Edge) : Type 0 where
  pub ids : e.id ≢ f.id
  pub first_first : e.first ≢ f.first
  pub first_second : e.first ≢ f.second
  pub second_first : e.second ≢ f.first
  pub second_second : e.second ≢ f.second

Apart-sym : (e f : Edge) → Apart e f → Apart f e
Apart-sym e f a = record {
  ids = λ p. a.ids (sym p);
  first_first = λ p. a.first_first (sym p);
  first_second = λ p. a.second_first (sym p);
  second_first = λ p. a.first_second (sym p);
  second_second = λ p. a.second_second (sym p);
}

pub mem-cons : (k x : String) (xs : List String) → mem k xs ≡ true → mem k (x ∷ xs) ≡ true
mem-cons k x xs h = ground (arith, h)

pub mem_here : (k : String) (xs : List String) → mem k (k ∷ xs) ≡ true
mem_here k xs = ground (arith, eq_iff k k)

-- What is among the used ones is no endpoint of an edge accepted later.
pub unlike : (k x : String) (used : List String) → mem k used ≡ true → mem x used ≡ false → k ≢ x
unlike k x used h n p = cc (ap (λ y. mem y used) p, h, n)

unlike_cons :
    (k x y : String) (used : List String) → mem k used ≡ true → mem x (y ∷ used) ≡ false → k ≢ x
unlike_cons k x y used h n = unlike k x (y ∷ used) (mem-cons k y used h) n

later :
    (nodes : List (String × Node)) (rstp : Bool) (ids used : List String) (es : List Edge)
    (e f : Edge)
    → AllAccepted nodes rstp ids used es
    → mem e.id ids ≡ true
    → mem e.first used ≡ true
    → mem e.second used ≡ true
    → Memᴰ f es
    → Apart e f
later nodes rstp ids used [] e f a i u w m = elim m [ ]
later nodes rstp ids used (x ∷ xs) e f a i u w (Memᴰ.head q) =
    let here : Apart e x = record {
      ids = unlike e.id x.id ids i a.0.fresh;
      first_first = unlike e.first x.first used u a.0.unused.0;
      first_second = unlike_cons e.first x.second x.first used u a.0.unused.1;
      second_first = unlike e.second x.first used w a.0.unused.0;
      second_second = unlike_cons e.second x.second x.first used w a.0.unused.1;
    } in
    subst (Apart e) (sym q) here
later nodes rstp ids used (x ∷ xs) e f a i u w (Memᴰ.tail m) =
    later nodes rstp (x.id ∷ ids) (x.second ∷ x.first ∷ used) xs e f a.1 (mem-cons e.id x.id ids i)
      (mem-cons e.first x.second (x.first ∷ used) (mem-cons e.first x.first used u))
      (mem-cons e.second x.second (x.first ∷ used) (mem-cons e.second x.first used w)) m

behind :
    (nodes : List (String × Node)) (rstp : Bool) (ids used : List String) (es : List Edge)
    (x f : Edge)
    → AllAccepted nodes rstp ids used (x ∷ es)
    → Memᴰ f es
    → Apart x f
behind nodes rstp ids used es x f a m =
    later nodes rstp (x.id ∷ ids) (x.second ∷ x.first ∷ used) es x f a.1 (mem_here x.id ids)
      (mem-cons x.first x.second (x.first ∷ used) (mem_here x.first used))
      (mem_here x.second (x.first ∷ used)) m

-- Of two edges of an accepted list, either both are one, or they have different names and share no
-- endpoint.
pub same_or-Apart :
    (nodes : List (String × Node)) (rstp : Bool) (ids used : List String) (es : List Edge)
    (e f : Edge)
    → AllAccepted nodes rstp ids used es
    → Memᴰ e es
    → Memᴰ f es
    → (e ≡ f) ⊎ Apart e f
same_or-Apart nodes rstp ids used [] e f a m n = elim m [ ]
same_or-Apart nodes rstp ids used (x ∷ xs) e f a (Memᴰ.head p) (Memᴰ.head q) = inl (p ∙ sym q)
same_or-Apart nodes rstp ids used (x ∷ xs) e f a (Memᴰ.head p) (Memᴰ.tail n) =
    inr (subst (λ y. Apart y f) (sym p) (behind nodes rstp ids used xs x f a n))
same_or-Apart nodes rstp ids used (x ∷ xs) e f a (Memᴰ.tail m) (Memᴰ.head q) =
    inr (subst (Apart e) (sym q) (Apart-sym x e (behind nodes rstp ids used xs x e a m)))
same_or-Apart nodes rstp ids used (x ∷ xs) e f a (Memᴰ.tail m) (Memᴰ.tail n) =
    same_or-Apart nodes rstp (x.id ∷ ids) (x.second ∷ x.first ∷ used) xs e f a.1 m n
