-- ===== src/Planner/Plan/Kept.antt =====
-- Which step of a key the map of cpp/planner.cpp keeps, and what an order has behind a step.
use Prim.Native.String.{String}
use text.Mathlib.Text.{◌==◌}
use text.Mathlib.TextEquality.{eq_iff}
use graphlab.Prelude.{
  ◌≡◌, refl, sym, ap, subst, ◌∙◌, Bool, true, false, ◌||◌, List, [], ◌∷◌, ◌++◌ as append, map, some,
  All, Bool-cases, inl, inr, arith,
}
use graphlab.Runtime.Source.Store.{lookup}
use graphlab.Planner.Order.{Entry, mem, find}
use graphlab.Planner.Order.Facts.{mem-insert}
use graphlab.Planner.Order.Sound.{Ordered, taken_done}
use graphlab.Planner.Steps.{names, Step, sorted, add, add_all}
use graphlab.Planner.Plan.{entry}
use graphlab.Planner.Plan.Table.{found_behind}
use graphlab.Planner.Plan.Teardown.{none_missing}

-- A step as the map has it.
abbrev pub kept : Step → Step
kept s = record s { depends_on = sorted s.depends_on }

add_all-append :
    (xs ys : List Step) (steps : List (String × Step))
    → add_all (append xs ys) steps ≡ add_all ys (add_all xs steps)
unfolding add_all
add_all-append [] ys steps = refl
add_all-append (x ∷ xs) ys steps = add_all-append xs ys (add x steps)

add_other :
    (s : Step) (steps : List (String × Step)) (k : String)
    → (s.id == k) ≡ false
    → lookup (add s steps) k ≡ lookup steps k
add_other s steps k e = found_behind s steps k ∙ rw e refl

add_this : (s : Step) (steps : List (String × Step)) → lookup (add s steps) s.id ≡ some (kept s)
add_this s steps =
    let e : (s.id == s.id) ≡ true = ground (arith, eq_iff s.id s.id) in
    found_behind s steps s.id ∙ rw e refl

add_others :
    (ss : List Step) (steps : List (String × Step)) (k : String)
    → All (λ s. (s.id == k) ≡ false) ss
    → lookup (add_all ss steps) k ≡ lookup steps k
unfolding add_all
add_others [] steps k a = refl
add_others (s ∷ ss) steps k a = add_others ss (add s steps) k a.1 ∙ add_other s steps k a.0

-- The call of a key that none behind it has is the one that the map keeps.
pub lookup-calls :
    (xs ys : List Step) (s : Step)
    → All (λ c. (c.id == s.id) ≡ false) ys
    → lookup (add_all (append xs (s ∷ ys)) []) s.id ≡ some (kept s)
unfolding add_all
lookup-calls xs ys s a =
    ap (λ l. lookup l s.id) (add_all-append xs (s ∷ ys) [])
    ∙ add_others ys (add s (add_all xs [])) s.id a
    ∙ add_this s (add_all xs [])

pub find-lookup :
    (es : List (String × Step)) (k : String) (s : Step)
    → lookup es k ≡ some s
    → find names k (map entry es) ≡ some (entry (k, s))
find-lookup [] k s h = absurd (cc h)
find-lookup (e ∷ es) k s h = elim (Bool-cases (e.0 == k)) [
  | inl c ↦
      let q : (k == e.0) ≡ true = ground (arith, eq_iff k e.0, eq_iff e.0 k, c) in
      let l : lookup (e ∷ es) k ≡ some e.1 = rw c in
      let same : e.1 ≡ s = step_inj (sym l ∙ h) in
      let f : find names k (map entry (e ∷ es)) ≡ some (entry e) = rw q in
      f ∙ ap (λ y. some (entry (y, e.1))) ((eq_iff e.0 k).0 c) ∙ ap (λ y. some (entry (k, y))) same
  | inr c ↦
      let q : (k == e.0) ≡ false = ground (arith, eq_iff k e.0, eq_iff e.0 k, c) in
      let l : lookup (e ∷ es) k ≡ lookup es k = rw c in
      let f : find names k (map entry (e ∷ es)) ≡ find names k (map entry es) = rw q in
      f ∙ find-lookup es k s (sym l ∙ h)
]
  where
    step_inj : {a b : Step} → some a ≡ some b → a ≡ b
    step_inj h = cc h

pub mem-sorted :
    (k : String) (ds : List String) → mem names k ds ≡ true → mem names k (sorted ds) ≡ true
mem-sorted k [] h = h
mem-sorted k (d ∷ ds) h = elim (Bool-cases (k == d)) [
  | inl e ↦ mem-insert names k d (sorted ds) ∙ ground (arith, e)
  | inr e ↦
      let r = mem-sorted k ds (ground (arith, h, e)) in
      mem-insert names k d (sorted ds) ∙ ground (arith, r)
]

pub or_left : (a b : Bool) → a ≡ true → (a || b) ≡ true
or_left a b h = ground (arith, h)

pub or_right : (a b : Bool) → b ≡ true → (a || b) ≡ true
or_right a b h = ground (arith, h)

module _ (entries : List (Entry names)) where
  Ordered-append :
      (xs ys : List String) → Ordered names entries (append xs ys) → Ordered names entries ys
  Ordered-append [] ys s = s
  Ordered-append (x ∷ xs) ys s = Ordered-append xs ys s.2

  -- In an order, what a step depends on stands behind it.
  dependency_behind :
      (xs ys : List String) (x d : String) (e : Entry names)
      → Ordered names entries (append xs (x ∷ ys))
      → find names x entries ≡ some e
      → mem names d e.depends_on ≡ true
      → mem names d ys ≡ true
  dependency_behind xs ys x d e s f m =
      let t = Ordered-append xs (x ∷ ys) s in
      let same : e ≡ t.1.step = entry_inj (sym f ∙ t.1.known) in
      none_missing ys t.1.step.depends_on d t.1.met
        (subst (λ (z : Entry names). mem names d z.depends_on ≡ true) same m)
    where
      entry_inj : {a b : Entry names} → some a ≡ some b → a ≡ b
      entry_inj h = cc h

  -- And what a step behind it depends on.
  behind_again :
      (o : List String) (x d : String) (e : Entry names)
      → Ordered names entries o
      → mem names x o ≡ true
      → find names x entries ≡ some e
      → mem names d e.depends_on ≡ true
      → mem names d o ≡ true
  behind_again o x d e s m f k =
      none_missing o e.depends_on d (taken_done names entries x o e s m f) k

  -- Two steps on.
  pub chain_behind :
      (xs ys : List String) (x b d : String) (e g : Entry names)
      → Ordered names entries (append xs (x ∷ ys))
      → find names x entries ≡ some e
      → mem names b e.depends_on ≡ true
      → find names b entries ≡ some g
      → mem names d g.depends_on ≡ true
      → mem names d ys ≡ true
  chain_behind xs ys x b d e g s f m h n =
      behind_again ys b d g (Ordered-append xs (x ∷ ys) s).2 (dependency_behind xs ys x b e s f m) h
        n
