-- ===== src/Planner/Plan/Teardown.antt =====
-- The order of the teardown of cpp/planner.cpp.
use Prim.Native.String.{String}
use text.Mathlib.Text.{◌==◌}
use text.Mathlib.TextEquality.{eq_iff}
use graphlab.Prelude.{
  ◌≡◌, sym, ap, subst, ◌∙◌, true, false, List, [], ◌∷◌, ◌++◌, some, map, Bool-cases, inl, inr,
  arith,
}
use graphlab.Runtime.Source.Store.{lookup}
use graphlab.Planner.Order.{Entry, mem, find}
use graphlab.Planner.Order.Sound.{Ordered, Due, missing}
use graphlab.Planner.Steps.{names, Step}
use graphlab.Planner.Plan.{entry, undone, teardown}

-- What none of is missing holds each of them.
pub none_missing :
    (o ds : List String) (d : String)
    → missing names o ds ≡ 0
    → mem names d ds ≡ true
    → mem names d o ≡ true
none_missing o [] d h m = absurd (cc m)
none_missing o (x ∷ xs) d h m = elim (Bool-cases (mem names x o)) [
  | inl c ↦ elim (Bool-cases (d == x)) [
    | inl e ↦ ap (λ y. mem names y o) ((eq_iff d x).0 e) ∙ c
    | inr e ↦ none_missing o xs d (left_over c h) (ground (arith, m, e))
  ]
  | inr c ↦ absurd (too_many c h)
]
  where
    left_over : mem names x o ≡ true → missing names o (x ∷ xs) ≡ 0 → missing names o xs ≡ 0
    left_over c h = ground (arith, c, h)

    too_many : mem names x o ≡ false → missing names o (x ∷ xs) ≡ 0 → ⊥
    too_many c h = ground (arith, c, h)

cons_head : {a b : String} {xs ys : List String} → a ∷ xs ≡ b ∷ ys → a ≡ b
cons_head h = cc h

cons_tail : {a b : String} {xs ys : List String} → a ∷ xs ≡ b ∷ ys → xs ≡ ys
cons_tail h = cc h

module _ (steps : List (String × Step)) where
  abbrev entries : List (Entry names)
  entries = map entry steps

  torn :
      (k : String) (ks : List String)
      → undone (lookup steps k) ≡ true
      → teardown steps (k ∷ ks) ≡ k ∷ teardown steps ks
  torn k ks c = rw c

  passed :
      (k : String) (ks : List String)
      → undone (lookup steps k) ≡ false
      → teardown steps (k ∷ ks) ≡ teardown steps ks
  passed k ks c = rw c

  -- What stands behind a step in the teardown is the teardown of what stands behind it in the order.
  split_teardown :
      (o xs ys : List String) (x : String)
      → Ordered names entries o
      → teardown steps o ≡ xs ++ x ∷ ys
      → (rest : List String) × Due names entries x rest × (ys ≡ teardown steps rest)
  split_teardown [] [] ys x s h = absurd (cc h)
  split_teardown [] (z ∷ xs) ys x s h = absurd (cc h)
  split_teardown (k ∷ ks) [] ys x s h = elim (Bool-cases (undone (lookup steps k))) [
    | inl c ↦
        let q = sym (torn k ks c) ∙ h in
        (ks, subst (λ y. Due names entries y ks) (cons_head q) s.1, sym (cons_tail q))
    | inr c ↦ split_teardown ks [] ys x s.2 (sym (passed k ks c) ∙ h)
  ]
  split_teardown (k ∷ ks) (z ∷ xs) ys x s h = elim (Bool-cases (undone (lookup steps k))) [
    | inl c ↦ split_teardown ks xs ys x s.2 (cons_tail (sym (torn k ks c) ∙ h))
    | inr c ↦ split_teardown ks (z ∷ xs) ys x s.2 (sym (passed k ks c) ∙ h)
  ]

  mem-teardown :
      (o : List String) (d : String)
      → mem names d o ≡ true
      → undone (lookup steps d) ≡ true
      → mem names d (teardown steps o) ≡ true
  mem-teardown [] d m u = absurd (cc m)
  mem-teardown (k ∷ ks) d m u = elim (Bool-cases (d == k)) [
    | inl e ↦
        let u' : undone (lookup steps k) ≡ true =
          ap (λ y. undone (lookup steps y)) (sym ((eq_iff d k).0 e)) ∙ u in
        ap (mem names d) (torn k ks u') ∙ ground (arith, e)
    | inr e ↦ behind k ks d (mem-teardown ks d (ground (arith, m, e)) u)
  ]
    where
      behind :
          (k : String) (ks : List String) (d : String)
          → mem names d (teardown steps ks) ≡ true
          → mem names d (teardown steps (k ∷ ks)) ≡ true
      behind k ks d h = elim (Bool-cases (undone (lookup steps k))) [
        | inl c ↦ ap (mem names d) (torn k ks c) ∙ ground (arith, h)
        | inr c ↦ ap (mem names d) (passed k ks c) ∙ h
      ]

  -- In the teardown of an order, what a step depends on stands behind the step, where it is undone at all.
  pub teardown-Ordered :
      (o xs ys : List String) (x d : String) (e : Entry names)
      → Ordered names entries o
      → teardown steps o ≡ xs ++ x ∷ ys
      → find names x entries ≡ some e
      → mem names d e.depends_on ≡ true
      → undone (lookup steps d) ≡ true
      → mem names d ys ≡ true
  teardown-Ordered o xs ys x d e s h f m u =
      let (rest, due, q) = split_teardown o xs ys x s h in
      let same : due.step ≡ e = entry_inj (sym due.known ∙ f) in
      let m' : mem names d due.step.depends_on ≡ true =
        subst (λ (z : Entry names). mem names d z.depends_on ≡ true) (sym same) m in
      ap (mem names d) q
      ∙ mem-teardown rest d (none_missing rest due.step.depends_on d due.met m') u
    where
      entry_inj : {a b : Entry names} → some a ≡ some b → a ≡ b
      entry_inj h = cc h
