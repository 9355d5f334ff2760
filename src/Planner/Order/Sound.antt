-- ===== src/Planner/Order/Sound.antt =====
-- The ordering takes every step behind the steps that it depends on.
pub mod Loop
use native.Mathlib.Nat.{mod-eq_of_lt}
use graphlab.Prelude.{
  ℕ, zero, suc, ◌+◌, ◌-◌, ◌%◌, ◌^◌, ◌≤◌, ◌<◌, ◌≡◌, ◌≢◌, ◌⊎◌, refl, ap, sym, ◌∙◌, Bool, true, false,
  not, ◌&&◌, ◌||◌, List, [], ◌∷◌, ◌++◌, Option, none, some, ◌==◌, if◌then◌else◌, length, arith,
  Bool-cases, inl, inr, Option-cases,
}
use graphlab.Planner.Order.{Keys, Entry, Graph, mem, find, release, minus_one, drain}
use graphlab.Planner.Order.Facts.{
  Distinct, AllDistinct, ids, users, uses, eq_refl, eq_sym, mem_eq, mem-users, users-Distinct,
  release-remaining, release-ready, release-Distinct,
}

module _ (k : Keys) where
  open k use {Key, eq, eq_iff}

  -- How many of the keys `ds` are not among the steps taken.
  abbrev pub missing : List Key → List Key → ℕ
  missing o [] = 0
  missing o (d ∷ ds) = let rest = missing o ds in if mem k d o then rest else suc rest

  pub missing_le : (o ds : List Key) → missing o ds ≤ length ds
  missing_le o [] = omega arith
  missing_le o (d ∷ ds) = ground (arith, missing_le o ds)

  missing_same :
      (x : Key) (o ds : List Key) → mem k x ds ≡ false → missing (x ∷ o) ds ≡ missing o ds
  missing_same x o [] h = refl
  missing_same x o (d ∷ ds) h = ground (arith, missing_same x o ds, eq_sym k d x)

  abbrev one_if : Bool → ℕ
  one_if true = 1
  one_if false = 0

  pub missing_cons :
      (x : Key) (o ds : List Key)
      → Distinct k ds
      → mem k x o ≡ false
      → missing (x ∷ o) ds + one_if (mem k x ds) ≡ missing o ds
  missing_cons x o [] h n = omega arith
  missing_cons x o (d ∷ ds) h n = ground (
    arith,
    missing_cons x o ds h.1 n,
    missing_same x o ds,
    eq_sym k d x,
    mem_eq k x d ds,
    mem_eq k d x o,
  )

  pub missing_mono : (x : Key) (o ds : List Key) → missing (x ∷ o) ds ≤ missing o ds
  missing_mono x o [] = omega arith
  missing_mono x o (d ∷ ds) = ground (arith, missing_mono x o ds)

  -- How many steps are left to take.
  abbrev pub pending : List Key → List (Entry k) → ℕ
  pending o [] = 0
  pending o (e ∷ es) = let rest = pending o es in if mem k e.id o then rest else suc rest

  pending_same :
      (x : Key) (o : List Key) (es : List (Entry k))
      → mem k x (ids k es) ≡ false
      → pending (x ∷ o) es ≡ pending o es
  pending_same x o [] h = refl
  pending_same x o (e ∷ es) h = ground (arith, pending_same x o es, eq_sym k e.id x)

  pub pending_cons :
      (x : Key) (o : List Key) (es : List (Entry k)) (s : Entry k)
      → Distinct k (ids k es)
      → find k x es ≡ some s
      → mem k x o ≡ false
      → pending o es ≡ suc (pending (x ∷ o) es)
  pending_cons x o [] s h f n = cc
  pending_cons x o (e ∷ es) s h f n = ground (
    arith,
    pending_cons x o es s h.1,
    pending_same x o es,
    eq_sym k e.id x,
    mem_eq k x e.id (ids k es),
    mem_eq k e.id x o,
  )

  pub pending_nil : (es : List (Entry k)) → pending [] es ≡ length es
  pending_nil [] = refl
  pending_nil (e ∷ es) = ap suc (pending_nil es)

  module _ (steps : List (Entry k)) where
    -- `x` is a step whose dependencies are all among the steps `o`.
    pub record Due (x : Key) (o : List Key) : Type 0 where
      pub step : Entry k
      pub known : find k x steps ≡ some step
      pub met : missing o step.depends_on ≡ 0

    -- Latest step first: each step once, behind all that it depends on.
    abbrev pub Ordered : List Key → Type 0
    Ordered [] = Unit
    Ordered (x ∷ o) = (mem k x o ≡ false) × Due x o × Ordered o

    abbrev pub is_open : List Key → Key → Option (Entry k) → Bool
    is_open o x none = false
    is_open o x (some e) = not (mem k x o) && (missing o e.depends_on == 0)

    pub record Inv (o : List Key) (remaining : Key → ℕ) (ready : List Key) : Type 0 where
      pub counts :
          (x : Key) (e : Entry k) → find k x steps ≡ some e → remaining x ≡ missing o e.depends_on
      pub opened : (x : Key) → mem k x ready ≡ is_open o x (find k x steps)
      pub distinct : Distinct k ready
      pub sorted : Ordered o
      pub left : length o + pending o steps ≡ length steps

    -- A step that was taken has no dependency left.
    pub taken_done :
        (y : Key) (o : List Key) (e : Entry k)
        → Ordered o
        → mem k y o ≡ true
        → find k y steps ≡ some e
        → missing o e.depends_on ≡ 0
    taken_done y [] e s m f = cc
    taken_done y (x ∷ o) e s m f = elim (Bool-cases (eq y x)) [
      | inl c ↦
          let f' : find k x steps ≡ some e = rw (sym ((eq_iff y x).0 c)) f in
          let same : e ≡ s.1.step = cc (f', s.1.known) in
          omega
            (arith, ap (λ z. missing o z.depends_on) same, s.1.met, missing_mono x o e.depends_on)
      | inr c ↦
          let m' : mem k y o ≡ true = ground (arith, m, c) in
          omega (arith, taken_done y o e s.2 m' f, missing_mono x o e.depends_on)
    ]
