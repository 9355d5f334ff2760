-- ===== src/Planner/Order/Results.antt =====
-- What the ordering returns: `order` of Planner/Order.antt on the steps of a plan.
use graphlab.Prelude.{
  ℕ, zero, suc, ◌<◌, ◌≡◌, ◌⊎◌, refl, ap, sym, ◌∙◌, true, false, not, ◌&&◌, List, [], ◌∷◌, Option,
  none, some, ◌==◌, if◌then◌else◌, length, All, arith, Bool-cases, inl, inr, Option-cases,
}
use graphlab.Planner.Order.{
  Keys, Entry, Outcome, ordered, resource_dependency_cycle, mem, find, collect, drain, order, empty,
  Graph,
}
use graphlab.Planner.Order.Facts.{eq_refl, ids, find-All}
use graphlab.Planner.Order.Invariant.{Found, AllFound, Collected, needed, is_free, collected}
use graphlab.Planner.Order.Sound.{missing, pending, pending_nil, Ordered, Inv, is_open}
use graphlab.Planner.Order.Sound.Loop.{Wf, drain-Inv}

module _ (k : Keys) (steps : List (Entry k)) where
  open k use {Key, eq, eq_iff}

  -- Some taken steps, with nothing ready behind them.
  abbrev Drained : List Key → Type 0
  Drained o = (f : Key → ℕ) × Inv k steps o f []

  abbrev counted : List Key → Outcome k
  counted o = if length o == length steps then ordered o else resource_dependency_cycle

  missing_nil : (ds : List Key) → missing k [] ds ≡ length ds
  missing_nil [] = refl
  missing_nil (d ∷ ds) = ap suc (missing_nil ds)

  free_open : (x : Key) (s : Option (Entry k)) → is_free k steps s ≡ is_open k steps [] x s
  free_open x none = refl
  free_open x (some e) = rw (missing_nil e.depends_on)

  collected-Inv :
      (h : Graph k) → Collected k steps steps (empty k) h → Inv k steps [] h.remaining h.ready
  collected-Inv h t = record {
    counts = λ x e s. t.remaining x ∙ (ap (needed k steps 0) s ∙ sym (missing_nil e.depends_on));
    opened = λ x. t.ready x ∙ free_open x (find k x steps);
    distinct = t.distinct;
    sorted = tt;
    left = omega (arith, pending_nil k steps);
  }

  order-Drained :
      Wf k steps → AllFound k steps steps → (o : List Key) × (order k steps ≡ counted o) × Drained o
  unfolding order
  order-Drained w f =
      let (h, p, t) = collected k steps steps (empty k) f w.single w.unique tt in
      let (o, q, d) =
        drain-Inv k steps w (length steps) h.dependents [] h.remaining h.ready t.dependents
          (omega (arith, pending_nil k steps)) (collected-Inv h t) in
      (o, rw (p, collect) (rw (q, drain)), d)

  counted_all : (o : List Key) → length o ≡ length steps → counted o ≡ ordered o
  counted_all o e = rw e (ground arith)

  -- Each step that the code found comes once, behind all its dependencies.
  abbrev pub IsSorted : List Key → Type 0
  IsSorted o = Ordered k steps o × (length o ≡ length steps)

  -- Steps with unique names, whose dependencies are distinct, present and fewer than 2^64 each, are
  -- either put in an order that holds each step once, behind all its dependencies, and leaves out
  -- none, or reported as a resource dependency cycle; no dependency is reported missing.
  pub order-IsSorted_or_cycle :
      Wf k steps
      → AllFound k steps steps
      → ((o : List Key) × (order k steps ≡ ordered o) × IsSorted o)
        ⊎ (order k steps ≡ resource_dependency_cycle)
  order-IsSorted_or_cycle w f =
      let (o, p, d) = order-Drained w f in
      elim (Bool-cases (length o == length steps)) [
        | inl e ↦
            let l : length o ≡ length steps = ground (arith, e) in
            inl (o, p ∙ counted_all o l, (d.1.sorted, l))
        | inr e ↦ inr (p ∙ rw e)
      ]

  module _ (rank : Key → ℕ) where
    -- The keys rank below `n`.
    abbrev pub Below : ℕ → List Key → Type 0
    Below n = All (λ d. rank d < n)

    -- Every dependency ranks below its step: there is no cycle.
    abbrev pub Ranked : Type 0
    Ranked = All (λ (e : Entry k). Below (rank e.id) e.depends_on) steps

    find-id : (x : Key) (es : List (Entry k)) (e : Entry k) → find k x es ≡ some e → x ≡ e.id
    find-id x [] e f = cc
    find-id x (d ∷ es) e f = elim (Bool-cases (eq x d.id)) [
      | inl c ↦
          let g : find k x (d ∷ es) ≡ some d = rw c in
          let same : d ≡ e = cc (f, g) in (eq_iff x d.id).0 c ∙ ap (λ (z : Entry k). z.id) same
      | inr c ↦ let g : find k x (d ∷ es) ≡ find k x es = rw c in find-id x es e (sym g ∙ f)
    ]

    met-Below :
        (n : ℕ) (o ds : List Key)
        → ((d : Key) (e : Entry k) → rank d < n → find k d steps ≡ some e → mem k d o ≡ true)
        → Found k steps ds
        → Below n ds
        → missing k o ds ≡ 0
    met-Below n o [] t f b = refl
    met-Below n o (d ∷ ds) t f b = elim (Option-cases (find k d steps)) [
      | inl e ↦ absurd (f.0 e)
      | inr (s, e) ↦ rw (t d s b.0 e) (met-Below n o ds t f.1 b.1)
    ]

    taken_all :
        (n : ℕ) (o : List Key)
        → AllFound k steps steps
        → Ranked
        → Drained o
        → (x : Key) (e : Entry k) → rank x < n
        → find k x steps ≡ some e
        → mem k x o ≡ true
    taken_all zero o f r d x e l s = absurd (omega arith)
    taken_all (suc n) o f r d x e l s =
        let m : missing k o e.depends_on ≡ 0 =
          met-Below (rank x) o e.depends_on
            (λ y t u v. taken_all n o f r d y t (omega (arith, u, l)) v)
            (find-All k _ steps x e f s) (rw (find-id x steps e s) (find-All k _ steps x e r s)) in
        let z : false ≡ (not (mem k x o) && (missing k o e.depends_on == 0)) =
          d.1.opened x ∙ ap (is_open k steps o x) s in
        ground (arith, z, m)

    pending_none :
        (o : List Key) (es : List (Entry k))
        → ((x : Key) → mem k x (ids k es) ≡ true → mem k x o ≡ true)
        → pending k o es ≡ 0
    pending_none o [] h = refl
    pending_none o (e ∷ es) h =
        rw (h e.id (ground (arith, eq_refl k e.id)))
          (pending_none o es (λ x m. h x (ground (arith, m))))

    find_id :
        (x : Key) (es : List (Entry k))
        → mem k x (ids k es) ≡ true
        → (e : Entry k) × (find k x es ≡ some e)
    find_id x [] m = cc
    find_id x (e ∷ es) m = elim (Bool-cases (eq x e.id)) [
      | inl c ↦ (e, rw c)
      | inr c ↦ let (d, f) = find_id x es (ground (arith, m, c)) in (d, rw c f)
    ]

    -- Steps with unique names, dependencies that are distinct, present and fewer than 2^64 each,
    -- and a rank that falls along every dependency are put in an order that holds each step once,
    -- behind all its dependencies, and leaves out none.
    pub order-IsSorted :
        Wf k steps
        → AllFound k steps steps
        → Ranked
        → (o : List Key) × (order k steps ≡ ordered o) × IsSorted o
    order-IsSorted w f r =
        let (o, p, d) = order-Drained w f in
        let n : pending k o steps ≡ 0 = pending_none o steps (λ x m.
          let (e, s) = find_id x steps m in taken_all (suc (rank x)) o f r d x e (omega arith) s) in
        let l : length o ≡ length steps = omega (arith, n, d.1.left) in
        (o, p ∙ counted_all o l, (d.1.sorted, l))
