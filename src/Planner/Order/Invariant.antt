-- ===== src/Planner/Order/Invariant.antt =====
-- What the ordering knows between two steps: the counts, the ready set, and the steps taken.
use graphlab.Prelude.{
  ℕ, ◌≡◌, ◌≢◌, refl, ap, sym, ◌∙◌, Bool, true, false, ◌&&◌, ◌||◌, List, [], ◌∷◌, ◌++◌, Option, none,
  some, ◌==◌, if◌then◌else◌, length, All, arith, Bool-cases, inl, inr, Option-cases, append-nil,
  append_assoc,
}
use graphlab.Planner.Order.{Keys, Entry, Graph, mem, find, update, insert, link, note, collect}
use graphlab.Planner.Order.Facts.{
  Distinct, AllDistinct, ids, users, mem_eq, find-ids, mem_if, if-Distinct,
}

module _ (k : Keys) (steps : List (Entry k)) where
  open k use {Key, eq, eq_iff}

  -- The steps named by `ds` are there.
  abbrev pub Found : List Key → Type 0
  Found [] = Unit
  Found (d ∷ ds) = (find k d steps ≢ none) × Found ds

  abbrev pub AllFound : List (Entry k) → Type 0
  AllFound = All (λ e. Found e.depends_on)

  linked :
      (id : Key) (ds : List Key) (m : Key → List Key)
      → Found ds
      → Distinct k ds
      → (m' : Key → List Key) × (link k steps id ds m ≡ some m')
        × ((x : Key) → m' x ≡ (if mem k x ds then m x ++ id ∷ [] else m x))
  unfolding link
  linked id [] m f h = (m, refl, λ x. refl)
  linked id (d ∷ ds) m f h = elim (Option-cases (find k d steps)) [
    | inl e ↦ absurd (f.0 e)
    | inr (s, e) ↦
        let (m', p, q) = linked id ds (update k m d (m d ++ id ∷ [])) f.1 h.1 in
        (
          m',
          rw (e, link) p,
          λ x. q x ∙ elim (Bool-cases (eq x d)) [
            | inl c ↦
                let n : mem k x ds ≡ false = mem_eq k x d ds c ∙ h.0 in
                rw (n, c) (ap (λ y. m y ++ id ∷ []) (sym ((eq_iff x d).0 c)))
            | inr c ↦ rw c
          ],
        )
  ]

  abbrev pub needed : ℕ → Option (Entry k) → ℕ
  needed n none = n
  needed n (some e) = length e.depends_on

  abbrev pub is_free : Option (Entry k) → Bool
  is_free none = false
  is_free (some e) = length e.depends_on == 0

  -- What `collect` makes of a graph.
  pub record Collected (es : List (Entry k)) (g h : Graph k) : Type 0 where
    pub dependents : (x : Key) → h.dependents x ≡ g.dependents x ++ users k x es
    pub remaining : (x : Key) → h.remaining x ≡ needed (g.remaining x) (find k x es)
    pub ready : (x : Key) → mem k x h.ready ≡ (mem k x g.ready || is_free (find k x es))
    pub distinct : Distinct k h.ready

  appended_if :
      (c : Bool) (xs rest : List Key) (y : Key)
      → (if c then xs ++ y ∷ [] else xs) ++ rest ≡ xs ++ (if c then y ∷ rest else rest)
  appended_if true xs rest y = append_assoc xs (y ∷ []) rest
  appended_if false xs rest y = refl

  needed_cons :
      (e : Entry k) (es : List (Entry k)) (f : Key → ℕ) (x : Key)
      → mem k e.id (ids k es) ≡ false
      → needed (update k f e.id (length e.depends_on) x) (find k x es)
        ≡ needed (f x) (find k x (e ∷ es))
  needed_cons e es f x h = elim (Bool-cases (eq x e.id)) [
    | inl c ↦ rw (c, find-ids k x es (mem_eq k x e.id (ids k es) c ∙ h))
    | inr c ↦ rw c
  ]

  free_cons :
      (e : Entry k) (es : List (Entry k)) (z m : Bool) (x : Key)
      → mem k e.id (ids k es) ≡ false
      → z ≡ (length e.depends_on == 0)
      → (((z && eq x e.id) || m) || is_free (find k x es)) ≡ (m || is_free (find k x (e ∷ es)))
  free_cons e es z m x h d = elim (Bool-cases (eq x e.id)) [
    | inl c ↦ rw (c, find-ids k x es (mem_eq k x e.id (ids k es) c ∙ h)) (ground (arith, d))
    | inr c ↦ rw c (ground arith)
  ]

  Collected-cons :
      (e : Entry k) (es : List (Entry k)) (g h : Graph k) (m : Key → List Key)
      → mem k e.id (ids k es) ≡ false
      → ((x : Key)
          → m x ≡ (if mem k x e.depends_on then g.dependents x ++ e.id ∷ [] else g.dependents x))
      → Collected es
          (record {
            remaining = update k g.remaining e.id (length e.depends_on);
            dependents = m;
            ready = if length e.depends_on == 0 then insert k e.id g.ready else g.ready;
          })
          h
      → Collected (e ∷ es) g h
  Collected-cons e es g h m i q t = record {
    dependents = λ x.
        t.dependents x
        ∙ (ap (λ l. l ++ users k x es) (q x)
            ∙ appended_if (mem k x e.depends_on) (g.dependents x) (users k x es) e.id);
    remaining = λ x. t.remaining x ∙ needed_cons e es g.remaining x i;
    ready = λ x.
        t.ready x
        ∙ (ap (λ b. b || is_free (find k x es)) (mem_if k (length e.depends_on == 0) x e.id g.ready)
            ∙ free_cons e es (length e.depends_on == 0) (mem k x g.ready) x i refl);
    distinct = t.distinct;
  }

  pub collected :
      (es : List (Entry k)) (g : Graph k)
      → AllFound es
      → AllDistinct k es
      → Distinct k (ids k es)
      → Distinct k g.ready
      → (h : Graph k) × (collect k steps es g ≡ some h) × Collected es g h
  unfolding collect note
  collected [] g f a i r = (
    g,
    refl,
    record {
      dependents = λ x. sym (append-nil (g.dependents x));
      remaining = λ x. refl;
      ready = λ x. ground arith;
      distinct = r;
    },
  )
  collected (e ∷ es) g f a i r =
      let (m, p, q) = linked e.id e.depends_on g.dependents f.0 a.0 in
      let (h, s, t) =
        collected es
          (record {
            remaining = update k g.remaining e.id (length e.depends_on);
            dependents = m;
            ready = if length e.depends_on == 0 then insert k e.id g.ready else g.ready;
          })
          f.1 a.1 i.1 (if-Distinct k (length e.depends_on == 0) e.id g.ready r) in
      (h, rw (p, collect) s, Collected-cons e es g h m i.0 q t)
