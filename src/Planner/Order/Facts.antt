-- ===== src/Planner/Order/Facts.antt =====
-- The set, the maps and the inner loops of the ordering, as functions of their arguments.
use graphlab.Prelude.{
  ℕ, ◌^◌, ◌<◌, ◌≡◌, refl, ap, sym, ◌∙◌, Bool, true, false, ◌&&◌, ◌||◌, List, [], ◌∷◌, ◌++◌, Option,
  none, some, ◌==◌, if◌then◌else◌, length, All, subst, arith, Bool-cases, inl, inr,
}
use graphlab.Planner.Order.{Keys, Entry, mem, find, update, place, insert, release, minus_one}

module _ (k : Keys) where
  open k use {Key, eq, lt, eq_iff}

  pub eq_refl : (x : Key) → eq x x ≡ true
  eq_refl x = (eq_iff x x).1 refl

  pub eq_sym : (x y : Key) → eq x y ≡ eq y x
  eq_sym x y = ground (arith, eq_iff x y, eq_iff y x)

  abbrev pub Distinct : List Key → Type 0
  Distinct [] = Unit
  Distinct (x ∷ xs) = (mem k x xs ≡ false) × Distinct xs

  mem-place : (y x : Key) (xs : List Key) → mem k y (place k x xs) ≡ (eq y x || mem k y xs)
  unfolding place
  mem-place y x [] = refl
  mem-place y x (z ∷ zs) = ground (arith, mem-place y x zs)

  place-Distinct :
      (x : Key) (xs : List Key) → mem k x xs ≡ false → Distinct xs → Distinct (place k x xs)
  unfolding place
  place-Distinct x [] m h = (refl, tt)
  place-Distinct x (z ∷ zs) m h =
      ground (arith, eq_sym x z, place-Distinct x zs (ground arith) h.1, mem-place z x zs)

  pub mem_eq : (x y : Key) (xs : List Key) → eq x y ≡ true → mem k x xs ≡ mem k y xs
  mem_eq x y xs e = ap (λ z. mem k z xs) ((eq_iff x y).0 e)

  pub mem-insert : (y x : Key) (xs : List Key) → mem k y (insert k x xs) ≡ (eq y x || mem k y xs)
  unfolding insert
  mem-insert y x xs = ground (arith, mem-place y x xs, mem_eq y x xs)

  pub insert-Distinct : (x : Key) (xs : List Key) → Distinct xs → Distinct (insert k x xs)
  unfolding insert
  insert-Distinct x xs h = elim (Bool-cases (mem k x xs)) [
    | inl e ↦ rw e h
    | inr e ↦ rw e (place-Distinct x xs e h)
  ]

  pub mem-append : (y : Key) (xs ys : List Key) → mem k y (xs ++ ys) ≡ (mem k y xs || mem k y ys)
  mem-append y [] ys = refl
  mem-append y (x ∷ xs) ys = ground (arith, mem-append y xs ys)

  -- A count falls by one for each of its steps among the distinct `ds`.
  pub release-remaining :
      (ds : List Key) (f : Key → ℕ) (ready : List Key) (x : Key)
      → Distinct ds
      → (release k ds (f, ready)).0 x ≡ (if mem k x ds then minus_one k (f x) else f x)
  unfolding release
  release-remaining [] f ready x h = refl
  release-remaining (d ∷ ds) f ready x h =
      let ih =
        release-remaining ds (update k f d (minus_one k (f d)))
          (if minus_one k (f d) == 0 then insert k d ready else ready) x h.1 in
      elim (Bool-cases (eq x d)) [
        | inl e ↦
            let m : mem k x ds ≡ false = mem_eq x d ds e ∙ h.0 in
            ih ∙ rw (e, m) (ap (λ z. minus_one k (f z)) (sym ((eq_iff x d).0 e)))
        | inr e ↦ ih ∙ rw e
      ]

  pub mem_if :
      (z : Bool) (x d : Key) (ready : List Key)
      → mem k x (if z then insert k d ready else ready) ≡ ((z && eq x d) || mem k x ready)
  mem_if true x d ready = mem-insert x d ready
  mem_if false x d ready = refl

  joined : (z m : Bool) → ((z && true) || m || false) ≡ (m || (true && z))
  joined true true = refl
  joined true false = refl
  joined false true = refl
  joined false false = refl

  unjoined : (z m u : Bool) → ((z && false) || m || u) ≡ (m || u)
  unjoined true m u = refl
  unjoined false m u = refl

  -- A step becomes ready where its count falls to zero.
  pub release-ready :
      (ds : List Key) (f : Key → ℕ) (ready : List Key) (x : Key)
      → Distinct ds
      → mem k x (release k ds (f, ready)).1
        ≡ (mem k x ready || (mem k x ds && (minus_one k (f x) == 0)))
  unfolding release
  release-ready [] f ready x h = ground arith
  release-ready (d ∷ ds) f ready x h =
      let ih =
        release-ready ds (update k f d (minus_one k (f d)))
          (if minus_one k (f d) == 0 then insert k d ready else ready) x h.1 in
      elim (Bool-cases (eq x d)) [
        | inl e ↦
            let m : mem k x ds ≡ false = mem_eq x d ds e ∙ h.0 in
            let same : f x ≡ f d = ap f ((eq_iff x d).0 e) in
            ih
            ∙ rw (mem_if (minus_one k (f d) == 0) x d ready, e, m, same)
                (joined (minus_one k (f d) == 0) (mem k x ready))
        | inr e ↦
            ih
            ∙ rw (mem_if (minus_one k (f d) == 0) x d ready, e)
                (unjoined (minus_one k (f d) == 0) (mem k x ready) _)
      ]

  pub if-Distinct :
      (z : Bool) (d : Key) (ready : List Key)
      → Distinct ready
      → Distinct (if z then insert k d ready else ready)
  if-Distinct true d ready h = insert-Distinct d ready h
  if-Distinct false d ready h = h

  pub release-Distinct :
      (ds : List Key) (f : Key → ℕ) (ready : List Key)
      → Distinct ready
      → Distinct (release k ds (f, ready)).1
  unfolding release
  release-Distinct [] f ready h = h
  release-Distinct (d ∷ ds) f ready h =
      release-Distinct ds (update k f d (minus_one k (f d)))
        (if minus_one k (f d) == 0 then insert k d ready else ready)
        (if-Distinct (minus_one k (f d) == 0) d ready h)

  -- The steps that depend on a key.
  abbrev pub users : Key → List (Entry k) → List Key
  users x [] = []
  users x (e ∷ es) = let rest = users x es in if mem k x e.depends_on then e.id ∷ rest else rest

  abbrev pub ids : List (Entry k) → List Key
  ids [] = []
  ids (e ∷ es) = e.id ∷ ids es

  abbrev pub AllDistinct : List (Entry k) → Type 0
  AllDistinct = All (λ e. Distinct e.depends_on)

  -- The counts fit their 64 bits.
  abbrev pub AllSmall : List (Entry k) → Type 0
  AllSmall = All (λ e. length e.depends_on < 2 ^ 64)

  pub find-All {ℓ} :
      (P : Entry k → Type ℓ) (es : List (Entry k)) (x : Key) (e : Entry k)
      → All P es
      → find k x es ≡ some e
      → P e
  find-All P [] x e h f = cc
  find-All P (d ∷ es) x e h f = elim (Bool-cases (eq x d.id)) [
    | inl c ↦ let g : find k x (d ∷ es) ≡ some d = rw c in subst P (cc (f, g)) h.0
    | inr c ↦ let g : find k x (d ∷ es) ≡ find k x es = rw c in find-All P es x e h.1 (sym g ∙ f)
  ]

  pub find-ids : (x : Key) (es : List (Entry k)) → mem k x (ids es) ≡ false → find k x es ≡ none
  find-ids x [] h = refl
  find-ids x (e ∷ es) h = ground (arith, find-ids x es)

  mem-users-ids :
      (x y : Key) (es : List (Entry k)) → mem k y (ids es) ≡ false → mem k y (users x es) ≡ false
  mem-users-ids x y [] h = refl
  mem-users-ids x y (e ∷ es) h = ground (arith, mem-users-ids x y es)

  pub users-Distinct : (x : Key) (es : List (Entry k)) → Distinct (ids es) → Distinct (users x es)
  users-Distinct x [] h = tt
  users-Distinct x (e ∷ es) h = ground (arith, users-Distinct x es h.1, mem-users-ids x e.id es h.0)

  abbrev pub uses : Key → Option (Entry k) → Bool
  uses x none = false
  uses x (some e) = mem k x e.depends_on

  pub mem-users :
      (x y : Key) (es : List (Entry k))
      → Distinct (ids es)
      → mem k y (users x es) ≡ uses x (find k y es)
  mem-users x y [] h = refl
  mem-users x y (e ∷ es) h =
      ground (arith, mem-users x y es h.1, mem_eq y e.id (ids es), mem-users-ids x y es)
