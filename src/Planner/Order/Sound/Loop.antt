-- ===== src/Planner/Order/Sound/Loop.antt =====
-- One turn of the loop over the ready set keeps what the ordering knows, and the loop ends.
use graphlab.Prelude.{
  ℕ, zero, suc, ◌+◌, ◌^◌, ◌≤◌, ◌<◌, ◌≡◌, refl, ap, sym, ◌∙◌, Bool, true, false, not, ◌&&◌, ◌||◌,
  List, [], ◌∷◌, some, ◌==◌, if◌then◌else◌, subst, arith, inl, inr, Option-cases,
}
use graphlab.Planner.Order.{Keys, Entry, mem, find, release, minus_one, drain}
use graphlab.Planner.Order.Facts.{
  Distinct, AllDistinct, AllSmall, find-All, ids, users, uses, eq_refl, mem_eq, mem-users,
  users-Distinct, release-remaining, release-ready, release-Distinct,
}
use graphlab.Planner.Order.Sound.{
  missing, missing_le, missing_cons, one_if, pending, pending_cons, Due, is_open, Inv, taken_done,
}

module _ (k : Keys) where
  open k use {Key, eq, eq_iff}

  minus_suc : (n : ℕ) → suc n < 2 ^ 64 → minus_one k (suc n) ≡ n
  minus_suc n h = omega arith

  count_step :
      (c : Bool) (r a b : ℕ)
      → a + one_if k c ≡ b
      → b < 2 ^ 64
      → r ≡ b
      → (if c then minus_one k r else r) ≡ a
  count_step true r a b p s e = omega (arith, minus_suc a)
  count_step false r a b p s e = omega arith

  open_step :
      (r d e m : Bool) (q n n' : ℕ)
      → (e || r) ≡ (not m && (n == 0))
      → n' + one_if k d ≡ n
      → (d ≡ true → q ≡ n')
      → (e ≡ true → r ≡ false)
      → (e ≡ true → n ≡ 0)
      → (m ≡ true → n ≡ 0)
      → (r || (d && (q == 0))) ≡ (not (e || m) && (n' == 0))
  open_step r true e true q n n' t a b h h' h2 = absurd (omega (arith, h2 refl))
  open_step r true true m q n n' t a b h h' h2 = absurd (omega (arith, h' refl))
  open_step r true false false q n n' t a b h h' h2 = ground (arith, t, b refl)
  open_step r false true m q n n' t a b h h' h2 = ground (arith, h refl)
  open_step r false false m q n n' t a b h h' h2 = ground (arith, t)

  pub record Wf (steps : List (Entry k)) : Type 0 where
    pub unique : Distinct k (ids k steps)
    pub single : AllDistinct k steps
    pub small : AllSmall k steps

  module _ (steps : List (Entry k)) (w : Wf steps) where
    first-Due :
        (o : List Key) (remaining : Key → ℕ) (x : Key) (rest : List Key)
        → Inv k steps o remaining (x ∷ rest)
        → (mem k x o ≡ false) × Due k steps x o
    first-Due o remaining x rest i = elim (Option-cases (find k x steps)) [
      | inl e ↦
          let t : (eq x x || mem k x rest) ≡ false = i.opened x ∙ ap (is_open k steps o x) e in
          absurd (ground (arith, t, eq_refl k x))
      | inr (s, e) ↦
          let t : (eq x x || mem k x rest) ≡ (not (mem k x o) && (missing k o s.depends_on == 0)) =
            i.opened x ∙ ap (is_open k steps o x) e in
          (
            ground (arith, t, eq_refl k x),
            record { step = s; known = e; met = ground (arith, t, eq_refl k x) },
          )
    ]

    Due-same :
        (o : List Key) (x y : Key) (s : Entry k)
        → eq y x ≡ true
        → find k y steps ≡ some s
        → Due k steps x o
        → missing k o s.depends_on ≡ 0
    Due-same o x y s c f d =
        let same : some s ≡ some d.step =
          sym f ∙ (ap (λ z. find k z steps) ((eq_iff y x).0 c) ∙ d.known) in
        let e : s ≡ d.step = cc same in ap (λ z. missing k o z.depends_on) e ∙ d.met

    next_counts :
        (o : List Key) (remaining : Key → ℕ) (x : Key) (rest : List Key)
        → Inv k steps o remaining (x ∷ rest)
        → (y : Key) (e : Entry k) → find k y steps ≡ some e
        → (release k (users k x steps) (remaining, rest)).0 y ≡ missing k (x ∷ o) e.depends_on
    next_counts o remaining x rest i y e f =
        let m : mem k y (users k x steps) ≡ mem k x e.depends_on =
          mem-users k x y steps w.unique ∙ ap (uses k x) f in
        release-remaining k (users k x steps) remaining rest y (users-Distinct k x steps w.unique)
        ∙ rw m (
            count_step (mem k x e.depends_on) (remaining y) _ (missing k o e.depends_on)
              (missing_cons k x o e.depends_on (find-All k _ steps y e w.single f)
                (first-Due o remaining x rest i).0)
              (omega (arith, find-All k _ steps y e w.small f, missing_le k o e.depends_on))
              (i.counts y e f))

    next_open :
        (o : List Key) (remaining : Key → ℕ) (x : Key) (rest : List Key)
        → Inv k steps o remaining (x ∷ rest)
        → (y : Key)
        → mem k y (release k (users k x steps) (remaining, rest)).1
          ≡ is_open k steps (x ∷ o) y (find k y steps)
    next_open o remaining x rest i y =
        release-ready k (users k x steps) remaining rest y (users-Distinct k x steps w.unique)
        ∙ elim (Option-cases (find k y steps)) [
          | inl e ↦
              let m : mem k y (users k x steps) ≡ false =
                mem-users k x y steps w.unique ∙ ap (uses k x) e in
              let t : (eq y x || mem k y rest) ≡ false = i.opened y ∙ ap (is_open k steps o y) e in
              rw (e, m) (ground (arith, t))
          | inr (s, e) ↦
              let m : mem k y (users k x steps) ≡ mem k x s.depends_on =
                mem-users k x y steps w.unique ∙ ap (uses k x) e in
              let t : (eq y x || mem k y rest)
                  ≡ (not (mem k y o) && (missing k o s.depends_on == 0)) =
                i.opened y ∙ ap (is_open k steps o y) e in
              let n : missing k (x ∷ o) s.depends_on + one_if k (mem k x s.depends_on)
                  ≡ missing k o s.depends_on =
                missing_cons k x o s.depends_on (find-All k _ steps y s w.single e)
                  (first-Due o remaining x rest i).0 in
              rw (e, m)
                (open_step (mem k y rest) (mem k x s.depends_on) (eq y x) (mem k y o)
                  (minus_one k (remaining y)) (missing k o s.depends_on)
                  (missing k (x ∷ o) s.depends_on) t n
                  (λ c.
                    let u : remaining y ≡ suc (missing k (x ∷ o) s.depends_on) =
                      omega (arith, n, ap (one_if k) c, i.counts y s e) in
                    ap (minus_one k) u
                    ∙ minus_suc (missing k (x ∷ o) s.depends_on) (
                        omega (
                          arith,
                          n,
                          ap (one_if k) c,
                          find-All k _ steps y s w.small e,
                          missing_le k o s.depends_on,
                        )))
                  (λ c. mem_eq k y x rest c ∙ i.distinct.0)
                  (λ c. Due-same o x y s c e (first-Due o remaining x rest i).1)
                  (λ c. taken_done k steps y o s i.sorted c e))
        ]

    next :
        (o : List Key) (remaining : Key → ℕ) (x : Key) (rest : List Key)
        → Inv k steps o remaining (x ∷ rest)
        → Inv k steps
            (x ∷ o)
            (release k (users k x steps) (remaining, rest)).0
            (release k (users k x steps) (remaining, rest)).1
    next o remaining x rest i =
        let (n, d) = first-Due o remaining x rest i in
        record {
          counts = next_counts o remaining x rest i;
          opened = next_open o remaining x rest i;
          distinct = release-Distinct k (users k x steps) remaining rest i.distinct.1;
          sorted = (n, d, i.sorted);
          left = omega (arith, i.left, pending_cons k x o steps d.step w.unique d.known n);
        }

    -- The steps that are left are fuel enough.
    pub drain-Inv :
        (fuel : ℕ) (m : Key → List Key) (o : List Key) (remaining : Key → ℕ) (ready : List Key)
        → ((x : Key) → m x ≡ users k x steps)
        → pending k o steps ≤ fuel
        → Inv k steps o remaining ready
        → (o' : List Key) × (drain k fuel m (remaining, ready) o ≡ some o')
          × ((f : Key → ℕ) × Inv k steps o' f [])
    unfolding drain
    drain-Inv fuel m o remaining [] q l i = (o, refl, (remaining, i))
    drain-Inv zero m o remaining (x ∷ rest) q l i =
        let (n, d) = first-Due o remaining x rest i in
        absurd (omega (arith, pending_cons k x o steps d.step w.unique d.known n))
    drain-Inv (suc fuel) m o remaining (x ∷ rest) q l i =
        let (n, d) = first-Due o remaining x rest i in
        subst
          (λ us.
            (o' : List Key) × (drain k fuel m (release k us (remaining, rest)) (x ∷ o) ≡ some o')
            × ((f : Key → ℕ) × Inv k steps o' f []))
          (sym (q x))
          (drain-Inv fuel m (x ∷ o) (release k (users k x steps) (remaining, rest)).0
            (release k (users k x steps) (remaining, rest)).1 q
            (omega (arith, l, pending_cons k x o steps d.step w.unique d.known n))
            (next o remaining x rest i))
