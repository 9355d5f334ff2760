-- ===== src/Planner/Plan/Table.antt =====
-- The map of the steps of cpp/planner.cpp behind its calls of `add`.
use Prim.Native.String.{String}
use text.Mathlib.Text.{◌==◌}
use text.Mathlib.TextEquality.{eq_iff}
use mathlib.Core.List.{Memᴰ}
use graphlab.Prelude.{
  ℕ, suc, ◌≤◌, ◌<◌, ◌^◌, ◌≡◌, ◌≢◌, refl, sym, ap, subst, ◌∙◌, Bool, true, false, List, [], ◌∷◌, map,
  Option, none, some, if◌then◌else◌, length, All, Bool-cases, Option-cases, inl, inr, arith,
}
use graphlab.Runtime.Source.Store.{lookup, place, replace, Unique}
use graphlab.Runtime.Jobs.Tables.{put}
use graphlab.Runtime.Jobs.Entries.{lookup-put, put-Unique}
use graphlab.Planner.Order.{insert, mem, place as place_key}
use graphlab.Planner.Order.Facts.{Distinct, insert-Distinct}
use graphlab.Planner.Steps.{names, Step, sorted, add, add_all, key_of}
use graphlab.Topology.Names.{is_before}

module _ {ℓ κ} {A : Type ℓ} (P : String × A → Type κ) (less : String → String → Bool) where
  All-place :
      (k : String) (a : A) (es : List (String × A))
      → P (k, a)
      → All P es
      → All P (place less k a es)
  unfolding place
  All-place k a [] p h = (p, tt)
  All-place k a (e ∷ es) p h = elim (Bool-cases (less k e.0)) [
    | inl c ↦ rw c (p, h)
    | inr c ↦ rw c (h.0, All-place k a es p h.1)
  ]

  All-replace :
      (k : String) (a : A) (es : List (String × A))
      → P (k, a)
      → All P es
      → All P (replace k (λ _. a) es)
  unfolding replace
  All-replace k a [] p h = tt
  All-replace k a (e ∷ es) p h = elim (Bool-cases (e.0 == k)) [
    | inl c ↦ rw c (subst (λ x. P (x, a)) (sym ((eq_iff e.0 k).0 c)) p, h.1)
    | inr c ↦ rw c (h.0, All-replace k a es p h.1)
  ]

  pub All-put :
      (k : String) (a : A) (es : List (String × A)) → P (k, a) → All P es → All P (put less k a es)
  unfolding put
  All-put k a es p h = elim (Option-cases (lookup es k)) [
    | inl n ↦ rw n (All-place k a es p h)
    | inr (b, n) ↦ rw n (All-replace k a es p h)
  ]

module _ {κ} (P : String → Type κ) where
  All-place_key : (d : String) (ds : List String) → P d → All P ds → All P (place_key names d ds)
  unfolding place_key
  All-place_key d [] p h = (p, tt)
  All-place_key d (x ∷ xs) p h = elim (Bool-cases (is_before d x)) [
    | inl c ↦ rw c (p, h)
    | inr c ↦ rw c (h.0, All-place_key d xs p h.1)
  ]

  All-insert : (d : String) (ds : List String) → P d → All P ds → All P (insert names d ds)
  unfolding insert
  All-insert d ds p h = elim (Bool-cases (mem names d ds)) [
    | inl c ↦ rw c h
    | inr c ↦ rw c (All-place_key d ds p h)
  ]

  pub All-sorted : (ds : List String) → All P ds → All P (sorted ds)
  All-sorted [] h = tt
  All-sorted (d ∷ ds) h = All-insert d (sorted ds) h.0 (All-sorted ds h.1)

sorted-Distinct : (ds : List String) → Distinct names (sorted ds)
sorted-Distinct [] = tt
sorted-Distinct (d ∷ ds) = insert-Distinct names d (sorted ds) (sorted-Distinct ds)

length-place_key : (d : String) (ds : List String) → length (place_key names d ds) ≡ suc (length ds)
unfolding place_key
length-place_key d [] = refl
length-place_key d (x ∷ xs) = elim (Bool-cases (is_before d x)) [
  | inl c ↦ rw c refl
  | inr c ↦ rw c (ap suc (length-place_key d xs))
]

length-insert : (d : String) (ds : List String) → length (insert names d ds) ≤ suc (length ds)
unfolding insert
length-insert d ds = elim (Bool-cases (mem names d ds)) [
  | inl c ↦ rw c (omega arith)
  | inr c ↦ rw c (omega (arith, length-place_key d ds))
]

length-sorted : (ds : List String) → length (sorted ds) ≤ length ds
length-sorted [] = omega arith
length-sorted (d ∷ ds) = omega (arith, length-insert d (sorted ds), length-sorted ds)

-- What a plan's calls have to be: each depends on calls that rank below it.
module _ (calls : List Step) (rank : String → ℕ) where
  abbrev pub IsBelow : ℕ → String → Type 0
  IsBelow n d = (rank d < n) × Memᴰ d (map key_of calls)

  abbrev pub IsPlanned : Step → Type 0
  IsPlanned s = (length s.depends_on < 2 ^ 64) × All (IsBelow (rank s.id)) s.depends_on

  -- An entry of the map.
  abbrev pub IsEntry : String × Step → Type 0
  IsEntry (key, s) =
      Distinct names s.depends_on
      × (length s.depends_on < 2 ^ 64)
      × All (IsBelow (rank key)) s.depends_on

  add-IsEntry :
      (s : Step) (steps : List (String × Step))
      → IsPlanned s
      → All IsEntry steps
      → All IsEntry (add s steps)
  unfolding add
  add-IsEntry s steps p h =
      All-put IsEntry is_before s.id (record s { depends_on = sorted s.depends_on }) steps
        (
          sorted-Distinct s.depends_on,
          omega (arith, p.0, length-sorted s.depends_on),
          All-sorted (IsBelow (rank s.id)) s.depends_on p.1,
        )
        h

  pub add_all-IsEntry :
      (ss : List Step) (steps : List (String × Step))
      → All IsPlanned ss
      → All IsEntry steps
      → All IsEntry (add_all ss steps)
  unfolding add_all
  add_all-IsEntry [] steps p h = h
  add_all-IsEntry (s ∷ ss) steps p h =
      add_all-IsEntry ss (add s steps) p.1 (add-IsEntry s steps p.0 h)

pub add_all-Unique :
    (ss : List Step) (steps : List (String × Step)) → Unique steps → Unique (add_all ss steps)
unfolding add_all add
add_all-Unique [] steps u = u
add_all-Unique (s ∷ ss) steps u =
    add_all-Unique ss (add s steps)
      (put-Unique is_before s.id (record s { depends_on = sorted s.depends_on }) steps u)

abbrev pub There : String → List (String × Step) → Type 0
There k steps = lookup steps k ≢ none

pub found_behind :
    (s : Step) (steps : List (String × Step)) (k : String)
    → lookup (add s steps) k
      ≡ (if s.id == k then some (record s { depends_on = sorted s.depends_on }) else lookup steps k)
unfolding add
found_behind s steps k =
    lookup-put is_before s.id (record s { depends_on = sorted s.depends_on }) steps k

some_or {ℓ} :
    {A : Type ℓ} (c : Bool) (a : A) (o : Option A) → o ≢ none → (if c then some a else o) ≢ none
some_or true a o h = λ e. cc e
some_or false a o h = h

some_first {ℓ} :
    {A : Type ℓ} (c : Bool) (a : A) (o : Option A) → c ≡ true → (if c then some a else o) ≢ none
some_first true a o h = λ e. cc e
some_first false a o h = absurd (cc h)

stays :
    (s : Step) (steps : List (String × Step)) (k : String) → There k steps → There k (add s steps)
stays s steps k h = λ n.
    some_or (s.id == k) (record s { depends_on = sorted s.depends_on }) (lookup steps k) h
      (sym (found_behind s steps k) ∙ n)

arrives : (s : Step) (steps : List (String × Step)) → There s.id (add s steps)
arrives s steps = λ n.
    some_first (s.id == s.id) (record s { depends_on = sorted s.depends_on }) (lookup steps s.id)
      (ground (arith, eq_iff s.id s.id)) (sym (found_behind s steps s.id) ∙ n)

all_stay :
    (ss : List Step) (steps : List (String × Step)) (k : String)
    → There k steps
    → There k (add_all ss steps)
unfolding add_all
all_stay [] steps k h = h
all_stay (s ∷ ss) steps k h = all_stay ss (add s steps) k (stays s steps k h)

-- Each call's step is there in the end.
pub all-There :
    (ss : List Step) (steps : List (String × Step)) (k : String)
    → Memᴰ k (map key_of ss)
    → There k (add_all ss steps)
unfolding add_all
all-There [] steps k m = elim m [ ]
all-There (s ∷ ss) steps k (Memᴰ.head q) =
    all_stay ss (add s steps) k (subst (λ x. There x (add s steps)) (sym q) (arrives s steps))
all-There (s ∷ ss) steps k (Memᴰ.tail m) = all-There ss (add s steps) k m
