-- ===== src/Planner/Order.antt =====
-- The dependency order of `plan` in cpp/planner.cpp (lines 120 to 147): Kahn's algorithm over the
-- steps. Its maps are functions, its set a sorted list; the keys are what the section gives.
pub mod Facts
pub mod Invariant
pub mod Sound
pub mod Results
use graphlab.Prelude.{
  ℕ, zero, suc, ◌+◌, ◌-◌, ◌%◌, ◌^◌, ◌≡◌, ◌↔◌, Bool, true, false, not, ◌&&◌, ◌||◌, List, [], ◌∷◌,
  ◌++◌, Option, none, some, ◌==◌, if◌then◌else◌, length,
}

-- What the maps and the set ask of a key: equality, and the order by which the set is walked.
pub record Keys : Type 1 where
  pub Key : Type 0
  pub eq : Key → Key → Bool
  pub lt : Key → Key → Bool
  pub eq_iff : (a b : Key) → (eq a b ≡ true) ↔ (a ≡ b)

module _ (k : Keys) where
  open k use {Key, eq, lt}

  pub record Entry : Type 0 where
    pub id : Key
    pub depends_on : List Key

  abbrev pub mem : Key → List Key → Bool
  mem x [] = false
  mem x (y ∷ ys) = eq x y || mem x ys

  abbrev pub find : Key → List Entry → Option Entry
  find x [] = none
  find x (e ∷ es) = if eq x e.id then some e else find x es

  abbrev pub update {ℓ} : {V : Type ℓ} → (Key → V) → Key → V → Key → V
  update f x v y = if eq y x then v else f y

  unfoldable pub place : Key → List Key → List Key
  place x [] = x ∷ []
  place x (y ∷ ys) = let rest = place x ys in if lt x y then x ∷ y ∷ ys else y ∷ rest

  -- `std::set::insert`: at its place in the order, unless it is there.
  unfoldable pub insert : Key → List Key → List Key
  unfolding place
  insert x xs = if mem x xs then xs else place x xs

  pub record Graph : Type 0 where
    pub remaining : Key → ℕ
    pub dependents : Key → List Key
    pub ready : List Key

  abbrev pub empty : Graph
  empty = record { remaining = λ x. 0; dependents = λ x. []; ready = [] }

  -- The loop over the dependencies of one step; `none` is the error `missing dependency`.
  unfoldable pub link : List Entry → Key → List Key → (Key → List Key) → Option (Key → List Key)
  link steps id [] m = some m
  link steps id (d ∷ ds) m = elim (find d steps) [
    | none ↦ none
    | some e ↦ link steps id ds (update m d (m d ++ id ∷ []))
  ]

  -- One step of the loop over all steps.
  unfoldable pub note : List Entry → Entry → Graph → Option Graph
  note steps e g = elim (link steps e.id e.depends_on g.dependents) [
    | none ↦ none
    | some m ↦ some (record {
      remaining = update g.remaining e.id (length e.depends_on);
      dependents = m;
      ready = if length e.depends_on == 0 then insert e.id g.ready else g.ready;
    })
  ]

  unfoldable pub collect : List Entry → List Entry → Graph → Option Graph
  collect steps [] g = some g
  collect steps (e ∷ es) g = elim (note steps e g) [ none ↦ none | some h ↦ collect steps es h ]

  -- `--remaining[dependent]` on a 64-bit count.
  abbrev pub minus_one : ℕ → ℕ
  minus_one n = (n + (2 ^ 64 - 1)) % 2 ^ 64

  -- The loop over the dependents of a step that was taken.
  unfoldable pub release : List Key → (Key → ℕ) × List Key → (Key → ℕ) × List Key
  release [] s = s
  release (d ∷ ds) (remaining, ready) = release ds (
    update remaining d (minus_one (remaining d)),
    if minus_one (remaining d) == 0 then insert d ready else ready,
  )

  -- The loop over the ready set; `ordered` holds the latest step first. `none`: out of fuel.
  unfoldable pub drain : ℕ → (Key → List Key) → (Key → ℕ) × List Key → List Key → Option (List Key)
  drain fuel dependents (remaining, []) ordered = some ordered
  drain zero dependents (remaining, x ∷ ready) ordered = none
  drain (suc fuel) dependents (remaining, x ∷ ready) ordered =
      drain fuel dependents (release (dependents x) (remaining, ready)) (x ∷ ordered)

  pub data Outcome : Type 0 where
    missing_dependency resource_dependency_cycle out_of_fuel : Outcome
    ordered : List Key → Outcome

  abbrev checked : List Entry → Option (List Key) → Outcome
  checked steps none = out_of_fuel
  checked steps (some o) = if length o == length steps then ordered o else resource_dependency_cycle

  abbrev drained : List Entry → Option Graph → Outcome
  drained steps none = missing_dependency
  drained steps (some g) =
      checked steps (drain (length steps) g.dependents (g.remaining, g.ready) [])

  -- The order, with the latest step first.
  unfoldable pub order : List Entry → Outcome
  unfolding collect drain note link release insert
  order steps = drained steps (collect steps steps empty)
