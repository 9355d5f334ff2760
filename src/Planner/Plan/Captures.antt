-- ===== src/Planner/Plan/Captures.antt =====
-- The captures of cpp/planner.cpp come before the links that carry data.
use Prim.Native.String.{String, ◌++◌}
use text.Mathlib.Text.{◌==◌}
use text.Mathlib.TextEquality.{eq_iff}
use mathlib.Core.List.{Memᴰ}
use graphlab.Prelude.{
  ◌<◌, ◌≡◌, sym, ap, ◌∙◌, true, false, List, [], ◌∷◌, ◌++◌ as append, map, some, append_assoc, All,
  Bool-cases, inl, inr, arith,
}
use graphlab.Runtime.Source.Store.{lookup}
use graphlab.Planner.Order.{mem}
use graphlab.Planner.Order.Sound.{Ordered}
use graphlab.Planner.Steps.{names, Step, add_all, guests, captures, workloads, or_else, key_of}
use graphlab.Planner.Plan.{
  calls, prepared, watched, preflight, policy_of, barrier_of, enable, converge, ready_of, entry,
  steps_of,
}
use graphlab.Planner.Plan.Ranks.{rank, rank_release, rank_health}
use graphlab.Planner.Plan.Parts.{rank_converge, rank_barrier, rank_enable, rank_ready}
use graphlab.Planner.Plan.Members.{All-append}
use graphlab.Topology.Nodes.{Node, is_switch}
use graphlab.Topology.Edges.{Edge}
use graphlab.Topology.Validate.{ValidatedTopology}
use graphlab.Planner.Plan.Kept.{
  kept, lookup-calls, find-lookup, mem-sorted, or_left, or_right, chain_behind,
}

-- Of a topology: the steps that stand between its captures and its data.
module _ (t : ValidatedTopology) where
  abbrev behind_barrier : List Step
  behind_barrier = enable ∷ converge t ∷ append (workloads t.nodes) (ready_of t ∷ [])

  ranks_apart : (a b : String) → rank b < rank a → (a == b) ≡ false
  ranks_apart a b l = elim (Bool-cases (a == b)) [
    | inl e ↦ absurd (omega (arith, l, ap rank ((eq_iff a b).0 e)))
    | inr e ↦ e
  ]

  workloads_apart :
      (k : String) (ns : List (String × Node))
      → rank k < 10
      → All (λ c. (c.id == k) ≡ false) (workloads ns)
  workloads_apart k [] l = tt
  workloads_apart k (n ∷ ns) l = elim (Bool-cases (is_switch n.1.kind)) [
    | inl c ↦ rw c (workloads_apart k ns l)
    | inr c ↦ rw c (
      ranks_apart ("release/" ++ n.0) k (omega (arith, l, rank_release n.0)),
      (
        ranks_apart ("health/" ++ n.0) k (omega (arith, l, rank_health n.0)),
        workloads_apart k ns l,
      ),
    )
  ]

  late :
      (k : String)
      → rank k < 9
      → All (λ c. (c.id == k) ≡ false) (converge t ∷ append (workloads t.nodes) (ready_of t ∷ []))
  late k l = (
    ranks_apart "converge" k (omega (arith, l, rank_converge)),
    All-append (λ c. (c.id == k) ≡ false) (workloads t.nodes) (ready_of t ∷ [])
        (workloads_apart k t.nodes (omega (arith, l)))
        (ranks_apart "ready" k (omega (arith, l, rank_ready)), tt),
  )

  -- The calls, split at the barrier.
  calls_split :
      calls t
      ≡ append
          (preflight ∷ append (prepared t) (policy_of t ∷ watched t))
          (barrier_of t ∷ behind_barrier)
  calls_split =
      let q =
        sym (append_assoc (prepared t) (policy_of t ∷ watched t) (barrier_of t ∷ behind_barrier)) in
      ap (λ l. preflight ∷ l) q

  barrier-kept : lookup (steps_of t) "capture-barrier" ≡ some (kept (barrier_of t))
  unfolding steps_of
  barrier-kept =
      ap (λ l. lookup (add_all l []) "capture-barrier") calls_split
      ∙ lookup-calls (preflight ∷ append (prepared t) (policy_of t ∷ watched t)) behind_barrier
          (barrier_of t)
          (
            ranks_apart "enable-data" "capture-barrier" (omega (arith, rank_barrier, rank_enable)),
            late "capture-barrier" (omega (arith, rank_barrier)),
          )

  enable-kept : lookup (steps_of t) "enable-data" ≡ some (kept enable)
  unfolding steps_of
  enable-kept =
      let front = preflight ∷ append (prepared t) (policy_of t ∷ watched t) in
      ap (λ l. lookup (add_all l []) "enable-data")
        (calls_split ∙ sym (append_assoc front (barrier_of t ∷ []) behind_barrier))
      ∙ lookup-calls (append front (barrier_of t ∷ []))
          (converge t ∷ append (workloads t.nodes) (ready_of t ∷ [])) enable
          (late "enable-data" (omega (arith, rank_enable)))

  capture_key :
      (e : Edge) (es : List Edge)
      → Memᴰ e es
      → mem names ("capture/" ++ e.id) (map key_of (captures t.nodes es)) ≡ true
  capture_key e [] m = elim m [ ]
  capture_key e (x ∷ xs) (Memᴰ.head q) =
      let here : ("capture/" ++ e.id == "capture/" ++ x.id) ≡ true = ground (
        arith,
        eq_iff ("capture/" ++ e.id) ("capture/" ++ x.id),
        ap (λ (y : Edge). "capture/" ++ y.id) q,
      ) in
      or_left _ (mem names ("capture/" ++ e.id) (map key_of (captures t.nodes xs))) here
  capture_key e (x ∷ xs) (Memᴰ.tail m) =
      or_right ("capture/" ++ e.id == "capture/" ++ x.id) _ (capture_key e xs m)

  key_right :
      (k : String) (ss us : List Step)
      → mem names k (map key_of us) ≡ true
      → mem names k (map key_of (append ss us)) ≡ true
  key_right k [] us m = m
  key_right k (s ∷ ss) us m = ground (arith, key_right k ss us m)

  mem-or_else :
      (k d : String) (ks : List String) → mem names k ks ≡ true → mem names k (or_else d ks) ≡ true
  mem-or_else k d [] m = absurd (cc m)
  mem-or_else k d (x ∷ xs) m = m

  -- In an order of the steps, the captures of all links stand behind the step that enables data.
  pub captures_behind :
      (xs ys : List String) (e : Edge)
      → Ordered names (map entry (steps_of t)) (append xs ("enable-data" ∷ ys))
      → Memᴰ e t.edges
      → mem names ("capture/" ++ e.id) ys ≡ true
  captures_behind xs ys e s m =
      let k = "capture/" ++ e.id in
      let listed =
        mem-or_else k "policy" (map key_of (watched t))
          (key_right k (guests t.nodes) (captures t.nodes t.edges) (capture_key e t.edges m)) in
      chain_behind (map entry (steps_of t)) xs ys "enable-data" "capture-barrier" k
        (entry ("enable-data", kept enable)) (entry ("capture-barrier", kept (barrier_of t))) s
        (find-lookup (steps_of t) "enable-data" (kept enable) enable-kept)
        (mem-sorted "capture-barrier" ("capture-barrier" ∷ [])
          (ground (arith, eq_iff "capture-barrier" "capture-barrier")))
        (find-lookup (steps_of t) "capture-barrier" (kept (barrier_of t)) barrier-kept)
        (mem-sorted k (or_else "policy" (map key_of (watched t))) listed)
