-- ===== src/Planner/Plan/Parts.antt =====
-- The dependencies of the steps that the loops of cpp/planner.cpp add: each is the key of a call, and
-- ranks below its step.
use Prim.Native.String.{String, ◌++◌}
use text.Mathlib.Text.{starts_with}
use mathlib.Core.List.{Memᴰ}
use graphlab.Prelude.{
  ℕ, ◌<◌, ◌≤◌, ◌^◌, ◌≡◌, refl, inl, inr, List, [], ◌∷◌, map, length, All, Bool-cases, arith,
}
use graphlab.Planner.Steps.{
  Step, key_of, managements, attached, preparations, links, guests, captures,
}
use graphlab.Planner.Plan.Ranks.{
  rank, rank_management, rank_node, rank_edge, rank_guest, rank_capture,
}
use graphlab.Planner.Plan.Table.{IsBelow, IsPlanned}
use graphlab.Topology.Names.{node_of}
use graphlab.Topology.Lock.{is_qemu}
use graphlab.Topology.Nodes.{Node}
use graphlab.Topology.Edges.{Edge}
use graphlab.Topology.Management.{Network, Attachment}

pub rank_preflight : rank "preflight" ≡ 0
unfolding rank
rank_preflight = refl

pub rank_policy : rank "policy" ≡ 4
unfolding rank
rank_policy = refl

pub rank_converge : rank "converge" ≡ 9
unfolding rank
rank_converge = refl

pub rank_barrier : rank "capture-barrier" ≡ 7
unfolding rank
rank_barrier = refl

pub rank_enable : rank "enable-data" ≡ 8
unfolding rank
rank_enable = refl

pub rank_ready : rank "ready" ≡ 12
unfolding rank
rank_ready = refl

module _ (calls : List Step) where
  abbrev pub Has : String → Type 0
  Has k = Memᴰ k (map key_of calls)

  module _ (pre : Has "preflight") where
    pub managements-IsPlanned : (ns : List Network) → All (IsPlanned calls rank) (managements ns)
    managements-IsPlanned [] = tt
    managements-IsPlanned (n ∷ ns) = (
      (omega arith, ((omega (arith, rank_preflight, rank_management n.name), pre), tt)),
      managements-IsPlanned ns,
    )

    attached-IsBelow :
        (n : ℕ) (id : String) (ends : List Attachment)
        → 1 < n
        → All (λ a. Has ("management/" ++ a.network)) ends
        → All (IsBelow calls rank n) (attached id ends)
    attached-IsBelow n id [] l h = tt
    attached-IsBelow n id (a ∷ rest) l h = elim (Bool-cases (starts_with a.endpoint (id ++ ":"))) [
      | inl c ↦
          rw c
            ((omega (arith, l, rank_management a.network), h.0), attached-IsBelow n id rest l h.1)
      | inr c ↦ rw c (attached-IsBelow n id rest l h.1)
    ]

    length-attached :
        (id : String) (ends : List Attachment) → length (attached id ends) ≤ length ends
    length-attached id [] = omega arith
    length-attached id (a ∷ rest) = elim (Bool-cases (starts_with a.endpoint (id ++ ":"))) [
      | inl c ↦ rw c (omega (arith, length-attached id rest))
      | inr c ↦ rw c (omega (arith, length-attached id rest))
    ]

    pub preparations-IsPlanned :
        (ends : List Attachment) (ns : List (String × Node))
        → length ends < 2 ^ 63
        → All (λ a. Has ("management/" ++ a.network)) ends
        → All (IsPlanned calls rank) (preparations ends ns)
    preparations-IsPlanned ends [] s h = tt
    preparations-IsPlanned ends (n ∷ ns) s h = (
      (
        omega (arith, length-attached n.0 ends, s),
        (
          (omega (arith, rank_preflight, rank_node n.0), pre),
          attached-IsBelow (rank ("node/" ++ n.0)) n.0 ends (omega (arith, rank_node n.0)) h,
        ),
      ),
      preparations-IsPlanned ends ns s h,
    )

  pub links-IsPlanned :
      (nodes : List (String × Node)) (es : List Edge)
      → All (λ e. Has ("node/" ++ node_of e.first) × Has ("node/" ++ node_of e.second)) es
      → All (IsPlanned calls rank) (links nodes es)
  links-IsPlanned nodes [] h = tt
  links-IsPlanned nodes (e ∷ es) h = (
    (
      omega arith,
      (
        (omega (arith, rank_edge e.id, rank_node (node_of e.first)), h.0.0),
        ((omega (arith, rank_edge e.id, rank_node (node_of e.second)), h.0.1), tt),
      ),
    ),
    links-IsPlanned nodes es h.1,
  )

  module _ (pol : Has "policy") where
    pub guests-IsPlanned :
        (ns : List (String × Node))
        → All (λ n. Has ("node/" ++ n.0)) ns
        → All (IsPlanned calls rank) (guests ns)
    guests-IsPlanned [] h = tt
    guests-IsPlanned (n ∷ ns) h = elim (Bool-cases (is_qemu n.1.kind)) [
      | inl c ↦ rw c (
        (
          omega arith,
          (
            (omega (arith, rank_policy, rank_guest (n.0 ++ "/paused")), pol),
            ((omega (arith, rank_node n.0, rank_guest (n.0 ++ "/paused")), h.0), tt),
          ),
        ),
        guests-IsPlanned ns h.1,
      )
      | inr c ↦ rw c (guests-IsPlanned ns h.1)
    ]

    pub captures-IsPlanned :
        (nodes : List (String × Node)) (es : List Edge)
        → All (λ e. Has ("edge/" ++ e.id)) es
        → All (IsPlanned calls rank) (captures nodes es)
    captures-IsPlanned nodes [] h = tt
    captures-IsPlanned nodes (e ∷ es) h = (
      (
        omega arith,
        (
          (omega (arith, rank_policy, rank_capture e.id), pol),
          ((omega (arith, rank_edge e.id, rank_capture e.id), h.0), tt),
        ),
      ),
      captures-IsPlanned nodes es h.1,
    )
