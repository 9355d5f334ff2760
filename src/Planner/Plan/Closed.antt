-- ===== src/Planner/Plan/Closed.antt =====
-- The calls of cpp/planner.cpp on a topology whose edges and attachments name its nodes and networks.
use Prim.Native.String.{String, ◌++◌}
use mathlib.Core.List.{Memᴰ}
use graphlab.Prelude.{
  ℕ, suc, ◌+◌, ◌<◌, ◌≤◌, ◌^◌, ◌≡◌, refl, sym, subst, List, [], ◌∷◌, ◌++◌ as append, map, length,
  length-append, All, arith,
}
use graphlab.Planner.Order.{ordered}
use graphlab.Planner.Order.Results.{IsSorted}
use graphlab.Planner.Steps.{
  names, Step, key_of, managements, preparations, links, guests, captures, workloads, health_keys,
  or_else,
}
use graphlab.Planner.Plan.{
  calls, prepared, watched, policy_of, barrier_of, ready_of, steps_of, entry, order_of,
}
use graphlab.Planner.Plan.Ranks.{rank, rank_health}
use graphlab.Planner.Plan.Table.{IsBelow, IsPlanned}
use graphlab.Planner.Plan.Parts.{
  managements-IsPlanned, preparations-IsPlanned, links-IsPlanned, guests-IsPlanned,
  captures-IsPlanned, rank_preflight, rank_policy, rank_converge, rank_barrier, rank_enable,
  rank_ready,
}
use graphlab.Planner.Plan.Workloads.{
  workloads-IsPlanned, KeyIn, release_key, health_key, healths-All,
}
use graphlab.Planner.Plan.Sorted.{calls-IsSorted}
use graphlab.Topology.Names.{node_of}
use graphlab.Topology.Nodes.{Node}
use graphlab.Topology.Edges.{Edge}
use graphlab.Topology.Edges.Accepted.{node_name}
use graphlab.Topology.Management.{Attachment}
use graphlab.Topology.Management.Attached.{network_name}
use graphlab.Topology.Validate.{ValidatedTopology}
use graphlab.Planner.Plan.Members.{
  All-mem, All-append, All-imp, part_prepared, part_watched, part_workloads, has_preflight,
  has_policy, has_barrier, has_enable, has_converge, has_network, has_node, has_edge, has_guest,
  node_named,
}
use graphlab.Planner.Plan.Sizes.{
  managements_low, preparations_low, links_low, guests_low, captures_low, length-keys,
  length-managements, length-preparations, length-links, length-captures, length-guests,
  length-health_keys,
}

-- The ends of the edges are nodes, the attachments are to networks, and there are fewer than 2^61 of each.
pub record IsClosed (t : ValidatedTopology) : Type 0 where
  pub ends :
      All
        (λ (e : Edge).
          Memᴰ (node_of e.first) (map node_name t.nodes)
          × Memᴰ (node_of e.second) (map node_name t.nodes))
        t.edges
  pub attached :
      All (λ (a : Attachment). Memᴰ a.network (map network_name t.networks)) t.attachments
  pub nodes_small : length t.nodes < 2 ^ 61
  pub edges_small : length t.edges < 2 ^ 61
  pub networks_small : length t.networks < 2 ^ 61
  pub attachments_small : length t.attachments < 2 ^ 61

module _ (t : ValidatedTopology) where
  -- The keys of some calls, where all of them rank below a step.
  keys-IsBelow :
      (n : ℕ) (ss : List Step)
      → All (λ s. rank s.id < n) ss
      → ((k : String) → KeyIn k ss → KeyIn k (calls t))
      → All (IsBelow (calls t) rank n) (map key_of ss)
  keys-IsBelow n [] a h = tt
  keys-IsBelow n (s ∷ ss) a h =
      ((a.0, h s.id (Memᴰ.head refl)), keys-IsBelow n ss a.1 (λ k m. h k (Memᴰ.tail m)))

  or_else-All {ℓ} :
      (P : String → Type ℓ) (d : String) (ks : List String) → P d → All P ks → All P (or_else d ks)
  or_else-All P d [] p a = (p, tt)
  or_else-All P d (k ∷ ks) p a = a

  length-or_else : (d : String) (ks : List String) → length (or_else d ks) ≤ suc (length ks)
  length-or_else d [] = omega arith
  length-or_else d (k ∷ ks) = omega arith

  prepared_low : All (λ s. rank s.id < 4) (prepared t)
  prepared_low = All-append _ (managements t.networks) _ (managements_low t.networks) (
      All-append _ (preparations t.attachments t.nodes) _ (preparations_low t.attachments t.nodes)
        (links_low t.nodes t.edges))

  watched_low : All (λ s. rank s.id < 7) (watched t)
  watched_low = All-append _ (guests t.nodes) _ (guests_low t.nodes) (captures_low t.nodes t.edges)

  length-prepared : length (prepared t) ≡ length t.networks + (length t.nodes + length t.edges)
  length-prepared = omega (
    arith,
    length-append (managements t.networks)
        (append (preparations t.attachments t.nodes) (links t.nodes t.edges)),
    length-append (preparations t.attachments t.nodes) (links t.nodes t.edges),
    length-managements t.networks,
    length-preparations t.attachments t.nodes,
    length-links t.nodes t.edges,
  )

  length-watched : length (watched t) ≤ length t.nodes + length t.edges
  length-watched = omega (
    arith,
    length-append (guests t.nodes) (captures t.nodes t.edges),
    length-guests t.nodes,
    length-captures t.nodes t.edges,
  )

  health-IsBelow : All (IsBelow (calls t) rank 12) (health_keys t.nodes)
  health-IsBelow = healths-All (IsBelow (calls t) rank 12) t.nodes (λ n m c. (
    omega (arith, rank_health n.0),
    part_workloads t ("health/" ++ n.0) (health_key n t.nodes m c),
  ))

  module _ (h : IsClosed t) where
    policy-IsPlanned : IsPlanned (calls t) rank (policy_of t)
    policy-IsPlanned = (
      omega (
        arith,
        length-or_else "preflight" (map key_of (prepared t)),
        length-keys (prepared t),
        length-prepared,
        h.nodes_small,
        h.edges_small,
        h.networks_small,
      ),
      or_else-All (IsBelow (calls t) rank (rank "policy")) "preflight" (map key_of (prepared t))
          (omega (arith, rank_preflight, rank_policy), has_preflight t)
          (keys-IsBelow (rank "policy") (prepared t)
            (subst (λ n. All (λ s. rank s.id < n) (prepared t)) (sym rank_policy) prepared_low)
            (part_prepared t)),
    )

    barrier-IsPlanned : IsPlanned (calls t) rank (barrier_of t)
    barrier-IsPlanned = (
      omega (
        arith,
        length-or_else "policy" (map key_of (watched t)),
        length-keys (watched t),
        length-watched,
        h.nodes_small,
        h.edges_small,
      ),
      or_else-All (IsBelow (calls t) rank (rank "capture-barrier")) "policy"
          (map key_of (watched t)) (omega (arith, rank_policy, rank_barrier), has_policy t)
          (keys-IsBelow (rank "capture-barrier") (watched t)
            (subst (λ n. All (λ s. rank s.id < n) (watched t)) (sym rank_barrier) watched_low)
            (part_watched t)),
    )

    ready-IsPlanned : IsPlanned (calls t) rank (ready_of t)
    ready-IsPlanned = (
      omega (
        arith,
        length-or_else "converge" (health_keys t.nodes),
        length-health_keys t.nodes,
        h.nodes_small,
      ),
      or_else-All (IsBelow (calls t) rank (rank "ready")) "converge" (health_keys t.nodes)
          (omega (arith, rank_converge, rank_ready), has_converge t)
          (subst (λ n. All (IsBelow (calls t) rank n) (health_keys t.nodes)) (sym rank_ready)
            health-IsBelow),
    )

    node_there : (n : String × Node) → Memᴰ n t.nodes → KeyIn ("node/" ++ n.0) (calls t)
    node_there n m = has_node t n.0 (node_named t n t.nodes m)

    all-IsPlanned : All (IsPlanned (calls t) rank) (calls t)
    all-IsPlanned =
        let P = IsPlanned (calls t) rank in
        let networks = All-imp t.attachments (λ a m. has_network t a.network m) h.attached in
        let ends =
          All-imp t.edges
            (λ e m. (has_node t (node_of e.first) m.0, has_node t (node_of e.second) m.1)) h.ends in
        let tail =
          All-append P (workloads t.nodes) (ready_of t ∷ [])
            (workloads-IsPlanned (calls t) (has_converge t) t.nodes (
              All-mem t.nodes (λ n m. (
                node_there n m,
                (λ c. has_guest t n m c),
                (λ c. part_workloads t ("release/" ++ n.0) (release_key n t.nodes m c)),
              ))))
            (ready-IsPlanned, tt) in
        let watching =
          All-append P (guests t.nodes) (captures t.nodes t.edges)
            (guests-IsPlanned (calls t) (has_policy t) t.nodes (All-mem t.nodes node_there))
            (captures-IsPlanned (calls t) (has_policy t) t.nodes t.edges
              (All-mem t.edges (has_edge t))) in
        let preparing =
          All-append P (managements t.networks) _
            (managements-IsPlanned (calls t) (has_preflight t) t.networks)
            (All-append P (preparations t.attachments t.nodes) (links t.nodes t.edges)
              (preparations-IsPlanned (calls t) (has_preflight t) t.attachments t.nodes
                (omega (arith, h.attachments_small)) networks)
              (links-IsPlanned (calls t) t.nodes t.edges ends)) in
        (
          (omega arith, tt),
          All-append P (prepared t) _ preparing (
            policy-IsPlanned,
            All-append P (watched t) _ watching (
              barrier-IsPlanned,
              (
                (omega arith, ((omega (arith, rank_barrier, rank_enable), has_barrier t), tt)),
                (
                  (omega arith, ((omega (arith, rank_enable, rank_converge), has_enable t), tt)),
                  tail,
                ),
              ),
            ),
          ),
        )

    -- The steps of a topology whose edges and attachments name its nodes and networks are put in an
    -- order that holds each step once, behind all its dependencies, and leaves out none: no dependency is
    -- missing and there is no cycle.
    pub order_of-IsSorted :
        (o : List String) × (order_of t ≡ ordered o) × IsSorted names (map entry (steps_of t)) o
    unfolding order_of steps_of
    order_of-IsSorted = calls-IsSorted (calls t) rank all-IsPlanned
