-- ===== src/Planner/Plan/Sizes.antt =====
-- The ranks and the numbers of the steps that the loops of cpp/planner.cpp add.
use Prim.Native.String.{String, ◌++◌}
use graphlab.Prelude.{
  suc, ◌<◌, ◌≤◌, ◌≡◌, refl, ap, List, [], ◌∷◌, map, length, All, arith, Bool-cases, inl, inr,
}
use graphlab.Planner.Steps.{
  Step, key_of, managements, preparations, links, guests, captures, health_keys,
}
use graphlab.Planner.Plan.Ranks.{
  rank, rank_management, rank_node, rank_edge, rank_guest, rank_capture,
}
use graphlab.Topology.Lock.{is_qemu}
use graphlab.Topology.Nodes.{Node, is_switch}
use graphlab.Topology.Edges.{Edge}
use graphlab.Topology.Management.{Network, Attachment}

-- The ranks of the steps that a loop adds.
pub managements_low : (ns : List Network) → All (λ s. rank s.id < 4) (managements ns)
managements_low [] = tt
managements_low (n ∷ ns) = (omega (arith, rank_management n.name), managements_low ns)

pub preparations_low :
    (ends : List Attachment) (ns : List (String × Node))
    → All (λ s. rank s.id < 4) (preparations ends ns)
preparations_low ends [] = tt
preparations_low ends (n ∷ ns) = (omega (arith, rank_node n.0), preparations_low ends ns)

pub links_low :
    (nodes : List (String × Node)) (es : List Edge) → All (λ s. rank s.id < 4) (links nodes es)
links_low nodes [] = tt
links_low nodes (e ∷ es) = (omega (arith, rank_edge e.id), links_low nodes es)

pub guests_low : (ns : List (String × Node)) → All (λ s. rank s.id < 7) (guests ns)
guests_low [] = tt
guests_low (n ∷ ns) = elim (Bool-cases (is_qemu n.1.kind)) [
  | inl c ↦ rw c (omega (arith, rank_guest (n.0 ++ "/paused")), guests_low ns)
  | inr c ↦ rw c (guests_low ns)
]

pub captures_low :
    (nodes : List (String × Node)) (es : List Edge) → All (λ s. rank s.id < 7) (captures nodes es)
captures_low nodes [] = tt
captures_low nodes (e ∷ es) = (omega (arith, rank_capture e.id), captures_low nodes es)

-- How many there are.
pub length-keys : (ss : List Step) → length (map key_of ss) ≡ length ss
length-keys [] = refl
length-keys (s ∷ ss) = ap suc (length-keys ss)

pub length-managements : (ns : List Network) → length (managements ns) ≡ length ns
length-managements [] = refl
length-managements (n ∷ ns) = ap suc (length-managements ns)

pub length-preparations :
    (ends : List Attachment) (ns : List (String × Node)) → length (preparations ends ns) ≡ length ns
length-preparations ends [] = refl
length-preparations ends (n ∷ ns) = ap suc (length-preparations ends ns)

pub length-links :
    (nodes : List (String × Node)) (es : List Edge) → length (links nodes es) ≡ length es
length-links nodes [] = refl
length-links nodes (e ∷ es) = ap suc (length-links nodes es)

pub length-captures :
    (nodes : List (String × Node)) (es : List Edge) → length (captures nodes es) ≡ length es
length-captures nodes [] = refl
length-captures nodes (e ∷ es) = ap suc (length-captures nodes es)

pub length-guests : (ns : List (String × Node)) → length (guests ns) ≤ length ns
length-guests [] = omega arith
length-guests (n ∷ ns) = elim (Bool-cases (is_qemu n.1.kind)) [
  | inl c ↦ rw c (omega (arith, length-guests ns))
  | inr c ↦ rw c (omega (arith, length-guests ns))
]

pub length-health_keys : (ns : List (String × Node)) → length (health_keys ns) ≤ length ns
length-health_keys [] = omega arith
length-health_keys (n ∷ ns) = elim (Bool-cases (is_switch n.1.kind)) [
  | inl c ↦ rw c (omega (arith, length-health_keys ns))
  | inr c ↦ rw c (omega (arith, length-health_keys ns))
]
