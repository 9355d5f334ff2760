-- ===== src/Planner/Plan/Workloads.antt =====
-- The release and the health of the workloads, and the keys of the steps, in the loops of cpp/planner.cpp.
use Prim.Native.String.{String, ◌++◌}
use mathlib.Core.List.{Memᴰ}
use graphlab.Prelude.{
  ℕ, ◌<◌, ◌≤◌, ◌≡◌, refl, ap, subst, inl, inr, true, false, List, [], ◌∷◌, ◌++◌ as append, map,
  length, All, Bool-cases, arith,
}
use graphlab.Planner.Steps.{
  Step, key_of, managements, preparations, links, guests, workloads, health_keys, paused,
}
use graphlab.Planner.Plan.Ranks.{rank, rank_node, rank_guest, rank_release, rank_health}
use graphlab.Planner.Plan.Table.{IsBelow, IsPlanned}
use graphlab.Planner.Plan.Parts.{Has, rank_converge}
use graphlab.Topology.Lock.{Kind, is_qemu}
use graphlab.Topology.Nodes.{Node, is_switch}
use graphlab.Topology.Edges.{Edge}
use graphlab.Topology.Edges.Accepted.{node_name}
use graphlab.Topology.Management.{Network, Attachment}
use graphlab.Topology.Management.Attached.{network_name}

module _ (calls : List Step) (conv : Has calls "converge") where
  paused-IsBelow :
      (k : Kind) (id : String) (n : ℕ)
      → 5 < n
      → (is_qemu k ≡ true → Has calls ("guest/" ++ id ++ "/paused"))
      → All (IsBelow calls rank n) (paused k id)
  paused-IsBelow k id n l h = elim (Bool-cases (is_qemu k)) [
    | inl c ↦ rw c ((omega (arith, l, rank_guest (id ++ "/paused")), h c), tt)
    | inr c ↦ rw c tt
  ]

  length-paused : (k : Kind) (id : String) → length (paused k id) ≤ 1
  length-paused k id = elim (Bool-cases (is_qemu k)) [
    | inl c ↦ rw c (omega arith)
    | inr c ↦ rw c (omega arith)
  ]

  -- What a workload's steps depend on.
  abbrev pub Prepared : String × Node → Type 0
  Prepared n =
      Has calls ("node/" ++ n.0)
      × (is_qemu n.1.kind ≡ true → Has calls ("guest/" ++ n.0 ++ "/paused"))
      × (is_switch n.1.kind ≡ false → Has calls ("release/" ++ n.0))

  pub workloads-IsPlanned :
      (ns : List (String × Node)) → All Prepared ns → All (IsPlanned calls rank) (workloads ns)
  workloads-IsPlanned [] h = tt
  workloads-IsPlanned (n ∷ ns) h = elim (Bool-cases (is_switch n.1.kind)) [
    | inl c ↦ rw c (workloads-IsPlanned ns h.1)
    | inr c ↦ rw c (
      (
        omega (arith, length-paused n.1.kind n.0),
        (
          (omega (arith, rank_converge, rank_release n.0), conv),
          (
            (omega (arith, rank_node n.0, rank_release n.0), h.0.0),
            paused-IsBelow n.1.kind n.0 (rank ("release/" ++ n.0)) (omega (arith, rank_release n.0))
                h.0.1,
          ),
        ),
      ),
      (
        (omega arith, ((omega (arith, rank_release n.0, rank_health n.0), h.0.2 c), tt)),
        workloads-IsPlanned ns h.1,
      ),
    )
  ]

-- The keys of the loops' steps.
abbrev pub KeyIn : String → List Step → Type 0
KeyIn k ss = Memᴰ k (map key_of ss)

pub left : (k : String) (xs ys : List Step) → KeyIn k xs → KeyIn k (append xs ys)
left k [] ys m = elim m [ ]
left k (x ∷ xs) ys (Memᴰ.head q) = Memᴰ.head q
left k (x ∷ xs) ys (Memᴰ.tail m) = Memᴰ.tail (left k xs ys m)

pub right : (k : String) (xs ys : List Step) → KeyIn k ys → KeyIn k (append xs ys)
right k [] ys m = m
right k (x ∷ xs) ys m = Memᴰ.tail (right k xs ys m)

pub managements_key :
    (x : String) (ns : List Network)
    → Memᴰ x (map network_name ns)
    → KeyIn ("management/" ++ x) (managements ns)
managements_key x [] m = elim m [ ]
managements_key x (n ∷ ns) (Memᴰ.head q) = Memᴰ.head (ap (λ y. "management/" ++ y) q)
managements_key x (n ∷ ns) (Memᴰ.tail m) = Memᴰ.tail (managements_key x ns m)

pub preparations_key :
    (ends : List Attachment) (x : String) (ns : List (String × Node))
    → Memᴰ x (map node_name ns)
    → KeyIn ("node/" ++ x) (preparations ends ns)
preparations_key ends x [] m = elim m [ ]
preparations_key ends x (n ∷ ns) (Memᴰ.head q) = Memᴰ.head (ap (λ y. "node/" ++ y) q)
preparations_key ends x (n ∷ ns) (Memᴰ.tail m) = Memᴰ.tail (preparations_key ends x ns m)

pub links_key :
    (nodes : List (String × Node)) (e : Edge) (es : List Edge)
    → Memᴰ e es
    → KeyIn ("edge/" ++ e.id) (links nodes es)
links_key nodes e [] m = elim m [ ]
links_key nodes e (x ∷ xs) (Memᴰ.head q) = Memᴰ.head (ap (λ (y : Edge). "edge/" ++ y.id) q)
links_key nodes e (x ∷ xs) (Memᴰ.tail m) = Memᴰ.tail (links_key nodes e xs m)

guests_step :
    (n : String × Node) (ns : List (String × Node)) (k : String)
    → KeyIn k (guests ns)
    → KeyIn k (guests (n ∷ ns))
guests_step n ns k m = elim (Bool-cases (is_qemu n.1.kind)) [
  | inl c ↦ rw c (Memᴰ.tail m)
  | inr c ↦ rw c m
]

pub guests_key :
    (n : String × Node) (ns : List (String × Node))
    → Memᴰ n ns
    → is_qemu n.1.kind ≡ true
    → KeyIn ("guest/" ++ n.0 ++ "/paused") (guests ns)
guests_key n [] m c = elim m [ ]
guests_key n (x ∷ xs) (Memᴰ.head q) c =
    let c' : is_qemu x.1.kind ≡ true = subst (λ (y : String × Node). is_qemu y.1.kind ≡ true) q c in
    rw c' (Memᴰ.head (ap (λ (y : String × Node). "guest/" ++ y.0 ++ "/paused") q))
guests_key n (x ∷ xs) (Memᴰ.tail m) c =
    guests_step x xs ("guest/" ++ n.0 ++ "/paused") (guests_key n xs m c)

workloads_step :
    (n : String × Node) (ns : List (String × Node)) (k : String)
    → KeyIn k (workloads ns)
    → KeyIn k (workloads (n ∷ ns))
workloads_step n ns k m = elim (Bool-cases (is_switch n.1.kind)) [
  | inl c ↦ rw c m
  | inr c ↦ rw c (Memᴰ.tail (Memᴰ.tail m))
]

pub release_key :
    (n : String × Node) (ns : List (String × Node))
    → Memᴰ n ns
    → is_switch n.1.kind ≡ false
    → KeyIn ("release/" ++ n.0) (workloads ns)
release_key n [] m c = elim m [ ]
release_key n (x ∷ xs) (Memᴰ.head q) c =
    let c' : is_switch x.1.kind ≡ false =
      subst (λ (y : String × Node). is_switch y.1.kind ≡ false) q c in
    rw c' (Memᴰ.head (ap (λ (y : String × Node). "release/" ++ y.0) q))
release_key n (x ∷ xs) (Memᴰ.tail m) c =
    workloads_step x xs ("release/" ++ n.0) (release_key n xs m c)

-- The keys of the healths are keys of steps below `ready`.
pub healths-All {ℓ} :
    (P : String → Type ℓ) (ns : List (String × Node))
    → ((n : String × Node) → Memᴰ n ns → is_switch n.1.kind ≡ false → P ("health/" ++ n.0))
    → All P (health_keys ns)
healths-All P [] h = tt
healths-All P (n ∷ ns) h = elim (Bool-cases (is_switch n.1.kind)) [
  | inl c ↦ rw c (healths-All P ns (λ x m. h x (Memᴰ.tail m)))
  | inr c ↦ rw c (h n (Memᴰ.head refl) c, healths-All P ns (λ x m. h x (Memᴰ.tail m)))
]

pub health_key :
    (n : String × Node) (ns : List (String × Node))
    → Memᴰ n ns
    → is_switch n.1.kind ≡ false
    → KeyIn ("health/" ++ n.0) (workloads ns)
health_key n [] m c = elim m [ ]
health_key n (x ∷ xs) (Memᴰ.head q) c =
    let c' : is_switch x.1.kind ≡ false =
      subst (λ (y : String × Node). is_switch y.1.kind ≡ false) q c in
    rw c' (Memᴰ.tail (Memᴰ.head (ap (λ (y : String × Node). "health/" ++ y.0) q)))
health_key n (x ∷ xs) (Memᴰ.tail m) c = workloads_step x xs ("health/" ++ n.0) (health_key n xs m c)
