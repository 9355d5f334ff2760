-- ===== src/Planner/Plan/Members.antt =====
-- Which keys are among the calls of cpp/planner.cpp.
use Prim.Native.String.{String, ◌++◌}
use mathlib.Core.List.{Memᴰ}
use graphlab.Prelude.{◌≡◌, refl, ap, true, List, [], ◌∷◌, ◌++◌ as append, map, All}
use graphlab.Planner.Steps.{managements, preparations, guests, workloads}
use graphlab.Planner.Plan.{
  calls, prepared, watched, policy_of, barrier_of, enable, converge, ready_of,
}
use graphlab.Planner.Plan.Workloads.{
  KeyIn, left, right, managements_key, preparations_key, links_key, guests_key,
}
use graphlab.Topology.Lock.{is_qemu}
use graphlab.Topology.Nodes.{Node}
use graphlab.Topology.Edges.{Edge}
use graphlab.Topology.Edges.Accepted.{node_name}
use graphlab.Topology.Management.Attached.{network_name}
use graphlab.Topology.Validate.{ValidatedTopology}

module _ {ℓ κ} {A : Type ℓ} where
  pub All-mem : {P : A → Type κ} (xs : List A) → ((x : A) → Memᴰ x xs → P x) → All P xs
  All-mem [] h = tt
  All-mem (x ∷ xs) h = (h x (Memᴰ.head refl), All-mem xs (λ y m. h y (Memᴰ.tail m)))

  pub All-append : (P : A → Type κ) (xs ys : List A) → All P xs → All P ys → All P (append xs ys)
  All-append P [] ys a b = b
  All-append P (x ∷ xs) ys a b = (a.0, All-append P xs ys a.1 b)

module _ {ℓ κ μ} {A : Type ℓ} where
  pub All-imp :
      {P : A → Type κ} {Q : A → Type μ} (xs : List A) → ((x : A) → P x → Q x) → All P xs → All Q xs
  All-imp [] h a = tt
  All-imp (x ∷ xs) h a = (h x a.0, All-imp xs h a.1)

module _ (t : ValidatedTopology) where
  -- The parts of the calls.
  pub part_prepared : (k : String) → KeyIn k (prepared t) → KeyIn k (calls t)
  part_prepared k m = Memᴰ.tail (left k (prepared t) _ m)

  pub behind_policy :
      (k : String)
      → KeyIn k (
          policy_of t
          ∷ append
              (watched t)
              (barrier_of t ∷ enable ∷ converge t ∷ append (workloads t.nodes) (ready_of t ∷ [])))
      → KeyIn k (calls t)
  behind_policy k m = Memᴰ.tail (right k (prepared t) _ m)

  pub part_watched : (k : String) → KeyIn k (watched t) → KeyIn k (calls t)
  part_watched k m = behind_policy k (Memᴰ.tail (left k (watched t) _ m))

  pub behind_watched :
      (k : String)
      → KeyIn k (barrier_of t ∷ enable ∷ converge t ∷ append (workloads t.nodes) (ready_of t ∷ []))
      → KeyIn k (calls t)
  behind_watched k m = behind_policy k (Memᴰ.tail (right k (watched t) _ m))

  pub part_workloads : (k : String) → KeyIn k (workloads t.nodes) → KeyIn k (calls t)
  part_workloads k m =
      behind_watched k (Memᴰ.tail (Memᴰ.tail (Memᴰ.tail (left k (workloads t.nodes) _ m))))

  pub has_preflight : KeyIn "preflight" (calls t)
  has_preflight = Memᴰ.head refl

  pub has_policy : KeyIn "policy" (calls t)
  has_policy = behind_policy "policy" (Memᴰ.head refl)

  pub has_barrier : KeyIn "capture-barrier" (calls t)
  has_barrier = behind_watched "capture-barrier" (Memᴰ.head refl)

  pub has_enable : KeyIn "enable-data" (calls t)
  has_enable = behind_watched "enable-data" (Memᴰ.tail (Memᴰ.head refl))

  pub has_converge : KeyIn "converge" (calls t)
  has_converge = behind_watched "converge" (Memᴰ.tail (Memᴰ.tail (Memᴰ.head refl)))

  pub has_network :
      (x : String) → Memᴰ x (map network_name t.networks) → KeyIn ("management/" ++ x) (calls t)
  has_network x m =
      part_prepared ("management/" ++ x)
        (left ("management/" ++ x) (managements t.networks) _ (managements_key x t.networks m))

  pub has_node : (x : String) → Memᴰ x (map node_name t.nodes) → KeyIn ("node/" ++ x) (calls t)
  has_node x m =
      let k = "node/" ++ x in
      part_prepared k (
        right k (managements t.networks) _ (
          left k (preparations t.attachments t.nodes) _
            (preparations_key t.attachments x t.nodes m)))

  pub has_edge : (e : Edge) → Memᴰ e t.edges → KeyIn ("edge/" ++ e.id) (calls t)
  has_edge e m =
      let k = "edge/" ++ e.id in
      part_prepared k (
        right k (managements t.networks) _
          (right k (preparations t.attachments t.nodes) _ (links_key t.nodes e t.edges m)))

  pub has_guest :
      (n : String × Node)
      → Memᴰ n t.nodes
      → is_qemu n.1.kind ≡ true
      → KeyIn ("guest/" ++ n.0 ++ "/paused") (calls t)
  has_guest n m c =
      let k = "guest/" ++ n.0 ++ "/paused" in
      part_watched k (left k (guests t.nodes) _ (guests_key n t.nodes m c))

  pub node_named :
      (n : String × Node) (ns : List (String × Node)) → Memᴰ n ns → Memᴰ n.0 (map node_name ns)
  node_named n [] m = elim m [ ]
  node_named n (x ∷ xs) (Memᴰ.head q) = Memᴰ.head (ap node_name q)
  node_named n (x ∷ xs) (Memᴰ.tail m) = Memᴰ.tail (node_named n xs m)
