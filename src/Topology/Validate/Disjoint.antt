-- ===== src/Topology/Validate/Disjoint.antt =====
-- What a topology that `validate` of packages/lab-support/cpp/contracts.cpp accepts never shares.
use Prim.Native.String.{String}
use mathlib.Core.List.{Memᴰ}
use graphlab.Prelude.{ℕ, Option, ◌≡◌, refl, sym, subst, ◌⊎◌, List, [], ◌∷◌, All, ok}
use graphlab.Topology.Json.{Json}
use graphlab.Topology.Edges.{Edge}
use graphlab.Topology.Edges.Apart.{Apart, same_or-Apart}
use graphlab.Topology.Management.{Attachment}
use graphlab.Topology.Management.Apart.{Separate, same_or-Separate}
use graphlab.Topology.Validate.{ValidatedTopology, validate, sort_edges}
use graphlab.Topology.Validate.Facts.{validate-IsValid, All-sort_edges}

All-self {ℓ} :
    {A : Type ℓ} (xs ys : List A) → ((x : A) → Memᴰ x xs → Memᴰ x ys) → All (λ x. Memᴰ x ys) xs
All-self [] ys h = tt
All-self (x ∷ xs) ys h = (h x (Memᴰ.head refl), All-self xs ys (λ z m. h z (Memᴰ.tail m)))

All-at {ℓ κ} : {A : Type ℓ} (P : A → Type κ) (xs : List A) (x : A) → All P xs → Memᴰ x xs → P x
All-at P [] x a m = elim m [ ]
All-at P (y ∷ ys) x a (Memᴰ.head q) = subst P (sym q) a.0
All-at P (y ∷ ys) x a (Memᴰ.tail m) = All-at P ys x a.1 m

mem_listed : (es : List Edge) (e : Edge) → Memᴰ e (sort_edges es) → Memᴰ e es
mem_listed es e m =
    All-at (λ x. Memᴰ x es) (sort_edges es) e
      (All-sort_edges (λ x. Memᴰ x es) es (All-self es es (λ x n. n))) m

module _ (inet_pton : String → Option ℕ) (digest : Json → String) where
  -- Of two edges of an accepted topology, either both are one, or they have different names and share no
  -- endpoint.
  pub validate-Apart :
      (d lock : Json) (t : ValidatedTopology) (e f : Edge)
      → validate inet_pton digest d lock ≡ ok t
      → Memᴰ e t.edges
      → Memᴰ f t.edges
      → (e ≡ f) ⊎ Apart e f
  validate-Apart d lock t e f h m n =
      let v = validate-IsValid inet_pton digest d lock t h in
      let at = λ (x : Edge) (k : Memᴰ x t.edges).
        mem_listed v.listed x (subst (Memᴰ x) v.edges_sorted k) in
      same_or-Apart t.nodes t.rstp [] [] v.listed e f v.accepted (at e m) (at f n)

  -- Of two management attachments of an accepted topology, either both are one, or they are of different
  -- ports and, on one network, of different addresses.
  pub validate-Separate :
      (d lock : Json) (t : ValidatedTopology) (a b : Attachment)
      → validate inet_pton digest d lock ≡ ok t
      → Memᴰ a t.attachments
      → Memᴰ b t.attachments
      → (a ≡ b) ⊎ Separate a b
  validate-Separate d lock t a b h m n =
      let v = validate-IsValid inet_pton digest d lock t h in
      same_or-Separate t.nodes v.nets _ t.attachments a b v.given m n
