-- ===== src/Topology/Management/Apart.antt =====
-- The management attachments that packages/lab-support/cpp/contracts.cpp accepts share no port, and no
-- address of a network.
use Prim.Native.String.{String}
use text.Mathlib.Text.{◌==◌}
use text.Mathlib.TextEquality.{eq_iff}
use mathlib.Core.List.{Memᴰ}
use graphlab.Prelude.{
  ℕ, ◌≡◌, ◌≢◌, refl, sym, ap, subst, ◌∙◌, ◌⊎◌, inl, inr, Bool, true, false, List, [], ◌∷◌, Option,
  none, some, ==_iff, Bool-cases, arith,
}
use graphlab.Runtime.Source.Store.{changed}
use graphlab.Topology.Json.{mem}
use graphlab.Topology.Nodes.{Node}
use graphlab.Topology.Edges.Apart.{mem-cons, mem_here, unlike}
use graphlab.Topology.Management.{Network, Attachment, network_at, allocate, among}
use graphlab.Topology.Management.Attached.{AllGiven}

abbrev added : ℕ → Network → Network
added x n = record n { allocations = x ∷ n.allocations }

abbrev added_if : Bool → ℕ → Option Network → Option Network
added_if true x o = changed (added x) o
added_if false x o = o

network_at-allocate :
    (k j : String) (x : ℕ) (nets : List Network)
    → network_at k (allocate j x nets) ≡ added_if (j == k) x (network_at k nets)
network_at-allocate k j x [] = elim (Bool-cases (j == k)) [ inl c ↦ rw c refl | inr c ↦ rw c refl ]
network_at-allocate k j x (n ∷ ns) = elim (Bool-cases (n.name == j)) [
  | inl c ↦ elim (Bool-cases (j == k)) [
    | inl d ↦
        let q : (n.name == k) ≡ true =
          ground (arith, eq_iff n.name j, eq_iff j k, eq_iff n.name k, c, d) in
        rw (c, d, q) refl
    | inr d ↦
        let q : (n.name == k) ≡ false =
          ground (arith, eq_iff n.name j, eq_iff j k, eq_iff n.name k, c, d) in
        rw (c, d, q) refl
  ]
  | inr c ↦ elim (Bool-cases (n.name == k)) [
    | inl d ↦
        let q : (j == k) ≡ false =
          ground (arith, eq_iff n.name j, eq_iff j k, eq_iff n.name k, c, d) in
        rw (c, d, q) refl
    | inr d ↦ rw (c, d) (network_at-allocate k j x ns)
  ]
]

-- An address that a network gave out.
abbrev Taken : String → ℕ → List Network → Type 0
Taken k x nets = (n : Network) → network_at k nets ≡ some n → among x n.allocations ≡ true

taken_if :
    (c : Bool) (x y : ℕ) (o : Option Network)
    → ((n : Network) → o ≡ some n → among x n.allocations ≡ true)
    → (n : Network) → added_if c y o ≡ some n
    → among x n.allocations ≡ true
taken_if false x y o t n h = t n h
taken_if true x y none t n h = absurd (cc h)
taken_if true x y (some m) t n h =
    let a : among x m.allocations ≡ true = t m refl in
    let b : among x (added y m).allocations ≡ true = ground (arith, a) in
    let e : added y m ≡ n = some_inj h in subst (λ (z : Network). among x z.allocations ≡ true) e b
  where
    some_inj : {a b : Network} → some a ≡ some b → a ≡ b
    some_inj h = cc h

Taken-stays :
    (k j : String) (x y : ℕ) (nets : List Network) → Taken k x nets → Taken k x (allocate j y nets)
Taken-stays k j x y nets t n h =
    taken_if (j == k) x y (network_at k nets) t n (sym (network_at-allocate k j y nets) ∙ h)

new_if :
    (c : Bool) (x : ℕ) (o : Option Network) (n : Network)
    → c ≡ true
    → added_if c x o ≡ some n
    → among x n.allocations ≡ true
new_if false x o n e h = absurd (cc e)
new_if true x none n e h = absurd (cc h)
new_if true x (some m) n e h =
    let b : among x (added x m).allocations ≡ true = ground (arith, ==_iff x x) in
    let q : added x m ≡ n = some_inj h in subst (λ (z : Network). among x z.allocations ≡ true) q b
  where
    some_inj : {a b : Network} → some a ≡ some b → a ≡ b
    some_inj h = cc h

Taken-new : (k : String) (x : ℕ) (nets : List Network) → Taken k x (allocate k x nets)
Taken-new k x nets n h =
    new_if (k == k) x (network_at k nets) n (ground (arith, eq_iff k k))
      (sym (network_at-allocate k k x nets) ∙ h)

-- Two attachments of different ports, which have different addresses where they share a network.
pub record Separate (a b : Attachment) : Type 0 where
  pub ports : a.endpoint ≢ b.endpoint
  pub addresses : a.network ≡ b.network → a.address ≢ b.address

Separate-sym : (a b : Attachment) → Separate a b → Separate b a
Separate-sym a b s = record {
  ports = λ p. s.ports (sym p);
  addresses = λ p q. s.addresses (sym p) (sym q);
}

module _ (nodes : List (String × Node)) where
  later :
      (nets : List Network) (used : List String) (rest : List Attachment) (a b : Attachment)
      → AllGiven nodes nets used rest
      → mem a.endpoint used ≡ true
      → Taken a.network a.address nets
      → Memᴰ b rest
      → Separate a b
  later nets used [] a b g u t m = elim m [ ]
  later nets used (x ∷ xs) a b g u t (Memᴰ.head q) =
      let here : Separate a x = record {
        ports = unlike a.endpoint x.endpoint used u g.0.unused;
        addresses = λ p r.
            let k = t g.0.net (ap (λ y. network_at y nets) p ∙ g.0.net_found) in
            cc (ap (λ y. among y g.0.net.allocations) r, k, g.0.fresh);
      } in
      subst (Separate a) (sym q) here
  later nets used (x ∷ xs) a b g u t (Memᴰ.tail m) =
      later (allocate x.network x.address nets) (x.endpoint ∷ used) xs a b g.1
        (mem-cons a.endpoint x.endpoint used u)
        (Taken-stays a.network x.network a.address x.address nets t) m

  behind :
      (nets : List Network) (used : List String) (rest : List Attachment) (x b : Attachment)
      → AllGiven nodes nets used (x ∷ rest)
      → Memᴰ b rest
      → Separate x b
  behind nets used rest x b g m =
      later (allocate x.network x.address nets) (x.endpoint ∷ used) rest x b g.1
        (mem_here x.endpoint used) (Taken-new x.network x.address nets) m

  -- Of two attachments of an accepted list, either both are one, or they are of different ports and do
  -- not share an address of a network.
  pub same_or-Separate :
      (nets : List Network) (used : List String) (rest : List Attachment) (a b : Attachment)
      → AllGiven nodes nets used rest
      → Memᴰ a rest
      → Memᴰ b rest
      → (a ≡ b) ⊎ Separate a b
  same_or-Separate nets used [] a b g m n = elim m [ ]
  same_or-Separate nets used (x ∷ xs) a b g (Memᴰ.head p) (Memᴰ.head q) = inl (p ∙ sym q)
  same_or-Separate nets used (x ∷ xs) a b g (Memᴰ.head p) (Memᴰ.tail n) =
      inr (subst (λ y. Separate y b) (sym p) (behind nets used xs x b g n))
  same_or-Separate nets used (x ∷ xs) a b g (Memᴰ.tail m) (Memᴰ.head q) =
      inr (subst (Separate a) (sym q) (Separate-sym x a (behind nets used xs x a g m)))
  same_or-Separate nets used (x ∷ xs) a b g (Memᴰ.tail m) (Memᴰ.tail n) =
      same_or-Separate (allocate x.network x.address nets) (x.endpoint ∷ used) xs a b g.1 m n
