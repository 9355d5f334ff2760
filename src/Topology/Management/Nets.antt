-- ===== src/Topology/Management/Nets.antt =====
-- The subnets of the management networks that packages/lab-support/cpp/contracts.cpp accepts have no address
-- in common: its test of the two networks' own addresses is enough for that.
use Prim.Native.String.{String}
use mathlib.Core.List.{Memᴰ}
use native.Mathlib.Nat.{div-div-eq-div-mul, mul-div_cancel, one-le-pow, mul-one, mul_assoc, pow-suc}
use graphlab.Prelude.{
  ℕ, zero, suc, ◌+◌, ◌-◌, ◌*◌, ◌/◌, ◌^◌, ◌≤◌, ◌<◌, ◌≡◌, sym, ap, subst, ◌∙◌, ◌⊎◌, inl, inr, Bool,
  true, false, not, ◌&&◌, ◌||◌, List, [], ◌∷◌, Option, ==_iff, leb, leb→le, ok, arith,
}
use graphlab.Topology.Json.{Json, Check, ◌>>=◌, bind-ok, require-ok, ok_inj}
use graphlab.Topology.Cidr.{Cidr, masked, inside}
use graphlab.Topology.Management.{
  Network, is_network, overlap, overlaps_any, network_parts, network_of, networks_of,
}

-- An address of a network.
abbrev pub Holds : Cidr → ℕ → Type 0
Holds c x = masked x c ≡ masked c.ip c

pow-plus : (m n : ℕ) → 2 ^ (m + n) ≡ 2 ^ m * 2 ^ n
pow-plus m zero = ap (λ k. 2 ^ k) zero_right ∙ sym (mul-one (2 ^ m))
  where
    zero_right : m + 0 ≡ m
    zero_right = omega arith
pow-plus m (suc n) =
    let e : m + suc n ≡ suc (m + n) = omega arith in
    ap (λ k. 2 ^ k) e
    ∙ pow-suc 2 (m + n)
    ∙ ap (λ k. k * 2) (pow-plus m n)
    ∙ mul_assoc (2 ^ m) (2 ^ n) 2
    ∙ ap (λ k. 2 ^ m * k) (sym (pow-suc 2 n))

power_split : (a b : ℕ) → a ≤ b → b ≤ 32 → 2 ^ (32 - a) ≡ 2 ^ (32 - b) * 2 ^ (b - a)
power_split a b h k =
    let e : 32 - a ≡ (32 - b) + (b - a) = omega (arith, h, k) in
    ap (λ n. 2 ^ n) e ∙ pow-plus (32 - b) (b - a)

pow_positive : (n : ℕ) → 0 < 2 ^ n
pow_positive n = one-le-pow n 2 (omega arith)

quotients : (x y s : ℕ) → 0 < s → x / s * s ≡ y / s * s → x / s ≡ y / s
quotients x y s h e = sym (mul-div_cancel (x / s) h) ∙ ap (λ n. n / s) e ∙ mul-div_cancel (y / s) h

-- Two blocks with an address in common are nested: the longer prefix lies in the shorter.
common-inside :
    (a b : Cidr) (x : ℕ)
    → a.prefix ≤ b.prefix
    → b.prefix ≤ 32
    → Holds a x
    → Holds b x
    → inside b a ≡ true
common-inside a b x l k ha hb =
    let B = 2 ^ (32 - b.prefix) in
    let C = 2 ^ (b.prefix - a.prefix) in
    let A = 2 ^ (32 - a.prefix) in
    let e : A ≡ B * C = power_split a.prefix b.prefix l k in
    let q : x / B ≡ b.ip / B = quotients x b.ip B (pow_positive (32 - b.prefix)) hb in
    let split : (y : ℕ) → y / A ≡ y / B / C =
      λ y. ap (λ n. y / n) e ∙ sym (div-div-eq-div-mul y B C) in
    let same : b.ip / A ≡ x / A = split b.ip ∙ ap (λ n. n / C) (sym q) ∙ sym (split x) in
    (==_iff (masked b.ip a) (masked a.ip a)).1 (ap (λ n. n * A) same ∙ ha)

-- Two networks of which no address is in both.
abbrev pub Foreign : Cidr → Cidr → Type 0
Foreign a b = (x : ℕ) → Holds a x → Holds b x → ⊥

-- The lengths of the prefixes are at most 30, and the test of an overlap finds none.
overlap-Foreign : (a b : Cidr) → a.prefix ≤ 30 → b.prefix ≤ 30 → overlap a b ≡ false → Foreign a b
overlap-Foreign a b la lb n x ha hb = elim (le_total a.prefix b.prefix) [
  | inl l ↦
      let i = common-inside a b x l (omega (arith, lb)) ha hb in
      cc (or_right (inside a b) (inside b a) n, i)
  | inr l ↦
      let i = common-inside b a x l (omega (arith, la)) hb ha in
      cc (or_left (inside a b) (inside b a) n, i)
]
  where
    le_total : (m n : ℕ) → (m ≤ n) ⊎ (n ≤ m)
    le_total m n = omega arith

    or_left : (p q : Bool) → (p || q) ≡ false → p ≡ false
    or_left p q h = ground (arith, h)

    or_right : (p q : Bool) → (p || q) ≡ false → q ≡ false
    or_right p q h = ground (arith, h)

-- What is known of the networks so far, the latest first.
abbrev pub AllForeign : List Network → Type 0
AllForeign [] = Unit
AllForeign (n ∷ ns) = (n.subnet.prefix ≤ 30) × (overlaps_any n.subnet ns ≡ false) × AllForeign ns

record Fitting (before : List Network) (n : Network) : Type 0 where
  short : n.subnet.prefix ≤ 30
  apart : overlaps_any n.subnet before ≡ false

module _ (inet_pton : String → Option ℕ) where
  network_parts-Fitting :
      (before : List Network) (m : String × Json) (n : Network)
      → network_parts inet_pton before m ≡ ok n
      → Fitting before n
  network_parts-Fitting before m n h =
      let (u0, t0, h0) = bind-ok _ _ n h in
      let (u1, t1, h1) = bind-ok _ _ n h0 in
      let (subnet, t2, h2) = bind-ok _ _ n h1 in
      let (pool, t3, h3) = bind-ok _ _ n h2 in
      let (u4, t4, h4) = bind-ok _ _ n h3 in
      let (u5, t5, h5) = bind-ok _ _ n h4 in
      let (u6, t6, h6) = bind-ok _ _ n h5 in
      let (gw, t7, h7) = bind-ok _ _ n h6 in
      let (u8, t8, h8) = bind-ok _ _ n h7 in
      let (external, t9, h9) = bind-ok _ _ n h8 in
      let (u10, t10, h10) = bind-ok _ _ n h9 in
      let r : Network = record {
        name = m.0;
        subnet = subnet;
        pool = pool;
        allocations = gw.ip ∷ [];
      } in
      let range =
        require-ok (leb 8 subnet.prefix && leb subnet.prefix 30 && is_network subnet) u4 t4 in
      let fitting : Fitting before r = record {
        short =
            leb→le subnet.prefix 30
              (middle (leb 8 subnet.prefix) (leb subnet.prefix 30) (is_network subnet) range);
        apart =
            negated (overlaps_any subnet before)
              (require-ok (not (overlaps_any subnet before)) u6 t6);
      } in
      subst (Fitting before) (ok_inj r n h10) fitting
    where
      middle : (a b c : Bool) → (a && b && c) ≡ true → b ≡ true
      middle a b c h = ground (arith, h)

      negated : (b : Bool) → not b ≡ true → b ≡ false
      negated b h = ground (arith, h)

  network_of-Fitting :
      (before : List Network) (m : String × Json) (n : Network)
      → network_of inet_pton before m ≡ ok n
      → Fitting before n
  unfolding network_of
  network_of-Fitting before m n h = network_parts-Fitting before m n h

  abbrev networks_step : List Network → String × Json → List (String × Json) → Check (List Network)
  networks_step before m ms = do
    n ← network_of inet_pton before m
    networks_of inet_pton (n ∷ before) ms

  networks_of-AllForeign :
      (before : List Network) (ms : List (String × Json)) (nets : List Network)
      → networks_of inet_pton before ms ≡ ok nets
      → AllForeign before
      → AllForeign nets
  unfolding networks_of
  networks_of-AllForeign before [] nets h a = subst AllForeign (ok_inj before nets h) a
  networks_of-AllForeign before (m ∷ ms) nets h a =
      let h' : networks_step before m ms ≡ ok nets = h in
      let (n, t0, h0) = bind-ok _ _ nets h' in
      let f = network_of-Fitting before m n t0 in
      networks_of-AllForeign (n ∷ before) ms nets h0 (f.short, f.apart, a)

short_of :
    (nets : List Network) (n : Network) → AllForeign nets → Memᴰ n nets → n.subnet.prefix ≤ 30
short_of [] n a m = elim m [ ]
short_of (x ∷ xs) n a (Memᴰ.head q) = subst (λ (y : Network). y.subnet.prefix ≤ 30) (sym q) a.0
short_of (x ∷ xs) n a (Memᴰ.tail m) = short_of xs n a.2 m

none_overlaps :
    (c : Cidr) (ns : List Network) (n : Network)
    → overlaps_any c ns ≡ false
    → Memᴰ n ns
    → overlap c n.subnet ≡ false
none_overlaps c [] n h m = elim m [ ]
none_overlaps c (x ∷ xs) n h (Memᴰ.head q) =
    subst (λ (y : Network). overlap c y.subnet ≡ false) (sym q) (ground (arith, h))
none_overlaps c (x ∷ xs) n h (Memᴰ.tail m) = none_overlaps c xs n (ground (arith, h)) m

foreign :
    (x : Network) (xs : List Network) (n : Network)
    → AllForeign (x ∷ xs)
    → Memᴰ n xs
    → Foreign x.subnet n.subnet
foreign x xs n a m =
    overlap-Foreign x.subnet n.subnet a.0 (short_of xs n a.2 m) (none_overlaps x.subnet xs n a.1 m)

same_or-Foreign :
    (nets : List Network) (m n : Network)
    → AllForeign nets
    → Memᴰ m nets
    → Memᴰ n nets
    → (m ≡ n) ⊎ Foreign m.subnet n.subnet
same_or-Foreign [] m n a p q = elim p [ ]
same_or-Foreign (x ∷ xs) m n a (Memᴰ.head p) (Memᴰ.head q) = inl (p ∙ sym q)
same_or-Foreign (x ∷ xs) m n a (Memᴰ.head p) (Memᴰ.tail q) =
    inr (subst (λ (y : Network). Foreign y.subnet n.subnet) (sym p) (foreign x xs n a q))
same_or-Foreign (x ∷ xs) m n a (Memᴰ.tail p) (Memᴰ.head q) =
    inr (
      subst (λ (y : Network). Foreign m.subnet y.subnet) (sym q)
        (λ z h k. foreign x xs m a p z k h))
same_or-Foreign (x ∷ xs) m n a (Memᴰ.tail p) (Memᴰ.tail q) = same_or-Foreign xs m n a.2 p q

-- Of the management networks that are accepted, no two that differ have an address in common.
pub networks_of-Foreign :
    (inet_pton : String → Option ℕ) (ms : List (String × Json)) (nets : List Network)
    (m n : Network)
    → networks_of inet_pton [] ms ≡ ok nets
    → Memᴰ m nets
    → Memᴰ n nets
    → (m ≡ n) ⊎ Foreign m.subnet n.subnet
networks_of-Foreign inet_pton ms nets m n h p q =
    same_or-Foreign nets m n (networks_of-AllForeign inet_pton [] ms nets h tt) p q
