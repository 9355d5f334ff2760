-- ===== src/Capture/Writer/Quota.antt =====
-- What the PCAPNG writer counts and what it writes, over any sequence of calls.
use graphlab.Prelude.{
  ℕ, zero, suc, ◌+◌, ◌^◌, ◌≤◌, ◌<◌, ◌≡◌, refl, ap, sym, Bool, true, false, not, ◌||◌, List, [], ◌∷◌,
  ◌++◌, ltb, if◌then◌else◌, length, arith, Result, ok, err, All, length-append, Bool-cases, inl,
  inr,
}
use graphlab.Bytes.{Bytes, u64, length-put}
use graphlab.Descriptor.{Written, failed, Ending, all-Writes, Writes, whole, part}
use graphlab.Capture.Writer.{
  Failure, Config, Segment, Writer, M, bound, ◌>>=◌, check, modify, u32, u16, pad_rounds, pad,
  option, block_bytes, ended, block, sync, description, resolution, interface_body, packet_body,
}

abbrev pub sizes : List Segment → ℕ
sizes [] = 0
sizes (s ∷ ss) = s.size + sizes ss

-- The closed segments and the counts of them, within the byte budget.
pub record Accounted (w : Writer) : Type 0 where
  pub roomy : w.config.byte_budget + 2 ^ 33 < 2 ^ 64
  pub short : w.config.snaplen < 2 ^ 32
  pub total : w.total ≡ sizes w.segments
  pub exact : All (λ (s : Segment). s.size ≡ length s.content) w.segments
  pub within : w.total + w.bytes ≤ w.config.byte_budget

-- The open segment is counted byte for byte.
abbrev pub IsExact : Writer → Type 0
IsExact w = w.bytes ≡ length w.file

-- With a segment open or not: `bytes` counts the segment that is open.
abbrev pub At : Bool → Writer → Type 0
At has w = (w.is_open ≡ has) × (has ≡ true → IsExact w)

-- A call keeps the accounts in any case, and `P` where it returns.
abbrev pub Keeps : {A : Type 0} → (P Q : Writer → Type 0) → M A → Type 0
Keeps {A} P Q m =
    (w : Writer) → Accounted w → P w → Accounted (m w).0 × ((a : A) → (m w).1 ≡ ok a → Q (m w).0)

pub then-Keeps :
    {A B : Type 0} (P Q R : Writer → Type 0) (m : M A) (f : A → M B)
    → Keeps P Q m
    → ((a : A) → Keeps Q R (f a))
    → Keeps P R (m >>= f)
then-Keeps {A} {B} P Q R m f k l w h p = go (m w) (k w h p)
  where
    go :
        (x : Writer × Result Failure A)
        → Accounted x.0 × ((a : A) → x.1 ≡ ok a → Q x.0)
        → Accounted (bound x f).0 × ((b : B) → (bound x f).1 ≡ ok b → R (bound x f).0)
    go (v, ok a) z = l a v z.0 (z.1 a refl)
    go (v, err e) z = (z.0, λ b c. cc)

pub length-block_bytes :
    (type : ℕ) (body : Bytes) → length (block_bytes type body) ≡ length body + 12
unfolding block_bytes
length-block_bytes type body =
    omega (arith, length-append {0}, length-put type 4, length-put (length body + 12) 4)

ended-Keeps :
    (has : Bool) (w : Writer) (b part : Bytes) (e : Ending)
    → Accounted w
    → w.total + w.bytes + length b ≤ w.config.byte_budget
    → Writes b part e
    → At has w
    → Accounted (ended w b (part, e)).0
      × ((a : Unit {0}) → (ended w b (part, e)).1 ≡ ok a → At has (ended w b (part, e)).0)
unfolding ended
ended-Keeps has w b p e h l (whole q) x = (
  record {
    roomy = h.roomy;
    short = h.short;
    total = h.total;
    exact = h.exact;
    within = omega (arith, h.roomy, h.within, l);
  },
  λ a r. (x.0, λ o. omega (arith, x.1 o, h.roomy, l, length-append w.file p, ap length q)),
)
ended-Keeps has w b p e h l (part missing q m (inl d)) x = rw d (
    (
      record {
        roomy = h.roomy;
        short = h.short;
        total = h.total;
        exact = h.exact;
        within = h.within;
      },
      λ a r. cc,
    ))
ended-Keeps has w b p e h l (part missing q m (inr d)) x = rw d (
    (
      record {
        roomy = h.roomy;
        short = h.short;
        total = h.total;
        exact = h.exact;
        within = h.within;
      },
      λ a r. cc,
    ))

pub block-Keeps :
    (has : Bool) (type : ℕ) (body : Bytes) (answers : List Written)
    → length body < 2 ^ 32 + 2 ^ 31
    → Keeps (At has) (At has) (block type body answers)
unfolding block
block-Keeps has type body answers s w h x =
    elim (Bool-cases
      (ltb w.config.byte_budget (u64 (w.total + w.bytes + length (block_bytes type body))))) [
        | inl full ↦ rw full (h, λ a r. cc)
        | inr room ↦
            let t : ltb w.config.byte_budget
                  (u64 (w.total + w.bytes + length (block_bytes type body)))
                ≡ false =
              room in
            let l : w.total + w.bytes + length (block_bytes type body) ≤ w.config.byte_budget =
              ground (arith, t, length-block_bytes type body, h.roomy, h.within) in
            rw room (
              ended-Keeps has w (block_bytes type body) _ _ h l
                (all-Writes (if w.is_open then answers else failed ∷ []) (block_bytes type body)) x)
      ]

length-pad_rounds : (rounds : ℕ) (b : Bytes) → length (pad_rounds rounds b) ≤ length b + rounds
unfolding pad_rounds
length-pad_rounds zero b = omega arith
length-pad_rounds (suc rounds) b =
    ground (arith, length-pad_rounds rounds (b ++ 0 ∷ []), length-append b (0 ∷ []))

length-option :
    (b : Bytes) (key : ℕ) (value d : Bytes)
    → option b key value ≡ ok d
    → length d ≤ length b + 65535 + 7
unfolding option
length-option b key value d e = elim (Bool-cases (ltb 65535 (length value))) [
  | inl c ↦ cc (rw c at e)
  | inr c ↦
      let fits : length value ≤ 65535 = ground (arith, c) in
      let whole = b ++ (u16 key ++ (u16 (length value) ++ value)) in
      let same : pad whole ≡ d = cc (rw c at e) in
      omega (
        arith,
        ap length same,
        length-pad_rounds 3 whole,
        length-append {0},
        length-put key 2,
        length-put (length value) 2,
      )
]

-- Between two calls.
abbrev pub Between : Writer → Type 0
Between w = w.is_open ≡ true → IsExact w

pub same_fields :
    (P Q : Writer → Type 0) (f : Writer → Writer)
    → ((w : Writer) → Accounted w → P w → Accounted (f w) × Q (f w))
    → Keeps P Q (modify f)
same_fields P Q f k w h p = ((k w h p).0, λ a e. (k w h p).1)

pub check-Keeps : (P : Writer → Type 0) (c : Bool) (e : Failure) → Keeps P P (check c e)
check-Keeps P true e w h p = (h, λ a r. p)
check-Keeps P false e w h p = (h, λ a r. cc)

pub sync-Keeps : (P : Writer → Type 0) (fsynced : Bool) → Keeps P P (sync fsynced)
unfolding sync
sync-Keeps P fsynced w h p = elim (Bool-cases (not w.is_open || not fsynced)) [
  | inl c ↦ rw c (h, λ a r. cc)
  | inr c ↦ rw c (h, λ a r. p)
]

pub length-packet_body :
    (micros : ℕ) (bytes : Bytes) (original : ℕ)
    → length (packet_body micros bytes original) ≤ length bytes + 23
unfolding packet_body
length-packet_body micros bytes original =
    omega (arith, length-pad_rounds 3, length-append {0}, length-put)

length-resolution : (b : Bytes) → length (resolution b) ≤ length b + 12
length-resolution b =
    omega (
      arith,
      length-pad_rounds 3 (b ++ (u16 9 ++ (u16 1 ++ 6 ∷ []))),
      length-append {0},
      length-put,
    )

described :
    (c : Config) (p : Bytes) (r : Result Failure Bytes)
    → length p < 2 ^ 31
    → r ≡ option p 3 (c.edge ++ description)
    → (b : Bytes) → elim r [ err e ↦ err e | ok d ↦ ok (resolution d) ] ≡ ok b
    → length b < 2 ^ 32
described c p (err x) l f b e = cc
described c p (ok d) l f b e =
    let same : resolution d ≡ b = cc e in
    omega (
      arith,
      l,
      length-option p 3 (c.edge ++ description) d (sym f),
      length-resolution d,
      ap length same,
    )

named :
    (c : Config) (front : Bytes) (r : Result Failure Bytes)
    → length front < 2 ^ 30
    → r ≡ option front 2 c.interface
    → (b : Bytes)
    → elim r [
      | err e ↦ err e
      | ok p ↦ elim (option p 3 (c.edge ++ description)) [
        | err e ↦ err e
        | ok d ↦ ok (resolution d)
      ]
    ]
      ≡ ok b
    → length b < 2 ^ 32
named c front (err x) l f b e = cc
named c front (ok p) l f b e =
    described c p (option p 3 (c.edge ++ description))
      (omega (arith, l, length-option front 2 c.interface p (sym f))) refl b e

pub interface_size : (c : Config) (b : Bytes) → interface_body c ≡ ok b → length b < 2 ^ 32
unfolding interface_body
interface_size c b e =
    let front = u16 1 ++ (u16 0 ++ u32 c.snaplen) in
    named c front (option front 2 c.interface) (omega (arith, length-append {0}, length-put)) refl b
      e
