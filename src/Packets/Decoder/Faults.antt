-- ===== src/Packets/Decoder/Faults.antt =====
-- Code of `decode` that does not fault, put together.
use graphlab.Prelude.{
  ℕ, ◌+◌, ◌*◌, ◌≤◌, ◌<◌, ◌≡◌, ◌≢◌, refl, Bool, true, false, leb, if◌then◌else◌, length, take, drop,
  get_elem?, get_elem?_total, length-take, length-drop, arith, Bool-cases, inl, inr,
}
use graphlab.Bytes.{Bytes, get, slice, slice_total}
use graphlab.Packets.Decoder.{
  Checked, Failure, invalid_pcapng, value, thrown, fault, ◌>>=◌, require, read, le, le16,
}

pub data NoFault {A : Type 0} : Checked A → Type 0 where
  value_fine : (a : A) → NoFault (value a)
  thrown_fine : (e : Failure) → NoFault (thrown e)

pub bind :
    {A B : Type 0} (m : Checked A) (f : A → Checked B)
    → NoFault m
    → ((a : A) → m ≡ value a → NoFault (f a))
    → NoFault (m >>= f)
bind (value a) f h k = k a refl
bind (thrown e) f h k = thrown_fine e
bind fault f h k = elim h [ ]

pub branch :
    {A : Type 0} (c : Bool) {x y : Checked A} → NoFault x → NoFault y → NoFault (if c then x else y)
branch true f g = f
branch false f g = g

pub required :
    {B : Type 0} (c : Bool) (f : Unit {0} → Checked B)
    → (c ≡ true → NoFault (f tt))
    → NoFault (require c >>= f)
required true f k = k refl
required false f k = thrown_fine invalid_pcapng

le-NoFault : (b : Bytes) (n : ℕ) → NoFault (le b n)
unfolding le
le-NoFault b n = elim (Bool-cases (leb (n + 4) (length b))) [
  | inl e ↦ rw e (value_fine (get (take 4 (drop n b))))
  | inr e ↦ rw e (thrown_fine invalid_pcapng)
]

pub le_then :
    {B : Type 0} (b : Bytes) (n : ℕ) (f : ℕ → Checked B)
    → ((v : ℕ) → NoFault (f v))
    → NoFault (le b n >>= f)
le_then b n f k = bind (le b n) f (le-NoFault b n) (λ v _. k v)

pub read_then :
    {B : Type 0} (b : Bytes) (n : ℕ) (f : ℕ → Checked B)
    → n < length b
    → ((v : ℕ) → NoFault (f v))
    → NoFault (read (get_elem? b n) >>= f)
read_then b n f h k = let (x, p) = get_elem?_total b n h in rw p (k x)

pub le16_then :
    {B : Type 0} (b : Bytes) (n : ℕ) (f : ℕ → Checked B)
    → n + 1 < length b
    → ((v : ℕ) → NoFault (f v))
    → NoFault (le16 b n >>= f)
unfolding le16
le16_then b n f h k =
    let (x, p) = get_elem?_total b n (omega arith) in
    let (y, q) = get_elem?_total b (n + 1) h in rw (p, q) (k (x + y * 256))

pub require-NoFault : (c : Bool) → NoFault (require c)
require-NoFault true = value_fine tt
require-NoFault false = thrown_fine invalid_pcapng

pub slice_then :
    {B : Type 0} (b : Bytes) (i size : ℕ) (f : Bytes → Checked B)
    → i + size ≤ length b
    → (length (take size (drop i b)) ≡ size → NoFault (f (take size (drop i b))))
    → NoFault (read (slice b i size) >>= f)
slice_then b i size f h k =
    rw (slice_total b i size h) (k (length-take size (drop i b) (omega (arith, length-drop i b))))

pub NoFault-ne : {A : Type 0} {m : Checked A} → NoFault m → m ≢ fault
NoFault-ne (value_fine a) e = cc
NoFault-ne (thrown_fine f) e = cc
