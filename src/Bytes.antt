-- ===== src/Bytes.antt =====
-- Little-endian integers in byte strings: `put` and `get` of cpp/terminal/recording.cpp, which the
-- PCAPNG writer and its readers repeat under other names. A byte is a number below 256.
use native.Mathlib.Nat.{pow-suc}
use graphlab.Prelude.{
  ℕ, zero, suc, ◌+◌, ◌*◌, ◌/◌, ◌%◌, ◌^◌, ◌<◌, ◌≤◌, ◌≡◌, refl, ap, List, [], ◌∷◌, arith, length, All,
  Option, none, some, leb, take, drop, if◌then◌else◌, Bool-cases, inl, inr,
}

abbrev pub Bytes : Type 0
Bytes = List ℕ

-- Round i appends the low byte of n >> (8 * i); the shift by 8 is carried from round to round.
unfoldable pub put : ℕ → ℕ → Bytes
put n zero = []
put n (suc width) = n % 256 ∷ put (n / 256) width

-- The bytes are below 256, so that `|=` with a byte shifted past the bits so far is a sum.
unfoldable pub get : Bytes → ℕ
get [] = 0
get (b ∷ bs) = b + 256 * get bs

-- An unsigned 64-bit sum wraps.
abbrev pub u64 : ℕ → ℕ
u64 n = n % 2 ^ 64

-- The `size` bytes from `i` on; `none` where not all of them are there.
unfoldable pub slice : Bytes → (i size : ℕ) → Option Bytes
slice b i size = if leb (i + size) (length b) then some (take size (drop i b)) else none

pub slice_total :
    (b : Bytes) (i size : ℕ) → i + size ≤ length b → slice b i size ≡ some (take size (drop i b))
unfolding slice
slice_total b i size h = elim (Bool-cases (leb (i + size) (length b))) [
  | inl e ↦ rw e refl
  | inr e ↦ absurd (ground (arith, h, e))
]

abbrev pub IsByte : ℕ → Type 0
IsByte b = b < 256

pub length-put : (n width : ℕ) → length (put n width) ≡ width
unfolding put
length-put n zero = refl
length-put n (suc width) = ap suc (length-put (n / 256) width)

pub All-put : (n width : ℕ) → All IsByte (put n width)
unfolding put
All-put n zero = tt
All-put n (suc width) = (omega arith, All-put (n / 256) width)

-- A number that fits the width is read back.
pub get-put : (n width : ℕ) → n < 256 ^ width → get (put n width) ≡ n
unfolding put get
get-put n zero h = omega arith
get-put n (suc width) h = omega (arith, get-put (n / 256) width (omega (arith, pow-suc 256 width)))
