-- ===== src/Capture/Partial.antt =====
-- `inspect_partial` of cpp/capture/writer.cpp: how much of an unfinished segment is whole blocks.
use graphlab.Prelude.{
  ℕ, zero, suc, ◌+◌, ◌-◌, ◌%◌, ◌*◌, ◌≤◌, ◌<◌, ◌≡◌, refl, Bool, true, false, not, ◌||◌, Option, none,
  some, ltb, [], ◌∷◌, ◌==◌, if◌then◌else◌, length, take, drop, length-drop, arith, Bool-cases,
  Option-cases, inl, inr,
}
use graphlab.Bytes.{Bytes, get}

abbrev read32 : Bytes → ℕ → ℕ
read32 b n = get (take 4 (drop n b))

-- The length of the block at the front, where its header and its trailer agree.
unfoldable pub framed : Bytes → Option ℕ
framed rest =
    let len = read32 rest 4 in
    let body = take (len - 8) (drop 8 rest) in
    if ltb (length rest) 8
    then none
    else if ltb len 12 || not (len % 4 == 0) || ltb (1024 * 1024) len
    then none
    else if not (length body == len - 8) || not (read32 body (len - 12) == len)
    then none
    else some len

-- The checks on one block; the new values of `section` and `interface`.
unfoldable pub admitted : (type len : ℕ) → Bytes → Bool → Bool → Option (Bool × Bool)
admitted type len body section interface =
    if not section
    then (if not (type == 0x0a0d0d0a) || ltb len 28 || not (read32 body 0 == 0x1a2b3c4d)
        then none
        else some (true, interface))
    else if type == 1
    then (if ltb len 20 then none else some (section, true))
    else if type == 6
    then (if not interface
          || ltb len 32
          || not (read32 body 0 == 0)
          || ltb (read32 body 16) (read32 body 12)
          || ltb (len - 32) (read32 body 12)
        then none
        else some (section, interface))
    else some (section, interface)

-- The loop over the blocks; `valid` counts the bytes accepted so far.
unfoldable pub inspect : ℕ → Bytes → Bool → Bool → ℕ → Option ℕ
inspect zero rest section interface valid = none
inspect (suc fuel) rest section interface valid = elim (framed rest) [
  | none ↦ some valid
  | some len ↦
      elim (admitted (read32 rest 0) len (take (len - 8) (drop 8 rest)) section interface) [
        | none ↦ some valid
        | some (s, i) ↦ inspect fuel (drop len rest) s i (valid + len)
      ]
]

-- `validPrefixBytes`
unfoldable pub inspect_partial : Bytes → Option ℕ
inspect_partial file = inspect (suc (length file)) file false false 0

length-take_le : (n : ℕ) (b : Bytes) → length (take n b) ≤ length b
length-take_le zero b = omega arith
length-take_le (suc n) [] = omega arith
length-take_le (suc n) (x ∷ b) = omega (arith, length-take_le n b)

framed-bounds :
    (rest : Bytes) (len : ℕ)
    → framed rest ≡ some len
    → (12 ≤ len) × (len ≤ length rest) × (len % 4 ≡ 0)
unfolding framed
framed-bounds rest len e =
    let n = read32 rest 4 in
    let body = take (n - 8) (drop 8 rest) in
    elim (Bool-cases (ltb (length rest) 8)) [
      | inl c ↦ cc (rw c at e)
      | inr c ↦ elim (Bool-cases (ltb n 12 || not (n % 4 == 0) || ltb (1024 * 1024) n)) [
        | inl d ↦ cc (rw (c, d) at e)
        | inr d ↦
            elim (Bool-cases (not (length body == n - 8) || not (read32 body (n - 12) == n))) [
              | inl g ↦ cc (rw (c, d, g) at e)
              | inr g ↦
                  let same : n ≡ len = cc (rw (c, d, g) at e) in
                  let low : 12 ≤ n = ground (arith, d) in
                  let words : n % 4 ≡ 0 = ground (arith, d) in
                  let long : length body ≡ n - 8 = ground (arith, g) in
                  (
                    omega (arith, same, low),
                    omega (
                      arith,
                      same,
                      low,
                      long,
                      length-take_le (n - 8) (drop 8 rest),
                      length-drop 8 rest,
                    ),
                    omega (arith, same, words),
                  )
            ]
      ]
    ]

inspect-bounds :
    (fuel : ℕ) (rest : Bytes) (section interface : Bool) (valid total : ℕ)
    → length rest < fuel
    → valid + length rest ≡ total
    → valid % 4 ≡ 0
    → (v : ℕ) × (inspect fuel rest section interface valid ≡ some v) × (v ≤ total) × (v % 4 ≡ 0)
unfolding inspect
inspect-bounds zero rest section interface valid total f t m = absurd (omega arith)
inspect-bounds (suc fuel) rest section interface valid total f t m =
    elim (Option-cases (framed rest)) [
      | inl e ↦ (valid, rw (e, inspect) refl, omega arith, m)
      | inr (len, e) ↦
          let (a, b, c) = framed-bounds rest len e in
          elim (Option-cases
            (admitted (read32 rest 0) len (take (len - 8) (drop 8 rest)) section interface)) [
              | inl g ↦ (valid, rw (e, g, inspect) refl, omega arith, m)
              | inr (x, g) ↦
                  rw (e, g, inspect)
                    (inspect-bounds fuel (drop len rest) x.0 x.1 (valid + len) total
                      (omega (arith, length-drop len rest)) (omega (arith, length-drop len rest))
                      (omega (arith, m, c)))
            ]
    ]

-- On any bytes, `inspect_partial` ends and reports a prefix that lies inside the file and is a whole
-- number of 32-bit words.
pub inspect_partial-bounds :
    (file : Bytes) → (v : ℕ) × (inspect_partial file ≡ some v) × (v ≤ length file) × (v % 4 ≡ 0)
unfolding inspect_partial
inspect_partial-bounds file =
    inspect-bounds (suc (length file)) file false false 0 (length file) (omega arith) (omega arith)
      refl
