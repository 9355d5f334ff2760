-- ===== src/Planner/Plan/Ranks.antt =====
-- A rank for the steps of cpp/planner.cpp, read off the characters of their keys: each step ranks above
-- what it depends on.
use Prim.Native.Char.{code}
use Prim.Native.String.{String, ◌∷◌, [], ◌++◌}
use text.Mathlib.TextLemmas.{cons-append}
use graphlab.Prelude.{ℕ, zero, suc, ◌≡◌, refl, ap, ◌∙◌, if◌then◌else◌, ◌==◌, arith}

-- The code of a character at a place, 0 behind the end.
unfoldable nth : ℕ → String → ℕ
nth i [] = 0
nth zero (c ∷ s) = code c
nth (suc i) (c ∷ s) = nth i s

nth-append : (i : ℕ) (p s : String) (n : ℕ) → nth i p ≡ suc n → nth i (p ++ s) ≡ suc n
unfolding nth
nth-append i [] s n h = absurd (omega (arith, h))
nth-append zero (c ∷ p) s n h = ap (nth zero) (cons-append c p s) ∙ h
nth-append (suc i) (c ∷ p) s n h = ap (nth (suc i)) (cons-append c p s) ∙ nth-append i p s n h

-- By the first character, the second, the third and the eighth.
abbrev ranked_by : ℕ → ℕ → ℕ → ℕ → ℕ
ranked_by a b c h =
    if a == b'm'
    then 1
    else if a == b'n'
    then 2
    else if a == b'g'
    then 5
    else if a == b'h'
    then 11
    else if a == b'p'
    then (if b == b'r' then 0 else 4)
    else if a == b'e'
    then (if b == b'd' then 3 else 8)
    else if a == b'r'
    then (if c == b'l' then 10 else 12)
    else if b == b'o'
    then 9
    else if h == b'/'
    then 6
    else 7

unfoldable pub rank : String → ℕ
unfolding nth
rank s = ranked_by (nth 0 s) (nth 1 s) (nth 2 s) (nth 7 s)

module _ (id : String) where
  pub rank_management : rank ("management/" ++ id) ≡ 1
  unfolding rank nth
  rank_management = rw (nth-append 0 "management/" id 108 refl)

  pub rank_node : rank ("node/" ++ id) ≡ 2
  unfolding rank nth
  rank_node = rw (nth-append 0 "node/" id 109 refl)

  pub rank_edge : rank ("edge/" ++ id) ≡ 3
  unfolding rank nth
  rank_edge = rw (nth-append 0 "edge/" id 100 refl, nth-append 1 "edge/" id 99 refl)

  pub rank_guest : rank ("guest/" ++ id) ≡ 5
  unfolding rank nth
  rank_guest = rw (nth-append 0 "guest/" id 102 refl)

  pub rank_capture : rank ("capture/" ++ id) ≡ 6
  unfolding rank nth
  rank_capture = rw (
    nth-append 0 "capture/" id 98 refl,
    nth-append 1 "capture/" id 96 refl,
    nth-append 7 "capture/" id 46 refl,
  )

  pub rank_release : rank ("release/" ++ id) ≡ 10
  unfolding rank nth
  rank_release = rw (nth-append 0 "release/" id 113 refl, nth-append 2 "release/" id 107 refl)

  pub rank_health : rank ("health/" ++ id) ≡ 11
  unfolding rank nth
  rank_health = rw (nth-append 0 "health/" id 103 refl)
