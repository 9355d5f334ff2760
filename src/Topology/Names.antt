-- ===== src/Topology/Names.antt =====
-- The forms that packages/lab-support/cpp/contracts.cpp asks of texts, its regular expressions among them.
use Prim.Native.Char.{code}
use Prim.Native.Nat.{Ordering}
use Prim.Native.String.{String, len, slice, compare, ◌∷◌, []}
use text.Mathlib.Text.{starts_with}
use graphlab.Prelude.{
  ℕ, zero, suc, ◌+◌, ◌-◌, ◌*◌, Bool, true, false, ◌&&◌, ◌||◌, Option, none, some, ◌==◌ as nat_eq,
  leb, if◌then◌else◌,
}
use graphlab.Runtime.Source.Requests.{is_letter, is_digit, is_hex, is_word, all_of, is_source_id}

-- `[A-Za-z][A-Za-z0-9_-]{0,63}`
abbrev pub is_id : String → Bool
is_id s = is_source_id s

-- The text behind a prefix.
abbrev pub behind : String → String → String
behind p s = slice s (len p) (len s)

-- `sha256:[0-9a-f]{64}`
abbrev pub is_hash : String → Bool
is_hash s = starts_with s "sha256:" && all_of is_hex (behind "sha256:" s) && nat_eq (len s) 71

-- Numbers separated by this many dots: `[0-9]+\.[0-9]+`, and so on. The flag: a digit was just read.
unfoldable pub is_dotted : ℕ → Bool → String → Bool
is_dotted zero seen [] = seen
is_dotted (suc n) seen [] = false
is_dotted zero seen (c ∷ s) = let rest = is_dotted zero true s in is_digit (code c) && rest
is_dotted (suc n) seen (c ∷ s) =
    let rest = is_dotted (suc n) true s in
    let next = is_dotted n false s in
    if is_digit (code c) then rest else seen && nat_eq (code c) b'.' && next

-- `[0-9]+\.[0-9]+\.[0-9]+`
abbrev pub is_version : String → Bool
is_version s = is_dotted 2 false s

-- `[A-Za-z0-9_-]+-[0-9]+\.[0-9]+(\.[0-9]+)?`; the flag: a character was read.
unfoldable pub is_machine_from : Bool → String → Bool
unfolding is_dotted
is_machine_from seen [] = false
is_machine_from seen (c ∷ s) =
    let rest = is_machine_from true s in
    (seen && nat_eq (code c) b'-' && (is_dotted 1 false s || is_dotted 2 false s))
    || (is_word (code c) && rest)

abbrev pub is_machine : String → Bool
is_machine s = is_machine_from false s

abbrev is_schema_char : ℕ → Bool
is_schema_char c = is_word c || nat_eq c b'.' || nat_eq c b':' || nat_eq c b'/'

-- `[A-Za-z0-9][A-Za-z0-9._:/-]{0,127}`
abbrev pub is_schema : String → Bool
is_schema [] = false
is_schema (c ∷ s) =
    (is_letter (code c) || is_digit (code c)) && all_of is_schema_char s && leb (len s) 127

-- The first place of a character: what is before it, and behind.
unfoldable pub split_at : ℕ → String → Option (String × String)
split_at x [] = none
split_at x (c ∷ s) =
    let rest = split_at x s in
    if nat_eq (code c) x
    then some ([], s)
    else elim rest [ none ↦ none | some (a, b) ↦ some (c ∷ a, b) ]

abbrev or_nothing : String → Option (String × String) → String
or_nothing s none = s
or_nothing s (some (a, b)) = a

-- `e.substr(0, e.find(':'))`; without a colon, all of the text.
abbrev pub node_of : String → String
node_of e = or_nothing e (split_at b':' e)

-- `std::from_chars` on digits, where the value is at most 32.
unfoldable pub digits : Bool → ℕ → String → Option ℕ
digits seen n [] = if seen then some n else none
digits seen n (c ∷ s) =
    let rest = digits true (n * 10 + (code c - b'0')) s in if is_digit (code c) then rest else none

abbrev at_most : ℕ → Option ℕ → Option ℕ
at_most k none = none
at_most k (some n) = if leb n k then some n else none

-- The length of a prefix, as `std::from_chars` reads an int, of which only 0 to 32 pass.
unfoldable pub prefix_length : String → Option ℕ
unfolding digits
prefix_length [] = none
prefix_length (c ∷ s) =
    if nat_eq (code c) b'-'
    then at_most 0 (digits false 0 s)
    else at_most 32 (digits false 0 (c ∷ s))

abbrev pub is_before : String → String → Bool
is_before a b = elim (compare a b) [ Ordering.lt ↦ true | _ ↦ false ]
