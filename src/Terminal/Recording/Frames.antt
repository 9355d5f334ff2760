-- ===== src/Terminal/Recording/Frames.antt =====
-- The bytes of one record, and what one round of the loop of `replay` makes of them.
use graphlab.Prelude.{
  ℕ, suc, ◌+◌, ◌^◌, ◌≤◌, ◌<◌, ◌≡◌, refl, ap, sym, ◌∙◌, true, false, not, ◌&&◌, ◌||◌, [], ◌∷◌, ◌++◌,
  some, ltb, leb, ◌==◌, if◌then◌else◌, length, take, drop, ok, arith, length-append, take-append,
  drop-append, drop-append_more, append_assoc, take_whole, take-append_le, drop-append_le, dec_lt,
}
use graphlab.Bytes.{Bytes, put, get, length-put, get-put}
use graphlab.Terminal.Recording.{Row, Page, read_row, replay_loop, add_row?}

unfoldable pub head : Row → Bytes
head row =
    put row.type 4
    ++ (put (length row.bytes) 4
        ++ (put row.sequence 8 ++ (put row.monotonic_ns 8 ++ put row.offset 8)))

unfoldable pub frame : Row → Bytes
unfolding head
frame row = head row ++ row.bytes

pub length-head : (row : Row) → length (head row) ≡ 32
unfolding head
length-head row = omega (
  arith,
  length-append {0},
  length-put row.type 4,
  length-put (length row.bytes) 4,
  length-put row.sequence 8,
  length-put row.monotonic_ns 8,
  length-put row.offset 8,
)

-- A record that `append` can write, as the one of sequence number `k`.
pub record IsRow (k : ℕ) (row : Row) : Type 0 where
  pub at : row.sequence ≡ k
  pub type_low : 1 ≤ row.type
  pub type_high : row.type ≤ 5
  pub short : length row.bytes ≤ 65536
  pub fits : k < 2 ^ 64
  pub time_fits : row.monotonic_ns < 2 ^ 64
  pub offset_fits : row.offset < 2 ^ 64

take_field : (n v : ℕ) (rest : Bytes) → take n (put v n ++ rest) ≡ put v n
take_field n v rest = take-append n (put v n) rest (length-put v n)

drop_field : (k n m v : ℕ) (rest : Bytes) → n ≡ m + k → drop n (put v m ++ rest) ≡ drop k rest
drop_field k n m v rest e = drop-append_more k n (put v m) rest (omega (arith, length-put v m))

get-length :
    (row : Row) → length row.bytes ≤ 65536 → get (take 4 (drop 4 (head row))) ≡ length row.bytes
unfolding head
get-length row h =
    rw (drop_field 0 4 4 row.type _ refl, take_field 4 (length row.bytes) _)
      (get-put (length row.bytes) 4 (omega arith))

get_type : (row : Row) → row.type ≤ 5 → get (take 4 (head row)) ≡ row.type
unfolding head
get_type row h = rw (take_field 4 row.type _) (get-put row.type 4 (omega arith))

get_sequence : (row : Row) → row.sequence < 2 ^ 64 → get (take 8 (drop 8 (head row))) ≡ row.sequence
unfolding head
get_sequence row h =
    rw
      (
        drop_field 4 8 4 row.type _ refl,
        drop_field 0 4 4 (length row.bytes) _ refl,
        take_field 8 row.sequence _,
      )
      (get-put row.sequence 8 h)

get_time :
    (row : Row) → row.monotonic_ns < 2 ^ 64 → get (take 8 (drop 16 (head row))) ≡ row.monotonic_ns
unfolding head
get_time row h =
    rw
      (
        drop_field 12 16 4 row.type _ refl,
        drop_field 8 12 4 (length row.bytes) _ refl,
        drop_field 0 8 8 row.sequence _ refl,
        take_field 8 row.monotonic_ns _,
      )
      (get-put row.monotonic_ns 8 h)

get_offset : (row : Row) → row.offset < 2 ^ 64 → get (take 8 (drop 24 (head row))) ≡ row.offset
unfolding head
get_offset row h =
    rw
      (
        drop_field 20 24 4 row.type _ refl,
        drop_field 16 20 4 (length row.bytes) _ refl,
        drop_field 8 16 8 row.sequence _ refl,
        drop_field 0 8 8 row.monotonic_ns _ refl,
        take_whole 8 (put row.offset 8) (omega (arith, length-put row.offset 8)),
      )
      (get-put row.offset 8 h)

read_row-head :
    (k : ℕ) (row : Row) (bytes : Bytes)
    → IsRow k row
    → read_row (head row) bytes ≡ record row { bytes = bytes }
unfolding read_row
read_row-head k row bytes v = ground (
  arith,
  get_type row v.type_high,
  get_sequence row (omega (arith, v.at, v.fits)),
  get_time row v.time_fits,
  get_offset row v.offset_fits,
)

-- The checks of a round, on a record that `append` can write.
accepted :
    (k : ℕ) (row : Row)
    → IsRow k row
    → (ltb 65536 (length row.bytes) || not (row.sequence == k) || ltb row.type 1 || ltb 5 row.type)
      ≡ false
accepted k row v = ground arith

==_refl : (n : ℕ) → (n == n) ≡ true
==_refl n = ground arith

module _ (k : ℕ) (row : Row) (rest : Bytes) (v : IsRow k row) where
  front : take 32 (frame row ++ rest) ≡ head row
  unfolding frame
  front =
      rw (append_assoc (head row) row.bytes rest) (take-append 32 (head row) _ (length-head row))

  back : drop 32 (frame row ++ rest) ≡ row.bytes ++ rest
  unfolding frame
  back = rw (append_assoc (head row) row.bytes rest) (drop-append 32 (head row) _ (length-head row))

  -- One round on a whole record: skip it, stop before it, stop after it, or go on.
  pub replay_loop-frame :
      (fuel start next count total : ℕ)
      → replay_loop (suc fuel) false start k next count total (frame row ++ rest) ≡ (
          let n = length row.bytes in
          let last : Page = record { records = row ∷ []; next = k + 1; partial_tail = false } in
          let skipped = replay_loop fuel false start (k + 1) next count total rest in
          let more = replay_loop fuel false start (k + 1) (k + 1) (count + 1) (total + n) rest in
          if ltb k start
          then skipped
          else if ltb 65536 (total + n) && not (count == 0)
          then some (ok (record { records = []; next = next; partial_tail = false }))
          else if leb 128 (count + 1)
          then some (ok last)
          else add_row? row more)
  unfolding replay_loop
  replay_loop-frame fuel start next count total =
      rw
        (
          front,
          back,
          get-length row v.short,
          take-append (length row.bytes) row.bytes rest refl,
          drop-append (length row.bytes) row.bytes rest refl,
          length-head row,
          read_row-head k row row.bytes v,
        )
        (rw (accepted k row v, ==_refl (length row.bytes), v.at) refl)

-- The bytes that a write left of a record, none or some but not all, end the loop, and count as a
-- partial tail unless there are none.
pub replay_loop-torn :
    (k : ℕ) (row : Row) (tail missing : Bytes) (fuel start next count total : ℕ)
    → IsRow k row
    → tail ++ missing ≡ frame row
    → 0 < length missing
    → replay_loop (suc fuel) false start k next count total tail
      ≡ some (ok (record { records = []; next = next; partial_tail = not (length tail == 0) }))
unfolding replay_loop
replay_loop-torn k row tail missing fuel start next count total v e m =
    elim (dec_lt (length tail) 32) [
      | yes h ↦ rw (take_whole 32 tail (omega arith)) (ground arith)
      | no h ↦
          let len : length (drop 32 tail) < length row.bytes =
            omega (arith, ap length (rest h), length-append (drop 32 tail) missing) in
          let whole : (length tail == 0) ≡ false = ground arith in
          let short : (length (drop 32 tail) == length row.bytes) ≡ false = ground arith in
          rw
            (
              front h,
              get-length row v.short,
              length-head row,
              take_whole (length row.bytes) (drop 32 tail) (omega arith),
              read_row-head k row (drop 32 tail) v,
            )
            (rw (accepted k row v, short, whole) refl)
    ]
  where
    front : ¬ (length tail < 32) → take 32 tail ≡ head row
    front h =
        sym (take-append_le 32 tail missing (omega arith))
        ∙ (ap (take 32) e ∙ unfold frame in take-append 32 (head row) row.bytes (length-head row))

    rest : ¬ (length tail < 32) → drop 32 tail ++ missing ≡ row.bytes
    rest h =
        sym (drop-append_le 32 tail missing (omega arith))
        ∙ (ap (drop 32) e ∙ unfold frame in drop-append 32 (head row) row.bytes (length-head row))

pub length-frame : (row : Row) → length (frame row) ≡ 32 + length row.bytes
unfolding frame
length-frame row = rw (length-append (head row) row.bytes, length-head row)
