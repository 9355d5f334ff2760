-- ===== src/Terminal/Recording/Paging.antt =====
-- What `replay` returns of a recorded file, in terms of its records.
use graphlab.Prelude.{
  ℕ, zero, suc, ◌+◌, ◌-◌, ◌≤◌, ◌<◌, ◌≡◌, refl, Bool, true, false, not, ◌&&◌, List, [], ◌∷◌, ◌++◌,
  Option, some, Result, ltb, leb, ◌==◌, if◌then◌else◌, length, take, drop, ok, arith, inl, inr, ap,
  length-append, length-drop, length-take, append_assoc, Bool-cases, ltb→lt,
}
use graphlab.Bytes.{Bytes}
use graphlab.Terminal.Recording.{Row, Page, Failure, replay_loop, replay, magic}
use graphlab.Terminal.Recording.Frames.{
  frame, IsRow, length-frame, replay_loop-frame, replay_loop-torn,
}

unfoldable pub frames : List Row → Bytes
frames [] = []
frames (row ∷ rows) = frame row ++ frames rows

-- Whole records, numbered from `k`.
abbrev pub IsLog : ℕ → List Row → Type 0
IsLog k [] = Unit
IsLog k (row ∷ rows) = IsRow k row × IsLog (k + 1) rows

-- What may follow `k` whole records: nothing, or a record of which the end is missing.
pub data IsTail (k : ℕ) (tail : Bytes) : Type 0 where
  finished : tail ≡ [] → IsTail k tail
  torn :
      (row : Row) (missing : Bytes)
      → IsRow k row
      → tail ++ missing ≡ frame row
      → 0 < length missing
      → IsTail k tail

abbrev returned : Page → Option (Result Failure Page)
returned p = some (ok p)

-- A page of at most 128 records, of which the first is always whole and the later ones fit 64 KiB.
fill : (k count total : ℕ) → Bool → List Row → Page
fill k count total part [] = record { records = []; next = k; partial_tail = part }
fill k count total part (row ∷ rows) =
    let n = length row.bytes in
    let rest = fill (k + 1) (count + 1) (total + n) part rows in
    if ltb 65536 (total + n) && not (count == 0)
    then record { records = []; next = k; partial_tail = false }
    else if leb 128 (count + 1)
    then record { records = row ∷ []; next = k + 1; partial_tail = false }
    else record rest { records = row ∷ rest.records }

if_same :
    (b c : Bool) (x y z : Page)
    → (if b then returned x else if c then returned y else returned z)
      ≡ returned (if b then x else if c then y else z)
if_same true c x y z = refl
if_same false true x y z = refl
if_same false false x y z = refl

drop_nil : (n : ℕ) → drop {A = Row} n [] ≡ []
drop_nil zero = refl
drop_nil (suc n) = refl

replay_loop-tail :
    (k : ℕ) (tail : Bytes) (fuel start next count total : ℕ)
    → IsTail k tail
    → replay_loop (suc fuel) false start k next count total tail
      ≡ some (ok (record { records = []; next = next; partial_tail = not (length tail == 0) }))
replay_loop-tail k tail fuel start next count total (finished e) = rw e (unfold replay_loop in refl)
replay_loop-tail k tail fuel start next count total (torn row missing v e m) =
    replay_loop-torn k row tail missing fuel start next count total v e m

-- From the first record wanted on, the loop fills the page.
replay_loop-fill :
    (rows : List Row) (k : ℕ) (tail : Bytes) (fuel start count total : ℕ)
    → IsLog k rows
    → IsTail (k + length rows) tail
    → start ≤ k
    → length rows < fuel
    → replay_loop fuel false start k k count total (frames rows ++ tail)
      ≡ some (ok (fill k count total (not (length tail == 0)) rows))
unfolding frames fill
replay_loop-fill rows k tail zero start count total l t s f = absurd (omega arith)
replay_loop-fill [] k tail (suc fuel) start count total l t s f =
    let e : k + 0 ≡ k = omega arith in replay_loop-tail k tail fuel start k count total (rw e at t)
replay_loop-fill (row ∷ rows) k tail (suc fuel) start count total l t s f =
    let e : k + suc (length rows) ≡ k + 1 + length rows = omega arith in
    let n = length row.bytes in
    let p : Page = fill (k + 1) (count + 1) (total + n) (not (length tail == 0)) rows in
    let wanted : ltb k start ≡ false = ground arith in
    rw
      (
        append_assoc,
        replay_loop-frame k row (frames rows ++ tail) l.0 fuel start k count total,
        wanted,
        replay_loop-fill rows (k + 1) tail fuel start (count + 1) (total + length row.bytes) l.1
            (rw e at t) (omega arith) (omega arith),
      )
      (if_same (ltb 65536 (total + n) && not (count == 0)) (leb 128 (count + 1))
        (record { records = []; next = k; partial_tail = false })
        (record { records = row ∷ []; next = k + 1; partial_tail = false })
        (record p { records = row ∷ p.records }))

-- Records before the first one wanted are skipped.
replay_loop-skip :
    (rows : List Row) (k : ℕ) (tail : Bytes) (fuel start : ℕ)
    → IsLog k rows
    → IsTail (k + length rows) tail
    → k ≤ start
    → start ≤ k + length rows
    → length rows < fuel
    → replay_loop fuel false start k start 0 0 (frames rows ++ tail)
      ≡ some (ok (fill start 0 0 (not (length tail == 0)) (drop (start - k) rows)))
unfolding frames fill
replay_loop-skip rows k tail zero start l t lo hi f = absurd (omega arith)
replay_loop-skip [] k tail (suc fuel) start l t lo hi f =
    let e : start ≡ k = omega arith in
    let same : k + 0 ≡ k = omega arith in
    rw (drop_nil (start - k), e) (replay_loop-tail k tail fuel k k 0 0 (rw same at t))
replay_loop-skip (row ∷ rows) k tail (suc fuel) start l t lo hi f =
    elim (Bool-cases (ltb k start)) [
      | inl skip ↦
          let d : start - k ≡ suc (start - (k + 1)) = omega (arith, ltb→lt k start skip) in
          let e : k + suc (length rows) ≡ k + 1 + length rows = omega arith in
          rw
            (
              d,
              append_assoc,
              replay_loop-frame k row (frames rows ++ tail) l.0 fuel start start 0 0,
              skip,
            )
            (replay_loop-skip rows (k + 1) tail fuel start l.1 (rw e at t) (ground arith)
              (omega arith) (omega arith))
      | inr wanted ↦
          let e : start ≡ k = ground arith in
          let d : k - k ≡ 0 = omega arith in
          rw (e, d)
            (replay_loop-fill (row ∷ rows) k tail (suc fuel) k 0 0 l t (omega arith) (omega arith))
    ]

-- Where a page ends: it holds the next `m` records, one at least if there is one, and says that
-- the tail is torn only after the last one, and there whenever it has room for a record.
record Fills (k count : ℕ) (part : Bool) (rows : List Row) (p : Page) (m : ℕ) : Type 0 where
  within : m ≤ length rows
  exact : p.records ≡ take m rows
  reached : p.next ≡ k + m
  progress : count ≡ 0 → 0 < length rows → 0 < m
  last : p.partial_tail ≡ true → (m ≡ length rows) × (part ≡ true)
  flagged : m ≡ length rows → count + m < 128 → p.partial_tail ≡ part

fill-Fills :
    (rows : List Row) (k count total : ℕ) (part : Bool)
    → (m : ℕ) × Fills k count part rows (fill k count total part rows) m
unfolding fill
fill-Fills [] k count total part = (0, ground arith)
fill-Fills (row ∷ rows) k count total part =
    let (m, f) = fill-Fills rows (k + 1) (count + 1) (total + length row.bytes) part in
    elim (Bool-cases (ltb 65536 (total + length row.bytes) && not (count == 0))) [
      | inl full ↦ (0, rw full (ground arith))
      | inr room ↦ elim (Bool-cases (leb 128 (count + 1))) [
        | inl many ↦ (1, rw (room, many) (ground arith))
        | inr few ↦ (suc m, rw (room, few) (ground arith))
      ]
    ]

pub length-frames_le : (rows : List Row) → length rows ≤ length (frames rows)
unfolding frames
length-frames_le [] = omega arith
length-frames_le (row ∷ rows) =
    omega (arith, length-append (frame row) (frames rows), length-frame row, length-frames_le rows)

-- A page of the records from `start` on.
pub record IsPage (start : ℕ) (rows : List Row) (part : Bool) (p : Page) : Type 0 where
  pub forward : start ≤ p.next
  pub within : p.next ≤ length rows
  pub exact : p.records ≡ take (p.next - start) (drop start rows)
  pub progress : start < length rows → start < p.next
  pub last : p.partial_tail ≡ true → (p.next ≡ length rows) × (part ≡ true)
  pub flagged : p.next ≡ length rows → length p.records < 128 → p.partial_tail ≡ part

-- `replay` of a file that holds whole records, numbered from 0, and perhaps an unfinished one, and of
-- which no read fails: from
-- any `start` up to their number it returns, without running out of fuel, a page of exactly the
-- records `start` to `next - 1`, at least one if one is left. It flags a partial tail only behind
-- the last whole record and only if there are bytes of an unfinished one; and a page of fewer than
-- 128 records that reaches the last whole record does flag them.
pub replay-IsPage :
    (rows : List Row) (tail : Bytes) (start : ℕ)
    → IsLog 0 rows
    → IsTail (length rows) tail
    → start ≤ length rows
    → (p : Page) × (replay (magic ++ (frames rows ++ tail)) false start ≡ some (ok p))
      × IsPage start rows (not (length tail == 0)) p
unfolding replay
replay-IsPage rows tail start l t h =
    let part = not (length tail == 0) in
    let (m, f) = fill-Fills (drop start rows) start 0 0 part in
    let e : 0 + length rows ≡ length rows = omega arith in
    let z : start - 0 ≡ start = omega arith in
    let p : Page = fill start 0 0 part (drop start rows) in
    let n : p.next - start ≡ m = omega (arith, f.reached) in
    (
      p,
      rw (
        replay_loop-skip rows 0 tail (suc (length (magic ++ (frames rows ++ tail)))) start l
            (rw e t) (omega arith) (omega arith)
            (omega (arith, length-append (frames rows) tail, length-frames_le rows)),
        z,
      ),
      record {
        forward = omega (arith, f.reached);
        within = omega (arith, f.reached, f.within, length-drop start rows);
        exact = rw n f.exact;
        progress =
            λ q. omega (arith, f.reached, f.progress refl (omega (arith, length-drop start rows)));
        last = λ q. (omega (arith, f.reached, (f.last q).0, length-drop start rows), (f.last q).1);
        flagged = λ q few.
            f.flagged (omega (arith, q, f.reached, length-drop start rows))
              (omega (arith, few, ap length f.exact, length-take m (drop start rows) f.within));
      },
    )
