-- ===== src/Terminal/Recording/Append.antt =====
-- What `append` does to the file of a recording, whatever the kernel answers to its writes.
use graphlab.Prelude.{
  ℕ, suc, ◌+◌, ◌-◌, ◌^◌, ◌≤◌, ◌<◌, ◌≡◌, inl, inr, refl, ap, sym, ◌∙◌, Bool, true, false, not, ◌||◌,
  List, [], ◌∷◌, ◌++◌, ltb, length, Result, ok, err, arith, length-append, append_assoc, append-nil,
  Bool-cases,
}
use graphlab.Bytes.{Bytes, u64}
use graphlab.Descriptor.{Written, Ending, complete, all, Writes, whole, part, all-Writes}
use graphlab.Terminal.Recording.{Recording, Row, Failure, header, append, appended, magic}
use graphlab.Terminal.Recording.Frames.{frame, IsRow, length-frame}
use graphlab.Terminal.Recording.Paging.{frames, IsLog, length-frames_le}

-- A recording between two appends, and the records in its file.
pub record Recorded (r : Recording) (rows : List Row) : Type 0 where
  pub opened : r.is_open ≡ true
  pub contents : r.file ≡ magic ++ frames rows
  pub measured : r.size ≡ 8 + length (frames rows)
  pub numbered : r.sequence ≡ length rows
  pub log : IsLog 0 rows
  pub counted : r.output ≤ r.size
  pub allowed : r.size ≤ r.budget

-- The record that an append writes.
abbrev pub row_of : Recording → ℕ → Bytes → ℕ → Row
row_of r type bytes now = record {
  type = type;
  sequence = r.sequence;
  monotonic_ns = now - r.anchor;
  offset = r.output;
  bytes = bytes;
}

pub frames-append : (xs ys : List Row) → frames (xs ++ ys) ≡ frames xs ++ frames ys
unfolding frames
frames-append [] ys = refl
frames-append (x ∷ xs) ys =
    ap (◌++◌ (frame x)) (frames-append xs ys) ∙ sym (append_assoc (frame x) _ _)

pub IsLog-append :
    (k : ℕ) (xs : List Row) (y : Row)
    → IsLog k xs
    → IsRow (k + length xs) y
    → IsLog k (xs ++ y ∷ [])
IsLog-append k [] y l v = let e : k + 0 ≡ k = omega arith in (rw e at v, tt)
IsLog-append k (x ∷ xs) y l v =
    let e : k + suc (length xs) ≡ k + 1 + length xs = omega arith in
    (l.0, IsLog-append (k + 1) xs y l.1 (rw e at v))

-- The outcomes of an append: a refusal that changes nothing, a whole record, or a part of one.
pub data Appends (r : Recording) (rows : List Row) (row : Row) (r' : Recording)
    : Result Failure (Unit {0}) → Type 0 where
  refused : {e : Failure} → r' ≡ r → Appends r rows row r' (err e)
  stored :
      Recorded r' (rows ++ row ∷ [])
      → r'.budget ≡ r.budget
      → r'.anchor ≡ r.anchor
      → Appends r rows row r' (ok tt)
  cut :
      {e : Failure} (w missing : Bytes)
      → IsRow (length rows) row
      → r'.file ≡ r.file ++ w
      → w ++ missing ≡ frame row
      → 0 < length missing
      → Appends r rows row r' (err e)

-- What the environment owes an append: a quota that leaves room in 64 bits, and a clock that does
-- not run backwards and fits 64 bits.
pub record Sane (r : Recording) (now : ℕ) : Type 0 where
  pub quota : r.budget + 65568 < 2 ^ 64
  pub clock : now - r.anchor < 2 ^ 64

-- The checks of `append` on the record.
abbrev is_refused : Recording → ℕ → Bytes → Bool
is_refused r type bytes = ltb type 1 || ltb 5 type || ltb 65536 (length bytes) || not r.is_open

module _ (r : Recording) (rows : List Row) (type : ℕ) (bytes : Bytes) (now : ℕ) where
  row_of-IsRow :
      Recorded r rows
      → Sane r now
      → is_refused r type bytes ≡ false
      → IsRow (length rows) (row_of r type bytes now)
  row_of-IsRow h s valid = ground (arith, length-frames_le rows)

  appended-Recorded :
      Recorded r rows
      → Sane r now
      → is_refused r type bytes ≡ false
      → ltb r.budget (u64 (r.size + 32 + length bytes)) ≡ false
      → (w : Bytes) → w ≡ frame (row_of r type bytes now)
      → Recorded (appended r type bytes w complete).0 (rows ++ row_of r type bytes now ∷ [])
  unfolding appended frames
  appended-Recorded h s valid room w e =
      let row = row_of r type bytes now in
      let short : length bytes ≤ 65536 = ground (arith, valid) in
      let total : r.size + 32 + length bytes ≤ r.budget = ground (arith, room) in
      let one : length w ≡ 32 + length bytes = ap length e ∙ length-frame row in
      let more : frames (rows ++ row ∷ []) ≡ frames rows ++ w =
        frames-append rows (row ∷ []) ∙ ap (◌++◌ (frames rows)) (append-nil (frame row) ∙ sym e) in
      let grown = length-append (frames rows) w in
      let v = row_of-IsRow h s valid in
      let at : 0 + length rows ≡ length rows = omega arith in
      record {
        opened = h.opened;
        contents = rw (h.contents, more, append_assoc);
        measured = rw more (omega (arith, grown, one));
        numbered = omega (arith, length-append rows (row ∷ []), v.fits, length-frames_le rows);
        log = IsLog-append 0 rows row h.log (rw at v);
        counted = ground arith;
        allowed = omega arith;
      }

  -- Behind the checks, the outcome is that of the write.
  written-Appends :
      Recorded r rows
      → Sane r now
      → is_refused r type bytes ≡ false
      → ltb r.budget (u64 (r.size + 32 + length bytes)) ≡ false
      → (w : Bytes) (e : Ending) → Writes (frame (row_of r type bytes now)) w e
      → Appends r rows
          (row_of r type bytes now)
          (appended r type bytes w e).0
          (appended r type bytes w e).1
  unfolding appended
  written-Appends h s valid room w e (whole p) =
      stored (appended-Recorded h s valid room w p) refl refl
  written-Appends h s valid room w e (part missing p m (inl b)) =
      rw b (cut w missing (row_of-IsRow h s valid) refl p m)
  written-Appends h s valid room w e (part missing p m (inr b)) =
      rw b (cut w missing (row_of-IsRow h s valid) refl p m)

  -- An append refuses the record and changes nothing, or stores it whole, or fails with a part of
  -- it written.
  pub append-Appends :
      (answers : List Written)
      → Recorded r rows
      → Sane r now
      → Appends r rows
          (row_of r type bytes now)
          (append r type bytes now answers).0
          (append r type bytes now answers).1
  unfolding append
  append-Appends answers h s = elim (Bool-cases (is_refused r type bytes)) [
    | inl bad ↦ rw bad (refused refl)
    | inr valid ↦ elim (Bool-cases (ltb r.budget (u64 (r.size + 32 + length bytes)))) [
      | inl full ↦ rw (valid, full) (refused refl)
      | inr room ↦
          let b = header r type bytes now ++ bytes in
          rw (valid, room)
            (written-Appends h s valid room (all answers b).0 (all answers b).1
              (unfold header frame in all-Writes answers b))
    ]
  ]
