-- ===== src/Terminal/Recording/History.antt =====
-- A recording from its creation on: appends in a row, up to the first that throws, and what
-- `replay` makes of the file that they leave.
use graphlab.Prelude.{
  ℕ, suc, ◌+◌, ◌-◌, ◌^◌, ◌≤◌, ◌<◌, ◌≡◌, inl, inr, refl, ap, sym, ◌∙◌, Bool, true, false, not, List,
  [], ◌∷◌, ◌++◌, map, some, ◌==◌, length, take, Result, ok, err, arith, append_assoc, append-nil,
  All,
}
use mathlib.Core.List.{map-append}
use graphlab.Bytes.{Bytes}
use graphlab.Descriptor.{Written, Ending, all, all-Writes, Writes, whole, part}
use graphlab.Terminal.Recording.{
  Recording, Row, Page, Failure, create, created, start_file, append, replay, magic,
}
use graphlab.Terminal.Recording.Paging.{
  frames, IsLog, IsTail, finished, torn, IsPage, replay-IsPage,
}
use graphlab.Terminal.Recording.Append.{
  Recorded, Appends, refused, stored, cut, row_of, append-Appends,
}

pub record Call : Type 0 where
  pub type : ℕ
  pub bytes : Bytes
  pub now : ℕ
  pub answers : List Written

-- An exception skips what follows.
abbrev chain :
    Recording
    → Result Failure (Unit {0})
    → Recording × Result Failure (Unit {0})
    → Recording × Result Failure (Unit {0})
chain r (ok _) rest = rest
chain r (err e) rest = (r, err e)

-- Appends in sequence; the first one that throws ends them.
unfoldable pub append_all : Recording → List Call → Recording × Result Failure (Unit {0})
append_all r [] = (r, ok tt)
append_all r (c ∷ cs) =
    let (r', result) = append r c.type c.bytes c.now c.answers in
    let rest = append_all r' cs in chain r' result rest

-- The type and the bytes of a record, as the caller gave them.
abbrev pub asked : Call → ℕ × Bytes
asked c = (c.type, c.bytes)

abbrev pub kept : Row → ℕ × Bytes
kept row = (row.type, row.bytes)

-- The file holds the first of the calls as whole records, all of them if none threw, and at most a
-- part of one more.
pub record Leaves (before : List Row) (cs : List Call) (file : Bytes) (done : Bool) : Type 0 where
  pub rows : List Row
  pub tail : Bytes
  pub contents : file ≡ magic ++ (frames rows ++ tail)
  pub log : IsLog 0 rows
  pub torn_once : IsTail (length rows) tail
  pub served : ℕ
  pub served_le : served ≤ length cs
  pub faithful : map kept rows ≡ map kept before ++ take served (map asked cs)
  pub complete : done ≡ true → (served ≡ length cs) × (tail ≡ [])

abbrev pub is_ok : Result Failure (Unit {0}) → Bool
is_ok (ok a) = true
is_ok (err e) = false

-- Every call finds room in 64 bits for its quota and its time.
abbrev pub AreSane : ℕ → ℕ → List Call → Type 0
AreSane budget anchor cs = (budget + 65568 < 2 ^ 64) × All (λ c. c.now - anchor < 2 ^ 64) cs

nothing_served :
    (rows : List Row) (cs : List Call) (file tail : Bytes) (done : Bool)
    → IsLog 0 rows
    → file ≡ magic ++ (frames rows ++ tail)
    → IsTail (length rows) tail
    → (done ≡ true → (0 ≡ length cs) × (tail ≡ []))
    → Leaves rows cs file done
nothing_served rows cs file tail done l e t d = record {
  rows = rows;
  tail = tail;
  contents = e;
  log = l;
  torn_once = t;
  served = 0;
  served_le = omega arith;
  faithful = sym (append-nil (map kept rows));
  complete = d;
}

one_more :
    (rows : List Row) (row : Row) (c : Call) (cs : List Call) (file : Bytes) (done : Bool)
    → kept row ≡ asked c
    → Leaves (rows ++ row ∷ []) cs file done
    → Leaves rows (c ∷ cs) file done
one_more rows row c cs file done e v = record {
  rows = v.rows;
  tail = v.tail;
  contents = v.contents;
  log = v.log;
  torn_once = v.torn_once;
  served = suc v.served;
  served_le = omega (arith, v.served_le);
  faithful = v.faithful ∙ rw (map-append, append_assoc, e);
  complete = λ d. (ap suc (v.complete d).0, (v.complete d).1);
}

after_append :
    (r : Recording) (rows : List Row) (c : Call) (cs : List Call) (r' : Recording)
    {result : Result Failure (Unit {0})} (rest : Recording × Result Failure (Unit {0}))
    → Recorded r rows
    → Appends r rows (row_of r c.type c.bytes c.now) r' result
    → (Recorded r' (rows ++ row_of r c.type c.bytes c.now ∷ [])
        → r'.budget ≡ r.budget
        → r'.anchor ≡ r.anchor
        → Leaves (rows ++ row_of r c.type c.bytes c.now ∷ []) cs rest.0.file (is_ok rest.1))
    → Leaves rows (c ∷ cs) (chain r' result rest).0.file (is_ok (chain r' result rest).1)
after_append r rows c cs r' rest h (refused e) ih =
    nothing_served rows (c ∷ cs) r'.file [] false h.log
      (ap (λ (x : Recording). x.file) e ∙ (h.contents ∙ sym (append-nil (magic ++ frames rows))))
      (finished refl) (λ d. cc)
after_append r rows c cs r' rest h (stored k b a) ih =
    one_more rows (row_of r c.type c.bytes c.now) c cs rest.0.file (is_ok rest.1) refl (ih k b a)
after_append r rows c cs r' rest h (cut w missing v e p m) ih =
    nothing_served rows (c ∷ cs) r'.file w false h.log (e ∙ rw (h.contents, append_assoc))
      (torn (row_of r c.type c.bytes c.now) missing v p m) (λ d. cc)

append_all-Leaves :
    (cs : List Call) (r : Recording) (rows : List Row)
    → Recorded r rows
    → AreSane r.budget r.anchor cs
    → Leaves rows cs (append_all r cs).0.file (is_ok (append_all r cs).1)
unfolding append_all
append_all-Leaves [] r rows h s =
    nothing_served rows [] r.file [] true h.log
      (h.contents ∙ sym (append-nil (magic ++ frames rows))) (finished refl) (λ d. (refl, refl))
append_all-Leaves (c ∷ cs) r rows h s =
    let made = append r c.type c.bytes c.now c.answers in
    after_append r rows c cs made.0 (append_all made.0 cs) h
      (append-Appends r rows c.type c.bytes c.now c.answers h
        (record { quota = s.0; clock = s.1.0 }))
      λ k b a.
        append_all-Leaves cs made.0 (rows ++ row_of r c.type c.bytes c.now ∷ []) k
          (rw (b, a) (s.0, s.1.1))

start_file-Recorded :
    (budget anchor : ℕ) (b : Bytes) {e : Ending} (fsynced : Bool)
    → Writes magic b e
    → 8 ≤ budget
    → (start_file (created budget anchor b) e fsynced).1 ≡ ok tt
    → start_file (created budget anchor b) e fsynced ≡ (created budget anchor magic, ok tt)
unfolding start_file
start_file-Recorded budget anchor b true (whole p) h q = rw p
start_file-Recorded budget anchor b false (whole p) h q = cc
start_file-Recorded budget anchor b fsynced (part missing p m (inl e)) h q = ground arith
start_file-Recorded budget anchor b fsynced (part missing p m (inr e)) h q = ground arith

created-Recorded : (budget anchor : ℕ) → 8 ≤ budget → Recorded (created budget anchor magic) []
unfolding frames
created-Recorded budget anchor h = ground arith

-- From the creation of a recording on, whatever the kernel answers to the writes: with a quota of 8
-- bytes at least that leaves room in 64 bits, and a clock that fits 64 bits, appends in a row up to
-- the first that throws leave a file that holds the records of the first calls whole and in order,
-- of all calls and nothing else if none threw, and at most a part of one record more. `replay` of
-- this file from any of them on returns a page of exactly the next ones, which flags the part of a
-- record only behind the last whole one, and there where it has fewer than 128 records, if no read
-- fails.
pub append_all-replay :
    (budget anchor : ℕ) (answers : List Written) (fsynced : Bool) (cs : List Call)
    → 8 ≤ budget
    → AreSane budget anchor cs
    → (create budget anchor answers fsynced).1 ≡ ok tt
    → let final = append_all (create budget anchor answers fsynced).0 cs in
      (v : Leaves [] cs final.0.file (is_ok final.1)) × ((start : ℕ)
        → start ≤ length v.rows
        → (p : Page) × (replay final.0.file false start ≡ some (ok p))
          × IsPage start v.rows (not (length v.tail == 0)) p)
append_all-replay budget anchor answers fsynced cs h s e =
    rw made (v, λ start k. rw v.contents (replay-IsPage v.rows v.tail start v.log v.torn_once k))
  where
    made : create budget anchor answers fsynced ≡ (created budget anchor magic, ok tt)
    made =
        unfold create in
        start_file-Recorded budget anchor (all answers magic).0 fsynced (all-Writes answers magic) h
          e

    v :
        Leaves [] cs
          (append_all (created budget anchor magic) cs).0.file
          (is_ok (append_all (created budget anchor magic) cs).1)
    v = append_all-Leaves cs (created budget anchor magic) [] (created-Recorded budget anchor h) s
