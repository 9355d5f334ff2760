-- ===== src/Terminal/Recording.antt =====
-- Terminal recordings: class Recording and `replay` of cpp/terminal/recording.cpp. The file is its
-- bytes; what the kernel answers to each write, fsync and link is an argument (the loop `all` over the
-- writes is in Descriptor). A replayed row holds
-- the record's own bytes, which the code returns in base64.
pub mod Frames
pub mod Paging
pub mod Append
pub mod History
use graphlab.Prelude.{
  ℕ, zero, suc, ◌+◌, ◌-◌, ◌%◌, ◌^◌, Bool, true, false, not, ◌&&◌, ◌||◌, List, [], ◌∷◌, ◌++◌, Option,
  none, some, ltb, leb, ◌==◌, if◌then◌else◌, length, take, drop, Result, ok, err,
}
use graphlab.Bytes.{Bytes, put, get, u64}
use graphlab.Descriptor.{Written, Ending, complete, broken, killed, all}

pub data Failure : Type 0 where
  invalid_record recording_quota_exhausted recording_write_failed : Failure
  recording_sync_failed recording_publish_failed recording_directory : Failure
  recording_directory_sync invalid_recording recording_read_failed : Failure
  process_killed : Failure

pub record Recording : Type 0 where
  pub is_open : Bool
  pub file : Bytes
  pub size : ℕ
  pub sequence : ℕ
  pub output : ℕ
  pub budget : ℕ
  pub anchor : ℕ
  pub partial_name : Bool
  pub closed_name : Bool

-- "GLTERM1\0"
abbrev pub magic : Bytes
magic = 71 ∷ 76 ∷ 84 ∷ 69 ∷ 82 ∷ 77 ∷ 49 ∷ 0 ∷ []

abbrev pub ended : Ending → Failure
ended complete = process_killed
ended broken = recording_write_failed
ended killed = process_killed

unfoldable pub sync : Recording → Bool → Result Failure (Unit {0})
sync r fsynced = if not r.is_open || not fsynced then err recording_sync_failed else ok tt

abbrev pub created : ℕ → ℕ → Bytes → Recording
created budget anchor bytes = record {
  is_open = true;
  file = bytes;
  size = 8;
  sequence = 0;
  output = 0;
  budget = budget;
  anchor = anchor;
  partial_name = true;
  closed_name = false;
}

-- What the constructor does behind its write; where it throws it closes the file.
unfoldable pub start_file : Recording → Ending → Bool → Recording × Result Failure (Unit {0})
unfolding sync
start_file r complete fsynced = elim (sync r fsynced) [
  | ok _ ↦ (r, ok tt)
  | err e ↦ (record r { is_open = false }, err e)
]
start_file r e fsynced = (record r { is_open = false }, err (ended e))

-- The constructor, once open(2) has created the file.
unfoldable pub create : ℕ → ℕ → List Written → Bool → Recording × Result Failure (Unit {0})
create budget anchor answers fsynced =
    let (bytes, ending) = all answers magic in
    start_file (created budget anchor bytes) ending fsynced

unfoldable pub header : Recording → ℕ → Bytes → ℕ → Bytes
header r type bytes now =
    put type 4
    ++ (put (length bytes) 4 ++ (put r.sequence 8 ++ (put (now - r.anchor) 8 ++ put r.output 8)))

unfoldable pub appended :
    Recording → ℕ → Bytes → Bytes → Ending → Recording × Result Failure (Unit {0})
appended r type bytes b complete = (
  record r {
    file = r.file ++ b;
    size = u64 (r.size + (32 + length bytes));
    sequence = u64 (r.sequence + 1);
    output = if type == 1 then u64 (r.output + length bytes) else r.output;
  },
  ok tt,
)
appended r type bytes b e = (record r { file = r.file ++ b }, err (ended e))

unfoldable pub append :
    Recording → ℕ → Bytes → ℕ → List Written → Recording × Result Failure (Unit {0})
unfolding appended
append r type bytes now answers =
    if ltb type 1 || ltb 5 type || ltb 65536 (length bytes) || not r.is_open
    then (r, err invalid_record)
    else if ltb r.budget (u64 (r.size + 32 + length bytes))
    then (r, err recording_quota_exhausted)
    else let (b, ending) = all answers (header r type bytes now ++ bytes) in
      appended r type bytes b ending

-- What the kernel answers while a recording is closed, in the order of the calls.
pub record Publishing : Type 0 where
  pub fsynced : Bool
  pub linked : Bool
  pub unlinked : Bool
  pub directory_opened : Bool
  pub directory_synced : Bool

unfoldable pub close : Recording → Publishing → Recording × Result Failure (Unit {0})
unfolding sync
close r k = if not r.is_open then (r, ok tt) else elim (sync r k.fsynced) [
  | err e ↦ (r, err e)
  | ok _ ↦
      let shut = record r { is_open = false } in
      let named = record r { is_open = false; closed_name = true } in
      let published = record r { is_open = false; closed_name = true; partial_name = false } in
      if not k.linked
      then (shut, err recording_publish_failed)
      else if not k.unlinked
      then (named, err recording_publish_failed)
      else if not k.directory_opened
      then (published, err recording_directory)
      else if not k.directory_synced
      then (published, err recording_directory_sync)
      else (published, ok tt)
]

pub record Row : Type 0 where
  pub type : ℕ
  pub sequence : ℕ
  pub monotonic_ns : ℕ
  pub offset : ℕ
  pub bytes : Bytes

pub record Page : Type 0 where
  pub records : List Row
  pub next : ℕ
  pub partial_tail : Bool

abbrev pub add_row : Row → Result Failure Page → Result Failure Page
add_row row (ok p) = ok (record p { records = row ∷ p.records })
add_row row (err e) = err e

abbrev pub add_row? : Row → Option (Result Failure Page) → Option (Result Failure Page)
add_row? row none = none
add_row? row (some p) = some (add_row row p)

-- The header fields that `replay` reads at offsets 0, 4, 8, 16 and 24.
unfoldable pub read_row : Bytes → Bytes → Row
read_row h bytes = record {
  type = get (take 4 h);
  sequence = get (take 8 (drop 8 h));
  monotonic_ns = get (take 8 (drop 16 h));
  offset = get (take 8 (drop 24 h));
  bytes = bytes;
}

-- Where a read comes short: `fails` says that read(2) fails there, otherwise the file ends.
abbrev pub cut_off : (fails : Bool) → Page → Result Failure Page
cut_off true p = err recording_read_failed
cut_off false p = ok p

-- The loop of `replay` over the rest of the file; `count` and `total` are the number of the rows
-- returned so far and their bytes. `none` means that the fuel ran out.
unfoldable pub replay_loop :
    ℕ → Bool → (start expected next count total : ℕ) → Bytes → Option (Result Failure Page)
replay_loop zero fails start expected next count total rest = none
replay_loop (suc fuel) fails start expected next count total rest =
    let h = take 32 rest in
    let n = get (take 4 (drop 4 h)) in
    let row = read_row h (take n (drop 32 rest)) in
    let seq = row.sequence in
    let after = drop n (drop 32 rest) in
    let last : Page = record { records = row ∷ []; next = seq + 1; partial_tail = false } in
    let skipped = replay_loop fuel fails start (expected + 1) next count total after in
    let more =
      replay_loop fuel fails start (expected + 1) (seq + 1) (count + 1) (total + n) after in
    if length h == 0
    then some (cut_off fails (record { records = []; next = next; partial_tail = false }))
    else if not (length h == 32)
    then some (cut_off fails (record { records = []; next = next; partial_tail = true }))
    else if ltb 65536 n || not (seq == expected) || ltb row.type 1 || ltb 5 row.type
    then some (err invalid_recording)
    else if not (length row.bytes == n)
    then some (cut_off fails (record { records = []; next = next; partial_tail = true }))
    else if ltb seq start
    then skipped
    else if ltb 65536 (total + n) && not (count == 0)
    then some (ok (record { records = []; next = next; partial_tail = false }))
    else if leb 128 (count + 1)
    then some (ok last)
    else add_row? row more

abbrev same_bytes : Bytes → Bytes → Bool
same_bytes [] [] = true
same_bytes (a ∷ xs) (b ∷ ys) = (a == b) && same_bytes xs ys
same_bytes _ _ = false

-- The file is a regular one that opens. `file` is what its reads return before they come short, and
-- `fails` says that read(2) fails behind it with an error other than EINTR. Each round takes 32 bytes
-- at least, so the length of the file is fuel enough.
unfoldable pub replay : (file : Bytes) → (fails : Bool) → (start : ℕ) → Option (Result Failure Page)
unfolding replay_loop read_row
replay file fails start =
    if same_bytes (take 8 file) magic
    then replay_loop (suc (length file)) fails start 0 start 0 0 (drop 8 file)
    else if fails && ltb (length file) 8
    then some (err recording_read_failed)
    else some (err invalid_recording)
