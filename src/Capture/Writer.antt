-- ===== src/Capture/Writer.antt =====
-- The PCAPNG writer: class Writer of cpp/capture/writer.cpp. The current segment is its bytes; what
-- the kernel answers and the time of day are arguments. A closed segment keeps its bytes and its
-- counters; the hash and the names that its JSON row also holds are functions of these.
pub mod Quota
pub mod Calls
pub mod Runs
use graphlab.Prelude.{
  ℕ, zero, suc, ◌+◌, ◌/◌, ◌%◌, ◌^◌, ◌-◌, Bool, true, false, not, ◌&&◌, ◌||◌, List, [], ◌∷◌, ◌++◌,
  Option, none, some, ltb, leb, ◌==◌, if◌then◌else◌, length, Result, ok, err,
}
use graphlab.Bytes.{Bytes, put, u64}
use graphlab.Descriptor.{Written, failed, Ending, complete, broken, killed, all}

pub data Failure : Type 0 where
  capture_metadata_too_long capture_write_failed capture_quota_exhausted : Failure
  capture_segment_limit capture_open invalid_packet_length capture_sync capture_finalize : Failure
  capture_directory_unavailable capture_directory_sync artifact_unavailable : Failure
  process_killed : Failure

pub record Config : Type 0 where
  pub byte_budget : ℕ
  pub snaplen : ℕ
  pub interface : Bytes
  pub edge : Bytes

-- libpcap's cumulative counters, where they are available.
pub record Stats : Type 0 where
  pub received : Option ℕ
  pub dropped : Option ℕ

pub record Segment : Type 0 where
  pub sequence : ℕ
  pub content : Bytes
  pub size : ℕ
  pub packets : ℕ
  pub statistics : Stats
  pub captured_bytes : ℕ
  pub original_bytes : ℕ
  pub truncated_packets : ℕ

pub record Writer : Type 0 where
  pub config : Config
  pub is_open : Bool
  pub file : Bytes
  pub segments : List Segment
  pub bytes : ℕ
  pub total : ℕ
  pub packets : ℕ
  pub sequence : ℕ
  pub captured_bytes : ℕ
  pub original_bytes : ℕ
  pub truncated_packets : ℕ

-- A call on the writer: the new state, also where it throws, and the result.
abbrev pub M : Type 0 → Type 0
M A = Writer → Writer × Result Failure A

abbrev pub bound :
    {A B : Type 0} → Writer × Result Failure A → (A → M B) → Writer × Result Failure B
bound (w, ok a) f = f a w
bound (w, err e) f = (w, err e)

infixl 5 ◌>>=◌ ◌>>◌
abbrev pub ◌>>=◌ : {A B : Type 0} → M A → (A → M B) → M B
◌>>=◌ m f w = bound (m w) f

abbrev pub ◌>>◌ : {B : Type 0} → M (Unit {0}) → M B → M B
m >> k = m >>= λ _. k

abbrev pub check : Bool → Failure → M (Unit {0})
check true e w = (w, ok tt)
check false e w = (w, err e)

abbrev pub modify : (Writer → Writer) → M (Unit {0})
modify f w = (f w, ok tt)

abbrev pub u16 : ℕ → Bytes
u16 v = put v 2

abbrev pub u32 : ℕ → Bytes
u32 v = put v 4

-- The two halves, low one first.
abbrev pub write_u64 : ℕ → Bytes
write_u64 v = u32 v ++ u32 (v / 2 ^ 32)

-- The loop of `pad` makes at most 3 rounds.
unfoldable pub pad_rounds : ℕ → Bytes → Bytes
pad_rounds zero b = b
pad_rounds (suc rounds) b =
    let more = pad_rounds rounds (b ++ 0 ∷ []) in if length b % 4 == 0 then b else more

abbrev pub pad : Bytes → Bytes
pad = pad_rounds 3

unfoldable pub option : Bytes → ℕ → Bytes → Result Failure Bytes
option b key value =
    if ltb 65535 (length value)
    then err capture_metadata_too_long
    else ok (pad (b ++ (u16 key ++ (u16 (length value) ++ value))))

-- The bytes of one block.
unfoldable pub block_bytes : ℕ → Bytes → Bytes
block_bytes type body = u32 type ++ (u32 (length body + 12) ++ (body ++ u32 (length body + 12)))

unfoldable pub ended : Writer → Bytes → Bytes × Ending → Writer × Result Failure (Unit {0})
ended w b (part, complete) =
    (record w { file = w.file ++ part; bytes = u64 (w.bytes + length b) }, ok tt)
ended w b (part, broken) = (record w { file = w.file ++ part }, err capture_write_failed)
ended w b (part, killed) = (record w { file = w.file ++ part }, err process_killed)

-- Where no segment is open the descriptor is -1, on which write(2) fails.
unfoldable pub block : ℕ → Bytes → List Written → M (Unit {0})
unfolding ended
block type body answers w =
    let b = block_bytes type body in
    if ltb w.config.byte_budget (u64 (w.total + w.bytes + length b))
    then (w, err capture_quota_exhausted)
    else ended w b (all (if w.is_open then answers else failed ∷ []) b)

unfoldable pub sync : Bool → M (Unit {0})
sync fsynced w = if not w.is_open || not fsynced then (w, err capture_sync) else (w, ok tt)

-- What the kernel answers while a segment is opened.
pub record Opening : Type 0 where
  pub opened : Bool
  pub section : List Written
  pub interface : List Written
  pub fsynced : Bool

unfoldable pub section_body : Bytes
section_body = u32 0x1a2b3c4d ++ (u16 1 ++ (u16 0 ++ write_u64 (2 ^ 64 - 1)))

-- "; direction flags unavailable; offloads unknown"
abbrev pub description : Bytes
description =
    59 ∷ 32 ∷ 100 ∷ 105 ∷ 114 ∷ 101 ∷ 99 ∷ 116 ∷ 105 ∷ 111 ∷ 110 ∷ 32 ∷ 102 ∷ 108 ∷ 97 ∷ 103 ∷ 115
    ∷ 32 ∷ 117 ∷ 110 ∷ 97 ∷ 118 ∷ 97 ∷ 105 ∷ 108 ∷ 97 ∷ 98 ∷ 108 ∷ 101 ∷ 59 ∷ 32 ∷ 111 ∷ 102 ∷ 102
    ∷ 108 ∷ 111 ∷ 97 ∷ 100 ∷ 115 ∷ 32 ∷ 117 ∷ 110 ∷ 107 ∷ 110 ∷ 111 ∷ 119 ∷ 110 ∷ []

-- Behind the two options: the microsecond resolution, padding, and the end of the options.
abbrev pub resolution : Bytes → Bytes
resolution b = pad (b ++ (u16 9 ++ (u16 1 ++ 6 ∷ []))) ++ u32 0

abbrev pub or_throw : {A : Type 0} → Result Failure A → M A
or_throw r w = (w, r)

unfoldable pub interface_body : Config → Result Failure Bytes
unfolding option
interface_body c =
    let front = u16 1 ++ (u16 0 ++ u32 c.snaplen) in
    elim (option front 2 c.interface) [
      | err e ↦ err e
      | ok b ↦ elim (option b 3 (c.edge ++ description)) [
        | err e ↦ err e
        | ok d ↦ ok (resolution d)
      ]
    ]

abbrev pub started : Writer → Writer
started w = record w {
  is_open = true;
  file = [];
  bytes = 0;
  packets = 0;
  captured_bytes = 0;
  original_bytes = 0;
  truncated_packets = 0;
}

unfoldable pub open_segment : Opening → M (Unit {0})
unfolding section_body interface_body block sync
open_segment k w =
    if w.is_open || leb 1024 w.sequence
    then (w, err capture_segment_limit)
    else if not k.opened
    then (w, err capture_open)
    else (do
      modify started
      block 0x0a0d0d0a section_body k.section
      body ← or_throw (interface_body w.config)
      block 1 body k.interface
      sync k.fsynced)
        w

unfoldable pub packet_body : ℕ → Bytes → ℕ → Bytes
packet_body micros bytes original = pad (
    u32 0
    ++ (u32 (micros / 2 ^ 32) ++ (u32 micros ++ (u32 (length bytes) ++ (u32 original ++ bytes)))))

abbrev pub counted : Bytes → ℕ → Writer → Writer
counted bytes original w = record w {
  packets = u64 (w.packets + 1);
  captured_bytes = u64 (w.captured_bytes + length bytes);
  original_bytes = u64 (w.original_bytes + original);
  truncated_packets =
      if ltb (length bytes) original then u64 (w.truncated_packets + 1) else w.truncated_packets;
}

unfoldable pub packet : ℕ → Bytes → ℕ → List Written → M (Unit {0})
unfolding block
packet micros bytes original answers w =
    if ltb w.config.snaplen (length bytes) || ltb original (length bytes)
    then (w, err invalid_packet_length)
    else (do block 6 (packet_body micros bytes original) answers; modify (counted bytes original)) w

-- The counters of the statistics block that are available.
abbrev pub counter : ℕ → Option ℕ → Bytes
counter code none = []
counter code (some n) = u16 code ++ (u16 8 ++ write_u64 n)

unfoldable pub stats_body : ℕ → Stats → Bytes
stats_body now stats =
    u32 0
    ++ (u32 (now / 2 ^ 32)
        ++ (u32 now ++ (counter 6 stats.received ++ (counter 7 stats.dropped ++ u32 0))))

-- What the kernel answers while a segment is closed.
pub record Closing : Type 0 where
  pub now : ℕ
  pub written : List Written
  pub fsynced : Bool
  pub published : Bool
  pub directory_opened : Bool
  pub directory_synced : Bool
  pub hashed : Bool

abbrev pub shut : Writer → Writer
shut w = record w { is_open = false }

abbrev pub numbered : Writer → Writer
numbered w = record w { sequence = u64 (w.sequence + 1) }

abbrev pub segment_of : ℕ → Writer → Stats → Segment
segment_of sequence w stats = record {
  sequence = sequence;
  content = w.file;
  size = w.bytes;
  packets = w.packets;
  statistics = stats;
  captured_bytes = w.captured_bytes;
  original_bytes = w.original_bytes;
  truncated_packets = w.truncated_packets;
}

abbrev pub finished : ℕ → Stats → Writer → Writer
finished sequence stats w = record w {
  segments = w.segments ++ segment_of sequence w stats ∷ [];
  total = u64 (w.total + w.bytes);
  bytes = 0;
}

-- `published` is false where link(2) or unlink(2) fails, `hashed` where the file cannot be read
-- back.
unfoldable pub close : Stats → Closing → M (Unit {0})
unfolding block sync stats_body
close stats k w =
    if not w.is_open
    then (w, ok tt)
    else (do
      block 5 (stats_body k.now stats) k.written
      sync k.fsynced
      modify shut
      check k.published capture_finalize
      check k.directory_opened capture_directory_unavailable
      check k.directory_synced capture_directory_sync
      modify numbered
      check k.hashed artifact_unavailable
      modify (finished w.sequence stats))
        w
