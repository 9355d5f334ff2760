-- ===== src/Packets/Decoder.antt =====
-- `decode` of cpp/telemetry/packet_decoder.cpp: the reader of finished capture segments. The rows
-- hold the fields that the code computes; `context` and the constant fields are left out.
pub mod Faults
pub mod Safety
use graphlab.Prelude.{
  ℕ, zero, suc, ◌+◌, ◌*◌, ◌/◌, ◌%◌, ◌^◌, ◌-◌, Bool, true, false, not, ◌&&◌, ◌||◌, List, [], ◌∷◌,
  ◌++◌, Option, none, some, ltb, leb, ◌==◌, if◌then◌else◌, length, take, drop, get_elem?,
}
use graphlab.Bytes.{Bytes, get, slice}
use graphlab.Packets.Headers.{Headers, protocol}

pub data Failure : Type 0 where
  invalid_pcapng unsupported_timestamp_offset unsupported_pcapng_block : Failure

-- A value, an exception, or a fault: a read outside the bytes, or a loop without end.
pub data Checked (A : Type 0) : Type 0 where
  value : A → Checked A
  thrown : Failure → Checked A
  fault : Checked A

infixl 5 ◌>>=◌ ◌>>◌
abbrev pub ◌>>=◌ : {A B : Type 0} → Checked A → (A → Checked B) → Checked B
value a >>= f = f a
thrown e >>= f = thrown e
fault >>= f = fault

abbrev pub ◌>>◌ : {B : Type 0} → Checked (Unit {0}) → Checked B → Checked B
m >> k = m >>= λ _. k

abbrev pub require : Bool → Checked (Unit {0})
require true = value tt
require false = thrown invalid_pcapng

-- An unchecked read of a byte or of a span.
abbrev pub read : {A : Type 0} → Option A → Checked A
read none = fault
read (some a) = value a

unfoldable pub le : Bytes → ℕ → Checked ℕ
le b n = require (leb (n + 4) (length b)) >> value (get (take 4 (drop n b)))

-- Two unchecked reads, low byte first.
unfoldable pub le16 : Bytes → ℕ → Checked ℕ
le16 b n = do
  low ← read (get_elem? b n)
  high ← read (get_elem? b (n + 1))
  value (low + high * 256)

pub record Row : Type 0 where
  pub packet_index : ℕ
  pub block_offset : ℕ
  pub timestamp_unix_micros : ℕ
  pub captured_length : ℕ
  pub original_length : ℕ
  pub truncated : Bool
  pub headers : Headers

pub record Scan : Type 0 where
  pub section : Bool
  pub interface : Bool
  pub snaplen : ℕ
  pub items : List Row
  pub packets : ℕ
  pub blocks : ℕ
  pub offset : ℕ

abbrev pub start : Scan
start = record {
  section = false;
  interface = false;
  snaplen = 0;
  items = [];
  packets = 0;
  blocks = 0;
  offset = 0;
}

-- The checks on one option, whose value is at `i`.
unfoldable pub option_value : Bytes → (code size i : ℕ) → Checked (Unit {0})
option_value b code size i =
    if code == 9
    then (if size == 1
        then read (get_elem? b i) >>= (λ v. require (v == 6))
        else thrown invalid_pcapng)
    else if code == 14
    then thrown unsupported_timestamp_offset
    else value tt

-- The loop over the options of an interface block of `len` bytes.
unfoldable pub options : ℕ → Bytes → (len i : ℕ) → Checked (Unit {0})
options zero b len i = fault
options (suc fuel) b len i =
    let next = λ (size : ℕ). options fuel b len (i + 4 + (size + 3) / 4 * 4) in
    let round = do
      code ← le16 b i
      size ← le16 b (i + 2)
      require (leb (i + 4 + size) (len - 4))
      (if code == 0 then require (size == 0) else (option_value b code size (i + 4) >> next size))
    in if leb (i + 4) (len - 4) then round else value tt

unfoldable pub section_block : Bytes → (type len : ℕ) → Scan → Checked Scan
section_block b type len s = do
  require (type == 0x0a0d0d0a && len == 28)
  byte_order ← le b 8
  version ← le b 12
  require (byte_order == 0x1a2b3c4d && version == 1)
  value (record s { section = true })

unfoldable pub interface_block : Bytes → ℕ → Scan → Checked Scan
interface_block b len s = do
  require (not s.interface && leb 20 len)
  low ← read (get_elem? b 8)
  high ← read (get_elem? b 9)
  require (low == 1 && high == 0)
  snaplen ← le b 12
  require (ltb 0 snaplen && leb snaplen 65535)
  options (length b) b len 16
  value (record s { interface = true; snaplen = snaplen })

-- The rows behind a packet: one more, unless there are `limit` of them.
unfoldable pub more_items : Bytes → Bool → (limit captured original : ℕ) → Scan → Checked (List Row)
more_items b messages limit captured original s =
    if ltb (length s.items) limit
    then (do
      high ← le b 12
      low ← le b 16
      packet ← read (slice b 28 captured)
      headers ← read (protocol packet messages)
      value (
          s.items
          ++ record {
            packet_index = s.packets;
            block_offset = s.offset;
            timestamp_unix_micros = high * 2 ^ 32 + low;
            captured_length = captured;
            original_length = original;
            truncated = ltb captured original;
            headers = headers;
          }
            ∷ []))
    else value s.items

unfoldable pub packet_block : Bytes → Bool → (limit len : ℕ) → Scan → Checked Scan
packet_block b messages limit len s = do
  require (s.interface && leb 32 len)
  interface ← le b 8
  require (interface == 0)
  captured ← le b 20
  original ← le b 24
  require (leb captured original && leb captured s.snaplen && 32 + (captured + 3) / 4 * 4 == len)
  items ← more_items b messages limit captured original s
  value (record s { packets = s.packets + 1; items = items })

unfoldable pub statistics_block : Bytes → ℕ → Scan → Checked Scan
statistics_block b len s = do
  require (s.interface && leb 24 len)
  interface ← le b 8
  require (interface == 0)
  value s

unfoldable pub one_block : Bytes → Bool → (limit type len : ℕ) → Scan → Checked Scan
one_block b messages limit type len s =
    if not s.section
    then section_block b type len s
    else if type == 1
    then interface_block b len s
    else if type == 6
    then packet_block b messages limit len s
    else if type == 5
    then statistics_block b len s
    else thrown unsupported_pcapng_block

-- The loop over the blocks of the rest of the file.
unfoldable pub scan : ℕ → Bool → ℕ → Bytes → Scan → Checked Scan
scan zero messages limit rest s = fault
scan (suc fuel) messages limit rest s =
    let round = do
      require (leb (s.blocks + 1) 1_000_000 && leb 12 (length rest))
      type ← le rest 0
      len ← le rest 4
      require (leb 12 len && len % 4 == 0 && leb len (1024 * 1024) && leb len (length rest))
      b ← read (slice rest 0 len)
      trailer ← le b (len - 4)
      require (trailer == len)
      s' ← one_block b messages limit type len s
      scan fuel messages limit (drop len rest)
          (record s' { blocks = s.blocks + 1; offset = s.offset + len })
    in if length rest == 0 then value s else round

pub record Decoded : Type 0 where
  pub items : List Row
  pub packet_count : ℕ
  pub omitted_records : ℕ

unfoldable pub decode : Bytes → Bool → ℕ → Checked Decoded
unfolding scan one_block section_block interface_block packet_block statistics_block more_items
    options option_value le le16
decode bytes messages limit = do
  require (leb limit 2000)
  s ← scan (suc (length bytes)) messages limit bytes start
  require (s.section && s.interface)
  value (record {
    items = s.items;
    packet_count = s.packets;
    omitted_records = s.packets - length s.items;
  })
