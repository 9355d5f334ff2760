-- ===== src/Packets/Decoder/Safety.antt =====
-- No file makes `decode` read outside its bytes or loop without end.
use graphlab.Prelude.{
  ℕ, zero, suc, ◌+◌, ◌*◌, ◌/◌, ◌%◌, ◌-◌, ◌≤◌, ◌<◌, ◌≡◌, ◌≢◌, Bool, not, ◌&&◌, leb, if◌then◌else◌,
  ltb, ◌==◌, length, take, drop, length-drop, arith, Bool-cases, Option-cases, inl, inr,
}
use graphlab.Bytes.{Bytes}
use graphlab.Packets.Headers.{Headers, protocol}
use graphlab.Packets.Headers.Safety.{protocol-ne-none}
use graphlab.Packets.Decoder.{
  Checked, invalid_pcapng, unsupported_timestamp_offset, unsupported_pcapng_block, fault, ◌>>=◌,
  ◌>>◌, require, read, Scan, option_value, options, section_block, interface_block, more_items,
  packet_block, statistics_block, one_block, scan, start, decode,
}
use graphlab.Packets.Decoder.Faults.{
  NoFault, value_fine, thrown_fine, bind, branch, required, le_then, read_then, le16_then,
  require-NoFault, slice_then, NoFault-ne,
}

option_value-NoFault :
    (b : Bytes) (code size i : ℕ) → i + size < length b → NoFault (option_value b code size i)
unfolding option_value
option_value-NoFault b code size i h = elim (Bool-cases (code == 9)) [
  | inl c ↦ elim (Bool-cases (size == 1)) [
    | inl d ↦
        rw (c, d)
          (read_then b i (λ v. require (v == 6)) (omega arith) λ v. require-NoFault (v == 6))
    | inr d ↦ rw (c, d) (thrown_fine invalid_pcapng)
  ]
  | inr c ↦ elim (Bool-cases (code == 14)) [
    | inl d ↦ rw (c, d) (thrown_fine unsupported_timestamp_offset)
    | inr d ↦ rw (c, d) (value_fine tt)
  ]
]

option_end-NoFault :
    (b : Bytes) (code size i : ℕ) (next : Checked (Unit {0}))
    → i + size < length b
    → NoFault next
    → NoFault (if code == 0 then require (size == 0) else (option_value b code size i >> next))
option_end-NoFault b code size i next h k = elim (Bool-cases (code == 0)) [
  | inl c ↦ rw c (require-NoFault (size == 0))
  | inr c ↦ rw c (
      bind (option_value b code size i) (λ u. next) (option_value-NoFault b code size i h) λ u q. k)
]

options-NoFault :
    (fuel : ℕ) (b : Bytes) (len i : ℕ)
    → length b ≡ len
    → 0 < fuel
    → len < fuel + i
    → NoFault (options fuel b len i)
unfolding options
options-NoFault zero b len i e z h = absurd (omega arith)
options-NoFault (suc fuel) b len i e z h = elim (Bool-cases (leb (i + 4) (len - 4))) [
  | inr done ↦ rw done (value_fine tt)
  | inl more ↦ rw more (
      le16_then b i _ (ground arith) λ code. le16_then b (i + 2) _ (ground arith) λ size.
        required (leb (i + 4 + size) (len - 4)) _ λ fits.
          option_end-NoFault b code size (i + 4) (options fuel b len (i + 4 + (size + 3) / 4 * 4))
            (ground arith)
            (options-NoFault fuel b len (i + 4 + (size + 3) / 4 * 4) e (ground arith)
              (ground arith)))
]

section_block-NoFault : (b : Bytes) (type len : ℕ) (s : Scan) → NoFault (section_block b type len s)
unfolding section_block
section_block-NoFault b type len s = required (type == 0x0a0d0d0a && len == 28) _ λ _.
    le_then b 8 _ λ byte_order.
      le_then b 12 _
        λ version. required (byte_order == 0x1a2b3c4d && version == 1) _ λ _. value_fine _

interface_block-NoFault :
    (b : Bytes) (len : ℕ) (s : Scan) → length b ≡ len → NoFault (interface_block b len s)
unfolding interface_block
interface_block-NoFault b len s e = required (not s.interface && leb 20 len) _ λ c.
    read_then b 8 _ (ground arith) λ low. read_then b 9 _ (ground arith) λ high.
      required (low == 1 && high == 0) _ λ _. le_then b 12 _ λ snaplen.
        required (ltb 0 snaplen && leb snaplen 65535) _ λ _.
          bind (options (length b) b len 16) _
            (options-NoFault (length b) b len 16 e (ground arith) (omega arith)) λ u q. value_fine _

headers_then :
    {B : Type 0} (b : Bytes) (messages : Bool) (f : Headers → Checked B)
    → ((h : Headers) → NoFault (f h))
    → NoFault (read (protocol b messages) >>= f)
headers_then b messages f k = elim (Option-cases (protocol b messages)) [
  | inl e ↦ absurd (protocol-ne-none b messages e)
  | inr (h, e) ↦ rw e (k h)
]

more_items-NoFault :
    (b : Bytes) (messages : Bool) (limit captured original : ℕ) (s : Scan)
    → 28 + captured ≤ length b
    → NoFault (more_items b messages limit captured original s)
unfolding more_items
more_items-NoFault b messages limit captured original s h =
    elim (Bool-cases (ltb (length s.items) limit)) [
      | inr e ↦ rw e (value_fine _)
      | inl e ↦ rw e (
          le_then b 12 _ λ high. le_then b 16 _ λ low.
            slice_then b 28 captured _ h
              λ _. headers_then (take captured (drop 28 b)) messages _ λ h. value_fine _)
    ]

packet_block-NoFault :
    (b : Bytes) (messages : Bool) (limit len : ℕ) (s : Scan)
    → length b ≡ len
    → NoFault (packet_block b messages limit len s)
unfolding packet_block
packet_block-NoFault b messages limit len s e = required (s.interface && leb 32 len) _ λ _.
    le_then b 8 _ λ interface. required (interface == 0) _ λ _. le_then b 20 _ λ captured.
      le_then b 24 _ λ original.
        required
          (leb captured original && leb captured s.snaplen && 32 + (captured + 3) / 4 * 4 == len) _
          λ c.
            bind (more_items b messages limit captured original s) _
              (more_items-NoFault b messages limit captured original s (ground (arith, c, e)))
              λ items q. value_fine _

statistics_block-NoFault : (b : Bytes) (len : ℕ) (s : Scan) → NoFault (statistics_block b len s)
unfolding statistics_block
statistics_block-NoFault b len s =
    required (s.interface && leb 24 len) _
      λ _. le_then b 8 _ λ interface. required (interface == 0) _ λ _. value_fine _

one_block-NoFault :
    (b : Bytes) (messages : Bool) (limit type len : ℕ) (s : Scan)
    → length b ≡ len
    → NoFault (one_block b messages limit type len s)
unfolding one_block
one_block-NoFault b messages limit type len s e =
    branch (not s.section) (section_block-NoFault b type len s) (
      branch (type == 1) (interface_block-NoFault b len s e) (
        branch (type == 6) (packet_block-NoFault b messages limit len s e) (
          branch (type == 5) (statistics_block-NoFault b len s)
            (thrown_fine unsupported_pcapng_block))))

scan-NoFault :
    (fuel : ℕ) (messages : Bool) (limit : ℕ) (rest : Bytes) (s : Scan)
    → length rest < fuel
    → NoFault (scan fuel messages limit rest s)
unfolding scan
scan-NoFault zero messages limit rest s h = absurd (omega arith)
scan-NoFault (suc fuel) messages limit rest s h = elim (Bool-cases (length rest == 0)) [
  | inl e ↦ rw e (value_fine _)
  | inr e ↦ rw e (
      required (leb (s.blocks + 1) 1_000_000 && leb 12 (length rest)) _ λ _.
        le_then rest 0 _ λ type. le_then rest 4 _ λ len.
          required (leb 12 len && len % 4 == 0 && leb len (1024 * 1024) && leb len (length rest)) _
            λ c.
              let fits : 12 ≤ len = ground (arith, c) in
              let inside : len ≤ length rest = ground (arith, c) in
              slice_then rest 0 len _ (omega (arith, inside)) λ l.
                le_then (take len rest) (len - 4) _ λ trailer. required (trailer == len) _ λ _.
                  bind (one_block (take len rest) messages limit type len s) _
                    (one_block-NoFault (take len rest) messages limit type len s l)
                    λ s' q.
                      scan-NoFault fuel messages limit (drop len rest) _
                        (omega (arith, length-drop len rest)))
]

-- On any bytes and for any limit, `decode` returns a value or throws: the loops over blocks and
-- options end within the fuel, and no unchecked read, of an option, of a packet's bytes or of its
-- headers, lies outside its block.
pub decode-ne-fault :
    (bytes : Bytes) (messages : Bool) (limit : ℕ) → decode bytes messages limit ≢ fault
unfolding decode
decode-ne-fault bytes messages limit = NoFault-ne (
    required (leb limit 2000) _ λ _.
      bind (scan (suc (length bytes)) messages limit bytes start) _
        (scan-NoFault (suc (length bytes)) messages limit bytes start (omega arith))
        λ s q. required (s.section && s.interface) _ λ _. value_fine _)
