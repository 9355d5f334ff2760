-- ===== src/Packets/Headers.antt =====
-- `protocol` of cpp/telemetry/packet_decoder.cpp: what the first headers of a captured packet say,
-- and `identifier` of packages/lab-support/include/lab_support/message_observation.hpp. A read of
-- one byte or of several that does not lie inside the bytes is `none`. Addresses stay bytes, which the code prints with inet_ntop.
pub mod Safety
use graphlab.Prelude.{
  ℕ, zero, suc, ◌+◌, ◌*◌, ◌/◌, ◌%◌, Bool, true, false, not, ◌&&◌, ◌||◌, List, [], ◌∷◌, Option, none,
  some, ltb, leb, ◌==◌, if◌then◌else◌, length, take, drop, get_elem?, min,
}
use graphlab.Bytes.{Bytes, slice}

infixl 5 ◌>>=◌
abbrev pub ◌>>=◌ {ℓ κ} : {A : Type ℓ} {B : Type κ} → Option A → (A → Option B) → Option B
none >>= f = none
some a >>= f = f a

pub data Protocol : Type 0 where
  other arp ipv4 ipv6 icmp icmpv6 tcp udp : Protocol

pub data Status : Type 0 where
  complete truncated_header malformed_header unsupported_ipv6_extension : Status
  unsupported_ethertype fragment_no_reassembly : Status

pub data Stream : Type 0 where
  alpha beta : Stream

pub data Phase : Type 0 where
  request response : Phase

-- The trace ID is the message ID.
pub record Identifier : Type 0 where
  pub message_id : Bytes
  pub stream : Stream
  pub phase : Phase

pub record Headers : Type 0 where
  pub protocol : Protocol
  pub status : Status
  pub ether_type : Option ℕ
  pub source_address : Option Bytes
  pub destination_address : Option Bytes
  pub ip_protocol : Option ℕ
  pub fragmented : Option Bool
  pub source_port : Option ℕ
  pub destination_port : Option ℕ
  pub fixture_identifier : Option Identifier

abbrev pub fresh : Headers
fresh = record {
  protocol = other;
  status = complete;
  ether_type = none;
  source_address = none;
  destination_address = none;
  ip_protocol = none;
  fragmented = none;
  source_port = none;
  destination_port = none;
  fixture_identifier = none;
}

unfoldable pub be : Bytes → ℕ → Option ℕ
be b n = do high ← get_elem? b n; low ← get_elem? b (n + 1); some (high * 256 + low)

-- `[a-f0-9]`
abbrev pub is_hex : ℕ → Bool
is_hex c = (leb b'a' c && leb c b'f') || (leb b'0' c && leb c b'9')

abbrev pub all_hex : Bytes → Bool
all_hex [] = true
all_hex (c ∷ cs) = is_hex c && all_hex cs

abbrev pub same : Bytes → Bytes → Bool
same [] [] = true
same (x ∷ xs) (y ∷ ys) = x == y && same xs ys
same _ _ = false

-- `none` stands for the null that the code returns.
unfoldable pub identify : Bytes → Option ℕ → Option Identifier
identify wire none = none
identify wire (some back) =
    if not (length wire == 53)
      || not (same (take 4 wire) (b'G' ∷ b'L' ∷ b'M' ∷ b'1' ∷ []))
      || not (back == b'A' || back == b'B' || back == b'a' || back == b'b')
    then none
    else if not (all_hex (take 48 (drop 4 wire)))
    then none
    else some (record {
      message_id = take 48 (drop 4 wire);
      stream = if back == b'A' || back == b'a' then alpha else beta;
      phase = if leb b'a' back then response else request;
    })

unfoldable pub identifier : Bytes → Option Identifier
unfolding identify
identifier wire = identify wire (get_elem? wire 52)

abbrev pub short : Headers → Headers
short p = record p { status = truncated_header }

abbrev pub malformed : Headers → Headers
malformed p = record p { status = malformed_header }

-- The last part, on the ports; `end` is where the datagram ends.
unfoldable pub ports : Bytes → Bool → (type next pos end : ℕ) → Headers → Option Headers
ports b messages type next pos end p = do
  source ← be b pos
  destination ← be b (pos + 2)
  let q = record p { source_port = some source; destination_port = some destination }
  (if messages && type == 0x0800 && next == 17
      then (be b (pos + 4) >>= λ long.
          if long == 61 && leb (pos + 61) end
          then (slice b (pos + 8) 53 >>= λ wire.
              some (record q { fixture_identifier = identifier wire }))
          else some q)
      else some q)

unfoldable pub tcp_ports : Bytes → Bool → (type pos end : ℕ) → Headers → Option Headers
unfolding ports
tcp_ports b messages type pos end p = if ltb end (pos + 20) then some (short p) else do
  field ← get_elem? b (pos + 12)
  let offset = field / 16
  (if ltb offset 5
      then some (malformed p)
      else if ltb end (pos + offset * 4)
      then some (short p)
      else ports b messages type 6 pos end p)

unfoldable pub udp_ports : Bytes → Bool → (type pos end : ℕ) → Headers → Option Headers
unfolding ports
udp_ports b messages type pos end p = if ltb end (pos + 8) then some (short p) else do
  long ← be b (pos + 4)
  if ltb long 8 then some (malformed p) else ports b messages type 17 pos end p

-- Behind the IP header.
unfoldable pub transport : Bytes → Bool → (type next pos end : ℕ) → Bool → Headers → Option Headers
unfolding tcp_ports udp_ports
transport b messages type next pos end fragment q =
    let p = record q { ip_protocol = some next; fragmented = some fragment } in
    if fragment
    then some (record p { status = fragment_no_reassembly })
    else if next == 1 || next == 58
    then some (record p { protocol = if next == 1 then icmp else icmpv6 })
    else if not (next == 6) && not (next == 17)
    then some p
    else if next == 6
    then tcp_ports b messages type pos end (record p { protocol = tcp })
    else udp_ports b messages type pos end (record p { protocol = udp })

unfoldable pub ipv4_payload : Bytes → Bool → (type pos ihl long : ℕ) → Headers → Option Headers
unfolding transport
ipv4_payload b messages type pos ihl long p = do
  next ← get_elem? b (pos + 9)
  flags ← be b (pos + 6)
  source ← slice b (pos + 12) 4
  destination ← slice b (pos + 16) 4
  transport b messages type next (pos + ihl) (min (length b) (pos + long))
      (not (flags % 0x4000 == 0))
      (record p { source_address = some source; destination_address = some destination })

unfoldable pub ipv4_header : Bytes → Bool → (type pos : ℕ) → Headers → Option Headers
unfolding ipv4_payload
ipv4_header b messages type pos q =
    let p = record q { protocol = ipv4 } in
    if ltb (length b) (pos + 20) then some (short p) else do
      first ← get_elem? b pos
      long ← be b (pos + 2)
      let ihl = first % 16 * 4
      (if not (first / 16 == 4) || ltb ihl 20 || ltb long ihl
          then some (malformed p)
          else if ltb (length b) (pos + ihl)
          then some (short p)
          else ipv4_payload b messages type pos ihl long p)

unfoldable pub ipv6_payload : Bytes → Bool → (type pos : ℕ) → Headers → Option Headers
unfolding transport
ipv6_payload b messages type pos p = do
  next ← get_elem? b (pos + 6)
  long ← be b (pos + 4)
  source ← slice b (pos + 8) 16
  destination ← slice b (pos + 24) 16
  let r = record p { source_address = some source; destination_address = some destination }
  (if next == 0 || next == 43 || next == 44 || next == 50 || next == 51 || next == 60
      then some (record r { status = unsupported_ipv6_extension; ip_protocol = some next })
      else transport b messages type next (pos + 40) (min (length b) (pos + 40 + long)) false r)

unfoldable pub ipv6_header : Bytes → Bool → (type pos : ℕ) → Headers → Option Headers
unfolding ipv6_payload
ipv6_header b messages type pos q =
    let p = record q { protocol = ipv6 } in
    if ltb (length b) (pos + 40) then some (short p) else do
      first ← get_elem? b pos
      (if not (first / 16 == 6) then some (malformed p) else ipv6_payload b messages type pos p)

-- Behind the VLAN tags.
unfoldable pub network : Bytes → Bool → (type pos : ℕ) → Option Headers
unfolding ipv4_header ipv6_header
network b messages type pos =
    let p : Headers = record fresh { ether_type = some type } in
    if type == 0x0806
    then some (record p { protocol = arp })
    else if type == 0x0800
    then ipv4_header b messages type pos p
    else if type == 0x86dd
    then ipv6_header b messages type pos p
    else some (record p { status = unsupported_ethertype })

-- The loop over at most `rounds` VLAN tags.
unfoldable pub tags : ℕ → Bytes → Bool → (type pos : ℕ) → Option Headers
unfolding network
tags zero b messages type pos = network b messages type pos
tags (suc rounds) b messages type pos =
    let inner = be b (pos + 2) >>= λ type'. tags rounds b messages type' (pos + 4) in
    if type == 0x8100 || type == 0x88a8
    then (if ltb (length b) (pos + 4) then some (short fresh) else inner)
    else network b messages type pos

unfoldable pub protocol : Bytes → Bool → Option Headers
unfolding tags
protocol b messages =
    if ltb (length b) 14 then some (short fresh) else be b 12 >>= λ type. tags 2 b messages type 14
