-- ===== src/Packets/Headers/Safety.antt =====
-- No packet makes `protocol` read outside its bytes.
use graphlab.Prelude.{
  leb, ℕ, zero, suc, ◌+◌, ◌*◌, ◌%◌, ◌≤◌, ◌<◌, ◌≡◌, ◌≢◌, refl, Bool, true, false, not, Option, none,
  some, ltb, ◌==◌, length, min, take, drop, get_elem?_total, arith, Bool-cases, inl, inr,
}
use graphlab.Bytes.{Bytes, slice_total}
use graphlab.Packets.Headers.{
  Headers, be, ports, tcp_ports, udp_ports, transport, ipv4_header, ipv6_header, network, tags,
  ipv4_payload, ipv6_payload, protocol, tcp, udp, ipv4, ipv6, fresh,
}

abbrev is_some {ℓ} : {A : Type ℓ} → Option A → Bool
is_some none = false
is_some (some a) = true

abbrev Defined {ℓ} : {A : Type ℓ} → Option A → Type 0
Defined o = is_some o ≡ true

be_total : (b : Bytes) (n : ℕ) → n + 1 < length b → (v : ℕ) × (be b n ≡ some v)
unfolding be
be_total b n h =
    let (x, p) = get_elem?_total b n (omega arith) in
    let (y, q) = get_elem?_total b (n + 1) h in (x * 256 + y, rw (p, q) refl)

module _ (b : Bytes) (messages : Bool) (type : ℕ) where
  ports_total :
      (next pos end : ℕ) (p : Headers)
      → pos + 8 ≤ length b
      → end ≤ length b
      → Defined (ports b messages type next pos end p)
  unfolding ports
  ports_total next pos end p h k =
      let (s, e) = be_total b pos (omega arith) in
      let (d, f) = be_total b (pos + 2) (omega arith) in
      let (l, g) = be_total b (pos + 4) (omega arith) in
      elim (Bool-cases (leb (pos + 61) end)) [
        | inl o ↦
            let i = slice_total b (pos + 8) 53 (ground (arith, o)) in rw (e, f, g, i) (ground arith)
        | inr o ↦ rw (e, f, g, o) (ground arith)
      ]

  tcp_ports_total :
      (pos end : ℕ) (p : Headers) → end ≤ length b → Defined (tcp_ports b messages type pos end p)
  unfolding tcp_ports
  tcp_ports_total pos end p h = elim (Bool-cases (ltb end (pos + 20))) [
    | inl e ↦ rw e refl
    | inr e ↦
        let (x, f) = get_elem?_total b (pos + 12) (ground arith) in
        let more = ports_total 6 pos end p (ground arith) h in rw (e, f) (ground (arith, more))
  ]

  udp_ports_total :
      (pos end : ℕ) (p : Headers) → end ≤ length b → Defined (udp_ports b messages type pos end p)
  unfolding udp_ports
  udp_ports_total pos end p h = elim (Bool-cases (ltb end (pos + 8))) [
    | inl e ↦ rw e refl
    | inr e ↦
        let (x, f) = be_total b (pos + 4) (ground arith) in
        let more = ports_total 17 pos end p (ground arith) h in rw (e, f) (ground (arith, more))
  ]

  transport_total :
      (next pos end : ℕ) (fragment : Bool) (q : Headers)
      → end ≤ length b
      → Defined (transport b messages type next pos end fragment q)
  unfolding transport
  transport_total next pos end fragment q h =
      let p = record q { ip_protocol = some next; fragmented = some fragment } in
      ground (
        arith,
        tcp_ports_total pos end (record p { protocol = tcp }) h,
        udp_ports_total pos end (record p { protocol = udp }) h,
      )

  ipv4_payload_total :
      (pos ihl long : ℕ) (p : Headers)
      → pos + 20 ≤ length b
      → Defined (ipv4_payload b messages type pos ihl long p)
  unfolding ipv4_payload
  ipv4_payload_total pos ihl long p h =
      let (x, e) = get_elem?_total b (pos + 9) (omega arith) in
      let (y, f) = be_total b (pos + 6) (omega arith) in
      let r = record p {
        source_address = some (take 4 (drop (pos + 12) b));
        destination_address = some (take 4 (drop (pos + 16) b));
      } in
      let i = slice_total b (pos + 12) 4 (omega arith) in
      let j = slice_total b (pos + 16) 4 (omega arith) in
      rw (e, f, i, j)
        (transport_total x (pos + ihl) (min (length b) (pos + long)) (not (y % 0x4000 == 0)) r
          (omega arith))

  ipv4_header_total : (pos : ℕ) (p : Headers) → Defined (ipv4_header b messages type pos p)
  unfolding ipv4_header
  ipv4_header_total pos q = elim (Bool-cases (ltb (length b) (pos + 20))) [
    | inl e ↦ rw e refl
    | inr e ↦
        let p = record q { protocol = ipv4 } in
        let (x, f) = get_elem?_total b pos (ground arith) in
        let (y, g) = be_total b (pos + 2) (ground arith) in
        let more = ipv4_payload_total pos (x % 16 * 4) y p (ground arith) in
        rw (e, f, g) (ground (arith, more))
  ]

  ipv6_payload_total :
      (pos : ℕ) (p : Headers) → pos + 40 ≤ length b → Defined (ipv6_payload b messages type pos p)
  unfolding ipv6_payload
  ipv6_payload_total pos p h =
      let (x, e) = get_elem?_total b (pos + 6) (omega arith) in
      let (y, f) = be_total b (pos + 4) (omega arith) in
      let r = record p {
        source_address = some (take 16 (drop (pos + 8) b));
        destination_address = some (take 16 (drop (pos + 24) b));
      } in
      let i = slice_total b (pos + 8) 16 (omega arith) in
      let j = slice_total b (pos + 24) 16 (omega arith) in
      let more =
        transport_total x (pos + 40) (min (length b) (pos + 40 + y)) false r (omega arith) in
      rw (e, f, i, j) (ground (arith, more))

  ipv6_header_total : (pos : ℕ) (p : Headers) → Defined (ipv6_header b messages type pos p)
  unfolding ipv6_header
  ipv6_header_total pos q = elim (Bool-cases (ltb (length b) (pos + 40))) [
    | inl e ↦ rw e refl
    | inr e ↦
        let p = record q { protocol = ipv6 } in
        let (x, f) = get_elem?_total b pos (ground arith) in
        let more = ipv6_payload_total pos p (ground arith) in rw (e, f) (ground (arith, more))
  ]

network_total : (b : Bytes) (messages : Bool) (type pos : ℕ) → Defined (network b messages type pos)
unfolding network
network_total b messages type pos =
    let p : Headers = record fresh { ether_type = some type } in
    ground (arith, ipv4_header_total b messages type pos p, ipv6_header_total b messages type pos p)

tags_total :
    (rounds : ℕ) (b : Bytes) (messages : Bool) (type pos : ℕ)
    → Defined (tags rounds b messages type pos)
unfolding tags
tags_total zero b messages type pos = network_total b messages type pos
tags_total (suc rounds) b messages type pos = elim (Bool-cases (ltb (length b) (pos + 4))) [
  | inl e ↦ rw e (ground (arith, network_total b messages type pos))
  | inr e ↦
      let (x, f) = be_total b (pos + 2) (ground arith) in
      rw (e, f)
        (ground
          (arith, network_total b messages type pos, tags_total rounds b messages x (pos + 4)))
]

-- Whatever the captured bytes are, `protocol` returns headers: no read lies outside the bytes.
pub protocol-ne-none : (b : Bytes) (messages : Bool) → protocol b messages ≢ none
unfolding protocol
protocol-ne-none b messages e = elim (Bool-cases (ltb (length b) 14)) [
  | inl h ↦ cc (rw h at e)
  | inr h ↦
      let (x, f) = be_total b 12 (ground arith) in
      let more = tags_total 2 b messages x 14 in ground (arith, more, f)
]
