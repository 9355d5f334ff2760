-- ===== src/Packets/Tests.antt =====
-- The packet decoder on concrete bytes.
use graphlab.Prelude.{◌≢◌, [], ◌∷◌, ◌++◌, none, true, replicate}
use graphlab.Bytes.{Bytes}
use graphlab.Packets.Headers.{protocol}
use graphlab.Packets.Headers.Safety.{protocol-ne-none}
use graphlab.Packets.Decoder.{decode, fault}
use graphlab.Packets.Decoder.Safety.{decode-ne-fault}

-- An Ethernet frame whose IPv4 header is cut.
abbrev cut_frame : Bytes
cut_frame = replicate 12 0 ++ 8 ∷ 0 ∷ 0x45 ∷ 0 ∷ []

protocol-ne-none_example : protocol cut_frame true ≢ none
protocol-ne-none_example = protocol-ne-none cut_frame true

-- A section header whose length field claims more than the file holds.
abbrev cut_file : Bytes
cut_file = 0x0a ∷ 0x0d ∷ 0x0d ∷ 0x0a ∷ 28 ∷ 0 ∷ 0 ∷ 0 ∷ 0x4d ∷ 0x3c ∷ 0x2b ∷ 0x1a ∷ []

decode-ne-fault_example : decode cut_file true 10 ≢ fault
decode-ne-fault_example = decode-ne-fault cut_file true 10
