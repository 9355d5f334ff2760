-- ===== src/Capture/Writer/Runs.antt =====
-- The PCAPNG writer over sequences of calls, up to the first that throws.
use graphlab.Prelude.{ℕ, ◌+◌, ◌^◌, ◌<◌, ◌≡◌, refl, false, List, [], ◌∷◌, arith, ok}
use graphlab.Bytes.{Bytes}
use graphlab.Descriptor.{Written}
use graphlab.Capture.Writer.{
  Config, Stats, Writer, M, ◌>>◌, Opening, Closing, open_segment, packet, close,
}
use graphlab.Capture.Writer.Quota.{Accounted, Between, Keeps, then-Keeps}
use graphlab.Capture.Writer.Calls.{open_segment-Keeps, packet-Keeps, close-Keeps}

-- A call of the writer's owner, with what the kernel answers to it.
pub data Call : Type 0 where
  opens : Opening → Call
  packets : ℕ → Bytes → ℕ → List Written → Call
  closes : Stats → Closing → Call

unfoldable pub perform : Call → M (Unit {0})
perform (opens k) = open_segment k
perform (packets micros bytes original answers) = packet micros bytes original answers
perform (closes stats k) = close stats k

-- Calls in sequence; the first one that throws ends them.
unfoldable pub perform_all : List Call → M (Unit {0})
perform_all [] w = (w, ok tt)
perform_all (c ∷ cs) w = (perform c >> perform_all cs) w

perform-Keeps : (c : Call) → Keeps Between Between (perform c)
unfolding perform
perform-Keeps (opens k) = open_segment-Keeps k
perform-Keeps (packets micros bytes original answers) = packet-Keeps micros bytes original answers
perform-Keeps (closes stats k) = close-Keeps stats k

perform_all-Keeps : (cs : List Call) → Keeps Between Between (perform_all cs)
unfolding perform_all
perform_all-Keeps [] w h p = (h, λ a e. p)
perform_all-Keeps (c ∷ cs) w h p =
    then-Keeps Between Between Between (perform c) (λ _. perform_all cs) (perform-Keeps c)
      (λ _. perform_all-Keeps cs) w h p

-- The constructor.
abbrev pub fresh : Config → Writer
fresh c = record {
  config = c;
  is_open = false;
  file = [];
  segments = [];
  bytes = 0;
  total = 0;
  packets = 0;
  sequence = 0;
  captured_bytes = 0;
  original_bytes = 0;
  truncated_packets = 0;
}

-- From a new writer on, with a byte budget that leaves 2^33 bytes in 64 bits and a snapshot length
-- of 32 bits: whatever is called in a row up to the first call that throws, and whatever the kernel
-- answers, the size of every closed segment is the length of its file, `total` is the sum of these
-- sizes, and with the bytes counted for the open segment it is within the budget. If none threw, a
-- segment that is open is counted byte for byte.
pub perform_all-Accounted :
    (c : Config) (cs : List Call)
    → c.byte_budget + 2 ^ 33 < 2 ^ 64
    → c.snaplen < 2 ^ 32
    → Accounted (perform_all cs (fresh c)).0
      × ((perform_all cs (fresh c)).1 ≡ ok tt → Between (perform_all cs (fresh c)).0)
perform_all-Accounted c cs b s =
    let (h, p) =
      perform_all-Keeps cs (fresh c)
        (record { roomy = b; short = s; total = refl; exact = tt; within = omega arith })
        (λ o. cc) in
    (h, λ e. p tt e)
