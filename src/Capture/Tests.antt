-- ===== src/Capture/Tests.antt =====
-- The capture writer on a concrete run.
use graphlab.Prelude.{ℕ, ◌≡◌, List, [], ◌∷◌, none, some, true, arith, ok, ◌≤◌, ◌%◌, length}
use graphlab.Bytes.{Bytes}
use graphlab.Descriptor.{wrote, interrupted}
use graphlab.Capture.Partial.{inspect_partial, inspect_partial-bounds}
use graphlab.Capture.Writer.{Config}
use graphlab.Capture.Writer.Quota.{Accounted, Between}
use graphlab.Capture.Writer.Runs.{
  Call, opens, packets, closes, fresh, perform_all, perform_all-Accounted,
}

abbrev config : Config
config = record { byte_budget = 1000; snaplen = 96; interface = 101 ∷ 48 ∷ []; edge = 97 ∷ [] }

-- A segment with one packet, closed; then a packet without a segment.
abbrev calls : List Call
calls =
    opens (record {
      opened = true;
      section = wrote 28 ∷ [];
      interface = wrote 9 ∷ wrote 200 ∷ [];
      fsynced = true;
    })
    ∷ packets 1_000_000 (1 ∷ 2 ∷ 3 ∷ []) 60 (interrupted ∷ wrote 100 ∷ [])
    ∷ closes (record { received = some 1; dropped = none })
        (record {
          now = 2_000_000;
          written = wrote 100 ∷ [];
          fsynced = true;
          published = true;
          directory_opened = true;
          directory_synced = true;
          hashed = true;
        })
    ∷ packets 3_000_000 (4 ∷ []) 1 (wrote 100 ∷ [])
    ∷ []

perform_all-Accounted_example :
    Accounted (perform_all calls (fresh config)).0
    × ((perform_all calls (fresh config)).1 ≡ ok tt → Between (perform_all calls (fresh config)).0)
perform_all-Accounted_example = perform_all-Accounted config calls (omega arith) (omega arith)

-- A section header block that lost its end.
abbrev torn_segment : Bytes
torn_segment = 0x0a ∷ 0x0d ∷ 0x0d ∷ 0x0a ∷ 28 ∷ 0 ∷ 0 ∷ 0 ∷ 0x4d ∷ []

inspect_partial-bounds_example :
    (v : ℕ) × (inspect_partial torn_segment ≡ some v) × (v ≤ length torn_segment) × (v % 4 ≡ 0)
inspect_partial-bounds_example = inspect_partial-bounds torn_segment
