-- ===== src/Terminal/Tests.antt =====
-- Runs of the terminal's lease and recordings on concrete sessions.
use Prim.Native.String.{String}
use text.Mathlib.Text.{◌==◌}
use text.Mathlib.TextEquality.{eq_iff}
use graphlab.Prelude.{
  ℕ, ◌+◌, ◌≡◌, ◌≢◌, ◌≤◌, refl, List, [], ◌∷◌, ◌++◌, true, false, not, some, ◌==◌ as nat_eq, length,
  drop, arith, ok, err,
}
use graphlab.Bytes.{Bytes, put}
use graphlab.Descriptor.{wrote, interrupted, failed, all}
use graphlab.Terminal.Lease
use graphlab.Terminal.Lease.Writer.{acquire-run-require, acquire-run-displaced}
use graphlab.Terminal.Recording
use graphlab.Terminal.Recording.{Row, Page, create, start_file, sync, append, replay, magic}
use graphlab.Terminal.Recording.Frames.{frame, head}
use graphlab.Terminal.Recording.Paging.{frames, IsLog, IsTail, torn, IsPage, replay-IsPage}
use graphlab.Terminal.Recording.History.{Call, append_all, append_all-replay, Leaves, is_ok}

differ : {a b : String} → (a == b) ≡ false → a ≢ b
differ {a} {b} f e = ground (arith, f, eq_iff a b, e)

abbrev nobody : Lease.Lease
nobody = record { owner = ""; token = ""; until = 0 }

abbrev ann_s : Lease.Lease
ann_s = record { owner = "ann"; token = "t1"; until = 5 + Lease.lifetime }

ann_acquires : Lease.acquire nobody "ann" false 5 "t1" ≡ ok ann_s
unfolding Lease.acquire
ann_acquires = refl

abbrev polite_calls : List (ℕ × Lease.Call)
polite_calls =
    (6, Lease.acquires "bob" false "t2")
    ∷ (9, Lease.renews "ann" "t1")
    ∷ (12, Lease.renews "bob" "t2")
    ∷ []

acquire-run-require_example :
    Lease.require (Lease.run ann_s polite_calls) "ann" "t1" 15_000_000_004 ≡ ok tt
acquire-run-require_example =
    acquire-run-require nobody ann_s "ann" "t1" false 5 15_000_000_004 polite_calls ann_acquires
      (
        (refl, omega arith, omega arith),
        ((tt, omega arith, omega arith), ((tt, omega arith, omega arith), tt)),
      )
      (omega arith)

abbrev bob_s : Lease.Lease
bob_s = record { owner = "bob"; token = "t2"; until = 9 + Lease.lifetime }

bob_takes_over : Lease.acquire ann_s "bob" true 9 "t2" ≡ ok bob_s
unfolding Lease.acquire
bob_takes_over = refl

abbrev later_calls : List (ℕ × Lease.Call)
later_calls = (10, Lease.renews "ann" "t1") ∷ (15_000_000_020, Lease.acquires "ann" false "t3") ∷ []

acquire-run-displaced_example :
    Lease.require (Lease.run bob_s later_calls) "ann" "t1" 15_000_000_030
    ≡ err Lease.writer_lease_expired
acquire-run-displaced_example =
    acquire-run-displaced ann_s bob_s "bob" "t2" "t1" true 9 later_calls "ann" 15_000_000_030
      bob_takes_over (differ refl) (differ refl) (tt, (differ refl, tt))

abbrev two_calls : List Call
two_calls =
    record {
      type = 1;
      bytes = 104 ∷ 105 ∷ [];
      now = 7;
      answers = wrote 20 ∷ interrupted ∷ wrote 14 ∷ [];
    }
    ∷ record { type = 2; bytes = 120 ∷ []; now = 9; answers = wrote 10 ∷ failed ∷ [] }
    ∷ []

created_ok : (create 1000 5 (wrote 8 ∷ []) true).1 ≡ ok tt
unfolding create start_file sync all
created_ok = refl

abbrev left_over : Recording.Recording
left_over = (append_all (create 1000 5 (wrote 8 ∷ []) true).0 two_calls).0

append_all-replay_example :
    (v : Leaves [] two_calls left_over.file
      (is_ok (append_all (create 1000 5 (wrote 8 ∷ []) true).0 two_calls).1))
    × ((start : ℕ)
        → start ≤ length v.rows
        → (p : Page) × (replay left_over.file false start ≡ some (ok p))
          × IsPage start v.rows (not (nat_eq (length v.tail) 0)) p)
append_all-replay_example =
    append_all-replay 1000 5 (wrote 8 ∷ []) true two_calls (omega arith)
      (omega arith, (omega arith, (omega arith, tt))) created_ok

abbrev greeting : Row
greeting = record { type = 1; sequence = 0; monotonic_ns = 2; offset = 0; bytes = 104 ∷ 105 ∷ [] }

abbrev half : Bytes
half = 2 ∷ 0 ∷ 0 ∷ []

greeting_then_half : frames (greeting ∷ []) ≡ frame greeting ++ []
unfolding frames
greeting_then_half = refl

greeting-IsLog : IsLog 0 (greeting ∷ [])
greeting-IsLog = (ground arith, tt)

abbrev unfinished : Row
unfinished = record { type = 2; sequence = 1; monotonic_ns = 4; offset = 2; bytes = 120 ∷ [] }

half-IsTail : IsTail 1 half
half-IsTail =
    torn unfinished (drop 3 (frame unfinished)) (ground arith) (unfold frame head put in refl)
      (unfold frame head put in omega arith)

replay-IsPage_example :
    (p : Page) × (replay (magic ++ (frames (greeting ∷ []) ++ half)) false 0 ≡ some (ok p))
    × IsPage 0 (greeting ∷ []) true p
replay-IsPage_example =
    replay-IsPage (greeting ∷ []) half 0 greeting-IsLog half-IsTail (omega arith)
