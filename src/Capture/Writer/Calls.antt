-- ===== src/Capture/Writer/Calls.antt =====
-- Each call of the PCAPNG writer keeps the accounts of its segments.
use graphlab.Prelude.{
  ℕ, ◌+◌, ◌^◌, ◌≤◌, ◌<◌, ◌≡◌, refl, sym, ◌∙◌, Bool, true, false, not, ◌||◌, List, [], ◌∷◌, ◌++◌,
  Option, some, none, ltb, leb, length, arith, Result, ok, err, All, length-append, Bool-cases, inl,
  inr,
}
use graphlab.Bytes.{Bytes, put, length-put}
use graphlab.Descriptor.{Written}
use graphlab.Capture.Writer.{
  Failure, capture_finalize, capture_directory_unavailable, capture_directory_sync,
  artifact_unavailable, Stats, Segment, Writer, M, ◌>>=◌, ◌>>◌, check, modify, or_throw, block,
  sync, Opening, section_body, interface_body, open_segment, packet_body, counted, packet, counter,
  stats_body, Closing, numbered, segment_of, finished, close, started, shut,
}
use graphlab.Capture.Writer.Quota.{
  sizes, Accounted, IsExact, At, Between, Keeps, then-Keeps, block-Keeps, same_fields, check-Keeps,
  sync-Keeps, length-packet_body, interface_size,
}

started_fine : (w : Writer) → Accounted w → Accounted (started w)
started_fine w h = record {
  roomy = h.roomy;
  short = h.short;
  total = h.total;
  exact = h.exact;
  within = omega (arith, h.within);
}

shut_fine : (w : Writer) → Accounted w → Accounted (shut w)
shut_fine w h = record {
  roomy = h.roomy;
  short = h.short;
  total = h.total;
  exact = h.exact;
  within = h.within;
}

numbered_fine : (w : Writer) → Accounted w → Accounted (numbered w)
numbered_fine w h = record {
  roomy = h.roomy;
  short = h.short;
  total = h.total;
  exact = h.exact;
  within = h.within;
}

counted_fine :
    (bytes : Bytes) (original : ℕ) (has : Bool) (w : Writer)
    → Accounted w
    → At has w
    → Accounted (counted bytes original w) × Between (counted bytes original w)
counted_fine bytes original has w h p = (
  record { roomy = h.roomy; short = h.short; total = h.total; exact = h.exact; within = h.within },
  λ o. p.1 (sym p.0 ∙ o),
)

pub packet-Keeps :
    (micros : ℕ) (bytes : Bytes) (original : ℕ) (answers : List Written)
    → Keeps Between Between (packet micros bytes original answers)
unfolding packet
packet-Keeps micros bytes original answers w h p =
    elim (Bool-cases (ltb w.config.snaplen (length bytes) || ltb original (length bytes))) [
      | inl c ↦ rw c (h, λ a r. cc)
      | inr c ↦
          let fits : length bytes < 2 ^ 32 = ground (arith, c, h.short) in
          let body = packet_body micros bytes original in
          rw c (
            then-Keeps (At w.is_open) (At w.is_open) Between (block 6 body answers)
              (λ _. modify (counted bytes original))
              (block-Keeps w.is_open 6 body answers
                (omega (arith, fits, length-packet_body micros bytes original)))
              (λ _.
                same_fields (At w.is_open) Between (counted bytes original)
                  (counted_fine bytes original w.is_open))
              w h (refl, p))
    ]

closed_or_exact :
    {A : Type 0} (P : Writer → Type 0) (has : Bool) (m : M A)
    → Keeps P (At has) m
    → Keeps P Between m
closed_or_exact P has m k w h p =
    ((k w h p).0, λ a e. let q = (k w h p).1 a e in λ o. q.1 (sym q.0 ∙ o))

-- Behind the section header.
described-Keeps :
    (k : Opening) (body : Result Failure Bytes)
    → ((b : Bytes) → body ≡ ok b → length b < 2 ^ 32)
    → Keeps (At true) (At true) (or_throw body >>= λ b. block 1 b k.interface >> sync k.fsynced)
described-Keeps k (err e) s = λ w h p. (h, λ a r. cc)
described-Keeps k (ok b) s =
    then-Keeps (At true) (At true) (At true) (block 1 b k.interface) (λ _. sync k.fsynced)
      (block-Keeps true 1 b k.interface (omega (arith, s b refl)))
      (λ _. sync-Keeps (At true) k.fsynced)

-- The part of `open` behind the open(2) that succeeds.
section_short : length section_body < 2 ^ 32
unfolding section_body put
section_short = omega arith

prepared-Keeps :
    (k : Opening) (body : Result Failure Bytes)
    → ((b : Bytes) → body ≡ ok b → length b < 2 ^ 32)
    → Keeps Between Between (do
      modify started
      block 0x0a0d0d0a section_body k.section
      b ← or_throw body
      block 1 b k.interface
      sync k.fsynced)
prepared-Keeps k body s =
    then-Keeps Between (At true) Between (modify started) _
      (same_fields Between (At true) started (λ w h p. (started_fine w h, (refl, λ o. refl))))
      (λ _. closed_or_exact (At true) true _ (
        then-Keeps (At true) (At true) (At true) (block 0x0a0d0d0a section_body k.section) _
          (block-Keeps true 0x0a0d0d0a section_body k.section (omega (arith, section_short)))
          (λ _. described-Keeps k body s)))

pub open_segment-Keeps : (k : Opening) → Keeps Between Between (open_segment k)
unfolding open_segment
open_segment-Keeps k w h p = elim (Bool-cases (w.is_open || leb 1024 w.sequence)) [
  | inl c ↦ rw c (h, λ a r. cc)
  | inr c ↦ elim (Bool-cases (not k.opened)) [
    | inl d ↦ rw (c, d) (h, λ a r. cc)
    | inr d ↦ rw (c, d) (prepared-Keeps k (interface_body w.config) (interface_size w.config) w h p)
  ]
]

-- The part of `close` behind its fsync, with the sequence number that the segment had.
abbrev publish : ℕ → Stats → Closing → M (Unit {0})
publish sequence stats k = do
  modify shut
  check k.published capture_finalize
  check k.directory_opened capture_directory_unavailable
  check k.directory_synced capture_directory_sync
  modify numbered
  check k.hashed artifact_unavailable
  modify (finished sequence stats)

-- A segment that is closed but still counted.
abbrev Shut : Writer → Type 0
Shut w = (w.is_open ≡ false) × IsExact w

sizes-append : (xs : List Segment) (s : Segment) → sizes (xs ++ s ∷ []) ≡ sizes xs + s.size
sizes-append [] s = omega arith
sizes-append (x ∷ xs) s = omega (arith, sizes-append xs s)

exact-append :
    (xs : List Segment) (s : Segment)
    → All (λ (x : Segment). x.size ≡ length x.content) xs
    → s.size ≡ length s.content
    → All (λ (x : Segment). x.size ≡ length x.content) (xs ++ s ∷ [])
exact-append [] s h e = (e, tt)
exact-append (x ∷ xs) s h e = (h.0, exact-append xs s h.1 e)

finished_fine :
    (sequence : ℕ) (stats : Stats) (w : Writer)
    → Accounted w
    → Shut w
    → Accounted (finished sequence stats w) × Between (finished sequence stats w)
finished_fine sequence stats w h p = (
  record {
    roomy = h.roomy;
    short = h.short;
    total =
        omega (
          arith,
          h.total,
          h.within,
          h.roomy,
          sizes-append w.segments (segment_of sequence w stats),
        );
    exact = exact-append w.segments (segment_of sequence w stats) h.exact p.1;
    within = omega (arith, h.within, h.roomy);
  },
  λ o. cc (p.0, o),
)

publish-Keeps :
    (sequence : ℕ) (stats : Stats) (k : Closing)
    → Keeps (At true) Between (publish sequence stats k)
publish-Keeps sequence stats k =
    then-Keeps (At true) Shut Between (modify shut) _
      (same_fields (At true) Shut shut (λ w h p. (shut_fine w h, (refl, p.1 refl))))
      (λ _.
        then-Keeps Shut Shut Between (check k.published capture_finalize) _
          (check-Keeps Shut k.published capture_finalize)
          (λ _.
            then-Keeps Shut Shut Between (check k.directory_opened capture_directory_unavailable) _
              (check-Keeps Shut k.directory_opened capture_directory_unavailable)
              (λ _.
                then-Keeps Shut Shut Between (check k.directory_synced capture_directory_sync) _
                  (check-Keeps Shut k.directory_synced capture_directory_sync)
                  (λ _.
                    then-Keeps Shut Shut Between (modify numbered) _
                      (same_fields Shut Shut numbered (λ w h p. (numbered_fine w h, p)))
                      (λ _.
                        then-Keeps Shut Shut Between (check k.hashed artifact_unavailable) _
                          (check-Keeps Shut k.hashed artifact_unavailable)
                          (λ _.
                            same_fields Shut Between (finished sequence stats)
                              (finished_fine sequence stats)))))))

length-counter : (code : ℕ) (n : Option ℕ) → length (counter code n) ≤ 12
length-counter code none = omega arith
length-counter code (some n) = omega (arith, length-append {0}, length-put)

stats_short : (now : ℕ) (stats : Stats) → length (stats_body now stats) < 2 ^ 32
unfolding stats_body
stats_short now stats = omega (
  arith,
  length-append {0},
  length-put,
  length-counter 6 stats.received,
  length-counter 7 stats.dropped,
)

pub close-Keeps : (stats : Stats) (k : Closing) → Keeps Between Between (close stats k)
unfolding close
close-Keeps stats k w h p = elim (Bool-cases (not w.is_open)) [
  | inl c ↦ rw c (h, λ a r. p)
  | inr c ↦
      let o : w.is_open ≡ true = ground (arith, c) in
      rw c (
        then-Keeps (At true) (At true) Between (block 5 (stats_body k.now stats) k.written) _
          (block-Keeps true 5 (stats_body k.now stats) k.written
            (omega (arith, stats_short k.now stats)))
          (λ _.
            then-Keeps (At true) (At true) Between (sync k.fsynced) _
              (sync-Keeps (At true) k.fsynced) (λ _. publish-Keeps w.sequence stats k))
          w h (o, λ q. p o))
]
