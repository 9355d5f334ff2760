-- ===== src/Telemetry/Follows.antt =====
-- Which samples follow which, in the terms of `gap_between`.
use text.Mathlib.TextEquality.{eq_iff}
use graphlab.Prelude.{
  ◌+◌, ◌-◌, ◌<◌, ◌≤◌, ◌≡◌, refl, ap, ◌∙◌, arith, Bool, true, false, not, ◌||◌, none, some, ltb, leb,
  if◌then◌else◌, Bool-cases, inl, inr,
}
use graphlab.Telemetry.{Counters, Sample, is_reset, same_identity, interval_gap, gap_between}

-- No counter of the second is below that of the first.
pub record Forward (o s : Counters) : Type 0 where
  pub rx_bytes : o.rx_bytes ≤ s.rx_bytes
  pub tx_bytes : o.tx_bytes ≤ s.tx_bytes
  pub rx_packets : o.rx_packets ≤ s.rx_packets
  pub tx_packets : o.tx_packets ≤ s.tx_packets
  pub rx_errors : o.rx_errors ≤ s.rx_errors
  pub tx_errors : o.tx_errors ≤ s.tx_errors
  pub rx_dropped : o.rx_dropped ≤ s.rx_dropped
  pub tx_dropped : o.tx_dropped ≤ s.tx_dropped

-- Two samples of the same source, in order, at most 3 seconds apart, of which no counter went back.
pub record Follows (o s : Sample) : Type 0 where
  pub was_valid : o.is_valid ≡ true
  pub is_valid : s.is_valid ≡ true
  pub mapping : s.mapping_epoch ≡ o.mapping_epoch
  pub boot : s.boot_id ≡ o.boot_id
  pub collector : s.collector_epoch ≡ o.collector_epoch
  pub later : o.monotonic_ns < s.monotonic_ns
  pub near : s.monotonic_ns ≤ o.monotonic_ns + 3_000_000_000
  pub forward : Forward o.raw s.raw

pub otherwise : {A : Type 0} (b : Bool) (x y : A) → b ≡ false → (if b then x else y) ≡ y
otherwise true x y e = cc
otherwise false x y e = refl

interval_gap-none :
    (o s : Sample)
    → interval_gap s o ≡ none
    → (is_reset s.raw o.raw ≡ false)
      × ((leb s.monotonic_ns o.monotonic_ns || ltb 3_000_000_000 (s.monotonic_ns - o.monotonic_ns))
          ≡ false)
unfolding interval_gap
interval_gap-none o s h = elim (Bool-cases (is_reset s.raw o.raw)) [
  | inl e ↦ absurd (cc (rw e at h))
  | inr e ↦
      elim (Bool-cases (
        leb s.monotonic_ns o.monotonic_ns || ltb 3_000_000_000 (s.monotonic_ns - o.monotonic_ns))) [
          | inl f ↦ absurd (cc (rw (e, f) at h))
          | inr f ↦ (e, f)
        ]
]

pub gap_between-Follows : (o s : Sample) → s.is_valid ≡ true → gap_between o s ≡ none → Follows o s
unfolding gap_between
gap_between-Follows o s v h = go o.is_valid (same_identity s o) refl refl h
  where
    go :
        (b c : Bool)
        → o.is_valid ≡ b
        → same_identity s o ≡ c
        → (if not b
            then some "first_sample"
            else (if not c then some "identity_changed" else interval_gap s o))
          ≡ none
        → Follows o s
    go true true f g h =
        let (r, t) = interval_gap-none o s h in
        record {
          was_valid = f;
          is_valid = v;
          mapping = (eq_iff s.mapping_epoch o.mapping_epoch).0 (ground (arith, g));
          boot = (eq_iff s.boot_id o.boot_id).0 (ground (arith, g));
          collector = (eq_iff s.collector_epoch o.collector_epoch).0 (ground (arith, g));
          later = ground (arith, t);
          near = ground (arith, t);
          forward =
              unfold is_reset in
              record {
                rx_bytes = ground (arith, r);
                tx_bytes = ground (arith, r);
                rx_packets = ground (arith, r);
                tx_packets = ground (arith, r);
                rx_errors = ground (arith, r);
                tx_errors = ground (arith, r);
                rx_dropped = ground (arith, r);
                tx_dropped = ground (arith, r);
              };
        }
    go true false f g h = absurd (cc h)
    go false c f g h = absurd (cc h)

Follows-same_identity : (o s : Sample) → Follows o s → same_identity s o ≡ true
Follows-same_identity o s f =
    let a = (eq_iff s.mapping_epoch o.mapping_epoch).1 f.mapping in
    let b = (eq_iff s.boot_id o.boot_id).1 f.boot in
    let c = (eq_iff s.collector_epoch o.collector_epoch).1 f.collector in ground (arith, a, b, c)

Forward-is_reset : (o s : Counters) → Forward o s → is_reset s o ≡ false
unfolding is_reset
Forward-is_reset o s f = ground (
  arith, f.rx_bytes, f.tx_bytes, f.rx_packets, f.tx_packets, f.rx_errors, f.tx_errors, f.rx_dropped,
  f.tx_dropped,
)

pub gap_between-none : (o s : Sample) → Follows o s → gap_between o s ≡ none
unfolding gap_between interval_gap
gap_between-none o s f =
    otherwise (not o.is_valid) _ _ (ap not f.was_valid)
    ∙ otherwise (not (same_identity s o)) _ _ (ap not (Follows-same_identity o s f))
    ∙ otherwise (is_reset s.raw o.raw) _ _ (Forward-is_reset o.raw s.raw f.forward)
    ∙ otherwise
        (leb s.monotonic_ns o.monotonic_ns || ltb 3_000_000_000 (s.monotonic_ns - o.monotonic_ns)) _
        _ (ground (arith, f.later, f.near))
