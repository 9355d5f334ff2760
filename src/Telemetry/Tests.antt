-- ===== src/Telemetry/Tests.antt =====
-- Two concrete samples.
use graphlab.Prelude.{◌≡◌, refl, true, none, some}
use graphlab.Telemetry.{
  Counters, Sample, rates_between, derive, gap, gap_between, interval_gap, is_reset,
}
use graphlab.Telemetry.Gaps.{Counted, derive-Counted}

abbrev counters : Counters
counters = record {
  rx_bytes = 100;
  tx_bytes = 50;
  rx_packets = 10;
  tx_packets = 5;
  rx_errors = 0;
  tx_errors = 0;
  rx_dropped = 0;
  tx_dropped = 0;
}

abbrev earlier : Sample
earlier = record {
  is_valid = true;
  reason = none;
  mapping_epoch = "1";
  boot_id = "b";
  collector_epoch = "1";
  monotonic_ns = 1_000_000_000;
  raw = counters;
  is_forward_rx = true;
  counter_epoch = 4;
}

abbrev later : Sample
later = record earlier { monotonic_ns = 2_000_000_000; raw = record counters { rx_bytes = 350 } }

derived : (derive (some earlier) later).rates ≡ some (rates_between earlier later)
unfolding derive gap gap_between interval_gap is_reset
derived = refl

derive-Counted_example : Counted (some earlier) later (derive (some earlier) later)
derive-Counted_example = derive-Counted (some earlier) later
