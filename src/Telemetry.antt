-- ===== src/Telemetry.antt =====
-- The rates of an edge: `derive` of packages/lab-support/cpp/telemetry.cpp. A sample holds its numbers as
-- read from their texts; a rate is kept as the exact count over the nanoseconds in which it was counted.
pub mod Follows
pub mod Gaps
mod Tests
use Prim.Native.String.{String}
use text.Mathlib.Text.{◌==◌}
use graphlab.Prelude.{
  ℕ, ◌+◌, ◌-◌, ◌*◌, Bool, true, false, not, ◌&&◌, ◌||◌, Option, none, some, ltb, leb, if◌then◌else◌,
}
use graphlab.Bytes.{u64}

pub record Counters : Type 0 where
  pub rx_bytes : ℕ
  pub tx_bytes : ℕ
  pub rx_packets : ℕ
  pub tx_packets : ℕ
  pub rx_errors : ℕ
  pub tx_errors : ℕ
  pub rx_dropped : ℕ
  pub tx_dropped : ℕ

pub record Sample : Type 0 where
  pub is_valid : Bool
  pub reason : Option String
  pub mapping_epoch : String
  pub boot_id : String
  pub collector_epoch : String
  pub monotonic_ns : ℕ
  pub raw : Counters
  pub is_forward_rx : Bool
  pub counter_epoch : ℕ

-- A count, and the nanoseconds that it took.
pub record Rate : Type 0 where
  pub count : ℕ
  pub nanoseconds : ℕ

pub record Rates : Type 0 where
  pub forward_bits : Rate
  pub reverse_bits : Rate
  pub forward_packets : Rate
  pub reverse_packets : Rate

pub record Derived : Type 0 where
  pub rates : Option Rates
  pub counter_epoch : ℕ
  pub gap_reason : Option String

abbrev pub reason_of : Option String → String
reason_of none = "source_unavailable"
reason_of (some r) = r

-- Some counter went back.
unfoldable pub is_reset : Counters → Counters → Bool
is_reset s o =
    ltb s.rx_bytes o.rx_bytes
    || ltb s.tx_bytes o.tx_bytes
    || ltb s.rx_packets o.rx_packets
    || ltb s.tx_packets o.tx_packets
    || ltb s.rx_errors o.rx_errors
    || ltb s.tx_errors o.tx_errors
    || ltb s.rx_dropped o.rx_dropped
    || ltb s.tx_dropped o.tx_dropped

abbrev pub same_identity : Sample → Sample → Bool
same_identity s o =
    s.mapping_epoch == o.mapping_epoch
    && s.boot_id == o.boot_id
    && s.collector_epoch == o.collector_epoch

-- A counter that went back is reported before a gap in time.
unfoldable pub interval_gap : Sample → Sample → Option String
unfolding is_reset
interval_gap s o =
    if is_reset s.raw o.raw
    then some "counter_reset"
    else if leb s.monotonic_ns o.monotonic_ns || ltb 3_000_000_000 (s.monotonic_ns - o.monotonic_ns)
    then some "sample_gap"
    else none

unfoldable pub gap_between : Sample → Sample → Option String
unfolding interval_gap
gap_between o s =
    if not o.is_valid
    then some "first_sample"
    else if not (same_identity s o)
    then some "identity_changed"
    else interval_gap s o

-- The gap before a sample of a source that was available, if any.
unfoldable pub gap : Option Sample → Sample → Option String
unfolding gap_between
gap none s = some "first_sample"
gap (some o) s = gap_between o s

abbrev pub rates_between : Sample → Sample → Rates
rates_between o s =
    let time = s.monotonic_ns - o.monotonic_ns in
    let rx_bits : Rate = record {
      count = 8 * (s.raw.rx_bytes - o.raw.rx_bytes);
      nanoseconds = time;
    } in
    let tx_bits : Rate = record {
      count = 8 * (s.raw.tx_bytes - o.raw.tx_bytes);
      nanoseconds = time;
    } in
    let rx_packets : Rate = record {
      count = s.raw.rx_packets - o.raw.rx_packets;
      nanoseconds = time;
    } in
    let tx_packets : Rate = record {
      count = s.raw.tx_packets - o.raw.tx_packets;
      nanoseconds = time;
    } in
    if s.is_forward_rx
    then record {
      forward_bits = rx_bits;
      reverse_bits = tx_bits;
      forward_packets = rx_packets;
      reverse_packets = tx_packets;
    }
    else record {
      forward_bits = tx_bits;
      reverse_bits = rx_bits;
      forward_packets = tx_packets;
      reverse_packets = rx_packets;
    }

abbrev epoch_of : Option Sample → ℕ
epoch_of none = 0
epoch_of (some o) = o.counter_epoch

abbrev pub rates_of : Option Sample → Sample → Option Rates
rates_of none s = none
rates_of (some o) s = some (rates_between o s)

abbrev pub concluded : Option Sample → Sample → Option String → Derived
concluded old s none = record {
  rates = rates_of old s;
  counter_epoch = epoch_of old;
  gap_reason = none;
}
concluded old s (some g) = record {
  rates = none;
  counter_epoch = u64 (epoch_of old + 1);
  gap_reason = some g;
}

-- An empty reason is no gap, but no rates are derived either.
abbrev pub unavailable : Option Sample → String → Derived
unavailable old r = record {
  rates = none;
  counter_epoch = if r == "" then epoch_of old else u64 (epoch_of old + 1);
  gap_reason = if r == "" then none else some r;
}

unfoldable pub derive : Option Sample → Sample → Derived
unfolding gap
derive old s =
    if not s.is_valid then unavailable old (reason_of s.reason) else concluded old s (gap old s)
