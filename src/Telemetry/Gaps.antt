-- ===== src/Telemetry/Gaps.antt =====
-- When rates are derived.
use Prim.Native.String.{String}
use graphlab.Prelude.{
  ℕ, ◌+◌, ◌*◌, ◌≡◌, refl, ap, sym, subst, ◌∙◌, arith, Bool, true, false, not, Option, none, some,
  if◌then◌else◌, Option-cases, Bool-cases, inl, inr,
}
use graphlab.Telemetry.{
  Counters, Sample, Rate, Rates, Derived, gap_between, gap, rates_between, concluded, derive,
}
use graphlab.Telemetry.Follows.{Follows, otherwise, gap_between-Follows, gap_between-none}

-- What was counted of one direction: the rates make up what lies between the counters of the two
-- samples, over the time between them.
pub record Measured (o s : Sample) (bytes packets : Counters → ℕ) (bits per : Rate) : Type 0 where
  pub bits_time : o.monotonic_ns + bits.nanoseconds ≡ s.monotonic_ns
  pub packets_time : o.monotonic_ns + per.nanoseconds ≡ s.monotonic_ns
  pub bits_count : 8 * bytes o.raw + bits.count ≡ 8 * bytes s.raw
  pub packets_count : packets o.raw + per.count ≡ packets s.raw

abbrev Received : Sample → Sample → Rate → Rate → Type 0
Received o s = Measured o s (λ (c : Counters). c.rx_bytes) (λ (c : Counters). c.rx_packets)

abbrev Sent : Sample → Sample → Rate → Rate → Type 0
Sent o s = Measured o s (λ (c : Counters). c.tx_bytes) (λ (c : Counters). c.tx_packets)

-- Forward is what the interface receives, or what it sends.
abbrev pub Directed : Bool → Sample → Sample → Rates → Type 0
Directed true o s r =
    Received o s r.forward_bits r.forward_packets × Sent o s r.reverse_bits r.reverse_packets
Directed false o s r =
    Sent o s r.forward_bits r.forward_packets × Received o s r.reverse_bits r.reverse_packets

-- What is known of the rates of a sample: they were counted from one that it follows, or there are
-- none and it follows none.
pub data Counted (old : Option Sample) (s : Sample) (d : Derived) : Type 0 where
  counted :
      (o : Sample) (r : Rates)
      → old ≡ some o
      → d.rates ≡ some r
      → Follows o s
      → Directed s.is_forward_rx o s r
      → d.counter_epoch ≡ o.counter_epoch
      → Counted old s d
  uncounted : d.rates ≡ none → ((o : Sample) → old ≡ some o → ¬ Follows o s) → Counted old s d

rates_between-Directed :
    (o s : Sample) → Follows o s → Directed s.is_forward_rx o s (rates_between o s)
rates_between-Directed o s f = go s.is_forward_rx
  where
    go : (b : Bool) → Directed b o s (rates_between o (record s { is_forward_rx = b }))
    go true = (
      record {
        bits_time = omega (arith, f.later);
        packets_time = omega (arith, f.later);
        bits_count = omega (arith, f.forward.rx_bytes);
        packets_count = omega (arith, f.forward.rx_packets);
      },
      record {
        bits_time = omega (arith, f.later);
        packets_time = omega (arith, f.later);
        bits_count = omega (arith, f.forward.tx_bytes);
        packets_count = omega (arith, f.forward.tx_packets);
      },
    )
    go false = (
      record {
        bits_time = omega (arith, f.later);
        packets_time = omega (arith, f.later);
        bits_count = omega (arith, f.forward.tx_bytes);
        packets_count = omega (arith, f.forward.tx_packets);
      },
      record {
        bits_time = omega (arith, f.later);
        packets_time = omega (arith, f.later);
        bits_count = omega (arith, f.forward.rx_bytes);
        packets_count = omega (arith, f.forward.rx_packets);
      },
    )

concluded-Counted :
    (old : Option Sample) (s : Sample)
    → s.is_valid ≡ true
    → Counted old s (concluded old s (gap old s))
unfolding gap
concluded-Counted none s v = uncounted refl (λ o e. absurd (cc e))
concluded-Counted (some o) s v = elim (Option-cases (gap_between o s)) [
  | inl e ↦
      let f = gap_between-Follows o s v e in
      rw e (counted o (rates_between o s) refl refl f (rates_between-Directed o s f) refl)
  | inr (g, e) ↦ rw e (uncounted refl (λ p q f. follows_none p q f g e))
]
  where
    follows_none :
        (p : Sample) → some o ≡ some p → Follows p s → (g : String) → gap_between o s ≡ some g → ⊥
    follows_none p q f g e =
        let same : o ≡ p = cc q in
        let n : gap_between o s ≡ none = ap (λ o. gap_between o s) same ∙ gap_between-none p s f in
        cc (n, e)

-- Rates are derived from two samples exactly where the second follows the first: both valid, with one
-- mapping epoch, boot id and collector epoch, the second later by at most 3 seconds, and none of the
-- eight counters gone back. They then make up, in the direction of the edge, what lies between the
-- counters over the time between the samples, and the counter epoch stays.
pub derive-Counted : (old : Option Sample) (s : Sample) → Counted old s (derive old s)
unfolding derive
derive-Counted old s = elim (Bool-cases s.is_valid) [
  | inl v ↦
      subst (Counted old s) (sym (otherwise (not s.is_valid) _ _ (ap not v)))
        (concluded-Counted old s v)
  | inr v ↦
      subst (Counted old s) (sym (chosen (not s.is_valid) _ _ (ap not v)))
        (uncounted refl (λ o e f. cc (f.is_valid, v)))
]
  where
    chosen : {A : Type 0} (b : Bool) (x y : A) → b ≡ true → (if b then x else y) ≡ x
    chosen true x y e = refl
    chosen false x y e = cc
