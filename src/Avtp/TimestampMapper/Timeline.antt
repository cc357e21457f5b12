-- ===== src/Avtp/TimestampMapper/Timeline.antt =====
-- Map: how far the media time may lie from the capture time, and when it follows the sender's clock.
use video_pipeline.Base.{
  ℕ, ◌+◌, ◌-◌, ◌^◌, ◌≤◌, ◌<◌, ◌≡◌, refl, ◌∙◌, inl, inr, Bool, true, false, not, ◌&&◌, ◌||◌, arith,
  ltb, Bool-cases, ltb→lt, ltb-false→le, List, [], ◌∷◌, map, ap₂,
}
use video_pipeline.Media.Wire.{All}
use video_pipeline.Base.Int.{
  ℤ, pos, pos_part, neg_part, ◌+ℤ◌, ◌-ℤ◌, ◌*ℤ◌, ltb_ℤ, abs_difference, abs_difference_lem, int_laws,
}
use video_pipeline.Avtp.TimestampMapper.{
  Mapper, create, trunc_div, extended_of, mapped_of, set_anchor, map_anchored, restart_event,
  map_timestamp,
}
use video_pipeline.Avtp.TimestampMapper.Nearest.{InCycle, Within, expand_nearest-unwraps}

self-Within : (d : ℕ) (c : ℤ) → Within d c c
self-Within d c = omega int_laws

close-Within :
    (d : ℕ) (m c : ℤ)
    → 1 ≤ d
    → (ltb 0 d && ltb_ℤ (pos d) (abs_difference m c)) ≡ false
    → Within d m c
close-Within d m c h e = omega (
  int_laws,
  abs_difference_lem m c,
  ltb-false→le (d + neg_part (abs_difference m c)) (pos_part (abs_difference m c) + 0)
      (ground (arith, e, h)),
)

map_anchored-Within :
    (s : Mapper) (avtp : ℕ) (capture : ℤ)
    → 1 ≤ s.discontinuity_threshold_us
    → Within s.discontinuity_threshold_us (map_anchored s avtp capture).0 capture
unfolding map_anchored
map_anchored-Within s avtp capture h =
    elim (Bool-cases (
      ltb 0 s.discontinuity_threshold_us
      && ltb_ℤ (pos s.discontinuity_threshold_us)
          (abs_difference (mapped_of s (extended_of s avtp capture)) capture))) [
            | inl e ↦ rw e (self-Within s.discontinuity_threshold_us capture)
            | inr e ↦ rw e (close-Within s.discontinuity_threshold_us _ capture h e)
          ]

-- With a threshold, the time that Map returns is never farther than it from the capture time: on every
-- branch, for every packet, in every state.
pub map_timestamp-Within :
    (s : Mapper) (stream_id avtp : ℕ) (capture : ℤ) (valid uncertain restart : Bool)
    → 1 ≤ s.discontinuity_threshold_us
    → Within s.discontinuity_threshold_us
        (map_timestamp s stream_id avtp capture valid uncertain restart).0
        capture
unfolding map_timestamp
map_timestamp-Within s id avtp capture false u r h =
    self-Within s.discontinuity_threshold_us capture
map_timestamp-Within s id avtp capture true true r h =
    self-Within s.discontinuity_threshold_us capture
map_timestamp-Within s id avtp capture true false r h =
    elim (Bool-cases (not s.initialized || (restart_event s.media_clock_restart_bits id r).0)) [
      | inl e ↦ rw e (self-Within s.discontinuity_threshold_us capture)
      | inr e ↦ rw e (map_anchored-Within _ avtp capture h)
    ]

-- A packet: the sender's time in nanoseconds, of which it carries the low 32 bits, and the capture.
pub record Sent : Type 0 where
  pub avtp_timestamp : ℕ
  pub time : ℤ
  pub captured : ℤ

-- The sender's time is less than half a cycle from what the capture time predicts, and on the capture
-- line it is within the threshold of the capture time.
pub record Follows (s : Mapper) (k : Sent) : Type 0 where
  pub low_bits : k.avtp_timestamp < 2 ^ 32
  pub cycle : InCycle k.avtp_timestamp k.time
  pub predicted :
      Within
        (2 ^ 31 - 1)
        k.time
        (s.anchor_avtp_ns +ℤ (k.captured -ℤ s.anchor_capture_us) *ℤ pos 1000)
  pub near : Within s.discontinuity_threshold_us (mapped_of s k.time) k.captured

Within-close :
    (d : ℕ) (m c : ℤ) → Within d m c → (ltb 0 d && ltb_ℤ (pos d) (abs_difference m c)) ≡ false
Within-close d m c h = elim (Bool-cases (ltb_ℤ (pos d) (abs_difference m c))) [
  | inl e ↦ absurd (
      omega (
        int_laws,
        abs_difference_lem m c,
        ltb→lt (d + neg_part (abs_difference m c)) (pos_part (abs_difference m c) + 0) e,
      ))
  | inr e ↦ ground (arith, e)
]

extended_of-unwraps :
    (s : Mapper) (k : Sent) → Follows s k → extended_of s k.avtp_timestamp k.captured ≡ k.time
unfolding extended_of
extended_of-unwraps s k f =
    expand_nearest-unwraps k.avtp_timestamp k.time _ f.low_bits f.cycle f.predicted

-- The anchor and what else the next packet depends on.
abbrev SameAnchor : Mapper → Mapper → Type 0
SameAnchor s t =
    (t.discontinuity_threshold_us ≡ s.discontinuity_threshold_us)
    × (t.initialized ≡ s.initialized)
    × (t.anchor_avtp_ns ≡ s.anchor_avtp_ns)
    × (t.anchor_capture_us ≡ s.anchor_capture_us)
    × (t.media_clock_restart_bits ≡ s.media_clock_restart_bits)

map_anchored-Follows :
    (s : Mapper) (k : Sent)
    → Follows s k
    → let (out, t) = map_anchored s k.avtp_timestamp k.captured in
      (out ≡ mapped_of s k.time) × SameAnchor s t
unfolding map_anchored
map_anchored-Follows s k f =
    let same = extended_of-unwraps s k f in
    rw same (
      rw (Within-close s.discontinuity_threshold_us (mapped_of s k.time) k.captured f.near)
        (refl, (refl, refl, refl, refl, refl)))

-- The restart bit of the stream is known and equal.
abbrev pub Knows : Mapper → ℕ → Bool → Type 0
Knows s stream_id bit =
    (s.initialized ≡ true)
    × (restart_event s.media_clock_restart_bits stream_id bit ≡ (false, s.media_clock_restart_bits))

map_timestamp-Follows :
    (s : Mapper) (id : ℕ) (bit : Bool) (k : Sent)
    → Knows s id bit
    → Follows s k
    → let (out, t) = map_timestamp s id k.avtp_timestamp k.captured true false bit in
      (out ≡ mapped_of s k.time) × SameAnchor s t
unfolding map_timestamp
map_timestamp-Follows s id bit k (i, e) f =
    let guard : (not s.initialized || false) ≡ false = ground (arith, i) in
    rw e (rw guard (map_anchored-Follows s k f))

-- The times that Map returns for the valid packets of one stream.
pub map_all : Mapper → ℕ → Bool → List Sent → List ℤ
map_all s id bit [] = []
map_all s id bit (k ∷ ks) =
    let (out, t) = map_timestamp s id k.avtp_timestamp k.captured true false bit in
    out ∷ map_all t id bit ks

same-mapped_of : (s t : Mapper) (e : ℤ) → SameAnchor s t → mapped_of t e ≡ mapped_of s e
unfolding mapped_of
same-mapped_of s t e (_, _, avtp, capture, _) = rw (avtp, capture) refl

same-Follows : (s t : Mapper) (k : Sent) → SameAnchor s t → Follows s k → Follows t k
same-Follows s t k same f =
    let (threshold, _, avtp, capture, _) = same in
    record {
      low_bits = f.low_bits;
      cycle = f.cycle;
      predicted = rw (avtp, capture) f.predicted;
      near = rw (same-mapped_of s t k.time same, threshold) f.near;
    }

follow-All :
    (ks : List Sent) (s t : Mapper) (id : ℕ) (bit : Bool)
    → SameAnchor s t
    → Knows s id bit
    → All (Follows s) ks
    → map_all t id bit ks ≡ map (λ k. mapped_of s k.time) ks
unfolding map_all
follow-All [] s t id bit same knows f = refl
follow-All (k ∷ ks) s t id bit same (i, e) (f, fs) =
    let (threshold, init, avtp, capture, bits) = same in
    let knows : Knows t id bit = (init ∙ i, rw bits e) in
    let (out, (threshold', init', avtp', capture', bits')) =
      map_timestamp-Follows t id bit k knows (same-Follows s t k same f) in
    ap₂ (λ x xs. x ∷ xs) (out ∙ same-mapped_of s t k.time same)
      (follow-All ks s _ id bit
        (threshold' ∙ threshold, init' ∙ init, avtp' ∙ avtp, capture' ∙ capture, bits' ∙ bits)
        (i, e) fs)

-- The mapper behind its first packet.
abbrev pub started : ℤ → ℕ → Bool → ℕ → ℤ → Mapper
started threshold id bit avtp captured =
    (map_timestamp (create threshold) id avtp captured true false bit).1

started-Knows :
    (threshold captured : ℤ) (id avtp : ℕ) (bit : Bool)
    → Knows (started threshold id bit avtp captured) id bit
unfolding map_timestamp restart_event set_anchor create
started-Knows threshold captured id avtp true = (refl, ground arith)
started-Knows threshold captured id avtp false = (refl, ground arith)

started-mapped_of :
    (threshold captured e : ℤ) (id avtp : ℕ) (bit : Bool)
    → mapped_of (started threshold id bit avtp captured) e
      ≡ captured +ℤ trunc_div (e -ℤ pos avtp) 1000
unfolding map_timestamp restart_event set_anchor create mapped_of
started-mapped_of threshold captured e id avtp bit = refl

-- On the packets of one stream behind the first, all with a valid and certain timestamp and the restart bit of
-- the first, the times that Map returns keep the sender's spacing: each is the first capture time plus the
-- sender's time since then in microseconds, across every wrap of the 32 bits, if each sender time is less
-- than half a cycle from the prediction and within the threshold of the capture time.
pub map_all-Follows :
    (threshold captured : ℤ) (id avtp : ℕ) (bit : Bool) (ks : List Sent)
    → All (Follows (started threshold id bit avtp captured)) ks
    → map_all (started threshold id bit avtp captured) id bit ks
      ≡ map (λ k. captured +ℤ trunc_div (k.time -ℤ pos avtp) 1000) ks
map_all-Follows threshold captured id avtp bit ks h =
    follow-All ks (started threshold id bit avtp captured) (started threshold id bit avtp captured)
      id bit (refl, refl, refl, refl, refl) (started-Knows threshold captured id avtp bit) h
    ∙ (λ i. map (λ k. started-mapped_of threshold captured k.time id avtp bit i) ks)
