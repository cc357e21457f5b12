-- ===== src/Render/PtsNormalizer.antt =====
-- src/render/video_pts_normalizer.cpp: missing, repeated and jumping PTS are replaced.
pub mod Timeline
pub mod StepBack
mod Examples
use video_pipeline.Base.{
  ℕ, ◌*◌, ◌/◌, max, Bool, true, false, not, ◌||◌, ltb, leb, ◌==◌, if◌then◌else◌,
}
use video_pipeline.Base.Int.{ℤ, pos, pos_part, neg_part, ◌+ℤ◌, ltb_ℤ, eqb_ℤ, abs_difference}

pub record VideoPtsNormalizerConfig : Type 0 where
  pub enabled : Bool
  pub fallback_fps : ℤ
  pub max_jump_ms : ℤ

pub data VideoPtsNormalizeReason : Type 0 where
  none missing_or_repeated backward large_jump : VideoPtsNormalizeReason

pub record VideoPtsNormalizeResult : Type 0 where
  pub pts_us : ℤ
  pub normalized : Bool
  pub reason : VideoPtsNormalizeReason

pub record VideoPtsNormalizer : Type 0 where
  pub config : VideoPtsNormalizerConfig
  pub last_input_pts_us : ℤ
  pub last_output_pts_us : ℤ
  pub has_last : Bool

-- `std::max(0, v)` is the positive part of `v`.
abbrev pub milliseconds_to_us : ℤ → ℕ
milliseconds_to_us value_ms = pos_part value_ms * 1000

-- The constructor, and SetConfig, which resets the state.
unfoldable pub create : VideoPtsNormalizerConfig → VideoPtsNormalizer
create config = record {
  config = config;
  last_input_pts_us = pos 0;
  last_output_pts_us = pos 0;
  has_last = false;
}

pub frame_duration_us : VideoPtsNormalizerConfig → ℤ → ℤ
frame_duration_us config duration_us =
    if ltb_ℤ (pos 0) duration_us
    then duration_us
    else pos (1_000_000 / max 1 (pos_part config.fallback_fps))

pub is_large_jump : VideoPtsNormalizerConfig → ℤ → ℤ → Bool
is_large_jump config input_pts_us expected_pts_us =
    if milliseconds_to_us config.max_jump_ms == 0
    then false
    else ltb_ℤ (pos (milliseconds_to_us config.max_jump_ms))
        (abs_difference input_pts_us expected_pts_us)

-- Why the PTS of a frame that is not the first is replaced.
pub reason_of : VideoPtsNormalizer → ℤ → ℤ → VideoPtsNormalizeReason
reason_of s input_pts_us expected_pts_us =
    if not (ltb_ℤ (pos 0) input_pts_us) || eqb_ℤ input_pts_us s.last_input_pts_us
    then missing_or_repeated
    else if ltb_ℤ input_pts_us s.last_input_pts_us
    then backward
    else if is_large_jump s.config input_pts_us expected_pts_us
    then large_jump
    else none

abbrev pub is_none : VideoPtsNormalizeReason → Bool
is_none none = true
is_none other = false

pub first_pts : ℤ → ℤ
first_pts input_pts_us = pos (pos_part input_pts_us)

pub expected_pts : VideoPtsNormalizer → ℤ → ℤ
expected_pts s duration_us = s.last_output_pts_us +ℤ frame_duration_us s.config duration_us

pub normalize : VideoPtsNormalizer → ℤ → ℤ → VideoPtsNormalizeResult × VideoPtsNormalizer
unfolding first_pts
normalize s input_pts_us duration_us =
    let expected = expected_pts s duration_us in
    let reason = reason_of s input_pts_us expected in
    let output = if is_none reason then input_pts_us else expected in
    let same = eqb_ℤ (first_pts input_pts_us) input_pts_us in
    if not s.config.enabled
    then (record { pts_us = input_pts_us; normalized = false; reason = none }, s)
    else if not s.has_last
    then (
      record {
        pts_us = first_pts input_pts_us;
        normalized = not same;
        reason = if same then none else missing_or_repeated;
      },
      record s {
        last_input_pts_us = input_pts_us;
        last_output_pts_us = first_pts input_pts_us;
        has_last = true;
      },
    )
    else (
      record { pts_us = output; normalized = not (is_none reason); reason = reason },
      record s { last_input_pts_us = input_pts_us; last_output_pts_us = output },
    )
