-- ===== src/Mediaflow/Timing.antt =====
-- The arithmetic of src/mediaflow/media_timing.cpp: sums and differences of int64_t that stop at the
-- ends of the range, and the value that stands for a missing timestamp.
pub mod Saturation
use video_pipeline.Base.{◌&&◌, ◌≤◌, if◌then◌else◌}
use video_pipeline.Base.Int.{ℤ, pos, negsuc, ◌+ℤ◌, ◌-ℤ◌, ◌≤ℤ◌, ltb_ℤ}

abbrev pub int64_max : ℤ
int64_max = pos 9_223_372_036_854_775_807

abbrev pub int64_min : ℤ
int64_min = negsuc 9_223_372_036_854_775_807

abbrev pub IsInt64 : ℤ → Type 0
IsInt64 a = (int64_min ≤ℤ a) × (a ≤ℤ int64_max)

-- kNoTimestamp of include/media/media_packet.h.
abbrev pub no_timestamp : ℤ
no_timestamp = int64_min

unfoldable pub saturating_add : ℤ → ℤ → ℤ
saturating_add left right =
    if ltb_ℤ (pos 0) right && ltb_ℤ (int64_max -ℤ right) left
    then int64_max
    else if ltb_ℤ right (pos 0) && ltb_ℤ left (int64_min -ℤ right)
    then int64_min
    else left +ℤ right

unfoldable pub saturating_subtract : ℤ → ℤ → ℤ
saturating_subtract left right =
    if ltb_ℤ (pos 0) right && ltb_ℤ left (int64_min +ℤ right)
    then int64_min
    else if ltb_ℤ right (pos 0) && ltb_ℤ (int64_max +ℤ right) left
    then int64_max
    else left -ℤ right

abbrev pub non_negative : ℤ → ℤ
non_negative value = if ltb_ℤ (pos 0) value then value else pos 0
