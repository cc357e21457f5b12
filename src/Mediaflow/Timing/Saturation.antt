-- ===== src/Mediaflow/Timing/Saturation.antt =====
-- SaturatingAdd and SaturatingSubtract against the exact sum and difference.
use video_pipeline.Base.{◌≡◌, if◌then◌else◌, arith}
use video_pipeline.Base.Int.{ℤ, ◌+ℤ◌, ◌-ℤ◌, ltb_ℤ}
use video_pipeline.Mediaflow.Timing.{
  int64_max, int64_min, IsInt64, saturating_add, saturating_subtract,
}

-- The nearest value of the range.
unfoldable pub clamp : ℤ → ℤ
clamp a = if ltb_ℤ int64_max a then int64_max else if ltb_ℤ a int64_min then int64_min else a

pub saturating_add-clamp : (a b : ℤ) → IsInt64 a → IsInt64 b → saturating_add a b ≡ clamp (a +ℤ b)
unfolding saturating_add clamp ◌+ℤ◌ ◌-ℤ◌
saturating_add-clamp a b ha hb = ground arith

pub saturating_subtract-clamp :
    (a b : ℤ) → IsInt64 a → IsInt64 b → saturating_subtract a b ≡ clamp (a -ℤ b)
unfolding saturating_subtract clamp ◌+ℤ◌ ◌-ℤ◌
saturating_subtract-clamp a b ha hb = ground arith

pub clamp-IsInt64 : (a : ℤ) → IsInt64 (clamp a)
unfolding clamp
clamp-IsInt64 a = ground arith

pub clamp-same : (a : ℤ) → IsInt64 a → clamp a ≡ a
unfolding clamp
clamp-same a h = ground arith
