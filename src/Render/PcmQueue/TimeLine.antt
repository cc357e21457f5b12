-- ===== src/Render/PcmQueue/TimeLine.antt =====
-- AudioPcmQueue: the time line of the device, what is added at its end and dropped at its start.
use video_pipeline.Base.{
  ℕ, ◌-◌, ◌≤◌, ◌<◌, ◌≡◌, refl, sym, ◌∙◌, inl, inr, ◌⊎◌, true, not, ◌&&◌, List, [], ◌∷◌, Option,
  none, some, if◌then◌else◌, false, arith, ltb, leb, ltb-false→le, leb→le, ◌==◌, Bool-cases,
}
use video_pipeline.Base.Int.{ℤ}
use video_pipeline.Render.PcmQueue.{DeviceTimelineSegment, add_segment, drop_played, find_segment}

-- The segments follow one another without a gap, and none is empty.
pub data Tiled : ℕ → List DeviceTimelineSegment → ℕ → Type 0 where
  done : {a b : ℕ} → a ≡ b → Tiled a [] b
  next :
      {a b : ℕ} {x : DeviceTimelineSegment} {xs : List DeviceTimelineSegment}
      → x.start_frame ≡ a
      → a < x.end_frame
      → Tiled x.end_frame xs b
      → Tiled a (x ∷ xs) b

end-Tiled : {a b : ℕ} {xs : List DeviceTimelineSegment} → Tiled a xs b → a ≤ b
end-Tiled (done e) = omega (arith, e)
end-Tiled (next e k more) = omega (arith, e, k, end-Tiled more)

pub add_segment-Tiled :
    (a b : ℕ) (xs : List DeviceTimelineSegment) (segment : DeviceTimelineSegment)
    → Tiled a xs b
    → segment.start_frame ≡ b
    → b < segment.end_frame
    → Tiled a (add_segment xs segment) segment.end_frame
unfolding add_segment
add_segment-Tiled a b [] segment (done e) s h = next (s ∙ sym e) (omega (arith, e)) (done refl)
add_segment-Tiled a b (x ∷ []) segment (next e k (done f)) s h =
    elim (Bool-cases
      (not segment.has_media_pts && not x.has_media_pts && x.end_frame == segment.start_frame)) [
        | inl m ↦ rw m (next e (omega (arith, k, f, h)) (done refl))
        | inr m ↦ rw m (next e k (next (s ∙ sym f) (omega (arith, f, h)) (done refl)))
      ]
add_segment-Tiled a b (x ∷ y ∷ xs) segment (next e k more) s h =
    next e k (add_segment-Tiled x.end_frame b (y ∷ xs) segment more s h)

begins :
    {a b : ℕ} {y : DeviceTimelineSegment} {xs : List DeviceTimelineSegment} (played a' : ℕ)
    → leb y.end_frame played ≡ true
    → (a' ≤ played) ⊎ (a' ≡ a)
    → Tiled a (y ∷ xs) b
    → a' ≤ played
begins played a' m (inl low) t = low
begins {y} played a' m (inr e) (next f k more) = omega (arith, e, k, leb→le _ _ m)

pub drop_played-Tiled :
    (a b played : ℕ) (xs : List DeviceTimelineSegment)
    → Tiled a xs b
    → (a' : ℕ) × (a ≤ a') × ((a' ≤ played) ⊎ (a' ≡ a)) × Tiled a' (drop_played played xs) b
unfolding drop_played
drop_played-Tiled a b played [] t = (a, omega arith, inr refl, t)
drop_played-Tiled a b played (x ∷ []) t = (a, omega arith, inr refl, t)
drop_played-Tiled a b played (x ∷ y ∷ xs) (next e k more) =
    elim (Bool-cases (leb y.end_frame played)) [
      | inl m ↦
          let (a', low, kind, t) = drop_played-Tiled x.end_frame b played (y ∷ xs) more in
          rw m (a', omega (arith, low, k), inl (begins played a' m kind more), t)
      | inr m ↦ rw m (a, omega arith, inr refl, next e k more)
    ]

-- The time of the start of a segment, and how far behind it a frame is; silence has no time.
abbrev pub place : ℕ → Option DeviceTimelineSegment → Option (ℤ × ℕ)
place n none = none
place n (some x) = if x.has_media_pts then some (x.pts_us, n - x.start_frame) else none

-- A new segment leaves the places before it.
pub add_segment-before :
    (a b n : ℕ) (xs : List DeviceTimelineSegment) (segment : DeviceTimelineSegment)
    → Tiled a xs b
    → a ≤ n
    → n < b
    → b < segment.end_frame
    → place n (find_segment n (add_segment xs segment)) ≡ place n (find_segment n xs)
unfolding add_segment find_segment
add_segment-before a b n [] segment (done e) low high h = absurd (omega (arith, e))
add_segment-before a b n (x ∷ []) segment (next e k (done f)) low high h =
    let inside : ltb n x.end_frame ≡ true = ground (arith, f) in
    let inside' : ltb n segment.end_frame ≡ true = ground arith in
    elim (Bool-cases
      (not segment.has_media_pts && not x.has_media_pts && x.end_frame == segment.start_frame)) [
        | inl m ↦
            let silent : x.has_media_pts ≡ false = ground (arith, m) in
            rw (m, inside, inside', silent) refl
        | inr m ↦ rw (m, inside) refl
      ]
add_segment-before a b n (x ∷ y ∷ xs) segment (next e k more) low high h =
    elim (Bool-cases (ltb n x.end_frame)) [
      | inl m ↦ rw m refl
      | inr m ↦
          rw m
            (add_segment-before x.end_frame b n (y ∷ xs) segment more (ltb-false→le _ _ m) high h)
    ]

-- The places in the new segment.
pub add_segment-inside :
    (a b n : ℕ) (xs : List DeviceTimelineSegment) (segment : DeviceTimelineSegment)
    → Tiled a xs b
    → b ≤ n
    → n < segment.end_frame
    → place n (find_segment n (add_segment xs segment)) ≡ place n (some segment)
unfolding add_segment find_segment
add_segment-inside a b n [] segment t low high =
    let inside : ltb n segment.end_frame ≡ true = ground arith in rw inside refl
add_segment-inside a b n (x ∷ []) segment (next e k (done f)) low high =
    let inside : ltb n segment.end_frame ≡ true = ground arith in
    let behind : ltb n x.end_frame ≡ false = ground (arith, f) in
    elim (Bool-cases
      (not segment.has_media_pts && not x.has_media_pts && x.end_frame == segment.start_frame)) [
        | inl m ↦
            let silent : x.has_media_pts ≡ false = ground (arith, m) in
            let silent' : segment.has_media_pts ≡ false = ground (arith, m) in
            rw (m, inside, silent, silent') refl
        | inr m ↦ rw (m, behind, inside) refl
      ]
add_segment-inside a b n (x ∷ y ∷ xs) segment (next e k more) low high =
    let behind : ltb n x.end_frame ≡ false = ground (arith, end-Tiled more) in
    rw behind (add_segment-inside x.end_frame b n (y ∷ xs) segment more low high)

-- What is dropped is not looked for from the played frame on.
pub find_segment-drop_played :
    (a b played n : ℕ) (xs : List DeviceTimelineSegment)
    → Tiled a xs b
    → played ≤ n
    → find_segment n (drop_played played xs) ≡ find_segment n xs
unfolding drop_played find_segment
find_segment-drop_played a b played n [] t h = refl
find_segment-drop_played a b played n (x ∷ []) t h = refl
find_segment-drop_played a b played n (x ∷ y ∷ xs) (next e k (next f l more)) h =
    elim (Bool-cases (leb y.end_frame played)) [
      | inl m ↦
          let behind : ltb n x.end_frame ≡ false = ground (arith, l, leb→le _ _ m) in
          rw (m, behind)
            (find_segment-drop_played x.end_frame b played n (y ∷ xs) (next f l more) h)
      | inr m ↦ rw m refl
    ]
