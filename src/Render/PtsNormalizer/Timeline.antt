-- ===== src/Render/PtsNormalizer/Timeline.antt =====
-- VideoPtsNormalizer: the time line of its outputs.
use video_pipeline.Base.{
  ℕ, ◌+◌, ◌≤◌, ◌≡◌, refl, ap, ap₂, ◌∙◌, Bool, true, false, not, arith, ltb, List, [], ◌∷◌, map, inl,
  inr, Bool-cases, ltb-false→le, le→ltb-false,
}
use video_pipeline.Base.Int.{
  ℤ, pos, pos_part, neg_part, ◌+ℤ◌, ◌≤ℤ◌, abs_difference, abs_difference_lem, int_laws,
}
use video_pipeline.Media.Wire.{All}
use video_pipeline.Render.PtsNormalizer.{
  VideoPtsNormalizer, VideoPtsNormalizerConfig, none, milliseconds_to_us, create, frame_duration_us,
  is_large_jump, reason_of, is_none, first_pts, expected_pts, normalize,
}

abbrev pub Within : ℕ → ℤ → ℤ → Type 0
Within d e p = (p ≤ℤ e +ℤ pos d) × (e ≤ℤ p +ℤ pos d)

-- A frame: its PTS and its duration.
pub record Frame : Type 0 where
  pub input_pts_us : ℤ
  pub duration_us : ℤ

frame_duration_us_lem : (c : VideoPtsNormalizerConfig) (d : ℤ) → pos 0 ≤ℤ frame_duration_us c d
unfolding frame_duration_us
frame_duration_us_lem c d = ground arith

trusted-positive :
    (s : VideoPtsNormalizer) (i e : ℤ) → is_none (reason_of s i e) ≡ true → pos 1 ≤ℤ i
unfolding reason_of
trusted-positive s i e h = ground arith

no_jump-Within :
    (c : VideoPtsNormalizerConfig) (i e : ℤ)
    → is_large_jump c i e ≡ false
    → 1 ≤ milliseconds_to_us c.max_jump_ms
    → Within (milliseconds_to_us c.max_jump_ms) i e
unfolding is_large_jump
no_jump-Within c i e h j = omega (
  int_laws,
  abs_difference_lem i e,
  ltb-false→le (milliseconds_to_us c.max_jump_ms + neg_part (abs_difference i e))
      (pos_part (abs_difference i e) + 0) (ground (arith, h, j)),
)

Within-no_jump :
    (c : VideoPtsNormalizerConfig) (i e : ℤ)
    → Within (milliseconds_to_us c.max_jump_ms) i e
    → is_large_jump c i e ≡ false
unfolding is_large_jump
Within-no_jump c i e h =
    let small : ltb (milliseconds_to_us c.max_jump_ms + neg_part (abs_difference i e))
          (pos_part (abs_difference i e) + 0)
        ≡ false =
      le→ltb-false _ _ (omega (int_laws, abs_difference_lem i e)) in
    ground (arith, small)

trusted-no_jump :
    (s : VideoPtsNormalizer) (i e : ℤ)
    → is_none (reason_of s i e) ≡ true
    → is_large_jump s.config i e ≡ false
unfolding reason_of
trusted-no_jump s i e h = ground arith

trusted :
    (s : VideoPtsNormalizer) (i e : ℤ)
    → s.last_input_pts_us +ℤ pos 1 ≤ℤ i
    → pos 1 ≤ℤ i
    → Within (milliseconds_to_us s.config.max_jump_ms) i e
    → reason_of s i e ≡ none
unfolding reason_of
trusted s i e up low near =
    let above : pos_part s.last_input_pts_us + neg_part i + 1
        ≤ pos_part i + neg_part s.last_input_pts_us =
      omega int_laws in
    ground (arith, above, Within-no_jump s.config i e near)

not-true : {b : Bool} → b ≡ true → not b ≡ false
not-true h = ground (arith, h)

self-Within : (d : ℕ) (c : ℤ) → Within d c c
self-Within d c = omega int_laws

-- With an enabled normalizer and a positive limit: behind the first frame every output is at most `max_jump_ms` from the previous output plus the
-- duration of the frame, whatever the input.
pub normalize-Within :
    (s : VideoPtsNormalizer) (f : Frame)
    → s.config.enabled ≡ true
    → s.has_last ≡ true
    → 1 ≤ milliseconds_to_us s.config.max_jump_ms
    → Within
        (milliseconds_to_us s.config.max_jump_ms)
        (normalize s f.input_pts_us f.duration_us).0.pts_us
        (s.last_output_pts_us +ℤ frame_duration_us s.config f.duration_us)
unfolding normalize expected_pts
normalize-Within s f enabled has j =
    let expected = s.last_output_pts_us +ℤ frame_duration_us s.config f.duration_us in
    rw (not-true enabled, not-true has)
      (elim (Bool-cases (is_none (reason_of s f.input_pts_us expected))) [
        | inl e ↦ rw e (
            no_jump-Within s.config f.input_pts_us expected
              (trusted-no_jump s f.input_pts_us expected e) j)
        | inr e ↦ rw e (self-Within (milliseconds_to_us s.config.max_jump_ms) expected)
      ])

-- The outputs for a run of frames.
unfoldable pub normalize_all : VideoPtsNormalizer → List Frame → List ℤ
normalize_all s [] = []
normalize_all s (f ∷ fs) =
    let (r, next) = normalize s f.input_pts_us f.duration_us in r.pts_us ∷ normalize_all next fs

-- Enabled, and the last output is not negative.
abbrev Sane : VideoPtsNormalizer → Type 0
Sane s = (s.config.enabled ≡ true) × (pos 0 ≤ℤ s.last_output_pts_us)

normalize-Sane :
    (s : VideoPtsNormalizer) (f : Frame)
    → Sane s
    → (pos 0 ≤ℤ (normalize s f.input_pts_us f.duration_us).0.pts_us)
      × Sane (normalize s f.input_pts_us f.duration_us).1
unfolding normalize expected_pts first_pts
normalize-Sane s f (enabled, low) = elim (Bool-cases s.has_last) [
  | inr first ↦
      let guard : not s.has_last ≡ true = ground (arith, first) in
      rw (not-true enabled, guard) (omega arith, (enabled, omega arith))
  | inl has ↦
      let expected = s.last_output_pts_us +ℤ frame_duration_us s.config f.duration_us in
      let later : pos 0 ≤ℤ expected =
        omega (int_laws, frame_duration_us_lem s.config f.duration_us) in
      elim (Bool-cases (is_none (reason_of s f.input_pts_us expected))) [
        | inl e ↦
            let positive = trusted-positive s f.input_pts_us expected e in
            rw (not-true enabled, not-true has)
              (rw e (omega (arith, positive), (enabled, omega (arith, positive))))
        | inr e ↦ rw (not-true enabled, not-true has) (rw e (later, (enabled, later)))
      ]
]

All-Sane :
    (fs : List Frame) (s : VideoPtsNormalizer) → Sane s → All (λ o. pos 0 ≤ℤ o) (normalize_all s fs)
unfolding normalize_all
All-Sane [] s h = tt
All-Sane (f ∷ fs) s h = let (out, next) = normalize-Sane s f h in (out, All-Sane fs _ next)

-- No output of an enabled normalizer is negative, whatever the inputs.
pub normalize_all_nonneg :
    (c : VideoPtsNormalizerConfig) (fs : List Frame)
    → c.enabled ≡ true
    → All (λ o. pos 0 ≤ℤ o) (normalize_all (create c) fs)
unfolding create
normalize_all_nonneg c fs h = All-Sane fs _ (h, omega arith)

-- Inputs that rise from `last`, each within the jump limit of the one before plus its duration.
pub data Steady (c : VideoPtsNormalizerConfig) : ℤ → List Frame → Type 0 where
  done : {last : ℤ} → Steady c last []
  step :
      {last : ℤ} {f : Frame} {fs : List Frame}
      → last +ℤ pos 1 ≤ℤ f.input_pts_us
      → pos 1 ≤ℤ f.input_pts_us
      → Within
          (milliseconds_to_us c.max_jump_ms)
          f.input_pts_us
          (last +ℤ frame_duration_us c f.duration_us)
      → Steady c f.input_pts_us fs
      → Steady c last (f ∷ fs)

-- The state behind an output that was the input.
abbrev tracking : VideoPtsNormalizerConfig → ℤ → VideoPtsNormalizer
tracking c last = record {
  config = c;
  last_input_pts_us = last;
  last_output_pts_us = last;
  has_last = true;
}

steady_one :
    (c : VideoPtsNormalizerConfig) (last : ℤ) (f : Frame)
    → c.enabled ≡ true
    → last +ℤ pos 1 ≤ℤ f.input_pts_us
    → pos 1 ≤ℤ f.input_pts_us
    → Within
        (milliseconds_to_us c.max_jump_ms)
        f.input_pts_us
        (last +ℤ frame_duration_us c f.duration_us)
    → normalize (tracking c last) f.input_pts_us f.duration_us ≡ (
      record { pts_us = f.input_pts_us; normalized = false; reason = none },
      tracking c f.input_pts_us,
    )
unfolding normalize expected_pts
steady_one c last f enabled up low near =
    let fine =
      trusted (tracking c last) f.input_pts_us (last +ℤ frame_duration_us c f.duration_us) up low
        near in
    rw fine (ground (arith, enabled))

tracked :
    (c : VideoPtsNormalizerConfig) (last : ℤ) (fs : List Frame)
    → c.enabled ≡ true
    → Steady c last fs
    → normalize_all (tracking c last) fs ≡ map (λ f. f.input_pts_us) fs
unfolding normalize_all
tracked c last [] enabled done = refl
tracked c last (f ∷ fs) enabled (step up low near more) =
    rw (steady_one c last f enabled up low near)
      (ap (λ xs. f.input_pts_us ∷ xs) (tracked c f.input_pts_us fs enabled more))

first-tracking :
    (c : VideoPtsNormalizerConfig) (f : Frame)
    → c.enabled ≡ true
    → pos 0 ≤ℤ f.input_pts_us
    → ((normalize (create c) f.input_pts_us f.duration_us).0.pts_us ≡ f.input_pts_us)
      × ((normalize (create c) f.input_pts_us f.duration_us).1 ≡ tracking c f.input_pts_us)
unfolding normalize first_pts create
first-tracking c f enabled low =
    let same : pos (pos_part f.input_pts_us) ≡ f.input_pts_us = ground (arith, low) in
    rw (not-true enabled) (
      same,
      (λ i. record {
        config = c;
        last_input_pts_us = f.input_pts_us;
        last_output_pts_us = same i;
        has_last = true;
      }),
    )

-- With an enabled normalizer, a stream whose first PTS is not negative, whose later PTS are positive
-- and rise, each within the jump limit of the PTS before plus its frame's duration, passes through
-- unchanged.
pub normalize_all-Steady :
    (c : VideoPtsNormalizerConfig) (f : Frame) (fs : List Frame)
    → c.enabled ≡ true
    → pos 0 ≤ℤ f.input_pts_us
    → Steady c f.input_pts_us fs
    → normalize_all (create c) (f ∷ fs) ≡ map (λ g. g.input_pts_us) (f ∷ fs)
unfolding normalize_all
normalize_all-Steady c f fs enabled low steady =
    let (out, next) = first-tracking c f enabled low in
    ap₂ (λ x xs. x ∷ xs) out
      (ap (λ s. normalize_all s fs) next ∙ tracked c f.input_pts_us fs enabled steady)
