-- ===== src/Mediaflow/UnifiedClock/Refinement.antt =====
-- UnifiedClock against PlaybackClock of src/render, without audio positions.
use video_pipeline.Base.{
  ℕ, ◌-◌, ◌/◌, ◌≡◌, if◌then◌else◌, refl, ap₂, false, not, ◌||◌, List, [], ◌∷◌, arith, Bool-cases,
  inl, inr,
}
use video_pipeline.Base.Int.{ℤ, pos, ◌+ℤ◌, ◌-ℤ◌}
use video_pipeline.Mediaflow.Timing.{IsInt64, saturating_add}
use video_pipeline.Render.PlaybackClock.{
  PlaybackClock, add_int64, position_us, start as playback_start, pause as playback_pause,
  resume as playback_resume, set_position_us as playback_set_position_us,
}
use video_pipeline.Mediaflow.UnifiedClock.{
  UnifiedClock, system_position_us_locked, start, pause, resume, set_system_position_us, snapshot,
}

-- The calls that both clocks know.
pub data Event : Type 0 where
  reads : ℕ → Event
  starts : ℤ → ℕ → Event
  pauses : ℕ → ℕ → Event
  resumes : ℕ → Event
  moves : ℤ → ℕ → Event

-- The position of a clock, without an end to the range.
abbrev pub exact_position : PlaybackClock → ℕ → ℤ
exact_position c now =
    if not c.running || c.paused
    then c.reference_pts_us
    else c.reference_pts_us +ℤ pos ((now - c.reference_time) / 1000)

-- Every position that the clock is given, and that it computes for a read or a pause, is an int64_t.
abbrev pub InRange : PlaybackClock → List Event → Type 0
InRange c [] = Unit
InRange c (reads t ∷ es) = IsInt64 (exact_position c t) × InRange c es
InRange c (starts p t ∷ es) = IsInt64 p × InRange (playback_start p t) es
InRange c (pauses t u ∷ es) = IsInt64 (exact_position c t) × InRange (playback_pause c t u) es
InRange c (resumes t ∷ es) = InRange (playback_resume c t) es
InRange c (moves p t ∷ es) = IsInt64 p × InRange (playback_set_position_us c p t) es

unfoldable pub playback_readings : PlaybackClock → List Event → List ℤ
playback_readings c [] = []
playback_readings c (reads t ∷ es) = position_us c t ∷ playback_readings c es
playback_readings c (starts p t ∷ es) = playback_readings (playback_start p t) es
playback_readings c (pauses t u ∷ es) = playback_readings (playback_pause c t u) es
playback_readings c (resumes t ∷ es) = playback_readings (playback_resume c t) es
playback_readings c (moves p t ∷ es) = playback_readings (playback_set_position_us c p t) es

unfoldable pub unified_readings : UnifiedClock → List Event → List ℤ
unfolding snapshot start pause resume set_system_position_us
unified_readings c [] = []
unified_readings c (reads t ∷ es) = (snapshot c false t).position_us ∷ unified_readings c es
unified_readings c (starts p t ∷ es) = unified_readings (start c c.generation p t) es
unified_readings c (pauses t u ∷ es) = unified_readings (pause c t u) es
unified_readings c (resumes t ∷ es) = unified_readings (resume c t) es
unified_readings c (moves p t ∷ es) = unified_readings (set_system_position_us c p t) es

-- The two clocks agree.
pub record Agree (p : PlaybackClock) (u : UnifiedClock) : Type 0 where
  pub running : u.running ≡ p.running
  pub paused : u.paused ≡ p.paused
  pub time : u.reference_time ≡ p.reference_time
  pub position : u.reference_position_us ≡ p.reference_pts_us
  pub range : IsInt64 p.reference_pts_us

-- Within the range the two sums are the exact one.
sums_agree :
    (a : ℤ) (n : ℕ)
    → IsInt64 a
    → IsInt64 (a +ℤ pos n)
    → (saturating_add a (pos n) ≡ a +ℤ pos n) × (add_int64 a n ≡ a +ℤ pos n)
unfolding saturating_add add_int64 ◌+ℤ◌ ◌-ℤ◌
sums_agree a n h k = (ground arith, ground arith)

stands :
    {p : PlaybackClock} (u : UnifiedClock)
    → Agree p u
    → (not u.running || u.paused) ≡ (not p.running || p.paused)
stands u a = ground (arith, a.running, a.paused)

system_position-Agree :
    (p : PlaybackClock) (u : UnifiedClock) (t : ℕ)
    → Agree p u
    → IsInt64 (exact_position p t)
    → (system_position_us_locked u t ≡ position_us p t) × IsInt64 (position_us p t)
unfolding system_position_us_locked position_us
system_position-Agree p u t a h = elim (Bool-cases (not p.running || p.paused)) [
  | inl e ↦ rw (stands u a, e) (a.position, a.range)
  | inr e ↦
      let k : IsInt64 (p.reference_pts_us +ℤ pos ((t - p.reference_time) / 1000)) = rw e at h in
      let (sum, sum') = sums_agree p.reference_pts_us ((t - p.reference_time) / 1000) a.range k in
      rw (stands u a, e, a.time, a.position, sum, sum') (refl, k)
]

pause-Agree :
    (p : PlaybackClock) (u : UnifiedClock) (t t' : ℕ)
    → Agree p u
    → IsInt64 (exact_position p t)
    → Agree (playback_pause p t t') (pause u t t')
unfolding playback_pause pause
pause-Agree p u t t' a h = elim (Bool-cases (not p.running || p.paused)) [
  | inl e ↦ rw (stands u a, e) a
  | inr e ↦
      let k : IsInt64 (p.reference_pts_us +ℤ pos ((t - p.reference_time) / 1000)) = rw e at h in
      let (sum, sum') = sums_agree p.reference_pts_us ((t - p.reference_time) / 1000) a.range k in
      rw (stands u a, e, sum')
        (record {
          running = a.running;
          paused = refl;
          time = refl;
          position = rw (a.time, a.position) sum;
          range = k;
        })
]

resume-Agree :
    (p : PlaybackClock) (u : UnifiedClock) (t : ℕ)
    → Agree p u
    → Agree (playback_resume p t) (resume u t)
unfolding playback_resume resume
resume-Agree p u t a =
    let same : (not u.running || not u.paused) ≡ (not p.running || not p.paused) =
      ground (arith, a.running, a.paused) in
    elim (Bool-cases (not p.running || not p.paused)) [
      | inl e ↦ rw (same, e) a
      | inr e ↦
          rw (same, e)
            (record {
              running = a.running;
              paused = refl;
              time = refl;
              position = a.position;
              range = a.range;
            })
    ]

-- From clocks that agree on, the readings of UnifiedClock's system master are those of PlaybackClock, over every
-- run of reads, starts, pauses, resumes and moves in which the positions that PlaybackClock is given or
-- computes are within the range of int64_t.
pub unified_readings_lem :
    (p : PlaybackClock) (u : UnifiedClock) (es : List Event)
    → Agree p u
    → InRange p es
    → unified_readings u es ≡ playback_readings p es
unfolding unified_readings playback_readings snapshot start set_system_position_us
    playback_set_position_us
unified_readings_lem p u [] a h = refl
unified_readings_lem p u (reads t ∷ es) a (range, h) =
    ap₂ (λ x xs. x ∷ xs) (system_position-Agree p u t a range).0 (unified_readings_lem p u es a h)
unified_readings_lem p u (starts s t ∷ es) a (range, h) =
    unified_readings_lem (playback_start s t) (start u u.generation s t) es
      (record { running = refl; paused = refl; time = refl; position = refl; range = range }) h
unified_readings_lem p u (pauses t t' ∷ es) a (range, h) =
    unified_readings_lem (playback_pause p t t') (pause u t t') es (pause-Agree p u t t' a range) h
unified_readings_lem p u (resumes t ∷ es) a h =
    unified_readings_lem (playback_resume p t) (resume u t) es (resume-Agree p u t a) h
unified_readings_lem p u (moves s t ∷ es) a (range, h) =
    unified_readings_lem (playback_set_position_us p s t) (set_system_position_us u s t) es
      (record {
        running = a.running;
        paused = a.paused;
        time = refl;
        position = refl;
        range = range;
      })
      h
