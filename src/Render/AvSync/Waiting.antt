-- ===== src/Render/AvSync/Waiting.antt =====
-- AvSyncController: a caller that waits as it is told shows every frame that came in time.
use video_pipeline.Base.{
  ℕ, zero, suc, ◌+◌, ◌*◌, ◌≤◌, ◌≡◌, refl, inl, inr, true, false, arith, Bool-cases,
}
use video_pipeline.Base.Int.{ℤ, pos, pos_part, ◌+ℤ◌, ◌-ℤ◌, ◌≤ℤ◌, int_laws, one_part}
use video_pipeline.Render.PtsNormalizer.{milliseconds_to_us}
use video_pipeline.Render.AvSync.{
  AvSyncConfig, AvSyncAction, system, render, drop, wait, decide, wait_ms, is_late, is_early,
}

-- The caller asks until the answer is not to wait; the clock runs on while it waits. The result is the
-- answer and the time of the clock then; `rounds` bounds the questions.
pub settle : ℕ → AvSyncConfig → ℤ → ℤ → AvSyncAction × ℤ
settle zero config pts position = (wait, position)
settle (suc rounds) config pts position =
    let d = decide config pts (record { position_us = position; source = system; valid = true }) in
    let later = settle rounds config pts (position +ℤ pos (d.wait_duration * 1000)) in
    elim d.action [ wait ↦ later | render ↦ (render, position) | drop ↦ (drop, position) ]

-- A wait is at least one millisecond and ends less than one millisecond behind the early threshold.
wait_ms_lem :
    (c : AvSyncConfig) (delta : ℤ)
    → is_early c delta ≡ true
    → (1 ≤ wait_ms c delta)
      × (pos (wait_ms c delta * 1000 + milliseconds_to_us c.early_threshold_ms) +ℤ pos 1
          ≤ℤ delta +ℤ pos 1000)
unfolding wait_ms is_early ◌+ℤ◌ ◌-ℤ◌
wait_ms_lem c delta h = ground arith

in_time_not_late :
    (c : AvSyncConfig) (delta : ℤ)
    → pos 0 ≤ℤ delta +ℤ pos (milliseconds_to_us c.late_threshold_ms)
    → is_late c delta ≡ false
unfolding is_late
in_time_not_late c delta h = ground (arith, h)

decide-shown :
    (c : AvSyncConfig) (pts position : ℤ)
    → c.enabled ≡ true
    → is_late c (pts -ℤ position) ≡ false
    → is_early c (pts -ℤ position) ≡ false
    → (decide c pts (record { position_us = position; source = system; valid = true })).action
      ≡ render
unfolding decide
decide-shown c pts position enabled late early = ground arith

decide-held :
    (c : AvSyncConfig) (pts position : ℤ)
    → c.enabled ≡ true
    → is_late c (pts -ℤ position) ≡ false
    → is_early c (pts -ℤ position) ≡ true
    → let d = decide c pts (record { position_us = position; source = system; valid = true }) in
      (d.action ≡ wait) × (d.wait_duration ≡ wait_ms c (pts -ℤ position))
unfolding decide
decide-held c pts position enabled late early = ground arith

settle-held :
    (rounds : ℕ) (c : AvSyncConfig) (pts position : ℤ)
    → c.enabled ≡ true
    → is_late c (pts -ℤ position) ≡ false
    → is_early c (pts -ℤ position) ≡ true
    → settle (suc rounds) c pts position
      ≡ settle rounds c pts (position +ℤ pos (wait_ms c (pts -ℤ position) * 1000))
unfolding settle
settle-held rounds c pts position enabled late early =
    let (action, duration) = decide-held c pts position enabled late early in
    rw (settle, action, duration) refl

settle-shown :
    (rounds : ℕ) (c : AvSyncConfig) (pts position : ℤ)
    → c.enabled ≡ true
    → is_late c (pts -ℤ position) ≡ false
    → is_early c (pts -ℤ position) ≡ false
    → settle (suc rounds) c pts position ≡ (render, position)
unfolding settle
settle-shown rounds c pts position enabled late early =
    rw (settle, decide-shown c pts position enabled late early) refl

early-positive : (c : AvSyncConfig) (delta : ℤ) → is_early c delta ≡ true → pos 1 ≤ℤ delta
unfolding is_early
early-positive c delta h = ground arith

-- With an enabled controller, a caller that waits as Decide tells it, with a clock that runs on meanwhile, shows every frame that
-- is not late when it first asks, after at most one question for each millisecond of its lead and one
-- more, provided that the two thresholds are together at least one millisecond.
pub settle-render :
    (rounds : ℕ) (c : AvSyncConfig) (pts position : ℤ)
    → c.enabled ≡ true
    → 1000 ≤ milliseconds_to_us c.early_threshold_ms + milliseconds_to_us c.late_threshold_ms
    → pos 0 ≤ℤ pts -ℤ position +ℤ pos (milliseconds_to_us c.late_threshold_ms)
    → pos_part (pts -ℤ position) + 1000 ≤ rounds * 1000
    → (settle rounds c pts position).0 ≡ render
settle-render zero c pts position enabled apart low enough = absurd (omega arith)
settle-render (suc rounds) c pts position enabled apart low enough =
    let delta = pts -ℤ position in
    let late = in_time_not_late c delta low in
    elim (Bool-cases (is_early c delta)) [
      | inr shown ↦ rw (settle-shown rounds c pts position enabled late shown) refl
      | inl held ↦
          let (one, bound) = wait_ms_lem c delta held in
          let ahead = early-positive c delta held in
          rw (settle-held rounds c pts position enabled late held) (
            settle-render rounds c pts (position +ℤ pos (wait_ms c delta * 1000)) enabled apart
              (omega (int_laws, bound))
              (omega (
                int_laws,
                one,
                ahead,
                one_part delta,
                one_part (pts -ℤ (position +ℤ pos (wait_ms c delta * 1000))),
              )))
    ]
