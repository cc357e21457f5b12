-- ===== src/Media/RtpSender/Reports.antt =====
-- RtpSender's sender reports: when one is due, and what it says.
use video_pipeline.Base.{
  ℕ, ◌+◌, ◌*◌, ◌≤◌, ◌<◌, ◌≡◌, refl, ap, ◌∙◌, Bool, true, false, List, [], ◌∷◌, ◌++◌, map, none,
  arith, length,
}
use video_pipeline.Media.Wire.{All}
use video_pipeline.Media.Packetizer.{RtpPayload}
use video_pipeline.Media.RtpSender.{
  RtpSender, RtpSenderConfig, init, build_rtp_packet, should_send_sender_report,
}

-- What a track does with its sender: send a payload, or ask at a time whether a report is due.
pub data Event : Type 0 where
  send : RtpPayload → Event
  ask : ℕ → Event

-- The answers to the questions in a run of events.
pub answers : RtpSender → List Event → List Bool
answers s [] = []
answers s (send p ∷ events) = answers (build_rtp_packet s p none).1 events
answers s (ask now ∷ events) =
    let (due, next) = should_send_sender_report s now in due ∷ answers next events

-- Every question comes before the time.
abbrev pub Before : ℕ → Event → Type 0
Before t (send p) = Unit {0}
Before t (ask now) = now < t

build_rtp_packet-deadline :
    (s : RtpSender) (p : RtpPayload)
    → (build_rtp_packet s p none).1.next_sender_report_time ≡ s.next_sender_report_time
unfolding build_rtp_packet
build_rtp_packet-deadline s p = ground arith

not_due :
    (s : RtpSender) (now t : ℕ)
    → s.next_sender_report_time ≡ t
    → now < t
    → should_send_sender_report s now ≡ (false, s)
unfolding should_send_sender_report
not_due s now t e h = ground arith

answers-Before :
    (events : List Event) (s : RtpSender) (t : ℕ)
    → s.next_sender_report_time ≡ t
    → All (Before t) events
    → All (λ a. a ≡ false) (answers s events)
unfolding answers
answers-Before [] s t e h = tt
answers-Before (send p ∷ events) s t e (_, hs) =
    answers-Before events (build_rtp_packet s p none).1 t (rw (build_rtp_packet-deadline s p) e) hs
answers-Before (ask now ∷ events) s t e (h, hs) =
    rw (not_due s now t e h) (refl, answers-Before events s t e hs)

granted :
    (s : RtpSender) (now : ℕ)
    → (should_send_sender_report s now).0 ≡ true
    → (should_send_sender_report s now).1.next_sender_report_time
      ≡ now + s.sender_report_interval * 1_000_000
unfolding should_send_sender_report
granted s now due = ground arith

-- Once a report is granted at `now`, every question before `now` plus the interval is answered no,
-- whatever is sent in between.
pub should_send_sender_report-gap :
    (s : RtpSender) (now : ℕ) (events : List Event)
    → (should_send_sender_report s now).0 ≡ true
    → All (Before (now + s.sender_report_interval * 1_000_000)) events
    → All (λ a. a ≡ false) (answers (should_send_sender_report s now).1 events)
should_send_sender_report-gap s now events due h =
    answers-Before events _ (now + s.sender_report_interval * 1_000_000) (granted s now due) h

no_packet :
    (s : RtpSender) (now : ℕ)
    → s.has_rtp_packet ≡ false
    → should_send_sender_report s now ≡ (false, s)
unfolding should_send_sender_report
no_packet s now e = ground arith

answers-no_packet :
    (times : List ℕ) (s : RtpSender) (events : List Event)
    → s.has_rtp_packet ≡ false
    → answers s (map ask times ++ events) ≡ map (λ _. false) times ++ answers s events
unfolding answers
answers-no_packet [] s events e = refl
answers-no_packet (t ∷ times) s events e =
    rw (no_packet s t e) (ap (◌∷◌ false) (answers-no_packet times s events e))

due_after_packet :
    (s : RtpSender) (p : RtpPayload) (now : ℕ)
    → s.next_sender_report_time ≡ 0
    → 1 ≤ length p.payload
    → answers s (send p ∷ ask now ∷ []) ≡ true ∷ []
unfolding answers should_send_sender_report build_rtp_packet
due_after_packet s p now e h = ground arith

-- A new sender answers no to every question until it has sent a payload that is not empty, and yes to
-- the first question after that, at any time.
pub first_report_due :
    (c : RtpSenderConfig) (times : List ℕ) (p : RtpPayload) (now : ℕ)
    → 1 ≤ length p.payload
    → answers (init c) (map ask times ++ (send p ∷ ask now ∷ []))
      ≡ map (λ _. false) times ++ (true ∷ [])
first_report_due c times p now h =
    answers-no_packet times (init c) (send p ∷ ask now ∷ []) (unfold init in refl)
    ∙ ap (◌++◌ (map (λ _. false) times)) (due_after_packet (init c) p now (unfold init in refl) h)
