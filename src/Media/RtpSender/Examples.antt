-- ===== src/Media/RtpSender/Examples.antt =====
-- RtpSender on short runs: the theorems at concrete arguments.
use video_pipeline.Base.{◌≡◌, refl, true, false, List, [], ◌∷◌, arith}
use video_pipeline.Media.Wire.{All}
use video_pipeline.Media.Packetizer.{RtpPayload}
use video_pipeline.Media.RtpSender.{RtpSender, RtpSenderConfig, init, should_send_sender_report}
use video_pipeline.Media.RtpSender.Packets.{send_all, expected_packets, send_all-expected}
use video_pipeline.Media.RtpSender.Reports.{send, ask, answers, should_send_sender_report-gap}

abbrev track : RtpSenderConfig
track = record {
  payload_type = 96;
  ssrc = 7;
  initial_sequence = 65535;
  clock_rate = 90000;
  sender_report_interval = 5000;
}

abbrev two_payloads : List RtpPayload
two_payloads =
    record { payload = 1 ∷ 2 ∷ []; timestamp = 10; marker = false }
    ∷ record { payload = 3 ∷ []; timestamp = 10; marker = true }
    ∷ []

send_all-expected_example :
    ((send_all (init track) two_payloads).0 ≡ expected_packets 96 7 65535 two_payloads)
    × ((send_all (init track) two_payloads).1.next_sequence ≡ 1)
    × ((send_all (init track) two_payloads).1.packet_count ≡ 2)
    × ((send_all (init track) two_payloads).1.octet_count ≡ 3)
unfolding init
send_all-expected_example =
    send_all-expected (init track) two_payloads 65535 (omega arith, (omega arith, tt)) refl
      (omega arith) (omega arith)

abbrev running : RtpSender
running = record (init track) { has_rtp_packet = true }

due : (should_send_sender_report running 8).0 ≡ true
unfolding should_send_sender_report init
due = refl

should_send_sender_report-gap_example :
    All
      (λ a. a ≡ false)
      (answers (should_send_sender_report running 8).1 (
        ask 9
        ∷ send (record { payload = 1 ∷ []; timestamp = 10; marker = true })
        ∷ ask 5_000_000_007
        ∷ []))
unfolding init
should_send_sender_report-gap_example =
    should_send_sender_report-gap running 8
      (ask 9
        ∷ send (record { payload = 1 ∷ []; timestamp = 10; marker = true })
        ∷ ask 5_000_000_007
        ∷ [])
      due (omega arith, (tt, (omega arith, tt)))
