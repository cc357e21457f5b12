-- ===== src/Avtp/Assembler/Examples.antt =====
-- The assembler of access units on short runs: the theorem at concrete arguments.
use video_pipeline.Base.{
  inl, map, arith, ℕ, ◌+◌, Bool, length, ◌≡◌, refl, true, false, List, [], ◌∷◌, some,
}
use video_pipeline.Base.Int.{pos}
use video_pipeline.Avtp.Parser.{zero_mac, no_prefix}
use video_pipeline.Avtp.Assembler.{
  Fragment, init, same_stream, switch_stream, drop_current_access_unit, finish_access_unit,
  reset_access_unit, accept, sequence_step, push,
}
use video_pipeline.Avtp.Assembler.Blocks.{IsUnitOf}
use video_pipeline.Avtp.Assembler.Delivery.{Next, outputs, outputs-joined}
use video_pipeline.Avtp.Assembler.Soundness.{received, state_after, push-IsUnitOf}

fragment : ℕ → Bool → List ℕ → Fragment
fragment sequence last payload = record {
  packet = record {
    prefix = no_prefix;
    header = record {
      subtype = 3;
      stream_id_valid = true;
      version = 0;
      media_clock_restart = false;
      timestamp_valid = true;
      sequence_num = sequence;
      timestamp_uncertain = false;
      stream_id = 77;
      avtp_timestamp = 1000 + sequence;
    };
    format = 2;
    format_subtype = 1;
    stream_data_length = length payload;
    payload_timestamp_valid = true;
    marker = last;
    event = 0;
    payload = payload;
    has_custom_payload_header = false;
    custom_payload_length = 0;
    custom_magic = 0;
    custom_rtp_timestamp = 0;
    custom_ssrc = 0;
    media_payload = payload;
  };
  fragment_payload = payload;
  captured_us = pos sequence;
}

-- Two fragments across the wrap of the sequence number.
two_fragments :
    (push (state_after 9 (fragment 255 false (1 ∷ 2 ∷ []) ∷ [])) (fragment 0 true (3 ∷ []))).1
    ≡ some
        (record { content = 1 ∷ 2 ∷ 3 ∷ []; capture_timestamp_us = pos 255; avtp_timestamp = 1255 })
unfolding push state_after fragment sequence_step switch_stream accept finish_access_unit
    drop_current_access_unit same_stream reset_access_unit init
two_fragments = refl

push-IsUnitOf_example :
    IsUnitOf 9
      (received (fragment 0 true (3 ∷ []) ∷ fragment 255 false (1 ∷ 2 ∷ []) ∷ []))
      (record { content = 1 ∷ 2 ∷ 3 ∷ []; capture_timestamp_us = pos 255; avtp_timestamp = 1255 })
push-IsUnitOf_example =
    push-IsUnitOf 9 (fragment 255 false (1 ∷ 2 ∷ []) ∷ []) (fragment 0 true (3 ∷ [])) two_fragments

fragment-Next :
    (n : ℕ) (last : Bool) (b : ℕ) (rest : List ℕ) → Next n 77 zero_mac (fragment n last (b ∷ rest))
unfolding fragment
fragment-Next n last b rest = record {
  sequence = refl;
  one_stream = refl;
  sender = inl refl;
  some_payload = omega arith;
}

outputs-joined_example :
    map
      (λ u. u.content)
      (outputs (init 9) (fragment 255 false (1 ∷ 2 ∷ []) ∷ fragment 0 true (3 ∷ []) ∷ []))
    ≡ (1 ∷ 2 ∷ 3 ∷ []) ∷ []
unfolding fragment
outputs-joined_example =
    outputs-joined 9 (fragment 255 false (1 ∷ 2 ∷ [])) (fragment 0 true (3 ∷ []) ∷ [])
      (fragment-Next 255 false 1 (2 ∷ []), refl, (fragment-Next 0 true 3 [], refl)) (omega arith)
