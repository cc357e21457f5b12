-- ===== src/Avtp/Parser/Bounds.antt =====
-- ParseCvfPdu of avtp_packet_parser.cpp: nothing is read outside the packet.
use video_pipeline.Base.{
  ℕ, ◌+◌, ◌≤◌, ◌≡◌, ◌⊎◌, refl, sym, ap, subst, ◌∙◌, List, arith, length, take, drop,
}
use video_pipeline.Media.Wire.{read_u16}
use video_pipeline.Avtp.Parser.{
  EthernetPrefix, ParsedCvfPacket, ok, cvf_packet, parse_cvf_pdu, strip_custom_header,
}

-- How a media payload lies in the payload.
abbrev pub Cuts : ℕ → List ℕ → List ℕ → Type 0
Cuts n payload media = (n ≤ length payload) × (media ≡ drop n payload)

strip_custom_header_lem :
    (k : ParsedCvfPacket)
    → k.media_payload ≡ k.payload
    → ((strip_custom_header k).payload ≡ k.payload)
      × ((strip_custom_header k).stream_data_length ≡ k.stream_data_length)
      × (Cuts 0 k.payload (strip_custom_header k).media_payload
          ⊎ Cuts 8 k.payload (strip_custom_header k).media_payload
          ⊎ Cuts 20 k.payload (strip_custom_header k).media_payload)
unfolding strip_custom_header
strip_custom_header_lem k e = ground arith

accepted :
    (prefix : EthernetPrefix) (p : List ℕ) {k : ParsedCvfPacket}
    → parse_cvf_pdu prefix p ≡ ok k
    → (k ≡ strip_custom_header (cvf_packet prefix p)) × (24 + read_u16 (drop 20 p) ≤ length p)
unfolding parse_cvf_pdu
accepted prefix p e = ground arith

-- What a parsed packet says of the bytes that it was parsed from.
abbrev pub Inside : List ℕ → ParsedCvfPacket → Type 0
Inside p k =
    (24 + k.stream_data_length ≤ length p)
    × (k.payload ≡ take k.stream_data_length (drop 24 p))
    × (Cuts 0 k.payload k.media_payload
        ⊎ Cuts 8 k.payload k.media_payload
        ⊎ Cuts 20 k.payload k.media_payload)

stripped-Inside :
    (prefix : EthernetPrefix) (p : List ℕ)
    → 24 + read_u16 (drop 20 p) ≤ length p
    → Inside p (strip_custom_header (cvf_packet prefix p))
stripped-Inside prefix p fits =
    let plain = cvf_packet prefix p in
    let (pay, len, cuts) = strip_custom_header_lem plain (unfold cvf_packet in refl) in
    let size : plain.stream_data_length ≡ read_u16 (drop 20 p) = unfold cvf_packet in refl in
    let content : plain.payload ≡ take (read_u16 (drop 20 p)) (drop 24 p) =
      unfold cvf_packet in refl in
    rw (pay, len) (rw size fits, content ∙ ap (λ n. take n (drop 24 p)) (sym size), cuts)

-- What is parsed stays inside the packet: the payload is the announced number of bytes behind the 24
-- of the header, all of them there, and the media payload is the payload less nothing, less the
-- vendor header of 8 bytes, or less that and the RTP-like header of 12.
pub parse_cvf_pdu-Inside :
    (prefix : EthernetPrefix) (p : List ℕ) {k : ParsedCvfPacket}
    → parse_cvf_pdu prefix p ≡ ok k
    → Inside p k
parse_cvf_pdu-Inside prefix p e =
    let (found, fits) = accepted prefix p e in
    subst (Inside p) (sym found) (stripped-Inside prefix p fits)
