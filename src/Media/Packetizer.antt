-- ===== src/Media/Packetizer.antt =====
-- src/media/protocol/h264_rtp_packetizer.cpp and audio_rtp_packetizer.cpp: access units cut into RTP
-- payloads. Fields that the source joins by `|` do not overlap, so they are added.
pub mod Receiver
pub mod Markers
pub mod Audio
mod Examples
use video_pipeline.Base.{
  ℕ, zero, suc, ◌+◌, ◌-◌, ◌*◌, ◌/◌, ◌%◌, ◌^◌, min, max, Bool, true, false, not, ◌&&◌, ◌||◌, List,
  [], ◌∷◌, ◌++◌, Option, none, some, ltb, leb, ◌==◌, if◌then◌else◌, length, take, drop, replicate,
}
use video_pipeline.Base.Int.{ℤ, pos, negsuc}
use video_pipeline.Media.Wire.{Buffer, null, bytes, byte_at, write_u16}
use video_pipeline.Media.Bitstream.{NalUnit, is_empty}

pub data CodecType : Type 0 where
  unknown h264 h265 aac opus g711a g711u g726 jpeg : CodecType

-- The fields that the packetizers read; `encoded_data` is a null buffer where the shared pointer or its `Data()` is null.
pub record EncodedAccessUnit : Type 0 where
  pub codec_type : CodecType
  pub pts : ℤ
  pub encoded_data : Buffer
  pub nals : List NalUnit

pub record RtpPayload : Type 0 where
  pub payload : List ℕ
  pub timestamp : ℕ
  pub marker : Bool

-- `static_cast<std::uint32_t>` of an int64_t.
abbrev pub to_u32 : ℤ → ℕ
to_u32 (pos n) = n % 2 ^ 32
to_u32 (negsuc n) = 2 ^ 32 - 1 - n % 2 ^ 32

-- The constructor: `max_payload_size_`.
pub max_payload_size_of : ℕ → ℕ
max_payload_size_of requested = max requested 4

-- The loop over one NAL unit: `rest` is `nal` from `offset` on, and each round takes a byte at least.
pub fragments : ℕ → ℕ → ℕ → ℕ → ℕ → Bool → Bool → List ℕ → List RtpPayload
fragments zero capacity fu_indicator nal_type timestamp is_last_nal first rest = []
fragments (suc fuel) capacity fu_indicator nal_type timestamp is_last_nal first [] = []
fragments (suc fuel) capacity fu_indicator nal_type timestamp is_last_nal first (b ∷ rest) =
    let fragment_size = min capacity (length (b ∷ rest)) in
    let last_fragment = leb (length (b ∷ rest)) fragment_size in
    let start_bit : ℕ = if first then 0x80 else 0 in
    let end_bit : ℕ = if last_fragment then 0x40 else 0 in
    let packet : RtpPayload = record {
      payload = fu_indicator ∷ (nal_type + start_bit + end_bit) ∷ take fragment_size (b ∷ rest);
      timestamp = timestamp;
      marker = is_last_nal && last_fragment;
    } in
    packet
    ∷ fragments fuel capacity fu_indicator nal_type timestamp is_last_nal false
        (drop fragment_size (b ∷ rest))

pub packetize_nal : ℕ → ℕ → Bool → NalUnit → List RtpPayload
packetize_nal max_payload_size timestamp is_last_nal [] = []
packetize_nal max_payload_size timestamp is_last_nal (header ∷ rest) =
    if leb (length (header ∷ rest)) max_payload_size
    then record { payload = header ∷ rest; timestamp = timestamp; marker = is_last_nal } ∷ []
    else fragments (length rest) (max_payload_size - 2) (header / 2 ^ 5 * 2 ^ 5 + 28)
        (header % 2 ^ 5) timestamp is_last_nal true rest

pub packetize_nals : ℕ → ℕ → List NalUnit → List RtpPayload
packetize_nals max_payload_size timestamp [] = []
packetize_nals max_payload_size timestamp (nal ∷ nals) =
    packetize_nal max_payload_size timestamp (is_empty nals) nal
    ++ packetize_nals max_payload_size timestamp nals

-- `H264RtpPacketizer(requested).Packetize(access_unit)`
pub packetize_h264 : ℕ → EncodedAccessUnit → List RtpPayload
packetize_h264 requested access_unit =
    packetize_nals (max_payload_size_of requested) (to_u32 access_unit.pts) access_unit.nals

pub adts_header_size : List ℕ → ℕ
adts_header_size p =
    let protection_absent = byte_at p 1 % 2 == 1 in
    let header_size : ℕ = if protection_absent then 7 else 9 in
    if ltb (length p) 7 || not (byte_at p 0 == 0xff) || not (byte_at p 1 / 2 ^ 4 == 0xf)
    then 0
    else if leb header_size (length p)
    then header_size
    else 0

-- `sample` is the access unit less its ADTS header.
aac_payloads : ℕ → List ℕ → List RtpPayload
unfolding write_u16
aac_payloads timestamp [] = []
aac_payloads timestamp (b ∷ sample) =
    let au_header = length (b ∷ sample) % 2 ^ 16 % 2 ^ 13 * 2 ^ 3 in
    let header = write_u16 2 au_header (write_u16 0 16 (replicate 4 0)) in
    record { payload = header ++ (b ∷ sample); timestamp = timestamp; marker = true } ∷ []

pub packetize_aac : EncodedAccessUnit → Buffer → List RtpPayload
unfolding aac_payloads
packetize_aac access_unit (null size) = []
packetize_aac access_unit (bytes p) =
    if is_empty p then [] else aac_payloads (to_u32 access_unit.pts) (drop (adts_header_size p) p)

pub packetize_raw_audio : EncodedAccessUnit → Buffer → List RtpPayload
packetize_raw_audio access_unit (null size) = []
packetize_raw_audio access_unit (bytes p) =
    if is_empty p
    then []
    else record { payload = p; timestamp = to_u32 access_unit.pts; marker = true } ∷ []

-- `AudioRtpPacketizer::Packetize`
pub packetize_audio : EncodedAccessUnit → List RtpPayload
unfolding packetize_aac packetize_raw_audio
packetize_audio access_unit = elim access_unit.codec_type [
  | aac ↦ packetize_aac access_unit access_unit.encoded_data
  | g711a ↦ packetize_raw_audio access_unit access_unit.encoded_data
  | g711u ↦ packetize_raw_audio access_unit access_unit.encoded_data
  | _ ↦ []
]
