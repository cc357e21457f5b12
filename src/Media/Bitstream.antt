-- ===== src/Media/Bitstream.antt =====
-- src/media/protocol/h264_bitstream.cpp: NAL units in Annex-B and AVCC form, parameter sets, base64.
-- Where the source walks an index `pos`, `rest` is `data + pos`, so `size - pos` is its length.
pub mod Avcc
pub mod AvccSound
pub mod AnnexB
pub mod Base64
pub mod Packet
pub mod ParameterSets
mod Examples
use Prim.Native.Char.{Char, code}
use Prim.Native.String.{String}
use video_pipeline.Base.{
  ℕ, zero, suc, ◌+◌, ◌-◌, ◌*◌, ◌/◌, ◌%◌, ◌^◌, Bool, true, false, not, ◌&&◌, ◌||◌, List, [], ◌∷◌,
  ◌++◌, Option, none, some, min, ltb, leb, ◌==◌, if◌then◌else◌, length, take, drop, get_or,
}
use video_pipeline.Media.Wire.{Buffer, null, bytes, byte_at, read_u16}

-- `NalUnit` is a struct of one field, its bytes.
abbrev pub NalUnit : Type 0
NalUnit = List ℕ

unfoldable pub h264_type : NalUnit → ℕ
h264_type [] = 0
h264_type (b ∷ rest) = b % 2 ^ 5

pub record H264ParameterSets : Type 0 where
  pub sps : List ℕ
  pub pps : List ℕ

abbrev pub no_sets : H264ParameterSets
no_sets = record { sps = []; pps = [] }

abbrev pub is_empty {ℓ} : {A : Type ℓ} → List A → Bool
is_empty [] = true
is_empty (x ∷ xs) = false

pub has_both : H264ParameterSets → Bool
has_both s = not (is_empty s.sps) && not (is_empty s.pps)

pub is_start_code3 : List ℕ → Bool
is_start_code3 rest =
    leb 3 (length rest) && byte_at rest 0 == 0 && byte_at rest 1 == 0 && byte_at rest 2 == 1

pub is_start_code4 : List ℕ → Bool
is_start_code4 rest =
    leb 4 (length rest)
    && byte_at rest 0 == 0
    && byte_at rest 1 == 0
    && byte_at rest 2 == 0
    && byte_at rest 3 == 1

pub start_code_size : List ℕ → ℕ
unfolding is_start_code3 is_start_code4
start_code_size rest = if is_start_code4 rest then 4 else if is_start_code3 rest then 3 else 0

-- `value` is a uint32_t.
pub read_be_length : ℕ → List ℕ → ℕ → ℕ
read_be_length zero p value = value
read_be_length (suc n) p value = read_be_length n (drop 1 p) (value * 2 ^ 8 % 2 ^ 32 + byte_at p 0)

any_start_code : ℕ → List ℕ → Bool
any_start_code zero rest = false
any_start_code (suc n) rest = not (start_code_size rest == 0) || any_start_code n (drop 1 rest)

pub looks_like_annexb : Buffer → Bool
looks_like_annexb (null size) = false
looks_like_annexb (bytes p) =
    if ltb (length p) 3 then false else any_start_code (min (length p) 64) p

pub looks_like_avcc_extradata : Buffer → Bool
looks_like_avcc_extradata (null size) = false
looks_like_avcc_extradata (bytes p) = leb 7 (length p) && byte_at p 0 == 1

-- The inner loop: the bytes up to the next start code or the end, and what stands there.
pub next_nal : List ℕ → List ℕ × List ℕ
next_nal [] = ([], [])
next_nal (b ∷ rest) =
    let (body, after) = next_nal rest in
    if start_code_size (b ∷ rest) == 0 then (b ∷ body, after) else ([], b ∷ rest)

-- The outer loop; each round moves `pos` on, so as many rounds as there are bytes are enough.
pub split_annexb_from : ℕ → List ℕ → List NalUnit → List NalUnit
split_annexb_from zero rest nals = nals
split_annexb_from (suc fuel) [] nals = nals
split_annexb_from (suc fuel) (b ∷ rest) nals =
    let code_size = start_code_size (b ∷ rest) in
    let skip = split_annexb_from fuel rest nals in
    let (body, after) = next_nal (drop code_size (b ∷ rest)) in
    let more = split_annexb_from fuel after (if is_empty body then nals else nals ++ (body ∷ [])) in
    if code_size == 0 then skip else more

pub split_annexb : Buffer → List NalUnit
split_annexb (null size) = []
split_annexb (bytes p) = split_annexb_from (length p) p []

-- `nals.clear(); return nals` is the empty list.
pub split_avcc_from : ℕ → ℕ → List ℕ → List NalUnit → List NalUnit
unfolding read_be_length
split_avcc_from zero length_size rest nals = if is_empty rest then nals else []
split_avcc_from (suc fuel) length_size rest nals =
    let nal_size = read_be_length length_size rest 0 in
    let body = drop length_size rest in
    let more =
      split_avcc_from fuel length_size (drop nal_size body) (nals ++ (take nal_size body ∷ [])) in
    if ltb (length rest) length_size
    then (if is_empty rest then nals else [])
    else if nal_size == 0 || ltb (length body) nal_size
    then []
    else more

-- The size of a length field is an `int` in the source; what is below 1 or above 4 is refused.
pub split_avcc : Buffer → ℕ → List NalUnit
unfolding split_avcc_from
split_avcc (null size) length_size = []
split_avcc (bytes p) length_size =
    if is_empty p || ltb length_size 1 || ltb 4 length_size
    then []
    else split_avcc_from (length p) length_size p []

pub split_packet : Buffer → ℕ → List NalUnit
split_packet (null size) avcc_length_size = []
split_packet (bytes p) avcc_length_size =
    if is_empty p
    then []
    else if looks_like_annexb (bytes p)
    then split_annexb (bytes p)
    else (let avcc = split_avcc (bytes p) avcc_length_size in
        if is_empty avcc then p ∷ [] else avcc)

pub parse_avcc_length_size : List ℕ → ℕ
parse_avcc_length_size extra_data =
    if looks_like_avcc_extradata (bytes extra_data) then byte_at extra_data 4 % 2 ^ 2 + 1 else 4

-- One of the two loops over the sets in an avcC record: `none` is its `return {}`, and `first` the
-- set that is kept, the first one that is not empty.
pub read_sets : ℕ → List ℕ → List ℕ → Option (List ℕ × List ℕ)
unfolding read_u16
read_sets zero rest first = some (first, rest)
read_sets (suc count) rest first =
    let size = read_u16 rest in
    let body = drop 2 rest in
    let more =
      read_sets count (drop size body) (if is_empty first then take size body else first) in
    if ltb (length rest) 2
    then some (first, rest)
    else if ltb (length body) size
    then none
    else more

read_pps : List ℕ → List ℕ → H264ParameterSets
read_pps sps [] = record { sps = sps; pps = [] }
read_pps sps (count ∷ rest) = elim (read_sets count rest []) [
  | none ↦ no_sets
  | some (pps, after) ↦ record { sps = sps; pps = pps }
]

-- The overload on NAL units.
pub parameter_sets_of_nals : List NalUnit → H264ParameterSets → H264ParameterSets
unfolding h264_type
parameter_sets_of_nals [] sets = sets
parameter_sets_of_nals (nal ∷ nals) sets = parameter_sets_of_nals nals (
    if is_empty nal
    then sets
    else if h264_type nal == 7 && is_empty sets.sps
    then record sets { sps = nal }
    else if h264_type nal == 8 && is_empty sets.pps
    then record sets { pps = nal }
    else sets)

-- The overload on extra data.
pub extract_parameter_sets : List ℕ → H264ParameterSets
extract_parameter_sets extra_data =
    if is_empty extra_data
    then no_sets
    else if looks_like_avcc_extradata (bytes extra_data)
    then (elim (read_sets (byte_at extra_data 5 % 2 ^ 5) (drop 6 extra_data) []) [
      | none ↦ no_sets
      | some (sps, after) ↦ read_pps sps after
    ])
    else parameter_sets_of_nals (split_annexb (bytes extra_data)) no_sets

abbrev codes : String → List ℕ
codes String.[] = []
codes (String.◌∷◌ c s) = code c ∷ codes s

unfoldable pub base64_table : List ℕ
base64_table = codes "ABCDEFGHIJKLMNOPQRSTUVWXYZabcdefghijklmnopqrstuvwxyz0123456789+/"

unfoldable pub base64_char : ℕ → ℕ
unfolding base64_table
base64_char i = get_or base64_table i 0

-- `out` is the text as bytes.
unfoldable pub base64_encode : List ℕ → List ℕ
base64_encode [] = []
base64_encode (a ∷ []) =
    let value = a * 2 ^ 16 in
    base64_char (value / 2 ^ 18 % 64) ∷ base64_char (value / 2 ^ 12 % 64) ∷ b'=' ∷ b'=' ∷ []
base64_encode (a ∷ b ∷ []) =
    let value = a * 2 ^ 16 + b * 2 ^ 8 in
    base64_char (value / 2 ^ 18 % 64)
    ∷ base64_char (value / 2 ^ 12 % 64)
    ∷ base64_char (value / 2 ^ 6 % 64)
    ∷ b'='
    ∷ []
base64_encode (a ∷ b ∷ c ∷ rest) =
    let value = a * 2 ^ 16 + b * 2 ^ 8 + c in
    base64_char (value / 2 ^ 18 % 64)
    ∷ base64_char (value / 2 ^ 12 % 64)
    ∷ base64_char (value / 2 ^ 6 % 64)
    ∷ base64_char (value % 64)
    ∷ base64_encode rest
