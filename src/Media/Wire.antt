-- ===== src/Media/Wire.antt =====
-- Byte buffers, and the big-endian helpers that rtcp_packet_codec.cpp, rtp_sender.cpp,
-- audio_rtp_packetizer.cpp and avtp_packet_parser.cpp each declare for themselves.
-- A byte is a number below 256. The fields that the source joins by `|` do not overlap, so the
-- joined word is their sum, and a word built from bytes never exceeds its width.
use video_pipeline.Base.{
  ℕ, zero, suc, ◌+◌, ◌*◌, ◌/◌, ◌%◌, ◌^◌, ◌<◌, ◌≡◌, List, [], ◌∷◌, ◌++◌, arith, get_or, set, drop,
}

-- A `const std::uint8_t*` with its `std::size_t`: a null pointer with the size that came with it,
-- or the bytes.
pub data Buffer : Type 0 where
  null : ℕ → Buffer
  bytes : List ℕ → Buffer

abbrev pub IsByte : ℕ → Type 0
IsByte b = b < 2 ^ 8

abbrev pub All {ℓ κ} : {A : Type ℓ} → (A → Type κ) → List A → Type κ
All P [] = Unit {κ}
All P (x ∷ xs) = P x × All P xs

pub All-append {ℓ κ} :
    {A : Type ℓ} (P : A → Type κ) (xs ys : List A) → All P xs → All P ys → All P (xs ++ ys)
All-append P [] ys hx hy = hy
All-append P (x ∷ xs) ys hx hy = (hx.0, All-append P xs ys hx.1 hy)

pub All-drop {ℓ κ} :
    {A : Type ℓ} (P : A → Type κ) (n : ℕ) (xs : List A) → All P xs → All P (drop n xs)
All-drop P zero xs h = h
All-drop P (suc n) [] h = tt
All-drop P (suc n) (x ∷ xs) h = All-drop P n xs h.1

-- `data[i]`; every read of the source stands behind a test of the size.
abbrev pub byte_at : List ℕ → ℕ → ℕ
byte_at data' i = get_or data' i 0

unfoldable pub read_u16 : List ℕ → ℕ
read_u16 p = byte_at p 0 * 2 ^ 8 + byte_at p 1

unfoldable pub read_u32 : List ℕ → ℕ
read_u32 p = byte_at p 0 * 2 ^ 24 + byte_at p 1 * 2 ^ 16 + byte_at p 2 * 2 ^ 8 + byte_at p 3

-- `data + pos` is written through, in place.
unfoldable pub write_u16 : ℕ → ℕ → List ℕ → List ℕ
write_u16 pos value p = set (set p pos (value / 2 ^ 8 % 2 ^ 8)) (pos + 1) (value % 2 ^ 8)

unfoldable pub write_u32 : ℕ → ℕ → List ℕ → List ℕ
write_u32 pos value p =
    let p1 = set p pos (value / 2 ^ 24 % 2 ^ 8) in
    let p2 = set p1 (pos + 1) (value / 2 ^ 16 % 2 ^ 8) in
    let p3 = set p2 (pos + 2) (value / 2 ^ 8 % 2 ^ 8) in set p3 (pos + 3) (value % 2 ^ 8)

-- The four bytes of a word, most significant first.
abbrev pub be32 : ℕ → List ℕ → List ℕ
be32 v rest = (v / 2 ^ 24 % 2 ^ 8) ∷ (v / 2 ^ 16 % 2 ^ 8) ∷ (v / 2 ^ 8 % 2 ^ 8) ∷ (v % 2 ^ 8) ∷ rest

abbrev pub be16 : ℕ → List ℕ → List ℕ
be16 v rest = (v / 2 ^ 8 % 2 ^ 8) ∷ (v % 2 ^ 8) ∷ rest

pub read_u32-be32 : (v : ℕ) (rest : List ℕ) → v < 2 ^ 32 → read_u32 (be32 v rest) ≡ v
unfolding read_u32
read_u32-be32 v rest h = omega arith

pub read_u16-be16 : (v : ℕ) (rest : List ℕ) → v < 2 ^ 16 → read_u16 (be16 v rest) ≡ v
unfolding read_u16
read_u16-be16 v rest h = omega arith
