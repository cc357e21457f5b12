-- ===== src/Media/Bitstream/AnnexB.antt =====
-- SplitAnnexB of h264_bitstream.cpp: NAL units behind start codes.
use video_pipeline.Base.{
  ℕ, zero, suc, ◌≤◌, ◌≡◌, ◌≢◌, refl, sym, ◌∙◌, List, [], ◌∷◌, ◌++◌, append-nil, append_assoc, arith,
  length, length-append,
}
use video_pipeline.Media.Wire.{bytes, All}
use video_pipeline.Media.Bitstream.{
  NalUnit, start_code_size, next_nal, split_annexb_from, split_annexb,
}

-- No start code stands anywhere in the bytes.
abbrev pub NoStartCode : List ℕ → Type 0
NoStartCode [] = Unit {0}
NoStartCode (b ∷ rest) = (start_code_size (b ∷ rest) ≡ 0) × NoStartCode rest

-- The Annex-B form of NAL units, with start codes of four bytes.
abbrev pub annexb_bytes : List NalUnit → List ℕ
annexb_bytes [] = []
annexb_bytes (nal ∷ nals) = 0 ∷ 0 ∷ 0 ∷ 1 ∷ (nal ++ annexb_bytes nals)

-- A start code does not begin inside a NAL unit that has none, whatever its end and the start code
-- behind it have in common.
start_code-before_code :
    (b : ℕ) (rest after : List ℕ)
    → start_code_size (b ∷ rest) ≡ 0
    → start_code_size (b ∷ (rest ++ (0 ∷ 0 ∷ 0 ∷ 1 ∷ after))) ≡ 0
unfolding start_code_size
start_code-before_code b [] after h = ground arith
start_code-before_code b (c ∷ []) after h = ground arith
start_code-before_code b (c ∷ d ∷ []) after h = ground arith
start_code-before_code b (c ∷ d ∷ e ∷ rest) after h = ground arith

pub start_code_size-four : (rest : List ℕ) → start_code_size (0 ∷ 0 ∷ 0 ∷ 1 ∷ rest) ≡ 4
unfolding start_code_size
start_code_size-four rest = ground arith

next_nal_stop :
    (b : ℕ) (rest : List ℕ) → start_code_size (b ∷ rest) ≢ 0 → next_nal (b ∷ rest) ≡ ([], b ∷ rest)
unfolding next_nal
next_nal_stop b rest h = ground arith

next_nal_go :
    (b : ℕ) (rest body after : List ℕ)
    → start_code_size (b ∷ rest) ≡ 0
    → next_nal rest ≡ (body, after)
    → next_nal (b ∷ rest) ≡ (b ∷ body, after)
unfolding next_nal
next_nal_go b rest body after h e = ground arith

next_nal-before_code :
    (nal after : List ℕ)
    → NoStartCode nal
    → next_nal (nal ++ (0 ∷ 0 ∷ 0 ∷ 1 ∷ after)) ≡ (nal, 0 ∷ 0 ∷ 0 ∷ 1 ∷ after)
next_nal-before_code [] after h =
    next_nal_stop 0 (0 ∷ 0 ∷ 1 ∷ after) (omega (arith, start_code_size-four after))
next_nal-before_code (b ∷ nal) after (h, hs) =
    next_nal_go b (nal ++ (0 ∷ 0 ∷ 0 ∷ 1 ∷ after)) nal _ (start_code-before_code b nal after h)
      (next_nal-before_code nal after hs)

pub next_nal-last : (nal : List ℕ) → NoStartCode nal → next_nal nal ≡ (nal, [])
next_nal-last [] h = unfold next_nal in refl
next_nal-last (b ∷ nal) (h, hs) = next_nal_go b nal nal [] h (next_nal-last nal hs)

-- One round on a start code of four bytes.
one_round :
    (fuel : ℕ) (rest body after : List ℕ) (nals : List NalUnit)
    → next_nal rest ≡ (body, after)
    → 1 ≤ length body
    → split_annexb_from (suc fuel) (0 ∷ 0 ∷ 0 ∷ 1 ∷ rest) nals
      ≡ split_annexb_from fuel after (nals ++ (body ∷ []))
unfolding split_annexb_from
one_round fuel rest [] after nals e h = absurd (omega arith)
one_round fuel rest (b ∷ body) after nals e h = rw (start_code_size-four rest, e)

no_more : (fuel : ℕ) (nals : List NalUnit) → split_annexb_from fuel [] nals ≡ nals
unfolding split_annexb_from
no_more zero nals = refl
no_more (suc fuel) nals = refl

split_annexb_from-annexb_bytes :
    (nals : List NalUnit) (fuel : ℕ) (before : List NalUnit)
    → All NoStartCode nals
    → All (λ nal. 1 ≤ length nal) nals
    → length (annexb_bytes nals) ≤ fuel
    → split_annexb_from fuel (annexb_bytes nals) before ≡ before ++ nals
split_annexb_from-annexb_bytes [] fuel before h f l = no_more fuel before ∙ sym (append-nil before)
split_annexb_from-annexb_bytes (nal ∷ nals) zero before h f l = absurd (omega arith)
split_annexb_from-annexb_bytes (nal ∷ []) (suc fuel) before (h, hs) (f, fs) l =
    rw (append-nil nal) (one_round fuel nal nal [] before (next_nal-last nal h) f ∙ no_more fuel _)
split_annexb_from-annexb_bytes (nal ∷ nal' ∷ nals) (suc fuel) before (h, hs) (f, fs) l =
    one_round fuel _ nal (annexb_bytes (nal' ∷ nals)) before (next_nal-before_code nal _ h) f
    ∙ split_annexb_from-annexb_bytes (nal' ∷ nals) fuel (before ++ (nal ∷ [])) hs fs
        (omega (arith, length-append nal (annexb_bytes (nal' ∷ nals))))
    ∙ append_assoc before (nal ∷ []) (nal' ∷ nals)

-- NAL units that are not empty and hold no start code are found again in their Annex-B form.
pub split_annexb-annexb_bytes :
    (nals : List NalUnit)
    → All NoStartCode nals
    → All (λ nal. 1 ≤ length nal) nals
    → split_annexb (bytes (annexb_bytes nals)) ≡ nals
unfolding split_annexb
split_annexb-annexb_bytes nals h f =
    split_annexb_from-annexb_bytes nals (length (annexb_bytes nals)) [] h f (omega arith)
