-- ===== src/Rtsp/Writes/Frames.antt =====
-- Interleaved frames: what BuildInterleavedFrame writes, a connection's read loop reads.
use video_pipeline.Base.{
  ℕ, suc, ◌+◌, ◌*◌, ◌/◌, ◌%◌, ◌^◌, ◌<◌, ◌≡◌, ap, ap₂, ◌∙◌, List, ◌∷◌, ◌++◌, arith, ltb, length,
  take, drop, length-append, take-append, drop-append, branches,
}
use video_pipeline.Media.Wire.{write_u16, read_u16}
use video_pipeline.Rtsp.RequestParser.{Limits}
use video_pipeline.Rtsp.Connection.{Item, frame, frame_item, next_item}
use video_pipeline.Rtsp.Writes.{build_interleaved_frame}

behind_header : (n a b c d : ℕ) (xs : List ℕ) → drop (4 + n) (a ∷ b ∷ c ∷ d ∷ xs) ≡ drop n xs
behind_header n a b c d xs =
    let four : 4 + n ≡ suc (suc (suc (suc n))) = omega arith in
    ap (λ k. drop k (a ∷ b ∷ c ∷ d ∷ xs)) four

-- A frame that BuildInterleavedFrame makes of a payload of less than 2^16 bytes is read back by the loop of
-- ProcessReadBuffer with its channel, its payload and whatever bytes follow.
pub next_item-build_interleaved_frame :
    (limits : Limits) (channel : ℕ) (payload rest : List ℕ)
    → length payload < 2 ^ 16
    → next_item limits (build_interleaved_frame channel payload ++ rest)
      ≡ frame channel payload rest
unfolding next_item frame_item build_interleaved_frame write_u16 read_u16
next_item-build_interleaved_frame limits channel payload rest h =
    let high = length payload % 2 ^ 16 / 2 ^ 8 % 2 ^ 8 in
    let low = length payload % 2 ^ 16 % 2 ^ 8 in
    let size : high * 2 ^ 8 + low ≡ length payload = omega (arith, h) in
    let whole = length-append payload rest in
    let Read = λ (i : Item). i ≡ frame channel payload rest in
    branches Read (ltb (length (b'$' ∷ channel ∷ high ∷ low ∷ (payload ++ rest))) 4)
      (λ e. absurd (ground arith))
      (λ _.
        branches Read
          (ltb (length (b'$' ∷ channel ∷ high ∷ low ∷ (payload ++ rest)))
            (4 + (high * 2 ^ 8 + low)))
          (λ e. absurd (ground (arith, whole, size)))
          (λ _.
            ap₂ (frame channel) (ap (λ n. take n (payload ++ rest)) size ∙ take-append payload rest)
              (behind_header (high * 2 ^ 8 + low) b'$' channel high low (payload ++ rest)
                ∙ ap (λ n. drop n (payload ++ rest)) size
                ∙ drop-append payload rest)))
