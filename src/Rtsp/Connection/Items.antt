-- ===== src/Rtsp/Connection/Items.antt =====
-- RtspConnection: the item at the front of the read buffer when more bytes come.
use video_pipeline.Base.{
  ℕ, ◌+◌, ◌*◌, ◌^◌, ◌≤◌, ◌<◌, ◌≡◌, inl, inr, refl, false, List, [], ◌∷◌, ◌++◌, arith, ltb, ◌==◌,
  length, length-append, length-drop, drop, take-append_le, drop-append_le, ltb-false→le,
  le→ltb-false, Bool-cases,
}
use video_pipeline.Media.Wire.{read_u16}
use video_pipeline.Rtsp.RequestParser.{
  RtspRequestParseResult, Limits, need_more, parsed, failed, parse,
}
use video_pipeline.Rtsp.RequestParser.Fragments.{parse-append, parse-append-failed}
use video_pipeline.Rtsp.RequestParser.Progress.{parse-takes}
use video_pipeline.Rtsp.Connection.{
  Item, partial, frame, message, broken, frame_item, message_item, next_item,
}

-- What is whole at the front stays when bytes are added, and they come behind what is left. An error may be
-- found at another place.
abbrev pub Grows : List ℕ → Item → Item → Type 0
Grows more partial item = Unit
Grows more (frame channel payload rest) item = item ≡ frame channel payload (rest ++ more)
Grows more (message req rest) item = item ≡ message req (rest ++ more)
Grows more (broken offset) item = (offset' : ℕ) × (item ≡ broken offset')

message-Grows :
    (limits : Limits) (buffer more : List ℕ) (r : RtspRequestParseResult)
    → parse limits buffer ≡ r
    → Grows more
        (message_item buffer r)
        (message_item (buffer ++ more) (parse limits (buffer ++ more)))
unfolding message_item
message-Grows limits buffer more need_more e = tt
message-Grows limits buffer more (parsed n req) e =
    let (same, fits) = parse-append limits buffer more e in
    rw (same, drop-append_le n buffer more fits) refl
message-Grows limits buffer more (failed k) e =
    let (k', same) = parse-append-failed limits buffer more e in rw same (k', refl)

frame-Grows : (buffer more : List ℕ) → Grows more (frame_item buffer) (frame_item (buffer ++ more))
unfolding frame_item read_u16
frame-Grows [] more = tt
frame-Grows (a ∷ []) more = tt
frame-Grows (a ∷ b ∷ []) more = tt
frame-Grows (a ∷ b ∷ c ∷ []) more = tt
frame-Grows (a ∷ b ∷ c ∷ d ∷ bs) more =
    let buffer = a ∷ b ∷ c ∷ d ∷ bs in
    let size = c * 2 ^ 8 + d in
    let short : ltb (length buffer) 4 ≡ false = le→ltb-false (length buffer) 4 (omega arith) in
    let short' : ltb (length (buffer ++ more)) 4 ≡ false =
      le→ltb-false (length (buffer ++ more)) 4 (omega arith) in
    elim (Bool-cases (ltb (length buffer) (4 + size))) [
      | inl e ↦ rw (short, e) tt
      | inr e ↦
          let fits = ltb-false→le (length buffer) (4 + size) e in
          rw
            (
              short,
              short',
              e,
              le→ltb-false (length (buffer ++ more)) (4 + size)
                  (omega (arith, fits, length-append buffer more)),
              take-append_le size bs more (omega (arith, fits)),
              drop-append_le (4 + size) buffer more fits,
            )
            refl
    ]

pub next_item-Grows :
    (limits : Limits) (b : ℕ) (bs more : List ℕ)
    → Grows more (next_item limits (b ∷ bs)) (next_item limits (b ∷ bs ++ more))
unfolding next_item
next_item-Grows limits b bs more = elim (Bool-cases (b == 36)) [
  | inl e ↦ rw e (frame-Grows (b ∷ bs) more)
  | inr e ↦ rw e (message-Grows limits (b ∷ bs) more (parse limits (b ∷ bs)) refl)
]

-- What is left is shorter.
abbrev pub Shorter : ℕ → Item → Type 0
Shorter n (frame channel payload rest) = length rest < n
Shorter n (message req rest) = length rest < n
Shorter n _ = Unit

frame-Shorter : (buffer : List ℕ) → 1 ≤ length buffer → Shorter (length buffer) (frame_item buffer)
unfolding frame_item
frame-Shorter buffer some_bytes = elim (Bool-cases (ltb (length buffer) 4)) [
  | inl e ↦ rw e tt
  | inr e ↦
      let size = read_u16 (drop 2 buffer) in
      elim (Bool-cases (ltb (length buffer) (4 + size))) [
        | inl f ↦ rw (e, f) tt
        | inr f ↦ rw (e, f) (omega (arith, some_bytes, length-drop (4 + size) buffer))
      ]
]

message-Shorter :
    (limits : Limits) (buffer : List ℕ) (r : RtspRequestParseResult)
    → parse limits buffer ≡ r
    → 1 ≤ length buffer
    → Shorter (length buffer) (message_item buffer r)
unfolding message_item
message-Shorter limits buffer need_more e some_bytes = tt
message-Shorter limits buffer (parsed n req) e some_bytes =
    omega (arith, some_bytes, parse-takes limits buffer e, length-drop n buffer)
message-Shorter limits buffer (failed k) e some_bytes = tt

pub next_item-Shorter :
    (limits : Limits) (b : ℕ) (bs : List ℕ) → Shorter (length (b ∷ bs)) (next_item limits (b ∷ bs))
unfolding next_item
next_item-Shorter limits b bs = elim (Bool-cases (b == 36)) [
  | inl e ↦ rw e (frame-Shorter (b ∷ bs) (omega arith))
  | inr e ↦ rw e (message-Shorter limits (b ∷ bs) (parse limits (b ∷ bs)) refl (omega arith))
]
