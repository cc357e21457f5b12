-- ===== src/Rtsp/Connection.antt =====
-- The read side of RtspConnection in src/media/protocol/rtsp/rtsp_connection.cpp: requests and
-- interleaved binary frames out of the bytes of a TCP stream. What the handlers do to the connection is
-- their answer; the handlers, with a state of their own, are a parameter.
mod Items
pub mod Turns
pub mod Chunks
mod Examples
use video_pipeline.Base.{
  ℕ, zero, suc, ◌+◌, ◌-◌, ◌*◌, ◌^◌, Bool, true, false, ◌||◌, List, [], ◌∷◌, ◌++◌, ltb, ◌==◌,
  if◌then◌else◌, length, take, drop, get_or,
}
use video_pipeline.Media.Bitstream.{is_empty}
use video_pipeline.Media.Wire.{read_u16}
use video_pipeline.Rtsp.RequestParser.{
  RtspRequest, RtspRequestParseResult, Limits, need_more, parsed, failed, parse,
}

-- The front of the read buffer, with the bytes behind it: nothing whole yet, a frame, a request, or an
-- error at an offset.
pub data Item : Type 0 where
  partial : Item
  frame : (channel : ℕ) (payload rest : List ℕ) → Item
  message : (request : RtspRequest) (rest : List ℕ) → Item
  broken : (error_offset : ℕ) → Item

unfoldable pub frame_item : List ℕ → Item
unfolding read_u16
frame_item buffer =
    let length_field = read_u16 (drop 2 buffer) in
    if ltb (length buffer) 4
    then partial
    else if ltb (length buffer) (4 + length_field)
    then partial
    else frame (get_or buffer 1 0) (take length_field (drop 4 buffer))
        (drop (4 + length_field) buffer)

message_item : List ℕ → RtspRequestParseResult → Item
message_item buffer need_more = partial
message_item buffer (parsed consumed request) = message request (drop consumed buffer)
message_item buffer (failed offset) = broken offset

unfoldable pub next_item : Limits → List ℕ → Item
unfolding frame_item message_item
next_item limits buffer =
    if get_or buffer 0 0 == 36 then frame_item buffer else message_item buffer (parse limits buffer)

-- What the handlers are called with; of the parser's error, whose text is for logs, the offset.
pub data Event : Type 0 where
  request : RtspRequest → Event
  interleaved_frame : (channel : ℕ) (payload : List ℕ) → Event
  parse_error : (error_offset : ℕ) → Event

-- What a handler does to the connection: nothing, Close, or CloseAfterFlush behind a response that is
-- still being written.
pub data Answer : Type 0 where
  goes_on : Answer
  closes : Answer
  closes_after_flush : Answer

pub record Connection {ℓ} (S : Type ℓ) : Type ℓ where
  pub session : S
  pub read_buffer : List ℕ
  pub closed : Bool
  pub close_after_write : Bool

-- A round of the loop of ProcessReadBuffer: it ends, or goes on.
pub data Turn {ℓ} (S : Type ℓ) : Type ℓ where
  ends : Connection S → Turn S
  again : Connection S → Turn S

module _ {ℓ} {S : Type ℓ} where
  pub answered : Connection S → S × Answer → Connection S
  answered c (s, goes_on) = record c { session = s }
  answered c (s, closes) = record c {
    session = s;
    read_buffer = [];
    closed = true;
    close_after_write = true;
  }
  answered c (s, closes_after_flush) = record c { session = s; close_after_write = true }

  pub turn_on : (S → Event → S × Answer) → Connection S → Item → Turn S
  unfolding answered
  turn_on handle c partial = ends c
  turn_on handle c (frame channel payload rest) =
      let left = record c { read_buffer = rest } in
      if is_empty payload
      then again left
      else again (answered left (handle c.session (interleaved_frame channel payload)))
  turn_on handle c (message req rest) =
      again (answered (record c { read_buffer = rest }) (handle c.session (request req)))
  turn_on handle c (broken offset) =
      ends (answered (record c { read_buffer = [] }) (handle c.session (parse_error offset)))

  pub turn : Limits → (S → Event → S × Answer) → Connection S → Turn S
  unfolding next_item turn_on
  turn limits handle c =
      if is_empty c.read_buffer || c.closed
      then ends c
      else turn_on handle c (next_item limits c.read_buffer)

  -- ProcessReadBuffer. Each round takes at least a byte, so more rounds than there are bytes are enough.
  pub process : Limits → (S → Event → S × Answer) → ℕ → Connection S → Connection S
  unfolding turn
  process limits handle zero c = c
  process limits handle (suc fuel) c = elim (turn limits handle c) [
    | ends c' ↦ c'
    | again c' ↦ process limits handle fuel c'
  ]

  -- DoRead on a chunk that came in; no read is made once the connection is closed or about to be.
  unfoldable pub receive : Limits → (S → Event → S × Answer) → Connection S → List ℕ → Connection S
  unfolding process
  receive limits handle c chunk =
      let buffer = c.read_buffer ++ chunk in
      if c.closed || c.close_after_write
      then c
      else process limits handle (suc (length buffer)) (record c { read_buffer = buffer })

-- StartOnExecutor: whether this call begins to read, and the flag `started_` behind it.
unfoldable pub start_on_executor : (started closed : Bool) → Bool × Bool
start_on_executor started closed = if started || closed then (false, started) else (true, true)
