-- ===== src/Rtsp/Writes.antt =====
-- The write side of RtspConnection in src/media/protocol/rtsp/rtsp_connection.cpp: the queue of buffers
-- that wait for the socket. The writes that have been handed to the socket and the calls of the closed
-- handler are kept as lists; the read buffer, which closing empties, is in Rtsp/Connection.
pub mod Sound
pub mod Order
pub mod Flush
pub mod Frames
mod Examples
use video_pipeline.Base.{
  ℕ, ◌+◌, ◌-◌, ◌%◌, ◌^◌, Bool, true, false, not, ◌&&◌, ◌||◌, List, [], ◌∷◌, ◌++◌, Option, none,
  some, ltb, ◌==◌, if◌then◌else◌, length,
}
use video_pipeline.Media.Bitstream.{is_empty}
use video_pipeline.Media.Wire.{write_u16}

abbrev pub Buffer : Type 0
Buffer = List ℕ

-- What the closed handler is told: no error, a full queue, or the error of a write.
pub data Reason : Type 0 where
  no_error : Reason
  no_buffer_space : Reason
  write_error : ℕ → Reason

pub record Writer : Type 0 where
  pub write_queue : List Buffer
  pub queued_write_bytes : ℕ
  pub writing : Bool
  pub closed : Bool
  pub close_after_write : Bool
  pub started : List Buffer
  pub closings : List Reason

abbrev pub new_writer : Writer
new_writer = record {
  write_queue = [];
  queued_write_bytes = 0;
  writing = false;
  closed = false;
  close_after_write = false;
  started = [];
  closings = [];
}

-- CloseOnExecutor. The buffer that is being written stays in the queue.
unfoldable pub close_on_executor : Reason → Writer → Writer
close_on_executor reason w = if w.closed then w else record w {
  closed = true;
  close_after_write = true;
  write_queue = if w.writing then w.write_queue else [];
  queued_write_bytes = if w.writing then w.queued_write_bytes else 0;
  closings = w.closings ++ reason ∷ [];
}

-- DoWrite on the queue.
pub write_front : List Buffer → Writer → Writer
unfolding close_on_executor
write_front [] w = if not w.closed && w.close_after_write then close_on_executor no_error w else w
write_front (front ∷ queue) w =
    if w.closed || w.writing
    then w
    else record w { writing = true; started = w.started ++ front ∷ [] }

unfoldable pub do_write : Writer → Writer
unfolding write_front
do_write w = write_front w.write_queue w

-- The completion of a write that went well. An empty queue has no front, and is never met.
pub written : List Buffer → Writer → Writer
unfolding close_on_executor do_write
written [] w = w
written (front ∷ queue) w =
    let left = record w {
      write_queue = queue;
      queued_write_bytes = (w.queued_write_bytes + (2 ^ 64 - length front % 2 ^ 64)) % 2 ^ 64;
    } in
    if is_empty queue && w.close_after_write then close_on_executor no_error left else do_write left

-- The completion handler of async_write, with the error if there is one.
unfoldable pub write_completed : Option ℕ → Writer → Writer
unfolding written close_on_executor
write_completed none w = written w.write_queue (record w { writing = false })
write_completed (some ec) w = close_on_executor (write_error ec) (record w { writing = false })

-- The queue has no room for so many bytes; a limit of 0 is none.
abbrev pub is_full : ℕ → ℕ → ℕ → Bool
is_full max queued size = not (max == 0) && (ltb max queued || ltb (max - queued) size)

unfoldable pub enqueue_write : ℕ → Buffer → Writer → Writer
unfolding do_write close_on_executor
enqueue_write max data_ w =
    let queued = record w {
      queued_write_bytes = (w.queued_write_bytes + length data_) % 2 ^ 64;
      write_queue = w.write_queue ++ data_ ∷ [];
    } in
    if w.closed
    then w
    else if is_full max w.queued_write_bytes (length data_)
    then close_on_executor no_buffer_space w
    else if w.writing
    then queued
    else do_write queued

unfoldable pub close_after_flush : Writer → Writer
unfolding close_on_executor
close_after_flush w =
    let flushing = record w { close_after_write = true } in
    if w.closed
    then w
    else if not w.writing && is_empty w.write_queue
    then close_on_executor no_error flushing
    else flushing

-- BuildInterleavedFrame.
unfoldable pub build_interleaved_frame : ℕ → Buffer → Buffer
build_interleaved_frame channel payload =
    write_u16 2 (length payload % 2 ^ 16) (b'$' ∷ channel ∷ 0 ∷ 0 ∷ []) ++ payload

unfoldable pub send_interleaved : ℕ → ℕ → Buffer → Writer → Writer
unfolding enqueue_write build_interleaved_frame
send_interleaved max channel payload w =
    enqueue_write max (build_interleaved_frame channel payload) w
