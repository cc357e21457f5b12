-- ===== src/Rtsp/Writes/Examples.antt =====
-- Two buffers to be sent, with a limit of five bytes on the queue.
use video_pipeline.Base.{◌≡◌, refl, true, false, [], ◌∷◌, ◌++◌, none, arith, length}
use video_pipeline.Rtsp.RequestParser.{Limits}
use video_pipeline.Rtsp.Connection.{frame, next_item}
use video_pipeline.Rtsp.Writes.{
  Writer, no_buffer_space, new_writer, enqueue_write, write_completed, close_after_flush,
  build_interleaved_frame,
}
use video_pipeline.Rtsp.Writes.Sound.{Reach, begins, sends, completes, IsSound}
use video_pipeline.Rtsp.Writes.Order.{Reach-IsSound}
use video_pipeline.Rtsp.Writes.Flush.{write_all, close_after_flush-closes}
use video_pipeline.Rtsp.Writes.Frames.{next_item-build_interleaved_frame}

abbrev two : Writer
two = enqueue_write 5 (3 ∷ []) (enqueue_write 5 (1 ∷ 2 ∷ []) new_writer)

two_reached : Reach 5 ((1 ∷ 2 ∷ []) ∷ (3 ∷ []) ∷ []) two
two_reached = sends (3 ∷ []) (sends (1 ∷ 2 ∷ []) begins)

-- A buffer for which there is no room closes the connection; the write under way is kept.
too_much : (enqueue_write 5 (4 ∷ 5 ∷ 6 ∷ []) two).closings ≡ no_buffer_space ∷ []
unfolding enqueue_write
too_much = refl

-- A buffer that is sent behind CloseAfterFlush is queued like any other.
sent_behind_flush :
    (write_completed none (
      enqueue_write 5
        (3 ∷ [])
        (close_after_flush (enqueue_write 5 (1 ∷ 2 ∷ []) new_writer)))).closed
    ≡ false
unfolding enqueue_write close_after_flush write_completed
sent_behind_flush = refl

one_done : Reach 5 ((1 ∷ 2 ∷ []) ∷ (3 ∷ []) ∷ []) (write_completed none two)
unfolding enqueue_write
one_done = completes none refl two_reached

Reach-IsSound_example : IsSound 5 ((1 ∷ 2 ∷ []) ∷ (3 ∷ []) ∷ []) (write_completed none two)
Reach-IsSound_example = Reach-IsSound 5 _ (write_completed none two) (omega arith) one_done

two_open : two.closed ≡ false
unfolding enqueue_write
two_open = refl

close_after_flush-closes_example :
    let t = write_all (length two.write_queue) (close_after_flush two) in
    (t.closed ≡ true) × (t.started ≡ (1 ∷ 2 ∷ []) ∷ (3 ∷ []) ∷ [])
close_after_flush-closes_example =
    close_after_flush-closes 5 _ two (omega arith) two_reached two_open

abbrev limits : Limits
limits = record {
  max_request_line_bytes = 100;
  max_header_line_bytes = 100;
  max_header_bytes = 100;
  max_body_bytes = 100;
}

next_item-build_interleaved_frame_example :
    next_item limits (build_interleaved_frame 2 (7 ∷ 8 ∷ []) ++ 9 ∷ [])
    ≡ frame 2 (7 ∷ 8 ∷ []) (9 ∷ [])
next_item-build_interleaved_frame_example =
    next_item-build_interleaved_frame limits 2 (7 ∷ 8 ∷ []) (9 ∷ []) (omega arith)
