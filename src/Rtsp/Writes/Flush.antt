-- ===== src/Rtsp/Writes/Flush.antt =====
-- CloseAfterFlush: the connection closes when what waits has been written.
use video_pipeline.Base.{
  ℕ, zero, suc, ◌+◌, ◌-◌, ◌%◌, ◌^◌, ◌<◌, ◌≡◌, refl, ap, sym, ◌∙◌, true, false, not, ◌&&◌, ◌||◌,
  List, [], ◌∷◌, ◌++◌, none, arith, length, drop, subst, append-nil, append_assoc, branches,
}
use video_pipeline.Media.Bitstream.{is_empty}
use video_pipeline.Rtsp.Writes.{
  Buffer, Reason, no_error, Writer, close_on_executor, write_front, do_write, written,
  write_completed, close_after_flush,
}
use video_pipeline.Rtsp.Writes.Sound.{Reach}
use video_pipeline.Rtsp.Writes.Order.{Reach-IsSound}

-- So many writes in a row go well.
pub write_all : ℕ → Writer → Writer
write_all zero w = w
write_all (suc n) w = write_all n (write_completed none w)

-- An open connection that will close once its queue is empty, what it has written, and what waits.
record IsFlushing (queue begun : List Buffer) (w : Writer) : Type 0 where
  waits : w.write_queue ≡ queue
  is_open : w.closed ≡ false
  closing : w.close_after_write ≡ true
  begun_so_far : w.started ≡ begun

-- All has been written, and the connection is closed.
abbrev Done : List Buffer → Writer → Type 0
Done all w = (w.closed ≡ true) × (w.started ≡ all)

close_on_executor-Done :
    (all : List Buffer) (reason : Reason) (w : Writer)
    → w.started ≡ all
    → Done all (close_on_executor reason w)
unfolding close_on_executor
close_on_executor-Done all reason w h = branches (Done all) w.closed (λ e. (e, h)) (λ e. (refl, h))

last_write :
    (front : Buffer) (begun : List Buffer) (w : Writer)
    → IsFlushing (front ∷ []) begun w
    → Done begun (write_completed none w)
unfolding write_completed written
last_write front begun w f =
    subst (λ q. Done begun (written q (record w { writing = false }))) (sym f.waits)
      (branches (Done begun) w.close_after_write
        (λ e.
          close_on_executor-Done begun no_error
            (record w {
              write_queue = [];
              queued_write_bytes =
                  (w.queued_write_bytes + (2 ^ 64 - length front % 2 ^ 64)) % 2 ^ 64;
              writing = false;
            })
            f.begun_so_far)
        (λ e. absurd (ground (arith, f.closing))))

next_write :
    (front next : Buffer) (queue begun : List Buffer) (w : Writer)
    → IsFlushing (front ∷ next ∷ queue) begun w
    → IsFlushing (next ∷ queue) (begun ++ next ∷ []) (write_completed none w)
unfolding write_completed written do_write write_front
next_write front next queue begun w f =
    let Next = IsFlushing (next ∷ queue) (begun ++ next ∷ []) in
    subst (λ q. Next (written q (record w { writing = false }))) (sym f.waits)
      (branches Next (w.closed || false) (λ e. absurd (ground (arith, f.is_open)))
        (λ e. record {
          waits = refl;
          is_open = f.is_open;
          closing = f.closing;
          begun_so_far = ap (λ q. q ++ next ∷ []) f.begun_so_far;
        }))

flushed :
    (front : Buffer) (queue begun : List Buffer) (w : Writer)
    → IsFlushing (front ∷ queue) begun w
    → Done (begun ++ queue) (write_all (length (front ∷ queue)) w)
unfolding write_all
flushed front [] begun w f =
    let (e, g) = last_write front begun w f in (e, g ∙ sym (append-nil begun))
flushed front (next ∷ queue) begun w f =
    let (e, g) =
      flushed next queue (begun ++ next ∷ []) (write_completed none w)
        (next_write front next queue begun w f) in
    (e, g ∙ append_assoc begun (next ∷ []) queue)

-- The flush of an open connection, by its queue.
flush_queue :
    (queue begun : List Buffer) (w : Writer)
    → w.write_queue ≡ queue
    → w.closed ≡ false
    → w.writing ≡ not (is_empty queue)
    → w.started ≡ begun
    → Done (begun ++ drop 1 queue) (write_all (length queue) (close_after_flush w))
unfolding close_after_flush write_all
flush_queue [] begun w same e busy b =
    let All = λ (v : Writer). Done (begun ++ []) v in
    branches All w.closed (λ f. absurd (ground arith))
      (λ f.
        branches All (not w.writing && is_empty w.write_queue)
          (λ g.
            close_on_executor-Done (begun ++ []) no_error (record w { close_after_write = true })
              (b ∙ sym (append-nil begun)))
          (λ g. absurd (ground (arith, busy, ap is_empty same))))
flush_queue (front ∷ queue) begun w same e busy b =
    let All = λ (v : Writer). Done (begun ++ queue) (write_all (length (front ∷ queue)) v) in
    branches All w.closed (λ f. absurd (ground arith))
      (λ f.
        branches All (not w.writing && is_empty w.write_queue) (λ g. absurd (ground (arith, busy)))
          (λ g.
            flushed front queue begun _
              (record { waits = same; is_open = e; closing = refl; begun_so_far = b })))

-- CloseAfterFlush on an open connection that was reached in any way: once as many writes as there are buffers
-- in the queue have gone well, and nothing more was sent, the connection is closed, and all that was to be
-- sent has been written in order.
pub close_after_flush-closes :
    (max : ℕ) (sent : List Buffer) (w : Writer)
    → max < 2 ^ 64
    → Reach max sent w
    → w.closed ≡ false
    → let t = write_all (length w.write_queue) (close_after_flush w) in
      (t.closed ≡ true) × (t.started ≡ sent)
close_after_flush-closes max sent w small r e =
    let o = (Reach-IsSound max sent w small r).while_open e in
    let (closed, order) = flush_queue w.write_queue w.started w refl e o.busy refl in
    (closed, order ∙ o.complete)
