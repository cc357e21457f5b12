-- ===== src/Rtsp/Writes/Order.antt =====
-- The write queue of a connection over every order of sends, completions and closings.
use video_pipeline.Base.{
  ℕ, ◌+◌, ◌%◌, ◌^◌, ◌<◌, ◌≡◌, refl, ap, sym, ◌∙◌, true, false, not, List, [], ◌∷◌, ◌++◌, arith,
  if◌then◌else◌, length, drop, branches, append_assoc,
}
use video_pipeline.Media.Bitstream.{is_empty}
use video_pipeline.Rtsp.Writes.{Buffer, no_buffer_space, Writer, do_write, is_full, enqueue_write}
use video_pipeline.Rtsp.Writes.Sound.{
  Reach, begins, sends, completes, flushes, closes, total, IsKept, IsOpen, IsSound,
  close_on_executor-IsSound, write_front-IsSound, write_completed-IsSound,
  close_after_flush-IsSound,
}

total-append : (bs : List Buffer) (b : Buffer) → total (bs ++ b ∷ []) ≡ total bs + length b
total-append [] b = omega arith
total-append (a ∷ bs) b = omega (arith, total-append bs b)

not_empty-append : (bs : List Buffer) (b : Buffer) → is_empty (bs ++ b ∷ []) ≡ false
not_empty-append [] b = refl
not_empty-append (a ∷ bs) b = refl

-- One more buffer is to be sent.
longer_IsKept :
    (max : ℕ) (sent : List Buffer) (b : Buffer) (w : Writer)
    → IsKept max sent w
    → IsKept max (sent ++ b ∷ []) w
longer_IsKept max sent b w k = record {
  counted = k.counted;
  bounded = k.bounded;
  closed_once = k.closed_once;
  unwritten = k.unwritten ++ b ∷ [];
  in_order = sym (append_assoc w.started k.unwritten (b ∷ [])) ∙ ap (λ q. q ++ b ∷ []) k.in_order;
  in_flight = k.in_flight;
}

abbrev queued : Buffer → Writer → Writer
queued b w = record w {
  queued_write_bytes = (w.queued_write_bytes + length b) % 2 ^ 64;
  write_queue = w.write_queue ++ b ∷ [];
}

queued_IsKept :
    (max : ℕ) (sent : List Buffer) (b : Buffer) (w : Writer)
    → max < 2 ^ 64
    → is_full max w.queued_write_bytes (length b) ≡ false
    → IsKept max sent w
    → IsKept max (sent ++ b ∷ []) (queued b w)
queued_IsKept max sent b w small room k =
    let more = longer_IsKept max sent b w k in
    let bytes = total-append w.write_queue b in
    record {
      counted = omega (arith, k.counted, bytes);
      bounded = λ h. ground (arith, k.bounded h, k.counted, bytes, room);
      closed_once = k.closed_once;
      unwritten = more.unwritten;
      in_order = more.in_order;
      in_flight = λ _. not_empty-append w.write_queue b;
    }

-- Behind a queue that is empty or not, in the order of sending.
drop-append_one :
    (q : List Buffer) (b : Buffer) → is_empty q ≡ false → drop 1 (q ++ b ∷ []) ≡ drop 1 q ++ b ∷ []
drop-append_one [] b h = absurd (cc)
drop-append_one (a ∷ q) b h = refl

empty_queue : (q : List Buffer) → is_empty q ≡ true → drop 1 q ≡ q
empty_queue [] h = refl
empty_queue (a ∷ q) h = absurd (cc)

-- There is room in an open connection.
room :
    (max : ℕ) (sent : List Buffer) (b : Buffer) (w : Writer)
    → IsKept max sent w
    → IsOpen sent w
    → IsKept max (sent ++ b ∷ []) (queued b w)
    → IsSound max (sent ++ b ∷ []) (if w.writing then queued b w else do_write (queued b w))
unfolding do_write
room max sent b w s o k =
    let order : w.started ++ (drop 1 w.write_queue ++ b ∷ []) ≡ sent ++ b ∷ [] =
      sym (append_assoc w.started (drop 1 w.write_queue) (b ∷ []))
      ∙ ap (λ q. q ++ b ∷ []) o.complete in
    let later = not_empty-append w.write_queue b in
    branches (IsSound max (sent ++ b ∷ [])) w.writing
      (λ g. record {
        kept = k;
        while_open = λ _. record {
          busy = g ∙ ap not (sym later);
          flushing = λ _. later;
          complete =
              ap (λ q. w.started ++ q) (drop-append_one w.write_queue b (s.in_flight g)) ∙ order;
        };
      })
      (λ g.
        let nothing = empty_queue w.write_queue (ground (arith, o.busy, g)) in
        write_front-IsSound max _ (w.write_queue ++ b ∷ []) (queued b w) refl k g
          (λ _. ap (λ q. w.started ++ (q ++ b ∷ [])) (sym nothing) ∙ order))

enqueue_write-IsSound :
    (max : ℕ) (sent : List Buffer) (b : Buffer) (w : Writer)
    → max < 2 ^ 64
    → IsSound max sent w
    → IsSound max (sent ++ b ∷ []) (enqueue_write max b w)
unfolding enqueue_write do_write
enqueue_write-IsSound max sent b w small s =
    let longer = longer_IsKept max sent b w s.kept in
    let Goal = IsSound max (sent ++ b ∷ []) in
    branches Goal w.closed (λ e. record { kept = longer; while_open = λ f. absurd (cc) })
      (λ e.
        branches Goal (is_full max w.queued_write_bytes (length b))
          (λ f. close_on_executor-IsSound max _ no_buffer_space w longer (λ g. absurd (cc)))
          (λ f.
            room max sent b w s.kept (s.while_open e) (queued_IsKept max sent b w small f s.kept)))

-- Over every order of sends, completions of writes with or without an error, flushes and closings: the count
-- of bytes is that of the queue, which keeps to its limit if there is one; the closed handler has been called
-- once if the connection is closed, and never before; what is written is what was to be sent, in order, up to
-- some point; and a connection that is open has lost nothing, has a write under way as long as something
-- waits, and waits with a flush only as long as something is left.
pub Reach-IsSound :
    (max : ℕ) (sent : List Buffer) (w : Writer)
    → max < 2 ^ 64
    → Reach max sent w
    → IsSound max sent w
Reach-IsSound max sent w small begins = record {
  kept = record {
    counted = omega arith;
    bounded = λ h. omega arith;
    closed_once = refl;
    unwritten = [];
    in_order = refl;
    in_flight = λ h. absurd (cc);
  };
  while_open = λ h. record { busy = refl; flushing = λ g. absurd (cc); complete = refl };
}
Reach-IsSound max sent w small (sends {sent = sent'} {w = w'} b r) =
    enqueue_write-IsSound max sent' b w' small (Reach-IsSound max sent' w' small r)
Reach-IsSound max sent w small (completes {w = w'} ec busy r) =
    write_completed-IsSound max sent ec w' busy (Reach-IsSound max sent w' small r)
Reach-IsSound max sent w small (flushes {w = w'} r) =
    close_after_flush-IsSound max sent w' (Reach-IsSound max sent w' small r)
Reach-IsSound max sent w small (closes {w = w'} reason r) =
    let s = Reach-IsSound max sent w' small r in
    close_on_executor-IsSound max sent reason w' s.kept (λ _. s)
