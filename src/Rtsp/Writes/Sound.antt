-- ===== src/Rtsp/Writes/Sound.antt =====
-- What holds of a connection's write queue, and that completions of writes, flushes and closings keep it.
use video_pipeline.Base.{
  ℕ, ◌+◌, ◌-◌, ◌%◌, ◌^◌, ◌≤◌, ◌≡◌, ◌≢◌, refl, ap, sym, ◌∙◌, inl, inr, true, false, not, ◌&&◌, List,
  [], ◌∷◌, ◌++◌, Option, none, some, arith, if◌then◌else◌, length, drop, Bool-cases, branches,
  length-append, append_assoc,
}
use video_pipeline.Media.Bitstream.{is_empty}
use video_pipeline.Rtsp.Writes.{
  Buffer, Reason, no_error, write_error, Writer, new_writer, close_on_executor, write_front,
  do_write, written, write_completed, enqueue_write, close_after_flush,
}

-- What can be reached, with the buffers that were to be sent so far, in order.
pub data Reach (max : ℕ) : List Buffer → Writer → Type 0 where
  begins : Reach max [] new_writer
  sends :
      {sent : List Buffer} {w : Writer} (data_ : Buffer)
      → Reach max sent w
      → Reach max (sent ++ data_ ∷ []) (enqueue_write max data_ w)
  completes :
      {sent : List Buffer} {w : Writer} (ec : Option ℕ)
      → w.writing ≡ true
      → Reach max sent w
      → Reach max sent (write_completed ec w)
  flushes :
      {sent : List Buffer} {w : Writer} → Reach max sent w → Reach max sent (close_after_flush w)
  closes :
      {sent : List Buffer} {w : Writer} (reason : Reason)
      → Reach max sent w
      → Reach max sent (close_on_executor reason w)

abbrev pub total : List Buffer → ℕ
total [] = 0
total (b ∷ bs) = length b + total bs

-- What holds of a writer, closed or not: its count of bytes, its bound, the calls of the closed handler, and
-- that only buffers to be sent are written, in order.
pub record IsKept (max : ℕ) (sent : List Buffer) (w : Writer) : Type 0 where
  pub counted : w.queued_write_bytes ≡ total w.write_queue % 2 ^ 64
  pub bounded : max ≢ 0 → total w.write_queue ≤ max
  pub closed_once : length w.closings ≡ (if w.closed then 1 else 0)
  pub unwritten : List Buffer
  pub in_order : w.started ++ unwritten ≡ sent
  pub in_flight : w.writing ≡ true → is_empty w.write_queue ≡ false

-- A connection that is not closed: a write is under way as long as something waits, a flush that is done
-- closes it, and nothing that was to be sent is lost.
pub record IsOpen (sent : List Buffer) (w : Writer) : Type 0 where
  pub busy : w.writing ≡ not (is_empty w.write_queue)
  pub flushing : w.close_after_write ≡ true → is_empty w.write_queue ≡ false
  pub complete : w.started ++ drop 1 w.write_queue ≡ sent

pub record IsSound (max : ℕ) (sent : List Buffer) (w : Writer) : Type 0 where
  pub kept : IsKept max sent w
  pub while_open : w.closed ≡ false → IsOpen sent w

pub close_on_executor-IsSound :
    (max : ℕ) (sent : List Buffer) (reason : Reason) (w : Writer)
    → IsKept max sent w
    → (w.closed ≡ true → IsSound max sent w)
    → IsSound max sent (close_on_executor reason w)
unfolding close_on_executor
close_on_executor-IsSound max sent reason w k as_is = elim (Bool-cases w.closed) [
  | inl e ↦ simp (e) (as_is e)
  | inr e ↦
      let none_yet : length w.closings ≡ 0 = rw e at k.closed_once in
      let once : length (w.closings ++ reason ∷ []) ≡ 1 =
        omega (arith, length-append w.closings (reason ∷ []), none_yet) in
      elim (Bool-cases w.writing) [
        | inl f ↦
            rw (e, f)
              (record {
                kept = record {
                  counted = k.counted;
                  bounded = k.bounded;
                  closed_once = once;
                  unwritten = k.unwritten;
                  in_order = k.in_order;
                  in_flight = λ _. k.in_flight f;
                };
                while_open = λ h. absurd (cc);
              })
        | inr f ↦
            rw (e, f)
              (record {
                kept = record {
                  counted = omega arith;
                  bounded = λ h. omega arith;
                  closed_once = once;
                  unwritten = k.unwritten;
                  in_order = k.in_order;
                  in_flight = λ h. absurd (cc);
                };
                while_open = λ h. absurd (cc);
              })
      ]
]

-- DoWrite at a time when no write is under way.
pub write_front-IsSound :
    (max : ℕ) (sent queue : List Buffer) (w : Writer)
    → w.write_queue ≡ queue
    → IsKept max sent w
    → w.writing ≡ false
    → (w.closed ≡ false → w.started ++ queue ≡ sent)
    → IsSound max sent (write_front queue w)
unfolding write_front
write_front-IsSound max sent [] w same k idle whole =
    elim (Bool-cases (not w.closed && w.close_after_write)) [
      | inl e ↦
          simp (e) (close_on_executor-IsSound max sent no_error w k (λ f. absurd (ground arith)))
      | inr e ↦ simp (e) (record {
        kept = k;
        while_open = λ f. record {
          busy = idle ∙ ap (λ q. not (is_empty q)) (sym same);
          flushing = λ g. absurd (ground arith);
          complete = ap (λ q. w.started ++ drop 1 q) same ∙ whole f;
        };
      })
    ]
write_front-IsSound max sent (front ∷ queue) w same k idle whole = elim (Bool-cases w.closed) [
  | inl e ↦ simp (e) (record { kept = k; while_open = λ f. absurd (cc) })
  | inr e ↦
      let order : (w.started ++ front ∷ []) ++ queue ≡ sent =
        append_assoc w.started (front ∷ []) queue ∙ whole e in
      simp (e, idle)
        (record {
          kept = record {
            counted = k.counted;
            bounded = k.bounded;
            closed_once = rw e at k.closed_once;
            unwritten = queue;
            in_order = order;
            in_flight = λ _. ap is_empty same;
          };
          while_open = λ _. record {
            busy = ap (λ q. not (is_empty q)) (sym same);
            flushing = λ _. ap is_empty same;
            complete = ap (λ q. (w.started ++ front ∷ []) ++ drop 1 q) same ∙ order;
          };
        })
]

-- The front of the queue has been written.
left_IsKept :
    (max : ℕ) (sent queue : List Buffer) (front : Buffer) (w : Writer)
    → w.write_queue ≡ front ∷ queue
    → IsKept max sent w
    → IsKept max sent (record w {
      write_queue = queue;
      queued_write_bytes = (w.queued_write_bytes + (2 ^ 64 - length front % 2 ^ 64)) % 2 ^ 64;
      writing = false;
    })
left_IsKept max sent queue front w same k =
    let bytes = ap total same in
    record {
      counted = omega (arith, k.counted, bytes);
      bounded = λ h. omega (arith, k.bounded h, bytes);
      closed_once = k.closed_once;
      unwritten = k.unwritten;
      in_order = k.in_order;
      in_flight = λ h. absurd (cc);
    }

idle_IsKept :
    (max : ℕ) (sent : List Buffer) (w : Writer)
    → IsKept max sent w
    → IsKept max sent (record w { writing = false })
idle_IsKept max sent w k = record {
  counted = k.counted;
  bounded = k.bounded;
  closed_once = k.closed_once;
  unwritten = k.unwritten;
  in_order = k.in_order;
  in_flight = λ h. absurd (cc);
}

written-IsSound :
    (max : ℕ) (sent queue : List Buffer) (w : Writer)
    → w.write_queue ≡ queue
    → w.writing ≡ true
    → IsSound max sent w
    → IsSound max sent (written queue (record w { writing = false }))
unfolding written do_write
written-IsSound max sent [] w same busy s =
    absurd (ground (arith, s.kept.in_flight busy, ap is_empty same))
written-IsSound max sent (front ∷ queue) w same busy s =
    let k = left_IsKept max sent queue front w same s.kept in
    elim (Bool-cases (is_empty queue && w.close_after_write)) [
      | inl e ↦ simp (e) (
          close_on_executor-IsSound max sent no_error _ k
            (λ f. record { kept = k; while_open = λ g. absurd (cc) }))
      | inr e ↦ simp (e) (
          write_front-IsSound max sent queue _ refl k refl
            (λ f. ap (λ q. w.started ++ drop 1 q) (sym same) ∙ (s.while_open f).complete))
    ]

pub write_completed-IsSound :
    (max : ℕ) (sent : List Buffer) (ec : Option ℕ) (w : Writer)
    → w.writing ≡ true
    → IsSound max sent w
    → IsSound max sent (write_completed ec w)
unfolding write_completed
write_completed-IsSound max sent none w busy s =
    written-IsSound max sent w.write_queue w refl busy s
write_completed-IsSound max sent (some ec) w busy s =
    let k = idle_IsKept max sent w s.kept in
    close_on_executor-IsSound max sent (write_error ec) _ k
      (λ f. record { kept = k; while_open = λ g. absurd (cc) })

pub close_after_flush-IsSound :
    (max : ℕ) (sent : List Buffer) (w : Writer)
    → IsSound max sent w
    → IsSound max sent (close_after_flush w)
unfolding close_after_flush
close_after_flush-IsSound max sent w s =
    branches (IsSound max sent) w.closed (λ e. s)
      (λ e.
        let k : IsKept max sent (record w { close_after_write = true }) = record {
          counted = s.kept.counted;
          bounded = s.kept.bounded;
          closed_once = s.kept.closed_once;
          unwritten = s.kept.unwritten;
          in_order = s.kept.in_order;
          in_flight = s.kept.in_flight;
        } in
        branches (IsSound max sent) (not w.writing && is_empty w.write_queue)
          (λ f. close_on_executor-IsSound max sent no_error _ k (λ g. absurd (cc)))
          (λ f. record {
            kept = k;
            while_open = λ _. record {
              busy = (s.while_open e).busy;
              flushing = λ _. ground (arith, (s.while_open e).busy);
              complete = (s.while_open e).complete;
            };
          }))
