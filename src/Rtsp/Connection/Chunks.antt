-- ===== src/Rtsp/Connection/Chunks.antt =====
-- RtspConnection: what is read does not depend on how the bytes are cut into chunks.
use video_pipeline.Base.{
  ℕ, zero, suc, ◌+◌, ◌<◌, ◌≡◌, inl, inr, refl, ap, sym, subst, ◌∙◌, true, ◌||◌, List, [], ◌∷◌, ◌++◌,
  append-nil, append_assoc, arith, if◌then◌else◌, length, length-append, Bool-cases,
}
use video_pipeline.Media.Bitstream.{is_empty}
use video_pipeline.Rtsp.RequestParser.{Limits}
use video_pipeline.Rtsp.Connection.{
  next_item, Event, Answer, Connection, Turn, ends, again, turn_on, turn, process, receive,
}
use video_pipeline.Rtsp.Connection.Items.{next_item-Grows, next_item-Shorter}
use video_pipeline.Rtsp.Connection.Turns.{
  or-true, stopped, fed, Prompt, More, turn_on-More, open_at, is-open,
}

module _ {ℓ} {S : Type ℓ} where
  -- The chunks one after the other.
  unfoldable pub receive_all :
      Limits → (S → Event → S × Answer) → Connection S → List (List ℕ) → Connection S
  receive_all limits handle c [] = c
  receive_all limits handle c (chunk ∷ chunks) =
      receive_all limits handle (receive limits handle c chunk) chunks

pub concat : List (List ℕ) → List ℕ
concat [] = []
concat (chunk ∷ chunks) = chunk ++ concat chunks

module _ {ℓ} {S : Type ℓ} where
  module _ (limits : Limits) (handle : S → Event → S × Answer) (p : Prompt handle) where
    turn-More :
        (s : S) (buffer more : List ℕ)
        → More
            (open_at s buffer)
            more
            (turn limits handle (open_at s buffer))
            (turn limits handle (open_at s (buffer ++ more)))
    unfolding turn More
    turn-More s [] more = inl refl
    turn-More s (x ∷ xs) more =
        turn_on-More handle p (open_at s (x ∷ xs)) more _ _ refl (next_item-Grows limits x xs more)
          (next_item-Shorter limits x xs)

    abbrev after : ℕ → Turn S → Connection S
    after fuel (ends c) = c
    after fuel (again c) = process limits handle fuel c

    process-suc :
        (fuel : ℕ) (c : Connection S)
        → process limits handle (suc fuel) c ≡ after fuel (turn limits handle c)
    unfolding process
    process-suc fuel c = ground arith

    turn-closed : (c : Connection S) → c.closed ≡ true → turn limits handle c ≡ ends c
    unfolding turn
    turn-closed c e =
        ap (λ b. if b then ends c else turn_on handle c (next_item limits c.read_buffer))
          (ap (λ b. is_empty c.read_buffer || b) e ∙ or-true (is_empty c.read_buffer))

    process-closed :
        (fuel : ℕ) (c : Connection S) → c.closed ≡ true → process limits handle fuel c ≡ c
    process-closed zero c e = unfold process in refl
    process-closed (suc fuel) c e = process-suc fuel c ∙ ap (after fuel) (turn-closed c e)

    receive-open :
        (s : S) (buffer more : List ℕ)
        → receive limits handle (open_at s buffer) more
          ≡ process limits handle (suc (length (buffer ++ more))) (open_at s (buffer ++ more))
    unfolding receive
    receive-open s buffer more = refl

    receive-stopped :
        (c : Connection S) (more : List ℕ) → stopped c ≡ true → receive limits handle c more ≡ c
    unfolding receive
    receive-stopped c more e = rw e refl

    fuel_irrelevant :
        (f g : ℕ) (c : Connection S) (more : List ℕ) (t t' : Turn S)
        → More c more t t'
        → length c.read_buffer < suc f
        → length c.read_buffer < suc g
        → ((s : S) (buffer : List ℕ)
            → length buffer < f
            → length buffer < g
            → process limits handle f (open_at s buffer)
              ≡ process limits handle g (open_at s buffer))
        → after f t ≡ after g t
    unfolding More
    fuel_irrelevant f g c more (ends c') t' m hf hg ih = refl
    fuel_irrelevant f g c more (again c') t' (inl (e, _)) hf hg ih =
        process-closed f c' e ∙ sym (process-closed g c' e)
    fuel_irrelevant f g c more (again c') t' (inr (e, _, shorter)) hf hg ih =
        subst (λ d. process limits handle f d ≡ process limits handle g d) (sym (is-open c' e))
          (ih c'.session c'.read_buffer (omega arith) (omega arith))

    -- More rounds than there are bytes are enough.
    pub process-fuel :
        (f g : ℕ) (s : S) (buffer : List ℕ)
        → length buffer < f
        → length buffer < g
        → process limits handle f (open_at s buffer) ≡ process limits handle g (open_at s buffer)
    process-fuel zero g s buffer hf hg = absurd (omega arith)
    process-fuel (suc f) zero s buffer hf hg = absurd (omega arith)
    process-fuel (suc f) (suc g) s buffer hf hg =
        process-suc f (open_at s buffer)
        ∙ fuel_irrelevant f g (open_at s buffer) [] _ _ (turn-More s buffer []) hf hg
            (process-fuel f g)
        ∙ sym (process-suc g (open_at s buffer))

    still_reads :
        (f g : ℕ) (c : Connection S) (more : List ℕ) (t t' : Turn S)
        → More c more t t'
        → after g t' ≡ receive limits handle c more
        → length c.read_buffer < suc f
        → length c.read_buffer + length more < suc g
        → ((s : S) (buffer : List ℕ)
            → length buffer < f
            → length buffer + length more < g
            → process limits handle g (open_at s (buffer ++ more))
              ≡ receive limits handle (process limits handle f (open_at s buffer)) more)
        → after g t' ≡ receive limits handle (after f t) more
    unfolding More
    still_reads f g c more (ends c') t' (inl e) waits hf hg ih =
        waits ∙ ap (λ d. receive limits handle d more) (sym e)
    still_reads f g c more (ends c') t' (inr (stop, e)) waits hf hg ih =
        ap (after g) e ∙ sym (receive-stopped c' more stop)
    still_reads f g c more (again c') t' (inl (stop, e)) waits hf hg ih =
        ap (after g) e
        ∙ process-closed g c' stop
        ∙ sym (
            ap (λ d. receive limits handle d more) (process-closed f c' stop)
            ∙ receive-stopped c' more (ap (λ b. b || c'.close_after_write) stop))
    still_reads f g c more (again c') t' (inr (e, k, shorter)) waits hf hg ih =
        ap (after g) k
        ∙ subst
            (λ d.
              process limits handle g (fed d more)
              ≡ receive limits handle (process limits handle f d) more)
            (sym (is-open c' e)) (ih c'.session c'.read_buffer (omega arith) (omega arith))

    process-more :
        (f g : ℕ) (s : S) (buffer more : List ℕ)
        → length buffer < f
        → length buffer + length more < g
        → process limits handle g (open_at s (buffer ++ more))
          ≡ receive limits handle (process limits handle f (open_at s buffer)) more
    process-more zero g s buffer more hf hg = absurd (omega arith)
    process-more (suc f) zero s buffer more hf hg = absurd (omega arith)
    process-more (suc f) (suc g) s buffer more hf hg =
        let c = open_at s buffer in
        let waits =
          process-fuel (suc g) (suc (length (buffer ++ more))) s (buffer ++ more)
            (omega (arith, length-append buffer more)) (omega arith) in
        process-suc g (open_at s (buffer ++ more))
        ∙ still_reads f g c more _ _ (turn-More s buffer more)
            (sym (process-suc g (open_at s (buffer ++ more)))
              ∙ waits
              ∙ sym (receive-open s buffer more))
            hf hg (λ s' buffer'. process-more f g s' buffer' more)
        ∙ ap (λ d. receive limits handle d more) (sym (process-suc f c))

    open-append :
        (s : S) (buffer first second : List ℕ)
        → receive limits handle (receive limits handle (open_at s buffer) first) second
          ≡ receive limits handle (open_at s buffer) (first ++ second)
    open-append s buffer first second =
        let size = length-append (buffer ++ first) second in
        let fuel = suc (length (buffer ++ first) + length second) in
        let all = buffer ++ (first ++ second) in
        let same = append_assoc buffer first second in
        ap (λ d. receive limits handle d second) (receive-open s buffer first)
        ∙ sym (
            process-more (suc (length (buffer ++ first))) fuel s (buffer ++ first) second
              (omega arith) (omega arith))
        ∙ ap (λ l. process limits handle fuel (open_at s l)) same
        ∙ process-fuel fuel (suc (length all)) s all (omega (arith, size, ap length same))
            (omega arith)
        ∙ sym (receive-open s buffer (first ++ second))

    -- Two chunks.
    receive-append :
        (c : Connection S) (first second : List ℕ)
        → receive limits handle (receive limits handle c first) second
          ≡ receive limits handle c (first ++ second)
    receive-append c first second = elim (Bool-cases (stopped c)) [
      | inl e ↦
          ap (λ d. receive limits handle d second) (receive-stopped c first e)
          ∙ receive-stopped c second e
          ∙ sym (receive-stopped c (first ++ second) e)
      | inr e ↦
          subst
            (λ d.
              receive limits handle (receive limits handle d first) second
              ≡ receive limits handle d (first ++ second))
            (sym (is-open c e)) (open-append c.session c.read_buffer first second)
    ]

    -- A connection whose handlers close it behind a flush on errors only, and on an error do not go on and
    -- do the same whatever its offset is, ends in the same state however the bytes that come are cut into
    -- chunks, the state of the handlers and the bytes that are left included.
    pub receive_all_lem :
        (c : Connection S) (first : List ℕ) (chunks : List (List ℕ))
        → receive_all limits handle c (first ∷ chunks)
          ≡ receive limits handle c (first ++ concat chunks)
    unfolding receive_all concat
    receive_all_lem c first [] = ap (receive limits handle c) (sym (append-nil first))
    receive_all_lem c first (second ∷ chunks) =
        receive_all_lem (receive limits handle c first) second chunks
        ∙ receive-append c first (second ++ concat chunks)
