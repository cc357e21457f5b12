-- ===== src/Rtsp/Connection/Turns.antt =====
-- RtspConnection: a round of the loop over the read buffer when more bytes come.
use video_pipeline.Base.{
  ℕ, ◌<◌, ◌≡◌, ◌≢◌, ◌⊎◌, inl, inr, refl, ap₂, sym, subst, Bool, true, false, ◌||◌, List, [], ◌++◌,
  length, Bool-cases,
}
use video_pipeline.Media.Bitstream.{is_empty}
use video_pipeline.Rtsp.RequestParser.{RtspRequest}
use video_pipeline.Rtsp.Connection.{
  Item, partial, frame, message, broken, Event, request, interleaved_frame, parse_error, Answer,
  goes_on, closes, closes_after_flush, Connection, answered, Turn, ends, again, turn_on,
}
use video_pipeline.Rtsp.Connection.Items.{Grows, Shorter}

pub or-true : (b : Bool) → (b || true) ≡ true
or-true true = refl
or-true false = refl

pub or-false : (a b : Bool) → (a || b) ≡ false → (a ≡ false) × (b ≡ false)
or-false true b h = absurd (cc)
or-false false b h = (refl, h)

module _ {ℓ} {S : Type ℓ} where
  abbrev pub stopped : Connection S → Bool
  stopped c = c.closed || c.close_after_write

  -- The connection with more bytes in its buffer.
  abbrev pub fed : Connection S → List ℕ → Connection S
  fed c more = record c { read_buffer = c.read_buffer ++ more }

  -- A handler that never closes behind a flush but on an error, where it does not go on, and does the same
  -- wherever the error is.
  pub record Prompt (handle : S → Event → S × Answer) : Type ℓ where
    pub on_request : (s : S) (r : RtspRequest) → (handle s (request r)).1 ≢ closes_after_flush
    pub on_frame :
        (s : S) (channel : ℕ) (payload : List ℕ)
        → (handle s (interleaved_frame channel payload)).1 ≢ closes_after_flush
    pub on_error : (s : S) (offset : ℕ) → (handle s (parse_error offset)).1 ≢ goes_on
    pub any_error :
        (s : S) (offset offset' : ℕ)
        → handle s (parse_error offset) ≡ handle s (parse_error offset')

  -- How a round goes when there are more bytes.
  unfoldable pub More : Connection S → List ℕ → Turn S → Turn S → Type ℓ
  More c more (ends c') t = (c' ≡ c) ⊎ ((stopped c' ≡ true) × (t ≡ ends c'))
  More c more (again c') t =
      ((c'.closed ≡ true) × (t ≡ again c'))
      ⊎ ((stopped c' ≡ false)
          × (t ≡ again (fed c' more))
          × (length c'.read_buffer < length c.read_buffer))

  answered-More :
      (c left : Connection S) (more : List ℕ) (p : S × Answer)
      → p.1 ≢ closes_after_flush
      → stopped left ≡ false
      → length left.read_buffer < length c.read_buffer
      → More c more (again (answered left p)) (again (answered (fed left more) p))
  unfolding More answered
  answered-More c left more (s, goes_on) h e shorter = inr (e, refl, shorter)
  answered-More c left more (s, closes) h e shorter = inl (refl, refl)
  answered-More c left more (s, closes_after_flush) h e shorter = absurd (h refl)

  error-More :
      (c left : Connection S) (more : List ℕ) (p : S × Answer)
      → p.1 ≢ goes_on
      → More c more (ends (answered left p)) (ends (answered left p))
  unfolding More answered
  error-More c left more (s, goes_on) h = absurd (h refl)
  error-More c left more (s, closes) h = inr (refl, refl)
  error-More c left more (s, closes_after_flush) h = inr (or-true left.closed, refl)

  pub turn_on-More :
      (handle : S → Event → S × Answer)
      → Prompt handle
      → (c : Connection S) (more : List ℕ) (i j : Item) → stopped c ≡ false
      → Grows more i j
      → Shorter (length c.read_buffer) i
      → More c more (turn_on handle c i) (turn_on handle (fed c more) j)
  unfolding turn_on More
  turn_on-More handle p c more partial j e g h = inl refl
  turn_on-More handle p c more (frame ch payload rest) j e g h =
      subst
        (λ k.
          More c more (turn_on handle c (frame ch payload rest)) (turn_on handle (fed c more) k))
        (sym g)
        (elim (Bool-cases (is_empty payload)) [
          | inl n ↦ rw n (inr (e, refl, h))
          | inr n ↦ rw n (
              answered-More c (record c { read_buffer = rest }) more
                (handle c.session (interleaved_frame ch payload)) (p.on_frame c.session ch payload)
                e h)
        ])
  turn_on-More handle p c more (message r rest) j e g h =
      subst (λ k. More c more (turn_on handle c (message r rest)) (turn_on handle (fed c more) k))
        (sym g)
        (answered-More c (record c { read_buffer = rest }) more (handle c.session (request r))
          (p.on_request c.session r) e h)
  turn_on-More handle p c more (broken offset) j e (offset', g) h =
      let left = record c { read_buffer = [] } in
      subst (λ k. More c more (turn_on handle c (broken offset)) (turn_on handle (fed c more) k))
        (sym g)
        (subst
          (λ r.
            More c more (ends (answered left (handle c.session (parse_error offset))))
              (ends (answered left r)))
          (p.any_error c.session offset offset')
          (error-More c left more (handle c.session (parse_error offset))
            (p.on_error c.session offset)))

  -- A connection that still reads.
  abbrev pub open_at : S → List ℕ → Connection S
  open_at s buffer = record {
    session = s;
    read_buffer = buffer;
    closed = false;
    close_after_write = false;
  }

  pub is-open : (c : Connection S) → stopped c ≡ false → c ≡ open_at c.session c.read_buffer
  is-open c e =
      let (a, b) = or-false c.closed c.close_after_write e in
      ap₂
        (λ x y. record {
          session = c.session;
          read_buffer = c.read_buffer;
          closed = x;
          close_after_write = y;
        })
        a b
