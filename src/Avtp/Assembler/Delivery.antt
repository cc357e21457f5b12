-- ===== src/Avtp/Assembler/Delivery.antt =====
-- AvtpPayloadAssembler: an access unit that arrives without loss comes out.
use video_pipeline.Base.{
  ℕ, ◌+◌, ◌≤◌, ◌≡◌, ◌⊎◌, inl, inr, refl, sym, ap, ◌∙◌, true, false, List, [], ◌∷◌, ◌++◌, map,
  append-nil, append_assoc, Option, none, some, arith, leb, if◌then◌else◌, length, length-append,
}
use video_pipeline.Media.Bitstream.Avcc.{is_empty-eq-false}
use video_pipeline.Avtp.Parser.{zero_mac}
use video_pipeline.Avtp.Assembler.{
  AvtpAccessUnit, Fragment, Assembler, Outcome, next_sequence, init, is_same_mac, same_stream,
  switch_stream, finish_access_unit, reset_access_unit, accept, count_packet, push,
}
use video_pipeline.Avtp.Assembler.Accept.{
  appended, appended-has, appended-length, appended-kept, accept-open, accept-marked,
}
use video_pipeline.Avtp.Assembler.Soundness.{expecting, step-switch, step-next, push-step}

-- The payloads of fragments, the oldest first here.
abbrev pub joined : List Fragment → List ℕ
joined [] = []
joined (f ∷ fs) = f.fragment_payload ++ joined fs

abbrev list_of : Option AvtpAccessUnit → List AvtpAccessUnit
list_of none = []
list_of (some u) = u ∷ []

-- The access units that come out of a run of fragments.
pub outputs : Assembler → List Fragment → List AvtpAccessUnit
outputs s [] = []
outputs s (f ∷ fs) = list_of (push s f).1 ++ outputs (push s f).2 fs

-- A fragment with the sequence number, of the stream and from the MAC where it has one.
pub record Next (n stream : ℕ) (mac : List ℕ) (f : Fragment) : Type 0 where
  pub sequence : f.packet.sequence_num ≡ n
  pub one_stream : f.packet.stream_id ≡ stream
  pub sender : (f.packet.has_ethernet_header ≡ false) ⊎ (f.packet.source_mac ≡ mac)
  pub some_payload : 1 ≤ length f.fragment_payload

-- The fragments of one access unit, oldest first: numbered from `n`, with the marker on the last.
abbrev pub InOrder : ℕ → ℕ → List ℕ → List Fragment → Type 0
InOrder n stream mac [] = ⊥
InOrder n stream mac (f ∷ []) = Next n stream mac f × (f.packet.marker ≡ true)
InOrder n stream mac (f ∷ g ∷ fs) =
    Next n stream mac f × (f.packet.marker ≡ false) × InOrder (next_sequence n) stream mac (g ∷ fs)

record Live (max n stream : ℕ) (mac : List ℕ) (s : Assembler) : Type 0 where
  has : s.has_stream ≡ true
  stream_id : s.current_stream ≡ stream
  sender : s.current_mac ≡ mac
  have : s.have_expected_sequence ≡ true
  expected : s.expected_sequence ≡ n
  keeping : s.dropping_until_marker ≡ false
  size : s.max_access_unit_size ≡ max

is_same_mac_refl : (a : List ℕ) → is_same_mac a a ≡ true
unfolding is_same_mac
is_same_mac_refl [] = refl
is_same_mac_refl (x ∷ a) = ground (arith, is_same_mac_refl a)

same_stream-Next :
    (max n stream : ℕ) (mac : List ℕ) (s : Assembler) (f : Fragment)
    → Live max n stream mac s
    → Next n stream mac f
    → same_stream s f.packet ≡ true
unfolding same_stream
same_stream-Next max n stream mac s f l x = elim x.sender [
  | inl e ↦ ground (arith, l.has, l.stream_id, x.one_stream, e)
  | inr e ↦
      let same : is_same_mac f.packet.source_mac s.current_mac ≡ true =
        rw (e, l.sender) (is_same_mac_refl mac) in
      ground (arith, l.has, l.stream_id, x.one_stream, same)
]

counted-Live :
    {max n stream : ℕ} {mac : List ℕ} (s : Assembler) (f : Fragment)
    → Live max n stream mac s
    → Live max n stream mac (count_packet s f)
counted-Live s f l = record {
  has = l.has;
  stream_id = l.stream_id;
  sender = l.sender;
  have = l.have;
  expected = l.expected;
  keeping = l.keeping;
  size = l.size;
}

expecting-Live :
    {max n stream : ℕ} {mac : List ℕ} (s : Assembler) (f : Fragment)
    → Live max n stream mac s
    → Next n stream mac f
    → Live max (next_sequence n) stream mac (expecting (count_packet s f) f)
expecting-Live s f l x = record {
  has = l.has;
  stream_id = l.stream_id;
  sender = l.sender;
  have = refl;
  expected = ap next_sequence x.sequence;
  keeping = l.keeping;
  size = l.size;
}

appended-Live :
    {max n stream : ℕ} {mac : List ℕ} (s : Assembler) (f : Fragment)
    → Live max n stream mac s
    → Live max n stream mac (appended s f)
appended-Live s f l =
    let (stream, mac, dropping, have, expected, size) = appended-kept s f in
    record {
      has = appended-has s f ∙ l.has;
      stream_id = stream ∙ l.stream_id;
      sender = mac ∙ l.sender;
      have = have ∙ l.have;
      expected = expected ∙ l.expected;
      keeping = dropping ∙ l.keeping;
      size = size ∙ l.size;
    }

finish-content :
    (s : Assembler)
    → 1 ≤ length s.current
    → map (λ u. u.content) (list_of (finish_access_unit s).1) ≡ s.current ∷ []
unfolding finish_access_unit
finish-content s some_bytes = rw (is_empty-eq-false s.current some_bytes) refl

push-Next :
    (max n stream : ℕ) (mac : List ℕ) (s : Assembler) (f : Fragment)
    → Live max n stream mac s
    → Next n stream mac f
    → push s f ≡ accept (expecting (count_packet s f) f) f
push-Next max n stream mac s f l x =
    push-step s f (is_empty-eq-false f.fragment_payload x.some_payload)
    ∙ step-next (count_packet s f) f
        (same_stream-Next max n stream mac (count_packet s f) f (counted-Live s f l) x)
        (ground (arith, l.have, l.expected, x.sequence))

room :
    {max n stream : ℕ} {mac : List ℕ} (s : Assembler) (f : Fragment)
    → Live max n stream mac s
    → length s.current + length f.fragment_payload ≤ max
    → leb (length s.current + length f.fragment_payload) s.max_access_unit_size ≡ true
room s f l fits = ground (arith, l.size, fits)

InOrder-Next :
    (fs : List Fragment) {n stream : ℕ} {mac : List ℕ} {f : Fragment}
    → InOrder n stream mac (f ∷ fs)
    → Next n stream mac f
InOrder-Next [] h = h.0
InOrder-Next (g ∷ fs) h = h.0

-- What comes out of a run once its first fragment has given an outcome.
abbrev contents_after : List Fragment → Outcome → List (List ℕ)
contents_after fs (r, out, s) = map (λ u. u.content) (list_of out ++ outputs s fs)

-- A state about to accept the first of the fragments delivers them all.
accepts :
    (fs : List Fragment) (max n stream : ℕ) (mac : List ℕ) (s : Assembler) (f : Fragment)
    → Live max (next_sequence n) stream mac s
    → InOrder n stream mac (f ∷ fs)
    → length s.current + length (joined (f ∷ fs)) ≤ max
    → contents_after fs (accept s f) ≡ (s.current ++ joined (f ∷ fs)) ∷ []
unfolding outputs
accepts [] max n stream mac s f l (x, marked) fits =
    let within : length s.current + length f.fragment_payload ≤ max =
      omega (arith, fits, length-append f.fragment_payload []) in
    let some_bytes : 1 ≤ length (appended s f).current = omega (
      arith,
      x.some_payload,
      ap length (appended-length s f),
      length-append s.current f.fragment_payload,
    ) in
    ap (contents_after []) (accept-marked s f l.keeping (room s f l within) marked)
    ∙ ap (map (λ u. u.content)) (append-nil (list_of (finish_access_unit (appended s f)).1))
    ∙ finish-content (appended s f) some_bytes
    ∙ ap (λ c. c ∷ [])
        (appended-length s f ∙ ap (λ c. s.current ++ c) (sym (append-nil f.fragment_payload)))
accepts (g ∷ fs) max n stream mac s f l (x, more, rest) fits =
    let t = appended s f in
    let within : length s.current + length f.fragment_payload ≤ max =
      omega (arith, fits, length-append f.fragment_payload (joined (g ∷ fs))) in
    let live = appended-Live s f l in
    let next = InOrder-Next fs rest in
    ap (contents_after (g ∷ fs)) (accept-open s f l.keeping (room s f l within) more)
    ∙ ap (contents_after fs) (push-Next max (next_sequence n) stream mac t g live next)
    ∙ accepts fs max (next_sequence n) stream mac (expecting (count_packet t g) g) g
        (expecting-Live (t) g live next) rest
        (omega (
          arith,
          fits,
          ap length (appended-length s f),
          length-append s.current f.fragment_payload,
          length-append f.fragment_payload (joined (g ∷ fs)),
        ))
    ∙ ap (λ c. c ∷ [])
        (ap (λ c. c ++ joined (g ∷ fs)) (appended-length s f)
          ∙ append_assoc s.current f.fragment_payload (joined (g ∷ fs)))

-- The MAC that the assembler notes for a fragment: zeros without an Ethernet header.
abbrev pub sender_mac : Fragment → List ℕ
sender_mac f = if f.packet.has_ethernet_header then f.packet.source_mac else zero_mac

-- The state in which the first fragment of a stream is accepted.
switched-Live :
    (max : ℕ) (f : Fragment)
    → Live max
        (next_sequence f.packet.sequence_num)
        f.packet.stream_id
        (sender_mac f)
        (switch_stream (count_packet (init max) f) f.packet)
      × ((switch_stream (count_packet (init max) f) f.packet).current ≡ [])
      × (same_stream (count_packet (init max) f) f.packet ≡ false)
unfolding switch_stream reset_access_unit init same_stream
switched-Live max f = (
  record {
    has = refl;
    stream_id = refl;
    sender = refl;
    have = refl;
    expected = refl;
    keeping = refl;
    size = refl;
  },
  refl,
  refl,
)

-- A new assembler that receives the fragments of one access unit, in order, with payloads that are not
-- empty and together within the size limit, gives exactly one access unit: their payloads, joined.
pub outputs-joined :
    (max : ℕ) (f : Fragment) (fs : List Fragment)
    → InOrder f.packet.sequence_num f.packet.stream_id (sender_mac f) (f ∷ fs)
    → length (joined (f ∷ fs)) ≤ max
    → map (λ u. u.content) (outputs (init max) (f ∷ fs)) ≡ joined (f ∷ fs) ∷ []
unfolding outputs
outputs-joined max f fs h fits =
    let (live, none_yet, other) = switched-Live max f in
    let t = switch_stream (count_packet (init max) f) f.packet in
    ap (contents_after fs) (
      push-step (init max) f (is_empty-eq-false f.fragment_payload (InOrder-Next fs h).some_payload)
      ∙ step-switch (count_packet (init max) f) f other)
    ∙ accepts fs max f.packet.sequence_num f.packet.stream_id (sender_mac f) t f live h
        (rw none_yet (omega (arith, fits)))
    ∙ ap (λ c. (c ++ joined (f ∷ fs)) ∷ []) none_yet
