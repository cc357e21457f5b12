-- ===== src/Avtp/Assembler/Soundness.antt =====
-- AvtpPayloadAssembler: what an access unit that Push returns is made of.
use video_pipeline.Base.{
  ℕ, ◌≤◌, ◌≡◌, refl, sym, ap, ap₂, subst, ◌∙◌, inl, inr, true, false, not, ◌&&◌, List, [], ◌∷◌,
  some, arith, ◌==◌, if◌then◌else◌, length, Bool-cases,
}
use video_pipeline.Media.Bitstream.{is_empty}
use video_pipeline.Avtp.Assembler.{
  Stats, AvtpAccessUnit, Fragment, Assembler, next_sequence, init, is_same_mac, same_stream,
  switch_stream, reset_access_unit, accept, sequence_step, count_packet, push,
}
use video_pipeline.Avtp.Assembler.Blocks.{
  Consecutive, IsFrom, Collected, Expects, Inv, IsUnitOf, Emits, Sound,
}
use video_pipeline.Avtp.Assembler.Accept.{Joins, drop-Sound, accept-Sound, is_empty-some}

is_same_mac→eq : (a b : List ℕ) → is_same_mac a b ≡ true → a ≡ b
unfolding is_same_mac
is_same_mac→eq [] [] h = refl
is_same_mac→eq [] (y ∷ b) h = absurd (ground (arith, h))
is_same_mac→eq (x ∷ a) [] h = absurd (ground (arith, h))
is_same_mac→eq (x ∷ a) (y ∷ b) h =
    let (e, es) : (x ≡ y) × (is_same_mac a b ≡ true) = ground (arith, h) in
    ap₂ (λ z zs. z ∷ zs) e (is_same_mac→eq a b es)

same_stream-IsFrom :
    (s : Assembler) (f : Fragment)
    → same_stream s f.packet ≡ true
    → IsFrom s.current_stream s.current_mac f
unfolding same_stream
same_stream-IsFrom s f h = elim (Bool-cases (is_same_mac f.packet.source_mac s.current_mac)) [
  | inl same ↦ (ground (arith, h), inr (is_same_mac→eq _ _ same))
  | inr other ↦ (ground (arith, h), inl (ground (arith, h, other)))
]

-- The state with the sequence number of `f` taken in.
abbrev pub expecting : Assembler → Fragment → Assembler
expecting s f = record s {
  expected_sequence = next_sequence f.packet.sequence_num;
  have_expected_sequence = true;
}

pub step-switch :
    (s : Assembler) (f : Fragment)
    → same_stream s f.packet ≡ false
    → sequence_step s f ≡ accept (switch_stream s f.packet) f
unfolding sequence_step
step-switch s f e = rw e refl

pub step-next :
    (s : Assembler) (f : Fragment)
    → same_stream s f.packet ≡ true
    → (s.have_expected_sequence && not (f.packet.sequence_num == s.expected_sequence)) ≡ false
    → sequence_step s f ≡ accept (expecting s f) f
unfolding sequence_step
step-next s f e n = rw (e, n) refl

step-lost :
    (max : ℕ) (history : List Fragment) (s : Assembler) (f : Fragment)
    → same_stream s f.packet ≡ true
    → (s.have_expected_sequence && not (f.packet.sequence_num == s.expected_sequence)) ≡ true
    → s.max_access_unit_size ≡ max
    → Sound max history (sequence_step s f)
unfolding sequence_step
step-lost max history s f e n m = rw (e, n) (drop-Sound max history _ (not f.packet.marker) m)

switch_stream-Joins :
    (s : Assembler) (f : Fragment)
    → Joins (switch_stream s f.packet) [] f
      × ((switch_stream s f.packet).max_access_unit_size ≡ s.max_access_unit_size)
unfolding switch_stream reset_access_unit
switch_stream-Joins s f = (
  record {
    collected = refl;
    consecutive = tt;
    one_stream = (
      refl,
      elim (Bool-cases f.packet.has_ethernet_header) [
        | inl e ↦ inr (ground (arith, e))
        | inr e ↦ inl e
      ],
    );
    have = refl;
    expected = refl;
  },
  refl,
)

expecting-Collected :
    (s : Assembler) (block : List Fragment) (f : Fragment)
    → Collected s block
    → Collected (expecting s f) block
expecting-Collected s [] f c = c
expecting-Collected s (g ∷ gs) f c = record {
  content = c.content;
  some_bytes = c.some_bytes;
  timed = c.timed;
  consecutive = c.consecutive;
  one_stream = c.one_stream;
  keeping = c.keeping;
}

next-Consecutive :
    (s : Assembler) (block : List Fragment) (f : Fragment)
    → Collected s block
    → Expects s block
    → (s.have_expected_sequence && not (f.packet.sequence_num == s.expected_sequence)) ≡ false
    → Consecutive (f ∷ block)
next-Consecutive s [] f c x n = tt
next-Consecutive s (g ∷ gs) f c (more, have, expected) n =
    (ground (arith, have, expected, n), more, c.consecutive)

sequence_step-Sound :
    (max : ℕ) (history : List Fragment) (s : Assembler) (f : Fragment)
    → Inv max history s
    → 1 ≤ length f.fragment_payload
    → Sound max (f ∷ history) (sequence_step s f)
sequence_step-Sound max history s f (block, back, e, c, x, fits, m) some_payload =
    elim (Bool-cases (same_stream s f.packet)) [
      | inr other ↦
          let (j, size) = switch_stream-Joins s f in
          subst (Sound max (f ∷ history)) (sym (step-switch s f other)) (
            accept-Sound max [] history (switch_stream s f.packet) f j some_payload
              (omega (arith, ap length j.collected)) (size ∙ m))
      | inl same ↦
          elim (Bool-cases
            (s.have_expected_sequence && not (f.packet.sequence_num == s.expected_sequence))) [
              | inl lost ↦ step-lost max (f ∷ history) s f same lost m
              | inr next ↦ subst (Sound max (f ∷ history)) (sym (step-next s f same next)) (
                  subst (λ h. Sound max (f ∷ h) (accept (expecting s f) f)) (sym e)
                    (accept-Sound max block back (expecting s f) f
                      (record {
                        collected = expecting-Collected s block f c;
                        consecutive = next-Consecutive s block f c x next;
                        one_stream = same_stream-IsFrom s f same;
                        have = refl;
                        expected = refl;
                      })
                      some_payload fits m))
            ]
    ]

-- The fragments with a payload: the others are only counted.
abbrev pub received : List Fragment → List Fragment
received [] = []
received (f ∷ fs) = if is_empty f.fragment_payload then received fs else f ∷ received fs

-- The assembler behind a history of fragments, newest first.
unfoldable pub state_after : ℕ → List Fragment → Assembler
state_after max [] = init max
state_after max (f ∷ fs) = (push (state_after max fs) f).2

received-some :
    (fs : List Fragment) (f : Fragment)
    → is_empty f.fragment_payload ≡ false
    → received (f ∷ fs) ≡ f ∷ received fs
received-some fs f e = rw e refl

stats-Collected :
    (s : Assembler) (st : Stats) (block : List Fragment)
    → Collected s block
    → Collected (record s { stats = st }) block
stats-Collected s st [] c = c
stats-Collected s st (g ∷ gs) c = record {
  content = c.content;
  some_bytes = c.some_bytes;
  timed = c.timed;
  consecutive = c.consecutive;
  one_stream = c.one_stream;
  keeping = c.keeping;
}

stats-Expects :
    (s : Assembler) (st : Stats) (block : List Fragment)
    → Expects s block
    → Expects (record s { stats = st }) block
stats-Expects s st [] x = x
stats-Expects s st (g ∷ gs) x = x

stats-Inv :
    (max : ℕ) (history : List Fragment) (s : Assembler) (st : Stats)
    → Inv max history s
    → Inv max history (record s { stats = st })
stats-Inv max history s st (block, back, e, c, x, fits, m) =
    (block, back, e, stats-Collected s st block c, stats-Expects s st block x, fits, m)

pub push-step :
    (s : Assembler) (f : Fragment)
    → is_empty f.fragment_payload ≡ false
    → push s f ≡ sequence_step (count_packet s f) f
unfolding push
push-step s f e = rw e refl

push-Sound :
    (max : ℕ) (history : List Fragment) (s : Assembler) (f : Fragment)
    → Inv max (received history) s
    → Sound max (received (f ∷ history)) (push s f)
push-Sound max history s f i = elim (Bool-cases (is_empty f.fragment_payload)) [
  | inl e ↦ rw e (unfold push in rw e (tt, stats-Inv max _ s _ i))
  | inr e ↦
      subst (λ h. Sound max h (push s f)) (sym (received-some history f e))
        (subst (Sound max (f ∷ received history)) (sym (push-step s f e)) (
          sequence_step-Sound max (received history) (count_packet s f) f (stats-Inv max _ s _ i)
            (is_empty-some f.fragment_payload e)))
]

state_after-Inv :
    (max : ℕ) (history : List Fragment) → Inv max (received history) (state_after max history)
unfolding state_after init
state_after-Inv max [] = ([], [], refl, refl, tt, omega arith, refl)
state_after-Inv max (f ∷ fs) = (push-Sound max fs (state_after max fs) f (state_after-Inv max fs)).1

-- Whatever fragments come, from whatever streams and in whatever order, an access unit that comes out
-- is the payloads of the newest fragments received, joined in order: they belong to one stream and one
-- sender, their sequence numbers are consecutive modulo 2 ^ 8, the marker is on the last of them and
-- on no other, its times are those of the first, and it is within the size limit.
pub push-IsUnitOf :
    (max : ℕ) (history : List Fragment) (f : Fragment) {u : AvtpAccessUnit}
    → (push (state_after max history) f).1 ≡ some u
    → IsUnitOf max (received (f ∷ history)) u
push-IsUnitOf max history f e =
    subst (Emits max (received (f ∷ history))) e
      (push-Sound max history (state_after max history) f (state_after-Inv max history)).0
