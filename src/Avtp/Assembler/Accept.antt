-- ===== src/Avtp/Assembler/Accept.antt =====
-- The end of AvtpPayloadAssembler::Push: what a fragment in sequence does to the collected block.
use video_pipeline.Base.{
  ℕ, ◌+◌, ◌≤◌, ◌≡◌, refl, sym, ap, subst, ◌∙◌, inl, inr, Bool, true, false, not, List, [], ◌∷◌,
  ◌++◌, none, arith, leb, leb→le, if◌then◌else◌, length, length-append, Bool-cases,
}
use video_pipeline.Base.Int.{ℤ}
use video_pipeline.Media.Wire.{All}
use video_pipeline.Media.Bitstream.{is_empty}
use video_pipeline.Media.Bitstream.Avcc.{is_empty-eq-false}
use video_pipeline.Avtp.Assembler.{
  need_more, Fragment, Assembler, next_sequence, drop_current_access_unit, finish_access_unit,
  reset_access_unit, accept,
}
use video_pipeline.Avtp.Assembler.Blocks.{
  contents, Consecutive, IsFrom, Timed, Open, Collected, Inv, Emits, Sound,
}

pub emptied :
    (max : ℕ) (history : List Fragment) (s : Assembler)
    → s.current ≡ []
    → s.max_access_unit_size ≡ max
    → Inv max history s
emptied max history s e m = ([], history, refl, e, tt, omega (arith, ap length e), m)

pub drop-Sound :
    (max : ℕ) (history : List Fragment) (s : Assembler) (wait : Bool)
    → s.max_access_unit_size ≡ max
    → Sound max history (drop_current_access_unit s wait)
unfolding drop_current_access_unit reset_access_unit
drop-Sound max history s wait m = elim (Bool-cases (is_empty s.current)) [
  | inl e ↦ rw e (tt, emptied max history _ refl m)
  | inr e ↦ rw e (tt, emptied max history _ refl m)
]

finish-Sound :
    (max : ℕ) (f : Fragment) (fs back : List Fragment) (s : Assembler)
    → Open s (f ∷ fs)
    → f.packet.marker ≡ true
    → length s.current ≤ max
    → s.max_access_unit_size ≡ max
    → Sound max ((f ∷ fs) ++ back) (finish_access_unit s)
unfolding finish_access_unit reset_access_unit
finish-Sound max f fs back s o marked fits m = elim (Bool-cases (is_empty s.current)) [
  | inl e ↦ rw e (tt, emptied max _ _ refl m)
  | inr e ↦ rw e (
    (
      f, fs, back, s.current_stream, s.current_mac, refl, o.content, fits, marked, o.consecutive,
      o.one_stream, o.timed,
    ),
    emptied max _ _ refl m,
  )
]

-- The fragment `f` may be appended to the block.
pub record Joins (s : Assembler) (block : List Fragment) (f : Fragment) : Type 0 where
  pub collected : Collected s block
  pub consecutive : Consecutive (f ∷ block)
  pub one_stream : IsFrom s.current_stream s.current_mac f
  pub have : s.have_expected_sequence ≡ true
  pub expected : s.expected_sequence ≡ next_sequence f.packet.sequence_num

-- The state in which `accept` has appended the payload.
pub appended : Assembler → Fragment → Assembler
appended s f =
    let started : Assembler =
      if is_empty s.current
      then record s {
        first_capture_timestamp_us = f.captured_us;
        first_avtp_timestamp = f.packet.avtp_timestamp;
      }
      else s in
    record started { current = started.current ++ f.fragment_payload }

pub appended-length :
    (s : Assembler) (f : Fragment) → (appended s f).current ≡ s.current ++ f.fragment_payload
unfolding appended
appended-length s f = elim (Bool-cases (is_empty s.current)) [
  | inl e ↦ rw e refl
  | inr e ↦ rw e refl
]

pub appended-kept :
    (s : Assembler) (f : Fragment)
    → let t = appended s f in
      (t.current_stream ≡ s.current_stream)
      × (t.current_mac ≡ s.current_mac)
      × (t.dropping_until_marker ≡ s.dropping_until_marker)
      × (t.have_expected_sequence ≡ s.have_expected_sequence)
      × (t.expected_sequence ≡ s.expected_sequence)
      × (t.max_access_unit_size ≡ s.max_access_unit_size)
unfolding appended
appended-kept s f = elim (Bool-cases (is_empty s.current)) [
  | inl e ↦ rw e (refl, refl, refl, refl, refl, refl)
  | inr e ↦ rw e (refl, refl, refl, refl, refl, refl)
]

Timed-transport :
    (fs : List Fragment) {c c' : ℤ} {t t' : ℕ} → c ≡ c' → t ≡ t' → Timed c' t' fs → Timed c t fs
Timed-transport fs {c} {t' = t'} ec et h =
    subst (λ x. Timed c x fs) (sym et) (subst (λ x. Timed x t' fs) (sym ec) h)

All-transport :
    (fs : List Fragment) {n n' : ℕ} {m m' : List ℕ}
    → n ≡ n'
    → m ≡ m'
    → All (IsFrom n' m') fs
    → All (IsFrom n m) fs
All-transport fs {n} {m' = m'} en em h =
    subst (λ x. All (IsFrom n x) fs) (sym em) (subst (λ x. All (IsFrom x m') fs) (sym en) h)

pub appended-has : (s : Assembler) (f : Fragment) → (appended s f).has_stream ≡ s.has_stream
unfolding appended
appended-has s f = elim (Bool-cases (is_empty s.current)) [ inl e ↦ rw e refl | inr e ↦ rw e refl ]

appended-times :
    (s : Assembler) (f : Fragment)
    → is_empty s.current ≡ false
    → ((appended s f).first_capture_timestamp_us ≡ s.first_capture_timestamp_us)
      × ((appended s f).first_avtp_timestamp ≡ s.first_avtp_timestamp)
unfolding appended
appended-times s f e = rw e (refl, refl)

first-times :
    (s : Assembler) (f : Fragment)
    → s.current ≡ []
    → Timed (appended s f).first_capture_timestamp_us (appended s f).first_avtp_timestamp (f ∷ [])
unfolding appended
first-times s f e = rw e (refl, refl)

appended-Timed :
    (s : Assembler) (block : List Fragment) (f : Fragment)
    → Collected s block
    → Timed
        (appended s f).first_capture_timestamp_us
        (appended s f).first_avtp_timestamp
        (f ∷ block)
appended-Timed s [] f e = first-times s f e
appended-Timed s (g ∷ gs) f o =
    let (c, t) = appended-times s f (is_empty-eq-false s.current o.some_bytes) in
    Timed-transport (g ∷ gs) c t o.timed

Collected-content :
    (s : Assembler) (block : List Fragment) → Collected s block → s.current ≡ contents block
Collected-content s [] e = e
Collected-content s (g ∷ gs) o = o.content

Collected-stream :
    (s : Assembler) (block : List Fragment)
    → Collected s block
    → All (IsFrom s.current_stream s.current_mac) block
Collected-stream s [] e = tt
Collected-stream s (g ∷ gs) o = o.one_stream

appended-Open :
    (s : Assembler) (block : List Fragment) (f : Fragment)
    → Joins s block f
    → s.dropping_until_marker ≡ false
    → 1 ≤ length f.fragment_payload
    → Open (appended s f) (f ∷ block)
appended-Open s block f j keeping some_payload =
    let (stream, mac, dropping, _, _, _) = appended-kept s f in
    record {
      content =
          appended-length s f
          ∙ ap (λ c. c ++ f.fragment_payload) (Collected-content s block j.collected);
      some_bytes =
          omega
            (arith, ap length (appended-length s f), length-append s.current f.fragment_payload);
      timed = appended-Timed s block f j.collected;
      consecutive = j.consecutive;
      one_stream =
          All-transport (f ∷ block) stream mac (j.one_stream, Collected-stream s block j.collected);
      keeping = dropping ∙ keeping;
    }

pub accept-marked :
    (s : Assembler) (f : Fragment)
    → s.dropping_until_marker ≡ false
    → leb (length s.current + length f.fragment_payload) s.max_access_unit_size ≡ true
    → f.packet.marker ≡ true
    → accept s f ≡ finish_access_unit (appended s f)
unfolding accept appended
accept-marked s f keeping fits e = rw (keeping, fits, e) refl

pub accept-open :
    (s : Assembler) (f : Fragment)
    → s.dropping_until_marker ≡ false
    → leb (length s.current + length f.fragment_payload) s.max_access_unit_size ≡ true
    → f.packet.marker ≡ false
    → accept s f ≡ (need_more, none, appended s f)
unfolding accept appended
accept-open s f keeping fits e = rw (keeping, fits, e) refl

pub is_empty-some : (p : List ℕ) → is_empty p ≡ false → 1 ≤ length p
is_empty-some [] h = absurd (ground (arith, h))
is_empty-some (b ∷ p) h = omega arith

accept-dropping :
    (s : Assembler) (f : Fragment)
    → s.dropping_until_marker ≡ true
    → ((accept s f).1 ≡ none)
      × ((accept s f).2.current ≡ s.current)
      × ((accept s f).2.max_access_unit_size ≡ s.max_access_unit_size)
unfolding accept
accept-dropping s f e = elim (Bool-cases f.packet.marker) [
  | inl m ↦ rw (e, m) (refl, refl, refl)
  | inr m ↦ rw (e, m) (refl, refl, refl)
]

accept-overflow :
    (max : ℕ) (history : List Fragment) (s : Assembler) (f : Fragment)
    → s.dropping_until_marker ≡ false
    → leb (length s.current + length f.fragment_payload) s.max_access_unit_size ≡ false
    → s.max_access_unit_size ≡ max
    → Sound max history (accept s f)
unfolding accept
accept-overflow max history s f keeping over m = elim (Bool-cases (is_empty s.current)) [
  | inl e ↦ rw (keeping, over, e) (drop-Sound max history _ (not f.packet.marker) m)
  | inr e ↦ rw (keeping, over, e) (drop-Sound max history _ (not f.packet.marker) m)
]

dropping_empty :
    (s : Assembler) (block : List Fragment)
    → Collected s block
    → s.dropping_until_marker ≡ true
    → s.current ≡ []
dropping_empty s [] e d = e
dropping_empty s (g ∷ gs) o d = absurd (ground (arith, o.keeping, d))

pub accept-Sound :
    (max : ℕ) (block back : List Fragment) (s : Assembler) (f : Fragment)
    → Joins s block f
    → 1 ≤ length f.fragment_payload
    → length s.current ≤ max
    → s.max_access_unit_size ≡ max
    → Sound max ((f ∷ block) ++ back) (accept s f)
accept-Sound max block back s f j some_payload fits m = elim (Bool-cases s.dropping_until_marker) [
  | inl d ↦
      let (none_out, same, size) = accept-dropping s f d in
      (
        subst (Emits max ((f ∷ block) ++ back)) (sym none_out) tt,
        emptied max _ _ (same ∙ dropping_empty s block j.collected d) (size ∙ m),
      )
  | inr keeping ↦
      elim (Bool-cases
        (leb (length s.current + length f.fragment_payload) s.max_access_unit_size)) [
          | inr over ↦ accept-overflow max _ s f keeping over m
          | inl room ↦
              let (_, _, _, have, expected, size) = appended-kept s f in
              let o = appended-Open s block f j keeping some_payload in
              let within : length (appended s f).current ≤ max = omega (
                arith,
                ap length (appended-length s f),
                length-append s.current f.fragment_payload,
                leb→le _ _ room,
              ) in
              elim (Bool-cases f.packet.marker) [
                | inl marked ↦
                    subst (Sound max ((f ∷ block) ++ back))
                      (sym (accept-marked s f keeping room marked))
                      (finish-Sound max f block back (appended s f) o marked within (size ∙ m))
                | inr more ↦
                    subst (Sound max ((f ∷ block) ++ back))
                      (sym (accept-open s f keeping room more))
                      (
                        tt,
                        (
                          f ∷ block,
                          back,
                          refl,
                          o,
                          (more, have ∙ j.have, expected ∙ j.expected),
                          within,
                          size ∙ m,
                        ),
                      )
              ]
        ]
]
