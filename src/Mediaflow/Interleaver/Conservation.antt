-- ===== src/Mediaflow/Interleaver/Conservation.antt =====
-- DtsInterleaver: every packet comes out once, and few wait.
use video_pipeline.Base.{
  ◌≡◌, refl, ap, sym, subst, ◌∙◌, inl, inr, Bool, true, false, not, ◌&&◌, List, [], ◌∷◌, ◌++◌,
  append-nil, append_assoc, arith, ◌==◌, if◌then◌else◌, length, Bool-cases, not-true, not-false,
}
use mathlib.Core.List.{Perm}
use mathlib.Core.List.Perm
use video_pipeline.Mediaflow.Interleaver.{
  is_null, DtsPacket, DtsInterleaverConfig, DtsInterleaver, emit_ready, create, flush, push_current,
  push_item, push,
}
use video_pipeline.Mediaflow.Interleaver.Loop.{emit_loop-Split, emit_loop-forced}

abbrev pub Outcome : Type 0
Outcome = List DtsPacket × DtsInterleaver

-- The packets that come out of a run of pushes, and the state behind it.
unfoldable pub push_all : DtsInterleaver → List DtsPacket → Outcome
push_all s [] = ([], s)
push_all s (item ∷ items) =
    let (output, t) = push s item in let (more, u) = push_all t items in (output ++ more, u)

-- The packets that are there.
abbrev pub present : List DtsPacket → List DtsPacket
present [] = []
present (item ∷ items) = if is_null item.packet then present items else item ∷ present items

-- An outcome holds what the state held and the packets given.
abbrev Keeps : DtsInterleaver → List DtsPacket → Outcome → Type 0
Keeps s given outcome = Perm (outcome.0 ++ outcome.1.pending) (s.pending ++ given)

-- One outcome after another.
then-perm :
    (p0 g0 o0 p1 g1 o1 p2 : List DtsPacket)
    → Perm (o0 ++ p1) (p0 ++ g0)
    → Perm (o1 ++ p2) (p1 ++ g1)
    → Perm ((o0 ++ o1) ++ p2) (p0 ++ (g0 ++ g1))
then-perm p0 g0 o0 p1 g1 o1 p2 h k =
    subst (λ l. Perm l (p0 ++ (g0 ++ g1))) (sym (append_assoc o0 o1 p2))
      (Perm.trans (Perm.append_left o0 k) (
        subst (λ l. Perm l (p0 ++ (g0 ++ g1))) (append_assoc o0 p1 g1)
          (subst (Perm ((o0 ++ p1) ++ g1)) (append_assoc p0 g0 g1) (Perm.append_right g1 h))))

emit_ready-Keeps : (s : DtsInterleaver) (force : Bool) → Keeps s [] (emit_ready s force)
unfolding emit_ready
emit_ready-Keeps s force =
    subst (Perm _) (sym (append-nil s.pending))
      (emit_loop-Split (length s.pending) s.config force s.pending).perm

pub emit_ready-forced : (s : DtsInterleaver) → (emit_ready s true).1.pending ≡ []
unfolding emit_ready
emit_ready-forced s = emit_loop-forced (length s.pending) s.config s.pending (omega arith)

forced-perm : (s : DtsInterleaver) → Perm (emit_ready s true).0 s.pending
forced-perm s =
    subst (λ l. Perm l s.pending)
      (ap (λ l. (emit_ready s true).0 ++ l) (emit_ready-forced s)
        ∙ append-nil (emit_ready s true).0)
      (subst (Perm _) (append-nil s.pending) (emit_ready-Keeps s true))

module _ (s : DtsInterleaver) (item : DtsPacket) where
  -- The state with the packet among the ones that wait.
  abbrev pub waiting : DtsInterleaver
  waiting = record s { pending = s.pending ++ item ∷ [] }

  pub push_current-waits :
      item.timing.dts_valid ≡ true → push_current s item ≡ emit_ready waiting false
  unfolding push_current
  push_current-waits e = rw (not-true e) refl

  pub push_current-follows :
      item.timing.dts_valid ≡ false
      → push_current s item ≡ ((emit_ready s true).0 ++ item ∷ [], (emit_ready s true).1)
  unfolding push_current
  push_current-follows e = rw (not-false e) refl

  push_current-Keeps : Keeps s (item ∷ []) (push_current s item)
  push_current-Keeps = elim (Bool-cases item.timing.dts_valid) [
    | inl e ↦
        subst (Keeps s (item ∷ [])) (sym (push_current-waits e))
          (subst (Perm _) (append-nil waiting.pending) (emit_ready-Keeps waiting false))
    | inr e ↦ subst (Keeps s (item ∷ [])) (sym (push_current-follows e)) (
        subst (λ l. Perm (((emit_ready s true).0 ++ item ∷ []) ++ l) (s.pending ++ item ∷ []))
          (sym (emit_ready-forced s))
          (subst (λ l. Perm l (s.pending ++ item ∷ []))
            (sym (append-nil ((emit_ready s true).0 ++ item ∷ [])))
            (Perm.append_right (item ∷ []) (forced-perm s))))
  ]

  -- What Push does with the packets of an older generation, and the generation from there on.
  abbrev pub is_newer : Bool
  is_newer = not (s.generation == 0) && not (item.generation == s.generation)

  flush-Keeps : Keeps s [] (flush s)
  unfolding flush
  flush-Keeps = emit_ready-Keeps s true

  abbrev pub started : DtsInterleaver → DtsInterleaver
  started t = record t { generation = if t.generation == 0 then item.generation else t.generation }

  after-Keeps :
      (flushed : Outcome)
      → Keeps s [] flushed
      → Keeps (started flushed.1) (item ∷ []) (push_current (started flushed.1) item)
      → Keeps s (item ∷ []) (
        flushed.0 ++ (push_current (started flushed.1) item).0,
        (push_current (started flushed.1) item).1,
      )
  after-Keeps flushed h k = then-perm s.pending [] flushed.0 flushed.1.pending (item ∷ []) _ _ h k

module _ (s : DtsInterleaver) (item : DtsPacket) where
  push_item-Keeps : Keeps s (item ∷ []) (push_item s item)
  unfolding push_item
  push_item-Keeps = elim (Bool-cases (is_newer s item)) [
    | inl e ↦ rw e (after-Keeps s item (flush s) (flush-Keeps s item) (push_current-Keeps _ item))
    | inr e ↦ rw e (
        after-Keeps s item ([], s) (subst (Perm _) (sym (append-nil s.pending)) Perm.rfl)
          (push_current-Keeps _ item))
  ]

-- The one packet, if it is there.
abbrev pub given : DtsPacket → List DtsPacket
given item = present (item ∷ [])

push-Keeps : (s : DtsInterleaver) (item : DtsPacket) → Keeps s (given item) (push s item)
unfolding push
push-Keeps s item = elim (Bool-cases (is_null item.packet)) [
  | inl e ↦ rw e (subst (Perm _) (sym (append-nil s.pending)) Perm.rfl)
  | inr e ↦ rw e (push_item-Keeps s item)
]

given-present :
    (item : DtsPacket) (items : List DtsPacket)
    → given item ++ present items ≡ present (item ∷ items)
given-present item items = ground arith

push_all-Keeps :
    (s : DtsInterleaver) (items : List DtsPacket) → Keeps s (present items) (push_all s items)
unfolding push_all
push_all-Keeps s [] = subst (Perm _) (sym (append-nil s.pending)) Perm.rfl
push_all-Keeps s (item ∷ items) =
    let (output, t) = push s item in
    let (more, u) = push_all t items in
    subst (λ l. Perm ((output ++ more) ++ u.pending) (s.pending ++ l)) (given-present item items)
      (then-perm s.pending (given item) output t.pending (present items) more u.pending
        (push-Keeps s item) (push_all-Keeps t items))

-- All that comes out of an interleaver for a list of packets and the flush behind them.
unfoldable pub interleave : DtsInterleaverConfig → List DtsPacket → List DtsPacket
unfolding create flush push_all
interleave config items = let (output, s) = push_all (create config) items in output ++ (flush s).0

-- Whatever the configuration and the packets are, with DTS or without and of any generations, each
-- packet that is there comes out exactly once, by the flush at the end at the latest.
pub interleave-perm :
    (config : DtsInterleaverConfig) (items : List DtsPacket)
    → Perm (interleave config items) (present items)
unfolding interleave
interleave-perm config items =
    let (output, s) = push_all (create config) items in
    Perm.trans (Perm.append_left output (forced-perm s)) (push_all-Keeps (create config) items)
