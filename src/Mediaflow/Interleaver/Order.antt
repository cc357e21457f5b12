-- ===== src/Mediaflow/Interleaver/Order.antt =====
-- DtsInterleaver: packets that come in time come out in decoding order, and few wait.
use video_pipeline.Base.{
  ◌≤◌, ◌≡◌, refl, ap, sym, subst, ◌∙◌, inl, inr, max, true, false, List, [], ◌∷◌, ◌++◌,
  append_assoc, arith, length, Bool-cases,
}
use mathlib.Core.List.{
  Pairwise, Pairwise-append, Mem, not-mem-nil, forall_mem-cons, mem-append, mem-append_left,
  mem-append_right,
}
use mathlib.Core.List.Perm
use mathlib.Core.Logic.Or
use native.Mathlib.Bridge.{le_prop}
use video_pipeline.Mediaflow.Interleaver.{
  is_null, DtsPacket, DtsInterleaverConfig, DtsInterleaver, emit_ready, create, flush, push_current,
  push_item, push, pending_size,
}
use video_pipeline.Mediaflow.Interleaver.Loop.{
  Earlier, InOrder, Split, emit_loop-Split, emit_loop-count,
}
use video_pipeline.Mediaflow.Interleaver.Conservation.{
  push_all, interleave, waiting, push_current-waits, push_current-follows, emit_ready-forced,
  is_newer, started,
}

-- Nothing of the first list is behind anything of the second.
abbrev Before : List DtsPacket → List DtsPacket → Type 0
Before ps qs = (p : DtsPacket) → Mem p ps → (q : DtsPacket) → Mem q qs → Earlier p q

module _ (s : DtsInterleaver) (item : DtsPacket) (there : is_null item.packet ≡ false) where
  push-newer :
      is_newer s item ≡ true
      → push s item ≡ (
          let t = (flush s).1 in
          (
            (flush s).0 ++ (push_current (started s item t) item).0,
            (push_current (started s item t) item).1,
          ))
  unfolding push push_item
  push-newer e = rw (there, e) refl

  push-same : is_newer s item ≡ false → push s item ≡ push_current (started s item s) item
  unfolding push push_item
  push-same e = rw (there, e) refl

push_current-bounded :
    (s : DtsInterleaver) (item : DtsPacket)
    → pending_size (push_current s item).1 ≤ max 1 s.config.max_pending_packets
unfolding emit_ready
push_current-bounded s item = elim (Bool-cases item.timing.dts_valid) [
  | inl e ↦ rw (push_current-waits s item e) (
      emit_loop-count (length (waiting s item).pending) s.config (waiting s item).pending
        (omega arith))
  | inr e ↦ rw (push_current-follows s item e, emit_ready-forced s) (omega arith)
]

-- In whatever state it is, an interleaver that takes a packet keeps no more waiting than it is
-- configured for, or than one.
pub push-bounded :
    (s : DtsInterleaver) (item : DtsPacket)
    → is_null item.packet ≡ false
    → pending_size (push s item).1 ≤ max 1 s.config.max_pending_packets
unfolding flush emit_ready
push-bounded s item there = elim (Bool-cases (is_newer s item)) [
  | inl e ↦ rw (push-newer s item there e) (push_current-bounded (started s item (flush s).1) item)
  | inr e ↦ rw (push-same s item there e) (push_current-bounded (started s item s) item)
]

-- Packets with a DTS of one generation, none of which is behind a packet that is already out.
abbrev pub Timely : DtsInterleaver → List DtsPacket → List DtsPacket → Type 0
Timely s out [] = Unit
Timely s out (item ∷ items) =
    (is_null item.packet ≡ false)
    × (item.timing.dts_valid ≡ true)
    × (is_newer s item ≡ false)
    × Before out (item ∷ [])
    × Timely (push s item).1 (out ++ (push s item).0) items

-- What is out is in order and not behind what waits.
abbrev Sorted : List DtsPacket → DtsInterleaver → Type 0
Sorted out s = InOrder out × Before out s.pending

pub Before-none : (qs : List DtsPacket) → Before [] qs
Before-none qs p m = absurd (not-mem-nil m)

pub Before-one : (p q : DtsPacket) → Earlier p q → Before (p ∷ []) (q ∷ [])
Before-one p q e a m b n =
    let below =
      (forall_mem-cons {p = Earlier p} (λ _. le_prop)).1 (e, λ c o. absurd (not-mem-nil o)) in
    (forall_mem-cons {p = λ c. Earlier c b} (λ _. le_prop)).1
      (below b n, λ c o. absurd (not-mem-nil o)) a m

Before-append : {ps qs rs : List DtsPacket} → Before ps rs → Before qs rs → Before (ps ++ qs) rs
Before-append h k p m q n = Or.elim le_prop (mem-append.0 m) (λ a. h p a q n) (λ b. k p b q n)

Before-both : {ps qs rs : List DtsPacket} → Before ps qs → Before ps rs → Before ps (qs ++ rs)
Before-both h k p m q n = Or.elim le_prop (mem-append.0 n) (λ a. h p m q a) (λ b. k p m q b)

-- A loop over packets that are not before what is out.
loop-Sorted :
    (out pending output left : List DtsPacket)
    → InOrder out
    → Before out pending
    → Split pending (output, left)
    → InOrder (out ++ output) × Before (out ++ output) left
loop-Sorted out pending output left o b r =
    let all : Before out (output ++ left) = λ p m q n. b p m q ((Perm.mem_iff r.perm).0 n) in
    (
      (Pairwise-append {R = Earlier} (λ _ _. le_prop) {l₁ = out} {l₂ = output}).1
          (o, r.in_order, λ p m q n. all p m q (mem-append_left left n)),
      Before-append (λ p m q n. all p m q (mem-append_right output n))
          (λ p m q n. r.before q n p m),
    )

push-Sorted :
    (s : DtsInterleaver) (out : List DtsPacket) (item : DtsPacket)
    → is_null item.packet ≡ false
    → item.timing.dts_valid ≡ true
    → is_newer s item ≡ false
    → Before out (item ∷ [])
    → Sorted out s
    → Sorted (out ++ (push s item).0) (push s item).1
unfolding emit_ready
push-Sorted s out item there valid same b (o, k) =
    let all = s.pending ++ item ∷ [] in
    rw (push-same s item there same, push_current-waits (started s item s) item valid)
      (loop-Sorted out all _ _ o (Before-both k b)
        (emit_loop-Split (length all) s.config false all))

push_all-InOrder :
    (s : DtsInterleaver) (out : List DtsPacket) (items : List DtsPacket)
    → InOrder out
    → Before out s.pending
    → Timely s out items
    → InOrder (out ++ ((push_all s items).0 ++ (flush (push_all s items).1).0))
unfolding push_all flush emit_ready
push_all-InOrder s out [] o b h =
    (loop-Sorted out s.pending _ _ o b
      (emit_loop-Split (length s.pending) s.config true s.pending)).0
push_all-InOrder s out (item ∷ items) o b (there, valid, same, timely, more) =
    let (output, t) = push s item in
    let (o', b') = push-Sorted s out item there valid same timely (o, b) in
    let (rest, u) = push_all t items in
    subst InOrder
      (append_assoc out output (rest ++ (flush u).0)
        ∙ ap (λ l. out ++ l) (sym (append_assoc output rest (flush u).0)))
      (push_all-InOrder t (out ++ output) items o' b' more)

-- If every packet has a DTS, is of one generation and comes before any packet with a later DTS is out,
-- then all that comes out, the flush at the end included, is in decoding order.
pub interleave-InOrder :
    (config : DtsInterleaverConfig) (items : List DtsPacket)
    → Timely (create config) [] items
    → InOrder (interleave config items)
unfolding interleave create
interleave-InOrder config items h =
    push_all-InOrder (create config) [] items Pairwise.nil (Before-none []) h
