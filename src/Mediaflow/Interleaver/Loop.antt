-- ===== src/Mediaflow/Interleaver/Loop.antt =====
-- EmitReady: one round takes the earliest packet out; the loop sorts what it outputs.
use video_pipeline.Base.{
  ℕ, zero, suc, ◌≤◌, ◌≡◌, refl, inl, inr, sym, subst, max, Bool, true, false, not, ◌&&◌, List, [],
  ◌∷◌, ◌++◌, arith, leb, length, Bool-cases,
}
use mathlib.Core.List.{
  Perm, Pairwise, Mem, forall_mem-cons, mem-append_left, not-mem-nil, mem-append_right,
}
use mathlib.Core.List.Perm
use native.Mathlib.Bridge.{le_prop}
use video_pipeline.Base.Int.{◌≤ℤ◌, ltb_ℤ}
use video_pipeline.Mediaflow.Interleaver.{
  DtsPacket, DtsInterleaverConfig, dts_of, take_earliest, over_count, over_span, emit_loop,
}

-- Not behind in decoding order.
abbrev pub Earlier : DtsPacket → DtsPacket → Type 0
Earlier p q = dts_of p ≤ℤ dts_of q

abbrev pub IsBelow : DtsPacket → List DtsPacket → Type 0
IsBelow p ps = (q : DtsPacket) → Mem q ps → Earlier p q

abbrev pub InOrder : List DtsPacket → Type 0
InOrder = Pairwise Earlier

pub IsBelow-cons :
    (p q : DtsPacket) {ps : List DtsPacket} → Earlier p q → IsBelow p ps → IsBelow p (q ∷ ps)
IsBelow-cons p q e h = (forall_mem-cons (λ _. le_prop)).1 (e, h)

pub IsBelow-perm :
    (p : DtsPacket) {ps qs : List DtsPacket} → Perm ps qs → IsBelow p qs → IsBelow p ps
IsBelow-perm p e h q m = h q ((Perm.mem_iff e).0 m)

pub IsBelow-trans :
    (p q : DtsPacket) {ps : List DtsPacket} → Earlier p q → IsBelow q ps → IsBelow p ps
IsBelow-trans p q e h r m = omega (arith, e, h r m)

take_earliest-length :
    (x : DtsPacket) (xs : List DtsPacket) → length (take_earliest x xs).1 ≡ length xs
unfolding take_earliest
take_earliest-length x [] = refl
take_earliest-length x (y ∷ ys) = ground (arith, take_earliest-length y ys)

take_earliest-perm :
    (x : DtsPacket) (xs : List DtsPacket)
    → Perm ((take_earliest x xs).0 ∷ (take_earliest x xs).1) (x ∷ xs)
unfolding take_earliest
take_earliest-perm x [] = Perm.rfl
take_earliest-perm x (y ∷ ys) =
    elim (Bool-cases (ltb_ℤ (dts_of (take_earliest y ys).0) (dts_of x))) [
      | inl e ↦ rw e (
          Perm.trans (Perm.swap x (take_earliest y ys).0 (take_earliest y ys).1)
            (Perm.cons x (take_earliest-perm y ys)))
      | inr e ↦ rw e Perm.rfl
    ]

take_earliest-IsBelow :
    (x : DtsPacket) (xs : List DtsPacket) → IsBelow (take_earliest x xs).0 (take_earliest x xs).1
unfolding take_earliest
take_earliest-IsBelow x [] = λ q m. absurd (not-mem-nil m)
take_earliest-IsBelow x (y ∷ ys) =
    let first = (take_earliest y ys).0 in
    let below = take_earliest-IsBelow y ys in
    elim (Bool-cases (ltb_ℤ (dts_of first) (dts_of x))) [
      | inl e ↦ rw e (IsBelow-cons first x (ground arith) below)
      | inr e ↦ rw e (
          IsBelow-perm x (Perm.symm (take_earliest-perm y ys))
            (IsBelow-cons x first (ground arith) (IsBelow-trans x first (ground arith) below)))
    ]

-- What one round gives: the first of the packets and what the loop does with the others.
abbrev first_of : DtsPacket → List DtsPacket → DtsPacket
first_of x xs = (take_earliest x xs).0

abbrev rest_of : DtsPacket → List DtsPacket → List DtsPacket
rest_of x xs = (take_earliest x xs).1

-- A round stops before it takes a packet out, or behind one.
abbrev pub stops : DtsInterleaverConfig → Bool → DtsPacket → List DtsPacket → Bool
stops config force x xs =
    not force && not (over_count config (x ∷ xs)) && not (over_span config x xs)

abbrev pub is_last : Bool → DtsPacket → List DtsPacket → Bool
is_last force x xs = not force && leb (length (rest_of x xs)) 1

module _ (fuel : ℕ) (config : DtsInterleaverConfig) (force : Bool) (x : DtsPacket)
    (xs : List DtsPacket) where
  pub emit_loop-stops :
      stops config force x xs ≡ true → emit_loop (suc fuel) config force (x ∷ xs) ≡ ([], x ∷ xs)
  unfolding emit_loop
  emit_loop-stops e = rw e refl

  pub emit_loop-last :
      stops config force x xs ≡ false
      → is_last force x xs ≡ true
      → emit_loop (suc fuel) config force (x ∷ xs) ≡ (first_of x xs ∷ [], rest_of x xs)
  unfolding emit_loop
  emit_loop-last e h = rw (e, h) refl

  pub emit_loop-goes_on :
      stops config force x xs ≡ false
      → is_last force x xs ≡ false
      → emit_loop (suc fuel) config force (x ∷ xs) ≡ (
          let (more, left) = emit_loop fuel config force (rest_of x xs) in
          (first_of x xs ∷ more, left))
  unfolding emit_loop
  emit_loop-goes_on e h = rw (e, h) refl

over_count-false :
    (config : DtsInterleaverConfig) (x : DtsPacket) (xs : List DtsPacket)
    → stops config false x xs ≡ true
    → suc (length xs) ≤ max 1 config.max_pending_packets
unfolding over_count
over_count-false config x xs e = ground arith

-- The outcome of a loop: what came out stands in order and before what is left, and both are the input.
pub record Split (pending : List DtsPacket) (outcome : List DtsPacket × List DtsPacket)
    : Type 0 where
  pub perm : Perm (outcome.0 ++ outcome.1) pending
  pub in_order : InOrder outcome.0
  pub before : (q : DtsPacket) → Mem q outcome.1 → (p : DtsPacket) → Mem p outcome.0 → Earlier p q

Split-none : (pending : List DtsPacket) → Split pending ([], pending)
Split-none pending = record {
  perm = Perm.rfl;
  in_order = Pairwise.nil;
  before = λ q n p m. absurd (not-mem-nil m);
}

Split-first :
    (x : DtsPacket) (xs : List DtsPacket) (more : List DtsPacket × List DtsPacket)
    → Split (rest_of x xs) more
    → Split (x ∷ xs) (first_of x xs ∷ more.0, more.1)
Split-first x xs more r =
    let first = first_of x xs in
    let below = IsBelow-perm first r.perm (take_earliest-IsBelow x xs) in
    record {
      perm = Perm.trans (Perm.cons first r.perm) (take_earliest-perm x xs);
      in_order = Pairwise.cons (λ q m. below q (mem-append_left more.1 m)) r.in_order;
      before = λ q m.
          (forall_mem-cons (λ _. le_prop)).1 (below q (mem-append_right more.0 m), r.before q m);
    }

-- Whatever makes the loop stop, the packets that come out are in order, before the ones that stay, and
-- none is lost.
pub emit_loop-Split :
    (fuel : ℕ) (config : DtsInterleaverConfig) (force : Bool) (pending : List DtsPacket)
    → Split pending (emit_loop fuel config force pending)
unfolding emit_loop
emit_loop-Split zero config force pending = Split-none pending
emit_loop-Split (suc fuel) config force [] = Split-none []
emit_loop-Split (suc fuel) config force (x ∷ xs) = elim (Bool-cases (stops config force x xs)) [
  | inl e ↦ subst (Split (x ∷ xs)) (sym (emit_loop-stops fuel config force x xs e)) (Split-none _)
  | inr e ↦ elim (Bool-cases (is_last force x xs)) [
    | inl h ↦
        subst (Split (x ∷ xs)) (sym (emit_loop-last fuel config force x xs e h))
          (Split-first x xs _ (Split-none _))
    | inr h ↦
        subst (Split (x ∷ xs)) (sym (emit_loop-goes_on fuel config force x xs e h))
          (Split-first x xs _ (emit_loop-Split fuel config force (rest_of x xs)))
  ]
]

-- A forced loop leaves nothing.
pub emit_loop-forced :
    (fuel : ℕ) (config : DtsInterleaverConfig) (pending : List DtsPacket)
    → length pending ≤ fuel
    → (emit_loop fuel config true pending).1 ≡ []
unfolding emit_loop
emit_loop-forced zero config [] h = refl
emit_loop-forced zero config (x ∷ xs) h = absurd (omega arith)
emit_loop-forced (suc fuel) config [] h = refl
emit_loop-forced (suc fuel) config (x ∷ xs) h =
    emit_loop-forced fuel config (rest_of x xs) (omega (arith, take_earliest-length x xs))

-- A loop that is not forced stops at the configured number of packets, and before that number is
-- passed it takes out a packet only where the DTS span the configured time.
pub emit_loop-count :
    (fuel : ℕ) (config : DtsInterleaverConfig) (pending : List DtsPacket)
    → length pending ≤ fuel
    → length (emit_loop fuel config false pending).1 ≤ max 1 config.max_pending_packets
unfolding emit_loop
emit_loop-count zero config [] h = omega arith
emit_loop-count zero config (x ∷ xs) h = absurd (omega arith)
emit_loop-count (suc fuel) config [] h = omega arith
emit_loop-count (suc fuel) config (x ∷ xs) h = elim (Bool-cases (stops config false x xs)) [
  | inl e ↦ rw (emit_loop-stops fuel config false x xs e) (over_count-false config x xs e)
  | inr e ↦ elim (Bool-cases (is_last false x xs)) [
    | inl l ↦ rw (emit_loop-last fuel config false x xs e l) (ground arith)
    | inr l ↦
        rw (emit_loop-goes_on fuel config false x xs e l)
          (emit_loop-count fuel config (rest_of x xs) (omega (arith, take_earliest-length x xs)))
  ]
]
