-- ===== src/Render/PcmQueue/Accounting.antt =====
-- AudioPcmQueue: what becomes of the frames that are submitted.
use video_pipeline.Base.{
  ℕ, zero, suc, ◌+◌, ◌≡◌, refl, ap, sym, subst, ◌∙◌, inl, inr, List, [], ◌∷◌, Option, none, some,
  arith, length, Bool-cases, Option-cases,
}
use mathlib.Core.List.{Perm, Permᴰ}
use mathlib.Core.Logic.{∥∥₁_elim}
use video_pipeline.Base.Int.{ℤ, pos, pos_part, neg_part, ◌+ℤ◌, ◌-ℤ◌, ltb_ℤ, int_laws}
use video_pipeline.Render.PcmQueue.{
  PcmChunk, Storage, Counters, AudioPcmQueue, drop_queued_chunk_stats, drop_unqueued_chunk_stats,
  submit, reset, make_room, count_pushed, enqueue_into, enqueue_on, pop_on, enqueue, pop_from, pop,
}

abbrev total : List PcmChunk → ℕ
total [] = 0
total (c ∷ cs) = c.nb_samples + total cs

-- What the queue holds is what the counters say, and every frame that was submitted is queued, dropped
-- or popped.
pub record Balanced (popped : ℤ) (held : List PcmChunk) (c : Counters) : Type 0 where
  pub queued : c.queued_frames ≡ pos (total held)
  pub chunks : c.queued_chunks ≡ pos (length held)
  pub all : c.submitted_frames ≡ c.queued_frames +ℤ c.dropped_frames +ℤ popped

total-permᴰ : {l r : List PcmChunk} → Permᴰ l r → (total l ≡ total r) × (length l ≡ length r)
total-permᴰ Permᴰ.nil = (refl, refl)
total-permᴰ (Permᴰ.cons e p) =
    let (h, k) = total-permᴰ p in (omega (arith, h, ap (λ c. c.nb_samples) e), omega (arith, k))
total-permᴰ (Permᴰ.swap e f) =
    (omega (arith, ap (λ c. c.nb_samples) e, ap (λ c. c.nb_samples) f), refl)
total-permᴰ (Permᴰ.trans p q) =
    let (h, k) = total-permᴰ p in let (h', k') = total-permᴰ q in (h ∙ h', k ∙ k')

total-perm : {l r : List PcmChunk} → Perm l r → (total l ≡ total r) × (length l ≡ length r)
total-perm p = ∥∥₁_elim p (hlevel) total-permᴰ

-- A chunk that leaves the queue, and one that comes in.
leaves :
    {popped : ℤ} {held held' : List PcmChunk} (c : Counters) (x : PcmChunk)
    → Balanced popped held c
    → Perm held (x ∷ held')
    → (c.queued_frames -ℤ pos x.nb_samples ≡ pos (total held'))
      × (c.queued_chunks -ℤ pos 1 ≡ pos (length held'))
leaves c x b p =
    let (t, l) = total-perm p in
    (
      omega (int_laws, t, ap pos_part b.queued, ap neg_part b.queued),
      omega (int_laws, l, ap pos_part b.chunks, ap neg_part b.chunks),
    )

dropped-Balanced :
    {popped : ℤ} {held held' : List PcmChunk} (c : Counters) (x : PcmChunk)
    → Balanced popped held c
    → Perm held (x ∷ held')
    → Balanced popped held' (drop_queued_chunk_stats c x)
unfolding drop_queued_chunk_stats
dropped-Balanced c x b p =
    let (q, k) = leaves c x b p in record { queued = q; chunks = k; all = b.all ∙ omega int_laws }

module _ {Q : Type 0} (storage : Storage Q) where
  make_room-Balanced :
      (fuel capacity : ℕ) (q : Q) (c : Counters) {popped : ℤ}
      → Balanced popped (storage.contents q) c
      → let (q', c') = make_room storage fuel capacity q c in
        Balanced popped (storage.contents q') c'
  unfolding make_room
  make_room-Balanced zero capacity q c b = b
  make_room-Balanced (suc fuel) capacity q c b =
      elim (Bool-cases (ltb_ℤ c.queued_chunks (pos capacity))) [
        | inl e ↦ rw e b
        | inr e ↦ elim (Option-cases (storage.try_dequeue q)) [
          | inl n ↦ rw (e, n) b
          | inr ((x, q'), n) ↦
              rw (e, n)
                (make_room-Balanced fuel capacity q' _
                  (dropped-Balanced c x b (storage.try_dequeue-contents q n)))
        ]
      ]

  -- The chunk counts as popped until it is queued or dropped.
  count_pushed-Balanced :
      (q : Q) (c : Counters) (x : PcmChunk) (o : Option Q) {popped : ℤ}
      → storage.enqueue q x ≡ o
      → Balanced (popped +ℤ pos x.nb_samples) (storage.contents q) c
      → let (q', c') = count_pushed storage q c x o in Balanced popped (storage.contents q') c'
  unfolding count_pushed drop_unqueued_chunk_stats
  count_pushed-Balanced q c x none n b = record {
    queued = b.queued;
    chunks = b.chunks;
    all = b.all ∙ omega int_laws;
  }
  count_pushed-Balanced q c x (some q') n b =
      let (t, l) = total-perm (storage.enqueue-contents q x n) in
      record {
        queued = omega (int_laws, t, ap pos_part b.queued, ap neg_part b.queued);
        chunks = omega (int_laws, l, ap pos_part b.chunks, ap neg_part b.chunks);
        all = b.all ∙ omega int_laws;
      }

  -- What the queue holds; none without a queue.
  abbrev held : Option Q → List PcmChunk
  held none = []
  held (some q) = storage.contents q

  abbrev pub IsBalanced : ℤ → AudioPcmQueue Q → Type 0
  IsBalanced popped s = Balanced popped (held s.queue) s.counters

  submit-Balanced :
      {popped : ℤ} {held' : List PcmChunk} (c : Counters) (x : PcmChunk)
      → Balanced popped held' c
      → Balanced (popped +ℤ pos x.nb_samples) held' (submit c x)
  submit-Balanced c x b = record {
    queued = b.queued;
    chunks = b.chunks;
    all = ap (λ n. n +ℤ pos x.nb_samples) b.all ∙ omega int_laws;
  }

  enqueue_on-Balanced :
      (s : AudioPcmQueue Q) (x : PcmChunk) (o : Option Q) {popped : ℤ}
      → s.queue ≡ o
      → Balanced popped (held o) s.counters
      → IsBalanced popped (enqueue_on storage s x o)
  unfolding enqueue_on enqueue_into drop_unqueued_chunk_stats
  enqueue_on-Balanced s x none e b =
      let c = submit-Balanced s.counters x b in
      record {
        queued = b.queued ∙ ap (λ o. pos (total (held o))) (sym e);
        chunks = b.chunks ∙ ap (λ o. pos (length (held o))) (sym e);
        all = c.all ∙ omega int_laws;
      }
  enqueue_on-Balanced s x (some q) e b =
      let c = submit s.counters x in
      let room = make_room storage (suc (pos_part c.queued_chunks)) s.capacity_chunks q c in
      count_pushed-Balanced room.0 room.1 x (storage.enqueue room.0 x) refl (
        make_room-Balanced (suc (pos_part c.queued_chunks)) s.capacity_chunks q c
          (submit-Balanced s.counters x b))

  -- The frames of a chunk that Pop gives.
  abbrev pub popped_frames : Option PcmChunk → ℤ
  popped_frames none = pos 0
  popped_frames (some x) = pos x.nb_samples

  pop_from-Balanced :
      (s : AudioPcmQueue Q) (q : Q) (o : Option (PcmChunk × Q)) {popped : ℤ}
      → s.queue ≡ some q
      → storage.try_dequeue q ≡ o
      → Balanced popped (storage.contents q) s.counters
      → let (x, t) = pop_from storage s o in IsBalanced (popped +ℤ popped_frames x) t
  unfolding pop_from
  pop_from-Balanced s q none {popped} e n b =
      subst (λ o. Balanced (popped +ℤ pos 0) (held o) s.counters) (sym e)
        (record { queued = b.queued; chunks = b.chunks; all = b.all ∙ omega int_laws })
  pop_from-Balanced s q (some (x, q')) e n b =
      let (queued, chunks) = leaves s.counters x b (storage.try_dequeue-contents q n) in
      record { queued = queued; chunks = chunks; all = b.all ∙ omega int_laws }

  pop_on-Balanced :
      (s : AudioPcmQueue Q) (o : Option Q) {popped : ℤ}
      → s.queue ≡ o
      → Balanced popped (held o) s.counters
      → let (x, t) = pop_on storage s o in IsBalanced (popped +ℤ popped_frames x) t
  unfolding pop_on
  pop_on-Balanced s none {popped} e b =
      subst (λ o. Balanced (popped +ℤ pos 0) (held o) s.counters) (sym e)
        (record { queued = b.queued; chunks = b.chunks; all = b.all ∙ omega int_laws })
  pop_on-Balanced s (some q) e b = pop_from-Balanced s q (storage.try_dequeue q) e refl b

  -- The state and the frames popped behind a run of calls; `none` is a call of Pop.
  unfoldable pub run : AudioPcmQueue Q → ℤ → List (Option PcmChunk) → ℤ × AudioPcmQueue Q
  unfolding enqueue pop
  run s popped [] = (popped, s)
  run s popped (some x ∷ calls) = run (enqueue storage s x) popped calls
  run s popped (none ∷ calls) =
      let (x, t) = pop storage s in run t (popped +ℤ popped_frames x) calls

  run-IsBalanced :
      (s : AudioPcmQueue Q) (popped : ℤ) (calls : List (Option PcmChunk))
      → IsBalanced popped s
      → let (popped', t) = run s popped calls in IsBalanced popped' t
  unfolding run enqueue pop
  run-IsBalanced s popped [] b = b
  run-IsBalanced s popped (some x ∷ calls) b =
      run-IsBalanced (enqueue storage s x) popped calls (enqueue_on-Balanced s x s.queue refl b)
  run-IsBalanced s popped (none ∷ calls) b =
      run-IsBalanced (pop_on storage s s.queue).1 _ calls (pop_on-Balanced s s.queue refl b)

  -- Behind every run of Enqueue and Pop on a queue that was reset the counters are what the queue holds, and
  -- each submitted frame is queued, dropped or popped, whether the library's queue finds memory or not.
  pub reset-run-IsBalanced :
      (capacity : ℕ) (calls : List (Option PcmChunk))
      → let (popped, t) = run (reset storage capacity) (pos 0) calls in IsBalanced popped t
  reset-run-IsBalanced capacity calls =
      run-IsBalanced (reset storage capacity) (pos 0) calls (record {
        queued = ap (λ l. pos (total l)) (sym storage.empty-contents);
        chunks = ap (λ l. pos (length l)) (sym storage.empty-contents);
        all = omega int_laws;
      })
