-- ===== src/Render/PcmQueue/Examples.antt =====
-- AudioPcmQueue on a library queue that is a list.
use video_pipeline.Base.{ℕ, ◌≡◌, refl, ap, subst, arith, List, [], ◌∷◌, ◌++◌, Option, none, some}
use mathlib.Core.List.{Perm, perm_append_singleton}
use mathlib.Core.List.Perm
use video_pipeline.Base.Int.{pos, ◌+ℤ◌, ◌-ℤ◌}
use video_pipeline.Render.PcmQueue.{PcmChunk, Storage, reset, played_pts_us}
use video_pipeline.Render.PcmQueue.History.{Event, media, silence, asks}
use video_pipeline.Render.PcmQueue.Played.{run}
use video_pipeline.Render.PcmQueue.Accounting.{IsBalanced, run as run_calls, reset-run-IsBalanced}

abbrev take_first : List PcmChunk → Option (PcmChunk × List PcmChunk)
take_first [] = none
take_first (c ∷ cs) = some (c, cs)

some-injective : {A : Type 0} {a b : A} → some a ≡ some b → a ≡ b
some-injective {a} e = ap (λ o. elim o [ none ↦ a | some x ↦ x ]) e

take_first-perm :
    (q : List PcmChunk) {c : PcmChunk} {q' : List PcmChunk}
    → take_first q ≡ some (c, q')
    → Perm q (c ∷ q')
take_first-perm [] e = absurd (grind (arith, e))
take_first-perm (d ∷ q) e = subst (λ p. Perm (d ∷ q) (p.0 ∷ p.1)) (some-injective e) Perm.rfl

take_first-none : (q : List PcmChunk) → take_first q ≡ none → q ≡ []
take_first-none [] e = refl
take_first-none (d ∷ q) e = absurd (grind (arith, e))

abbrev list_storage : Storage (List PcmChunk)
list_storage = record {
  empty = [];
  enqueue = λ q c. some (q ++ c ∷ []);
  try_dequeue = take_first;
  contents = λ q. q;
  empty-contents = refl;
  enqueue-contents =
      λ q c e. subst (λ l. Perm l (c ∷ q)) (some-injective e) (perm_append_singleton c q);
  try_dequeue-contents = λ q e. take_first-perm q e;
  try_dequeue-none = take_first-none;
}

abbrev chunk : ℕ → PcmChunk
chunk n = record { content = []; nb_samples = n; pts_us = pos 0; duration_us = pos 0 }

abbrev calls : List (Option PcmChunk)
calls = some (chunk 10) ∷ some (chunk 20) ∷ some (chunk 30) ∷ none ∷ []

reset-run-IsBalanced_example :
    IsBalanced list_storage
      (run_calls list_storage (reset list_storage 2) (pos 0) calls).0
      (run_calls list_storage (reset list_storage 2) (pos 0) calls).1
reset-run-IsBalanced_example = reset-run-IsBalanced list_storage 2 calls

-- Sound, a question while it plays, and silence behind it.
abbrev given : List Event
given = media 480 (pos 7000) ∷ asks (pos 48000) (pos 400) ∷ silence 100 ∷ silence 60 ∷ []

-- In the silence the last time told is told again.
frozen : (played_pts_us (run (reset list_storage 2) given) (pos 48000) (pos 100)).0 ≡ pos 8666
unfolding run played_pts_us ◌+ℤ◌ ◌-ℤ◌
frozen = refl
