-- ===== src/Rtsp/Sessions/Counting.antt =====
-- RtspSessionManager: how many sessions there are of an id and of an address.
use video_pipeline.Base.{
  ℕ, suc, ◌+◌, ◌≤◌, ◌≡◌, refl, ap, List, [], ◌∷◌, ◌++◌, Option, none, some, arith, ◌==◌,
  if◌then◌else◌, length, Bool-cases, inl, inr,
}
use video_pipeline.Base.Text.{Text, text_eq}
use video_pipeline.Rtsp.Sessions.{Session, keep_others}

-- How often the address is among the texts.
abbrev pub count : Text → List Text → ℕ
count a [] = 0
count a (b ∷ bs) = if text_eq a b then suc (count a bs) else count a bs

abbrev pub count_address : Text → List Session → ℕ
count_address a [] = 0
count_address a (s ∷ ss) =
    if text_eq a s.client_address then suc (count_address a ss) else count_address a ss

abbrev pub count_id : ℕ → List Session → ℕ
count_id id [] = 0
count_id id (s ∷ ss) = if s.id == id then suc (count_id id ss) else count_id id ss

-- The address of the first session with the id.
abbrev pub address_in : List Session → ℕ → Option Text
address_in [] id = none
address_in (s ∷ ss) id = if s.id == id then some s.client_address else address_in ss id

pub count-append : (a : Text) (xs ys : List Text) → count a (xs ++ ys) ≡ count a xs + count a ys
count-append a [] ys = omega arith
count-append a (x ∷ xs) ys = ground (arith, count-append a xs ys)

pub count_address-append :
    (a : Text) (xs ys : List Session)
    → count_address a (xs ++ ys) ≡ count_address a xs + count_address a ys
count_address-append a [] ys = omega arith
count_address-append a (x ∷ xs) ys = ground (arith, count_address-append a xs ys)

pub count_id-append :
    (id : ℕ) (xs ys : List Session) → count_id id (xs ++ ys) ≡ count_id id xs + count_id id ys
count_id-append id [] ys = omega arith
count_id-append id (x ∷ xs) ys = ground (arith, count_id-append id xs ys)

pub address_in-append :
    (ss : List Session) (s : Session) (id : ℕ)
    → count_id s.id ss ≡ 0
    → address_in (ss ++ s ∷ []) id
      ≡ (if id == s.id then some s.client_address else address_in ss id)
address_in-append [] s id h = ground arith
address_in-append (x ∷ ss) s id h = ground (arith, address_in-append ss s id)

pub address_in-none : (ss : List Session) (id : ℕ) → address_in ss id ≡ none → count_id id ss ≡ 0
address_in-none [] id h = refl
address_in-none (s ∷ ss) id h = ground (arith, address_in-none ss id)

pub keep_others-absent : (id : ℕ) (ss : List Session) → count_id id ss ≡ 0 → keep_others id ss ≡ ss
keep_others-absent id [] h = refl
keep_others-absent id (s ∷ ss) h = ground (arith, keep_others-absent id ss)

pub address_in-absent : (ss : List Session) (id : ℕ) → count_id id ss ≡ 0 → address_in ss id ≡ none
address_in-absent [] id h = refl
address_in-absent (s ∷ ss) id h = ground (arith, address_in-absent ss id)

-- What stays when the one session of an id leaves.
pub record Left (id : ℕ) (address : Text) (ss kept : List Session) : Type 0 where
  pub fewer : length ss ≡ suc (length kept)
  pub addresses :
      (a : Text)
      → count_address a ss
        ≡ (if text_eq a address then suc (count_address a kept) else count_address a kept)
  pub ids : (j : ℕ) → count_id j kept ≤ count_id j ss
  pub found : (j : ℕ) → address_in kept j ≡ (if j == id then none else address_in ss j)

pub keep_others-Left :
    (id : ℕ) (address : Text) (ss : List Session)
    → address_in ss id ≡ some address
    → count_id id ss ≤ 1
    → Left id address ss (keep_others id ss)
keep_others-Left id address [] e h = absurd (cc)
keep_others-Left id address (s ∷ ss) e h = elim (Bool-cases (s.id == id)) [
  | inl here ↦
      let gone : count_id id ss ≡ 0 = ground arith in
      let same : s.client_address ≡ address = ground arith in
      rw (here, keep_others-absent id ss gone)
        (record {
          fewer = refl;
          addresses = λ a. rw same refl;
          ids = λ j. ground arith;
          found = λ j. ground (arith, address_in-absent ss id gone);
        })
  | inr other ↦
      let more = keep_others-Left id address ss (ground arith) (ground arith) in
      rw other (record {
        fewer = ap suc more.fewer;
        addresses = λ a. ground (arith, more.addresses a);
        ids = λ j. ground (arith, more.ids j);
        found = λ j. ground (arith, more.found j);
      })
]
