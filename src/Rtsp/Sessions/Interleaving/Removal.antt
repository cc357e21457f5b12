-- ===== src/Rtsp/Sessions/Interleaving/Removal.antt =====
-- RtspSessionManager: Remove keeps the registry consistent.
use video_pipeline.Base.{
  ℕ, ◌+◌, ◌≡◌, ◌≢◌, refl, ap, sym, subst, ◌∙◌, inl, inr, true, false, List, Option, none, some,
  arith, lt→ltb, ==_iff, ◌==◌, if◌then◌else◌, length, Bool-cases,
}
use video_pipeline.Base.Text.{Text, text_eq, text_eq→eq, text_eq_self}
use video_pipeline.Rtsp.Sessions.{
  AddressState, Session, Stats, state_of, keep_others, release, forget_address, count_closed,
  erase_session,
}
use video_pipeline.Rtsp.Sessions.Counting.{
  address_in-none, keep_others-absent, Left, keep_others-Left,
}
use video_pipeline.Rtsp.Sessions.Interleaving.{System, Consistent}
use video_pipeline.Rtsp.Sessions.Interleaving.Changes.{put-active}

-- The one that leaves is released at its address.
active-release :
    (states : Text → Option AddressState) (o : Option AddressState) (address a : Text)
    → states address ≡ o
    → (state_of o).active_connections ≢ 0
    → (state_of (release o address states a)).active_connections
        + (if text_eq a address then 1 else 0)
      ≡ (state_of (states a)).active_connections
unfolding release
active-release states none address a e h = absurd (h refl)
active-release states (some state) address a e h =
    let there = λ (same : text_eq a address ≡ true).
      ap (λ b. (state_of (states b)).active_connections) (text_eq→eq a address same) in
    let here = ap (λ t. (state_of t).active_connections) e in
    rw (lt→ltb 0 state.active_connections (ground arith)) (
      ap (λ n. n + (if text_eq a address then 1 else 0)) (put-active states address _ a)
      ∙ elim (Bool-cases (text_eq a address)) [
        | inl same ↦ rw same (ground (arith, there same, here))
        | inr other ↦ rw other (omega arith)
      ])

erased-Consistent :
    (s : System) (id : ℕ) (address : Text) (kept : List Session)
    → Left id address s.manager.sessions kept
    → s.manager.session_addresses id ≡ some address
    → Consistent s
    → Consistent (record s {
      manager = record (forget_address id s.manager (some address)) {
        sessions = kept;
        stats = count_closed false s.manager.stats;
      };
    })
unfolding forget_address count_closed
erased-Consistent s id address kept left e c = record {
  actives = λ a.
      let states = s.manager.address_states in
      let some_there : (state_of (states address)).active_connections ≢ 0 =
        λ z. ground (arith, z, c.actives address, left.addresses address, text_eq_self address) in
      ground (
        arith,
        active-release states (states address) address a refl some_there,
        left.addresses a,
        c.actives a,
      );
  pending = c.pending;
  addresses = λ j. ground (arith, left.found j, c.addresses j);
  distinct = λ j. omega (arith, left.ids j, c.distinct j);
  fresh = λ j h. omega (arith, left.ids j, c.fresh j h);
  accepted = omega (arith, left.fewer, c.accepted);
}

-- Remove, on what the map of addresses has for the id.
pub removed-Consistent :
    (s : System) (id : ℕ) (o : Option Text)
    → s.manager.session_addresses id ≡ o
    → Consistent s
    → Consistent (record s { manager = erase_session id (forget_address id s.manager o) })
unfolding forget_address erase_session count_closed
removed-Consistent s id none e c =
    let absent = address_in-none s.manager.sessions id (sym (c.addresses id) ∙ e) in
    let all : List Session = s.manager.sessions in
    let stats : Stats = s.manager.stats in
    let with_ = λ (kept : List Session) (t : Stats). record s {
      manager = record s.manager { sessions = kept; stats = t };
    } in
    let same = keep_others-absent id all absent in
    let none_closed = ap (λ b. count_closed b stats) ((==_iff (length all) (length all)).1 refl) in
    subst (λ kept. Consistent (with_ kept (count_closed (length kept == length all) stats)))
      (sym same) (subst (λ t. Consistent (with_ all t)) (sym none_closed) c)
removed-Consistent s id (some address) e c =
    let all : List Session = s.manager.sessions in
    let left =
      keep_others-Left id address all (sym (c.addresses id) ∙ e) (omega (arith, c.distinct id)) in
    let fewer : (length (keep_others id all) == length all) ≡ false = ground (arith, left.fewer) in
    rw fewer (erased-Consistent s id address (keep_others id all) left e c)
