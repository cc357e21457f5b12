-- ===== src/Rtsp/Sessions/Interleaving/Limits.antt =====
-- RtspSessionManager: the limits on connections hold under every interleaving.
use video_pipeline.Base.{
  ℕ, ◌+◌, ◌≤◌, ◌≡◌, ◌≢◌, refl, ap, sym, inl, inr, true, false, List, [], ◌∷◌, ◌++◌, Option, none,
  some, arith, length, length-append, Bool-cases, subst,
}
use video_pipeline.Base.Text.{Text, text_eq, text_eq→eq}
use video_pipeline.Rtsp.Sessions.{
  RtspServerOptions, AddressState, Session, Manager, Rejection, state_of, address_of,
  is_client_address_allowed, outside_allowlist, reached, reset_address_window, verdict, settle,
  reserve, take_id, register, keep_others, forget_address, erase_session, remove, clear,
}
use video_pipeline.Rtsp.Sessions.Counting.{count, count_address, count-append, count_address-append}
use video_pipeline.Rtsp.Sessions.Interleaving.{
  System, at_start, Step, admits, rejects, names, registers, removes, fails, slows, clears, Reach,
  start, then_, live, active, Consistent,
}
use video_pipeline.Rtsp.Sessions.Interleaving.Changes.{
  rejected-Quiet, failed-Quiet, slowed-Quiet, active-reset,
}
use video_pipeline.Rtsp.Sessions.Interleaving.Consistency.{Reach-Consistent}

-- All connections that are not closed, registered or on the way.
abbrev pub connections : System → ℕ
connections s = length s.admitted + length s.named + length s.manager.sessions

-- The limits of the options, where 0 is none, and the allowlist.
pub record Within (o : RtspServerOptions) (s : System) : Type 0 where
  pub total : o.max_connections ≢ 0 → connections s ≤ o.max_connections
  pub each :
      o.max_connections_per_address ≢ 0 → (a : Text) → live s a ≤ o.max_connections_per_address
  pub allowed : (a : Text) → live s a ≢ 0 → is_client_address_allowed o a ≡ true

record Fewer (s t : System) : Type 0 where
  total : connections t ≤ connections s
  each : (a : Text) → live t a ≤ live s a

Fewer-Within : {o : RtspServerOptions} (s t : System) → Fewer s t → Within o s → Within o t
Fewer-Within s t f w = record {
  total = λ h. omega (arith, f.total, w.total h);
  each = λ h a. omega (arith, f.each a, w.each h a);
  allowed = λ a h. w.allowed a (λ z. h (omega (arith, f.each a, z)));
}

same_sessions :
    (s : System) (m : Manager)
    → m.sessions ≡ s.manager.sessions
    → Fewer s (record s { manager = m })
same_sessions s m e = record {
  total = omega (arith, ap length e);
  each = λ a. omega (arith, ap (count_address a) e);
}

keep_others-fewer :
    (id : ℕ) (ss : List Session)
    → (length (keep_others id ss) ≤ length ss)
      × ((a : Text) → count_address a (keep_others id ss) ≤ count_address a ss)
keep_others-fewer id [] = (omega arith, λ a. omega arith)
keep_others-fewer id (s ∷ ss) =
    let (n, c) = keep_others-fewer id ss in (ground (arith, n), λ a. ground (arith, c a))

forget_address-sessions :
    (id : ℕ) (m : Manager) (o : Option Text) → (forget_address id m o).sessions ≡ m.sessions
unfolding forget_address
forget_address-sessions id m none = refl
forget_address-sessions id m (some a) = refl

removed-Fewer : (s : System) (id : ℕ) → Fewer s (record s { manager = remove id s.manager })
unfolding remove erase_session
removed-Fewer s id =
    let (n, c) = keep_others-fewer id s.manager.sessions in
    let same = forget_address-sessions id s.manager (s.manager.session_addresses id) in
    let kept = ap (keep_others id) same in
    record {
      total = omega (arith, n, ap length kept);
      each = λ a. omega (arith, c a, ap (count_address a) kept);
    }

named-Fewer :
    (s : System) (before after : List Text) (a : Text)
    → s.admitted ≡ before ++ a ∷ after
    → Fewer s (record s {
      manager = (take_id s.manager).1;
      admitted = before ++ after;
      named = record { id = (take_id s.manager).0; client_address = a } ∷ s.named;
    })
unfolding take_id
named-Fewer s before after a e = record {
  total = omega (arith, ap length e, length-append before (a ∷ after), length-append before after);
  each = λ b.
      ground
        (arith, ap (count b) e, count-append b before (a ∷ after), count-append b before after);
}

registered-Fewer :
    (s : System) (before after : List Session) (x : Session)
    → s.named ≡ before ++ x ∷ after
    → Fewer s (record s { manager = register x s.manager; named = before ++ after })
unfolding register
registered-Fewer s before after x e = record {
  total = omega (
    arith,
    ap length e,
    length-append before (x ∷ after),
    length-append before after,
    length-append s.manager.sessions (x ∷ []),
  );
  each = λ b. ground (
    arith,
    ap (count_address b) e,
    count_address-append b before (x ∷ after),
    count_address-append b before after,
    count_address-append b s.manager.sessions (x ∷ []),
  );
}

cleared-Fewer :
    (s : System)
    → Fewer s (record s {
      manager = clear s.manager;
      discarded = s.discarded + length s.manager.sessions;
    })
unfolding clear
cleared-Fewer s = record { total = omega arith; each = λ a. omega arith }

-- A connection that is admitted keeps to the limits.
record Room (o : RtspServerOptions) (endpoint : Option Text) (m : Manager) (state : AddressState)
    : Type 0 where
  inside : outside_allowlist o endpoint ≡ false
  total : reached o.max_connections (length m.sessions + m.pending_connections) ≡ false
  each : reached o.max_connections_per_address state.active_connections ≡ false

verdict-Room :
    (o : RtspServerOptions) (endpoint : Option Text) (m : Manager) (state : AddressState)
    → verdict o endpoint m state ≡ none
    → Room o endpoint m state
unfolding verdict
verdict-Room o endpoint m state h = ground arith

settle-admits :
    (client : Text) (state : AddressState) (m m' : Manager) (v : Option Rejection)
    → settle client state m v ≡ (true, m')
    → (v ≡ none) × (m'.sessions ≡ m.sessions)
unfolding settle
settle-admits client state m m' none h = (refl, ap (λ p. p.1.sessions) (sym h))
settle-admits client state m m' (some r) h = absurd (cc)

inside-allowed :
    (o : RtspServerOptions) (endpoint : Option Text)
    → outside_allowlist o endpoint ≡ false
    → is_client_address_allowed o (address_of endpoint) ≡ true
inside-allowed o none h = ground arith
inside-allowed o (some a) h = ground arith

admitted-Within :
    (o : RtspServerOptions) (endpoint : Option Text) (s : System) (m : Manager)
    (state : AddressState)
    → m.sessions ≡ s.manager.sessions
    → state.active_connections ≡ active s.manager (address_of endpoint)
    → Room o endpoint s.manager state
    → Consistent s
    → Within o s
    → Within o (record s { manager = m; admitted = address_of endpoint ∷ s.admitted })
admitted-Within o endpoint s m state e f r c w =
    let client = address_of endpoint in
    let same = λ (a : Text). ap (count_address a) e in
    record {
      total = λ h. ground (arith, r.total, c.pending, ap length e);
      each = λ h a. elim (Bool-cases (text_eq a client)) [
        | inl match ↦
            subst
              (λ b.
                live (record s { manager = m; admitted = client ∷ s.admitted }) b
                ≤ o.max_connections_per_address)
              (sym (text_eq→eq a client match))
              (ground (arith, r.each, f, c.actives client, same client))
        | inr other ↦ rw other (omega (arith, w.each h a, same a))
      ];
      allowed = λ a h. elim (Bool-cases (text_eq a client)) [
        | inl match ↦
            subst (λ b. is_client_address_allowed o b ≡ true) (sym (text_eq→eq a client match))
              (inside-allowed o endpoint r.inside)
        | inr other ↦ w.allowed a (λ z. h (rw other (omega (arith, z, same a))))
      ];
    }

Step-Within :
    {o : RtspServerOptions} {s t : System} → Step o s t → Consistent s → Within o s → Within o t
unfolding reserve
Step-Within {o} (admits s now endpoint m h) c w =
    let client = address_of endpoint in
    let state = reset_address_window o now (state_of (s.manager.address_states client)) in
    let (e, same) = settle-admits client state s.manager m (verdict o endpoint s.manager state) h in
    admitted-Within o endpoint s m state same (active-reset o now _)
      (verdict-Room o endpoint s.manager state e) c w
Step-Within {o} (rejects s now endpoint m h) c w =
    let q = rejected-Quiet (address_of endpoint) _ s.manager _ (active-reset o now _) h in
    Fewer-Within s _ (same_sessions s m q.sessions) w
Step-Within (names s before after a e few) c w = Fewer-Within s _ (named-Fewer s before after a e) w
Step-Within (registers s before after x e) c w =
    Fewer-Within s _ (registered-Fewer s before after x e) w
Step-Within (removes s id) c w = Fewer-Within s _ (removed-Fewer s id) w
Step-Within {o} (fails s now client) c w =
    Fewer-Within s _ (same_sessions s _ (failed-Quiet o s.manager now client).sessions) w
Step-Within (slows s) c w = Fewer-Within s _ (same_sessions s _ (slowed-Quiet s.manager).sessions) w
Step-Within (clears s e f) c w = Fewer-Within s _ (cleared-Fewer s) w

at_start-Within : (o : RtspServerOptions) → Within o at_start
unfolding at_start
at_start-Within o = record {
  total = λ h. omega arith;
  each = λ h a. omega arith;
  allowed = λ a h. absurd (h refl);
}

-- Whatever the order of the locked sections is, if Clear runs only while no Create is under way and the ids
-- stay below 2^64, the connections that are registered or on the way keep to the limit on all of them and to
-- the limit on each address, and are from allowed addresses.
pub Reach-Within : {o : RtspServerOptions} {s : System} → Reach o s → Within o s
Reach-Within {o} start = at_start-Within o
Reach-Within (then_ r step) = Step-Within step (Reach-Consistent r) (Reach-Within r)
