-- ===== src/Rtsp/Sessions/Interleaving/Changes.antt =====
-- RtspSessionManager: the steps of Create and of the counters keep the registry consistent.
use video_pipeline.Base.{
  ℕ, ◌+◌, ◌^◌, ◌<◌, ◌≡◌, refl, ap, subst, ◌∙◌, inl, inr, true, false, List, [], ◌∷◌, ◌++◌, Option,
  none, some, arith, if◌then◌else◌, length, length-append, Bool-cases,
}
use video_pipeline.Base.Text.{Text, text_eq, text_eq→eq}
use video_pipeline.Rtsp.Sessions.{
  RtspServerOptions, AddressState, Session, Manager, Stats, Rejection, next, state_of, put,
  reset_address_window, count_rejection, reached, settle, address_allowlist, global_limit,
  per_address_limit, rate_limit, take_id, register, record_auth_failure, record_slow_client_closed,
}
use video_pipeline.Rtsp.Sessions.Counting.{
  count, count_address, count_id, count-append, count_address-append, count_id-append,
  address_in-append,
}
use video_pipeline.Rtsp.Sessions.Interleaving.{System, active, Consistent}

-- A change that leaves the connections alone.
pub record Quiet (m m' : Manager) : Type 0 where
  pub actives : (a : Text) → active m' a ≡ active m a
  pub pending : m'.pending_connections ≡ m.pending_connections
  pub sessions : m'.sessions ≡ m.sessions
  pub addresses : (id : ℕ) → m'.session_addresses id ≡ m.session_addresses id
  pub next_id : m'.next_session_id ≡ m.next_session_id
  pub accepted : m'.stats.connections_accepted ≡ m.stats.connections_accepted
  pub closed : m'.stats.connections_closed ≡ m.stats.connections_closed

pub Quiet-Consistent :
    (s : System) (m' : Manager)
    → Quiet s.manager m'
    → Consistent s
    → Consistent (record s { manager = m' })
Quiet-Consistent s m' q c = record {
  actives = λ a. rw q.sessions (q.actives a ∙ c.actives a);
  pending = q.pending ∙ c.pending;
  addresses = λ id. rw q.sessions (q.addresses id ∙ c.addresses id);
  distinct = λ id. rw q.sessions (c.distinct id);
  fresh = λ id h. rw q.sessions (c.fresh id (ground (arith, q.next_id)));
  accepted = rw (q.sessions, q.closed) (q.accepted ∙ c.accepted);
}

active-put :
    (m : Manager) (a : Text) (state : AddressState) (b : Text)
    → state.active_connections ≡ active m a
    → (state_of (put m.address_states a state b)).active_connections ≡ active m b
active-put m a state b e = elim (Bool-cases (text_eq b a)) [
  | inl same ↦ rw (same, text_eq→eq b a same) e
  | inr other ↦ rw other refl
]

pub active-reset :
    (o : RtspServerOptions) (now : ℕ) (state : AddressState)
    → (reset_address_window o now state).active_connections ≡ state.active_connections
unfolding reset_address_window
active-reset o now state = ground arith

-- Only the statistics of rejections change.
put-Quiet :
    (m : Manager) (client : Text) (state : AddressState) (stats : Stats)
    → state.active_connections ≡ active m client
    → stats.connections_accepted ≡ m.stats.connections_accepted
    → stats.connections_closed ≡ m.stats.connections_closed
    → Quiet m (record m { address_states = put m.address_states client state; stats = stats })
put-Quiet m client state stats e accepted closed = record {
  actives = λ a. active-put m client state a e;
  pending = refl;
  sessions = refl;
  addresses = λ id. refl;
  next_id = refl;
  accepted = accepted;
  closed = closed;
}

pub rejected-Quiet :
    (client : Text) (state : AddressState) (m : Manager) (v : Option Rejection) {m' : Manager}
    → state.active_connections ≡ active m client
    → settle client state m v ≡ (false, m')
    → Quiet m m'
unfolding settle count_rejection
rejected-Quiet client state m none e h = absurd (cc)
rejected-Quiet client state m (some address_allowlist) e h =
    subst (Quiet m) (ap (λ p. p.1) h) (put-Quiet m client state _ e refl refl)
rejected-Quiet client state m (some global_limit) e h =
    subst (Quiet m) (ap (λ p. p.1) h) (put-Quiet m client state _ e refl refl)
rejected-Quiet client state m (some per_address_limit) e h =
    subst (Quiet m) (ap (λ p. p.1) h) (put-Quiet m client state _ e refl refl)
rejected-Quiet client state m (some rate_limit) e h =
    subst (Quiet m) (ap (λ p. p.1) h) (put-Quiet m client state _ e refl refl)

pub failed-Quiet :
    (o : RtspServerOptions) (m : Manager) (now : ℕ) (client : Text)
    → Quiet m (record_auth_failure o now client m).1
unfolding record_auth_failure
failed-Quiet o m now client =
    let state = reset_address_window o now (state_of (m.address_states client)) in
    let failed = record state { auth_failures = next state.auth_failures } in
    let same = active-reset o now (state_of (m.address_states client)) in
    elim (Bool-cases (reached o.auth_failures_per_address failed.auth_failures)) [
      | inl e ↦ rw e (put-Quiet m client failed _ same refl refl)
      | inr e ↦ rw e (put-Quiet m client failed _ same refl refl)
    ]

pub slowed-Quiet : (m : Manager) → Quiet m (record_slow_client_closed m)
unfolding record_slow_client_closed
slowed-Quiet m = record {
  actives = λ a. refl;
  pending = refl;
  sessions = refl;
  addresses = λ id. refl;
  next_id = refl;
  accepted = refl;
  closed = refl;
}

pub put-active :
    (states : Text → Option AddressState) (a : Text) (state : AddressState) (b : Text)
    → (state_of (put states a state b)).active_connections
      ≡ (if text_eq b a then state.active_connections else (state_of (states b)).active_connections)
put-active states a state b = elim (Bool-cases (text_eq b a)) [
  | inl e ↦ rw e refl
  | inr e ↦ rw e refl
]

-- An admitted connection is one more at its address.
pub admitted-Consistent :
    (client : Text) (state : AddressState) (s : System) (v : Option Rejection) {m' : Manager}
    → state.active_connections ≡ active s.manager client
    → settle client state s.manager v ≡ (true, m')
    → Consistent s
    → Consistent (record s { manager = m'; admitted = client ∷ s.admitted })
unfolding settle
admitted-Consistent client state s (some r) e h c = absurd (cc)
admitted-Consistent client state s none e h c =
    let there = λ (a : Text) (same : text_eq a client ≡ true).
      ap (λ b. active s.manager b) (text_eq→eq a client same) in
    subst (λ m. Consistent (record s { manager = m; admitted = client ∷ s.admitted }))
      (ap (λ p. p.1) h)
      (record {
        actives = λ a.
            put-active s.manager.address_states client _ a ∙ elim (Bool-cases (text_eq a client)) [
              | inl same ↦ rw same (omega (arith, e, c.actives a, there a same))
              | inr other ↦ rw other (c.actives a)
            ];
        pending = omega (arith, c.pending);
        addresses = c.addresses;
        distinct = c.distinct;
        fresh = c.fresh;
        accepted = c.accepted;
      })

pub named-Consistent :
    (s : System) (before after : List Text) (a : Text)
    → s.admitted ≡ before ++ a ∷ after
    → s.manager.next_session_id + 1 < 2 ^ 64
    → Consistent s
    → Consistent (record s {
      manager = (take_id s.manager).1;
      admitted = before ++ after;
      named = record { id = (take_id s.manager).0; client_address = a } ∷ s.named;
    })
unfolding take_id
named-Consistent s before after a e few c =
    let id = s.manager.next_session_id in
    let free = c.fresh id (omega arith) in
    record {
      actives = λ b.
          c.actives b
          ∙ ground (
            arith,
            ap (count b) e,
            count-append b before (a ∷ after),
            count-append b before after,
          );
      pending =
          c.pending
          ∙ omega
              (arith, ap length e, length-append before (a ∷ after), length-append before after);
      addresses = c.addresses;
      distinct = λ j. ground (arith, c.distinct j, free);
      fresh = λ j h. ground (arith, c.fresh j);
      accepted = c.accepted;
    }

pub registered-Consistent :
    (s : System) (before after : List Session) (x : Session)
    → s.named ≡ before ++ x ∷ after
    → Consistent s
    → Consistent (record s { manager = register x s.manager; named = before ++ after })
unfolding register
registered-Consistent s before after x e c =
    let moved : (j : ℕ)
        → count_id j (before ++ after) + count_id j (s.manager.sessions ++ x ∷ [])
          ≡ count_id j s.named + count_id j s.manager.sessions =
      λ j. ground (
        arith,
        ap (count_id j) e,
        count_id-append j before (x ∷ after),
        count_id-append j before after,
        count_id-append j s.manager.sessions (x ∷ []),
      ) in
    let absent : count_id x.id s.manager.sessions ≡ 0 =
      ground
        (arith, c.distinct x.id, ap (count_id x.id) e, count_id-append x.id before (x ∷ after)) in
    record {
      actives = λ b.
          c.actives b
          ∙ ground (
            arith,
            ap (count_address b) e,
            count_address-append b before (x ∷ after),
            count_address-append b before after,
            count_address-append b s.manager.sessions (x ∷ []),
          );
      pending = omega (
        arith,
        c.pending,
        ap length e,
        length-append before (x ∷ after),
        length-append before after,
      );
      addresses =
          λ j. ground (arith, address_in-append s.manager.sessions x j absent, c.addresses j);
      distinct = λ j. omega (arith, c.distinct j, moved j);
      fresh = λ j h. omega (arith, c.fresh j h, moved j);
      accepted = omega (arith, c.accepted, length-append s.manager.sessions (x ∷ []));
    }
