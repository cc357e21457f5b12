-- ===== src/Rtsp/Sessions/Interleaving.antt =====
-- RtspSessionManager under threads: any number of Create calls, each between two of its locked sections,
-- with the other operations between them in any order.
mod Changes
mod Removal
pub mod Consistency
pub mod Limits
use video_pipeline.Base.{
  ℕ, zero, suc, ◌+◌, ◌%◌, ◌^◌, ◌≤◌, ◌<◌, ◌≡◌, ◌≢◌, refl, ap, sym, subst, ◌∙◌, inl, inr, Bool, true,
  false, List, [], ◌∷◌, ◌++◌, Option, none, some, arith, ltb, lt→ltb, ==_iff, ◌==◌, if◌then◌else◌,
  length, length-append, Bool-cases, Option-cases,
}
use video_pipeline.Base.Text.{Text, text_eq, text_eq→eq, text_eq_self}
use video_pipeline.Rtsp.Sessions.{
  RtspServerOptions, AddressState, Session, Manager, Stats, Rejection, new_manager, next, state_of,
  put, address_of, reset_address_window, verdict, count_rejection, reached, settle,
  address_allowlist, global_limit, per_address_limit, rate_limit, reserve, take_id, finish, create,
  register, keep_others, release, forget_address, count_closed, erase_session, remove,
  record_auth_failure, record_slow_client_closed, no_connections, clear,
}
use video_pipeline.Rtsp.Sessions.Counting.{
  count, count_address, count_id, address_in, count-append, count_address-append, count_id-append,
  address_in-append, address_in-none, address_in-absent, keep_others-absent, Left, keep_others-Left,
}

-- The manager, the addresses of the Create calls that were admitted and have no id yet, the sessions of
-- those that have one and are not registered, and how many sessions Clear has thrown away.
pub record System : Type 0 where
  pub manager : Manager
  pub admitted : List Text
  pub named : List Session
  pub discarded : ℕ

unfoldable pub at_start : System
at_start = record { manager = new_manager; admitted = []; named = []; discarded = 0 }

-- One locked section. Ids do not run out: fewer than 2^64 sessions are made. Clear is called when no
-- Create is under way.
pub data Step (o : RtspServerOptions) : System → System → Type 0 where
  admits :
      (s : System) (now : ℕ) (endpoint : Option Text) (m : Manager)
      → reserve o now endpoint s.manager ≡ (true, m)
      → Step o s (record s { manager = m; admitted = address_of endpoint ∷ s.admitted })
  rejects :
      (s : System) (now : ℕ) (endpoint : Option Text) (m : Manager)
      → reserve o now endpoint s.manager ≡ (false, m)
      → Step o s (record s { manager = m })
  names :
      (s : System) (before after : List Text) (address : Text)
      → s.admitted ≡ before ++ address ∷ after
      → s.manager.next_session_id + 1 < 2 ^ 64
      → Step o s (record s {
        manager = (take_id s.manager).1;
        admitted = before ++ after;
        named = record { id = (take_id s.manager).0; client_address = address } ∷ s.named;
      })
  registers :
      (s : System) (before after : List Session) (session : Session)
      → s.named ≡ before ++ session ∷ after
      → Step o s (record s { manager = register session s.manager; named = before ++ after })
  removes : (s : System) (id : ℕ) → Step o s (record s { manager = remove id s.manager })
  fails :
      (s : System) (now : ℕ) (client : Text)
      → Step o s (record s { manager = (record_auth_failure o now client s.manager).1 })
  slows : (s : System) → Step o s (record s { manager = record_slow_client_closed s.manager })
  -- RtspServerProtocol::Stop calls Clear behind the join of the thread that accepts, so no Create is under
  -- way then; Clear itself does not ask for it.
  clears :
      (s : System)
      → s.admitted ≡ []
      → s.named ≡ []
      → Step o s (record s {
        manager = clear s.manager;
        discarded = s.discarded + length s.manager.sessions;
      })

pub data Reach (o : RtspServerOptions) : System → Type 0 where
  start : Reach o at_start
  then_ : {s t : System} → Reach o s → Step o s t → Reach o t

-- The connections of an address that are not closed, registered or on the way.
abbrev pub live : System → Text → ℕ
live s a = count a s.admitted + count_address a s.named + count_address a s.manager.sessions

-- What the manager has noted as active at an address.
abbrev pub active : Manager → Text → ℕ
active m a = (state_of (m.address_states a)).active_connections

-- How often an id is given, registered or on the way.
abbrev pub occurrences : System → ℕ → ℕ
occurrences s id = count_id id s.named + count_id id s.manager.sessions

-- The counters and the maps tell what there is.
pub record Consistent (s : System) : Type 0 where
  pub actives : (a : Text) → active s.manager a ≡ live s a
  pub pending : s.manager.pending_connections ≡ length s.admitted + length s.named
  pub addresses : (id : ℕ) → s.manager.session_addresses id ≡ address_in s.manager.sessions id
  pub distinct : (id : ℕ) → occurrences s id ≤ 1
  pub fresh : (id : ℕ) → s.manager.next_session_id ≤ id → occurrences s id ≡ 0
  pub accepted :
      s.manager.stats.connections_accepted
      ≡ (s.manager.stats.connections_closed + length s.manager.sessions + s.discarded) % 2 ^ 64
