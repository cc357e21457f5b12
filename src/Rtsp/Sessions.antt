-- ===== src/Rtsp/Sessions.antt =====
-- RtspSessionManager of src/media/protocol/rtsp/rtsp_session.cpp: the registry of the clients' sessions,
-- with its limits on connections. `reserve`, `take_id` and `register` are the three sections of Create
-- that hold the lock; `create` is all three with nothing between. Times are nanoseconds of the steady
-- clock. A session is its id and the address of its client; counts of live connections are exact, since
-- each stands for an object in memory.
pub mod Counting
pub mod Interleaving
pub mod Windows
mod Examples
use video_pipeline.Base.{
  ℕ, ◌+◌, ◌-◌, ◌%◌, ◌^◌, Bool, true, false, not, ◌&&◌, ◌||◌, List, [], ◌∷◌, ◌++◌, Option, none,
  some, ltb, leb, ◌==◌, if◌then◌else◌, length,
}
use video_pipeline.Base.Int.{ℤ, pos, ◌-ℤ◌, ◌*ℤ◌, ltb_ℤ}
use video_pipeline.Base.Text.{Text, text_eq}
use video_pipeline.Media.Bitstream.{is_empty}

-- The options that the manager reads; 0 is no limit.
pub record RtspServerOptions : Type 0 where
  pub allowed_client_addresses : List Text
  pub max_connections : ℕ
  pub max_connections_per_address : ℕ
  pub connection_attempts_per_address : ℕ
  pub auth_failures_per_address : ℕ
  pub rate_limit_window_ms : ℤ

pub record AddressState : Type 0 where
  pub window_started : ℕ
  pub connection_attempts : ℕ
  pub auth_failures : ℕ
  pub active_connections : ℕ

pub record Stats : Type 0 where
  pub connections_accepted : ℕ
  pub connections_closed : ℕ
  pub connections_rejected : ℕ
  pub connections_rejected_by_capacity : ℕ
  pub connections_rejected_by_address : ℕ
  pub connections_rejected_by_rate_limit : ℕ
  pub total_auth_failures : ℕ
  pub auth_failures_rejected : ℕ
  pub slow_clients_closed : ℕ

pub record Session : Type 0 where
  pub id : ℕ
  pub client_address : Text

pub record Manager : Type 0 where
  pub sessions : List Session
  pub address_states : Text → Option AddressState
  pub session_addresses : ℕ → Option Text
  pub pending_connections : ℕ
  pub next_session_id : ℕ
  pub stats : Stats

abbrev pub new_state : AddressState
new_state = record {
  window_started = 0;
  connection_attempts = 0;
  auth_failures = 0;
  active_connections = 0;
}

abbrev pub new_manager : Manager
new_manager = record {
  sessions = [];
  address_states = λ a. none;
  session_addresses = λ id. none;
  pending_connections = 0;
  next_session_id = 1;
  stats = record {
    connections_accepted = 0;
    connections_closed = 0;
    connections_rejected = 0;
    connections_rejected_by_capacity = 0;
    connections_rejected_by_address = 0;
    connections_rejected_by_rate_limit = 0;
    total_auth_failures = 0;
    auth_failures_rejected = 0;
    slow_clients_closed = 0;
  };
}

-- `++` on a uint64_t or a size_t.
abbrev pub next : ℕ → ℕ
next n = (n + 1) % 2 ^ 64

-- operator[] of the map from addresses: a missing entry is a new one.
abbrev pub state_of : Option AddressState → AddressState
state_of none = new_state
state_of (some state) = state

abbrev pub put : (Text → Option AddressState) → Text → AddressState → Text → Option AddressState
put states a state b = if text_eq b a then some state else states b

-- The address in text, empty where the endpoint gives an error.
abbrev pub address_of : Option Text → Text
address_of none = []
address_of (some address) = address

abbrev pub member : Text → List Text → Bool
member a [] = false
member a (b ∷ bs) = text_eq a b || member a bs

-- IsClientAddressAllowed, at an address.
abbrev pub is_client_address_allowed : RtspServerOptions → Text → Bool
is_client_address_allowed o address =
    if is_empty o.allowed_client_addresses then true else member address o.allowed_client_addresses

pub reset_address_window : RtspServerOptions → ℕ → AddressState → AddressState
reset_address_window o now state =
    if state.window_started == 0
      || not (ltb_ℤ (pos now -ℤ pos state.window_started) (o.rate_limit_window_ms *ℤ pos 1000000))
    then record state { window_started = now; connection_attempts = 0; auth_failures = 0 }
    else state

-- Why a connection is turned down.
pub data Rejection : Type 0 where
  address_allowlist : Rejection
  global_limit : Rejection
  per_address_limit : Rejection
  rate_limit : Rejection

abbrev pub reached : ℕ → ℕ → Bool
reached limit count = not (limit == 0) && leb limit count

abbrev pub outside_allowlist : RtspServerOptions → Option Text → Bool
outside_allowlist o none = not (is_empty o.allowed_client_addresses)
outside_allowlist o (some address) = not (is_client_address_allowed o address)

pub verdict : RtspServerOptions → Option Text → Manager → AddressState → Option Rejection
verdict o endpoint m state =
    if outside_allowlist o endpoint
    then some address_allowlist
    else if reached o.max_connections (length m.sessions + m.pending_connections)
    then some global_limit
    else if reached o.max_connections_per_address state.active_connections
    then some per_address_limit
    else if reached o.connection_attempts_per_address state.connection_attempts
    then some rate_limit
    else none

pub count_rejection : Rejection → Stats → Stats
count_rejection address_allowlist s = record s {
  connections_rejected = next s.connections_rejected;
  connections_rejected_by_address = next s.connections_rejected_by_address;
}
count_rejection global_limit s = record s {
  connections_rejected = next s.connections_rejected;
  connections_rejected_by_capacity = next s.connections_rejected_by_capacity;
}
count_rejection per_address_limit s = record s {
  connections_rejected = next s.connections_rejected;
  connections_rejected_by_capacity = next s.connections_rejected_by_capacity;
}
count_rejection rate_limit s = record s {
  connections_rejected = next s.connections_rejected;
  connections_rejected_by_rate_limit = next s.connections_rejected_by_rate_limit;
}

-- Create, on the verdict about the connection: whether it may go on.
pub settle : Text → AddressState → Manager → Option Rejection → Bool × Manager
unfolding count_rejection
settle client state m (some reason) = (
  false,
  record m {
    address_states = put m.address_states client state;
    stats = count_rejection reason m.stats;
  },
)
settle client state m none = (
  true,
  record m {
    address_states = put m.address_states client (record state {
      connection_attempts = next state.connection_attempts;
      active_connections = state.active_connections + 1;
    });
    pending_connections = m.pending_connections + 1;
  },
)

-- Create as far as the first time that it lets go of the lock.
unfoldable pub reserve : RtspServerOptions → ℕ → Option Text → Manager → Bool × Manager
unfolding reset_address_window verdict settle
reserve o now endpoint m =
    let client = address_of endpoint in
    let state = reset_address_window o now (state_of (m.address_states client)) in
    settle client state m (verdict o endpoint m state)

unfoldable pub take_id : Manager → ℕ × Manager
take_id m = (m.next_session_id, record m { next_session_id = next m.next_session_id })

-- The Create that registers is one of those pending, so there is one to take away.
unfoldable pub register : Session → Manager → Manager
register s m = record m {
  sessions = m.sessions ++ s ∷ [];
  session_addresses = λ id. if id == s.id then some s.client_address else m.session_addresses id;
  pending_connections = m.pending_connections - 1;
  stats = record m.stats { connections_accepted = next m.stats.connections_accepted };
}

-- Create behind the first locked section: the session, unless the connection is turned down.
pub finish : Option Text → Bool × Manager → Option Session × Manager
unfolding take_id register
finish endpoint (false, m) = (none, m)
finish endpoint (true, m) =
    let (id, m') = take_id m in
    let session : Session = record { id = id; client_address = address_of endpoint } in
    (some session, register session m')

unfoldable pub create : RtspServerOptions → ℕ → Option Text → Manager → Option Session × Manager
unfolding reserve finish
create o now endpoint m = finish endpoint (reserve o now endpoint m)

abbrev pub keep_others : ℕ → List Session → List Session
keep_others id [] = []
keep_others id (s ∷ ss) = if s.id == id then keep_others id ss else s ∷ keep_others id ss

-- One connection fewer at the address, if it has an entry and one to lose.
pub release : Option AddressState → Text → (Text → Option AddressState) → Text → Option AddressState
release none address states = states
release (some state) address states =
    if ltb 0 state.active_connections
    then put states address (record state { active_connections = state.active_connections - 1 })
    else states

pub forget_address : ℕ → Manager → Option Text → Manager
unfolding release
forget_address id m none = m
forget_address id m (some address) = record m {
  address_states = release (m.address_states address) address m.address_states;
  session_addresses = λ j. if j == id then none else m.session_addresses j;
}

pub count_closed : Bool → Stats → Stats
count_closed true s = s
count_closed false s = record s { connections_closed = next s.connections_closed }

-- The sessions without those of the id; a session is counted as closed if there was one.
pub erase_session : ℕ → Manager → Manager
unfolding count_closed
erase_session id m =
    let kept = keep_others id m.sessions in
    record m { sessions = kept; stats = count_closed (length kept == length m.sessions) m.stats }

unfoldable pub remove : ℕ → Manager → Manager
unfolding forget_address erase_session
remove id m = erase_session id (forget_address id m (m.session_addresses id))

-- GetStats, with the number of sessions that it copies in.
abbrev pub get_stats : Manager → Stats × ℕ
get_stats m = (m.stats, length m.sessions)

-- RecordAuthFailure: whether the client may go on.
unfoldable pub record_auth_failure : RtspServerOptions → ℕ → Text → Manager → Bool × Manager
unfolding reset_address_window
record_auth_failure o now client m =
    let state = reset_address_window o now (state_of (m.address_states client)) in
    let failed = record state { auth_failures = next state.auth_failures } in
    let stats = record m.stats { total_auth_failures = next m.stats.total_auth_failures } in
    let m' = record m { address_states = put m.address_states client failed; stats = stats } in
    if reached o.auth_failures_per_address failed.auth_failures
    then (
      false,
      record m' {
        stats = record stats { auth_failures_rejected = next stats.auth_failures_rejected };
      },
    )
    else (true, m')

unfoldable pub record_slow_client_closed : Manager → Manager
record_slow_client_closed m = record m {
  stats = record m.stats { slow_clients_closed = next m.stats.slow_clients_closed };
}

abbrev pub no_connections : Option AddressState → Option AddressState
no_connections none = none
no_connections (some state) = some (record state { active_connections = 0 })

unfoldable pub clear : Manager → Manager
clear m = record m {
  sessions = [];
  session_addresses = λ id. none;
  address_states = λ a. no_connections (m.address_states a);
}
