-- ===== src/Rtsp/Sessions/Interleaving/Consistency.antt =====
-- RtspSessionManager: the registry is consistent after any run of locked sections.
use video_pipeline.Base.{
  ℕ, ◌+◌, ◌^◌, ◌<◌, ◌≡◌, refl, ap, sym, subst, ◌∙◌, Bool, true, false, [], Option, none, some,
  arith, length,
}
use video_pipeline.Base.Text.{Text}
use video_pipeline.Rtsp.Sessions.{
  RtspServerOptions, AddressState, Manager, Rejection, state_of, address_of, settle, reserve,
  finish, create, remove, no_connections, clear,
}
use video_pipeline.Rtsp.Sessions.Counting.{count, count_address}
use video_pipeline.Rtsp.Sessions.Interleaving.{
  System, at_start, Step, admits, rejects, names, registers, removes, fails, slows, clears, Reach,
  start, then_, Consistent,
}
use video_pipeline.Rtsp.Sessions.Interleaving.Changes.{
  Quiet-Consistent, rejected-Quiet, failed-Quiet, slowed-Quiet, active-reset, admitted-Consistent,
  named-Consistent, registered-Consistent,
}
use video_pipeline.Rtsp.Sessions.Interleaving.Removal.{removed-Consistent}

active-none : (o : Option AddressState) → (state_of (no_connections o)).active_connections ≡ 0
active-none none = refl
active-none (some state) = refl

cleared-Consistent :
    (s : System)
    → s.admitted ≡ []
    → s.named ≡ []
    → Consistent s
    → Consistent (record s {
      manager = clear s.manager;
      discarded = s.discarded + length s.manager.sessions;
    })
unfolding clear
cleared-Consistent s e f c = record {
  actives = λ a.
      active-none (s.manager.address_states a)
      ∙ omega (arith, ap (count a) e, ap (count_address a) f);
  pending = c.pending;
  addresses = λ j. refl;
  distinct = λ j. omega (arith, c.distinct j);
  fresh = λ j h. omega (arith, c.fresh j h);
  accepted = omega (arith, c.accepted);
}

Step-Consistent : {o : RtspServerOptions} {s t : System} → Step o s t → Consistent s → Consistent t
unfolding reserve remove
Step-Consistent {o} (admits s now endpoint m h) c =
    admitted-Consistent (address_of endpoint) _ s _ (active-reset o now _) h c
Step-Consistent {o} (rejects s now endpoint m h) c =
    Quiet-Consistent s m
      (rejected-Quiet (address_of endpoint) _ s.manager _ (active-reset o now _) h) c
Step-Consistent (names s before after a e few) c = named-Consistent s before after a e few c
Step-Consistent (registers s before after x e) c = registered-Consistent s before after x e c
Step-Consistent (removes s id) c = removed-Consistent s id (s.manager.session_addresses id) refl c
Step-Consistent {o} (fails s now client) c =
    Quiet-Consistent s _ (failed-Quiet o s.manager now client) c
Step-Consistent (slows s) c = Quiet-Consistent s _ (slowed-Quiet s.manager) c
Step-Consistent (clears s e f) c = cleared-Consistent s e f c

at_start-Consistent : Consistent at_start
unfolding at_start
at_start-Consistent = record {
  actives = λ a. refl;
  pending = refl;
  addresses = λ id. refl;
  distinct = λ id. omega arith;
  fresh = λ id h. refl;
  accepted = refl;
}

-- Whatever the order of the locked sections is, if Clear runs only while no Create is under way and the ids
-- stay below 2^64, what is noted as active at an address is the connections there are of it, what is pending is the Create calls under way, the map from ids to addresses is that
-- of the sessions, no id is given twice, and the accepted connections are those closed, registered or
-- thrown away by Clear, up to the wrap-around of the counters.
pub Reach-Consistent : {o : RtspServerOptions} {s : System} → Reach o s → Consistent s
Reach-Consistent start = at_start-Consistent
Reach-Consistent (then_ r step) = Step-Consistent step (Reach-Consistent r)

settle-id :
    (client : Text) (state : AddressState) (m : Manager) (v : Option Rejection)
    → (settle client state m v).1.next_session_id ≡ m.next_session_id
unfolding settle
settle-id client state m none = refl
settle-id client state m (some r) = refl

finish-Reach :
    {o : RtspServerOptions} {s : System} (now : ℕ) (endpoint : Option Text) (p : Bool × Manager)
    → Reach o s
    → reserve o now endpoint s.manager ≡ p
    → p.1.next_session_id + 1 < 2 ^ 64
    → Reach o (record s { manager = (finish endpoint p).1 })
unfolding finish
finish-Reach {s} now endpoint (false, m) r e few = then_ r (rejects s now endpoint m e)
finish-Reach {s} now endpoint (true, m) r e few =
    then_
      (then_ (then_ r (admits s now endpoint m e))
        (names _ [] s.admitted (address_of endpoint) refl few))
      (registers _ [] s.named _ refl)

-- A Create that nothing comes between is a run of these steps.
pub create-Reach :
    {o : RtspServerOptions} {s : System} (now : ℕ) (endpoint : Option Text)
    → Reach o s
    → s.manager.next_session_id + 1 < 2 ^ 64
    → Reach o (record s { manager = (create o now endpoint s.manager).1 })
unfolding create reserve
create-Reach {o} {s} now endpoint r few =
    finish-Reach now endpoint (reserve o now endpoint s.manager) r refl
      (subst (λ n. n + 1 < 2 ^ 64) (sym (settle-id (address_of endpoint) _ s.manager _)) few)
