-- ===== src/Rtsp/Sessions/Examples.antt =====
-- RtspSessionManager on a small server: at most three connections, two from an address.
use video_pipeline.Base.{◌≡◌, refl, Bool, true, false, List, [], ◌∷◌, Option, none, some, arith}
use video_pipeline.Base.Int.{pos, ◌-ℤ◌, ◌*ℤ◌}
use video_pipeline.Base.Text.{Text, text_eq}
use video_pipeline.Rtsp.Sessions.{RtspServerOptions, Manager, new_manager, reserve, create, remove}
use video_pipeline.Rtsp.Sessions.Interleaving.{
  System, at_start, removes, Reach, start, then_, Consistent,
}
use video_pipeline.Rtsp.Sessions.Interleaving.Consistency.{Reach-Consistent, create-Reach}
use video_pipeline.Rtsp.Sessions.Interleaving.Limits.{Within, Reach-Within}
use video_pipeline.Rtsp.Sessions.Windows.{fail_all, answers, fail_all_lem}

abbrev alice : Text
alice = 49 ∷ []

abbrev bob : Text
bob = 50 ∷ []

abbrev options : RtspServerOptions
options = record {
  allowed_client_addresses = alice ∷ bob ∷ [];
  max_connections = 3;
  max_connections_per_address = 2;
  connection_attempts_per_address = 10;
  auth_failures_per_address = 3;
  rate_limit_window_ms = pos 60000;
}

-- The third connection of alice, and any of a stranger, is turned down.
attempts : List (Option Text) → Manager → List Bool
unfolding create
attempts [] m = []
attempts (e ∷ es) m =
    let (made, m') = create options 1 e m in
    (elim made [ none ↦ false | some _ ↦ true ]) ∷ attempts es m'

some_rejected :
    attempts (some alice ∷ some alice ∷ some alice ∷ none ∷ some bob ∷ some bob ∷ []) new_manager
    ≡ true ∷ true ∷ false ∷ false ∷ true ∷ false ∷ []
unfolding attempts text_eq ◌-ℤ◌ ◌*ℤ◌
some_rejected = refl

abbrev after : System → Option Text → System
after s endpoint = record s { manager = (create options 1 endpoint s.manager).1 }

abbrev crowd : System
crowd = after (after (after at_start (some alice)) (some bob)) (some alice)

crowd-Reach : Reach options crowd
unfolding at_start create text_eq
crowd-Reach =
    create-Reach 1 (some alice)
      (create-Reach 1 (some bob) (create-Reach 1 (some alice) start (omega arith)) (omega arith))
      (omega arith)

Reach-Consistent_example : Consistent (record crowd { manager = remove 2 crowd.manager })
Reach-Consistent_example = Reach-Consistent (then_ crowd-Reach (removes crowd 2))

Reach-Within_example : Within options (record crowd { manager = remove 2 crowd.manager })
Reach-Within_example = Reach-Within (then_ crowd-Reach (removes crowd 2))

-- The client has been let in first.
abbrev let_in : Manager
let_in = (reserve options 1 (some alice) new_manager).1

fail_all_lem_example :
    fail_all options alice let_in (2 ∷ 3 ∷ 4 ∷ 5 ∷ []) ≡ answers 3 0 (2 ∷ 3 ∷ 4 ∷ 5 ∷ [])
unfolding reserve ◌-ℤ◌ ◌*ℤ◌ text_eq
fail_all_lem_example =
    fail_all_lem options alice (omega arith) let_in 2 (3 ∷ 4 ∷ 5 ∷ []) (omega arith)
      (refl, (refl, (refl, tt))) (omega arith)
