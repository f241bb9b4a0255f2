-- ===== src/Presence/Tests.antt =====
-- Runs of the presence engine, at which the theorems apply.
use pondsocket.Prelude.{some, [], ◌∷◌, ◌≡◌, refl, ◌==◌, if◌then◌else◌, includes, is_some}
use pondsocket.JsMap.{get, has}
use pondsocket.Protocol.{update, PondObject, str}
use pondsocket.Presence.{PresenceEngine, process_presence_action}
use pondsocket.Presence.Laws.{published, process_presence_action-writes}

abbrev away : PondObject
away = ("status", str "away") ∷ []

abbrev engine : PresenceEngine
engine = record { channel_id = "room"; cache = ("ann", []) ∷ ("bob", []) ∷ [] }

process_presence_action-writes_example :
    let r = published update "ann" (some away) "r1" engine in
    (get "ann" r.0.cache ≡ (if "ann" == "ann" then some away else get "ann" engine.cache))
    × (includes r.1.recipients "ann"
        ≡ (if "ann" == "ann" then is_some (some away) else has "ann" engine.cache))
unfolding process_presence_action has
process_presence_action-writes_example =
    process_presence_action-writes update "ann" "r1" "ann" (some away) engine
      (published update "ann" (some away) "r1" engine).0
      (published update "ann" (some away) "r1" engine).1 refl
