-- ===== src/Middleware/Tests.antt =====
-- Runs of stacks of handlers, at which the theorems apply.
use pondsocket.Prelude.{◌≤◌, none, some, [], ◌∷◌, ◌++◌, length, ◌≡◌, refl, inl, inr, arith, String}
use pondsocket.Protocol.{http_error, plain_error}
use pondsocket.Middleware.{completes, throws, Handler, next, run, ending_outputs}
use pondsocket.Middleware.Laws.{next-enough}
use pondsocket.Middleware.Order.{finals, run-first_decides, run-final_once}

abbrev delegate : Handler String String
delegate req res = record { calls = none ∷ []; ending = completes }

abbrev refuse : Handler String String
refuse req res = record { calls = some (http_error 401 "no") ∷ []; ending = completes }

abbrev fail : Handler String String
fail req res = record { calls = []; ending = throws (plain_error "broken") }

next-enough_example :
    next "a" "b" 4 none (delegate ∷ refuse ∷ []) ≡ next "a" "b" 3 none (delegate ∷ refuse ∷ [])
next-enough_example = next-enough "a" "b" 3 none (delegate ∷ refuse ∷ []) (omega arith)

run-first_decides_example :
    run "a" "b" ((delegate ∷ []) ++ refuse ∷ fail ∷ [])
    ≡ finals (http_error 401 "no" ∷ []) ++ ending_outputs completes
run-first_decides_example =
    run-first_decides "a" "b" (delegate ∷ []) (fail ∷ []) refuse (http_error 401 "no" ∷ [])
      ((refl, refl), tt) refl

run-final_once_example : length (run "a" "b" (delegate ∷ fail ∷ [])) ≤ 1
run-final_once_example =
    run-final_once "a" "b" (delegate ∷ fail ∷ []) (inl (omega arith, refl), (inr refl, tt))
