-- ===== src/Middleware.antt =====
-- javascript/core/src/abstracts/middleware.ts. A handler is code of the application: it is known by what
-- it does with the `next` that it is given and by how it ends. All handlers of a run share one index
-- into the stack, which is here the rest of the stack.
pub mod Laws
pub mod Order
mod Tests
use pondsocket.Prelude.{ℕ, zero, suc, Option, none, some, List, [], ◌∷◌, ◌++◌, length}
use pondsocket.Protocol.{Error, http_error, plain_error, thrown_value}

-- It returns (or its promise is fulfilled), it throws, or its promise is rejected.
pub data Ending : Type 0 where
  completes : Ending
  throws rejects : Error → Ending

-- The arguments of its calls of `next`, in order, and its end.
pub record Script : Type 0 where
  pub calls : List (Option Error)
  pub ending : Ending

-- A call of the final function, at once or when a rejection is handled.
pub data Output : Type 0 where
  final : Option Error → Output
  final_later : Error → Output

-- `#handleError`.
unfoldable pub handle_error : Error → Error
handle_error (http_error code message) = http_error code message
handle_error (plain_error message) = http_error 500 message
handle_error thrown_value = http_error 500 "An error occurred while processing the request"

unfoldable pub ending_outputs : Ending → List Output
unfolding handle_error
ending_outputs completes = []
ending_outputs (throws e) = final (some (handle_error e)) ∷ []
ending_outputs (rejects e) = final_later (handle_error e) ∷ []

abbrev pub Handler : Type 0 → Type 0 → Type 0
Handler Req Res = Req → Res → Script

module _ {Req Res : Type 0} where
  -- `use`: one handler, or the stack of another middleware.
  unfoldable pub use_handler : Handler Req Res → List (Handler Req Res) → List (Handler Req Res)
  use_handler m stack = stack ++ m ∷ []

  unfoldable pub use_middleware :
      List (Handler Req Res) → List (Handler Req Res) → List (Handler Req Res)
  use_middleware second stack = stack ++ second

  -- A handler's calls of `next`, one after another.
  unfoldable pub run_calls :
      (Option Error → List (Handler Req Res) → List (Handler Req Res) × List Output)
      → List (Option Error)
      → List (Handler Req Res)
      → List (Handler Req Res) × List Output
  run_calls next [] stack = (stack, [])
  run_calls next (c ∷ cs) stack =
      let (rest, out) = next c stack in
      let (rest', out') = run_calls next cs rest in (rest', out ++ out')

  module _ (req : Req) (res : Res) where
    -- `next`, on fuel for how deep the handlers call one another.
    unfoldable pub next :
        ℕ → Option Error → List (Handler Req Res) → List (Handler Req Res) × List Output
    unfolding run_calls ending_outputs handle_error
    next zero e stack = (stack, [])
    next (suc fuel) (some e) stack = (stack, final (some (handle_error e)) ∷ [])
    next (suc fuel) none [] = ([], final none ∷ [])
    next (suc fuel) none (m ∷ rest) =
        let (rest', out) = run_calls (next fuel) (m req res).calls rest in
        (rest', out ++ ending_outputs (m req res).ending)

    unfoldable pub run : List (Handler Req Res) → List Output
    unfolding next
    run stack = (next (suc (length stack)) none stack).1
