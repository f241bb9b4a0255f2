-- ===== src/Middleware/Order.antt =====
-- In which order handlers run, which of them decides, and how often the final function is called.
use pondsocket.Prelude.{
  ℕ, zero, suc, ◌≤◌, Option, none, some, List, [], ◌∷◌, ◌++◌, length, ◌≡◌, refl, ◌∙◌, arith,
  append-nil, ◌⊎◌, inl, inr,
}
use pondsocket.Protocol.{Error}
use pondsocket.Middleware.{
  Script, Ending, completes, throws, rejects, Output, final, Handler, run_calls, next, run,
  ending_outputs, handle_error,
}

-- A handler that only delegates.
abbrev pub Delegates : Script → Type 0
Delegates s = (s.calls ≡ none ∷ []) × (s.ending ≡ completes)

-- The errors that a handler passes to `next` where it never delegates.
abbrev pub errors_of : List Error → List (Option Error)
errors_of [] = []
errors_of (e ∷ es) = some e ∷ errors_of es

abbrev pub finals : List Error → List Output
finals [] = []
finals (e ∷ es) = final (some (handle_error e)) ∷ finals es

module _ {Req Res : Type 0} (req : Req) (res : Res) where
  abbrev pub AllDelegate : List (Handler Req Res) → Type 0
  AllDelegate [] = Unit {0}
  AllDelegate (m ∷ ms) = Delegates (m req res) × AllDelegate ms

  run_calls-errors :
      (fuel : ℕ) (es : List Error) (s : List (Handler Req Res))
      → run_calls (next req res (suc fuel)) (errors_of es) s ≡ (s, finals es)
  unfolding run_calls next
  run_calls-errors fuel [] s = refl
  run_calls-errors fuel (e ∷ es) s = rw (run_calls-errors fuel es s)

  run-Delegates :
      (m : Handler Req Res) (rest : List (Handler Req Res))
      → Delegates (m req res)
      → run req res (m ∷ rest) ≡ run req res rest
  unfolding run run_calls ending_outputs
  run-Delegates m rest (calls, ending) = rw (calls, ending) (rw (append-nil _) (append-nil _))

  run-decides :
      (m : Handler Req Res) (rest : List (Handler Req Res)) (es : List Error)
      → (m req res).calls ≡ errors_of es
      → run req res (m ∷ rest) ≡ finals es ++ ending_outputs (m req res).ending
  unfolding run
  run-decides m rest es calls = rw (calls, run_calls-errors (length rest) es rest)

  -- Handlers run in the order of the stack until one does not delegate. That one decides alone: the
  -- final function is called with each error that it passed on, then with the error that it ended by, if
  -- any, and no handler behind it has any effect.
  pub run-first_decides :
      (ms rest : List (Handler Req Res)) (m : Handler Req Res) (es : List Error)
      → AllDelegate ms
      → (m req res).calls ≡ errors_of es
      → run req res (ms ++ m ∷ rest) ≡ finals es ++ ending_outputs (m req res).ending
  run-first_decides [] rest m es d calls = run-decides m rest es calls
  run-first_decides (n ∷ ms) rest m es (d, ds) calls =
      run-Delegates n (ms ++ m ∷ rest) d ∙ run-first_decides ms rest m es ds calls

  -- Where every handler delegates, the final function is called once, without an error.
  pub run-AllDelegate :
      (ms : List (Handler Req Res)) → AllDelegate ms → run req res ms ≡ final none ∷ []
  unfolding run
  run-AllDelegate [] d = refl
  run-AllDelegate (m ∷ ms) (d, ds) = run-Delegates m ms d ∙ run-AllDelegate ms ds

  -- A handler that calls `next` at most once, and that ends without an error if it does.
  abbrev pub Behaves : Script → Type 0
  Behaves s = ((length s.calls ≤ 1) × (s.ending ≡ completes)) ⊎ (s.calls ≡ [])

  abbrev pub AllBehave : List (Handler Req Res) → Type 0
  AllBehave [] = Unit {0}
  AllBehave (m ∷ ms) = Behaves (m req res) × AllBehave ms

  next-behaves :
      (fuel : ℕ) (c : Option Error) (s : List (Handler Req Res))
      → AllBehave s
      → length (next req res fuel c s).1 ≤ 1
  unfolding next run_calls ending_outputs
  next-behaves zero c s b = omega arith
  next-behaves (suc fuel) (some e) s b = omega arith
  next-behaves (suc fuel) none [] b = omega arith
  next-behaves (suc fuel) none (m ∷ rest) (b, bs) =
      go (m req res).calls (m req res).ending b (λ c. next-behaves fuel c rest bs)
    where
      go :
          (cs : List (Option Error)) (e : Ending)
          → ((length cs ≤ 1) × (e ≡ completes)) ⊎ (cs ≡ [])
          → ((c : Option Error) → length (next req res fuel c rest).1 ≤ 1)
          → length ((run_calls (next req res fuel) cs rest).1 ++ ending_outputs e) ≤ 1
      go [] completes b ih = omega arith
      go [] (throws x) b ih = omega arith
      go [] (rejects x) b ih = omega arith
      go (c ∷ []) e (inl (h, ended)) ih = rw (ended, append-nil, append-nil) (ih c)
      go (c ∷ []) e (inr none_made) ih = cc
      go (c ∷ d ∷ cs) e (inl (h, ended)) ih = absurd (omega arith)
      go (c ∷ d ∷ cs) e (inr none_made) ih = cc

  -- If every handler calls `next` at most once, and fails only if it has not called it, the final function
  -- is called at most once, whatever the handlers decide.
  pub run-final_once : (s : List (Handler Req Res)) → AllBehave s → length (run req res s) ≤ 1
  unfolding run
  run-final_once s b = next-behaves (suc (length s)) none s b
