-- ===== src/Middleware/Laws.antt =====
-- A run ends: the fuel that `run` gives is enough, and more fuel changes nothing.
use pondsocket.Prelude.{
  ℕ, zero, suc, ◌≤◌, ◌<◌, Option, none, some, List, [], ◌∷◌, length, ◌≡◌, refl, arith,
}
use pondsocket.Protocol.{Error}
use pondsocket.Middleware.{Output, Handler, run_calls, next}

module _ {Req Res : Type 0} (req : Req) (res : Res) where
  abbrev Next : Type 0
  Next = Option Error → List (Handler Req Res) → List (Handler Req Res) × List Output

  -- The index only moves forward.
  run_calls-length :
      (n : Next)
      → ((c : Option Error) (s : List (Handler Req Res)) → length (n c s).0 ≤ length s)
      → (cs : List (Option Error)) (s : List (Handler Req Res))
      → length (run_calls n cs s).0 ≤ length s
  unfolding run_calls
  run_calls-length n h [] s = omega arith
  run_calls-length n h (c ∷ cs) s = omega (arith, h c s, run_calls-length n h cs (n c s).0)

  next-length :
      (fuel : ℕ) (c : Option Error) (s : List (Handler Req Res))
      → length (next req res fuel c s).0 ≤ length s
  unfolding next
  next-length zero c s = omega arith
  next-length (suc fuel) (some e) s = omega arith
  next-length (suc fuel) none [] = omega arith
  next-length (suc fuel) none (m ∷ rest) =
      omega (arith, run_calls-length (next req res fuel) (next-length fuel) (m req res).calls rest)

  run_calls-agree :
      (n n' : Next) (bound : ℕ)
      → ((c : Option Error) (s : List (Handler Req Res)) → length (n c s).0 ≤ length s)
      → ((c : Option Error) (s : List (Handler Req Res)) → length s < bound → n' c s ≡ n c s)
      → (cs : List (Option Error)) (s : List (Handler Req Res)) → length s < bound
      → run_calls n' cs s ≡ run_calls n cs s
  unfolding run_calls
  run_calls-agree n n' bound shrink agree [] s h = refl
  run_calls-agree n n' bound shrink agree (c ∷ cs) s h = rw (
    agree c s h,
    run_calls-agree n n' bound shrink agree cs (n c s).0 (omega (arith, shrink c s)),
  )

  -- One unit of fuel for each handler left, and one more, is enough: with that much fuel a
  -- further unit changes neither what is left nor what is called.
  pub next-enough :
      (fuel : ℕ) (c : Option Error) (s : List (Handler Req Res))
      → length s < fuel
      → next req res (suc fuel) c s ≡ next req res fuel c s
  unfolding next
  next-enough zero c s h = absurd (omega arith)
  next-enough (suc fuel) (some e) s h = refl
  next-enough (suc fuel) none [] h = refl
  next-enough (suc fuel) none (m ∷ rest) h = rw (
      run_calls-agree (next req res fuel) (next req res (suc fuel)) fuel (next-length fuel)
        (next-enough fuel) (m req res).calls rest (omega arith))
