-- ===== src/Endpoint/Soundness.antt =====
-- Every channel engine of an endpoint stays consistent, whichever of the methods in State the handlers call.
pub mod Events
pub mod Joins
pub mod Lobbies
pub mod Steps
pub mod Runs
use pondsocket.Prelude.{
  ℕ, zero, suc, Option, none, some, Option-cases, List, [], ◌∷◌, ◌++◌, ◌≡◌, inl, inr, refl, sym,
  arith, subst,
}
use pondsocket.ChannelEngine.State
use pondsocket.ChannelEngine.State.{ChannelEngine}
use pondsocket.ChannelEngine.Invariant.{IsConsistent}
use pondsocket.ChannelEngine.Preservation.{Keeps}
use pondsocket.Endpoint.State.{
  EndpointEngine, Cell, Exit, done, raised, state, get_elem?, modify, call,
}
use pondsocket.Endpoint.Calls.{settle_call-engines, call_found, call_missed}

abbrev pub AllConsistent : List Cell → Type 0
AllConsistent [] = Unit {0}
AllConsistent (cell ∷ cells) = IsConsistent cell.engine × AllConsistent cells

-- All channel engines of the endpoint are consistent.
pub record IsSound (s : EndpointEngine) : Type 0 where
  pub engines_consistent : AllConsistent s.engines

pub IsSound-engines : {s t : EndpointEngine} → t.engines ≡ s.engines → IsSound s → IsSound t
IsSound-engines h v = record {
  engines_consistent = subst AllConsistent (sym h) v.engines_consistent;
}

AllConsistent-get :
    (cells : List Cell) (i : ℕ) (cell : Cell)
    → get_elem? cells i ≡ some cell
    → AllConsistent cells
    → IsConsistent cell.engine
AllConsistent-get [] i cell h v = cc
AllConsistent-get (c ∷ cs) zero cell h (v, vs) = ground (arith)
AllConsistent-get (c ∷ cs) (suc i) cell h (v, vs) = AllConsistent-get cs i cell h vs

AllConsistent-modify :
    (cells : List Cell) (i : ℕ) (c : ChannelEngine)
    → IsConsistent c
    → AllConsistent cells
    → AllConsistent (modify i (λ (cell : Cell). record cell { engine = c }) cells)
AllConsistent-modify [] i c h v = tt
AllConsistent-modify (d ∷ ds) zero c h (v, vs) = (h, vs)
AllConsistent-modify (d ∷ ds) (suc i) c h (v, vs) = (v, AllConsistent-modify ds i c h vs)

pub AllConsistent-append :
    (cells : List Cell) (cell : Cell)
    → AllConsistent cells
    → IsConsistent cell.engine
    → AllConsistent (cells ++ cell ∷ [])
AllConsistent-append [] cell v h = (h, tt)
AllConsistent-append (c ∷ cs) cell (v, vs) h = (v, AllConsistent-append cs cell vs h)

-- A call of a method that keeps its engine consistent keeps the endpoint sound, whether it returns or throws.
pub call-IsSound :
    {A : Type 0} (id : ℕ) (m : State.M A) (s : EndpointEngine)
    → Keeps m
    → IsSound s
    → IsSound (state (call id m s))
call-IsSound id m s k v = elim (Option-cases (get_elem? s.engines id)) [
  | inl h ↦ subst IsSound (sym (call_missed id m s h)) v
  | inr (cell, h) ↦ rw (call_found id m s cell h) (record {
    engines_consistent =
        subst AllConsistent (sym (settle_call-engines id cell.lobby s (m cell.engine))) (
          AllConsistent-modify s.engines id _
            (k.keeps cell.engine (AllConsistent-get s.engines id cell h v.engines_consistent))
            v.engines_consistent);
  })
]
