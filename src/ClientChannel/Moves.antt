-- ===== src/ClientChannel/Moves.antt =====
-- The states of javascript/client/src/core/channel.ts that its subscribers are told of.
use pondsocket.Prelude.{
  ℕ, zero, suc, String, Bool, true, false, List, [], ◌∷◌, ◌++◌, ◌≡◌, ◌⊎◌, inl, inr, refl, ap, sym,
  ◌∙◌, subst, arith, if◌then◌else◌, map,
}
use pondsocket.Protocol.{PondObject, ChannelEvent}
use pondsocket.Schema.{ClientMessage}
use pondsocket.ClientChannel.{
  Channel, ChannelState, idle, joining, joined, stalled, closed, declined, ConnectionState, Effect,
  send, state_change, error_event, receive_event, resolve_response, reject_response, threw,
  acknowledge, initialise, is_stale_reply, follow_connection, follow_orphans, send_join_request,
  end_waiting, decline, join, connection_changed, join_timed_out, leave, publish, send_for_response,
  response_timed_out, receive, handle_event,
}
use pondsocket.ClientChannel.Invariant.{
  IsSound, follow_connection-IsSound, follow_orphans-IsSound, connected-IsSound, followed-IsSound,
}
use pondsocket.ClientChannel.Machine.{
  Op, join_op, leave_op, acknowledge_op, decline_op, connection_op, join_timer_op, publish_op,
  response_op, response_timer_op, receive_op, step, changes, may_move, leads,
}

changes-append : (es fs : List Effect) → changes (es ++ fs) ≡ changes es ++ changes fs
unfolding changes
changes-append [] fs = refl
changes-append (state_change s ∷ es) fs = ap (λ ss. s ∷ ss) (changes-append es fs)
changes-append (send m ∷ es) fs = changes-append es fs
changes-append (error_event p ∷ es) fs = changes-append es fs
changes-append (receive_event v ∷ es) fs = changes-append es fs
changes-append (resolve_response id p ∷ es) fs = changes-append es fs
changes-append (reject_response id ∷ es) fs = changes-append es fs
changes-append (threw e ∷ es) fs = changes-append es fs

changes-sends : (ms : List ClientMessage) → changes (map send ms) ≡ []
unfolding changes
changes-sends [] = refl
changes-sends (m ∷ ms) = changes-sends ms

State-cases :
    (s : ChannelState)
    → (s ≡ idle)
      ⊎ ((s ≡ joining) ⊎ ((s ≡ joined) ⊎ ((s ≡ stalled) ⊎ ((s ≡ closed) ⊎ (s ≡ declined)))))
State-cases idle = inl refl
State-cases joining = inr (inl refl)
State-cases joined = inr (inr (inl refl))
State-cases stalled = inr (inr (inr (inl refl)))
State-cases closed = inr (inr (inr (inr (inl refl))))
State-cases declined = inr (inr (inr (inr (inr refl))))

pub join-leads :
    (id : String) (c : Channel)
    → c.has_left ≡ false
    → IsSound c
    → leads c.join_state (changes ((join id c).1)) ((join id c).0.join_state) ≡ true
unfolding join send_join_request changes leads may_move
join-leads id c k h = ground (arith, State-cases c.join_state)

pub follow_connection-leads :
    (id : String) (c : Channel)
    → c.has_left ≡ false
    → IsSound c
    → leads c.join_state
        (changes ((follow_connection id c).1))
        ((follow_connection id c).0.join_state)
      ≡ true
unfolding follow_connection send_join_request changes leads may_move
follow_connection-leads id c k h = ground (arith, State-cases c.join_state)

pub end_waiting-leads :
    (id : String) (c : Channel)
    → c.has_left ≡ false
    → IsSound c
    → leads c.join_state (changes ((end_waiting id c).1)) ((end_waiting id c).0.join_state) ≡ true
unfolding end_waiting send_join_request changes leads may_move
end_waiting-leads id c k h = ground (arith, State-cases c.join_state)

pub decline-leads :
    (payload : PondObject) (id : String) (c : Channel)
    → c.has_left ≡ false
    → IsSound c
    → leads c.join_state (changes ((decline payload id c).1)) ((decline payload id c).0.join_state)
      ≡ true
unfolding decline is_stale_reply changes leads may_move
decline-leads payload id c k h = ground (arith, State-cases c.join_state)

pub join_timed_out-leads :
    (id : String) (c : Channel)
    → c.has_left ≡ false
    → IsSound c
    → leads c.join_state (changes ((join_timed_out id c).1)) ((join_timed_out id c).0.join_state)
      ≡ true
unfolding join_timed_out decline is_stale_reply changes leads may_move
join_timed_out-leads id c k h = ground (arith, State-cases c.join_state)

pub leave-leads :
    (id : String) (c : Channel)
    → c.has_left ≡ false
    → IsSound c
    → leads c.join_state (changes ((leave id c).1)) ((leave id c).0.join_state) ≡ true
unfolding leave changes leads may_move
leave-leads id c k h = ground (arith, State-cases c.join_state)

pub acknowledge-leads :
    (fresh_id : String) (id : String) (c : Channel)
    → c.has_left ≡ false
    → IsSound c
    → leads c.join_state
        (changes ((acknowledge fresh_id id c).1))
        ((acknowledge fresh_id id c).0.join_state)
      ≡ true
unfolding acknowledge initialise is_stale_reply follow_connection send_join_request changes leads
    may_move
acknowledge-leads fresh_id id c k h =
    ground (arith, State-cases c.join_state, changes-sends c.queue)

pub receive-leads :
    (v : ChannelEvent) (c : Channel)
    → c.has_left ≡ false
    → IsSound c
    → leads c.join_state (changes ((receive v c).1)) ((receive v c).0.join_state) ≡ true
unfolding receive handle_event changes leads may_move
receive-leads v c k h = ground (arith, State-cases c.join_state)

pub response_timed_out-leads :
    (id : String) (c : Channel)
    → c.has_left ≡ false
    → IsSound c
    → leads c.join_state
        (changes ((response_timed_out id c).1))
        ((response_timed_out id c).0.join_state)
      ≡ true
unfolding response_timed_out changes leads may_move
response_timed_out-leads id c k h = ground (arith, State-cases c.join_state)

pub publish-leads :
    (m : ClientMessage) (c : Channel)
    → c.has_left ≡ false
    → IsSound c
    → leads c.join_state
        (changes ((step (publish_op m) c).1))
        ((step (publish_op m) c).0.join_state)
      ≡ true
unfolding step publish changes leads may_move
publish-leads m c k h = ground (arith, State-cases c.join_state)

pub send_for_response-leads :
    (m : ClientMessage) (c : Channel)
    → c.has_left ≡ false
    → IsSound c
    → leads c.join_state
        (changes ((send_for_response m c).1))
        ((send_for_response m c).0.join_state)
      ≡ true
unfolding send_for_response publish changes leads may_move
send_for_response-leads m c k h = ground (arith, State-cases c.join_state)

leads-append :
    (s t u : ChannelState) (ss ts : List ChannelState)
    → leads s ss t ≡ true
    → leads t ts u ≡ true
    → leads s (ss ++ ts) u ≡ true
unfolding leads
leads-append s t u [] ts h k = ground (arith, State-cases s, State-cases t)
leads-append s t u (x ∷ ss) ts h k = ground (arith, leads-append x t u ss ts)

follow_connection-has_left :
    (id : String) (c : Channel) → (follow_connection id c).0.has_left ≡ c.has_left
unfolding follow_connection send_join_request
follow_connection-has_left id c = ground arith

-- What a part of a step does: it leaves the channel in place, and what it tells leads to the state.
record Goes (c : Channel) (r : Channel × List Effect) : Type 0 where
  kept : r.0.has_left ≡ c.has_left
  told : leads c.join_state (changes r.1) r.0.join_state ≡ true

then-Goes :
    (c d : Channel) (es : List Effect) (r : Channel × List Effect)
    → Goes c (d, es)
    → Goes d r
    → Goes c (r.0, es ++ r.1)
then-Goes c d es r h k = record {
  kept = k.kept ∙ h.kept;
  told =
      subst (λ ss. leads c.join_state ss r.0.join_state ≡ true) (sym (changes-append es r.1))
        (leads-append c.join_state d.join_state r.0.join_state (changes es) (changes r.1) h.told
          k.told);
}

stays : (c : Channel) → Goes c (c, [])
unfolding leads changes
stays c = record { kept = refl; told = ground (arith, State-cases c.join_state) }

follow_connection-Goes :
    (id : String) (c : Channel) → c.has_left ≡ false → IsSound c → Goes c (follow_connection id c)
follow_connection-Goes id c k h = record {
  kept = follow_connection-has_left id c;
  told = follow_connection-leads id c k h;
}

followed-Goes :
    (b : Bool) (id : String) (c : Channel)
    → c.has_left ≡ false
    → IsSound c
    → Goes c (if b then follow_connection id c else (c, []))
followed-Goes true id c k h = follow_connection-Goes id c k h
followed-Goes false id c k h = stays c

follow_orphans-Goes :
    (n : ℕ) (ids : ℕ → String) (c : Channel)
    → c.has_left ≡ false
    → IsSound c
    → Goes c (follow_orphans n ids c)
unfolding follow_orphans
follow_orphans-Goes zero ids c k h = stays c
follow_orphans-Goes (suc n) ids c k h =
    let d = (follow_connection (ids n) c).0 in
    then-Goes c d ((follow_connection (ids n) c).1) (follow_orphans n ids d)
      (follow_connection-Goes (ids n) c k h)
      (follow_orphans-Goes n ids d (follow_connection-has_left (ids n) c ∙ k)
        (follow_connection-IsSound (ids n) c h))

end_waiting-Goes :
    (id : String) (c : Channel) → c.has_left ≡ false → IsSound c → Goes c (end_waiting id c)
unfolding end_waiting send_join_request
end_waiting-Goes id c k h = record { kept = ground arith; told = end_waiting-leads id c k h }

connection_changed-leads :
    (s : ConnectionState) (id : String) (ids : ℕ → String) (c : Channel)
    → c.has_left ≡ false
    → IsSound c
    → leads c.join_state
        (changes ((connection_changed s id ids c).1))
        ((connection_changed s id ids c).0.join_state)
      ≡ true
unfolding connection_changed
connection_changed-leads s id ids c k h =
    let c1 = record c { client_state = s } in
    let r2 = if c.is_initialised then follow_connection id c1 else (c1, []) in
    let g2 = followed-Goes c.is_initialised id c1 k (connected-IsSound s c h) in
    let s2 = followed-IsSound c.is_initialised id c1 (connected-IsSound s c h) in
    let k2 = g2.kept ∙ k in
    let r3 = follow_orphans c.orphans ids r2.0 in
    let g3 = follow_orphans-Goes c.orphans ids r2.0 k2 s2 in
    let s3 = follow_orphans-IsSound c.orphans ids r2.0 s2 in
    let g4 = end_waiting-Goes id r3.0 (g3.kept ∙ k2) s3 in
    let g34 = then-Goes r2.0 r3.0 r3.1 (end_waiting id r3.0) g3 g4 in
    (then-Goes c1 r2.0 r2.1 (_, r3.1 ++ (end_waiting id r3.0).1) g2 g34).told

-- In a step of a sound channel that was not left, its subscribers are told of every change of its state:
-- the states told of lead, one allowed change at a time, from the state before the step to the state after.
pub step-leads :
    (o : Op) (c : Channel)
    → c.has_left ≡ false
    → IsSound c
    → leads c.join_state (changes ((step o c).1)) ((step o c).0.join_state) ≡ true
unfolding step
step-leads (join_op id) c k h = join-leads id c k h
step-leads (leave_op id) c k h = leave-leads id c k h
step-leads (acknowledge_op fresh_id id) c k h = acknowledge-leads fresh_id id c k h
step-leads (decline_op payload id) c k h = decline-leads payload id c k h
step-leads (connection_op s id ids) c k h = connection_changed-leads s id ids c k h
step-leads (join_timer_op id) c k h = join_timed_out-leads id c k h
step-leads (publish_op m) c k h = publish-leads m c k h
step-leads (response_op m) c k h = send_for_response-leads m c k h
step-leads (response_timer_op id) c k h = response_timed_out-leads id c k h
step-leads (receive_op v) c k h = receive-leads v c k h
