-- ===== src/Notifications/Tests.antt =====
-- A socket library that only writes down its calls, and the notification client run over it.
use bfw_engine.Common.{
  ℕ, suc, Bool, true, false, not, any, eqb, ◌&&◌, List, [], ◌∷◌, ◌++◌, some, Bool-cases, inl, inr,
  ◌≡◌, refl,
}
use bfw_engine.Notifications.Phoenix.{Phoenix, opened, failed, timed_out}
use bfw_engine.Notifications.Client.{
  Client, ClientState, new_client, join_channel, existing, not_connected,
  attach_lifecycle_callbacks, disconnect, error,
}
use bfw_engine.Notifications.Client.Attached.{keep_refs, attach_lifecycle_callbacks-registrations}
use bfw_engine.Notifications.Connection.{Attempt, milliseconds, begin, deliver_each, resolved}
use bfw_engine.Notifications.Connection.Settling.{deliver_each-first}
use bfw_engine.Notifications.Steps.{
  ClientInput, callback_added, callback_disposed, token_resolved, subscribed, join_answered,
  disconnected, on_open, run,
}
use bfw_engine.Notifications.Steps.Topics.{join_channel-once}
use bfw_engine.Notifications.Steps.Unconnected.{
  IsUnconnected, new_client-IsWellFormed, join_channel-disconnect,
}
use bfw_engine.Notifications.Steps.Registered.{has_callback, callbacks_of, run-registered}

pub data Call : Type 0 where
  made_socket : ℕ → Call
  registered : ℕ → Call
  unregistered : ℕ → List ℕ → Call
  socket_connected socket_disconnected : ℕ → Call
  made_channel joined_channel left_channel : ℕ → Call
  listening stopped : ℕ → Call

-- the calls so far and a number for the next object
abbrev World : Type 0
World = List Call × ℕ

-- whether a call takes a reference off a socket
abbrev takes_off : ℕ → ℕ → Call → Bool
takes_off socket ref (unregistered other refs) = eqb socket other && any (eqb ref) refs
takes_off socket ref _ = false

abbrev make : (ℕ → Call) → World → ℕ × World
make call (calls, n) = (n, (calls ++ call n ∷ [], suc n))

abbrev tell : Call → World → World
tell call (calls, n) = (calls ++ call ∷ [], n)

abbrev recorder : Phoenix
recorder = record {
  World = World;
  Socket = ℕ;
  Channel = ℕ;
  MessageRef = ℕ;
  new_socket = λ url token w. make made_socket w;
  on_open = λ socket callback w. make registered w;
  on_close = λ socket callback w. make registered w;
  on_error = λ socket callback w. make registered w;
  registered = λ socket ref w. not (any (takes_off socket ref) w.0);
  off_refs = λ socket refs w. tell (unregistered socket refs) w;
  connect = λ socket w. tell (socket_connected socket) w;
  disconnect = λ socket w. tell (socket_disconnected socket) w;
  is_connected = λ socket w. true;
  channel = λ socket topic w. make made_channel w;
  join = λ channel w. tell (joined_channel channel) w;
  leave = λ channel w. tell (left_channel channel) w;
  on = λ channel event handler w. make listening w;
  off = λ channel event ref w. tell (stopped ref) w;
}

abbrev start : ClientState recorder
start = (new_client recorder "ws://localhost", ([], 0))

abbrev first_events : List (ClientInput recorder)
first_events =
    callback_added on_open 7
    ∷ token_resolved "token" (milliseconds 500)
    ∷ subscribed "engine:events"
    ∷ []

-- the socket, the user's callback, the two of the attempt, the channel
calls_in_order : (run recorder first_events start).1 ≡ (
  made_socket 0
      ∷ registered 1
      ∷ registered 2
      ∷ registered 3
      ∷ socket_connected 0
      ∷ made_channel 4
      ∷ joined_channel 4
      ∷ [],
  5,
)
unfolding run join_channel
calls_in_order = refl

-- the join is refused, and a second connection is made
abbrev refused_join : List (ClientInput recorder)
refused_join =
    join_answered "engine:events" 4 1 (error "{}") ∷ token_resolved "second" (milliseconds 500) ∷ []

join_channel-once_example :
    let later =
      run recorder refused_join
        (join_channel recorder "engine:events" (run recorder first_events start)).1 in
    join_channel recorder "engine:events" later ≡ (existing 4, later)
unfolding run join_channel
join_channel-once_example =
    join_channel-once recorder "engine:events" 4 refused_join (run recorder first_events start) refl
      refl

new_client-IsWellFormed_example :
    IsUnconnected recorder (run recorder (first_events ++ disconnected ∷ []) start).0
unfolding run disconnect
new_client-IsWellFormed_example =
    new_client-IsWellFormed recorder (first_events ++ disconnected ∷ []) "ws://localhost" ([], 0)
      refl

join_channel-disconnect_example :
    let later =
      run recorder
        (callback_added on_open 8 ∷ [])
        (disconnect recorder (run recorder first_events start)) in
    join_channel recorder "user_tasks:pending" later
    ≡ (not_connected "NotificationClient is not connected. Call connect() first.", later)
join_channel-disconnect_example =
    join_channel-disconnect recorder "user_tasks:pending" (callback_added on_open 8 ∷ [])
      (run recorder first_events start) refl

run-registered_example :
    has_callback 7 (
      callbacks_of recorder on_open
        (run recorder (first_events ++ callback_disposed on_open 7 ∷ []) start).0)
    ≡ false
run-registered_example =
    run-registered recorder (first_events ++ callback_disposed on_open 7 ∷ []) on_open 7 start

abbrev client : Client recorder
client = record (new_client recorder "ws://localhost") {
  socket = some 0;
  open_callbacks = 7 ∷ [];
  error_callbacks = 9 ∷ [];
}

attach_lifecycle_callbacks-registrations_example :
    attach_lifecycle_callbacks recorder (client, ([], 1))
    ≡ keep_refs recorder client (1 ∷ 2 ∷ [], (registered 1 ∷ registered 2 ∷ [], 3))
attach_lifecycle_callbacks-registrations_example =
    attach_lifecycle_callbacks-registrations recorder 0 client ([], 1) refl

abbrev attempt : Attempt recorder
attempt = record { socket = 0; open_ref = 2; error_ref = 3; timeout = milliseconds 500 }

unregistered-last :
    (ref : ℕ) (calls : List Call)
    → any (eqb ref) (2 ∷ 3 ∷ []) ≡ true
    → not (any (takes_off 0 ref) (calls ++ unregistered 0 (2 ∷ 3 ∷ []) ∷ [])) ≡ false
unregistered-last ref [] h = rw h refl
unregistered-last ref (call ∷ calls) h = elim (Bool-cases (takes_off 0 ref call)) [
  | inl e ↦ rw e refl
  | inr e ↦ rw e (unregistered-last ref calls h)
]

deliver_each-first_example :
    deliver_each recorder
      (opened ∷ timed_out ∷ failed ∷ [])
      attempt
      (begin recorder attempt, ([], 4))
    ≡ (record { promise = some resolved; timer = false }, (unregistered 0 (2 ∷ 3 ∷ []) ∷ [], 4))
deliver_each-first_example =
    deliver_each-first recorder attempt (λ w. unregistered-last 2 w.0 refl)
      (λ w. unregistered-last 3 w.0 refl) (opened ∷ timed_out ∷ failed ∷ []) ([], 4) refl refl
