-- ===== src/Notifications/Client.antt =====
-- The state and the operations of `NotificationClient` in
-- packages/js/client/src/ws/notification-client.ts. An asynchronous method is cut where it waits.
pub mod Attached
use Prim.Native.String
use bfw_engine.Common.{
  String, ℕ, Bool, true, false, List, [], ◌∷◌, ◌++◌, Option, none, some, lookup, set, values,
  filter, not, any, eqb, if◌then◌else◌, ◌==◌,
}
use bfw_engine.Notifications.Phoenix.{Phoenix, Callback, listener}

-- A `Set` of functions, in the order of insertion.
unfoldable pub add : ℕ → List ℕ → List ℕ
add callback callbacks =
    if any (eqb callback) callbacks then callbacks else callbacks ++ callback ∷ []

unfoldable pub delete : ℕ → List ℕ → List ℕ
delete callback callbacks = filter (λ other. not (eqb callback other)) callbacks

-- `channels.delete(topic)`
unfoldable pub forget {ℓ} : {V : Type ℓ} → String → List (String × V) → List (String × V)
forget topic [] = []
forget topic ((k, v) ∷ rest) =
    let later = forget topic rest in if k == topic then later else (k, v) ∷ later

module _ (P : Phoenix) where
  pub record Client : Type 0 where
    pub ws_url : String
    pub socket : Option P.Socket
    pub channels : List (String × P.Channel)
    pub open_callbacks : List ℕ
    pub close_callbacks : List ℕ
    pub error_callbacks : List ℕ
    pub socket_refs : List P.MessageRef

  abbrev pub ClientState : Type 0
  ClientState = Client × P.World

  abbrev pub new_client : String → Client
  new_client ws_url = record {
    ws_url = ws_url;
    socket = none;
    channels = [];
    open_callbacks = [];
    close_callbacks = [];
    error_callbacks = [];
    socket_refs = [];
  }

  -- `for (const callback of callbacks) this.socketRefs.push(register(callback))`
  abbrev pub register_each :
      (Callback → P.World → P.MessageRef × P.World)
      → List ℕ
      → List P.MessageRef × P.World
      → List P.MessageRef × P.World
  register_each register [] (refs, w) = (refs, w)
  register_each register (callback ∷ rest) (refs, w) =
      let (ref, w') = register (listener callback) w in
      register_each register rest (refs ++ ref ∷ [], w')

  -- `attachLifecycleCallbacks`, past its guard
  unfoldable pub attach_to : P.Socket → ClientState → ClientState
  attach_to socket (client, w) =
      let opened = register_each (P.on_open socket) client.open_callbacks ([], w) in
      let closed = register_each (P.on_close socket) client.close_callbacks opened in
      let (refs, w') = register_each (P.on_error socket) client.error_callbacks closed in
      (record client { socket_refs = refs }, w')

  unfoldable pub attach_lifecycle_callbacks : ClientState → ClientState
  unfolding attach_to
  attach_lifecycle_callbacks (client, w) = elim client.socket [
    | none ↦ (client, w)
    | some socket ↦ attach_to socket (client, w)
  ]

  unfoldable pub connected : ClientState → Bool
  connected (client, w) = elim client.socket [
    | none ↦ false
    | some socket ↦ P.is_connected socket w
  ]

  -- What the synchronous part of `joinChannel` leads to.
  pub data Join : Type 0 where
    existing joining : P.Channel → Join
    not_connected : (message : String) → Join

  -- a channel is made, stored and asked to join
  unfoldable pub new_channel : String → P.Socket → ClientState → Join × ClientState
  new_channel topic socket (client, w) =
      let (channel, w') = P.channel socket topic w in
      (
        joining channel,
        (record client { channels = set topic channel client.channels }, P.join channel w'),
      )

  unfoldable pub join_channel : String → ClientState → Join × ClientState
  unfolding new_channel
  join_channel topic (client, w) = elim (lookup topic client.channels) [
    | some channel ↦ (existing channel, (client, w))
    | none ↦ elim client.socket [
      | none ↦
          (not_connected "NotificationClient is not connected. Call connect() first.", (client, w))
      | some socket ↦ new_channel topic socket (client, w)
    ]
  ]

  -- `channel.on('engine_event', handler)`, when the channel has been awaited
  unfoldable pub listen : P.Channel → ℕ → ClientState → P.MessageRef × ClientState
  listen channel handler (client, w) =
      let (ref, w') = P.on channel "engine_event" handler w in (ref, (client, w'))

  -- `dispose` of `onEngineEvent` and `subscribePendingUserTasks`
  unfoldable pub dispose_listener : P.Channel → P.MessageRef → ClientState → ClientState
  dispose_listener channel ref (client, w) = (client, P.off channel "engine_event" ref w)

  -- `dispose` of `subscribeProcessInstance`
  unfoldable pub dispose_instance : String → P.Channel → P.MessageRef → ClientState → ClientState
  unfolding forget
  dispose_instance topic channel ref (client, w) = (
    record client { channels = forget topic client.channels },
    P.leave channel (P.off channel "engine_event" ref w),
  )

  abbrev pub leave_each : List P.Channel → P.World → P.World
  leave_each [] w = w
  leave_each (channel ∷ rest) w = leave_each rest (P.leave channel w)

  -- `this.socket?.disconnect()`
  abbrev pub disconnect_socket : Option P.Socket → P.World → P.World
  disconnect_socket none w = w
  disconnect_socket (some socket) w = P.disconnect socket w

  unfoldable pub disconnect : ClientState → ClientState
  disconnect (client, w) = (
    record client { channels = []; socket_refs = []; socket = none },
    disconnect_socket client.socket (leave_each (values client.channels) w),
  )

-- What a reply to a join makes of the promise: the channel, or the message of an error. The text is
-- `JSON.stringify(response)`.
pub data Reply : Type 0 where
  ok timeout : Reply
  error : (response : String) → Reply

pub data Joined (C : Type 0) : Type 0 where
  resolved : C → Joined C
  rejected : (message : String) → Joined C

unfoldable pub join_reply : {C : Type 0} → String → C → Reply → Joined C
join_reply topic channel ok = resolved channel
join_reply topic channel (error response) =
    rejected (String.◌++◌ "Failed to join channel " (String.◌++◌ topic (String.◌++◌ ": " response)))
join_reply topic channel timeout = rejected (String.◌++◌ "Timeout joining channel " topic)

-- The three methods that subscribe, until they await the channel.
module _ (P : Phoenix) where
  abbrev pub on_engine_event : ClientState P → Join P × ClientState P
  on_engine_event s = join_channel P "engine:events" s

  abbrev pub subscribe_process_instance : String → ClientState P → Join P × ClientState P
  subscribe_process_instance process_instance_id s =
      join_channel P (String.◌++◌ "process_instance:" process_instance_id) s

  abbrev pub subscribe_pending_user_tasks : ClientState P → Join P × ClientState P
  subscribe_pending_user_tasks s = join_channel P "user_tasks:pending" s
