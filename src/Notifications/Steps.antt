-- ===== src/Notifications/Steps.antt =====
-- The events in the life of a notification client (packages/js/client/src/ws/notification-client.ts):
-- the calls of its user, and the continuations of its asynchronous methods, each of which runs alone.
pub mod Topics
pub mod Registered
pub mod Unconnected
use bfw_engine.Common.{String, ℕ, List, [], ◌∷◌, ◌≡◌, refl}
use bfw_engine.Notifications.Phoenix.{Phoenix}
use bfw_engine.Notifications.Client.{
  Client, ClientState, add, delete, join_channel, listen, dispose_listener, dispose_instance,
  disconnect, Reply, Joined, resolved, rejected, join_reply,
}
use bfw_engine.Notifications.Connection.{Timeout, open_socket}

pub data CallbackKind : Type 0 where
  on_open on_close on_error : CallbackKind

module _ (P : Phoenix) where
  pub data ClientInput : Type 0 where
    callback_added callback_disposed : CallbackKind → ℕ → ClientInput
    token_resolved : (token : String) → Timeout → ClientInput
    subscribed : (topic : String) → ClientInput
    joined : P.Channel → (handler : ℕ) → ClientInput
    join_answered : (topic : String) → P.Channel → (handler : ℕ) → Reply → ClientInput
    listener_disposed : P.Channel → P.MessageRef → ClientInput
    instance_disposed : (topic : String) → P.Channel → P.MessageRef → ClientInput
    disconnected : ClientInput

  -- `onSocketOpen`, `onSocketClose` and `onSocketError`, and the `dispose` of what they return
  unfoldable pub update_callbacks : CallbackKind → (List ℕ → List ℕ) → Client P → Client P
  update_callbacks on_open f client = record client { open_callbacks = f client.open_callbacks }
  update_callbacks on_close f client = record client { close_callbacks = f client.close_callbacks }
  update_callbacks on_error f client = record client { error_callbacks = f client.error_callbacks }

  -- What a subscription does with the answer to its join: it listens, or it throws and changes nothing.
  unfoldable pub receive : Joined P.Channel → (handler : ℕ) → ClientState P → ClientState P
  unfolding listen
  receive (resolved channel) handler s = (listen P channel handler s).1
  receive (rejected message) handler s = s

  -- `joined` is a subscription that finds the channel of its topic, and `join_answered` one that asked to
  -- join it.
  unfoldable pub step : ClientInput → ClientState P → ClientState P
  unfolding update_callbacks add delete open_socket join_channel join_reply receive listen
      dispose_listener dispose_instance disconnect
  step (callback_added kind callback) (client, w) = (update_callbacks kind (add callback) client, w)
  step (callback_disposed kind callback) (client, w) =
      (update_callbacks kind (delete callback) client, w)
  step (token_resolved token timeout) s = (open_socket P token timeout s).1
  step (subscribed topic) s = (join_channel P topic s).1
  step (joined channel handler) s = (listen P channel handler s).1
  step (join_answered topic channel handler reply) s =
      receive (join_reply topic channel reply) handler s
  step (listener_disposed channel ref) s = dispose_listener P channel ref s
  step (instance_disposed topic channel ref) s = dispose_instance P topic channel ref s
  step disconnected s = disconnect P s

  pub client-receive :
      (j : Joined P.Channel) (handler : ℕ) (s : ClientState P) → (receive j handler s).0 ≡ s.0
  unfolding receive listen
  client-receive (resolved channel) handler (client, w) = refl
  client-receive (rejected message) handler s = refl

  unfoldable pub run : List ClientInput → ClientState P → ClientState P
  unfolding step
  run [] s = s
  run (input ∷ rest) s = run rest (step input s)
