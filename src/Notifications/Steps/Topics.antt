-- ===== src/Notifications/Steps/Topics.antt =====
-- What the client of packages/js/client/src/ws/notification-client.ts holds for a topic over the events
-- of its life.
use bfw_engine.Common.{
  String, ℕ, Bool, true, false, not, List, [], ◌∷◌, Option, none, some, lookup, lookup-set, all,
  ◌==◌, eq_iff, eq_refl, if◌then◌else◌, Bool-cases, Option-cases, inl, inr, arith, ◌≡◌, refl, sym,
  ◌∙◌, ap,
}
use mathlib.Core.Bool.{and-eq-true_iff}
use mathlib.Core.Option.{some-ne-none}
use bfw_engine.Notifications.Phoenix.{Phoenix}
use bfw_engine.Notifications.Client.{
  Client, ClientState, Join, existing, joining, not_connected, join_channel, new_channel, forget,
  join_reply,
}
use bfw_engine.Notifications.Steps.{
  CallbackKind, on_open, on_close, on_error, ClientInput, callback_added, callback_disposed,
  token_resolved, subscribed, joined, join_answered, listener_disposed, instance_disposed,
  disconnected, step, run, update_callbacks, client-receive,
}

lookup-forget :
    {V : Type 0} (topic other : String) (m : List (String × V))
    → (topic == other) ≡ false
    → lookup other (forget topic m) ≡ lookup other m
unfolding forget
lookup-forget topic other [] h = refl
lookup-forget topic other ((k, v) ∷ rest) h =
    ground
      (arith, eq_iff topic other, eq_iff k topic, eq_iff k other, lookup-forget topic other rest h)

module _ (P : Phoenix) where
  -- Whether an event leaves the channel of a topic in its place.
  abbrev pub keeps_topic : String → ClientInput P → Bool
  keeps_topic topic disconnected = false
  keeps_topic topic (instance_disposed other channel ref) = not (other == topic)
  keeps_topic topic _ = true

  -- The channel that a join leads to.
  abbrev pub held : Join P → Option P.Channel
  held (existing channel) = some channel
  held (joining channel) = some channel
  held (not_connected message) = none

  abbrev pub channel_of : String → ClientState P → Option P.Channel
  channel_of topic s = lookup topic s.0.channels

  channels-update :
      (kind : CallbackKind) (f : List ℕ → List ℕ) (client : Client P)
      → (update_callbacks P kind f client).channels ≡ client.channels
  unfolding update_callbacks
  channels-update on_open f client = refl
  channels-update on_close f client = refl
  channels-update on_error f client = refl

  -- A topic has the channel that a join of it leads to.
  channel_of-join :
      (topic : String) (s : ClientState P)
      → channel_of topic (join_channel P topic s).1 ≡ held (join_channel P topic s).0
  unfolding join_channel
  channel_of-join topic (client, w) = elim (Option-cases (lookup topic client.channels)) [
    | inr (c, e) ↦ rw (e, join_channel) e
    | inl e ↦ elim (Option-cases client.socket) [
      | inl f ↦ rw (e, join_channel, f) e
      | inr (socket, f) ↦
          rw (e, join_channel, f)
            (lookup-set topic topic (P.channel socket topic w).0 client.channels
              ∙ rw (eq_refl topic) refl)
    ]
  ]

  apart :
      (topic other : String) (c d : P.Channel) (m : List (String × P.Channel))
      → lookup other m ≡ none
      → lookup topic m ≡ some c
      → (if other == topic then some d else lookup topic m) ≡ some c
  apart topic other c d m e h = elim (Bool-cases (other == topic)) [
    | inl same ↦ elim (some-ne-none c (sym h ∙ rw (← (eq_iff other topic).0 same) e)) [ ]
    | inr differs ↦ rw differs h
  ]

  join_channel-keeps :
      (topic other : String) (c : P.Channel) (s : ClientState P)
      → channel_of topic s ≡ some c
      → channel_of topic (join_channel P other s).1 ≡ some c
  unfolding join_channel new_channel
  join_channel-keeps topic other c (client, w) h =
      elim (Option-cases (lookup other client.channels)) [
        | inr (d, e) ↦ rw (e, join_channel) h
        | inl e ↦ elim (Option-cases client.socket) [
          | inl f ↦ rw (e, join_channel, f) h
          | inr (socket, f) ↦
              rw (e, join_channel, f)
                (lookup-set other topic (P.channel socket other w).0 client.channels
                  ∙ apart topic other c (P.channel socket other w).0 client.channels e h)
        ]
      ]

  step-keeps_topic :
      (input : ClientInput P) (topic : String) (c : P.Channel) (s : ClientState P)
      → keeps_topic topic input ≡ true
      → channel_of topic s ≡ some c
      → channel_of topic (step P input s) ≡ some c
  unfolding step
  step-keeps_topic (callback_added kind callback) topic c (client, w) k h =
      ap (lookup topic) (channels-update kind _ client) ∙ h
  step-keeps_topic (callback_disposed kind callback) topic c (client, w) k h =
      ap (lookup topic) (channels-update kind _ client) ∙ h
  step-keeps_topic (token_resolved token timeout) topic c (client, w) k h = h
  step-keeps_topic (subscribed other) topic c s k h = join_channel-keeps topic other c s h
  step-keeps_topic (joined channel handler) topic c (client, w) k h = h
  step-keeps_topic (join_answered other channel handler reply) topic c s k h =
      rw (step, client-receive P (join_reply other channel reply) handler s) h
  step-keeps_topic (listener_disposed channel ref) topic c (client, w) k h = h
  step-keeps_topic (instance_disposed other channel ref) topic c (client, w) k h =
      lookup-forget other topic client.channels (grind arith) ∙ h
  step-keeps_topic disconnected topic c (client, w) k h = cc

  run-keeps_topic :
      (inputs : List (ClientInput P)) (topic : String) (c : P.Channel) (s : ClientState P)
      → all (keeps_topic topic) inputs ≡ true
      → channel_of topic s ≡ some c
      → channel_of topic (run P inputs s) ≡ some c
  unfolding run
  run-keeps_topic [] topic c s k h = h
  run-keeps_topic (input ∷ rest) topic c s k h =
      let both = (and-eq-true_iff (keeps_topic topic input) (all (keeps_topic topic) rest)).0 k in
      run-keeps_topic rest topic c (step P input s) both.1
        (step-keeps_topic input topic c s both.0 h)

  join_channel-existing :
      (topic : String) (c : P.Channel) (s : ClientState P)
      → channel_of topic s ≡ some c
      → join_channel P topic s ≡ (existing c, s)
  unfolding join_channel
  join_channel-existing topic c (client, w) h = rw (join_channel, h) refl

  -- A topic is joined once: if subscribing to it leads to a channel, then subscribing again after any
  -- events, among them a new connection or an answer that refuses the join, gives the same channel and calls
  -- nothing, as long as no event disconnects or disposes of a subscription to that process instance.
  pub join_channel-once :
      (topic : String) (c : P.Channel) (inputs : List (ClientInput P)) (s : ClientState P)
      → held (join_channel P topic s).0 ≡ some c
      → all (keeps_topic topic) inputs ≡ true
      → let later = run P inputs (join_channel P topic s).1 in
        join_channel P topic later ≡ (existing c, later)
  join_channel-once topic c inputs s h k =
      join_channel-existing topic c (run P inputs (join_channel P topic s).1)
        (run-keeps_topic inputs topic c (join_channel P topic s).1 k (channel_of-join topic s ∙ h))
