-- ===== src/Notifications/Steps/Unconnected.antt =====
-- A client of packages/js/client/src/ws/notification-client.ts that has no socket.
use bfw_engine.Common.{
  String, ℕ, Bool, true, false, List, [], ◌∷◌, none, lookup, all, Option-cases, inl, inr, ◌≡◌, refl,
  sym, ◌∙◌, ap,
}
use mathlib.Core.Bool.{and-eq-true_iff}
use mathlib.Core.Option.{some-ne-none}
use bfw_engine.Notifications.Phoenix.{Phoenix}
use bfw_engine.Notifications.Client.{
  Client, ClientState, not_connected, join_channel, new_channel, forget, disconnect, new_client,
  join_reply,
}
use bfw_engine.Notifications.Steps.{
  CallbackKind, on_open, on_close, on_error, ClientInput, callback_added, callback_disposed,
  token_resolved, subscribed, joined, join_answered, listener_disposed, instance_disposed,
  disconnected, step, run, update_callbacks, client-receive,
}

module _ (P : Phoenix) where
  abbrev pub connects_not : ClientInput P → Bool
  connects_not (token_resolved token timeout) = false
  connects_not _ = true

  -- no socket, no channel and no reference
  pub record IsUnconnected (client : Client P) : Type 0 where
    pub no_socket : client.socket ≡ none
    pub no_channels : client.channels ≡ []
    pub no_refs : client.socket_refs ≡ []

  -- A client without a socket has no channel and no reference left.
  abbrev pub IsWellFormed : Client P → Type 0
  IsWellFormed client = client.socket ≡ none → IsUnconnected client

  update-IsUnconnected :
      (kind : CallbackKind) (f : List ℕ → List ℕ) (client : Client P)
      → IsUnconnected client
      → IsUnconnected (update_callbacks P kind f client)
  unfolding update_callbacks
  update-IsUnconnected on_open f client h = record {
    no_socket = h.no_socket;
    no_channels = h.no_channels;
    no_refs = h.no_refs;
  }
  update-IsUnconnected on_close f client h = record {
    no_socket = h.no_socket;
    no_channels = h.no_channels;
    no_refs = h.no_refs;
  }
  update-IsUnconnected on_error f client h = record {
    no_socket = h.no_socket;
    no_channels = h.no_channels;
    no_refs = h.no_refs;
  }

  socket-update :
      (kind : CallbackKind) (f : List ℕ → List ℕ) (client : Client P)
      → (update_callbacks P kind f client).socket ≡ client.socket
  unfolding update_callbacks
  socket-update on_open f client = refl
  socket-update on_close f client = refl
  socket-update on_error f client = refl

  join_channel-unconnected :
      (topic : String) (s : ClientState P)
      → IsUnconnected s.0
      → join_channel P topic s
        ≡ (not_connected "NotificationClient is not connected. Call connect() first.", s)
  unfolding join_channel
  join_channel-unconnected topic (client, w) h = simp (join_channel, h.no_channels, h.no_socket)

  step-IsUnconnected :
      (input : ClientInput P) (s : ClientState P)
      → connects_not input ≡ true
      → IsUnconnected s.0
      → IsUnconnected (step P input s).0
  unfolding step
  step-IsUnconnected (callback_added kind callback) (client, w) k h =
      update-IsUnconnected kind _ client h
  step-IsUnconnected (callback_disposed kind callback) (client, w) k h =
      update-IsUnconnected kind _ client h
  step-IsUnconnected (token_resolved token timeout) s k h = cc
  step-IsUnconnected (subscribed topic) s k h = rw (step, join_channel-unconnected topic s h) h
  step-IsUnconnected (joined channel handler) (client, w) k h = h
  step-IsUnconnected (join_answered topic channel handler reply) s k h =
      rw (step, client-receive P (join_reply topic channel reply) handler s) h
  step-IsUnconnected (listener_disposed channel ref) (client, w) k h = h
  step-IsUnconnected (instance_disposed topic channel ref) (client, w) k h = record {
    no_socket = h.no_socket;
    no_channels = ap (forget topic) h.no_channels;
    no_refs = h.no_refs;
  }
  step-IsUnconnected disconnected (client, w) k h = record {
    no_socket = refl;
    no_channels = refl;
    no_refs = refl;
  }

  -- A join leaves the socket as it is.
  socket-join_channel :
      (topic : String) (s : ClientState P) → (join_channel P topic s).1.0.socket ≡ s.0.socket
  unfolding join_channel new_channel
  socket-join_channel topic (client, w) = elim (Option-cases (lookup topic client.channels)) [
    | inr (d, e) ↦ rw (e, join_channel) refl
    | inl e ↦ elim (Option-cases client.socket) [
      | inl f ↦ rw (e, join_channel, f) f
      | inr (socket, f) ↦ rw (e, join_channel, f) f
    ]
  ]

  step-IsWellFormed :
      (input : ClientInput P) (s : ClientState P)
      → IsWellFormed s.0
      → IsWellFormed (step P input s).0
  unfolding step
  step-IsWellFormed (callback_added kind callback) (client, w) h e =
      update-IsUnconnected kind _ client (h (sym (socket-update kind _ client) ∙ e))
  step-IsWellFormed (callback_disposed kind callback) (client, w) h e =
      update-IsUnconnected kind _ client (h (sym (socket-update kind _ client) ∙ e))
  step-IsWellFormed (token_resolved token timeout) (client, w) h e = elim (some-ne-none _ e) [ ]
  step-IsWellFormed (subscribed topic) s h e =
      step-IsUnconnected (subscribed topic) s refl (h (sym (socket-join_channel topic s) ∙ e))
  step-IsWellFormed (joined channel handler) (client, w) h e = h e
  step-IsWellFormed (join_answered topic channel handler reply) s h e =
      let same = client-receive P (join_reply topic channel reply) handler s in
      step-IsUnconnected (join_answered topic channel handler reply) s refl
        (h (sym (ap (λ (client : Client P). client.socket) same) ∙ e))
  step-IsWellFormed (listener_disposed channel ref) (client, w) h e = h e
  step-IsWellFormed (instance_disposed topic channel ref) (client, w) h e =
      step-IsUnconnected (instance_disposed topic channel ref) (client, w) refl (h e)
  step-IsWellFormed disconnected (client, w) h e = record {
    no_socket = refl;
    no_channels = refl;
    no_refs = refl;
  }

  run-IsWellFormed :
      (inputs : List (ClientInput P)) (s : ClientState P)
      → IsWellFormed s.0
      → IsWellFormed (run P inputs s).0
  unfolding run
  run-IsWellFormed [] s h = h
  run-IsWellFormed (input ∷ rest) s h =
      run-IsWellFormed rest (step P input s) (step-IsWellFormed input s h)

  -- In every state that a new client reaches, by any events in any order, no channel and no reference is
  -- left when there is no socket.
  pub new_client-IsWellFormed :
      (inputs : List (ClientInput P)) (ws_url : String) (w : P.World)
      → (run P inputs (new_client P ws_url, w)).0.socket ≡ none
      → IsUnconnected (run P inputs (new_client P ws_url, w)).0
  new_client-IsWellFormed inputs ws_url w =
      run-IsWellFormed inputs (new_client P ws_url, w)
        (λ e. record { no_socket = refl; no_channels = refl; no_refs = refl })

  run-IsUnconnected :
      (inputs : List (ClientInput P)) (s : ClientState P)
      → all connects_not inputs ≡ true
      → IsUnconnected s.0
      → IsUnconnected (run P inputs s).0
  unfolding run
  run-IsUnconnected [] s k h = h
  run-IsUnconnected (input ∷ rest) s k h =
      let both = (and-eq-true_iff (connects_not input) (all connects_not rest)).0 k in
      run-IsUnconnected rest (step P input s) both.1 (step-IsUnconnected input s both.0 h)

  -- After `disconnect`, and whatever follows up to the next connection, a subscription to any topic is
  -- refused with the same message and changes nothing.
  pub join_channel-disconnect :
      (topic : String) (inputs : List (ClientInput P)) (s : ClientState P)
      → all connects_not inputs ≡ true
      → let later = run P inputs (disconnect P s) in
        join_channel P topic later
        ≡ (not_connected "NotificationClient is not connected. Call connect() first.", later)
  unfolding disconnect
  join_channel-disconnect topic inputs (client, w) k =
      join_channel-unconnected topic (run P inputs (disconnect P (client, w))) (
        run-IsUnconnected inputs (disconnect P (client, w)) k
          (record { no_socket = refl; no_channels = refl; no_refs = refl }))
