-- ===== src/Notifications/Steps/Registered.antt =====
-- Which callbacks a client of packages/js/client/src/ws/notification-client.ts has registered, beside
-- an account of them that reads the events alone.
use bfw_engine.Common.{
  eqb-true, String, ℕ, Bool, true, false, ◌||◌, List, [], ◌∷◌, ◌++◌, Option, none, some, lookup,
  set, any, eqb, if◌then◌else◌, Bool-cases, Option-cases, inl, inr, arith, ◌≡◌, refl, ◌∙◌, ap,
}
use bfw_engine.Notifications.Phoenix.{Phoenix}
use bfw_engine.Notifications.Client.{Client, ClientState, add, delete, join_channel, join_reply}
use bfw_engine.Notifications.Steps.{
  CallbackKind, on_open, on_close, on_error, ClientInput, callback_added, callback_disposed,
  token_resolved, subscribed, joined, join_answered, listener_disposed, instance_disposed,
  disconnected, step, run, update_callbacks, client-receive,
}

abbrev pub has_callback : ℕ → List ℕ → Bool
has_callback callback callbacks = any (eqb callback) callbacks

any-append : (a : ℕ) (xs ys : List ℕ) → any (eqb a) (xs ++ ys) ≡ any (eqb a) xs || any (eqb a) ys
any-append a [] ys = refl
any-append a (x ∷ xs) ys = ground (arith, any-append a xs ys)

already :
    (a b : ℕ) (xs : List ℕ)
    → has_callback b xs ≡ true
    → has_callback a xs ≡ (if eqb a b then true else has_callback a xs)
already a b xs e = elim (Bool-cases (eqb a b)) [
  | inl same ↦ rw same (rw (eqb-true a b same) e)
  | inr other ↦ rw other refl
]

added :
    (a b : ℕ) (found : Bool)
    → (found || has_callback a (b ∷ [])) ≡ (if eqb a b then true else found)
added a b true = ground arith
added a b false = ground arith

has_callback-add :
    (a b : ℕ) (xs : List ℕ)
    → has_callback a (add b xs) ≡ (if eqb a b then true else has_callback a xs)
unfolding add
has_callback-add a b xs = elim (Bool-cases (any (eqb b) xs)) [
  | inl e ↦ rw (add, e) (already a b xs e)
  | inr e ↦ rw (add, e) (any-append a xs (b ∷ []) ∙ added a b (has_callback a xs))
]

has_callback-delete :
    (a b : ℕ) (xs : List ℕ)
    → has_callback a (delete b xs) ≡ (if eqb a b then false else has_callback a xs)
unfolding delete
has_callback-delete a b [] = ground arith
has_callback-delete a b (x ∷ xs) = ground (arith, has_callback-delete a b xs)

abbrev same_kind : CallbackKind → CallbackKind → Bool
same_kind on_open on_open = true
same_kind on_close on_close = true
same_kind on_error on_error = true
same_kind _ _ = false

module _ (P : Phoenix) where
  abbrev pub callbacks_of : CallbackKind → Client P → List ℕ
  callbacks_of on_open client = client.open_callbacks
  callbacks_of on_close client = client.close_callbacks
  callbacks_of on_error client = client.error_callbacks

  -- Whether a callback is registered after an event, if the Boolean says so before it.
  abbrev pub registered_after : CallbackKind → ℕ → ClientInput P → Bool → Bool
  registered_after kind callback (callback_added k c) before =
      if same_kind kind k then (if eqb callback c then true else before) else before
  registered_after kind callback (callback_disposed k c) before =
      if same_kind kind k then (if eqb callback c then false else before) else before
  registered_after kind callback _ before = before

  abbrev pub registered : CallbackKind → ℕ → List (ClientInput P) → Bool → Bool
  registered kind callback [] before = before
  registered kind callback (input ∷ rest) before =
      registered kind callback rest (registered_after kind callback input before)

  callbacks_of-update :
      (kind k : CallbackKind) (f : List ℕ → List ℕ) (client : Client P)
      → callbacks_of kind (update_callbacks P k f client)
        ≡ (if same_kind kind k then f (callbacks_of kind client) else callbacks_of kind client)
  unfolding update_callbacks
  callbacks_of-update on_open on_open f client = refl
  callbacks_of-update on_open on_close f client = refl
  callbacks_of-update on_open on_error f client = refl
  callbacks_of-update on_close on_open f client = refl
  callbacks_of-update on_close on_close f client = refl
  callbacks_of-update on_close on_error f client = refl
  callbacks_of-update on_error on_open f client = refl
  callbacks_of-update on_error on_close f client = refl
  callbacks_of-update on_error on_error f client = refl

  callbacks_of-others :
      (kind : CallbackKind) (channels : List (String × P.Channel)) (socket : Option P.Socket)
      (refs : List P.MessageRef) (client : Client P)
      → callbacks_of kind
          (record client { channels = channels; socket = socket; socket_refs = refs })
        ≡ callbacks_of kind client
  callbacks_of-others on_open channels socket refs client = refl
  callbacks_of-others on_close channels socket refs client = refl
  callbacks_of-others on_error channels socket refs client = refl

  callbacks_of-join_channel :
      (kind : CallbackKind) (topic : String) (s : ClientState P)
      → callbacks_of kind (join_channel P topic s).1.0 ≡ callbacks_of kind s.0
  unfolding join_channel
  callbacks_of-join_channel kind topic (client, w) =
      elim (Option-cases (lookup topic client.channels)) [
        | inr (d, e) ↦ rw (e, join_channel) refl
        | inl e ↦ elim (Option-cases client.socket) [
          | inl f ↦ simp (e, join_channel, f)
          | inr (socket, f) ↦
              simp (e, join_channel, f)
                (callbacks_of-others kind (set topic (P.channel socket topic w).0 client.channels)
                  (some socket) client.socket_refs client)
        ]
      ]

  step-registered :
      (input : ClientInput P) (kind : CallbackKind) (callback : ℕ) (s : ClientState P)
      → has_callback callback (callbacks_of kind (step P input s).0)
        ≡ registered_after kind callback input (has_callback callback (callbacks_of kind s.0))
  unfolding step
  step-registered (callback_added k c) kind callback (client, w) =
      elim (Bool-cases (same_kind kind k)) [
        | inl e ↦
            rw (callbacks_of-update kind k (add c) client, e)
              (has_callback-add callback c (callbacks_of kind client))
        | inr e ↦ rw (callbacks_of-update kind k (add c) client, e) refl
      ]
  step-registered (callback_disposed k c) kind callback (client, w) =
      elim (Bool-cases (same_kind kind k)) [
        | inl e ↦
            rw (callbacks_of-update kind k (delete c) client, e)
              (has_callback-delete callback c (callbacks_of kind client))
        | inr e ↦ rw (callbacks_of-update kind k (delete c) client, e) refl
      ]
  step-registered (token_resolved token timeout) kind callback (client, w) =
      ap (has_callback callback) (callbacks_of-others kind client.channels _ _ client)
  step-registered (subscribed topic) kind callback s =
      ap (has_callback callback) (callbacks_of-join_channel kind topic s)
  step-registered (joined channel handler) kind callback (client, w) = refl
  step-registered (join_answered topic channel handler reply) kind callback s =
      ap (λ client. has_callback callback (callbacks_of kind client))
        (client-receive P (join_reply topic channel reply) handler s)
  step-registered (listener_disposed channel ref) kind callback (client, w) = refl
  step-registered (instance_disposed topic channel ref) kind callback (client, w) =
      ap (has_callback callback)
        (callbacks_of-others kind _ client.socket client.socket_refs client)
  step-registered disconnected kind callback (client, w) =
      ap (has_callback callback) (callbacks_of-others kind [] none [] client)

  -- The callbacks of each kind that a client has registered are those that the account of its events
  -- gives: the ones whose last event is an addition and no disposal, across any connections, whatever
  -- the order in which they are held.
  pub run-registered :
      (inputs : List (ClientInput P)) (kind : CallbackKind) (callback : ℕ) (s : ClientState P)
      → has_callback callback (callbacks_of kind (run P inputs s).0)
        ≡ registered kind callback inputs (has_callback callback (callbacks_of kind s.0))
  unfolding run
  run-registered [] kind callback s = refl
  run-registered (input ∷ rest) kind callback s =
      run-registered rest kind callback (step P input s)
      ∙ ap (registered kind callback rest) (step-registered input kind callback s)
