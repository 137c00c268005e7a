-- ===== src/Notifications/Client/Attached.antt =====
-- The order in which `attachLifecycleCallbacks` of
-- packages/js/client/src/ws/notification-client.ts registers the callbacks.
use bfw_engine.Common.{ℕ, List, [], ◌∷◌, ◌++◌, map, some, ◌≡◌, refl, sym, ◌∙◌, ap}
use bfw_engine.Notifications.Phoenix.{Phoenix, listener}
use bfw_engine.Notifications.Client.{
  Client, ClientState, register_each, attach_to, attach_lifecycle_callbacks,
}

-- A registration by the event that it is for.
pub data Registration : Type 0 where
  for_open for_close for_error : ℕ → Registration

module _ (P : Phoenix) where
  abbrev pub registrations : Client P → List Registration
  registrations client =
      map for_open client.open_callbacks
      ++ (map for_close client.close_callbacks ++ map for_error client.error_callbacks)

  abbrev pub register : P.Socket → Registration → P.World → P.MessageRef × P.World
  register socket (for_open callback) w = P.on_open socket (listener callback) w
  register socket (for_close callback) w = P.on_close socket (listener callback) w
  register socket (for_error callback) w = P.on_error socket (listener callback) w

  abbrev pub register_all :
      P.Socket → List Registration → List P.MessageRef × P.World → List P.MessageRef × P.World
  register_all socket [] (refs, w) = (refs, w)
  register_all socket (r ∷ rest) (refs, w) =
      let (ref, w') = register socket r w in register_all socket rest (refs ++ ref ∷ [], w')

  register_all-append :
      (socket : P.Socket) (rs ss : List Registration) (s : List P.MessageRef × P.World)
      → register_all socket (rs ++ ss) s ≡ register_all socket ss (register_all socket rs s)
  register_all-append socket [] ss s = refl
  register_all-append socket (r ∷ rest) ss s = register_all-append socket rest ss _

  register_all-open :
      (socket : P.Socket) (callbacks : List ℕ) (s : List P.MessageRef × P.World)
      → register_all socket (map for_open callbacks) s
        ≡ register_each P (P.on_open socket) callbacks s
  register_all-open socket [] s = refl
  register_all-open socket (c ∷ rest) s = register_all-open socket rest _

  register_all-close :
      (socket : P.Socket) (callbacks : List ℕ) (s : List P.MessageRef × P.World)
      → register_all socket (map for_close callbacks) s
        ≡ register_each P (P.on_close socket) callbacks s
  register_all-close socket [] s = refl
  register_all-close socket (c ∷ rest) s = register_all-close socket rest _

  register_all-error :
      (socket : P.Socket) (callbacks : List ℕ) (s : List P.MessageRef × P.World)
      → register_all socket (map for_error callbacks) s
        ≡ register_each P (P.on_error socket) callbacks s
  register_all-error socket [] s = refl
  register_all-error socket (c ∷ rest) s = register_all-error socket rest _

  -- The client that keeps the references of some registrations.
  abbrev pub keep_refs : Client P → List P.MessageRef × P.World → ClientState P
  keep_refs client (refs, w) = (record client { socket_refs = refs }, w)

  register_all-registrations :
      (socket : P.Socket) (client : Client P) (s : List P.MessageRef × P.World)
      → register_all socket (registrations client) s
        ≡ register_each P (P.on_error socket) client.error_callbacks (
            register_each P
              (P.on_close socket)
              client.close_callbacks
              (register_each P (P.on_open socket) client.open_callbacks s))
  register_all-registrations socket client s =
      register_all-append socket (map for_open client.open_callbacks) _ s
      ∙ (register_all-append socket (map for_close client.close_callbacks) _ _
          ∙ rw
              (
                register_all-open socket client.open_callbacks s,
                register_all-close socket client.close_callbacks
                    (register_each P (P.on_open socket) client.open_callbacks s),
              )
              (register_all-error socket client.error_callbacks _))

  -- With a socket, the callbacks are registered on it as one list: those for opening, then those for
  -- closing, then those for errors, each in the order in which they were added; the references that the
  -- client keeps are what these registrations return, in that order.
  pub attach_lifecycle_callbacks-registrations :
      (socket : P.Socket) (client : Client P) (w : P.World)
      → client.socket ≡ some socket
      → attach_lifecycle_callbacks P (client, w)
        ≡ keep_refs client (register_all socket (registrations client) ([], w))
  unfolding attach_lifecycle_callbacks attach_to
  attach_lifecycle_callbacks-registrations socket client w h =
      simp (attach_lifecycle_callbacks, h)
        (ap (keep_refs (record client { socket = some socket }))
          (sym (register_all-registrations socket client ([], w))))
