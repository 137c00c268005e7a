-- ===== src/Notifications/Connection.antt =====
-- `connect` of packages/js/client/src/ws/notification-client.ts: what it does once the token is there,
-- and how the promise that it returns settles. A timeout is a number of milliseconds or Infinity.
pub mod Settling
use Prim.Native.String
use bfw_engine.Common.{
  String, ℕ, Bool, true, false, List, [], ◌∷◌, Option, none, some, ltb, decimal, or_default,
  if◌then◌else◌,
}
use bfw_engine.Notifications.Phoenix.{Phoenix, ConnectOutcome, opened, failed, timed_out, settles}
use bfw_engine.Notifications.Client.{Client, ClientState, attach_lifecycle_callbacks}

pub data Timeout : Type 0 where
  milliseconds : ℕ → Timeout
  infinite : Timeout

abbrev pub effective_timeout : Option Timeout → Timeout
effective_timeout timeout = or_default timeout (milliseconds 10000)

-- `effectiveTimeout > 0 && effectiveTimeout < Infinity`
abbrev pub has_timer : Timeout → Bool
has_timer (milliseconds n) = ltb 0 n
has_timer infinite = false

-- `String(effectiveTimeout)`
abbrev pub timeout_text : Timeout → String
timeout_text (milliseconds n) = decimal n
timeout_text infinite = "Infinity"

pub data Settlement : Type 0 where
  resolved : Settlement
  rejected : (message : String) → Settlement

unfoldable pub settlement : Timeout → ConnectOutcome → Settlement
unfolding decimal
settlement timeout opened = resolved
settlement timeout timed_out =
    rejected (
      String.◌++◌ "WebSocket connection timed out after "
        (String.◌++◌ (timeout_text timeout) " ms"))
settlement timeout failed = rejected "WebSocket connection failed"

module _ (P : Phoenix) where
  -- What the two callbacks and the timer of an attempt hold.
  pub record Attempt : Type 0 where
    pub socket : P.Socket
    pub open_ref : P.MessageRef
    pub error_ref : P.MessageRef
    pub timeout : Timeout

  unfoldable pub open_socket : (token : String) → Timeout → ClientState P → Attempt × ClientState P
  unfolding attach_lifecycle_callbacks
  open_socket token timeout (client, w) =
      let (socket, w1) = P.new_socket client.ws_url token w in
      let (client', w2) =
        attach_lifecycle_callbacks P (record client { socket = some socket }, w1) in
      let (open_ref, w3) = P.on_open socket (settles opened) w2 in
      let (error_ref, w4) = P.on_error socket (settles failed) w3 in
      (
        record { socket = socket; open_ref = open_ref; error_ref = error_ref; timeout = timeout },
        (client', P.connect socket w4),
      )

  -- The promise and the variable `timer`.
  pub record Progress : Type 0 where
    pub promise : Option Settlement
    pub timer : Bool

  abbrev pub begin : Attempt → Progress
  begin attempt = record { promise = none; timer = has_timer attempt.timeout }

  -- `settle`, which clears the timer and takes both callbacks off the socket. A promise that is settled
  -- ignores what resolves or rejects it again.
  unfoldable pub settle : ConnectOutcome → Attempt → Progress × P.World → Progress × P.World
  unfolding settlement
  settle outcome attempt (progress, w) = (
    record {
      promise = some (or_default progress.promise (settlement attempt.timeout outcome));
      timer = false;
    },
    P.off_refs attempt.socket (attempt.open_ref ∷ attempt.error_ref ∷ []) w,
  )

  -- The socket calls what is still registered on it, and the timer goes off where it is set.
  unfoldable pub deliver : ConnectOutcome → Attempt → Progress × P.World → Progress × P.World
  unfolding settle
  deliver opened attempt (progress, w) =
      if P.registered attempt.socket attempt.open_ref w
      then settle opened attempt (progress, w)
      else (progress, w)
  deliver failed attempt (progress, w) =
      if P.registered attempt.socket attempt.error_ref w
      then settle failed attempt (progress, w)
      else (progress, w)
  deliver timed_out attempt (progress, w) =
      if progress.timer then settle timed_out attempt (progress, w) else (progress, w)

  unfoldable pub deliver_each :
      List ConnectOutcome → Attempt → Progress × P.World → Progress × P.World
  unfolding deliver
  deliver_each [] attempt s = s
  deliver_each (outcome ∷ rest) attempt s = deliver_each rest attempt (deliver outcome attempt s)
