-- ===== src/Notifications/Connection/Settling.antt =====
-- How the promise of `connect` in packages/js/client/src/ws/notification-client.ts settles.
use Prim.Native.String
use bfw_engine.Common.{
  Bool, true, false, not, eqb, List, [], ◌∷◌, Option, none, some, Bool-cases, inl, inr, arith,
  if◌then◌else◌, ◌≡◌, refl,
}
use bfw_engine.Notifications.Phoenix.{Phoenix, ConnectOutcome, opened, failed, timed_out}
use bfw_engine.Notifications.Connection.{
  Attempt, Progress, Settlement, resolved, rejected, begin, settle, deliver, deliver_each,
  has_timer, Timeout, milliseconds, infinite, timeout_text, settlement,
}

-- A timeout that is neither 0 nor Infinity.
abbrev pub is_limited : Timeout → Bool
is_limited (milliseconds n) = not (eqb n 0)
is_limited infinite = false

has_timer-is_limited : (timeout : Timeout) → has_timer timeout ≡ is_limited timeout
has_timer-is_limited (milliseconds n) = ground arith
has_timer-is_limited infinite = refl

abbrev pub can_settle : Timeout → ConnectOutcome → Bool
can_settle timeout timed_out = is_limited timeout
can_settle timeout _ = true

abbrev pub first_settling : Timeout → List ConnectOutcome → Option ConnectOutcome
first_settling timeout [] = none
first_settling timeout (outcome ∷ rest) =
    let later = first_settling timeout rest in
    if can_settle timeout outcome then some outcome else later

-- What the caller of `connect` learns of an event.
abbrev pub announced : Timeout → ConnectOutcome → Settlement
announced timeout opened = resolved
announced timeout failed = rejected "WebSocket connection failed"
announced timeout timed_out =
    rejected (
      String.◌++◌ "WebSocket connection timed out after "
        (String.◌++◌ (timeout_text timeout) " ms"))

settlement-announced :
    (timeout : Timeout) (outcome : ConnectOutcome)
    → settlement timeout outcome ≡ announced timeout outcome
unfolding settlement
settlement-announced timeout opened = refl
settlement-announced timeout failed = refl
settlement-announced timeout timed_out = refl

module _ (P : Phoenix) (attempt : Attempt P) where
  abbrev pub off_both : P.World → P.World
  off_both w = P.off_refs attempt.socket (attempt.open_ref ∷ attempt.error_ref ∷ []) w

  -- An attempt after the event that settles it, if there is one.
  abbrev pub left_by : P.World → Option ConnectOutcome → Progress P × P.World
  left_by w none = (record { promise = none; timer = is_limited attempt.timeout }, w)
  left_by w (some outcome) =
      (record { promise = some (announced attempt.timeout outcome); timer = false }, off_both w)

  begin-left_by : (w : P.World) → (begin P attempt, w) ≡ left_by w none
  begin-left_by w = rw (has_timer-is_limited attempt.timeout) refl

  settle-left_by :
      (outcome : ConnectOutcome) (w : P.World)
      → settle P outcome attempt (left_by w none) ≡ left_by w (some outcome)
  unfolding settle
  settle-left_by outcome w = rw (settle, settlement-announced attempt.timeout outcome) refl

  left_by-if :
      (outcome : ConnectOutcome) (w : P.World) (b : Bool)
      → (if b then left_by w (some outcome) else left_by w none)
        ≡ left_by w (if b then some outcome else none)
  left_by-if outcome w true = refl
  left_by-if outcome w false = refl

  module _
      (off_open : (w : P.World) → P.registered attempt.socket attempt.open_ref (off_both w) ≡ false)
      (off_error : (w : P.World)
        → P.registered attempt.socket attempt.error_ref (off_both w) ≡ false) where
    deliver-left_by :
        (event outcome : ConnectOutcome) (w : P.World)
        → deliver P event attempt (left_by w (some outcome)) ≡ left_by w (some outcome)
    unfolding deliver
    deliver-left_by opened outcome w = rw (deliver, off_open w) refl
    deliver-left_by failed outcome w = rw (deliver, off_error w) refl
    deliver-left_by timed_out outcome w = refl

    deliver_each-left_by :
        (events : List ConnectOutcome) (outcome : ConnectOutcome) (w : P.World)
        → deliver_each P events attempt (left_by w (some outcome)) ≡ left_by w (some outcome)
    unfolding deliver_each
    deliver_each-left_by [] outcome w = refl
    deliver_each-left_by (event ∷ rest) outcome w =
        rw (deliver_each, deliver-left_by event outcome w) (deliver_each-left_by rest outcome w)

    module _ (w : P.World) (on_open : P.registered attempt.socket attempt.open_ref w ≡ true)
        (on_error : P.registered attempt.socket attempt.error_ref w ≡ true) where
      deliver-can_settle :
          (event : ConnectOutcome)
          → deliver P event attempt (left_by w none)
            ≡ left_by w (if can_settle attempt.timeout event then some event else none)
      unfolding deliver
      deliver-can_settle opened = rw (deliver, on_open) (settle-left_by opened w)
      deliver-can_settle failed = rw (deliver, on_error) (settle-left_by failed w)
      deliver-can_settle timed_out =
          rw (deliver, settle-left_by timed_out w)
            (left_by-if timed_out w (is_limited attempt.timeout))

      deliver_each-from :
          (events : List ConnectOutcome)
          → deliver_each P events attempt (left_by w none)
            ≡ left_by w (first_settling attempt.timeout events)
      unfolding deliver_each
      deliver_each-from [] = refl
      deliver_each-from (event ∷ rest) = elim (Bool-cases (can_settle attempt.timeout event)) [
        | inl e ↦ rw (deliver_each, deliver-can_settle event, e) (deliver_each-left_by rest event w)
        | inr e ↦ rw (deliver_each, deliver-can_settle event, e) (deliver_each-from rest)
      ]

  -- An attempt to connect is settled by the first opening, error or timeout that arrives, where a timeout
  -- counts unless it is 0 or Infinity: the promise then resolves or rejects with that event's message and
  -- keeps this over all later events, the timer is cleared, and the two callbacks are taken off the socket
  -- once. Until such an event it waits. The callbacks are registered when the attempt begins, and the
  -- socket no longer calls a callback that was taken off.
  pub deliver_each-first :
      (off_open : (w : P.World) → P.registered attempt.socket attempt.open_ref (off_both w) ≡ false)
      (off_error : (w : P.World)
        → P.registered attempt.socket attempt.error_ref (off_both w) ≡ false)
      (events : List ConnectOutcome) (w : P.World)
      → P.registered attempt.socket attempt.open_ref w ≡ true
      → P.registered attempt.socket attempt.error_ref w ≡ true
      → deliver_each P events attempt (begin P attempt, w)
        ≡ left_by w (first_settling attempt.timeout events)
  deliver_each-first off_open off_error events w on_open on_error =
      rw (begin-left_by w) (deliver_each-from off_open off_error w on_open on_error events)
