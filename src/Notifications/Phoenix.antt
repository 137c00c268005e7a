-- ===== src/Notifications/Phoenix.antt =====
-- The calls that packages/js/client/src/ws/notification-client.ts makes of the `phoenix` library, each
-- with the state of the library before and after it.
use bfw_engine.Common.{String, ℕ, Bool, List}

-- How an attempt to connect ends.
pub data ConnectOutcome : Type 0 where
  opened failed timed_out : ConnectOutcome

-- What is registered on a socket: a function of the user, known by its identity, or one of the two
-- functions that `connect` registers for itself.
pub data Callback : Type 0 where
  listener : ℕ → Callback
  settles : ConnectOutcome → Callback

pub record Phoenix : Type 1 where
  pub World : Type 0
  pub Socket : Type 0
  pub Channel : Type 0
  pub MessageRef : Type 0
  pub new_socket : (url token : String) → World → Socket × World
  pub on_open : Socket → Callback → World → MessageRef × World
  pub on_close : Socket → Callback → World → MessageRef × World
  pub on_error : Socket → Callback → World → MessageRef × World
  -- whether the socket still calls what was registered under a reference
  pub registered : Socket → MessageRef → World → Bool
  pub off_refs : Socket → List MessageRef → World → World
  pub connect : Socket → World → World
  pub disconnect : Socket → World → World
  pub is_connected : Socket → World → Bool
  pub channel : Socket → (topic : String) → World → Channel × World
  pub join : Channel → World → World
  pub leave : Channel → World → World
  pub on : Channel → (event : String) → (handler : ℕ) → World → MessageRef × World
  pub off : Channel → (event : String) → MessageRef → World → World
