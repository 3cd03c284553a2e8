-- ===== src/Error.antt =====
-- asyncmsg/asyncmsg/tcp/exception.hpp: the errors that the library throws.

-- The classes below `asyncmsg_error`.
pub data Error : Type 0 where
  timeout_error invalid_device_id_error invalid_state_error connection_error : Error

-- What `what()` returns: "timeout", "invalid device id", "invalid state".
pub data Message : Type 0 where
  timeout invalid_device_id invalid_state : Message

unfoldable pub what : Error → Message
what timeout_error = timeout
what invalid_device_id_error = invalid_device_id
what invalid_state_error = invalid_state
what connection_error = invalid_state

-- What a call ends with: a result, or an error thrown.
pub data Result {ℓ} (A : Type ℓ) : Type ℓ where
  returned : A → Result A
  thrown : Error → Result A
