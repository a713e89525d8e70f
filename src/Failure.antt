-- ===== src/Failure.antt =====
-- The errors that a connection and its streams pass on, from src/errors.ts and the platform: the
-- classes with what they carry, and the texts as constructors.
use tephra_js.Framing.{FrameError}
use tephra_js.Wire.Reader.{Fault}
use tephra_js.Convert.{ServerError, ProtocolError}

pub data Failure : Type 0 where
  -- ConnError: "connection error", "connection closed", "framing error", "protocol error",
  -- "unattributed server error" and "write failed".
  connection_error connection_closed : Failure
  framing_error protocol_error write_failed : Failure → Failure
  unattributed : ServerError → Failure
  -- ServerError, and ProtocolError for a frame that does not fit its request.
  server : ServerError → Failure
  unexpected_response version_mismatch : Failure
  sequenced : ProtocolError → Failure
  -- FrameTooLargeError, and the RangeError of a decoder.
  frame : FrameError → Failure
  malformed : Fault → Failure
  -- The reason of an aborted signal, and the second of two concurrent `next`.
  aborted stream_busy : Failure
  -- What `socket.write` throws.
  socket_threw : Failure
