-- ===== src/Log.antt =====
-- Logging (log.c). A message goes to the handler that the application has set, if there is one; `S`
-- is the type of the data that the handler reaches.
use libamp.Common.{[], ◌∷◌, ◌++◌, Option, none, some, take}
use libamp.CString.{Bytes, c_str}

-- MAX_LOG_LEN is 256: vsnprintf leaves at most 255 bytes before the terminator. `message` is what
-- the format and the arguments spell.
unfoldable pub amp_log : {S : Type 0} → Option (Bytes → S → S) → Bytes → S → S
amp_log none message app = app
amp_log (some handler) message app = handler (take 255 message) app

-- The message is printed as a string, with a newline behind it.
unfoldable pub amp_stderr_logger : {S : Type 0} → (Bytes → S → S) → Bytes → S → S
amp_stderr_logger fprintf message app = fprintf (c_str message ++ 10 ∷ []) app
