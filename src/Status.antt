-- ===== src/Status.antt =====
-- `Status` of raft-kv/common/status.h. The heap block of the source (length, code, bytes) is the
-- pair of the code and the message; no status is the null pointer.
use Prim.Native.String.{String}
use mathlib.Core.Bool.{Bool, true, false}

pub data Code : Type 0 where
  not_found_code not_supported_code invalid_argument_code io_error_code : Code

pub data Status : Type 0 where
  ok : Status
  failed : Code → String → Status

abbrev pub is_ok : Status → Bool
is_ok ok = true
is_ok (failed c msg) = false

abbrev pub invalid_argument : String → Status
invalid_argument msg = failed invalid_argument_code msg
