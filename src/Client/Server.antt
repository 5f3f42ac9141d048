-- ===== src/Client/Server.antt =====
-- `respond` of internal/server/hyperconverged/hyperconverged_server.go, which answers every message: the
-- code of an error, and the body. JSON is an argument.
use Prim.Native.String.{◌++◌}
use sandstore.Base.{String, Option, none, some}
use sandstore.Client.Requests.{
  SandCode, code_ok, code_not_found, code_already_exists, other_code, Response,
}

-- What `errors.Is` tells apart, and the `ErrNotLeader` of the replicator, which it does not.
pub data ErrorKind : Type 0 where
  err_already_exists err_not_found err_not_leader another_error : ErrorKind

pub record HandlerError : Type 0 where
  pub kind : ErrorKind
  pub message : String

-- What a handler returns, and `json.Marshal` makes of it.
pub data Body : Type 0 where
  no_body : Body
  marshalled marshal_failed : String → Body

-- `CodeInternal` is another code for the client.
unfoldable pub code_of : ErrorKind → SandCode
code_of err_already_exists = code_already_exists
code_of err_not_found = code_not_found
code_of err_not_leader = other_code
code_of another_error = other_code

unfoldable pub respond : Body → Option HandlerError → Response
respond body (some e) = record { code = code_of e.kind; body = e.message }
respond no_body none = record { code = code_ok; body = "" }
respond (marshalled text) none = record { code = code_ok; body = text }
respond (marshal_failed text) none = record {
  code = other_code;
  body = "failed to marshal response: " ++ text;
}
