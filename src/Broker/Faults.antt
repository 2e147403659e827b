-- ===== src/Broker/Faults.antt =====
-- The errors of handlers in internal/broker/streams.go, and what is told of them to a caller.
use pilothouse.Base.{ℕ, String, Bool, Option, none, some}
use pilothouse.Broker.Actions.{Fault}

-- `PublicError`, but for the error that it wraps.
pub record PublicError : Type 0 where
  pub status : ℕ
  pub message : String
  pub category : String

-- An error of a handler or a resolver: what `errors.Is` says of it, and the `PublicError` that
-- `errors.As` finds in it.
pub record HandlerFault : Type 0 where
  pub cause : Fault
  pub public_error : Option PublicError
  pub is_too_large : Bool

-- `PublicErrorDetails`
unfoldable pub public_error_details : Option PublicError → PublicError
public_error_details (some e) = e
public_error_details none = record {
  status = 503;
  message = "service unavailable";
  category = "unavailable";
}
