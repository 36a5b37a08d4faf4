-- ===== src/Errors.antt =====
-- src/error.rs: the errors of startup and of a request, and the response that an error becomes.
pub mod Payload
use llm_conduit.Prelude.{ℕ}
use llm_conduit.Prelude.Text.{Text}

-- `StartupError(pub String)`
abbrev pub StartupError : Type 0
StartupError = Text

pub record GatewayError : Type 0 where
  pub status : ℕ
  pub message : Text

abbrev pub unauthorized : Text → GatewayError
unauthorized message = record { status = 401; message = message }

abbrev pub bad_request : Text → GatewayError
bad_request message = record { status = 400; message = message }

abbrev pub not_found : Text → GatewayError
not_found message = record { status = 404; message = message }

abbrev pub payload_too_large : Text → GatewayError
payload_too_large message = record { status = 413; message = message }

abbrev pub bad_gateway : Text → GatewayError
bad_gateway message = record { status = 502; message = message }

abbrev pub internal : Text → GatewayError
internal message = record { status = 500; message = message }
