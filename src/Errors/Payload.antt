-- ===== src/Errors/Payload.antt =====
-- src/error.rs: the payload of an error response, and how an error is displayed.
use llm_conduit.Prelude.{◌∷◌, ◌++◌, unwrap_or}
use llm_conduit.Prelude.Text.{Text, Bytes, codes, decimal}
use llm_conduit.Errors.{GatewayError}
use llm_conduit.Json.{Json, text, object, end, field, Printer}

unfoldable pub error_payload : Text → Json
error_payload message = object (
    field (codes "error")
      (object (
        field (codes "message") (text message)
          (field (codes "type") (text (codes "gateway_error")) end)))
      end)

-- The body of `GatewayError::into_response`, with what it falls back on.
unfoldable pub render_error : Printer → Text → Bytes
render_error print message =
    unwrap_or (print (error_payload message))
      (codes "{\"error\":{\"message\":\"internal error\",\"type\":\"gateway_error\"}}")

-- `Display`
unfoldable pub display : GatewayError → Text
display e = decimal e.status ++ (b' ' ∷ e.message)
