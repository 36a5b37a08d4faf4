-- ===== src/Body.antt =====
-- Bodies of requests and responses. A body belongs to the crates `hyper` and `http-body-util`;
-- what the program sees of it is what polling it gives, in order, until the end of the stream, and
-- the exact size that it announces, if any.
use llm_conduit.Prelude.{ℕ, List, [], ◌∷◌, ◌++◌, Option, some, length}
use llm_conduit.Prelude.Text.{Text, Bytes}

-- `poll_frame`: a frame of data or of trailers, a failure, or no progress yet.
pub data Event : Type 0 where
  chunk : Bytes → Event
  trailers : Event
  failed : Text → Event
  pending : Event

pub record Body : Type 0 where
  pub polls : List Event
  pub exact : Option ℕ

-- `full_body`: a body of known length, in one frame.
abbrev pub full_body : Bytes → Body
full_body bytes = record { polls = chunk bytes ∷ []; exact = some (length bytes) }

-- All the data that a body holds.
unfoldable pub data_of : List Event → Bytes
data_of [] = []
data_of (chunk c ∷ es) = c ++ data_of es
data_of (trailers ∷ es) = data_of es
data_of (failed e ∷ es) = data_of es
data_of (pending ∷ es) = data_of es
