-- ===== src/Json.antt =====
-- `serde_json::Value`, as the program builds it with `json!` for its own answers, and what
-- `serde_json::to_vec` prints of it: the crate is a parameter, a printer that may fail.
use llm_conduit.Prelude.{ℕ, List, [], ◌∷◌, Option}
use llm_conduit.Prelude.Text.{Text, Bytes, text_eq}
use llm_conduit.Prelude.{none, some, if◌then◌else◌}

mutual
  pub data Json : Type 0 where
    text : Text → Json
    number : ℕ → Json
    array : Items → Json
    object : Fields → Json

  pub data Items : Type 0 where
    nil : Items
    cons : Json → Items → Items

  pub data Fields : Type 0 where
    end : Fields
    field : Text → Json → Fields → Fields

abbrev pub Printer : Type 0
Printer = Json → Option Bytes

abbrev pub items_of : List Json → Items
items_of [] = nil
items_of (j ∷ js) = cons j (items_of js)

-- A member of an object, and the elements of an array.
unfoldable pub member : Text → Fields → Option Json
member key end = none
member key (field name j fs) =
    let later = member key fs in if text_eq name key then some j else later

unfoldable pub at_key : Text → Json → Option Json
at_key key (text t) = none
at_key key (number n) = none
at_key key (array js) = none
at_key key (object fs) = member key fs

abbrev pub elements : Items → List Json
elements nil = []
elements (cons j js) = j ∷ elements js
