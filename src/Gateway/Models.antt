-- ===== src/Gateway/Models.antt =====
-- src/gateway.rs: the payload of `GET /v1/models`.
use llm_conduit.Prelude.{ℕ, ◌≡◌, refl, ap, List, [], ◌∷◌, ◌++◌, Option, none, some, map, unwrap_or}
use llm_conduit.Prelude.Text.{Text, Bytes, codes, text_eq}
use llm_conduit.Json.{
  Json, text, number, array, object, end, field, Printer, items_of, elements, at_key, member,
}

-- The entry of an upstream; `created` is the time at which the gateway started.
unfoldable pub model_entry : ℕ → Text → Json
model_entry created name = object (
    field (codes "id") (text name) (
      field (codes "object") (text (codes "model")) (
        field (codes "created") (number created)
          (field (codes "owned_by") (text (codes "llm-conduit")) end))))

unfoldable pub models_json : ℕ → List Text → Json
models_json created names = object (
    field (codes "object") (text (codes "list"))
      (field (codes "data") (array (items_of (map (model_entry created) names))) end))

-- `models_body`
unfoldable pub models_body : Printer → ℕ → List Text → Bytes
models_body print created names = unwrap_or (print (models_json created names)) []

-- What a reader of the listing finds as the models that it may ask for.
abbrev pub texts : Option Json → List Text
texts none = []
texts (some (text t)) = t ∷ []
texts (some (number n)) = []
texts (some (array js)) = []
texts (some (object fs)) = []

abbrev pub listed_in : List Json → List Text
listed_in [] = []
listed_in (j ∷ js) = texts (at_key (codes "id") j) ++ listed_in js

abbrev pub listed : Option Json → List Text
listed none = []
listed (some (text t)) = []
listed (some (number n)) = []
listed (some (array js)) = listed_in (elements js)
listed (some (object fs)) = []

listed_in-model_entry :
    (created : ℕ) (names : List Text)
    → listed_in (elements (items_of (map (model_entry created) names))) ≡ names
unfolding model_entry at_key member text_eq codes
listed_in-model_entry created [] = refl
listed_in-model_entry created (name ∷ names) = ap (◌∷◌ name) (listed_in-model_entry created names)

-- The IDs in the listing's `data` are the names that it was made of, in their order.
pub listed-models_json :
    (created : ℕ) (names : List Text)
    → listed (at_key (codes "data") (models_json created names)) ≡ names
unfolding models_json at_key member text_eq codes
listed-models_json created names = listed_in-model_entry created names
