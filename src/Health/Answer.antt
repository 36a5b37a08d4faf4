-- ===== src/Health/Answer.antt =====
-- src/health.rs: the responses of `/healthz` and `/readyz`.
use llm_conduit.Prelude.{ℕ, [], ◌∷◌, unwrap_or, ◌≡◌, refl, Option, none, some, Bool-cases, inl, inr}
use llm_conduit.Prelude.Map.{Map, get}
use llm_conduit.Prelude.Text.{Text, codes, text_eq}
use llm_conduit.Body.{full_body}
use llm_conduit.Http.{Headers, Uris}
use llm_conduit.Json.{Json, text, number, object, Fields, end, field, Printer, member, at_key}
use llm_conduit.Health.{Entry, up, down, unchecked, Readiness}
use llm_conduit.Proxy.{Response}

unfoldable pub entry_json : Entry → Json
entry_json (up latency ago) = object (
    field (codes "status") (text (codes "up")) (
      field (codes "latency_ms") (number latency)
        (field (codes "checked_secs_ago") (number ago) end)))
entry_json (down error ago) = object (
    field (codes "status") (text (codes "down"))
      (field (codes "error") (text error) (field (codes "checked_secs_ago") (number ago) end)))
entry_json unchecked = object (field (codes "status") (text (codes "unchecked")) end)

unfoldable pub entries_json : Map Entry → Fields
entries_json [] = end
entries_json ((name, entry) ∷ rest) = field name (entry_json entry) (entries_json rest)

unfoldable pub readyz_json : Readiness → Json
readyz_json r = object (
    field (codes "status") (text r.summary) (
      field (codes "probing") (text r.probing)
        (field (codes "upstreams") (object (entries_json r.entries)) end)))

module _ (h : Headers) (u : Uris) (from_static : Text → h.HeaderValue) (print : Printer) where
  unfoldable pub json_response : ℕ → Json → Response h u
  json_response status body = record {
    status = status;
    headers = h.insert (codes "content-type") (from_static (codes "application/json")) h.empty;
    body = full_body (unwrap_or (print body) []);
  }

  unfoldable pub healthz : Response h u
  healthz = json_response 200 (object (field (codes "status") (text (codes "ok")) end))

  unfoldable pub readyz_response : Readiness → Response h u
  readyz_response r = json_response r.status (readyz_json r)

abbrev pub json_at : Option Entry → Option Json
json_at none = none
json_at (some entry) = some (entry_json entry)

member-entries_json :
    (name : Text) (m : Map Entry) → member name (entries_json m) ≡ json_at (get name m)
unfolding member entries_json get
member-entries_json name [] = refl
member-entries_json name ((other, entry) ∷ m) = elim (Bool-cases (text_eq other name)) [
  | inl same ↦ rw same refl
  | inr different ↦ rw different (member-entries_json name m)
]

abbrev then_at : Text → Option Json → Option Json
then_at key none = none
then_at key (some j) = at_key key j

-- In the printed answer, `upstreams` has at each name the entry of that upstream.
pub member-readyz_json :
    (name : Text) (r : Readiness)
    → then_at name (at_key (codes "upstreams") (readyz_json r)) ≡ json_at (get name r.entries)
unfolding readyz_json at_key member text_eq codes
member-readyz_json name r = member-entries_json name r.entries
