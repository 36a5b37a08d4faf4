-- ===== src/Tests/Wire.antt =====
-- Small instances of header maps, addresses and an HTTP client.
use llm_conduit.Prelude.{
  ◌≡◌, refl, sym, List, [], ◌∷◌, ◌++◌, none, some, Result, ok, err, if◌then◌else◌, arith,
}
use llm_conduit.Prelude.Text.{Text, Bytes, codes, text_eq, text_eq_iff, decimal}
use llm_conduit.Body.{full_body}
use llm_conduit.Http.{Headers, HeaderLaws, values_of, Uris}
use llm_conduit.Proxy.{Response, Client}

abbrev pub HeaderMap : Type 0
HeaderMap = List (Text × Text)

unfoldable pub remove : Text → HeaderMap → HeaderMap
remove name [] = []
remove name ((k, v) ∷ m) =
    let later = remove name m in if text_eq k name then later else (k, v) ∷ later

abbrev pub wire : Headers
wire = record {
  HeaderMap = HeaderMap;
  HeaderValue = Text;
  empty = [];
  get_all = values_of;
  insert = λ name value m. (name, value) ∷ remove name m;
  append = λ name value m. m ++ (name, value) ∷ [];
  iter = λ m. m;
  to_str = some;
  from_str = some;
  from_u64 = decimal;
  name_of = some;
}

values_of-remove :
    (name key : Text) (m : HeaderMap)
    → values_of key (remove name m) ≡ (if text_eq name key then [] else values_of key m)
unfolding values_of remove
values_of-remove name key [] = ground arith
values_of-remove name key ((k, v) ∷ m) = ground (
  arith,
  values_of-remove name key m,
  text_eq_iff k name,
  text_eq_iff k key,
  text_eq_iff name key,
)

values_of-append :
    (name key value : Text) (m : HeaderMap)
    → values_of key (m ++ (name, value) ∷ [])
      ≡ (if text_eq name key then values_of key m ++ value ∷ [] else values_of key m)
unfolding values_of
values_of-append name key value [] = ground arith
values_of-append name key value ((k, v) ∷ m) = ground (arith, values_of-append name key value m)

values_of-insert :
    (name key value : Text) (m : HeaderMap)
    → values_of key ((name, value) ∷ remove name m)
      ≡ (if text_eq name key then value ∷ [] else values_of key m)
unfolding values_of
values_of-insert name key value m = ground (arith, values_of-remove name key m)

pub wire_laws : HeaderLaws wire
unfolding values_of
wire_laws = record {
  get_all_empty = λ key. refl;
  get_all_insert = λ name key value m. values_of-insert name key value m;
  get_all_append = λ name key value m. values_of-append name key value m;
  to_str_from_str = λ t value visible e. sym e;
  values_of_iter = λ key m. refl;
}

pub record Address : Type 0 where
  pub scheme : Text
  pub host : Text
  pub path : Text

unfoldable pub read_address : Text → Result Text Address
read_address [] = err []
read_address (c ∷ t) = ok (record { scheme = codes "http"; host = c ∷ t; path = codes "/v1/" })

abbrev pub addresses : Uris
addresses = record {
  Uri = Address;
  parse = read_address;
  scheme_str = λ a. some a.scheme;
  authority = λ a. some a.host;
  path = λ a. a.path;
  query = λ a. none;
  build = λ scheme host path. ok (record { scheme = scheme; host = host; path = path });
}

-- It answers every request but one without a body.
unfoldable pub answer : Bytes → Result Text (Response wire addresses)
answer [] = err (codes "closed")
answer (b ∷ bs) = ok (record {
  status = 201;
  headers = (codes "te", codes "x") ∷ (codes "etag", codes "y") ∷ [];
  body = full_body (b ∷ bs);
})

abbrev pub client : Client wire addresses
client = record { builds = λ method target. ok tt; send = λ request. answer request.body }
