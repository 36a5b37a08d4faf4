-- ===== src/Http.antt =====
-- The crates `http` and `hyper` as the program calls them: header maps, header names and values,
-- and URIs. They are not part of the repository, so they are parameters: records of operations,
-- with the documented behaviour that theorems rely on in records of laws. A header name is the text
-- that `HeaderName::as_str` gives.
use llm_conduit.Prelude.{
  ℕ, ◌≡◌, List, [], ◌∷◌, ◌++◌, Option, none, some, Bool, Result, if◌then◌else◌, and_then, leb, ◌&&◌,
  ◌||◌, ◌==◌, true, All,
}
use llm_conduit.Prelude.Text.{Text, Bytes, text_eq}

pub record Headers : Type 1 where
  pub HeaderMap : Type 0
  pub HeaderValue : Type 0
  pub empty : HeaderMap
  -- `get_all`, in order; `get` is its head.
  pub get_all : Text → HeaderMap → List HeaderValue
  -- `insert` replaces all values of the name, `append` adds one.
  pub insert : Text → HeaderValue → HeaderMap → HeaderMap
  pub append : Text → HeaderValue → HeaderMap → HeaderMap
  pub iter : HeaderMap → List (Text × HeaderValue)
  -- `HeaderValue::to_str().ok()`, `from_str(..).ok()` and `From<u64>`.
  pub to_str : HeaderValue → Option Text
  pub from_str : Text → Option HeaderValue
  pub from_u64 : ℕ → HeaderValue
  -- `HeaderName::from_bytes(..).ok()`
  pub name_of : Bytes → Option Text

unfoldable pub first {ℓ} : {A : Type ℓ} → List A → Option A
first [] = none
first (x ∷ xs) = some x

-- The values of one name in an iteration.
unfoldable pub values_of {ℓ} : {A : Type ℓ} → Text → List (Text × A) → List A
values_of key [] = []
values_of key ((name, value) ∷ es) =
    let later = values_of key es in if text_eq name key then value ∷ later else later

-- What `to_str` lets through: visible ASCII and the tab.
abbrev pub is_visible : ℕ → Bool
is_visible c = (leb 32 c && leb c 126) || c == 9

pub record HeaderLaws (h : Headers) : Type 0 where
  pub get_all_empty : (key : Text) → h.get_all key h.empty ≡ []
  pub get_all_insert :
      (name key : Text) (value : h.HeaderValue) (m : h.HeaderMap)
      → h.get_all key (h.insert name value m)
        ≡ (if text_eq name key then value ∷ [] else h.get_all key m)
  pub get_all_append :
      (name key : Text) (value : h.HeaderValue) (m : h.HeaderMap)
      → h.get_all key (h.append name value m)
        ≡ (if text_eq name key then h.get_all key m ++ value ∷ [] else h.get_all key m)
  -- A value that was made of a text of visible ASCII reads as that text.
  pub to_str_from_str :
      (t : Text) (value : h.HeaderValue)
      → All (λ c. is_visible c ≡ true) t
      → h.from_str t ≡ some value
      → h.to_str value ≡ some t
  -- Each name's values are yielded in their order.
  pub values_of_iter : (key : Text) (m : h.HeaderMap) → values_of key (h.iter m) ≡ h.get_all key m

module _ (h : Headers) where
  -- `headers.get(name)` and its text.
  unfoldable pub get_value : h.HeaderMap → Text → Option h.HeaderValue
  unfolding first
  get_value m name = first (h.get_all name m)

  unfoldable pub get_text : h.HeaderMap → Text → Option Text
  unfolding get_value
  get_text m name = and_then (get_value m name) h.to_str

-- `hyper::Uri`; the errors are texts, as the program prints them.
pub record Uris : Type 1 where
  pub Uri : Type 0
  pub parse : Text → Result Text Uri
  pub scheme_str : Uri → Option Text
  pub authority : Uri → Option Text
  pub path : Uri → Text
  pub query : Uri → Option Text
  -- `Uri::builder()` with scheme, authority, and path and query.
  pub build : Text → Text → Text → Result Text Uri
