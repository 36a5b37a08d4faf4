-- ===== src/Health/Ready.antt =====
-- src/health.rs: what `/readyz` answers after any sequence of recorded probes.
use llm_conduit.Prelude.{
  ℕ, ◌≡◌, refl, ◌∙◌, List, [], ◌∷◌, Option, none, some, Bool, true, false, err, if◌then◌else◌,
  arith, Result-cases, All, or_else, or_else-none, Bool-cases, inl, inr, ◌⊎◌, ◌↔◌, ◌&&◌,
}
use llm_conduit.Prelude.Map.{Map, get, insert, get-insert}
use llm_conduit.Prelude.Text.{Text, text_eq, text_eq_iff, contains}
use llm_conduit.Health.{
  UpstreamHealth, HealthState, new_state, record_health, Entry, entry_of, keeps_ready, readyz_from,
  readyz, health_of, Joined, record_all, Readiness,
}

-- The last outcome among the joined probes of a name.
unfoldable pub last_joined : Text → List Joined → Option Joined
last_joined name [] = none
last_joined name (j ∷ js) =
    let later = last_joined name js in or_else later (if text_eq j.name name then some j else none)

abbrev pub health_at : Option Joined → Option UpstreamHealth
health_at none = none
health_at (some j) = some (health_of j.at j.outcome)

last_joined-cons :
    (later : Option Joined) (j : Joined) (name : Text) (health : UpstreamHealth)
    (state : HealthState)
    → health ≡ health_of j.at j.outcome
    → or_else (health_at later) (get name (insert j.name health state.upstreams))
      ≡ or_else
          (health_at (or_else later (if text_eq j.name name then some j else none)))
          (get name state.upstreams)
last_joined-cons (some k) j name health state e = refl
last_joined-cons none j name health state e =
    get-insert j.name name health state.upstreams ∙ elim (Bool-cases (text_eq j.name name)) [
      | inl same ↦ rw (same, e)
      | inr different ↦ rw different
    ]

pub get-record_all :
    (js : List Joined) (state : HealthState) (name : Text)
    → get name (record_all state js).upstreams
      ≡ or_else (health_at (last_joined name js)) (get name state.upstreams)
unfolding record_all last_joined record_health
get-record_all [] state name = refl
get-record_all (j ∷ js) state name =
    get-record_all js (record_health state j.name (health_of j.at j.outcome)) name
    ∙ last_joined-cons (last_joined name js) j name (health_of j.at j.outcome) state refl

pub names-record_all :
    (js : List Joined) (state : HealthState) → (record_all state js).names ≡ state.names
unfolding record_all record_health
names-record_all [] state = refl
names-record_all (j ∷ js) state =
    names-record_all js (record_health state j.name (health_of j.at j.outcome))

unfoldable pub all_ready : ℕ → Map UpstreamHealth → List Text → Bool
all_ready now known [] = true
all_ready now known (name ∷ names) =
    let later = all_ready now known names in keeps_ready (entry_of now (get name known)) && later

readyz_from-ready :
    (now : ℕ) (known : Map UpstreamHealth) (names : List Text) (ready : Bool) (entries : Map Entry)
    → (readyz_from now known names (ready, entries)).0 ≡ (ready && all_ready now known names)
unfolding readyz_from all_ready
readyz_from-ready now known [] ready entries = ground arith
readyz_from-ready now known (name ∷ names) ready entries =
    readyz_from-ready now known names
      (if keeps_ready (entry_of now (get name known)) then ready else false)
      (insert name (entry_of now (get name known)) entries)
    ∙ ground arith

readyz_from-entries :
    (now : ℕ) (known : Map UpstreamHealth) (names : List Text) (ready : Bool) (entries : Map Entry)
    (name : Text)
    → get name (readyz_from now known names (ready, entries)).1
      ≡ (if contains names name then some (entry_of now (get name known)) else get name entries)
unfolding readyz_from contains
readyz_from-entries now known [] ready entries name = refl
readyz_from-entries now known (other ∷ names) ready entries name =
    readyz_from-entries now known names _ (insert other (entry_of now (get other known)) entries)
      name
    ∙ elim (Bool-cases (text_eq other name)) [
      | inl same ↦
          let eq : other ≡ name = (text_eq_iff other name).0 same in
          rw (get-insert, same, eq) (ground arith)
      | inr different ↦ rw (get-insert, different) refl
    ]

-- A probe that was joined last for a name and failed.
abbrev pub IsDown : Option Joined → Type 0
IsDown none = ⊥
IsDown (some j) = (error : Text) × (j.outcome ≡ err error)

abbrev pub since : ℕ → List Joined → Text → Entry
since now js name = entry_of now (health_at (last_joined name js))

keeps_ready_iff :
    (now : ℕ) (o : Option Joined) → (keeps_ready (entry_of now (health_at o)) ≡ true) ↔ ¬ (IsDown o)
unfolding entry_of health_of
keeps_ready_iff now none = (λ h d. d, λ h. refl)
keeps_ready_iff now (some j) = elim (Result-cases j.outcome) [
  | inl (latency, done) ↦ (λ h d. let failure = d.1 in cc, λ h. rw done refl)
  | inr (error, lost) ↦ (λ h d. absurd (ground (arith, lost)), λ h. absurd (h (error, lost)))
]

all_ready_iff :
    (now : ℕ) (known : Map UpstreamHealth) (js : List Joined) (names : List Text)
    → ((name : Text) → get name known ≡ health_at (last_joined name js))
    → (all_ready now known names ≡ true) ↔ All (λ name. ¬ (IsDown (last_joined name js))) names
unfolding all_ready
all_ready_iff now known js [] at = (λ h. tt, λ h. refl)
all_ready_iff now known js (name ∷ names) at =
    let (down, back) = keeps_ready_iff now (last_joined name js) in
    let (these, those) = all_ready_iff now known js names at in
    rw (at name)
      (λ h. (down (ground arith), these (ground arith)), λ h. ground (arith, back h.0, those h.1))

-- What `/readyz` answers at the time `now`, when the probes `js` were joined since the start.
pub record IsAnswer (names : List Text) (js : List Joined) (now : ℕ) (r : Readiness) : Type 0 where
  pub is_ready : (r.status ≡ 200) ↔ All (λ name. ¬ (IsDown (last_joined name js))) names
  pub is_not_ready : (r.status ≡ 503) ⊎ (r.status ≡ 200)
  pub entry :
      (name : Text)
      → get name r.entries ≡ (if contains names name then some (since now js name) else none)

unfoldable status_of : Bool → ℕ
status_of b = if b then 200 else 503

status-cases : (b : Bool) → (status_of b ≡ 503) ⊎ (status_of b ≡ 200)
unfolding status_of
status-cases true = inr refl
status-cases false = inl refl

status_iff : (b : Bool) → (status_of b ≡ 200) ↔ (b ≡ true)
unfolding status_of
status_iff true = (λ h. refl, λ h. refl)
status_iff false = (λ h. absurd (ground arith), λ h. absurd (ground arith))

-- Whatever probes were joined since the start, and in whatever order: `/readyz` answers 200 exactly
-- if no configured upstream failed its last probe, and 503 otherwise; its entries are the configured
-- upstreams, each with what its last probe found, or as unchecked before the first.
pub readyz-record_all :
    (names : List Text) (js : List Joined) (now : ℕ) (probing : Bool)
    → IsAnswer names js now (readyz (record_all (new_state names) js) now probing)
unfolding readyz new_state status_of
readyz-record_all names js now probing =
    let state = record_all (new_state names) js in
    let known : (name : Text) → get name state.upstreams ≡ health_at (last_joined name js) = λ name.
      get-record_all js (new_state names) name
      ∙ unfold get in or_else-none (health_at (last_joined name js)) in
    let flag = readyz_from-ready now state.upstreams names true [] in
    record {
      is_ready =
          rw (names-record_all js (new_state names), flag)
            (let (these, those) = all_ready_iff now state.upstreams js names known in
              let (ready, back) = status_iff (all_ready now state.upstreams names) in
              (λ h. these (ready h), λ h. back (those h)));
      is_not_ready = status-cases _;
      entry = λ name. rw (names-record_all js (new_state names)) (
          readyz_from-entries now state.upstreams names true [] name
          ∙ unfold get in rw (known name) refl);
    }
