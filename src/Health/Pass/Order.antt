-- ===== src/Health/Pass/Order.antt =====
-- src/health.rs: what a pass leaves does not depend on the order in which its probes are joined.
use mathlib.Core.List.Permᴰ
use mathlib.Core.List.{Permᴰ}
use mathlib.Core.Path.{subst}
use llm_conduit.Prelude.{
  ◌≡◌, refl, sym, ap, ◌∙◌, List, [], ◌∷◌, Option, none, some, true, false, if◌then◌else◌, arith,
  Bool-cases, inl, inr, All, or_else, or_else-none,
}
use llm_conduit.Prelude.Map.{Map, get}
use llm_conduit.Prelude.Text.{Text, text_eq, text_eq_iff}
use llm_conduit.Http.{Uris}
use llm_conduit.Config.{Upstream, HealthConfig}
use llm_conduit.Config.Upstreams.{IsUnique}
use llm_conduit.Health.{UpstreamHealth, HealthState, Joined, health_of}
use llm_conduit.Health.Ready.{last_joined, health_at, get-record_all, names-record_all}
use llm_conduit.Health.Pass.{
  Conditions, outcome_for, joined_for, hangs, is_lost, is_stuck, tasks, Pass, pass,
}

abbrev Absent : Text → List Joined → Type 0
Absent name js = All (λ j. text_eq j.name name ≡ false) js

abbrev Distinct : List Joined → Type 0
Distinct [] = Unit
Distinct (j ∷ js) = Absent j.name js × Distinct js

All-perm : (P : Joined → Type 0) {xs ys : List Joined} → Permᴰ xs ys → All P xs → All P ys
All-perm P Permᴰ.nil h = tt
All-perm P (Permᴰ.cons e d) h = (subst P e h.0, All-perm P d h.1)
All-perm P (Permᴰ.swap e f) h = (subst P f h.1.0, (subst P e h.0, h.1.1))
All-perm P (Permᴰ.trans d d') h = All-perm P d' (All-perm P d h)

text_eq_sym : (s t : Text) → text_eq s t ≡ false → text_eq t s ≡ false
text_eq_sym s t h = ground (arith, text_eq_iff s t, text_eq_iff t s)

Distinct-perm : {xs ys : List Joined} → Permᴰ xs ys → Distinct xs → Distinct ys
Distinct-perm Permᴰ.nil h = tt
Distinct-perm (Permᴰ.cons {a} {b} {l₁} {l₂} e d) h =
    (All-perm (λ j. text_eq j.name b.name ≡ false) d (rw (← e) h.0), Distinct-perm d h.1)
Distinct-perm (Permᴰ.swap {a} {b} {a'} {b'} {l} e f) h =
    let swapped : Distinct (b ∷ a ∷ l) =
      ((text_eq_sym b.name a.name h.0.0, h.1.0), (h.0.1, h.1.1)) in
    subst (λ z. Distinct (z ∷ b' ∷ l)) f (subst (λ z. Distinct (b ∷ z ∷ l)) e swapped)
Distinct-perm (Permᴰ.trans d d') h = Distinct-perm d' (Distinct-perm d h)

choose-swap :
    (name : Text) (o : Option Joined) (a b : Joined)
    → text_eq b.name a.name ≡ false
    → or_else
        (or_else o (if text_eq b.name name then some b else none))
        (if text_eq a.name name then some a else none)
      ≡ or_else
          (or_else o (if text_eq a.name name then some a else none))
          (if text_eq b.name name then some b else none)
choose-swap name (some j) a b h = refl
choose-swap name none a b h =
    ground (arith, text_eq_iff a.name name, text_eq_iff b.name name, text_eq_iff b.name a.name)

last_joined-perm :
    (name : Text) {xs ys : List Joined}
    → Permᴰ xs ys
    → Distinct xs
    → last_joined name xs ≡ last_joined name ys
unfolding last_joined
last_joined-perm name Permᴰ.nil h = refl
last_joined-perm name (Permᴰ.cons {a} {b} {l₁} {l₂} e d) h =
    rw (e, last_joined-perm name d h.1) refl
last_joined-perm name (Permᴰ.swap {a} {b} {a'} {b'} {l} e f) h =
    rw (← e, ← f) (choose-swap name (last_joined name l) a b h.0.0)
last_joined-perm name (Permᴰ.trans d d') h =
    last_joined-perm name d h ∙ last_joined-perm name d' (Distinct-perm d h)

module _ (u : Uris) (c : Conditions u) (config : HealthConfig) where
  abbrev task_of : Text → Option (Upstream u) → Option Joined
  task_of name none = none
  task_of name (some upstream) =
      if is_lost u c config name upstream then none else some (joined_for u c config name upstream)

  Absent-tasks :
      (m : Map (Upstream u)) (name : Text) → get name m ≡ none → Absent name (tasks u c config m)
  unfolding get tasks joined_for
  Absent-tasks [] name h = tt
  Absent-tasks ((other, upstream) ∷ m) name h =
      let different : text_eq other name ≡ false = ground arith in
      let later = Absent-tasks m name (ground arith) in
      elim (Bool-cases (is_lost u c config other upstream)) [
        | inl lost ↦ rw lost later
        | inr kept ↦ rw kept (different, later)
      ]

  Distinct-tasks : (m : Map (Upstream u)) → IsUnique m → Distinct (tasks u c config m)
  unfolding tasks joined_for
  Distinct-tasks [] un = tt
  Distinct-tasks ((name, upstream) ∷ m) un = elim (Bool-cases (is_lost u c config name upstream)) [
    | inl lost ↦ rw lost (Distinct-tasks m un.1)
    | inr kept ↦ rw kept (Absent-tasks m name un.0, Distinct-tasks m un.1)
  ]

  last_joined-tasks :
      (m : Map (Upstream u)) (name : Text)
      → IsUnique m
      → last_joined name (tasks u c config m) ≡ task_of name (get name m)
  unfolding last_joined tasks joined_for get
  last_joined-tasks [] name un = refl
  last_joined-tasks ((other, upstream) ∷ m) name un =
      let later = last_joined-tasks m name un.1 in
      elim (Bool-cases (text_eq other name)) [
        | inl same ↦
            let eq : other ≡ name = (text_eq_iff other name).0 same in
            let absent : get name m ≡ none = rw eq at un.0 in
            elim (Bool-cases (is_lost u c config other upstream)) [
              | inl lost ↦
                  let lost_here : is_lost u c config name upstream ≡ true = rw eq at lost in
                  rw (lost, same, later, absent, lost_here) refl
              | inr kept ↦
                  let kept_here : is_lost u c config name upstream ≡ false = rw eq at kept in
                  rw (kept, last_joined, same, later, absent, kept_here)
                    (ap (λ n. some (joined_for u c config n upstream)) eq)
            ]
        | inr different ↦ elim (Bool-cases (is_lost u c config other upstream)) [
          | inl lost ↦ rw (lost, different, later) refl
          | inr kept ↦
              rw (kept, last_joined, different, later) (or_else-none (task_of name (get name m)))
        ]
      ]

  -- What a pass leaves at a name: an upstream that was probed has what its probe found, and a task
  -- that panicked, or a name that is no upstream, leaves what was known.
  abbrev pub after_pass : Text → Option (Upstream u) → Option UpstreamHealth → Option UpstreamHealth
  after_pass name none known = known
  after_pass name (some upstream) known =
      if c.panics name
      then known
      else some (health_of (c.at name) (outcome_for u c config name upstream))

  abbrev IsSettled : Text → Option (Upstream u) → Type 0
  IsSettled name none = Unit
  IsSettled name (some upstream) = hangs u c config name upstream ≡ false

  IsSettled-get :
      (m : Map (Upstream u)) (name : Text)
      → is_stuck u c config m ≡ false
      → IsSettled name (get name m)
  unfolding is_stuck get
  IsSettled-get [] name free = tt
  IsSettled-get ((other, upstream) ∷ m) name free =
      let rest : is_stuck u c config m ≡ false = ground arith in
      let here : hangs u c config other upstream ≡ false = ground arith in
      elim (Bool-cases (text_eq other name)) [
        | inl same ↦
            let eq : other ≡ name = (text_eq_iff other name).0 same in
            rw (same, get) (rw eq at here)
        | inr different ↦ rw (different, get) (IsSettled-get m name rest)
      ]

  after_pass-task_of :
      (name : Text) (o : Option (Upstream u)) (known : Option UpstreamHealth)
      → IsSettled name o
      → or_else (health_at (task_of name o)) known ≡ after_pass name o known
  unfolding joined_for
  after_pass-task_of name none known settled = refl
  after_pass-task_of name (some upstream) known settled = elim (Bool-cases (c.panics name)) [
    | inl lost ↦ rw lost refl
    | inr kept ↦ rw (kept, settled) refl
  ]

  -- A pass over upstreams, each name of which stands there once: in whatever order the probes were
  -- joined, the same is known afterwards at every name, and the names that `/readyz` reports stay.
  pub Pass-after_pass :
      (m : Map (Upstream u)) (before after : HealthState)
      → IsUnique m
      → Pass u c config m before after
      → ((name : Text)
          → get name after.upstreams ≡ after_pass name (get name m) (get name before.upstreams))
        × (after.names ≡ before.names)
  Pass-after_pass m before after un (pass js order free done) = (
    λ name.
        let tasked : last_joined name js ≡ task_of name (get name m) =
          sym (last_joined-perm name (Permᴰ.symm order) (Distinct-tasks m un))
          ∙ last_joined-tasks m name un in
        ap (λ state. get name state.upstreams) done
        ∙ get-record_all js before name
        ∙ ap (λ j. or_else (health_at j) (get name before.upstreams)) tasked
        ∙ after_pass-task_of name (get name m) (get name before.upstreams)
            (IsSettled-get m name free),
    ap (λ state. state.names) done ∙ names-record_all js before,
  )
