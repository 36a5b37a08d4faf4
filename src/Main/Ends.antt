-- ===== src/Main/Ends.antt =====
-- src/main.rs: how the process ends.
use llm_conduit.Prelude.{
  ◌≡◌, refl, ap, ◌∙◌, sym, ◌++◌, List, [], Option, none, some, ok, err, unwrap_or, Option-cases,
  Result-cases, inl, inr, arith,
}
use llm_conduit.Prelude.Text.{Text, codes}
use llm_conduit.Http.{Headers, Uris}
use llm_conduit.Serde.{SerdeJson}
use llm_conduit.Main.{Cli, config_path, success, failure, Host, start, main}
use llm_conduit.Main.Process.{
  Stop, shown, misused, Clap, config_variable, default_config, config_value, parse_cli, Ended,
  ended_by_clap, ended_by_main, process,
}
use llm_conduit.Main.Starts.{CanStart, main-success_iff}

module _ (clap : Clap) (env : Text → Option Text) where
  -- What stands for CONFIG where the words do not give it.
  pub data Stands : Text → Type 0 where
    variable : {raw : Text} → env config_variable ≡ some raw → Stands raw
    standard : {raw : Text} → env config_variable ≡ none → raw ≡ default_config → Stands raw

  -- The value of CONFIG.
  pub data HasValue (word : Option Text) (value : Text) : Type 0 where
    given : word ≡ some value → HasValue word value
    stands :
        (raw : Text) → word ≡ none → Stands raw → clap.path_of raw ≡ ok value → HasValue word value

  -- The file that is loaded: the flag's, whatever else is given, or CONFIG.
  pub data Chooses (word flag : Option Text) (path : Text) : Type 0 where
    by_flag : flag ≡ some path → (value : Text) → HasValue word value → Chooses word flag path
    by_config : flag ≡ none → HasValue word path → Chooses word flag path

  Stands-of_env : (raw : Text) → unwrap_or (env config_variable) default_config ≡ raw → Stands raw
  Stands-of_env raw e = elim (Option-cases (env config_variable)) [
    | inl unset ↦ standard unset (sym e ∙ ap (λ o. unwrap_or o default_config) unset)
    | inr (v, set) ↦ variable (set ∙ ap some (sym (ap (λ o. unwrap_or o default_config) set) ∙ e))
  ]

  config_value-HasValue :
      (word : Option Text) (value : Text)
      → config_value clap env word ≡ ok value
      → HasValue word value
  unfolding config_value
  config_value-HasValue (some w) value e = given (ground (arith, e))
  config_value-HasValue none value e = stands _ refl (Stands-of_env _ refl) e

  config_value-err :
      (word : Option Text) (text : Text)
      → config_value clap env word ≡ err text
      → (word ≡ none) × (raw : Text) × Stands raw × (clap.path_of raw ≡ err text)
  unfolding config_value
  config_value-err (some w) text e = absurd (ground (arith, e))
  config_value-err none text e = (refl, _, Stands-of_env _ refl, e)

  -- A usage error: one that `clap` finds in the words, or a CONFIG out of the environment or from the
  -- default that is no path.
  pub data Misuses (words : List Text) (text : Text) : Type 0 where
    ill_formed : clap.split words ≡ err (misused text) → Misuses words text
    no_path :
        (flag : Option Text) (raw : Text)
        → clap.split words ≡ ok (none, flag)
        → Stands raw
        → clap.path_of raw ≡ err text
        → Misuses words text

  Chooses-config_path :
      (word flag : Option Text) (value : Text)
      → HasValue word value
      → Chooses word flag (config_path (record { config = value; config_flag = flag }))
  unfolding config_path
  Chooses-config_path word none value v = by_config refl v
  Chooses-config_path word (some path) value v = by_flag refl value v

  parse_cli-stopped :
      (words : List Text) (stop : Stop)
      → clap.split words ≡ err stop
      → parse_cli clap env words ≡ err stop
  unfolding parse_cli
  parse_cli-stopped words stop e = rw e refl

  parse_cli-no_path :
      (words : List Text) (word flag : Option Text) (text : Text)
      → clap.split words ≡ ok (word, flag)
      → config_value clap env word ≡ err text
      → parse_cli clap env words ≡ err (misused text)
  unfolding parse_cli
  parse_cli-no_path words word flag text e bad = rw (e, bad) refl

  parse_cli-parsed :
      (words : List Text) (word flag : Option Text) (config : Text)
      → clap.split words ≡ ok (word, flag)
      → config_value clap env word ≡ ok config
      → parse_cli clap env words ≡ ok (record { config = config; config_flag = flag })
  unfolding parse_cli
  parse_cli-parsed words word flag config e read = rw (e, read) refl

  module _ (h : Headers) (u : Uris) (s : SerdeJson) (from_static : Text → h.HeaderValue)
      {Addr : Type 0} (parse_addr : Text → Option Addr)
      (host : Host h u s from_static parse_addr) where
    pub data Ends (words : List Text) (e : Ended) : Type 0 where
      helps :
          (text : Text)
          → clap.split words ≡ err (shown text)
          → e ≡ record { code = 0; stdout = text; stderr = [] }
          → Ends words e
      misuses :
          (text : Text)
          → Misuses words text
          → e ≡ record { code = 2; stdout = []; stderr = text }
          → Ends words e
      serves :
          (word flag : Option Text) (path : Text)
          → clap.split words ≡ ok (word, flag)
          → Chooses word flag path
          → CanStart h u s from_static parse_addr host path
          → e ≡ record { code = 0; stdout = []; stderr = [] }
          → Ends words e
      fails :
          (word flag : Option Text) (path message : Text)
          → clap.split words ≡ ok (word, flag)
          → Chooses word flag path
          → ¬ (CanStart h u s from_static parse_addr host path)
          → start h u s from_static parse_addr host path ≡ err message
          → e ≡ record {
            code = 1;
            stdout = [];
            stderr = (codes "llm-conduit: " ++ message) ++ codes "\n";
          }
          → Ends words e

    process-stopped :
        (words : List Text) (stop : Stop)
        → clap.split words ≡ err stop
        → Ends words (process h u s from_static parse_addr host clap env words)
    unfolding process ended_by_clap
    process-stopped words (shown text) e =
        helps text e (rw (parse_cli-stopped words (shown text) e, process) refl)
    process-stopped words (misused text) e =
        misuses text (ill_formed e) (rw (parse_cli-stopped words (misused text) e, process) refl)

    process-no_path :
        (words : List Text) (word flag : Option Text) (text : Text)
        → clap.split words ≡ ok (word, flag)
        → config_value clap env word ≡ err text
        → Ends words (process h u s from_static parse_addr host clap env words)
    unfolding process ended_by_clap
    process-no_path words word flag text e bad =
        let (missing, raw, stood, refused) = config_value-err word text bad in
        misuses text (no_path flag raw (e ∙ ap (λ w. ok (w, flag)) missing) stood refused)
          (rw (parse_cli-no_path words word flag text e bad, process) refl)

    process-parsed :
        (words : List Text) (word flag : Option Text) (config : Text)
        → clap.split words ≡ ok (word, flag)
        → config_value clap env word ≡ ok config
        → process h u s from_static parse_addr host clap env words
          ≡ ended_by_main (
              main h u s from_static parse_addr host
                (record { config = config; config_flag = flag }))
    unfolding process
    process-parsed words word flag config e read =
        rw (parse_cli-parsed words word flag config e read, process) refl

    process-chosen :
        (words : List Text) (word flag : Option Text) (config : Text)
        → clap.split words ≡ ok (word, flag)
        → config_value clap env word ≡ ok config
        → Ends words (process h u s from_static parse_addr host clap env words)
    unfolding main ended_by_main
    process-chosen words word flag config e read =
        let cli : Cli = record { config = config; config_flag = flag } in
        let chosen =
          Chooses-config_path word flag config (config_value-HasValue word config read) in
        let runs = main-success_iff h u s from_static parse_addr host cli in
        let parsed = process-parsed words word flag config e read in
        elim (Result-cases (start h u s from_static parse_addr host (config_path cli))) [
          | inl (st, started) ↦
              let succeeds : main h u s from_static parse_addr host cli ≡ success =
                rw (started, main) refl in
              serves word flag (config_path cli) e chosen (runs.0 succeeds)
                (parsed ∙ ap ended_by_main succeeds)
          | inr (message, refused) ↦
              let failed : main h u s from_static parse_addr host cli
                  ≡ failure (codes "llm-conduit: " ++ message) =
                rw (refused, main) refl in
              fails word flag (config_path cli) message e chosen
                (λ c. absurd (let back = runs.1 c in ground (arith, back, failed))) refused
                (parsed ∙ ap ended_by_main failed)
        ]

    -- The process shows the help or the version and exits with 0; or it exits with 2 behind a usage
    -- error, which is also a CONFIG out of the environment or from the default that is no path; or it
    -- loads the file of the flag, whatever else is given, and without a flag that of CONFIG: the word,
    -- without one the variable, and without that the default. Then it exits with 0, without a message,
    -- if that file can be loaded, its TLS files can be used and its address can be bound, and
    -- otherwise with 1 and the message of the failure.
    pub process-Ends :
        (words : List Text) → Ends words (process h u s from_static parse_addr host clap env words)
    process-Ends words = elim (Result-cases (clap.split words)) [
      | inl ((word, flag), e) ↦ elim (Result-cases (config_value clap env word)) [
        | inl (config, read) ↦ process-chosen words word flag config e read
        | inr (text, bad) ↦ process-no_path words word flag text e bad
      ]
      | inr (stop, e) ↦ process-stopped words stop e
    ]
