-- ===== src/Main/Process.antt =====
-- src/main.rs: the process, from the words behind the program's name to its exit code. How `clap`
-- splits the words, and which of them it takes for a path, is a parameter; what `#[arg(..)]` says of
-- an argument that is not among them, its variable and its default, is not.
use llm_conduit.Prelude.{
  ℕ, ◌++◌, List, [], Option, none, some, Result, ok, err, ◌>>=◌, map_err, unwrap_or,
}
use llm_conduit.Prelude.Text.{Text, codes}
use llm_conduit.Http.{Headers, Uris}
use llm_conduit.Serde.{SerdeJson}
use llm_conduit.Main.{Cli, Exit, success, failure, Host, main}

-- Why `Cli::parse` ends the process: help or version, or a usage error.
pub data Stop : Type 0 where
  shown misused : Text → Stop

pub record Clap : Type 0 where
  -- CONFIG and the value of `-c`, where they are among the words.
  pub split : List Text → Result Stop (Option Text × Option Text)
  -- A path out of the environment or from a default, or why it is none.
  pub path_of : Text → Result Text Text

abbrev pub config_variable : Text
config_variable = codes "LLM_CONDUIT_CONFIG"

abbrev pub default_config : Text
default_config = codes "config.toml"

-- The value of CONFIG: the word, else the variable, else the default.
unfoldable pub config_value : Clap → (Text → Option Text) → Option Text → Result Text Text
config_value clap env (some word) = ok word
config_value clap env none = clap.path_of (unwrap_or (env config_variable) default_config)

-- `Cli::parse`, up to the end of the process that it may be.
unfoldable pub parse_cli : Clap → (Text → Option Text) → List Text → Result Stop Cli
parse_cli clap env words = do
  (word, flag) ← clap.split words
  config ← map_err misused (config_value clap env word)
  ok (record { config = config; config_flag = flag })

-- The end of the process; its log lines are not among what it prints on standard error.
pub record Ended : Type 0 where
  pub code : ℕ
  pub stdout : Text
  pub stderr : Text

-- `clap` exits with 0 behind help and version, and with 2 behind a usage error.
unfoldable pub ended_by_clap : Stop → Ended
ended_by_clap (shown text) = record { code = 0; stdout = text; stderr = [] }
ended_by_clap (misused text) = record { code = 2; stdout = []; stderr = text }

-- `ExitCode::SUCCESS`, and `eprintln!` with `ExitCode::FAILURE`.
unfoldable pub ended_by_main : Exit → Ended
ended_by_main success = record { code = 0; stdout = []; stderr = [] }
ended_by_main (failure text) = record { code = 1; stdout = []; stderr = text ++ codes "\n" }

module _ (h : Headers) (u : Uris) (s : SerdeJson) (from_static : Text → h.HeaderValue)
    {Addr : Type 0} (parse_addr : Text → Option Addr)
    (host : Host h u s from_static parse_addr) where
  unfoldable pub process : Clap → (Text → Option Text) → List Text → Ended
  process clap env words = elim (parse_cli clap env words) [
    | err stop ↦ ended_by_clap stop
    | ok cli ↦ ended_by_main (main h u s from_static parse_addr host cli)
  ]
