-- ===== src/Tests/Ended.antt =====
-- src/main.rs: the process at concrete words.
use llm_conduit.Prelude.{◌≡◌, refl, List, [], ◌∷◌, Option, none, some, Result, ok, err}
use llm_conduit.Prelude.Text.{Text, codes}
use llm_conduit.Main.{config_path, main}
use llm_conduit.Main.Process.{
  Stop, misused, Clap, config_value, parse_cli, ended_by_main, ended_by_clap, process,
}
use llm_conduit.Main.Ends.{Ends, process-Ends}
use llm_conduit.Tests.Toys.{json}
use llm_conduit.Tests.Wire.{wire, addresses}
use llm_conduit.Tests.Gates.{static}
use llm_conduit.Tests.Serving.{host, is_up}

-- No word, CONFIG, or `-c` and a path.
abbrev split_words : List Text → Result Stop (Option Text × Option Text)
split_words [] = ok (none, none)
split_words (config ∷ []) = ok (some config, none)
split_words (flag ∷ path ∷ []) = ok (none, some path)
split_words (a ∷ b ∷ c ∷ words) = err (misused (codes "unexpected argument"))

abbrev read_path : Text → Result Text Text
read_path [] = err (codes "a value is required")
read_path (c ∷ cs) = ok (c ∷ cs)

abbrev clap : Clap
clap = record { split = split_words; path_of = read_path }

abbrev env : Text → Option Text
env name = some (codes "from_env.toml")

abbrev words : List Text
words = codes "-c" ∷ codes "other.toml" ∷ []

process-Ends_example :
    Ends clap env wire addresses json static
      (λ t. some t)
      host
      words
      (process wire addresses json static (λ t. some t) host clap env words)
process-Ends_example = process-Ends clap env wire addresses json static (λ t. some t) host words

-- The flag's file is used, although the variable names another.
succeeds :
    process wire addresses json static (λ t. some t) host clap env words
    ≡ record { code = 0; stdout = []; stderr = [] }
unfolding process parse_cli config_value codes main config_path ended_by_main
succeeds = rw is_up refl

-- An empty variable is a usage error, even beside the flag.
refuses :
    process wire addresses json static (λ t. some t) host clap (λ name. some []) words
    ≡ record { code = 2; stdout = []; stderr = codes "a value is required" }
unfolding process parse_cli config_value codes ended_by_clap
refuses = refl
