-- ===== src/Main.antt =====
-- dvb2dvb.c, `main`: the arguments and the configuration, up to the thread of the mux.
pub mod Single
use dvb2dvb.Base.{ℕ, ◌==◌, if◌then◌else◌, List, [], ◌∷◌, Option}
use dvb2dvb.Config.Json.{Json, Parsed, parsed, error, undefined}
use dvb2dvb.Config.Params.{MuxConfig}
use dvb2dvb.Config.Muxes.{parse_config}

-- The exit status; or the mux whose thread runs, and whose end `main` waits for.
pub data Main : Type 0 where
  exits : ℕ → Main
  runs : MuxConfig → Main
  undefined_read : Main

-- Only one mux is supported.
unfoldable pub run_single : Parsed (List MuxConfig) → Main
run_single (error n) = exits 1
run_single (parsed (mux ∷ [])) = runs mux
run_single (parsed _) = exits 1
run_single undefined = undefined_read

-- `file` is what the file of the argument holds.
unfoldable pub main : ℕ → (List ℕ → Option Json) → Option (List ℕ) → Main
unfolding parse_config run_single
main argc json_parse file = if argc == 2 then run_single (parse_config json_parse file) else exits 1
