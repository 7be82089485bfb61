-- ===== src/Main/Single.antt =====
-- The mux that `main` runs.
use dvb2dvb.Base.{
  ℕ, ◌≡◌, refl, ap, ◌∙◌, arith, ◌==◌, ==_iff, Bool-cases, inl, inr, List, [], ◌∷◌, take, Option,
  some,
}
use dvb2dvb.Config.Json.{
  Json, object, array, Members, Elements, no_elements, element, Parsed, parsed, error, undefined,
}
use dvb2dvb.Config.Params.{MuxConfig}
use dvb2dvb.Config.Muxes.{parse_config}
use dvb2dvb.Config.Muxes.Member.{last_with}
use dvb2dvb.Config.Muxes.Result.{
  Each, none_left, one_more, Common, IsMux, IsConfig, parse_config-IsConfig,
}
use dvb2dvb.Main.{runs, run_single, main}

run_single-runs :
    (p : Parsed (List MuxConfig)) (mux : MuxConfig)
    → run_single p ≡ runs mux
    → p ≡ parsed (mux ∷ [])
unfolding run_single
run_single-runs (error n) mux e = ground arith
run_single-runs (parsed []) mux e = ground arith
run_single-runs (parsed (m ∷ [])) mux e = ground arith
run_single-runs (parsed (m ∷ n ∷ ms)) mux e = ground arith
run_single-runs undefined mux e = ground arith

-- The configuration has one mux.
pub record IsSingle (top : Members) (mux : MuxConfig) : Type 0 where
  pub defaults : MuxConfig
  pub common : Common (last_with some "common" top) defaults
  pub value : Json
  pub has_muxes : last_with some "muxes" top ≡ some (array (element value no_elements))
  pub is_mux : IsMux defaults value mux

only_one :
    {A : Type 0} {R : Json → A → Type 0} {v : Json} {vs : Elements} {a : A}
    → Each R (element v vs) (a ∷ [])
    → (vs ≡ no_elements) × R v a
only_one (one_more r none_left) = (refl, r)

single : (top : Members) (mux : MuxConfig) → IsConfig top (mux ∷ []) → IsSingle top mux
single top mux c =
    let (no_more, is_mux) = only_one c.each in
    record {
      defaults = c.defaults;
      common = c.common;
      value = c.first;
      has_muxes = c.has_muxes ∙ ap (λ vs. some (array (element c.first vs))) no_more;
      is_mux = is_mux;
    }

-- When main runs the thread of a mux, it was given one argument, the file could be read, json_parse gave
-- an object, the last member "muxes" of that is an array of one value, and the mux is the one of this
-- value: its fields and services are those that parse_config takes from it and from the member "common".
pub main-IsSingle :
    (argc : ℕ) (json_parse : List ℕ → Option Json) (file : Option (List ℕ)) (mux : MuxConfig)
    → main argc json_parse file ≡ runs mux
    → (argc ≡ 2)
      × (contents : List ℕ) × (top : Members) × (file ≡ some contents)
      × (json_parse (take 65536 contents) ≡ some (object top))
      × IsSingle top mux
unfolding main
main-IsSingle argc json_parse file mux e = elim (Bool-cases (argc == 2)) [
  | inl two ↦
      let one = run_single-runs (parse_config json_parse file) mux (rw (main, two) at e) in
      let (contents, top, read, is_object, config) =
        parse_config-IsConfig json_parse file (mux ∷ []) one in
      ((==_iff argc 2).0 two, contents, top, read, is_object, single top mux config)
  | inr other ↦ absurd (ground (arith, rw (main, other) at e))
]
