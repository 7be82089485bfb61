-- ===== src/Examples/Config.antt =====
-- The theorems on the configuration at a concrete file.
use dvb2dvb.Base.{ap, ℕ, ◌≡◌, refl, List, [], ◌∷◌, take, Option, some, none}
use dvb2dvb.Base.Int.{pos, negsuc, to_unsigned, to_int}
use dvb2dvb.Mux.Capacity.{fec_4_5, fec_6_7, fec_8_9, fec_7_8, by_code_rate}
use dvb2dvb.Config.Json.{
  Json, object, array, integer, string, Members, no_members, member, no_elements, element, parsed,
  text_of, integer_of,
}
use dvb2dvb.Config.Params.{
  MuxConfig, zero_mux, key_of, rate_of, set_param, set_params, parse_mux_params,
}
use dvb2dvb.Config.Muxes.{
  parse_config, parse_json, muxes_of, parse_common, parse_muxes, parse_mux, find_member,
  services_of, parse_services, set_services, set_service, set_url, set_service_id, set_lcn,
  add_hbbtv, no_hbbtv,
}
use dvb2dvb.Main.{runs, run_single, main}
use dvb2dvb.Main.Single.{IsSingle, main-IsSingle}

abbrev service_value : Json
service_value = object (
    member "url" (string "http://tv/news")
      (member "service_id" (integer (pos 4097)) (member "lcn" (integer (pos 12)) no_members)))

abbrev mux_value : Json
mux_value = object (
    member "frequency_khz" (integer (pos 626000)) (
      member "code_rate_HP" (string "7/8")
        (member "services" (array (element service_value no_elements)) no_members)))

abbrev top : Members
top =
    member "common"
      (object (member "gain" (integer (negsuc 4)) (member "nid" (integer (pos 3)) no_members)))
      (member "muxes" (array (element mux_value no_elements)) no_members)

-- Any text is the configuration.
abbrev json_parse : List ℕ → Option Json
json_parse contents = some (object top)

abbrev mux : MuxConfig
mux = record zero_mux {
  frequency_khz = 626000;
  code_rate_hp = some fec_7_8;
  gain = negsuc 4;
  nid = pos 3;
  services =
      record {
        url = some "http://tv/news";
        new_service_id = pos 4097;
        lcn = pos 12;
        hbbtv = no_hbbtv;
      }
      ∷ [];
}

config_parsed : parse_config json_parse (some []) ≡ parsed (mux ∷ [])
unfolding parse_config parse_json muxes_of parse_common parse_muxes parse_mux find_member
    services_of parse_services set_services set_service set_url set_service_id set_lcn add_hbbtv
    parse_mux_params set_params set_param key_of rate_of text_of integer_of to_unsigned to_int
config_parsed = refl

abbrev argc : ℕ
argc = 2

main_runs : main argc json_parse (some []) ≡ runs mux
unfolding main run_single
main_runs = ap run_single config_parsed

main-IsSingle_example :
    (argc ≡ 2)
    × (contents : List ℕ) × (top' : Members) × (some [] ≡ some contents)
    × (json_parse (take 65536 contents) ≡ some (object top'))
    × IsSingle top' mux
main-IsSingle_example = main-IsSingle argc json_parse (some []) mux main_runs

-- Code rates that the configuration may name and that have no capacity.
no_capacity :
    (rate_of "4/5" ≡ some fec_4_5) × (rate_of "6/7" ≡ some fec_6_7) × (rate_of "8/9" ≡ some fec_8_9)
unfolding rate_of
no_capacity = (refl, refl, refl)

no_capacity_at :
    (rate : ℕ)
    → (by_code_rate fec_4_5 rate ≡ none)
      × (by_code_rate fec_6_7 rate ≡ none)
      × (by_code_rate fec_8_9 rate ≡ none)
unfolding by_code_rate
no_capacity_at rate = (refl, refl, refl)
