-- ===== src/Config/Muxes/Result.antt =====
-- What a configuration that `parse_config` accepts gives.
use dvb2dvb.Base.{
  ℕ, ◌+◌, ◌≡◌, refl, sym, ap, ◌∙◌, arith, List, [], ◌∷◌, take, Option, some, none, Option-cases,
}
use dvb2dvb.Base.Int.{pos}
use dvb2dvb.Config.Json.{
  Json, object, array, Members, Elements, no_elements, element, parsed, or_error,
}
use dvb2dvb.Config.Json.Chain.{chain-parsed, parsed-injective, or_error-parsed}
use dvb2dvb.Config.Params.{ServiceConfig, MuxConfig, zero_mux, parse_mux_params}
use dvb2dvb.Config.Params.Last.{
  Fields, last_value, parse_mux_params-Fields, set_params-Fields, Fields-same_services,
}
use dvb2dvb.Config.Muxes.{
  find_member, zero_service, add_hbbtv, no_hbbtv, set_services, parse_services, services_of,
  members_of, parse_mux, parse_muxes, parse_common, muxes_of, parse_json, parse_config,
}
use dvb2dvb.Config.Muxes.Member.{
  last_with, a_text, an_int, or_kept, set_services_lem, find_member_lem,
}

-- One result for each element, in their order.
pub data Each {A : Type 0} (R : Json → A → Type 0) : Elements → List A → Type 0 where
  none_left : Each R no_elements []
  one_more :
      {v : Json} {vs : Elements} {a : A} {results : List A}
      → R v a
      → Each R vs results
      → Each R (element v vs) (a ∷ results)

-- A service is an object. Its url, service_id and lcn are the last of these names that have the right
-- type, or zero, and it has no hbbtv.
pub record IsService (v : Json) (sv : ServiceConfig) : Type 0 where
  pub is_object : v ≡ object (members_of v)
  pub url : sv.url ≡ last_with a_text "url" (members_of v)
  pub new_service_id :
      sv.new_service_id ≡ or_kept (pos 0) (last_with an_int "service_id" (members_of v))
  pub lcn : sv.lcn ≡ or_kept (pos 0) (last_with an_int "lcn" (members_of v))
  pub hbbtv : sv.hbbtv ≡ no_hbbtv

-- A mux is an object. Its fields are those of its own members over the defaults, and its services are
-- those of the array that is the last member of this name.
pub record IsMux (defaults : MuxConfig) (v : Json) (mux : MuxConfig) : Type 0 where
  pub is_object : v ≡ object (members_of v)
  pub fields :
      Fields
        (λ key. last_value key (members_of v))
        defaults
        (record mux { services = defaults.services })
  pub values : Elements
  pub has_services : last_with some "services" (members_of v) ≡ some (array values)
  pub services : Each IsService values mux.services

-- The defaults are the fields of the common object over zero.
pub data Common (common : Option Json) (defaults : MuxConfig) : Type 0 where
  without : common ≡ none → defaults ≡ zero_mux → Common common defaults
  with_members :
      (ms : Members)
      → common ≡ some (object ms)
      → Fields (λ key. last_value key ms) zero_mux defaults
      → Common common defaults

pub record IsConfig (top : Members) (muxes : List MuxConfig) : Type 0 where
  pub defaults : MuxConfig
  pub common : Common (last_with some "common" top) defaults
  pub first : Json
  pub others : Elements
  pub has_muxes : last_with some "muxes" top ≡ some (array (element first others))
  pub each : Each (IsMux defaults) (element first others) muxes

-- The test `i < 0` of the source fails for every service.
add_hbbtv_lem : (i : ℕ) (sv : ServiceConfig) → add_hbbtv i sv ≡ sv
unfolding add_hbbtv
add_hbbtv_lem i sv = ground arith

IsService-add_hbbtv :
    (i : ℕ) (ms : Members) → IsService (object ms) (add_hbbtv i (set_services ms zero_service))
IsService-add_hbbtv i ms =
    rw (add_hbbtv_lem i (set_services ms zero_service), set_services_lem ms zero_service)
      (record {
        is_object = refl;
        url = ground (arith, Option-cases (last_with a_text "url" ms));
        new_service_id = refl;
        lcn = refl;
        hbbtv = refl;
      })

parse_services-Each :
    (i : ℕ) (vs : Elements) (services : List ServiceConfig)
    → parse_services i vs ≡ parsed services
    → Each IsService vs services
unfolding parse_services
parse_services-Each i no_elements [] e = none_left
parse_services-Each i no_elements (_ ∷ _) e = ground arith
parse_services-Each i (element (object ms) others) services e =
    let sv : ServiceConfig = add_hbbtv i (set_services ms zero_service) in
    let (rest, ok, done) =
      chain-parsed (parse_services (i + 1) others) (λ services. parsed (sv ∷ services)) services
        e in
    rw (sym (parsed-injective _ services done))
      (one_more (IsService-add_hbbtv i ms) (parse_services-Each (i + 1) others rest ok))
parse_services-Each i (element _ others) services e = ground arith

services_of-Each :
    (v : Option Json) (services : List ServiceConfig)
    → services_of v ≡ parsed services
    → (vs : Elements) × (v ≡ some (array vs)) × Each IsService vs services
unfolding services_of
services_of-Each (some (array vs)) services e = (vs, refl, parse_services-Each 0 vs services e)
services_of-Each _ services e = ground arith

parse_mux-IsMux :
    (defaults : MuxConfig) (v : Json) (mux : MuxConfig)
    → parse_mux defaults v ≡ parsed mux
    → IsMux defaults v mux
unfolding parse_mux parse_mux_params
parse_mux-IsMux defaults (object ms) mux e =
    let (params, ok, more) =
      chain-parsed (or_error 9 (parse_mux_params defaults (object ms))) _ mux e in
    let (services, found, done) =
      chain-parsed (services_of (find_member "services" ms none)) _ mux more in
    let (values, is_array, each) =
      services_of-Each (find_member "services" ms none) services found in
    let fields = set_params-Fields ms defaults params (or_error-parsed 9 _ params ok) in
    rw (sym (parsed-injective _ mux done)) (record {
      is_object = refl;
      fields = Fields-same_services (λ key. last_value key ms) defaults params fields;
      values = values;
      has_services = sym (find_member_lem "services" ms) ∙ is_array;
      services = each;
    })
parse_mux-IsMux defaults _ mux e = ground arith

parse_muxes-Each :
    (defaults : MuxConfig) (vs : Elements) (muxes : List MuxConfig)
    → parse_muxes defaults vs ≡ parsed muxes
    → Each (IsMux defaults) vs muxes
unfolding parse_muxes
parse_muxes-Each defaults no_elements [] e = none_left
parse_muxes-Each defaults no_elements (_ ∷ _) e = ground arith
parse_muxes-Each defaults (element v others) muxes e =
    let (mux, is_mux, more) = chain-parsed (parse_mux defaults v) _ muxes e in
    let (rest, ok, done) = chain-parsed (parse_muxes defaults others) _ muxes more in
    rw (sym (parsed-injective (mux ∷ rest) muxes done))
      (one_more (parse_mux-IsMux defaults v mux is_mux) (parse_muxes-Each defaults others rest ok))

parse_common-Common :
    (v : Option Json) (defaults : MuxConfig) → parse_common v ≡ parsed defaults → Common v defaults
unfolding parse_common
parse_common-Common none defaults e = without refl (sym (parsed-injective zero_mux defaults e))
parse_common-Common (some v) defaults e =
    let (ms, is_object, fields) =
      parse_mux_params-Fields zero_mux v defaults (or_error-parsed 8 _ defaults e) in
    with_members ms (ap some is_object) fields

muxes_of-some :
    (v : Option Json) (vs : Elements)
    → muxes_of v ≡ parsed vs
    → (first : Json) × (others : Elements) × (vs ≡ element first others)
      × (v ≡ some (array (element first others)))
unfolding muxes_of
muxes_of-some (some (array (element first others))) vs e =
    (first, others, sym (parsed-injective _ vs e), refl)
muxes_of-some (some (array no_elements)) vs e = ground arith
muxes_of-some _ vs e = ground arith

pub parse_object-IsConfig :
    (top : Members) (muxes : List MuxConfig)
    → parse_json (some (object top)) ≡ parsed muxes
    → IsConfig top muxes
unfolding parse_json
parse_object-IsConfig top muxes e =
    let (vs, found, more) = chain-parsed (muxes_of (find_member "muxes" top none)) _ muxes e in
    let (defaults, common, done) =
      chain-parsed (parse_common (find_member "common" top none)) _ muxes more in
    let (first, others, same, is_array) = muxes_of-some (find_member "muxes" top none) vs found in
    record {
      defaults = defaults;
      common = rw (sym (find_member_lem "common" top)) (parse_common-Common _ defaults common);
      first = first;
      others = others;
      has_muxes = sym (find_member_lem "muxes" top) ∙ is_array;
      each = rw (sym same) (parse_muxes-Each defaults vs muxes done);
    }

parse_json-object :
    (v : Option Json) (muxes : List MuxConfig)
    → parse_json v ≡ parsed muxes
    → (top : Members) × (v ≡ some (object top))
unfolding parse_json
parse_json-object (some (object top)) muxes e = (top, refl)
parse_json-object _ muxes e = ground arith

-- When parse_config returns a number of muxes, the file could be read and json_parse gave an object from
-- its first 65536 bytes. Its last member "muxes" is an array of one value at least. There is one mux for
-- each value, in their order. Each mux is an object: every field is the last of its own members under the
-- field's name, or else the last of the object "common", or else zero; and its services are those of its
-- last member "services", one for each object of that array, in their order, with the last url, service_id
-- and lcn that have the right type, or zero. No service has a hbbtv.
pub parse_config-IsConfig :
    (json_parse : List ℕ → Option Json) (file : Option (List ℕ)) (muxes : List MuxConfig)
    → parse_config json_parse file ≡ parsed muxes
    → (contents : List ℕ) × (top : Members) × (file ≡ some contents)
      × (json_parse (take 65536 contents) ≡ some (object top))
      × IsConfig top muxes
unfolding parse_config
parse_config-IsConfig json_parse none muxes e = ground arith
parse_config-IsConfig json_parse (some contents) muxes e =
    let (top, is_object) = parse_json-object (json_parse (take 65536 contents)) muxes e in
    (contents, top, refl, is_object, parse_object-IsConfig top muxes (rw is_object at e))
