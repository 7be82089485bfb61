-- ===== src/Config/Muxes.antt =====
-- parse_config.c, `parse_config`.
pub mod Member
pub mod Result
pub mod Accepts
use Prim.Native.String.{String}
use text.Mathlib.Text.{◌==◌ as str_eq}
use dvb2dvb.Base.{ℕ, ◌+◌, if◌then◌else◌, List, [], ◌∷◌, take, Option, some, none}
use dvb2dvb.Base.Int.{pos, ltb_ℤ, to_int}
use dvb2dvb.Base.Text.{codes}
use dvb2dvb.Types.{Hbbtv}
use dvb2dvb.Config.Json.{
  Json, object, array, integer, string, Members, no_members, member, Elements, no_elements, element,
  Parsed, parsed, error, undefined, ◌>>=◌, or_error,
}
use dvb2dvb.Config.Params.{ServiceConfig, MuxConfig, zero_mux, parse_mux_params}

-- The loops that look a name up: the last member of that name.
unfoldable pub find_member : String → Members → Option Json → Option Json
find_member key no_members found = found
find_member key (member name v members) found =
    find_member key members (if str_eq name key then some v else found)

-- What calloc gives.
abbrev pub no_hbbtv : Hbbtv
no_hbbtv = record { url = none; initial_path = []; application_type = 0; ait_version_number = 0 }

abbrev pub zero_service : ServiceConfig
zero_service = record { url = none; new_service_id = pos 0; lcn = pos 0; hbbtv = no_hbbtv }

-- One member of a service. Values of other types, and other names, are passed over.
unfoldable pub set_url : Json → ServiceConfig → Option ServiceConfig
set_url (string s) sv = some (record sv { url = some s })
set_url _ sv = none

unfoldable pub set_service_id : Json → ServiceConfig → Option ServiceConfig
set_service_id (integer z) sv = some (record sv { new_service_id = to_int z })
set_service_id _ sv = none

unfoldable pub set_lcn : Json → ServiceConfig → Option ServiceConfig
set_lcn (integer z) sv = some (record sv { lcn = to_int z })
set_lcn _ sv = none

-- The chain of the three tests: the first that applies.
unfoldable pub set_service : String → Json → ServiceConfig → ServiceConfig
unfolding set_url set_service_id set_lcn
set_service name v sv =
    let set : Option ServiceConfig =
      if str_eq name "url"
      then set_url v sv
      else if str_eq name "service_id"
      then set_service_id v sv
      else if str_eq name "lcn"
      then set_lcn v sv
      else none in
    elim set [ none ↦ sv | some sv' ↦ sv' ]

unfoldable pub set_services : Members → ServiceConfig → ServiceConfig
unfolding set_service
set_services no_members sv = sv
set_services (member name v members) sv = set_services members (set_service name v sv)

-- The hbbtv of service number i, under `if (i < 0)`.
unfoldable pub add_hbbtv : ℕ → ServiceConfig → ServiceConfig
add_hbbtv i sv =
    if ltb_ℤ (pos i) (pos 0)
    then record sv {
      hbbtv = record {
        url = some (codes "http://www.avalpa.com/assets/freesoft/HbbTv/");
        initial_path = codes "index.php";
        application_type = 0x0010;
        ait_version_number = 1;
      };
    }
    else sv

-- The loop over the services, from number i on.
unfoldable pub parse_services : ℕ → Elements → Parsed (List ServiceConfig)
unfolding set_services add_hbbtv
parse_services i no_elements = parsed []
parse_services i (element (object members) others) = do
  services ← parse_services (i + 1) others
  parsed (add_hbbtv i (set_services members zero_service) ∷ services)
parse_services i (element _ others) = error 11

-- The services of a mux. `u.array` of a value that is no array is not defined.
unfoldable pub services_of : Option Json → Parsed (List ServiceConfig)
unfolding parse_services
services_of none = error 10
services_of (some (array values)) = parse_services 0 values
services_of (some _) = undefined

-- The members of a value that `parse_mux_params` has accepted, which is an object.
abbrev pub members_of : Json → Members
members_of (object members) = members
members_of _ = no_members

unfoldable pub parse_mux : MuxConfig → Json → Parsed MuxConfig
unfolding parse_mux_params find_member services_of
parse_mux defaults m = do
  mux ← or_error 9 (parse_mux_params defaults m)
  services ← services_of (find_member "services" (members_of m) none)
  parsed (record mux { services = services })

unfoldable pub parse_muxes : MuxConfig → Elements → Parsed (List MuxConfig)
unfolding parse_mux
parse_muxes defaults no_elements = parsed []
parse_muxes defaults (element m others) = do
  mux ← parse_mux defaults m
  muxes ← parse_muxes defaults others
  parsed (mux ∷ muxes)

-- The common parameters, if there are any.
unfoldable pub parse_common : Option Json → Parsed MuxConfig
unfolding parse_mux_params
parse_common none = parsed zero_mux
parse_common (some common) = or_error 8 (parse_mux_params zero_mux common)

-- The muxes of the file, one at least.
unfoldable pub muxes_of : Option Json → Parsed Elements
muxes_of none = error 5
muxes_of (some (array no_elements)) = error 7
muxes_of (some (array (element m others))) = parsed (element m others)
muxes_of (some _) = error 6

unfoldable pub parse_json : Option Json → Parsed (List MuxConfig)
unfolding find_member muxes_of parse_common parse_muxes
parse_json none = error 3
parse_json (some (object members)) = do
  muxes ← muxes_of (find_member "muxes" members none)
  defaults ← parse_common (find_member "common" members none)
  parse_muxes defaults muxes
parse_json (some _) = error 4

-- The muxes, whose number is returned. `json_parse` is that of json.c; the file is what `open` and
-- `read` give, of which 65536 bytes are taken.
unfoldable pub parse_config : (List ℕ → Option Json) → Option (List ℕ) → Parsed (List MuxConfig)
unfolding parse_json
parse_config json_parse none = error 2
parse_config json_parse (some contents) = parse_json (json_parse (take 65536 contents))
