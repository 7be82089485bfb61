-- ===== src/Config/Muxes/Accepts.antt =====
-- Which configurations `parse_config` accepts.
use Prim.Native.String.{String}
use dvb2dvb.Base.{Bool, true, false, ◌&&◌, Option, some, none}
use dvb2dvb.Config.Json.{
  Json, object, array, integer, string, Members, no_members, member, Elements, no_elements, element,
}
use dvb2dvb.Config.Params.{
  Key, device_key, mode_key, constellation_key, guard_key, rate_key, other_key, key_of, mode_of,
  constellation_of, guard_of, rate_of,
}
use dvb2dvb.Config.Muxes.Member.{last_with}

abbrev pub is_some {ℓ} : {A : Type ℓ} → Option A → Bool
is_some none = false
is_some (some a) = true

abbrev pub text_such : (String → Bool) → Json → Bool
text_such test (string s) = test s
text_such test _ = false

abbrev pub is_integer : Json → Bool
is_integer (integer z) = true
is_integer _ = false

-- A member whose value has the type of its field; the enumerations are texts that are known.
unfoldable pub typed_param : Key → Json → Bool
typed_param device_key v = text_such (λ s. true) v
typed_param mode_key v = text_such (λ s. is_some (mode_of s)) v
typed_param constellation_key v = text_such (λ s. is_some (constellation_of s)) v
typed_param guard_key v = text_such (λ s. is_some (guard_of s)) v
typed_param rate_key v = text_such (λ s. is_some (rate_of s)) v
typed_param other_key v = true
typed_param _ v = is_integer v

unfoldable pub typed_params : Members → Bool
typed_params no_members = true
typed_params (member name v ms) = typed_param (key_of name) v && typed_params ms

abbrev pub all_objects : Elements → Bool
all_objects no_elements = true
all_objects (element (object ms) others) = all_objects others
all_objects (element _ others) = false

abbrev pub typed_services : Option Json → Bool
typed_services (some (array values)) = all_objects values
typed_services _ = false

abbrev pub typed_mux : Json → Bool
typed_mux (object ms) = typed_params ms && typed_services (last_with some "services" ms)
typed_mux _ = false

abbrev pub typed_muxes : Elements → Bool
typed_muxes no_elements = true
typed_muxes (element v others) = typed_mux v && typed_muxes others

abbrev pub typed_array : Option Json → Bool
typed_array (some (array (element first others))) = typed_mux first && typed_muxes others
typed_array _ = false

abbrev pub typed_common : Option Json → Bool
typed_common none = true
typed_common (some (object ms)) = typed_params ms
typed_common (some _) = false

-- The members of the top object: a "muxes" of one mux at least, and perhaps a "common".
unfoldable pub typed_config : Members → Bool
typed_config top =
    typed_common (last_with some "common" top) && typed_array (last_with some "muxes" top)
