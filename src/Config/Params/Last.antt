-- ===== src/Config/Params/Last.antt =====
-- What `parse_mux_params` leaves in each field: the last value under its name, or what it had before.
use Prim.Native.String.{String}
use dvb2dvb.Base.{
  later, ℕ, ◌≡◌, refl, ◌∙◌, arith, ◌==◌, ◌^◌, if◌then◌else◌, Bool, Option, some, none, Option-cases,
}
use dvb2dvb.Base.Int.{ℤ, pos, to_unsigned, to_int}
use dvb2dvb.Config.Json.Chain.{chain-parsed}
use dvb2dvb.Config.Json.{Json, object, integer, string, Members, no_members, member, parsed}
use dvb2dvb.Config.Params.{
  MuxConfig, Key, device_key, frequency_key, bandwidth_key, mode_key, constellation_key, guard_key,
  rate_key, gain_key, tsid_key, onid_key, nid_key, other_key, key_of, mode_of, constellation_of,
  guard_of, rate_of, set_param, set_params, parse_mux_params,
}

abbrev number : Key → ℕ
number device_key = 0
number frequency_key = 1
number bandwidth_key = 2
number mode_key = 3
number constellation_key = 4
number guard_key = 5
number rate_key = 6
number gain_key = 7
number tsid_key = 8
number onid_key = 9
number nid_key = 10
number other_key = 11

abbrev pub same_key : Key → Key → Bool
same_key a b = number a == number b

-- One member: the value under its own name, and none under the others.
abbrev only : Key → Json → Key → Option Json
only key v k = if same_key k key then some v else none

-- The value of the last member under a name.
unfoldable pub last_value : Key → Members → Option Json
last_value key no_members = none
last_value key (member name v members) = later (only (key_of name) v key) (last_value key members)

-- A text and an integer, where the value is one.
abbrev pub text_in {ℓ} : {A : Type ℓ} → A → (String → A) → Json → A
text_in other f (string s) = f s
text_in other f _ = other

abbrev pub integer_in {ℓ} : {A : Type ℓ} → A → (ℤ → A) → Json → A
integer_in other f (integer z) = f z
integer_in other f _ = other

-- A field: what the last value sets, or what it was.
abbrev pub field_of {ℓ} : {A : Type ℓ} → (Json → A) → A → Option Json → A
field_of f old none = old
field_of f old (some v) = f v

-- The fields of a mux after the values v of the members under each name.
pub record Fields (v : Key → Option Json) (old new : MuxConfig) : Type 0 where
  pub device : new.device ≡ field_of (text_in none some) old.device (v device_key)
  pub frequency_khz :
      new.frequency_khz
      ≡ field_of (integer_in 0 (to_unsigned (2 ^ 32))) old.frequency_khz (v frequency_key)
  pub bandwidth_hz :
      new.bandwidth_hz
      ≡ field_of (integer_in 0 (to_unsigned (2 ^ 16))) old.bandwidth_hz (v bandwidth_key)
  pub transmission_mode :
      new.transmission_mode ≡ field_of (text_in none mode_of) old.transmission_mode (v mode_key)
  pub constellation :
      new.constellation
      ≡ field_of (text_in none constellation_of) old.constellation (v constellation_key)
  pub guard_interval :
      new.guard_interval ≡ field_of (text_in none guard_of) old.guard_interval (v guard_key)
  pub code_rate_hp :
      new.code_rate_hp ≡ field_of (text_in none rate_of) old.code_rate_hp (v rate_key)
  pub gain : new.gain ≡ field_of (integer_in (pos 0) to_int) old.gain (v gain_key)
  pub tsid : new.tsid ≡ field_of (integer_in (pos 0) to_int) old.tsid (v tsid_key)
  pub onid : new.onid ≡ field_of (integer_in (pos 0) to_int) old.onid (v onid_key)
  pub nid : new.nid ≡ field_of (integer_in (pos 0) to_int) old.nid (v nid_key)
  pub services : new.services ≡ old.services

set_param-Fields :
    (key : Key) (v : Json) (old new : MuxConfig)
    → set_param key v old ≡ parsed new
    → Fields (only key v) old new
unfolding set_param
set_param-Fields mode_key (string s) old new e = ground (arith, Option-cases (mode_of s))
set_param-Fields constellation_key (string s) old new e =
    ground (arith, Option-cases (constellation_of s))
set_param-Fields guard_key (string s) old new e = ground (arith, Option-cases (guard_of s))
set_param-Fields rate_key (string s) old new e = ground (arith, Option-cases (rate_of s))
set_param-Fields _ _ old new e = ground arith

field_of-later {ℓ} :
    {A : Type ℓ} (f : Json → A) (old mid new : A) (v w : Option Json)
    → mid ≡ field_of f old v
    → new ≡ field_of f mid w
    → new ≡ field_of f old (later v w)
field_of-later f old mid new v none p q = q ∙ p
field_of-later f old mid new v (some w) p q = q

Fields-later :
    (v w : Key → Option Json) (old mid new : MuxConfig)
    → Fields v old mid
    → Fields w mid new
    → Fields (λ k. later (v k) (w k)) old new
Fields-later v w old mid new p q = record {
  device = field_of-later _ _ _ _ _ (w device_key) p.device q.device;
  frequency_khz = field_of-later _ _ _ _ _ (w frequency_key) p.frequency_khz q.frequency_khz;
  bandwidth_hz = field_of-later _ _ _ _ _ (w bandwidth_key) p.bandwidth_hz q.bandwidth_hz;
  transmission_mode = field_of-later _ _ _ _ _ (w mode_key) p.transmission_mode q.transmission_mode;
  constellation = field_of-later _ _ _ _ _ (w constellation_key) p.constellation q.constellation;
  guard_interval = field_of-later _ _ _ _ _ (w guard_key) p.guard_interval q.guard_interval;
  code_rate_hp = field_of-later _ _ _ _ _ (w rate_key) p.code_rate_hp q.code_rate_hp;
  gain = field_of-later _ _ _ _ _ (w gain_key) p.gain q.gain;
  tsid = field_of-later _ _ _ _ _ (w tsid_key) p.tsid q.tsid;
  onid = field_of-later _ _ _ _ _ (w onid_key) p.onid q.onid;
  nid = field_of-later _ _ _ _ _ (w nid_key) p.nid q.nid;
  services = q.services ∙ p.services;
}

pub set_params-Fields :
    (ms : Members) (old new : MuxConfig)
    → set_params ms old ≡ parsed new
    → Fields (λ k. last_value k ms) old new
unfolding set_params last_value
set_params-Fields no_members old new e = ground arith
set_params-Fields (member name v ms) old new e =
    let (mid, first, rest) = chain-parsed (set_param (key_of name) v old) (set_params ms) new e in
    Fields-later (only (key_of name) v) (λ k. last_value k ms) old mid new
      (set_param-Fields (key_of name) v old mid first) (set_params-Fields ms mid new rest)

-- When parse_mux_params accepts a value, it is an object, and every field of the mux is then the last
-- value under the field's name, taken as the field's type, or what it was where no member has the name;
-- the services stay.
pub parse_mux_params-Fields :
    (old : MuxConfig) (v : Json) (new : MuxConfig)
    → parse_mux_params old v ≡ parsed new
    → (ms : Members) × (v ≡ object ms) × Fields (λ k. last_value k ms) old new
unfolding parse_mux_params
parse_mux_params-Fields old (object ms) new e = (ms, refl, set_params-Fields ms old new e)
parse_mux_params-Fields old _ new e = ground arith

-- The record does not depend on the services that are read after it.
pub Fields-same_services :
    (v : Key → Option Json) (old new : MuxConfig)
    → Fields v old new
    → Fields v old (record new { services = old.services })
Fields-same_services v old new p = record {
  device = p.device;
  frequency_khz = p.frequency_khz;
  bandwidth_hz = p.bandwidth_hz;
  transmission_mode = p.transmission_mode;
  constellation = p.constellation;
  guard_interval = p.guard_interval;
  code_rate_hp = p.code_rate_hp;
  gain = p.gain;
  tsid = p.tsid;
  onid = p.onid;
  nid = p.nid;
  services = refl;
}
