-- ===== src/Config/Params.antt =====
-- parse_config.c, `parse_mux_params`.
pub mod Last
use Prim.Native.String.{String}
use text.Mathlib.Text.{◌==◌ as str_eq}
use dvb2dvb.Base.{ℕ, ◌^◌, if◌then◌else◌, List, [], Option, some, none}
use dvb2dvb.Base.Int.{ℤ, pos, to_unsigned, to_int}
use dvb2dvb.Types.{Hbbtv}
use dvb2dvb.Mux.Capacity.{
  Constellation, qpsk, qam_16, qam_64, GuardInterval, guard_1_32, guard_1_16, guard_1_8, guard_1_4,
  CodeRate, fec_1_2, fec_2_3, fec_3_4, fec_4_5, fec_5_6, fec_6_7, fec_7_8, fec_8_9,
}
use dvb2dvb.Config.Json.{
  Json, object, Members, no_members, member, Parsed, parsed, error, ◌>>=◌, text_of, integer_of,
}

pub data TransmissionMode : Type 0 where
  mode_2k mode_4k mode_8k : TransmissionMode

-- The fields of a service that the configuration sets.
pub record ServiceConfig : Type 0 where
  pub url : Option String
  pub new_service_id : ℤ
  pub lcn : ℤ
  pub hbbtv : Hbbtv

-- The fields of a mux that the configuration sets, `dvbmod_params` among them. `none` is the zero that
-- calloc leaves.
pub record MuxConfig : Type 0 where
  pub device : Option String
  pub frequency_khz : ℕ
  pub bandwidth_hz : ℕ
  pub transmission_mode : Option TransmissionMode
  pub constellation : Option Constellation
  pub guard_interval : Option GuardInterval
  pub code_rate_hp : Option CodeRate
  pub gain : ℤ
  pub tsid : ℤ
  pub onid : ℤ
  pub nid : ℤ
  pub services : List ServiceConfig

-- What calloc gives.
abbrev pub zero_mux : MuxConfig
zero_mux = record {
  device = none;
  frequency_khz = 0;
  bandwidth_hz = 0;
  transmission_mode = none;
  constellation = none;
  guard_interval = none;
  code_rate_hp = none;
  gain = pos 0;
  tsid = pos 0;
  onid = pos 0;
  nid = pos 0;
  services = [];
}

-- The names that the chain of strcmp knows, and any other.
pub data Key : Type 0 where
  device_key frequency_key bandwidth_key mode_key constellation_key guard_key rate_key gain_key
        tsid_key onid_key nid_key other_key :
      Key

unfoldable pub key_of : String → Key
key_of name =
    if str_eq name "device"
    then device_key
    else if str_eq name "frequency_khz"
    then frequency_key
    else if str_eq name "bandwidth_hz"
    then bandwidth_key
    else if str_eq name "transmission_mode"
    then mode_key
    else if str_eq name "constellation"
    then constellation_key
    else if str_eq name "guard_interval"
    then guard_key
    else if str_eq name "code_rate_HP"
    then rate_key
    else if str_eq name "gain"
    then gain_key
    else if str_eq name "tsid"
    then tsid_key
    else if str_eq name "onid"
    then onid_key
    else if str_eq name "nid"
    then nid_key
    else other_key

-- The texts of the enumerations; `none` is the -1 of an unknown one.
unfoldable pub mode_of : String → Option TransmissionMode
mode_of s =
    if str_eq s "2K"
    then some mode_2k
    else if str_eq s "4K"
    then some mode_4k
    else if str_eq s "8K"
    then some mode_8k
    else none

unfoldable pub constellation_of : String → Option Constellation
constellation_of s =
    if str_eq s "QPSK"
    then some qpsk
    else if str_eq s "QAM_16"
    then some qam_16
    else if str_eq s "QAM_64"
    then some qam_64
    else none

unfoldable pub guard_of : String → Option GuardInterval
guard_of s =
    if str_eq s "1/4"
    then some guard_1_4
    else if str_eq s "1/8"
    then some guard_1_8
    else if str_eq s "1/16"
    then some guard_1_16
    else if str_eq s "1/32"
    then some guard_1_32
    else none

unfoldable pub rate_of : String → Option CodeRate
rate_of s =
    if str_eq s "1/2"
    then some fec_1_2
    else if str_eq s "2/3"
    then some fec_2_3
    else if str_eq s "3/4"
    then some fec_3_4
    else if str_eq s "4/5"
    then some fec_4_5
    else if str_eq s "5/6"
    then some fec_5_6
    else if str_eq s "6/7"
    then some fec_6_7
    else if str_eq s "7/8"
    then some fec_7_8
    else if str_eq s "8/9"
    then some fec_8_9
    else none

-- A text that is unknown ends the function with -1.
abbrev pub known : {A : Type 0} → Option A → Parsed A
known none = error 1
known (some a) = parsed a

-- One member of the object.
unfoldable pub set_param : Key → Json → MuxConfig → Parsed MuxConfig
unfolding text_of integer_of
set_param device_key v mux = do s ← text_of v; parsed (record mux { device = some s })
set_param frequency_key v mux = do
  z ← integer_of v
  parsed (record mux { frequency_khz = to_unsigned (2 ^ 32) z })
set_param bandwidth_key v mux = do
  z ← integer_of v
  parsed (record mux { bandwidth_hz = to_unsigned (2 ^ 16) z })
set_param mode_key v mux = do
  s ← text_of v
  mode ← known (mode_of s)
  parsed (record mux { transmission_mode = some mode })
set_param constellation_key v mux = do
  s ← text_of v
  c ← known (constellation_of s)
  parsed (record mux { constellation = some c })
set_param guard_key v mux = do
  s ← text_of v
  g ← known (guard_of s)
  parsed (record mux { guard_interval = some g })
set_param rate_key v mux = do
  s ← text_of v
  r ← known (rate_of s)
  parsed (record mux { code_rate_hp = some r })
set_param gain_key v mux = do z ← integer_of v; parsed (record mux { gain = to_int z })
set_param tsid_key v mux = do z ← integer_of v; parsed (record mux { tsid = to_int z })
set_param onid_key v mux = do z ← integer_of v; parsed (record mux { onid = to_int z })
set_param nid_key v mux = do z ← integer_of v; parsed (record mux { nid = to_int z })
set_param other_key v mux = parsed mux

unfoldable pub set_params : Members → MuxConfig → Parsed MuxConfig
unfolding key_of set_param
set_params no_members mux = parsed mux
set_params (member name v members) mux = do
  mux' ← set_param (key_of name) v mux
  set_params members mux'

unfoldable pub parse_mux_params : MuxConfig → Json → Parsed MuxConfig
unfolding set_params
parse_mux_params mux (object members) = set_params members mux
parse_mux_params mux _ = error 1
