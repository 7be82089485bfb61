-- ===== src/Config/Muxes/Member.antt =====
-- The last member of an object under a name, and what the loops of `parse_config` find.
use Prim.Native.String.{String}
use text.Mathlib.Text.{◌==◌ as str_eq}
use text.Mathlib.TextEquality.{eq_iff}
use dvb2dvb.Base.{
  later, ◌≡◌, refl, ◌∙◌, arith, Bool, true, false, if◌then◌else◌, Option, some, none, Option-cases,
  ap,
}
use dvb2dvb.Base.Int.{ℤ, to_int}
use dvb2dvb.Config.Json.{Json, integer, string, Members, no_members, member}
use dvb2dvb.Config.Params.{ServiceConfig}
use dvb2dvb.Config.Muxes.{find_member, set_url, set_service_id, set_lcn, set_service, set_services}

-- What f takes from the last member of that name from which it takes anything.
unfoldable pub last_with {ℓ} : {A : Type ℓ} → (Json → Option A) → String → Members → Option A
last_with f key no_members = none
last_with f key (member name v ms) =
    later (if str_eq name key then f v else none) (last_with f key ms)

abbrev pub a_text : Json → Option String
a_text (string s) = some s
a_text _ = none

abbrev pub an_int : Json → Option ℤ
an_int (integer z) = some (to_int z)
an_int _ = none

abbrev pub or_kept {ℓ} : {A : Type ℓ} → A → Option A → A
or_kept old none = old
or_kept old (some a) = a

later_find :
    (key : String) (ms : Members) (found : Option Json)
    → find_member key ms found ≡ later found (last_with some key ms)
unfolding find_member last_with
later_find key no_members found = refl
later_find key (member name v ms) found =
    rw (later_find key ms (if str_eq name key then some v else found))
      (ground (arith, Option-cases (last_with some key ms)))

pub find_member_lem :
    (key : String) (ms : Members) → find_member key ms none ≡ last_with some key ms
find_member_lem key ms =
    later_find key ms none ∙ ground (arith, Option-cases (last_with some key ms))

other_name : (name a b : String) → str_eq a b ≡ false → str_eq name a ≡ true → str_eq name b ≡ false
other_name name a b differ same = ap (λ s. str_eq s b) ((eq_iff name a).0 same) ∙ differ

-- A service after a text for its url and numbers for its id and its lcn, where they are given.
abbrev pub filled : ServiceConfig → Option String → Option ℤ → Option ℤ → ServiceConfig
filled sv url id lcn = record sv {
  url = later sv.url url;
  new_service_id = or_kept sv.new_service_id id;
  lcn = or_kept sv.lcn lcn;
}

filled-filled :
    (sv : ServiceConfig) (u u' : Option String) (i i' l l' : Option ℤ)
    → filled (filled sv u i l) u' i' l' ≡ filled sv (later u u') (later i i') (later l l')
filled-filled sv u u' i i' l l' = ground (arith, Option-cases u', Option-cases i', Option-cases l')

abbrev under : {A : Type 0} → (Json → Option A) → String → String → Json → Option A
under f key name v = if str_eq name key then f v else none

abbrev or_same : ServiceConfig → Option ServiceConfig → ServiceConfig
or_same sv set = elim set [ none ↦ sv | some sv' ↦ sv' ]

set_url_lem :
    (v : Json) (sv : ServiceConfig) → or_same sv (set_url v sv) ≡ filled sv (a_text v) none none
unfolding set_url
set_url_lem (string s) sv = refl
set_url_lem _ sv = refl

set_service_id_lem :
    (v : Json) (sv : ServiceConfig)
    → or_same sv (set_service_id v sv) ≡ filled sv none (an_int v) none
unfolding set_service_id
set_service_id_lem (integer z) sv = refl
set_service_id_lem _ sv = refl

set_lcn_lem :
    (v : Json) (sv : ServiceConfig) → or_same sv (set_lcn v sv) ≡ filled sv none none (an_int v)
unfolding set_lcn
set_lcn_lem (integer z) sv = refl
set_lcn_lem _ sv = refl

-- The chain of the three tests, of which one at most holds.
chain_lem :
    (url id lcn : Bool) (v : Json) (sv : ServiceConfig)
    → (url ≡ true → id ≡ false)
    → (url ≡ true → lcn ≡ false)
    → (id ≡ true → lcn ≡ false)
    → or_same sv (
        if url
        then set_url v sv
        else if id
        then set_service_id v sv
        else if lcn
        then set_lcn v sv
        else none)
      ≡ filled sv
          (if url then a_text v else none)
          (if id then an_int v else none)
          (if lcn then an_int v else none)
chain_lem true id lcn v sv p q r = rw (p refl, q refl) (set_url_lem v sv)
chain_lem false true lcn v sv p q r = rw (r refl) (set_service_id_lem v sv)
chain_lem false false true v sv p q r = set_lcn_lem v sv
chain_lem false false false v sv p q r = refl

set_service_lem :
    (name : String) (v : Json) (sv : ServiceConfig)
    → set_service name v sv
      ≡ filled sv
          (under a_text "url" name v)
          (under an_int "service_id" name v)
          (under an_int "lcn" name v)
unfolding set_service
set_service_lem name v sv =
    chain_lem (str_eq name "url") (str_eq name "service_id") (str_eq name "lcn") v sv
      (other_name name "url" "service_id" refl) (other_name name "url" "lcn" refl)
      (other_name name "service_id" "lcn" refl)

pub set_services_lem :
    (ms : Members) (sv : ServiceConfig)
    → set_services ms sv
      ≡ filled sv
          (last_with a_text "url" ms)
          (last_with an_int "service_id" ms)
          (last_with an_int "lcn" ms)
unfolding set_services last_with
set_services_lem no_members sv = refl
set_services_lem (member name v ms) sv =
    set_services_lem ms (set_service name v sv)
    ∙ ap
        (λ x.
          filled x (last_with a_text "url" ms) (last_with an_int "service_id" ms)
            (last_with an_int "lcn" ms))
        (set_service_lem name v sv)
    ∙ filled-filled sv (under a_text "url" name v) (last_with a_text "url" ms)
        (under an_int "service_id" name v) (last_with an_int "service_id" ms)
        (under an_int "lcn" name v) (last_with an_int "lcn" ms)
