-- ===== src/Json.antt =====
-- The values that Python's json module reads and writes, and the lookups that the code makes in
-- them. A dictionary is its members in order; its keys are distinct, so the first match is the
-- value. A number that is no integer is kept as its text.
use fortigate_vpn_linux_gui.Prelude.{
  ℤ, String, Bool, Option, none, some, List, [], ◌∷◌, str_eq, if◌then◌else◌, ◌≡◌, refl, arith,
}

mutual
  pub data Json : Type 0 where
    null : Json
    boolean : Bool → Json
    int : ℤ → Json
    float : String → Json
    str : String → Json
    array : Jsons → Json
    object : Members → Json

  pub data Jsons : Type 0 where
    end : Jsons
    item : Json → Jsons → Jsons

  pub data Members : Type 0 where
    empty : Members
    member : String → Json → Members → Members

-- `payload.get(key)`: a missing key and a null are both `None` to the callers.
abbrev pub get_member : String → Members → Option Json
get_member key empty = none
get_member key (member k v rest) = if str_eq key k then some v else get_member key rest

abbrev pub or_default : Option Json → Json → Json
or_default none d = d
or_default (some v) d = v

-- `payload.get(key, default)`
abbrev pub get_or : String → Json → Members → Json
get_or key default payload = or_default (get_member key payload) default

-- `payload.get(key)`
abbrev pub get : String → Members → Json
get key = get_or key null

abbrev pub items : Jsons → List Json
items end = []
items (item v rest) = v ∷ items rest

abbrev pub of_items : List Json → Jsons
of_items [] = end
of_items (v ∷ rest) = item v (of_items rest)

abbrev pub keys : Members → List String
keys empty = []
keys (member k v rest) = k ∷ keys rest

-- A payload written field by field, without those that are absent.
abbrev pub Fields : Type 0
Fields = List (String × Option Json)

abbrev put : String → Option Json → Members → Members
put key none rest = rest
put key (some v) rest = member key v rest

unfoldable pub payload_of : Fields → Members
payload_of [] = empty
payload_of ((key, v) ∷ rest) = put key v (payload_of rest)

abbrev pub first_of : Option Json → Option Json → Option Json
first_of none d = d
first_of (some v) d = some v

abbrev pub find : String → Fields → Option Json
find key [] = none
find key ((k, v) ∷ rest) = if str_eq key k then first_of v (find key rest) else find key rest

get_member-put :
    (key k : String) (v : Option Json) (rest : Members)
    → get_member key (put k v rest)
      ≡ (if str_eq key k then first_of v (get_member key rest) else get_member key rest)
get_member-put key k none rest = ground arith
get_member-put key k (some v) rest = refl

pub get_member-payload_of :
    (key : String) (fields : Fields) → get_member key (payload_of fields) ≡ find key fields
unfolding payload_of
get_member-payload_of key [] = refl
get_member-payload_of key ((k, v) ∷ rest) =
    simp (get_member-put, get_member-payload_of key rest) refl

pub items-of_items : (values : List Json) → items (of_items values) ≡ values
items-of_items [] = refl
items-of_items (v ∷ rest) = cc (items-of_items rest)
