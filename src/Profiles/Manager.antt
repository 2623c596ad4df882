-- ===== src/Profiles/Manager.antt =====
-- The profile manager (profiles/manager.py): the list of profiles and the one optional default.
-- Saving and notifying are the effect that each change counts; the parsing of the fields and the
-- folding of letter case are parameters.
use fortigate_vpn_linux_gui.Prelude.{
  ℕ, ◌+◌, String, Bool, true, false, not, ◌&&◌, ◌||◌, Option, none, some, List, [], ◌∷◌, ◌++◌, any,
  map, length, is_some, str_eq, ◌==◌, if◌then◌else◌,
}
use fortigate_vpn_linux_gui.Profiles.Model.{ConnectionProfile}
pub mod Laws
mod Tests

-- `saves` counts the calls of `_persist_and_notify`, and `erased` lists the ids whose secrets were
-- deleted from the key store.
pub record Manager : Type 0 where
  pub profiles : List ConnectionProfile
  pub default_profile_id : Option String
  pub saves : ℕ
  pub erased : List String

-- How a call of the manager ends.
pub data Outcome {ℓ} (A : Type ℓ) : Type ℓ where
  done : A → Outcome A
  not_found : String → Outcome A
  invalid : Outcome A

-- What `build_profile` makes of the fields: a profile, or only the name that was entered.
pub data Built : Type 0 where
  built : ConnectionProfile → Built
  refused : String → Built

abbrev pub has_id : String → ConnectionProfile → Bool
has_id id p = str_eq p.id id

abbrev pub find : String → List ConnectionProfile → Option ConnectionProfile
find id [] = none
find id (p ∷ ps) = if has_id id p then some p else find id ps

-- `[item for item in self._profiles if item.id != profile_id]`
abbrev pub without : String → List ConnectionProfile → List ConnectionProfile
without id [] = []
without id (p ∷ ps) = let rest = without id ps in if has_id id p then rest else p ∷ rest

-- `[profile if item.id == profile_id else item for item in self._profiles]`
abbrev pub replace : String → ConnectionProfile → List ConnectionProfile → List ConnectionProfile
replace id q = map (λ p. if has_id id p then q else p)

unfoldable pub get : String → Manager → Option ConnectionProfile
get id m = find id m.profiles

abbrev persist_and_notify : Manager → Manager
persist_and_notify m = record m { saves = m.saves + 1 }

abbrev pub is_default_of : Option String → String → Bool
is_default_of none id = false
is_default_of (some d) id = str_eq d id

-- An id that is stored, and otherwise nothing.
abbrev pub known : List ConnectionProfile → Option String → Option String
known ps none = none
known ps (some d) = if is_some (find d ps) then some d else none

-- `load`, of a document that the store read.
unfoldable pub load : List ConnectionProfile → Option String → Manager → Manager
load ps default m = record m { profiles = ps; default_profile_id = known ps default }

unfoldable pub install_profiles : List ConnectionProfile → Option String → Manager → Manager
install_profiles ps default m =
    persist_and_notify (record m { profiles = ps; default_profile_id = known ps default })

module _ (casefold : String → String) where
  -- `_ensure_unique_name`: whether another profile has the name.
  abbrev pub name_taken : Option String → String → List ConnectionProfile → Bool
  name_taken ignore name ps =
      any (λ p. not (is_default_of ignore p.id) && str_eq (casefold p.name) (casefold name)) ps

  -- `_validated_profile`
  abbrev pub validated : Option String → Built → Manager → Option ConnectionProfile
  validated ignore (refused name) m = none
  validated ignore (built p) m =
      if not (str_eq p.name "") && name_taken ignore p.name m.profiles then none else some p

  -- The end of `add`, once the fields were validated.
  abbrev pub append : Option ConnectionProfile → Manager → Outcome ConnectionProfile × Manager
  append none m = (invalid, m)
  append (some p) m = (done p, persist_and_notify (record m { profiles = m.profiles ++ (p ∷ []) }))

  unfoldable pub add : Built → Manager → Outcome ConnectionProfile × Manager
  add fields m = append (validated none fields m) m

  -- The end of `update`: the profile keeps its id.
  abbrev pub put : String → Option ConnectionProfile → Manager → Outcome ConnectionProfile × Manager
  put id none m = (invalid, m)
  put id (some p) m =
      let q = record p { id = id } in
      (done q, persist_and_notify (record m { profiles = replace id q m.profiles }))

  -- The fields are built from the profile that is there.
  abbrev pub update_found :
      String
      → (ConnectionProfile → Built)
      → Option ConnectionProfile
      → Manager
      → Outcome ConnectionProfile × Manager
  update_found id fields none m = (not_found id, m)
  update_found id fields (some existing) m = put id (validated (some id) (fields existing) m) m

  unfoldable pub update :
      String → (ConnectionProfile → Built) → Manager → Outcome ConnectionProfile × Manager
  unfolding get
  update id fields m = update_found id fields (get id m) m

abbrev pub choose :
    String → Option ConnectionProfile → Manager → Outcome ConnectionProfile × Manager
choose id none m = (not_found id, m)
choose id (some existing) m =
    if is_default_of m.default_profile_id id
    then (done existing, m)
    else (done existing, persist_and_notify (record m { default_profile_id = some id }))

unfoldable pub set_default : String → Manager → Outcome ConnectionProfile × Manager
unfolding get
set_default id m = choose id (get id m) m

unfoldable pub clear_default : Manager → Manager
clear_default m =
    if is_some m.default_profile_id
    then persist_and_notify (record m { default_profile_id = none })
    else m

unfoldable pub delete : String → Manager → Bool × Manager
delete id m =
    let remaining = without id m.profiles in
    if length remaining == length m.profiles
    then (false, m)
    else (let c = persist_and_notify (record m {
      profiles = remaining;
      default_profile_id =
          if is_default_of m.default_profile_id id then none else m.default_profile_id;
    }) in
        (true, record c { erased = id ∷ c.erased }))

-- A call of the manager.
pub data Command : Type 0 where
  load_document install : List ConnectionProfile → Option String → Command
  add_profile : Built → Command
  update_profile : String → (ConnectionProfile → Built) → Command
  choose_default delete_profile : String → Command
  forget_default : Command

module _ (casefold : String → String) where
  unfoldable pub execute : Command → Manager → Manager
  execute (load_document ps default) m = load ps default m
  execute (install ps default) m = install_profiles ps default m
  execute (add_profile fields) m = (add casefold fields m).1
  execute (update_profile id fields) m = (update casefold id fields m).1
  execute (choose_default id) m = (set_default id m).1
  execute (delete_profile id) m = (delete id m).1
  execute forget_default m = clear_default m

  unfoldable pub execute_all : List Command → Manager → Manager
  execute_all [] m = m
  execute_all (c ∷ cs) m = execute_all cs (execute c m)

-- `ProfileManager()`, of the document that the store reads.
abbrev pub opened : List ConnectionProfile → Option String → Manager
opened ps default = record {
  profiles = ps;
  default_profile_id = known ps default;
  saves = 0;
  erased = [];
}
