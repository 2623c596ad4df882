-- ===== src/Profiles/Manager/Laws.antt =====
-- What the profile manager keeps.
use fortigate_vpn_linux_gui.Prelude.{
  String, true, false, not, Option, none, some, List, [], ◌∷◌, ◌++◌, length, is_some, str_eq,
  str_eq_iff, ◌==◌, ◌≡◌, ◌≤◌, refl, ap, ◌∙◌, arith, inl, inr, Bool-cases, if◌then◌else◌,
}
use mathlib.Core.Path.{subst}
use fortigate_vpn_linux_gui.Profiles.Model.{ConnectionProfile}
use fortigate_vpn_linux_gui.Profiles.Manager.{
  Manager, Built, has_id, find, without, replace, get, is_default_of, known, load, install_profiles,
  validated, append, put, update_found, choose, add, update, set_default, clear_default, delete,
  Command, load_document, install, add_profile, update_profile, choose_default, delete_profile,
  forget_default, execute, execute_all, opened,
}

find-without : (id : String) (ps : List ConnectionProfile) → find id (without id ps) ≡ none
find-without id [] = refl
find-without id (p ∷ ps) = elim (Bool-cases (has_id id p)) [
  | inl s ↦ simp s (find-without id ps)
  | inr s ↦ simp s (find-without id ps)
]

find-without-other :
    (d id : String) (ps : List ConnectionProfile)
    → str_eq d id ≡ false
    → find d (without id ps) ≡ find d ps
find-without-other d id [] other = refl
find-without-other d id (p ∷ ps) other = grind (
  arith,
  str_eq_iff p.id id,
  str_eq_iff p.id d,
  str_eq_iff d id,
  find-without-other d id ps other,
)

length-without : (id : String) (ps : List ConnectionProfile) → length (without id ps) ≤ length ps
length-without id [] = ground arith
length-without id (p ∷ ps) = ground (arith, length-without id ps)

length-without-found :
    (id : String) (ps : List ConnectionProfile)
    → (length (without id ps) == length ps) ≡ not (is_some (find id ps))
length-without-found id [] = refl
length-without-found id (p ∷ ps) = ground (arith, length-without id ps, length-without-found id ps)

find-append :
    (d : String) (ps qs : List ConnectionProfile)
    → is_some (find d ps) ≡ true
    → is_some (find d (ps ++ qs)) ≡ true
find-append d [] qs found = ground arith
find-append d (p ∷ ps) qs found = ground (arith, find-append d ps qs)

find-replace :
    (d id : String) (q : ConnectionProfile) (ps : List ConnectionProfile)
    → q.id ≡ id
    → is_some (find d (replace id q ps)) ≡ is_some (find d ps)
find-replace d id q [] same = refl
find-replace d id q (p ∷ ps) same =
    grind
      (arith, str_eq_iff p.id id, str_eq_iff p.id d, str_eq_iff q.id d, find-replace d id q ps same)

-- A profile that was deleted is not found any more, and the answer says whether it was there.
pub delete-get :
    (id : String) (m : Manager)
    → get id (delete id m).1 ≡ none × (delete id m).0 ≡ is_some (get id m)
unfolding delete get
delete-get id m = elim (Bool-cases (is_some (find id m.profiles))) [
  | inl s ↦ simp (length-without-found id m.profiles) (simp s (find-without id m.profiles, refl))
  | inr s ↦ simp (length-without-found id m.profiles) (simp s (ground (arith, s), refl))
]

-- Deleting a profile leaves every profile with another id as it was.
pub delete-get-other :
    (d id : String) (m : Manager) → str_eq d id ≡ false → get d (delete id m).1 ≡ get d m
unfolding delete get
delete-get-other d id m other = ground (arith, find-without-other d id m.profiles other)

abbrev pub KnownIn : List ConnectionProfile → Option String → Type 0
KnownIn ps none = Unit
KnownIn ps (some d) = is_some (find d ps) ≡ true

known-KnownIn : (ps : List ConnectionProfile) (d : Option String) → KnownIn ps (known ps d)
known-KnownIn ps none = tt
known-KnownIn ps (some d) = elim (Bool-cases (is_some (find d ps))) [
  | inl s ↦ simp s refl
  | inr s ↦ simp s tt
]

KnownIn-append :
    (ps qs : List ConnectionProfile) (d : Option String) → KnownIn ps d → KnownIn (ps ++ qs) d
KnownIn-append ps qs none h = tt
KnownIn-append ps qs (some d) h = find-append d ps qs h

KnownIn-replace :
    (id : String) (q : ConnectionProfile) (ps : List ConnectionProfile) (d : Option String)
    → q.id ≡ id
    → KnownIn ps d
    → KnownIn (replace id q ps) d
KnownIn-replace id q ps none same h = tt
KnownIn-replace id q ps (some d) same h = find-replace d id q ps same ∙ h

KnownIn-without :
    (id : String) (ps : List ConnectionProfile) (d : Option String)
    → KnownIn ps d
    → KnownIn (without id ps) (if is_default_of d id then none else d)
KnownIn-without id ps none h = tt
KnownIn-without id ps (some d) h = elim (Bool-cases (str_eq d id)) [
  | inl s ↦ simp s tt
  | inr s ↦ simp s (ap is_some (find-without-other d id ps s) ∙ h)
]

-- The default is the id of a profile that is there.
abbrev pub IsKnown : Manager → Type 0
IsKnown m = KnownIn m.profiles m.default_profile_id

module _ (casefold : String → String) where
  append-IsKnown :
      (o : Option ConnectionProfile) (m : Manager) → IsKnown m → IsKnown (append casefold o m).1
  append-IsKnown none m h = h
  append-IsKnown (some q) m h = KnownIn-append m.profiles (q ∷ []) m.default_profile_id h

  put-IsKnown :
      (id : String) (o : Option ConnectionProfile) (m : Manager)
      → IsKnown m
      → IsKnown (put casefold id o m).1
  put-IsKnown id none m h = h
  put-IsKnown id (some q) m h =
      KnownIn-replace id (record q { id = id }) m.profiles m.default_profile_id refl h

  update_found-IsKnown :
      (id : String) (f : ConnectionProfile → Built) (o : Option ConnectionProfile) (m : Manager)
      → IsKnown m
      → IsKnown (update_found casefold id f o m).1
  update_found-IsKnown id f none m h = h
  update_found-IsKnown id f (some q) m h = put-IsKnown id (validated casefold (some id) (f q) m) m h

  choose-IsKnown :
      (id : String) (o : Option ConnectionProfile) (m : Manager)
      → find id m.profiles ≡ o
      → IsKnown m
      → IsKnown (choose id o m).1
  choose-IsKnown id none m e h = h
  choose-IsKnown id (some q) m e h = elim (Bool-cases (is_default_of m.default_profile_id id)) [
    | inl s ↦ simp s h
    | inr s ↦ simp s (ap is_some e)
  ]

  clear_default-IsKnown : (m : Manager) → IsKnown m → IsKnown (clear_default m)
  unfolding clear_default
  clear_default-IsKnown m h = elim (Bool-cases (is_some m.default_profile_id)) [
    | inl s ↦ simp s tt
    | inr s ↦ simp s h
  ]

  delete-IsKnown : (id : String) (m : Manager) → IsKnown m → IsKnown (delete id m).1
  unfolding delete
  delete-IsKnown id m h = elim (Bool-cases (length (without id m.profiles) == length m.profiles)) [
    | inl s ↦ simp s h
    | inr s ↦ simp s (KnownIn-without id m.profiles m.default_profile_id h)
  ]

  execute-IsKnown : (c : Command) (m : Manager) → IsKnown m → IsKnown (execute casefold c m)
  unfolding execute load install_profiles add update set_default get
  execute-IsKnown (load_document ps d) m h = known-KnownIn ps d
  execute-IsKnown (install ps d) m h = known-KnownIn ps d
  execute-IsKnown (add_profile f) m h = append-IsKnown (validated casefold none f m) m h
  execute-IsKnown (update_profile id f) m h = update_found-IsKnown id f (find id m.profiles) m h
  execute-IsKnown (choose_default id) m h = choose-IsKnown id (find id m.profiles) m refl h
  execute-IsKnown (delete_profile id) m h = delete-IsKnown id m h
  execute-IsKnown forget_default m h = clear_default-IsKnown m h

  execute_all-IsKnown :
      (cs : List Command) (m : Manager) → IsKnown m → IsKnown (execute_all casefold cs m)
  unfolding execute_all
  execute_all-IsKnown [] m h = h
  execute_all-IsKnown (c ∷ cs) m h = execute_all-IsKnown cs _ (execute-IsKnown c m h)

  -- Whatever calls a manager has served since it read its document, its default profile, if it has
  -- one, is a profile that is there.
  pub execute_all-default :
      (cs : List Command) (ps : List ConnectionProfile) (default : Option String) (d : String)
      → (execute_all casefold cs (opened ps default)).default_profile_id ≡ some d
      → is_some (get d (execute_all casefold cs (opened ps default))) ≡ true
  unfolding get
  execute_all-default cs ps default d e =
      subst (KnownIn (execute_all casefold cs (opened ps default)).profiles) e
        (execute_all-IsKnown cs (opened ps default) (known-KnownIn ps default))
