-- ===== src/Profiles/Manager/Tests.antt =====
-- The theorems about the manager at two profiles, the first of them the default.
use fortigate_vpn_linux_gui.Prelude.{String, true, none, some, List, [], ◌∷◌, ◌≡◌, refl, is_some}
use fortigate_vpn_linux_gui.Profiles.Model.{ConnectionProfile, ssl}
use fortigate_vpn_linux_gui.Profiles.Manager.{
  Manager, Command, choose_default, delete_profile, get, delete, set_default, execute, execute_all,
  opened,
}
use fortigate_vpn_linux_gui.Profiles.Manager.Laws.{
  delete-get, delete-get-other, execute_all-default,
}

abbrev profile : String → String → ConnectionProfile
profile id name = record {
  id = id;
  name = name;
  gateway = "vpn.example.org";
  port = 443;
  description = "";
  username_hint = "";
  use_sso = true;
  trusted_cert_sha256 = none;
  vpn_type = ssl;
  ipsec = none;
}

abbrev two : List ConnectionProfile
two = profile "a1" "Office" ∷ profile "b2" "Lab" ∷ []

abbrev office_default : Manager
office_default = opened two (some "a1")

abbrev commands : List Command
commands = delete_profile "a1" ∷ choose_default "b2" ∷ []

abbrev same : String → String
same s = s

delete-get_example :
    get "a1" (delete "a1" office_default).1 ≡ none
    × (delete "a1" office_default).0 ≡ is_some (get "a1" office_default)
delete-get_example = delete-get "a1" office_default

delete-get-other_example : get "b2" (delete "a1" office_default).1 ≡ get "b2" office_default
delete-get-other_example = delete-get-other "b2" "a1" office_default refl

execute_all-default_example :
    is_some (get "b2" (execute_all same commands (opened two (some "a1")))) ≡ true
unfolding execute_all execute delete set_default get
execute_all-default_example = execute_all-default same commands two (some "a1") "b2" refl
