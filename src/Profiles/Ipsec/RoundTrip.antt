-- ===== src/Profiles/Ipsec/RoundTrip.antt =====
-- IPsec settings that were parsed, written and parsed again (profiles/ipsec.py).
use fortigate_vpn_linux_gui.Prelude.{
  pos, true, false, [], ◌∷◌, ok, Ensures, Ensures-bind, ◌≡◌, refl,
}
use mathlib.Core.Path.{subst}
use fortigate_vpn_linux_gui.Json.{
  Json, null, boolean, int, float, str, array, object, Members, get, get_or, payload_of,
}
use fortigate_vpn_linux_gui.Profiles.Ipsec.{
  ikev1, ikev2, aggressive, main, psk_xauth, psk, certificate, eap, modeconfig, manual,
  IpsecSettings, default_ipsec_settings,
}
use fortigate_vpn_linux_gui.Profiles.Ipsec.Parse.{
  Texts, version_text, mode_text, method_text, address_text, one_of, as_bool, lifetime, port,
  optional_id, listed, parse_one_proposal, dh_group, default_proposal,
}
use fortigate_vpn_linux_gui.Profiles.Ipsec.Payload.{
  Lists, Names, Options, parse_lists, parse_names, parse_options, parse_members,
  parse_ipsec_settings, to_json,
}
use fortigate_vpn_linux_gui.Profiles.Ipsec.Stored.{Ensures-any}
use fortigate_vpn_linux_gui.Profiles.Ipsec.Written.{
  ProposalsAgain, GroupsAgain, parse_proposals-again, parse_dh_groups-again, lifetime-again,
  port-again,
}
use fortigate_vpn_linux_gui.Profiles.Ipsec.Reparse.{
  TextLaws, IdAgain, ListsAgain, NamesAgain, OptionsAgain, optional_id-again, parse_members-written,
}

module _ (t : Texts) where
  parse_lists-again : (d : Members) → Ensures (ListsAgain t) (parse_lists t d)
  parse_lists-again d =
      Ensures-bind (ProposalsAgain "IKE proposal") (ListsAgain t) _ _
        (parse_proposals-again "IKE proposal" (get "ike_proposals" d)
          (get_or "phase1_encryption" (str "aes256") d)
          (get_or "phase1_integrity" (str "sha256") d))
        (λ ike hi.
          Ensures-bind (ProposalsAgain "CHILD_SA proposal") (ListsAgain t) _ _
            (parse_proposals-again "CHILD_SA proposal" (get "child_proposals" d)
              (get_or "phase2_encryption" (str "aes256") d)
              (get_or "phase2_integrity" (str "sha256") d))
            (λ child hc.
              Ensures-bind (GroupsAgain t "DH group") (ListsAgain t) _ _
                (parse_dh_groups-again t "DH group" (get "ike_dh_groups" d)
                  (get_or "dh_group" (int (pos 14)) d))
                (λ groups hg.
                  Ensures-bind (GroupsAgain t "PFS DH group") (ListsAgain t) _ _
                    (parse_dh_groups-again t "PFS DH group" (get "pfs_dh_groups" d)
                      (get_or "pfs_dh_group" (int (pos 14)) d))
                    (λ pfs hp. (hi, hc, hg, hp)))))

  parse_names-again : TextLaws t → (d : Members) → Ensures (NamesAgain t) (parse_names t d)
  parse_names-again laws d =
      Ensures-bind (λ v. Unit) (NamesAgain t) _ _
        (Ensures-any (
          one_of version_text (ikev1 ∷ ikev2 ∷ []) "IKE version"
            (get_or "ike_version" (str "ikev1") d)))
        (λ version hv.
          Ensures-bind (λ v. Unit) (NamesAgain t) _ _
            (Ensures-any (
              one_of mode_text (aggressive ∷ main ∷ []) "IKE mode"
                (get_or "ike_mode" (str "aggressive") d)))
            (λ mode hm.
              Ensures-bind (λ v. Unit) (NamesAgain t) _ _
                (Ensures-any (
                  one_of method_text (psk_xauth ∷ psk ∷ certificate ∷ eap ∷ [])
                    "IPsec authentication method" (get_or "auth_method" (str "psk_xauth") d)))
                (λ method ha.
                  Ensures-bind (λ v. Unit) (NamesAgain t) _ _
                    (Ensures-any (
                      one_of address_text (modeconfig ∷ manual ∷ []) "Address assignment"
                        (get_or "address_assignment" (str "modeconfig") d)))
                    (λ address hd.
                      Ensures-bind (IdAgain t "Local ID") (NamesAgain t) _ _
                        (optional_id-again t "Local ID" (get_or "local_id" (str "") d) laws)
                        (λ local hl.
                          Ensures-bind (IdAgain t "Peer ID") (NamesAgain t) _ _
                            (optional_id-again t "Peer ID" (get_or "peer_id" (str "") d) laws)
                            (λ peer hp. (hl, hp)))))))

  parse_options-again : (d : Members) → Ensures (OptionsAgain t) (parse_options t d)
  parse_options-again d =
      Ensures-bind (λ n. lifetime t 60 "Phase 1 lifetime" (int (pos n)) ≡ ok n) (OptionsAgain t) _ _
        (lifetime-again t 60 "Phase 1 lifetime" (get_or "phase1_lifetime" (int (pos 86400)) d))
        (λ phase1 h1.
          Ensures-bind (λ v. Unit) (OptionsAgain t) _ _
            (Ensures-any (as_bool "PFS" (get_or "pfs" (boolean true) d)))
            (λ pfs hpfs.
              Ensures-bind (λ n. lifetime t 60 "Phase 2 lifetime" (int (pos n)) ≡ ok n)
                (OptionsAgain t) _ _
                (lifetime-again t 60 "Phase 2 lifetime"
                  (get_or "phase2_lifetime" (int (pos 43200)) d))
                (λ phase2 h2.
                  Ensures-bind (λ v. Unit) (OptionsAgain t) _ _
                    (Ensures-any
                      (as_bool "NAT traversal" (get_or "nat_traversal" (boolean true) d)))
                    (λ nat hn.
                      Ensures-bind (λ v. Unit) (OptionsAgain t) _ _
                        (Ensures-any (as_bool "DPD" (get_or "dpd" (boolean true) d)))
                        (λ dpd hd.
                          Ensures-bind (λ n. lifetime t 1 "DPD interval" (int (pos n)) ≡ ok n)
                            (OptionsAgain t) _ _
                            (lifetime-again t 1 "DPD interval"
                              (get_or "dpd_interval" (int (pos 60)) d))
                            (λ interval hi.
                              Ensures-bind (λ v. Unit) (OptionsAgain t) _ _
                                (Ensures-any (
                                  as_bool "Replay detection"
                                    (get_or "replay_detection" (boolean true) d)))
                                (λ replay hr.
                                  Ensures-bind (λ v. Unit) (OptionsAgain t) _ _
                                    (Ensures-any (
                                      as_bool "Local LAN access"
                                        (get_or "local_lan_access" (boolean false) d)))
                                    (λ lan hl.
                                      Ensures-bind
                                        (λ n. port t "IPsec SAML port" (int (pos n)) ≡ ok n)
                                        (OptionsAgain t) _ _
                                        (port-again t "IPsec SAML port"
                                          (get_or "saml_port" (int (pos 1001)) d))
                                        (λ saml hs. (h1, h2, hi, hs))))))))))

  abbrev SettingsAgain : IpsecSettings → Type 0
  SettingsAgain s = parse_members t (to_json s) ≡ ok s

  parse_members-again : TextLaws t → (d : Members) → Ensures SettingsAgain (parse_members t d)
  unfolding parse_members
  parse_members-again laws d =
      Ensures-bind (ListsAgain t) SettingsAgain (parse_lists t d) _ (parse_lists-again d) (λ l hl.
        Ensures-bind (NamesAgain t) SettingsAgain (parse_names t d) _ (parse_names-again laws d)
          (λ n hn.
            Ensures-bind (OptionsAgain t) SettingsAgain (parse_options t d) _
              (parse_options-again d) (λ o ho. parse_members-written t l n o hl hn ho)))

  abbrev default_lists : Lists
  default_lists = record {
    ike = default_proposal ∷ [];
    child = default_proposal ∷ [];
    ike_groups = 14 ∷ [];
    pfs_groups = 14 ∷ [];
  }

  abbrev default_names : Names
  default_names = record {
    version = ikev1;
    mode = aggressive;
    method = psk_xauth;
    address = modeconfig;
    local = "";
    peer = "";
  }

  abbrev default_options : Options
  default_options = record {
    phase1 = 86400;
    pfs = true;
    phase2 = 43200;
    nat = true;
    dpd = true;
    interval = 60;
    replay = true;
    lan = false;
    saml = 1001;
  }

  default-again : TextLaws t → SettingsAgain default_ipsec_settings
  unfolding lifetime port optional_id listed parse_one_proposal dh_group payload_of
  default-again laws =
      parse_members-written t default_lists default_names default_options
        ((tt, refl), (tt, refl), (tt, refl), (tt, refl))
        (optional_id-again t "Local ID" null laws, optional_id-again t "Peer ID" null laws)
        (refl, refl, refl, refl)

  parse_ipsec_settings-again :
      TextLaws t → (payload : Json) → Ensures SettingsAgain (parse_ipsec_settings t payload)
  unfolding parse_ipsec_settings
  parse_ipsec_settings-again laws null = default-again laws
  parse_ipsec_settings-again laws (boolean b) = tt
  parse_ipsec_settings-again laws (int n) = tt
  parse_ipsec_settings-again laws (float f) = tt
  parse_ipsec_settings-again laws (str s) = tt
  parse_ipsec_settings-again laws (array vs) = tt
  parse_ipsec_settings-again laws (object d) = parse_members-again laws d

  -- Settings that were parsed from any value, written out with both forms of each list and parsed
  -- again, are the same settings, where `strip` is idempotent and the empty text is a valid one.
  pub parse_ipsec_settings-to_json :
      TextLaws t
      → (payload : Json) (s : IpsecSettings) → parse_ipsec_settings t payload ≡ ok s
      → parse_ipsec_settings t (object (to_json s)) ≡ ok s
  unfolding parse_ipsec_settings
  parse_ipsec_settings-to_json laws payload s h =
      subst (Ensures SettingsAgain) h (parse_ipsec_settings-again laws payload)
