-- ===== src/Profiles/Ipsec/Payload.antt =====
-- The whole of `parse_ipsec_settings` and `to_json` (profiles/ipsec.py), from the parsers of the
-- single values.
use fortigate_vpn_linux_gui.Prelude.{
  ℕ, pos, String, Bool, true, false, some, List, [], ◌∷◌, map, ok, raised, ◌>>=◌,
}
use fortigate_vpn_linux_gui.Json.{
  Json, null, boolean, int, str, array, object, Members, Fields, get, get_or, of_items, payload_of,
}
use fortigate_vpn_linux_gui.Profiles.Ipsec.{
  IkeVersion, ikev1, ikev2, IkeMode, aggressive, main, AuthMethod, psk_xauth, psk, certificate, eap,
  AddressAssignment, modeconfig, manual, CryptoProposal, IpsecSettings, default_ipsec_settings,
}
use fortigate_vpn_linux_gui.Profiles.Ipsec.Parse.{
  Texts, Parsed, version_text, mode_text, method_text, address_text, one_of, as_bool,
  parse_proposals, first_proposal, first_group, default_proposal, lifetime, port, parse_dh_groups,
  optional_id,
}

-- The fields in the groups in which they are parsed.
pub record Lists : Type 0 where
  pub ike : List CryptoProposal
  pub child : List CryptoProposal
  pub ike_groups : List ℕ
  pub pfs_groups : List ℕ

pub record Names : Type 0 where
  pub version : IkeVersion
  pub mode : IkeMode
  pub method : AuthMethod
  pub address : AddressAssignment
  pub local : String
  pub peer : String

pub record Options : Type 0 where
  pub phase1 : ℕ
  pub pfs : Bool
  pub phase2 : ℕ
  pub nat : Bool
  pub dpd : Bool
  pub interval : ℕ
  pub replay : Bool
  pub lan : Bool
  pub saml : ℕ

module _ (t : Texts) where
  abbrev pub parse_lists : Members → Parsed Lists
  parse_lists d =
      parse_proposals "IKE proposal" (get "ike_proposals" d)
        (get_or "phase1_encryption" (str "aes256") d) (get_or "phase1_integrity" (str "sha256") d)
      >>= λ ike.
          parse_proposals "CHILD_SA proposal" (get "child_proposals" d)
            (get_or "phase2_encryption" (str "aes256") d)
            (get_or "phase2_integrity" (str "sha256") d)
          >>= λ child.
              parse_dh_groups t "DH group" (get "ike_dh_groups" d)
                (get_or "dh_group" (int (pos 14)) d)
              >>= λ ike_groups.
                  parse_dh_groups t "PFS DH group" (get "pfs_dh_groups" d)
                    (get_or "pfs_dh_group" (int (pos 14)) d)
                  >>= λ pfs_groups. ok (record {
                    ike = ike;
                    child = child;
                    ike_groups = ike_groups;
                    pfs_groups = pfs_groups;
                  })

  abbrev pub parse_names : Members → Parsed Names
  parse_names d =
      one_of version_text (ikev1 ∷ ikev2 ∷ []) "IKE version" (get_or "ike_version" (str "ikev1") d)
      >>= λ version.
          one_of mode_text (aggressive ∷ main ∷ []) "IKE mode"
            (get_or "ike_mode" (str "aggressive") d)
          >>= λ mode.
              one_of method_text (psk_xauth ∷ psk ∷ certificate ∷ eap ∷ [])
                "IPsec authentication method" (get_or "auth_method" (str "psk_xauth") d)
              >>= λ method.
                  one_of address_text (modeconfig ∷ manual ∷ []) "Address assignment"
                    (get_or "address_assignment" (str "modeconfig") d)
                  >>= λ address.
                      optional_id t "Local ID" (get_or "local_id" (str "") d) >>= λ local.
                      optional_id t "Peer ID" (get_or "peer_id" (str "") d) >>= λ peer. ok (record {
                        version = version;
                        mode = mode;
                        method = method;
                        address = address;
                        local = local;
                        peer = peer;
                      })

  abbrev pub parse_options : Members → Parsed Options
  parse_options d =
      lifetime t 60 "Phase 1 lifetime" (get_or "phase1_lifetime" (int (pos 86400)) d) >>= λ phase1.
      as_bool "PFS" (get_or "pfs" (boolean true) d) >>= λ pfs.
      lifetime t 60 "Phase 2 lifetime" (get_or "phase2_lifetime" (int (pos 43200)) d) >>= λ phase2.
      as_bool "NAT traversal" (get_or "nat_traversal" (boolean true) d) >>= λ nat.
      as_bool "DPD" (get_or "dpd" (boolean true) d) >>= λ dpd.
      lifetime t 1 "DPD interval" (get_or "dpd_interval" (int (pos 60)) d) >>= λ interval.
      as_bool "Replay detection" (get_or "replay_detection" (boolean true) d) >>= λ replay.
      as_bool "Local LAN access" (get_or "local_lan_access" (boolean false) d) >>= λ lan.
      port t "IPsec SAML port" (get_or "saml_port" (int (pos 1001)) d) >>= λ saml. ok (record {
        phase1 = phase1;
        pfs = pfs;
        phase2 = phase2;
        nat = nat;
        dpd = dpd;
        interval = interval;
        replay = replay;
        lan = lan;
        saml = saml;
      })

  abbrev pub settings_of : Lists → Names → Options → IpsecSettings
  settings_of l n o = record {
    ike_version = n.version;
    ike_mode = n.mode;
    auth_method = n.method;
    address_assignment = n.address;
    local_id = n.local;
    peer_id = n.peer;
    phase1_encryption = (first_proposal default_proposal l.ike).encryption;
    phase1_integrity = (first_proposal default_proposal l.ike).integrity;
    dh_group = first_group 14 l.ike_groups;
    ike_proposals = l.ike;
    ike_dh_groups = l.ike_groups;
    phase1_lifetime = o.phase1;
    phase2_encryption = (first_proposal default_proposal l.child).encryption;
    phase2_integrity = (first_proposal default_proposal l.child).integrity;
    child_proposals = l.child;
    pfs = o.pfs;
    pfs_dh_group = first_group 14 l.pfs_groups;
    pfs_dh_groups = l.pfs_groups;
    phase2_lifetime = o.phase2;
    nat_traversal = o.nat;
    dpd = o.dpd;
    dpd_interval = o.interval;
    replay_detection = o.replay;
    local_lan_access = o.lan;
    saml_port = o.saml;
  }

  unfoldable pub parse_members : Members → Parsed IpsecSettings
  unfolding parse_proposals parse_dh_groups one_of optional_id lifetime as_bool port
  parse_members d =
      parse_lists d >>= λ l. parse_names d >>= λ n. parse_options d >>= λ o. ok (settings_of l n o)

  unfoldable pub parse_ipsec_settings : Json → Parsed IpsecSettings
  unfolding parse_members
  parse_ipsec_settings null = ok default_ipsec_settings
  parse_ipsec_settings (object d) = parse_members d
  parse_ipsec_settings _ = raised "IPsec settings must be an object."

-- `CryptoProposal.to_json`
abbrev pub proposal_json : CryptoProposal → Json
proposal_json p = object (
    payload_of
      (("encryption", some (str p.encryption)) ∷ ("integrity", some (str p.integrity)) ∷ []))

abbrev pub group_json : ℕ → Json
group_json g = int (pos g)

-- `self.ike_proposals or (CryptoProposal(…),)`, and the same for the groups.
abbrev pub or_singular : {A : Type 0} → List A → A → List A
or_singular [] a = a ∷ []
or_singular (x ∷ rest) a = x ∷ rest

abbrev pub settings_fields : IpsecSettings → Fields
settings_fields s =
    let ike_d : CryptoProposal = record {
      encryption = s.phase1_encryption;
      integrity = s.phase1_integrity;
    } in
    let child_d : CryptoProposal = record {
      encryption = s.phase2_encryption;
      integrity = s.phase2_integrity;
    } in
    let ike = or_singular s.ike_proposals ike_d in
    let child = or_singular s.child_proposals child_d in
    let groups = or_singular s.ike_dh_groups s.dh_group in
    let pfs_groups = or_singular s.pfs_dh_groups s.pfs_dh_group in
    ("ike_version", some (str (version_text s.ike_version)))
    ∷ ("ike_mode", some (str (mode_text s.ike_mode)))
    ∷ ("auth_method", some (str (method_text s.auth_method)))
    ∷ ("address_assignment", some (str (address_text s.address_assignment)))
    ∷ ("local_id", some (str s.local_id))
    ∷ ("peer_id", some (str s.peer_id))
    ∷ ("phase1_encryption", some (str (first_proposal ike_d ike).encryption))
    ∷ ("phase1_integrity", some (str (first_proposal ike_d ike).integrity))
    ∷ ("dh_group", some (group_json (first_group s.dh_group groups)))
    ∷ ("ike_proposals", some (array (of_items (map proposal_json ike))))
    ∷ ("ike_dh_groups", some (array (of_items (map group_json groups))))
    ∷ ("phase1_lifetime", some (int (pos s.phase1_lifetime)))
    ∷ ("phase2_encryption", some (str (first_proposal child_d child).encryption))
    ∷ ("phase2_integrity", some (str (first_proposal child_d child).integrity))
    ∷ ("child_proposals", some (array (of_items (map proposal_json child))))
    ∷ ("pfs", some (boolean s.pfs))
    ∷ ("pfs_dh_group", some (group_json (first_group s.pfs_dh_group pfs_groups)))
    ∷ ("pfs_dh_groups", some (array (of_items (map group_json pfs_groups))))
    ∷ ("phase2_lifetime", some (int (pos s.phase2_lifetime)))
    ∷ ("nat_traversal", some (boolean s.nat_traversal))
    ∷ ("dpd", some (boolean s.dpd))
    ∷ ("dpd_interval", some (int (pos s.dpd_interval)))
    ∷ ("replay_detection", some (boolean s.replay_detection))
    ∷ ("local_lan_access", some (boolean s.local_lan_access))
    ∷ ("saml_port", some (int (pos s.saml_port)))
    ∷ []

unfoldable pub to_json : IpsecSettings → Members
to_json s = payload_of (settings_fields s)
