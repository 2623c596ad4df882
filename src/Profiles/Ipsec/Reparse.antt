-- ===== src/Profiles/Ipsec/Reparse.antt =====
-- Written settings parse to the values that were written (profiles/ipsec.py).
use fortigate_vpn_linux_gui.Prelude.{
  ℕ, pos, String, Bool, false, not, List, [], ◌∷◌, ◌<>◌, map, leb, ok, raised, ◌>>=◌, Ensures,
  Bool-cases, inl, inr, ◌⊎◌, ◌≡◌, refl, sym, ap, ◌∙◌,
}
use mathlib.Core.Path.{subst}
use fortigate_vpn_linux_gui.Json.{
  Json, null, boolean, int, float, str, array, object, of_items, get_member-payload_of,
}
use fortigate_vpn_linux_gui.Profiles.Ipsec.{
  IkeVersion, ikev1, ikev2, IkeMode, aggressive, main, AuthMethod, psk_xauth, psk, certificate, eap,
  AddressAssignment, modeconfig, manual, CryptoProposal,
}
use fortigate_vpn_linux_gui.Profiles.Ipsec.Parse.{
  Texts, Parsed, version_text, mode_text, method_text, address_text, one_of, as_bool,
  parse_proposals, lifetime, port, parse_dh_groups, checked_id, optional_id,
}
use fortigate_vpn_linux_gui.Profiles.Ipsec.Payload.{
  Lists, Names, Options, parse_lists, parse_names, parse_options, settings_of, parse_members,
  proposal_json, group_json, or_singular, to_json,
}
use fortigate_vpn_linux_gui.Profiles.Ipsec.Written.{IsCons, ProposalsAgain, GroupsAgain}

or_singular-cons : {A : Type 0} (xs : List A) → IsCons xs → (a : A) → or_singular xs a ≡ xs
or_singular-cons [] h a = absurd h
or_singular-cons (x ∷ rest) h a = refl

parse_proposals-written :
    (label : String) (ps : List CryptoProposal)
    → ProposalsAgain label ps
    → (e i : Json) → parse_proposals label (array (of_items (map proposal_json ps))) e i ≡ ok ps
unfolding parse_proposals
parse_proposals-written label ps h e i = h.1

module _ (t : Texts) where
  -- What Python's `strip`, `len` and the search for control characters satisfy.
  abbrev pub TextLaws : Type 0
  TextLaws =
      ((s : String) → t.strip (t.strip s) ≡ t.strip s)
      × (t.strip "" ≡ "")
      × (t.length_of "" ≡ 0)
      × (t.has_control "" ≡ false)

  parse_dh_groups-written :
      (label : String) (gs : List ℕ)
      → GroupsAgain t label gs
      → (singular : Json)
      → parse_dh_groups t label (array (of_items (map group_json gs))) singular ≡ ok gs
  unfolding parse_dh_groups
  parse_dh_groups-written label gs h singular = h.1

  checked_id-cases :
      (label text : String)
      → (checked_id t label text ≡ ok text) ⊎ ((e : String) × (checked_id t label text ≡ raised e))
  checked_id-cases label text = elim (Bool-cases (not (leb (t.length_of text) 253))) [
    | inl e ↦ inr (label <> " must be at most 253 characters.", rw e refl)
    | inr e ↦ elim (Bool-cases (t.has_control text)) [
      | inl e' ↦ inr (label <> " must not contain control characters.", rw (e, e') refl)
      | inr e' ↦ inl (rw (e, e') refl)
    ]
  ]

  abbrev pub IdAgain : String → String → Type 0
  IdAgain label s = optional_id t label (str s) ≡ ok s

  pub optional_id-again :
      (label : String) (v : Json) → TextLaws → Ensures (IdAgain label) (optional_id t label v)
  unfolding optional_id
  optional_id-again label null (idem, blank, len, control) = simp (blank, len, control) refl
  optional_id-again label (boolean b) laws = tt
  optional_id-again label (int n) laws = tt
  optional_id-again label (float f) laws = tt
  optional_id-again label (array vs) laws = tt
  optional_id-again label (object ms) laws = tt
  optional_id-again label (str s) (idem, blank, len, control) =
      elim (checked_id-cases label (t.strip s)) [
        | inl e ↦ subst (Ensures (IdAgain label)) (sym e) (ap (checked_id t label) (idem s) ∙ e)
        | inr (m, e) ↦ subst (Ensures (IdAgain label)) (sym e) tt
      ]

  abbrev pub ListsAgain : Lists → Type 0
  ListsAgain l =
      ProposalsAgain "IKE proposal" l.ike
      × ProposalsAgain "CHILD_SA proposal" l.child
      × GroupsAgain t "DH group" l.ike_groups
      × GroupsAgain t "PFS DH group" l.pfs_groups

  abbrev pub NamesAgain : Names → Type 0
  NamesAgain n = IdAgain "Local ID" n.local × IdAgain "Peer ID" n.peer

  abbrev pub OptionsAgain : Options → Type 0
  OptionsAgain o =
      (lifetime t 60 "Phase 1 lifetime" (int (pos o.phase1)) ≡ ok o.phase1)
      × (lifetime t 60 "Phase 2 lifetime" (int (pos o.phase2)) ≡ ok o.phase2)
      × (lifetime t 1 "DPD interval" (int (pos o.interval)) ≡ ok o.interval)
      × (port t "IPsec SAML port" (int (pos o.saml)) ≡ ok o.saml)

  parse_lists-written :
      (l : Lists) (n : Names) (o : Options)
      → ListsAgain l
      → parse_lists t (to_json (settings_of t l n o)) ≡ ok l
  unfolding to_json
  parse_lists-written l n o (ike, child, groups, pfs) =
      simp
        (
          get_member-payload_of,
          or_singular-cons l.ike ike.0,
          or_singular-cons l.child child.0,
          or_singular-cons l.ike_groups groups.0,
          or_singular-cons l.pfs_groups pfs.0,
          parse_proposals-written "IKE proposal" l.ike ike,
          parse_proposals-written "CHILD_SA proposal" l.child child,
          parse_dh_groups-written "DH group" l.ike_groups groups,
          parse_dh_groups-written "PFS DH group" l.pfs_groups pfs,
        )
        refl

  version-written :
      (label : String) (v : IkeVersion)
      → one_of version_text (ikev1 ∷ ikev2 ∷ []) label (str (version_text v)) ≡ ok v
  unfolding one_of
  version-written label ikev1 = refl
  version-written label ikev2 = refl

  mode-written :
      (label : String) (v : IkeMode)
      → one_of mode_text (aggressive ∷ main ∷ []) label (str (mode_text v)) ≡ ok v
  unfolding one_of
  mode-written label aggressive = refl
  mode-written label main = refl

  method-written :
      (label : String) (v : AuthMethod)
      → one_of method_text (psk_xauth ∷ psk ∷ certificate ∷ eap ∷ []) label (str (method_text v))
        ≡ ok v
  unfolding one_of
  method-written label psk_xauth = refl
  method-written label psk = refl
  method-written label certificate = refl
  method-written label eap = refl

  address-written :
      (label : String) (v : AddressAssignment)
      → one_of address_text (modeconfig ∷ manual ∷ []) label (str (address_text v)) ≡ ok v
  unfolding one_of
  address-written label modeconfig = refl
  address-written label manual = refl

  parse_names-written :
      (l : Lists) (n : Names) (o : Options)
      → NamesAgain n
      → parse_names t (to_json (settings_of t l n o)) ≡ ok n
  unfolding to_json
  parse_names-written l n o (local, peer) =
      simp
        (
          get_member-payload_of,
          version-written "IKE version" n.version,
          mode-written "IKE mode" n.mode,
          method-written "IPsec authentication method" n.method,
          address-written "Address assignment" n.address,
          local,
          peer,
        )
        refl

  as_bool-boolean : (label : String) (b : Bool) → as_bool label (boolean b) ≡ ok b
  unfolding as_bool
  as_bool-boolean label b = refl

  parse_options-written :
      (l : Lists) (n : Names) (o : Options)
      → OptionsAgain o
      → parse_options t (to_json (settings_of t l n o)) ≡ ok o
  unfolding to_json
  parse_options-written l n o (phase1, phase2, interval, saml) =
      simp (get_member-payload_of, as_bool-boolean, phase1, phase2, interval, saml) refl

  pub parse_members-written :
      (l : Lists) (n : Names) (o : Options)
      → ListsAgain l
      → NamesAgain n
      → OptionsAgain o
      → parse_members t (to_json (settings_of t l n o)) ≡ ok (settings_of t l n o)
  unfolding parse_members
  parse_members-written l n o hl hn ho =
      let s = settings_of t l n o in
      ap
        (λ (r : Parsed Lists). r >>= λ l'. parse_names t (to_json s) >>= λ n'.
          parse_options t (to_json s) >>= λ o'. ok (settings_of t l' n' o'))
        (parse_lists-written l n o hl)
      ∙ ap
          (λ (r : Parsed Names).
            r >>= λ n'. parse_options t (to_json s) >>= λ o'. ok (settings_of t l n' o'))
          (parse_names-written l n o hn)
      ∙ ap (λ (r : Parsed Options). r >>= λ o'. ok (settings_of t l n o'))
          (parse_options-written l n o ho)
