-- ===== src/Profiles/Ipsec/Parse.antt =====
-- The parsers of the values of stored IPsec settings (profiles/ipsec.py). A `ValueError` is its message. What
-- Python's text methods answer is the record `Texts`.
use fortigate_vpn_linux_gui.Prelude.{
  ℕ, ℤ, pos, negsuc, String, Bool, not, ◌&&◌, Option, none, some, List, [], ◌∷◌, ◌++◌, ◌<>◌, any,
  leb, ◌==◌, str_eq, if◌then◌else◌, Result, ok, raised, ◌>>=◌, decimal,
}
use fortigate_vpn_linux_gui.Json.{
  Json, null, boolean, int, str, array, Jsons, end, item, object, get, items,
}
use fortigate_vpn_linux_gui.Profiles.Ipsec.{
  IkeVersion, ikev1, ikev2, IkeMode, aggressive, main, AuthMethod, psk_xauth, psk, certificate, eap,
  AddressAssignment, modeconfig, manual, CryptoProposal,
}

-- `int` of a text of digits may raise; `has_control` looks for control characters.
pub record Texts : Type 0 where
  pub strip : String → String
  pub is_digit : String → Bool
  pub to_int : String → Result String ℤ
  pub length_of : String → ℕ
  pub has_control : String → Bool

abbrev pub Parsed : Type 0 → Type 0
Parsed = Result String

abbrev pub encryption_algorithms : List String
encryption_algorithms = "aes128" ∷ "aes192" ∷ "aes256" ∷ []

abbrev pub integrity_algorithms : List String
integrity_algorithms = "sha1" ∷ "sha256" ∷ "sha384" ∷ "sha512" ∷ []

abbrev pub dh_groups : List ℕ
dh_groups = 2 ∷ 5 ∷ 14 ∷ 15 ∷ 16 ∷ 19 ∷ 20 ∷ 21 ∷ []

abbrev pub version_text : IkeVersion → String
version_text ikev1 = "ikev1"
version_text ikev2 = "ikev2"

abbrev pub mode_text : IkeMode → String
mode_text aggressive = "aggressive"
mode_text main = "main"

abbrev pub method_text : AuthMethod → String
method_text psk_xauth = "psk_xauth"
method_text psk = "psk"
method_text certificate = "certificate"
method_text eap = "eap"

abbrev pub address_text : AddressAssignment → String
address_text modeconfig = "modeconfig"
address_text manual = "manual"

-- The member of an enumeration with this text.
abbrev pub chosen : {A : Type 0} → (A → String) → List A → String → Option A
chosen text [] s = none
chosen text (a ∷ rest) s = if str_eq (text a) s then some a else chosen text rest s

abbrev pub or_raise : {E A : Type 0} → E → Option A → Result E A
or_raise message none = raised message
or_raise message (some a) = ok a

-- `_one_of`
unfoldable pub one_of : {A : Type 0} → (A → String) → List A → String → Json → Parsed A
one_of text allowed label (str s) = or_raise (label <> " is not supported.") (chosen text allowed s)
one_of text allowed label _ = raised (label <> " is not supported.")

abbrev pub itself : String → String
itself s = s

-- `_dedupe`
abbrev pub dedupe : {A : Type 0} → (A → A → Bool) → List A → List A → List A
dedupe same seen [] = []
dedupe same seen (x ∷ rest) =
    let later = dedupe same (seen ++ (x ∷ [])) rest in
    let skipped = dedupe same seen rest in if any (λ y. same y x) seen then skipped else x ∷ later

abbrev pub each : {A : Type 0} → (Json → Parsed A) → List Json → Parsed (List A)
each parse [] = ok []
each parse (v ∷ rest) = parse v >>= λ a. each parse rest >>= λ later. ok (a ∷ later)

unfoldable pub as_bool : String → Json → Parsed Bool
as_bool label (boolean b) = ok b
as_bool label _ = raised (label <> " must be true or false.")

abbrev pub in_range : ℕ → ℕ → ℤ → Option ℕ
in_range lowest highest (pos n) = if leb lowest n && leb n highest then some n else none
in_range lowest highest (negsuc n) = none

abbrev pub group_of : ℤ → Option ℕ
group_of (pos n) = if any (λ g. g == n) dh_groups then some n else none
group_of (negsuc n) = none

abbrev pub same_proposal : CryptoProposal → CryptoProposal → Bool
same_proposal a b = str_eq a.encryption b.encryption && str_eq a.integrity b.integrity

unfoldable pub parse_one_proposal : String → Json → Parsed CryptoProposal
unfolding one_of
parse_one_proposal label (object value) =
    one_of itself encryption_algorithms (label <> " encryption") (get "encryption" value)
    >>= λ encryption.
        one_of itself integrity_algorithms (label <> " integrity") (get "integrity" value)
        >>= λ integrity. ok (record { encryption = encryption; integrity = integrity })
parse_one_proposal label _ = raised (label <> "s must be objects with encryption and integrity.")

-- A list field, where it is present: every item parsed, without repetitions.
unfoldable pub listed :
    {A : Type 0} → (A → A → Bool) → (Json → Parsed A) → String → Jsons → Parsed (List A)
listed same parse label end = raised (label <> "s must be a non-empty list.")
listed same parse label (item v rest) =
    each parse (items (item v rest)) >>= λ values. ok (dedupe same [] values)

-- `_parse_proposals`, on the list and the two singular fields.
unfoldable pub parse_proposals : String → Json → Json → Json → Parsed (List CryptoProposal)
unfolding one_of listed parse_one_proposal
parse_proposals label (array values) encryption integrity =
    listed same_proposal (parse_one_proposal label) label values
parse_proposals label null encryption integrity =
    one_of itself encryption_algorithms (label <> " encryption") encryption >>= λ e.
    one_of itself integrity_algorithms (label <> " integrity") integrity >>= λ i.
    ok (record { encryption = e; integrity = i } ∷ [])
parse_proposals label _ encryption integrity = raised (label <> "s must be a non-empty list.")

abbrev pub first_proposal : CryptoProposal → List CryptoProposal → CryptoProposal
first_proposal d [] = d
first_proposal d (x ∷ rest) = x

abbrev pub first_group : ℕ → List ℕ → ℕ
first_group d [] = d
first_group d (x ∷ rest) = x

abbrev pub default_proposal : CryptoProposal
default_proposal = record { encryption = "aes256"; integrity = "sha256" }

module _ (t : Texts) where
  -- A number, or a text of digits.
  abbrev pub number_of : String → Json → Parsed ℤ
  number_of message (int n) = ok n
  number_of message (str s) =
      if t.is_digit (t.strip s) then t.to_int (t.strip s) else raised message
  number_of message _ = raised message

  -- `_lifetime`
  unfoldable pub lifetime : ℕ → String → Json → Parsed ℕ
  lifetime minimum label value = number_of (label <> " must be a number of seconds.") value >>= λ n.
      or_raise (label <> " must be between " <> decimal minimum <> " and 604800 seconds.")
        (in_range minimum 604800 n)

  -- `_port`
  unfoldable pub port : String → Json → Parsed ℕ
  port label value = number_of (label <> " must be between 1 and 65535.") value >>= λ n.
      or_raise (label <> " must be between 1 and 65535.") (in_range 1 65535 n)

  -- `_dh_group`
  unfoldable pub dh_group : String → Json → Parsed ℕ
  dh_group label value = number_of (label <> " is not supported.") value >>= λ n.
      or_raise (label <> " is not supported.") (group_of n)

  -- `_parse_dh_groups`, on the list and the singular field.
  unfoldable pub parse_dh_groups : String → Json → Json → Parsed (List ℕ)
  unfolding dh_group listed
  parse_dh_groups label (array values) singular = listed ◌==◌ (dh_group label) label values
  parse_dh_groups label null singular = dh_group label singular >>= λ g. ok (g ∷ [])
  parse_dh_groups label _ singular = raised (label <> "s must be a non-empty list.")

  abbrev pub checked_id : String → String → Parsed String
  checked_id label text =
      if not (leb (t.length_of text) 253)
      then raised (label <> " must be at most 253 characters.")
      else if t.has_control text
      then raised (label <> " must not contain control characters.")
      else ok text

  -- `_optional_id`
  unfoldable pub optional_id : String → Json → Parsed String
  optional_id label null = ok ""
  optional_id label (str s) = checked_id label (t.strip s)
  optional_id label _ = raised (label <> " must be text.")
