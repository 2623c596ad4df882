-- ===== src/Helper/Protocol/RoundTrip.antt =====
-- What an event means to the receiver once it has travelled (helper/protocol.py).
use fortigate_vpn_linux_gui.Prelude.{
  ℤ, String, Bool, true, false, ◌||◌, sym, ◌∙◌, ap, Option, none, some, List, [], ◌∷◌, ◌++◌, map,
  All, Unique, contains, str_eq, if◌then◌else◌, ok, ◌≡◌, refl, arith, str_eq_iff,
}
use mathlib.Core.List.{append-nil}
use fortigate_vpn_linux_gui.Json.{
  Json, null, str, array, or_default, first_of, get_member-payload_of, items-of_items, end,
}
use fortigate_vpn_linux_gui.Vpn.Backend.Types.{
  CertificateInfo, EventKind, hello, ack, error_kind, state_kind, log_kind, saml_url, saml_listener,
  saml_waiting, saml_success, saml_failure, certificate_kind, connected_kind, started, exit, status,
}
use fortigate_vpn_linux_gui.Helper.Protocol.{
  HelperEvent, kind_value, kind_of, opt_str, opt_int, opt_bool, strs, opt_strs, capabilities_field,
  is_hello, cert_field, encode_event, optional_str, optional_int, optional_bool, certificate_of,
  is_new, collect, advertised_helper_capabilities, text_of, argv_of, event_from_payload,
}

kind_of-kind_value : (k : EventKind) → kind_of (kind_value k) ≡ some k
unfolding kind_of
kind_of-kind_value hello = refl
kind_of-kind_value ack = refl
kind_of-kind_value error_kind = refl
kind_of-kind_value state_kind = refl
kind_of-kind_value log_kind = refl
kind_of-kind_value saml_url = refl
kind_of-kind_value saml_listener = refl
kind_of-kind_value saml_waiting = refl
kind_of-kind_value saml_success = refl
kind_of-kind_value saml_failure = refl
kind_of-kind_value certificate_kind = refl
kind_of-kind_value connected_kind = refl
kind_of-kind_value started = refl
kind_of-kind_value exit = refl
kind_of-kind_value status = refl

-- Reading a field that was written, or left out where it is absent.
abbrev back : Option Json → Json
back o = or_default (first_of o none) null

optional_str-opt_str : (o : Option String) → optional_str (back (opt_str o)) ≡ o
optional_str-opt_str none = refl
optional_str-opt_str (some s) = refl

optional_int-opt_int : (o : Option ℤ) → optional_int (back (opt_int o)) ≡ o
optional_int-opt_int none = refl
optional_int-opt_int (some n) = refl

optional_bool-opt_bool : (o : Option Bool) → optional_bool (back (opt_bool o)) ≡ o
optional_bool-opt_bool none = refl
optional_bool-opt_bool (some b) = refl

certificate_of-cert_field :
    (o : Option CertificateInfo)
    → certificate_of
        (optional_str (back (cert_field (λ i. i.subject) o)))
        (optional_str (back (cert_field (λ i. i.issuer) o)))
        (optional_str (back (cert_field (λ i. i.sha256) o)))
      ≡ o
certificate_of-cert_field none = refl
certificate_of-cert_field (some info) = refl

str_eq_sym : (s t : String) → str_eq s t ≡ str_eq t s
str_eq_sym s t = ground (arith, str_eq_iff s t, str_eq_iff t s)

contains-append :
    (xs ys : List String) (s : String) → contains (xs ++ ys) s ≡ (contains xs s || contains ys s)
contains-append [] ys s = refl
contains-append (x ∷ xs) ys s = ground (arith, contains-append xs ys s)

contains-middle :
    (xs : List String) (s : String) (ys : List String)
    → Unique (xs ++ (s ∷ ys))
    → contains xs s ≡ false
contains-middle [] s ys h = refl
contains-middle (x ∷ xs) s ys h =
    ground (arith, str_eq_sym x s, contains-middle xs s ys h.1, contains-append xs (s ∷ ys) x, h.0)

pub Unique-snoc :
    (xs : List String) (s : String) → Unique xs → contains xs s ≡ false → Unique (xs ++ (s ∷ []))
Unique-snoc [] s h e = (refl, tt)
Unique-snoc (x ∷ xs) s h e =
    ground (arith, str_eq_sym x s, Unique-snoc xs s h.1, contains-append xs (s ∷ []) x, h.0)

append-cons :
    (xs : List String) (s : String) (ys : List String) → ((xs ++ (s ∷ [])) ++ ys) ≡ (xs ++ (s ∷ ys))
append-cons [] s ys = refl
append-cons (x ∷ xs) s ys = cc (append-cons xs s ys)

is_new-fresh :
    (seen : List String) (s : String)
    → str_eq s "" ≡ false
    → contains seen s ≡ false
    → is_new seen s ≡ true
is_new-fresh seen s n f = cc

collect-strs :
    (seen texts : List String)
    → Unique (seen ++ texts)
    → All (λ s. str_eq s "" ≡ false) texts
    → collect seen (map str texts) ≡ seen ++ texts
collect-strs seen [] u n = sym (append-nil seen)
collect-strs seen (s ∷ rest) u n =
    ap (λ (b : Bool). collect (if b then seen ++ (s ∷ []) else seen) (map str rest))
      (is_new-fresh seen s n.0 (contains-middle seen s rest u))
    ∙ collect-strs (seen ++ (s ∷ [])) rest (rw (append-cons seen s rest) u) n.1
    ∙ append-cons seen s rest

abbrev pub AreNonempty : List String → Type 0
AreNonempty texts = All (λ s. str_eq s "" ≡ false) texts

advertised-strs :
    (texts : List String)
    → Unique texts
    → AreNonempty texts
    → advertised_helper_capabilities (strs texts) ≡ texts
unfolding advertised_helper_capabilities
advertised-strs texts u n = simp (items-of_items) (collect-strs [] texts u n)

advertised-opt_strs :
    (texts : List String)
    → Unique texts
    → AreNonempty texts
    → advertised_helper_capabilities (back (opt_strs texts)) ≡ texts
unfolding advertised_helper_capabilities
advertised-opt_strs [] u n = refl
advertised-opt_strs (s ∷ rest) u n = advertised-strs (s ∷ rest) u n

advertised-capabilities_field :
    (is_greeting : Bool) (texts : List String)
    → Unique texts
    → AreNonempty texts
    → advertised_helper_capabilities (back (capabilities_field is_greeting texts)) ≡ texts
advertised-capabilities_field true texts u n = advertised-strs texts u n
advertised-capabilities_field false texts u n = advertised-opt_strs texts u n

module _ (str_of : Json → String) where
  text_of-str : (texts : List String) → map (text_of str_of) (map str texts) ≡ texts
  text_of-str [] = refl
  text_of-str (s ∷ rest) = cc (text_of-str rest)

  argv_of-opt_strs :
      (texts : List String)
      → argv_of str_of (or_default (first_of (opt_strs texts) none) (array end)) ≡ texts
  argv_of-opt_strs [] = refl
  argv_of-opt_strs (s ∷ rest) = simp (items-of_items) (cc (text_of-str rest))

  -- An event that names no capability twice, and no empty one, is the event that the receiver
  -- reads from its encoding: every field is as it was, the absent ones too.
  pub event_from_payload-encode_event :
      (e : HelperEvent)
      → Unique e.capabilities
      → AreNonempty e.capabilities
      → event_from_payload str_of (encode_event e) ≡ ok e
  unfolding event_from_payload encode_event
  event_from_payload-encode_event e u n =
      simp
        (
          get_member-payload_of,
          kind_of-kind_value,
          optional_str-opt_str,
          optional_int-opt_int,
          optional_bool-opt_bool,
          certificate_of-cert_field,
          argv_of-opt_strs,
          advertised-capabilities_field (is_hello e.kind) e.capabilities u n,
        )
        refl
