-- ===== src/Helper/Protocol/Received.antt =====
-- The capabilities of a received event, and the event passed on once more (helper/protocol.py).
use fortigate_vpn_linux_gui.Prelude.{
  String, true, false, none, some, List, [], ◌∷◌, ◌++◌, Unique, All-append, contains, str_eq,
  if◌then◌else◌, Result, ok, raised, ◌≡◌, arith, Bool-cases, inl, inr,
}
use mathlib.Core.Path.{subst}
use fortigate_vpn_linux_gui.Json.{
  Json, null, boolean, int, float, str, array, object, items, Members, get,
}
use fortigate_vpn_linux_gui.Helper.Protocol.{
  HelperEvent, HelperError, kind_of, encode_event, optional_str, is_new, collect,
  advertised_helper_capabilities, event_of_kind, event_of_type, event_from_payload,
}
use fortigate_vpn_linux_gui.Helper.Protocol.RoundTrip.{
  AreNonempty, Unique-snoc, event_from_payload-encode_event,
}

abbrev AreTokens : List String → Type 0
AreTokens texts = Unique texts × AreNonempty texts

is_new-true :
    (seen : List String) (s : String)
    → is_new seen s ≡ true
    → (str_eq s "" ≡ false) × (contains seen s ≡ false)
is_new-true seen s h = (ground arith, ground arith)

AreTokens-snoc :
    (seen : List String) (s : String)
    → AreTokens seen
    → AreTokens (if is_new seen s then seen ++ (s ∷ []) else seen)
AreTokens-snoc seen s h = elim (Bool-cases (is_new seen s)) [
  | inl new ↦ rw new (
      let (nonempty, fresh) = is_new-true seen s new in
      (
        Unique-snoc seen s h.0 fresh,
        All-append (λ t. str_eq t "" ≡ false) seen (s ∷ []) h.1 (nonempty, tt),
      ))
  | inr old ↦ rw old h
]

collect-AreTokens :
    (seen : List String) (values : List Json) → AreTokens seen → AreTokens (collect seen values)
collect-AreTokens seen [] h = h
collect-AreTokens seen (null ∷ rest) h = collect-AreTokens seen rest h
collect-AreTokens seen (boolean b ∷ rest) h = collect-AreTokens seen rest h
collect-AreTokens seen (int n ∷ rest) h = collect-AreTokens seen rest h
collect-AreTokens seen (float t ∷ rest) h = collect-AreTokens seen rest h
collect-AreTokens seen (str s ∷ rest) h =
    collect-AreTokens (if is_new seen s then seen ++ (s ∷ []) else seen) rest
      (AreTokens-snoc seen s h)
collect-AreTokens seen (array vs ∷ rest) h = collect-AreTokens seen rest h
collect-AreTokens seen (object ms ∷ rest) h = collect-AreTokens seen rest h

advertised-AreTokens : (value : Json) → AreTokens (advertised_helper_capabilities value)
unfolding advertised_helper_capabilities
advertised-AreTokens null = (tt, tt)
advertised-AreTokens (boolean b) = (tt, tt)
advertised-AreTokens (int n) = (tt, tt)
advertised-AreTokens (float t) = (tt, tt)
advertised-AreTokens (str s) = (tt, tt)
advertised-AreTokens (array values) = collect-AreTokens [] (items values) (tt, tt)
advertised-AreTokens (object members) = (tt, tt)

abbrev received : Result HelperError HelperEvent → List String
received (ok e) = e.capabilities
received (raised error) = []

module _ (str_of : Json → String) where
  received-AreTokens :
      (payload : Members) → AreTokens (received (event_from_payload str_of payload))
  unfolding event_from_payload
  received-AreTokens payload =
      elim (optional_str (get "type" payload))
        as (λ t. AreTokens (received (event_of_type str_of t payload))) [
          | none ↦ (tt, tt)
          | some raw_type ↦
              elim (kind_of raw_type)
                as (λ k. AreTokens (received (event_of_kind str_of k payload))) [
                  | none ↦ (tt, tt)
                  | some kind ↦ advertised-AreTokens (get "capabilities" payload)
                ]
        ]

  -- Whatever object the receiver reads an event from: the event, encoded again, is read as the
  -- same event.
  pub event_from_payload-again :
      (payload : Members) (e : HelperEvent)
      → event_from_payload str_of payload ≡ ok e
      → event_from_payload str_of (encode_event e) ≡ ok e
  event_from_payload-again payload e h =
      let tokens = subst (λ r. AreTokens (received r)) h (received-AreTokens payload) in
      event_from_payload-encode_event str_of e tokens.0 tokens.1
