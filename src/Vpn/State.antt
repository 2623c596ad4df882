-- ===== src/Vpn/State.antt =====
-- The connection states and the table of allowed transitions (vpn/models.py).
use fortigate_vpn_linux_gui.Prelude.{ℕ, Bool, List, [], ◌∷◌, String, false, ◌||◌, ◌==◌}

pub data ConnectionState : Type 0 where
  disconnected starting connecting connected disconnecting failed : ConnectionState
  waiting_for_auth waiting_for_certificate_trust closing : ConnectionState

pub data WaitReason : Type 0 where
  nothing helper_startup saml_browser certificate_trust tunnel_setup : WaitReason
  wait_disconnecting shutdown reconnecting : WaitReason

abbrev rank : ConnectionState → ℕ
rank disconnected = 0
rank starting = 1
rank connecting = 2
rank connected = 3
rank disconnecting = 4
rank failed = 5
rank waiting_for_auth = 6
rank waiting_for_certificate_trust = 7
rank closing = 8

-- `a is b` on the members of the enumeration.
abbrev pub is : ConnectionState → ConnectionState → Bool
is a b = rank a == rank b

-- `state in {...}`
abbrev pub among : ConnectionState → List ConnectionState → Bool
among s [] = false
among s (x ∷ xs) = is s x || among s xs

abbrev pub connectable_states : List ConnectionState
connectable_states = disconnected ∷ failed ∷ []

abbrev pub busy_states : List ConnectionState
busy_states =
    starting ∷ connecting ∷ connected ∷ disconnecting ∷ waiting_for_auth
    ∷ waiting_for_certificate_trust ∷ closing ∷ []

abbrev pub cancelable_states : List ConnectionState
cancelable_states = waiting_for_auth ∷ waiting_for_certificate_trust ∷ connecting ∷ connected ∷ []

-- The member's value.
abbrev pub state_value : ConnectionState → String
state_value disconnected = "disconnected"
state_value starting = "starting"
state_value connecting = "connecting"
state_value connected = "connected"
state_value disconnecting = "disconnecting"
state_value failed = "failed"
state_value waiting_for_auth = "waiting_for_auth"
state_value waiting_for_certificate_trust = "waiting_for_certificate_trust"
state_value closing = "closing"

abbrev pub wait_reason_for : ConnectionState → WaitReason
wait_reason_for starting = helper_startup
wait_reason_for waiting_for_auth = saml_browser
wait_reason_for waiting_for_certificate_trust = certificate_trust
wait_reason_for connecting = tunnel_setup
wait_reason_for disconnecting = wait_disconnecting
wait_reason_for closing = shutdown
wait_reason_for _ = nothing

abbrev pub allowed_transitions : ConnectionState → List ConnectionState
allowed_transitions disconnected = starting ∷ failed ∷ closing ∷ []
allowed_transitions starting =
    connecting ∷ waiting_for_auth ∷ waiting_for_certificate_trust ∷ failed ∷ disconnecting ∷ closing
    ∷ []
allowed_transitions connecting =
    connected ∷ failed ∷ disconnecting ∷ waiting_for_auth ∷ waiting_for_certificate_trust ∷ closing
    ∷ []
allowed_transitions waiting_for_auth =
    connecting ∷ failed ∷ disconnecting ∷ waiting_for_certificate_trust ∷ closing ∷ []
allowed_transitions waiting_for_certificate_trust =
    starting ∷ disconnecting ∷ failed ∷ disconnected ∷ closing ∷ []
allowed_transitions connected = disconnecting ∷ failed ∷ closing ∷ []
allowed_transitions disconnecting = disconnected ∷ failed ∷ closing ∷ []
allowed_transitions failed = disconnected ∷ starting ∷ closing ∷ []
allowed_transitions closing = disconnected ∷ failed ∷ []

-- `new_state in ALLOWED_TRANSITIONS[state]`
abbrev pub allows : ConnectionState → ConnectionState → Bool
allows old new = among new (allowed_transitions old)
