-- ===== src/Vpn/Safety/Effects.antt =====
-- Counting what the backend did, on the trace of its effects.
use fortigate_vpn_linux_gui.Prelude.{ℕ, suc, List, [], ◌∷◌}
use fortigate_vpn_linux_gui.Vpn.Backend.Types.{
  Effect, forced, stop_helper, start_helper, start_saml_worker,
}

-- The transitions that the table does not allow.
abbrev pub forcings : List Effect → ℕ
forcings [] = 0
forcings (forced old new ∷ xs) = suc (forcings xs)
forcings (_ ∷ xs) = forcings xs

-- The requests to the helper to stop.
abbrev pub stops : List Effect → ℕ
stops [] = 0
stops (stop_helper wait ∷ xs) = suc (stops xs)
stops (_ ∷ xs) = stops xs

-- The helpers and sign-in workers that were started.
abbrev pub starts : List Effect → ℕ
starts [] = 0
starts (start_helper request credentials ∷ xs) = suc (starts xs)
starts (start_saml_worker profile ∷ xs) = suc (starts xs)
starts (_ ∷ xs) = starts xs
