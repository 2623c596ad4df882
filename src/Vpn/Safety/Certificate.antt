-- ===== src/Vpn/Safety/Certificate.antt =====
-- What a certificate that the gateway presents leads to.
use fortigate_vpn_linux_gui.Prelude.{
  String, Bool, true, false, ◌||◌, is_some, Option, none, some, [], ◌∷◌, ◌≡◌, refl, arith,
  str_eq_iff, Bool-cases, inl, inr,
}
use fortigate_vpn_linux_gui.Vpn.State.{
  starting, connecting, waiting_for_auth, waiting_for_certificate_trust, among,
}
use fortigate_vpn_linux_gui.Vpn.Backend.Errors.{
  VpnErrorCode, certificate_untrusted, certificate_changed,
}
use fortigate_vpn_linux_gui.Vpn.Backend.Types.{Backend, Ports, CertificateInfo}
use fortigate_vpn_linux_gui.Vpn.Backend.Core.{transition}
use fortigate_vpn_linux_gui.Vpn.Backend.Failure.{pin_differs, is_certificate}
use fortigate_vpn_linux_gui.Vpn.Backend.Events.{
  handle_certificate, interrupt, report_certificate, first_report, note_certificate, seen_before,
  pinned_of,
}
use fortigate_vpn_linux_gui.Vpn.Backend.Exit.{Exited}
use fortigate_vpn_linux_gui.Prelude.{if◌then◌else◌}

module _ (p : Ports) (info : CertificateInfo) (b : Backend) where
  -- A session under way that is shown a certificate not reported before waits for the user's
  -- decision: the error says whether the certificate differs from the profile's pin, and the
  -- sign-in timer no longer runs.
  pub handle_certificate-waits :
      among b.state (starting ∷ waiting_for_auth ∷ connecting ∷ []) ≡ true
      → seen_before b.logged.cert_sha info.sha256 ≡ false
      → (handle_certificate p info b).state ≡ waiting_for_certificate_trust
        × (handle_certificate p info b).error_code
          ≡ some (
              if pin_differs (pinned_of b) info.sha256
              then certificate_changed
              else certificate_untrusted)
        × (handle_certificate p info b).presented_certificate ≡ some info
        × (handle_certificate p info b).saml_timer ≡ false
  unfolding handle_certificate interrupt report_certificate transition
  handle_certificate-waits active fresh = ground arith

  handle_certificate-seen :
      seen_before (handle_certificate p info b).logged.cert_sha info.sha256 ≡ true
  unfolding handle_certificate interrupt report_certificate transition
  handle_certificate-seen = ground (arith, (str_eq_iff info.sha256 info.sha256).1 refl)

  report_certificate-noted :
      (c : Backend)
      → note_certificate info c ≡ c
      → note_certificate info (report_certificate p info c) ≡ report_certificate p info c
  unfolding report_certificate
  report_certificate-noted c noted = ground arith

  interrupt-noted :
      (c : Backend)
      → note_certificate info c ≡ c
      → note_certificate info (interrupt p c) ≡ interrupt p c
  unfolding interrupt transition
  interrupt-noted c noted = ground arith

  note_certificate-handle_certificate :
      note_certificate info (handle_certificate p info b) ≡ handle_certificate p info b
  unfolding handle_certificate
  note_certificate-handle_certificate =
      elim (Bool-cases (seen_before b.logged.cert_sha info.sha256)) [
        | inl s ↦ simp s refl
        | inr s ↦ simp s (
            report_certificate-noted (interrupt p (first_report info b))
              (interrupt-noted (first_report info b) refl))
      ]

  -- The certificate reported a second time changes nothing and tells nobody.
  pub handle_certificate-repeated :
      handle_certificate p info (handle_certificate p info b) ≡ handle_certificate p info b
  unfolding handle_certificate
  handle_certificate-repeated = simp handle_certificate-seen note_certificate-handle_certificate

-- What tells of a certificate that could not be validated: a line of output, or the certificate.
abbrev pub is_certificate_seen : Backend → Bool
is_certificate_seen b = is_certificate b.output_hint || is_some b.presented_certificate

-- The error that asks for the user's trust; without a certificate it cannot differ from the pin.
abbrev pub trust_error : Option String → Option CertificateInfo → VpnErrorCode
trust_error pinned none = certificate_untrusted
trust_error pinned (some info) =
    if pin_differs pinned info.sha256 then certificate_changed else certificate_untrusted

abbrev AsksForTrust : Exited → Backend → Type 0
AsksForTrust e b =
    (e.backend.state ≡ waiting_for_certificate_trust)
    × (e.backend.error_code ≡ some (trust_error (pinned_of b) b.presented_certificate))
