-- ===== src/Helper/Safety/Sound.antt =====
-- What holds of the helper service at all times, as counts of the trace against its flags, and the
-- lines of output keep it (helper/service.py).
use fortigate_vpn_linux_gui.Prelude.{
  ℕ, suc, ◌+◌, ◌-◌, ◌≤◌, String, Bool, true, false, not, ◌&&◌, Option, none, some, List, [], ◌∷◌,
  ◌++◌, length, length-drop, is_some, if◌then◌else◌, ◌≡◌, refl, arith,
}
use mathlib.Core.Path.{subst}
use fortigate_vpn_linux_gui.Vpn.Backend.Types.{
  CertificateInfo, EventKind, saml_url, connected_kind, log_kind,
}
use fortigate_vpn_linux_gui.Helper.Service.Types.{
  IpsecRuntimeFiles, SamlEvent, auth_url, listener_ready, saml_waits, saml_succeeded, saml_failed,
  saml_nothing, Effect, event, began, armed, torn_down, wrote_runtime, wiped, wiped_dir, terminated,
  killed, stopped_leftovers, overtaken, Service, Host,
}
use fortigate_vpn_linux_gui.Helper.Service.Output.{
  bounded, keep_startup_log, report_certificate, note_ipsec_dns_line, report_connected,
  is_attribute_line, same_sha, nonempty, emit, with_line,
}
use fortigate_vpn_linux_gui.Helper.Service.Lines.{
  report_url, report_saml, auth_event, note_certificate, shown_certificate, feed, on_output_by,
  on_output_with,
}

abbrev is_connected_kind : EventKind → Bool
is_connected_kind connected_kind = true
is_connected_kind _ = false

abbrev is_url_kind : EventKind → Bool
is_url_kind saml_url = true
is_url_kind _ = false

-- The events of a kind since the session's fields were last reset.
abbrev pub count_since_began : (EventKind → Bool) → List Effect → ℕ
count_since_began p [] = 0
count_since_began p (began ∷ rest) = 0
count_since_began p (event e ∷ rest) =
    if p e.kind then suc (count_since_began p rest) else count_since_began p rest
count_since_began p (_ ∷ rest) = count_since_began p rest

abbrev pub connected_count : List Effect → ℕ
connected_count = count_since_began is_connected_kind

abbrev pub url_count : List Effect → ℕ
url_count = count_since_began is_url_kind

-- The reports since then of threads whose test of a flag was overtaken.
abbrev pub overtaken_count : List Effect → ℕ
overtaken_count [] = 0
overtaken_count (began ∷ rest) = 0
overtaken_count (overtaken ∷ rest) = suc (overtaken_count rest)
overtaken_count (_ ∷ rest) = overtaken_count rest

-- The teardowns run since one last became due.
abbrev pub teardown_count : List Effect → ℕ
teardown_count [] = 0
teardown_count (armed ∷ rest) = 0
teardown_count (torn_down ∷ rest) = suc (teardown_count rest)
teardown_count (_ ∷ rest) = teardown_count rest

-- What has happened, and once more where the flag still allows it.
abbrev pub potential : Bool → ℕ → ℕ
potential true n = n
potential false n = suc n

-- Whether files with secrets were written and not wiped since.
abbrev pub are_secrets_left : List Effect → Bool
are_secrets_left [] = false
are_secrets_left (wrote_runtime ∷ rest) = true
are_secrets_left (wiped (some files) ∷ rest) = false
are_secrets_left (wiped_dir path ∷ rest) = false
are_secrets_left (_ ∷ rest) = are_secrets_left rest

-- The signals sent: to the process held, and by `stop_owned_leftover_charon` to charon daemons.
abbrev pub signals : List Effect → List Effect
signals [] = []
signals (terminated ∷ rest) = terminated ∷ signals rest
signals (killed ∷ rest) = killed ∷ signals rest
signals (stopped_leftovers ∷ rest) = stopped_leftovers ∷ signals rest
signals (_ ∷ rest) = signals rest

-- What a line of output leaves alone.
pub record Frame : Type 0 where
  pub process : Option ℕ
  pub ipsec_files : Option IpsecRuntimeFiles
  pub ipsec_swanctl : Option String
  pub teardown_done : Bool
  pub teardowns : ℕ
  pub secrets_left : Bool
  pub signalled : List Effect

abbrev pub frame : Service → Frame
frame s = record {
  process = s.process;
  ipsec_files = s.ipsec_files;
  ipsec_swanctl = s.ipsec_swanctl;
  teardown_done = s.teardown_done;
  teardowns = teardown_count s.out;
  secrets_left = are_secrets_left s.out;
  signalled = signals s.out;
}

abbrev pub OnFrame : Type 1
OnFrame = Frame → Type 0

-- The invariant: `c` counts the reports of a connection held back, one of them for good, and `T` says
-- what holds of the frame.
abbrev pub Sound : ℕ → OnFrame → Service → Type 0
Sound c T s =
    (length s.startup_logs ≤ 32)
    × (potential s.reported.connected (connected_count s.out) + c ≤ 2 + overtaken_count s.out)
    × (potential s.reported.saml_url (url_count s.out) ≤ suc (overtaken_count s.out))
    × T (frame s)

abbrev pub if_either {ℓ} :
    {A : Type 0} (P : A → Type ℓ) (c : Bool) (x y : A)
    → (c ≡ true → P x)
    → (c ≡ false → P y)
    → P (if c then x else y)
if_either P true x y hx hy = hx refl
if_either P false x y hx hy = hy refl

length-bounded : (logs : List String) → length (bounded logs) ≤ 32
unfolding bounded
length-bounded logs = omega (arith, length-drop (length logs - 32) logs)

keep_startup_log-bounded :
    (line : String) (s : Service)
    → length s.startup_logs ≤ 32
    → length (keep_startup_log line s).startup_logs ≤ 32
unfolding keep_startup_log
keep_startup_log-bounded line s h =
    if_either (λ (logs : List String). length logs ≤ 32)
      (is_some s.ipsec_files && not s.reported.connected) (bounded (s.startup_logs ++ (line ∷ [])))
      s.startup_logs (λ e. length-bounded (s.startup_logs ++ (line ∷ []))) (λ e. h)

abbrev pub Keeps : OnFrame → (Service → Service) → Type 0
Keeps T f = (c : ℕ) (s : Service) → Sound c T s → Sound c T (f s)

potential-suc : (b : Bool) (n c m : ℕ) → potential b n + suc c ≤ m → potential b (suc n) + c ≤ m
potential-suc true n c m h = omega (arith, h)
potential-suc false n c m h = omega (arith, h)

not-true : (a b : Bool) → (a && not b) ≡ true → b ≡ false
not-true a true h = ground arith
not-true a false h = refl

module _ (T : OnFrame) where
  pub keep_startup_log-Keeps : (line : String) → Keeps T (keep_startup_log line)
  unfolding keep_startup_log
  keep_startup_log-Keeps line c s h = (keep_startup_log-bounded line s h.0, h.1, h.2, h.3)

  pub report_certificate-Keeps :
      (info : Option CertificateInfo) (line : String) → Keeps T (report_certificate info line)
  unfolding report_certificate
  report_certificate-Keeps none line c s h = h
  report_certificate-Keeps (some info) line c s h =
      if_either (Sound c T) (same_sha s.reported.cert_sha info.sha256) _ _ (λ e. h) (λ e. h)

  pub report_url-Keeps : (url : Option String) → Keeps T (report_url url)
  unfolding report_url
  report_url-Keeps none c s h = h
  report_url-Keeps (some url) c s h =
      if_either (Sound c T) s.reported.saml_url _ _ (λ e. h)
        (λ e. (
          h.0,
          h.1,
          subst (λ b. potential b (url_count s.out) ≤ suc (overtaken_count s.out)) e h.2,
          h.3,
        ))

  pub auth_event-Keeps : (k : Host) (url : Option String) → Keeps T (auth_event k url)
  auth_event-Keeps k none c s h = h
  auth_event-Keeps k (some url) c s h = report_url-Keeps (k.safe_url url) c s h

  pub report_saml-Keeps : (k : Host) (e : SamlEvent) → Keeps T (report_saml k e)
  unfolding report_saml
  report_saml-Keeps k (auth_url url) c s h = auth_event-Keeps k (nonempty url) c s h
  report_saml-Keeps k listener_ready c s h = h
  report_saml-Keeps k saml_waits c s h = h
  report_saml-Keeps k saml_succeeded c s h = h
  report_saml-Keeps k saml_failed c s h = h
  report_saml-Keeps k saml_nothing c s h = h

  pub note_certificate-Keeps :
      (k : Host) (line redacted : String) → Keeps T (note_certificate k line redacted)
  unfolding note_certificate
  note_certificate-Keeps k line redacted c s h =
      report_certificate-Keeps (shown_certificate k line s) redacted c (feed k line s) h

  pub note_ipsec_dns_line-Keeps :
      (k : Host) (apply : Service → Service) (line : String)
      → Keeps T apply
      → Keeps T (note_ipsec_dns_line k apply line)
  unfolding note_ipsec_dns_line
  note_ipsec_dns_line-Keeps k apply line keeps c s h =
      if_either (Sound c T) (not (is_attribute_line k line)) _ _ (λ e. h)
        (λ e. if_either (Sound c T) s.reported.connected _ _ (λ e'. keeps c _ h) (λ e'. h))

  pub connected-Sound :
      (c : ℕ) (apply : Service → Service) (line : String) (s : Service)
      → Keeps T apply
      → Sound c T s
      → s.reported.connected ≡ false
      → Sound c T (
          emit
            (with_line connected_kind line)
            (apply (record s { reported = record s.reported { connected = true } })))
  connected-Sound c apply line s keeps h e =
      let marked = record s { reported = record s.reported { connected = true } } in
      let first =
        subst (λ b. potential b (connected_count s.out) + c ≤ 2 + overtaken_count s.out) e h.1 in
      let g = keeps (suc c) marked (h.0, omega (arith, first), h.2, h.3) in
      let s' = apply marked in
      (
        g.0,
        potential-suc s'.reported.connected (connected_count s'.out) c (2 + overtaken_count s'.out)
            g.1,
        g.2,
        g.3,
      )

  pub report_connected-Keeps :
      (k : Host) (apply : Service → Service) (line : String)
      → Keeps T apply
      → Keeps T (report_connected k apply line)
  unfolding report_connected
  report_connected-Keeps k apply line keeps c s h =
      if_either (Sound c T) (k.is_connected_line line && not s.reported.connected) _ _
        (λ e.
          connected-Sound c apply line s keeps h
            (not-true (k.is_connected_line line) s.reported.connected e))
        (λ e. h)

  module _ (k : Host) (apply : Service → Service) (keeps : Keeps T apply) where
    pub on_output_with-Keeps : (line : String) → Keeps T (on_output_with k apply line)
    unfolding on_output_with on_output_by
    on_output_with-Keeps line c s h =
        let s1 = keep_startup_log (k.redact line) s in
        let s2 = emit (with_line log_kind (k.redact line)) s1 in
        let s3 = note_ipsec_dns_line k apply (k.redact line) s2 in
        let s4 = note_certificate k line (k.redact line) s3 in
        let s5 = report_connected k apply (k.redact line) s4 in
        let h1 = keep_startup_log-Keeps (k.redact line) c s h in
        let h3 = note_ipsec_dns_line-Keeps k apply (k.redact line) keeps c s2 h1 in
        let h4 = note_certificate-Keeps k line (k.redact line) c s3 h3 in
        let h5 = report_connected-Keeps k apply (k.redact line) keeps c s4 h4 in
        if_either (Sound c T) (k.is_noise (k.redact line)) _ _ (λ e. h)
          (λ e.
            if_either (Sound c T) s5.saml _ _ (λ e'. report_saml-Keeps k (k.saml_line line) c s5 h5)
              (λ e'. h5))
