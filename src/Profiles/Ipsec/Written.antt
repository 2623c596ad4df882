-- ===== src/Profiles/Ipsec/Written.antt =====
-- Lists, numbers and proposals that were parsed, written and parsed again (profiles/ipsec.py).
use fortigate_vpn_linux_gui.Prelude.{
  ℕ, pos, String, Bool, List, [], ◌∷◌, ◌<>◌, map, All, ◌==◌, ok, ◌>>=◌, Ensures, Ensures-bind, ◌≡◌,
  refl, ap, ◌∙◌, decimal,
}
use fortigate_vpn_linux_gui.Json.{
  Json, null, boolean, int, float, str, array, Jsons, end, item, object, items, of_items,
  items-of_items, get, get_member-payload_of,
}
use fortigate_vpn_linux_gui.Profiles.Ipsec.{CryptoProposal}
use fortigate_vpn_linux_gui.Profiles.Ipsec.Parse.{
  Texts, Parsed, encryption_algorithms, integrity_algorithms, or_raise, one_of, itself, dedupe,
  each, group_of, same_proposal, parse_one_proposal, listed, parse_proposals, number_of, lifetime,
  port, dh_group, parse_dh_groups,
}
use fortigate_vpn_linux_gui.Profiles.Ipsec.Payload.{proposal_json, group_json}
use fortigate_vpn_linux_gui.Profiles.Ipsec.Stored.{
  one_of-again, range-again, group-again, each-All, each-Ensures, IsFresh, dedupe-IsFresh,
  dedupe-fresh, dedupe-All, Ensures-any,
}

abbrev pub IsCons : {A : Type 0} → List A → Type 0
IsCons [] = ⊥
IsCons (x ∷ rest) = Unit

module _ {A : Type 0} (same : A → A → Bool) (parse : Json → Parsed A) (write : A → Json)
    (label : String) where
  abbrev pub IsWritten : List A → Type 0
  IsWritten xs = IsCons xs × (listed same parse label (of_items (map write xs)) ≡ ok xs)

  listed-IsWritten :
      (xs : List A)
      → IsCons xs
      → All (λ a. parse (write a) ≡ ok a) xs
      → IsFresh same [] xs
      → IsWritten xs
  unfolding listed
  listed-IsWritten [] c h f = absurd c
  listed-IsWritten (x ∷ rest) c h f = (
    tt,
    ap (λ values. each parse (write x ∷ values) >>= λ as'. ok (dedupe same [] as'))
          (items-of_items (map write rest))
        ∙ ap (λ (r : Parsed (List A)). r >>= λ as'. ok (dedupe same [] as'))
            (each-All parse write (x ∷ rest) h)
        ∙ ap ok (dedupe-fresh same [] (x ∷ rest) f),
  )

  each-IsCons :
      (P : A → Type 0) (v : Json) (rest : List Json)
      → ((v : Json) → Ensures P (parse v))
      → Ensures (λ xs. IsCons xs × All P xs) (each parse (v ∷ rest))
  each-IsCons P v rest h =
      Ensures-bind P (λ xs. IsCons xs × All P xs) (parse v)
        (λ a. each parse rest >>= λ later. ok (a ∷ later)) (h v)
        (λ a pa.
          Ensures-bind (All P) (λ xs. IsCons xs × All P xs) (each parse rest)
            (λ later. ok (a ∷ later)) (each-Ensures P parse rest h) (λ later pl. (tt, (pa, pl))))

  dedupe-IsCons : (xs : List A) → IsCons xs → IsCons (dedupe same [] xs)
  dedupe-IsCons [] c = c
  dedupe-IsCons (x ∷ rest) c = tt

  listed-again :
      (values : Jsons)
      → ((v : Json) → Ensures (λ a. parse (write a) ≡ ok a) (parse v))
      → Ensures IsWritten (listed same parse label values)
  unfolding listed
  listed-again end h = tt
  listed-again (item v rest) h =
      let P : A → Type 0 = λ a. parse (write a) ≡ ok a in
      Ensures-bind (λ xs. IsCons xs × All P xs) IsWritten (each parse (v ∷ items rest))
        (λ xs. ok (dedupe same [] xs)) (each-IsCons P v (items rest) h)
        (λ xs g.
          listed-IsWritten (dedupe same [] xs) (dedupe-IsCons xs g.0) (dedupe-All P same [] xs g.1)
            (dedupe-IsFresh same [] xs))

abbrev ProposalAgain : String → CryptoProposal → Type 0
ProposalAgain label p = parse_one_proposal label (proposal_json p) ≡ ok p

pub proposal_json-parsed :
    (label e i : String)
    → one_of itself encryption_algorithms (label <> " encryption") (str e) ≡ ok e
    → one_of itself integrity_algorithms (label <> " integrity") (str i) ≡ ok i
    → ProposalAgain label (record { encryption = e; integrity = i })
unfolding parse_one_proposal
proposal_json-parsed label e i he hi = simp (get_member-payload_of, he, hi) refl

one_proposal-again :
    {B : Type 0} (Q : B → Type 0) (wrap : CryptoProposal → B) (label : String)
    (encryption integrity : Json)
    → ((p : CryptoProposal) → ProposalAgain label p → Q (wrap p))
    → Ensures Q (
        one_of itself encryption_algorithms (label <> " encryption") encryption >>= λ e.
        one_of itself integrity_algorithms (label <> " integrity") integrity >>= λ i.
        ok (wrap (record { encryption = e; integrity = i })))
one_proposal-again Q wrap label encryption integrity close =
    let cipher = label <> " encryption" in
    let hash = label <> " integrity" in
    let E : String → Type 0 = λ e. one_of itself encryption_algorithms cipher (str e) ≡ ok e in
    let I : String → Type 0 = λ i. one_of itself integrity_algorithms hash (str i) ≡ ok i in
    Ensures-bind E Q (one_of itself encryption_algorithms cipher encryption) _
      (one_of-again itself encryption_algorithms cipher encryption)
      (λ e he.
        Ensures-bind I Q (one_of itself integrity_algorithms hash integrity) _
          (one_of-again itself integrity_algorithms hash integrity)
          (λ i hi.
            close (record { encryption = e; integrity = i })
              (proposal_json-parsed label e i he hi)))

parse_one_proposal-again :
    (label : String) (v : Json) → Ensures (ProposalAgain label) (parse_one_proposal label v)
unfolding parse_one_proposal
parse_one_proposal-again label null = tt
parse_one_proposal-again label (boolean b) = tt
parse_one_proposal-again label (int n) = tt
parse_one_proposal-again label (float f) = tt
parse_one_proposal-again label (str s) = tt
parse_one_proposal-again label (array vs) = tt
parse_one_proposal-again label (object value) =
    one_proposal-again (ProposalAgain label) (λ p. p) label (get "encryption" value)
      (get "integrity" value) (λ p h. h)

abbrev pub ProposalsAgain : String → List CryptoProposal → Type 0
ProposalsAgain label = IsWritten same_proposal (parse_one_proposal label) proposal_json label

pub parse_proposals-again :
    (label : String) (value encryption integrity : Json)
    → Ensures (ProposalsAgain label) (parse_proposals label value encryption integrity)
unfolding parse_proposals
parse_proposals-again label null encryption integrity =
    one_proposal-again (ProposalsAgain label) (λ p. p ∷ []) label encryption integrity
      (λ p h.
        listed-IsWritten same_proposal (parse_one_proposal label) proposal_json label (p ∷ []) tt
          (h, tt) (refl, tt))
parse_proposals-again label (boolean b) encryption integrity = tt
parse_proposals-again label (int n) encryption integrity = tt
parse_proposals-again label (float f) encryption integrity = tt
parse_proposals-again label (str s) encryption integrity = tt
parse_proposals-again label (object ms) encryption integrity = tt
parse_proposals-again label (array values) encryption integrity =
    listed-again same_proposal (parse_one_proposal label) proposal_json label values
      (parse_one_proposal-again label)

module _ (t : Texts) where
  dh_group-again :
      (label : String) (v : Json)
      → Ensures (λ g. dh_group t label (group_json g) ≡ ok g) (dh_group t label v)
  unfolding dh_group
  dh_group-again label v =
      let message = label <> " is not supported." in
      Ensures-bind (λ z. Unit) (λ g. or_raise message (group_of (pos g)) ≡ ok g)
        (number_of t message v) (λ z. or_raise message (group_of z))
        (Ensures-any (number_of t message v)) (λ z h. group-again message z)

  abbrev pub GroupsAgain : String → List ℕ → Type 0
  GroupsAgain label = IsWritten ◌==◌ (dh_group t label) group_json label

  pub parse_dh_groups-again :
      (label : String) (value singular : Json)
      → Ensures (GroupsAgain label) (parse_dh_groups t label value singular)
  unfolding parse_dh_groups
  parse_dh_groups-again label null singular =
      Ensures-bind (λ g. dh_group t label (group_json g) ≡ ok g) (GroupsAgain label)
        (dh_group t label singular) (λ g. ok (g ∷ [])) (dh_group-again label singular)
        (λ g h.
          listed-IsWritten ◌==◌ (dh_group t label) group_json label (g ∷ []) tt (h, tt) (refl, tt))
  parse_dh_groups-again label (boolean b) singular = tt
  parse_dh_groups-again label (int n) singular = tt
  parse_dh_groups-again label (float f) singular = tt
  parse_dh_groups-again label (str s) singular = tt
  parse_dh_groups-again label (object ms) singular = tt
  parse_dh_groups-again label (array values) singular =
      listed-again ◌==◌ (dh_group t label) group_json label values (dh_group-again label)

  pub lifetime-again :
      (minimum : ℕ) (label : String) (v : Json)
      → Ensures (λ n. lifetime t minimum label (int (pos n)) ≡ ok n) (lifetime t minimum label v)
  unfolding lifetime
  lifetime-again minimum label v =
      Ensures-bind (λ z. Unit) (λ n. lifetime t minimum label (int (pos n)) ≡ ok n)
        (number_of t (label <> " must be a number of seconds.") v) _
        (Ensures-any (number_of t (label <> " must be a number of seconds.") v))
        (λ z h.
          range-again minimum 604800
            (label <> " must be between " <> decimal minimum <> " and 604800 seconds.") z)

  pub port-again :
      (label : String) (v : Json)
      → Ensures (λ n. port t label (int (pos n)) ≡ ok n) (port t label v)
  unfolding port
  port-again label v =
      let message = label <> " must be between 1 and 65535." in
      Ensures-bind (λ z. Unit) (λ n. port t label (int (pos n)) ≡ ok n) (number_of t message v) _
        (Ensures-any (number_of t message v)) (λ z h. range-again 1 65535 message z)
