-- ===== src/Profiles/Ipsec/Stored.antt =====
-- The parsers of the values of IPsec settings read back what they returned (profiles/ipsec.py).
use fortigate_vpn_linux_gui.Prelude.{
  ℕ, ℤ, pos, negsuc, String, Bool, true, false, ◌&&◌, Option, none, some, List, [], ◌∷◌, ◌++◌, ◌<>◌,
  map, any, All, leb, ◌==◌, str_eq, str_eq_iff, if◌then◌else◌, ok, raised, ◌>>=◌, Ensures,
  Ensures-bind, Option-cases, Bool-cases, inl, inr, ◌⊎◌, ◌≡◌, refl, sym, ap, ◌∙◌,
}
use mathlib.Core.Path.{subst}
use fortigate_vpn_linux_gui.Json.{Json, null, boolean, int, float, str, array, object}
use fortigate_vpn_linux_gui.Profiles.Ipsec.Parse.{
  Parsed, dh_groups, chosen, or_raise, one_of, dedupe, each, in_range, group_of,
}

pub Ensures-any : {A : Type 0} (m : Parsed A) → Ensures (λ a. Unit) m
Ensures-any (ok a) = tt
Ensures-any (raised e) = tt

if-some :
    {A : Type 0} (c : Bool) (x a : A) (later : Option A)
    → (if c then some x else later) ≡ some a
    → ((c ≡ true) × (x ≡ a)) ⊎ ((c ≡ false) × (later ≡ some a))
if-some true x a later h = inl (refl, cc)
if-some false x a later h = inr (refl, h)

chosen-eq :
    {A : Type 0} (text : A → String) (allowed : List A) (s : String) (a : A)
    → chosen text allowed s ≡ some a
    → text a ≡ s
chosen-eq text [] s a h = cc
chosen-eq text (x ∷ rest) s a h = elim (if-some (str_eq (text x) s) x a (chosen text rest s) h) [
  | inl (e, same) ↦ ap text (sym same) ∙ (str_eq_iff (text x) s).0 e
  | inr (e, later) ↦ chosen-eq text rest s a later
]

pub one_of-again :
    {A : Type 0} (text : A → String) (allowed : List A) (label : String) (value : Json)
    → Ensures
        (λ a. one_of text allowed label (str (text a)) ≡ ok a)
        (one_of text allowed label value)
unfolding one_of
one_of-again text allowed label null = tt
one_of-again text allowed label (boolean b) = tt
one_of-again text allowed label (int n) = tt
one_of-again text allowed label (float f) = tt
one_of-again text allowed label (array vs) = tt
one_of-again text allowed label (object ms) = tt
one_of-again {A} text allowed label (str s) =
    let message = label <> " is not supported." in
    let P : A → Type 0 = λ a. or_raise message (chosen text allowed (text a)) ≡ ok a in
    elim (Option-cases (chosen text allowed s)) [
      | inl e ↦ subst (λ o. Ensures P (or_raise message o)) (sym e) tt
      | inr (a, e) ↦
          subst (λ o. Ensures P (or_raise message o)) (sym e)
            (ap (λ o. or_raise message o)
              (ap (λ x. chosen text allowed x) (chosen-eq text allowed s a e) ∙ e))
    ]

pub range-again :
    {E : Type 0} (lowest highest : ℕ) (message : E) (z : ℤ)
    → Ensures
        (λ n. or_raise message (in_range lowest highest (pos n)) ≡ ok n)
        (or_raise message (in_range lowest highest z))
range-again lowest highest message (negsuc n) = tt
range-again lowest highest message (pos n) =
    let P : ℕ → Type 0 = λ m. or_raise message (in_range lowest highest (pos m)) ≡ ok m in
    elim (Bool-cases (leb lowest n && leb n highest)) [
      | inl e ↦
          subst (λ (c : Bool). Ensures P (or_raise message (if c then some n else none))) (sym e)
            (ap (λ (c : Bool). or_raise message (if c then some n else none)) e)
      | inr e ↦
          subst (λ (c : Bool). Ensures P (or_raise message (if c then some n else none))) (sym e) tt
    ]

pub group-again :
    (message : String) (z : ℤ)
    → Ensures (λ n. or_raise message (group_of (pos n)) ≡ ok n) (or_raise message (group_of z))
group-again message (negsuc n) = tt
group-again message (pos n) =
    let P : ℕ → Type 0 = λ m. or_raise message (group_of (pos m)) ≡ ok m in
    let c = any (λ g. g == n) dh_groups in
    elim (Bool-cases c) [
      | inl e ↦
          subst (λ (c : Bool). Ensures P (or_raise message (if c then some n else none))) (sym e)
            (ap (λ (c : Bool). or_raise message (if c then some n else none)) e)
      | inr e ↦
          subst (λ (c : Bool). Ensures P (or_raise message (if c then some n else none))) (sym e) tt
    ]

pub each-All :
    {A : Type 0} (parse : Json → Parsed A) (write : A → Json) (values : List A)
    → All (λ a. parse (write a) ≡ ok a) values
    → each parse (map write values) ≡ ok values
each-All parse write [] h = refl
each-All parse write (a ∷ rest) h = rw (h.0, each-All parse write rest h.1) refl

pub each-Ensures :
    {A : Type 0} (P : A → Type 0) (parse : Json → Parsed A) (values : List Json)
    → ((v : Json) → Ensures P (parse v))
    → Ensures (All P) (each parse values)
each-Ensures P parse [] h = tt
each-Ensures P parse (v ∷ rest) h =
    Ensures-bind P (All P) (parse v) (λ a. each parse rest >>= λ later. ok (a ∷ later)) (h v)
      (λ a pa.
        Ensures-bind (All P) (All P) (each parse rest) (λ later. ok (a ∷ later))
          (each-Ensures P parse rest h) (λ later pl. (pa, pl)))

-- No item repeats one of those seen, or an earlier one.
abbrev pub IsFresh : {A : Type 0} → (A → A → Bool) → List A → List A → Type 0
IsFresh same seen [] = Unit
IsFresh same seen (x ∷ rest) =
    (any (λ y. same y x) seen ≡ false) × IsFresh same (seen ++ (x ∷ [])) rest

pub dedupe-IsFresh :
    {A : Type 0} (same : A → A → Bool) (seen values : List A)
    → IsFresh same seen (dedupe same seen values)
dedupe-IsFresh same seen [] = tt
dedupe-IsFresh same seen (x ∷ rest) =
    let P = IsFresh same seen in
    let later = dedupe same (seen ++ (x ∷ [])) rest in
    elim (Bool-cases (any (λ y. same y x) seen)) [
      | inl e ↦
          subst (λ (c : Bool). IsFresh same seen (if c then dedupe same seen rest else x ∷ later))
            (sym e) (dedupe-IsFresh same seen rest)
      | inr e ↦
          subst (λ (c : Bool). IsFresh same seen (if c then dedupe same seen rest else x ∷ later))
            (sym e) (e, dedupe-IsFresh same (seen ++ (x ∷ [])) rest)
    ]

pub dedupe-fresh :
    {A : Type 0} (same : A → A → Bool) (seen values : List A)
    → IsFresh same seen values
    → dedupe same seen values ≡ values
dedupe-fresh same seen [] h = refl
dedupe-fresh same seen (x ∷ rest) h =
    rw h.0 (ap (λ later. x ∷ later) (dedupe-fresh same (seen ++ (x ∷ [])) rest h.1))

pub dedupe-All :
    {A : Type 0} (P : A → Type 0) (same : A → A → Bool) (seen values : List A)
    → All P values
    → All P (dedupe same seen values)
dedupe-All P same seen [] h = tt
dedupe-All P same seen (x ∷ rest) h =
    let later = dedupe same (seen ++ (x ∷ [])) rest in
    elim (Bool-cases (any (λ y. same y x) seen)) [
      | inl e ↦
          subst (λ (c : Bool). All P (if c then dedupe same seen rest else x ∷ later)) (sym e)
            (dedupe-All P same seen rest h.1)
      | inr e ↦
          subst (λ (c : Bool). All P (if c then dedupe same seen rest else x ∷ later)) (sym e)
            (h.0, dedupe-All P same (seen ++ (x ∷ [])) rest h.1)
    ]
