-- ===== src/Endpoint/Addresses.antt =====
-- The addresses of the bindings that extractTCPPort (dcom.go) reads: those with a port, and those
-- that are passed over.
use gopcda.Prelude.{
  ℕ, suc, ◌^◌, ◌≤◌, ◌<◌, ◌≡◌, refl, ap, subst, ◌∙◌, Bool, true, false, not, ◌||◌, none, some, List,
  [], ◌∷◌, ◌++◌, length, leb, ◌==◌, arith, Bool-cases, Option-cases, inl, inr,
}
use gopcda.Decimals.{all_digits, show_nat}
use gopcda.Decimals.Digits.{read_digits-digits_of, all_digits-digits_of, length-digits_of_pos}
use gopcda.Endpoint.{
  after_last_bracket, before_bracket, port_text, parse_port, binding_port, is_empty,
}

-- No unit is a zero, and none is an opening bracket.
unfoldable pub has_zero : List ℕ → Bool
has_zero [] = false
has_zero (u ∷ r) = u == 0 || has_zero r

unfoldable pub has_bracket : List ℕ → Bool
has_bracket [] = false
has_bracket (u ∷ r) = u == 91 || has_bracket r

has_bracket-digits : (s : List ℕ) → all_digits s ≡ true → has_bracket s ≡ false
unfolding has_bracket all_digits
has_bracket-digits [] h = refl
has_bracket-digits (u ∷ r) h = ground (arith, h, has_bracket-digits r)

pub has_zero-digits : (s : List ℕ) → all_digits s ≡ true → has_zero s ≡ false
unfolding has_zero all_digits
has_zero-digits [] h = refl
has_zero-digits (u ∷ r) h = ground (arith, h, has_zero-digits r)

after_last_bracket-none : (s : List ℕ) → has_bracket s ≡ false → after_last_bracket s ≡ none
unfolding has_bracket after_last_bracket
after_last_bracket-none [] h = refl
after_last_bracket-none (u ∷ r) h = ground (arith, h, after_last_bracket-none r)

after_last_bracket-append :
    (host s : List ℕ) → has_bracket s ≡ false → after_last_bracket (host ++ (91 ∷ s)) ≡ some s
unfolding after_last_bracket
after_last_bracket-append [] s h = ground (arith, after_last_bracket-none s h)
after_last_bracket-append (u ∷ host) s h = ground (arith, after_last_bracket-append host s h)

before_bracket-append : (s : List ℕ) → before_bracket (s ++ (93 ∷ [])) ≡ some s
unfolding before_bracket
before_bracket-append [] = refl
before_bracket-append (u ∷ []) = refl
before_bracket-append (u ∷ v ∷ r) = rw (before_bracket-append (v ∷ r)) refl

has_digit : (s : List ℕ) → 1 ≤ length s → is_empty s ≡ false
has_digit [] h = absurd (omega (arith, h))
has_digit (u ∷ r) h = refl

parse_port-show_nat : (n : ℕ) → 1 ≤ n → n < 2 ^ 16 → parse_port (show_nat n) ≡ some n
unfolding parse_port show_nat
parse_port-show_nat n h k =
    rw
      (
        has_digit (show_nat n) (length-digits_of_pos n n),
        all_digits-digits_of (suc n) n,
        read_digits-digits_of (suc n) n (omega arith),
      )
      (ground (arith, h, k))

has_bracket-append : (s : List ℕ) → has_bracket s ≡ false → has_bracket (s ++ (93 ∷ [])) ≡ false
unfolding has_bracket
has_bracket-append [] h = refl
has_bracket-append (u ∷ r) h = ground (arith, h, has_bracket-append r)

-- The address host[port].
abbrev pub address_of : List ℕ → ℕ → List ℕ
address_of host n = host ++ (91 ∷ (show_nat n ++ (93 ∷ [])))

pub binding_port-address_of :
    (host : List ℕ) (n : ℕ) → 1 ≤ n → n < 2 ^ 16 → binding_port 7 (address_of host n) ≡ some n
unfolding binding_port port_text show_nat
binding_port-address_of host n h k =
    let digits = all_digits-digits_of (suc n) n in
    rw
      (
        after_last_bracket-append host (show_nat n ++ (93 ∷ []))
            (has_bracket-append (show_nat n) (has_bracket-digits (show_nat n) digits)),
        before_bracket-append (show_nat n),
      )
      (parse_port-show_nat n h k)

-- The bindings that are no TCP endpoint to use: of another tower; without "["; not ending in "]";
-- with no text, or with a text that is no decimal number, in the last brackets; or with a number
-- there that is 0 or above 65535.
pub data Unusable : ℕ → List ℕ → Type 0 where
  other_tower : {tower : ℕ} {address : List ℕ} → (tower == 7) ≡ false → Unusable tower address
  no_bracket : {tower : ℕ} {address : List ℕ} → has_bracket address ≡ false → Unusable tower address
  no_end :
      {tower : ℕ} {address : List ℕ} (front : List ℕ) (u : ℕ)
      → (u == 93) ≡ false
      → address ≡ front ++ (u ∷ [])
      → Unusable tower address
  no_number :
      {tower : ℕ} {address : List ℕ} (host text : List ℕ)
      → has_bracket text ≡ false
      → (is_empty text || not (all_digits text)) ≡ true
      → address ≡ host ++ (91 ∷ (text ++ (93 ∷ [])))
      → Unusable tower address
  no_port :
      {tower : ℕ} {address : List ℕ} (host : List ℕ) (n : ℕ)
      → (n == 0 || leb (2 ^ 16) n) ≡ true
      → address ≡ address_of host n
      → Unusable tower address

before_bracket-other :
    (s : List ℕ) (u : ℕ) → (u == 93) ≡ false → before_bracket (s ++ (u ∷ [])) ≡ none
unfolding before_bracket
before_bracket-other [] u h = rw h refl
before_bracket-other (v ∷ []) u h = rw h refl
before_bracket-other (v ∷ w ∷ r) u h = rw (before_bracket-other (w ∷ r) u h) refl

port_text-no_end :
    (front : List ℕ) (u : ℕ) (s : List ℕ)
    → (u == 93) ≡ false
    → after_last_bracket (front ++ (u ∷ [])) ≡ some s
    → before_bracket s ≡ none
unfolding after_last_bracket before_bracket
port_text-no_end [] u s h e = ground (arith, h, e)
port_text-no_end (v ∷ front) u s h e =
    elim (Option-cases (after_last_bracket (front ++ (u ∷ [])))) [
      | inr (t, f) ↦ port_text-no_end front u s h (ground (arith, e, f))
      | inl f ↦ elim (Bool-cases (v == 91)) [
        | inl g ↦
            let same : front ++ (u ∷ []) ≡ s = ground (arith, e, f, g) in
            subst (λ t. before_bracket t ≡ none) same (before_bracket-other front u h)
        | inr g ↦ absurd (ground (arith, e, f, g))
      ]
    ]

-- A text in the last brackets.
port_text-brackets :
    (host text : List ℕ)
    → has_bracket text ≡ false
    → port_text (host ++ (91 ∷ (text ++ (93 ∷ [])))) ≡ some text
unfolding port_text
port_text-brackets host text h =
    rw (after_last_bracket-append host (text ++ (93 ∷ [])) (has_bracket-append text h), port_text)
      (before_bracket-append text)

parse_port-no_port : (n : ℕ) → (n == 0 || leb (2 ^ 16) n) ≡ true → parse_port (show_nat n) ≡ none
unfolding parse_port show_nat
parse_port-no_port n h =
    rw
      (
        has_digit (show_nat n) (length-digits_of_pos n n),
        all_digits-digits_of (suc n) n,
        read_digits-digits_of (suc n) n (omega arith),
      )
      (ground (arith, h))

no_text :
    (tower : ℕ) (address : List ℕ) → port_text address ≡ none → binding_port tower address ≡ none
unfolding binding_port
no_text tower address h = elim (Bool-cases (tower == 7)) [
  | inl e ↦ simp (e, h, binding_port) refl
  | inr e ↦ simp (e, binding_port) refl
]

text_without_port :
    (tower : ℕ) (address text : List ℕ)
    → port_text address ≡ some text
    → parse_port text ≡ none
    → binding_port tower address ≡ none
unfolding binding_port
text_without_port tower address text h k = elim (Bool-cases (tower == 7)) [
  | inl e ↦ simp (e, h, k, binding_port) refl
  | inr e ↦ simp (e, binding_port) refl
]

port_text-no_bracket : (a : List ℕ) → has_bracket a ≡ false → port_text a ≡ none
unfolding port_text
port_text-no_bracket a h = rw (after_last_bracket-none a h, port_text) refl

port_text-unended :
    (front : List ℕ) (u : ℕ) → (u == 93) ≡ false → port_text (front ++ (u ∷ [])) ≡ none
unfolding port_text
port_text-unended front u h = elim (Option-cases (after_last_bracket (front ++ (u ∷ [])))) [
  | inl e ↦ rw (e, port_text) refl
  | inr (s, e) ↦ rw (e, port_text) (port_text-no_end front u s h e)
]

not_a_number :
    (text : List ℕ) → (is_empty text || not (all_digits text)) ≡ true → parse_port text ≡ none
unfolding parse_port
not_a_number text h = rw (h, parse_port) refl

pub all_digits-show_nat : (n : ℕ) → all_digits (show_nat n) ≡ true
unfolding show_nat
all_digits-show_nat n = all_digits-digits_of (suc n) n

pub Unusable-no_port :
    {tower : ℕ} {address : List ℕ} → Unusable tower address → binding_port tower address ≡ none
unfolding binding_port
Unusable-no_port {tower} {address} (other_tower e) = simp (e, binding_port) refl
Unusable-no_port {tower} {address} (no_bracket e) =
    no_text tower address (port_text-no_bracket address e)
Unusable-no_port {tower} {address} (no_end front u e k) =
    no_text tower address (ap port_text k ∙ port_text-unended front u e)
Unusable-no_port {tower} {address} (no_number host text h k e) =
    text_without_port tower address text (ap port_text e ∙ port_text-brackets host text h)
      (not_a_number text k)
Unusable-no_port {tower} {address} (no_port host n h e) =
    text_without_port tower address (show_nat n)
      (ap port_text e
        ∙ port_text-brackets host (show_nat n)
            (has_bracket-digits (show_nat n) (all_digits-show_nat n)))
      (parse_port-no_port n h)

pub has_zero-append :
    (s t : List ℕ) → has_zero s ≡ false → has_zero t ≡ false → has_zero (s ++ t) ≡ false
unfolding has_zero
has_zero-append [] t h k = k
has_zero-append (u ∷ r) t h k = ground (arith, h, k, has_zero-append r t)
