-- ===== src/Endpoint/Bindings.antt =====
-- The port that extractTCPPort (dcom.go) finds.
use mathlib.Core.List.{append-nil, append_assoc}
use gopcda.Prelude.{
  ℕ, suc, ◌^◌, ◌≤◌, ◌<◌, ◌≡◌, refl, ap, ◌∙◌, false, ◌||◌, Option, none, some, List, [], ◌∷◌, ◌++◌,
  length, length-append, take, ltb, ◌==◌, arith, Option-cases, inl, inr, All,
}
use gopcda.Result.{Result, ok}
use gopcda.Decimals.{show_nat}
use gopcda.Decimals.Digits.{all_digits-digits_of}
use gopcda.Endpoint.{binding_port, scan, extract_tcp_port}
use gopcda.Endpoint.Range.{extract-scan}
use gopcda.Endpoint.Addresses.{
  has_zero, has_zero-append, has_zero-digits, address_of, binding_port-address_of, Unusable,
  Unusable-no_port,
}

abbrev settled : Option ℕ → Result ℕ → Result ℕ
settled (some port) rest = ok port
settled none rest = rest

scan-inside :
    (tower u : ℕ) (address r : List ℕ)
    → (u == 0) ≡ false
    → scan (some (tower, address)) (u ∷ r) ≡ scan (some (tower, address ++ (u ∷ []))) r
unfolding scan
scan-inside tower u address r e = rw e refl

scan-end :
    (tower : ℕ) (address r : List ℕ)
    → scan (some (tower, address)) (0 ∷ r) ≡ settled (binding_port tower address) (scan none r)
unfolding scan
scan-end tower address r = elim (Option-cases (binding_port tower address)) [
  | inl e ↦ rw e refl
  | inr (p, e) ↦ rw e refl
]

-- A whole binding is read up to its zero.
scan-binding :
    (tower : ℕ) (address s r : List ℕ)
    → has_zero s ≡ false
    → scan (some (tower, address)) (s ++ (0 ∷ r))
      ≡ settled (binding_port tower (address ++ s)) (scan none r)
unfolding has_zero
scan-binding tower address [] r h = rw (append-nil address) (scan-end tower address r)
scan-binding tower address (u ∷ s) r h =
    scan-inside tower u address (s ++ (0 ∷ r)) (ground (arith, h))
    ∙ (scan-binding tower (address ++ (u ∷ [])) s r (ground (arith, h))
        ∙ ap (λ a. settled (binding_port tower a) (scan none r)) (append_assoc address (u ∷ []) s))

-- A binding that is passed over, as bindings are encoded.
abbrev pub IsPassed : ℕ × List ℕ → Type 0
IsPassed b = ((b.0 == 0) ≡ false) × (has_zero b.1 ≡ false) × Unusable b.0 b.1

unfoldable pub encode : List (ℕ × List ℕ) → List ℕ → List ℕ
encode [] rest = rest
encode ((tower, address) ∷ bindings) rest = tower ∷ (address ++ (0 ∷ encode bindings rest))

scan-outside :
    (tower : ℕ) (r : List ℕ)
    → (tower == 0) ≡ false
    → scan none (tower ∷ r) ≡ scan (some (tower, [])) r
unfolding scan
scan-outside tower r e = rw e refl

scan-encode :
    (bindings : List (ℕ × List ℕ)) (rest : List ℕ)
    → All IsPassed bindings
    → scan none (encode bindings rest) ≡ scan none rest
unfolding encode
scan-encode [] rest h = refl
scan-encode ((tower, address) ∷ bindings) rest h =
    scan-outside tower (address ++ (0 ∷ encode bindings rest)) (h.0.0)
    ∙ (scan-binding tower [] address (encode bindings rest) (h.0.1)
        ∙ (ap (λ p. settled p (scan none (encode bindings rest))) (Unusable-no_port (h.0.2))
            ∙ scan-encode bindings rest (h.1)))

address_nonzero : (n : ℕ) → has_zero (91 ∷ (show_nat n ++ (93 ∷ []))) ≡ false
unfolding has_zero show_nat
address_nonzero n =
    has_zero-append (show_nat n) (93 ∷ [])
      (has_zero-digits (show_nat n) (all_digits-digits_of (suc n) n)) refl

scan-address_of :
    (bindings : List (ℕ × List ℕ)) (host : List ℕ) (n : ℕ) (rest : List ℕ)
    → All IsPassed bindings
    → has_zero host ≡ false
    → 1 ≤ n
    → n < 2 ^ 16
    → scan none (encode bindings (encode ((7, address_of host n) ∷ []) rest)) ≡ ok n
unfolding encode
scan-address_of bindings host n rest h z k l =
    let nonzero = has_zero-append host (91 ∷ (show_nat n ++ (93 ∷ []))) z (address_nonzero n) in
    scan-encode bindings (encode ((7, address_of host n) ∷ []) rest) h
    ∙ (scan-outside 7 (address_of host n ++ (0 ∷ rest)) refl
        ∙ (scan-binding 7 [] (address_of host n) rest nonzero
            ∙ ap (λ p. settled p (scan none rest)) (binding_port-address_of host n k l)))

take-append : (s t : List ℕ) → take (length s) (s ++ t) ≡ s
take-append [] t = refl
take-append (u ∷ s) t = rw (take-append s t) refl

offset_fits :
    (s t : List ℕ) → 1 ≤ length s → (length s == 0 || ltb (length (s ++ t)) (length s)) ≡ false
offset_fits s t h = rw (length-append s t) (ground (arith, h))

length-encode :
    (bindings : List (ℕ × List ℕ)) (rest : List ℕ)
    → 1 ≤ length rest
    → 1 ≤ length (encode bindings rest)
unfolding encode
length-encode [] rest h = h
length-encode ((tower, address) ∷ bindings) rest h = omega arith

-- extractTCPPort gives the port n when the units before the security bindings are any bindings of
-- another tower, without a port in brackets at the end, or with a port that is no number from 1 to
-- 65535, then one of the TCP tower with the address host[n], then any units; n is any number from 1
-- to 65535, and the host any units other than zero.
pub extract_tcp_port-address_of :
    (bindings : List (ℕ × List ℕ)) (host : List ℕ) (n : ℕ) (rest security : List ℕ)
    → All IsPassed bindings
    → has_zero host ≡ false
    → 1 ≤ n
    → n < 2 ^ 16
    → let units = encode bindings (encode ((7, address_of host n) ∷ []) rest) in
      extract_tcp_port
        (some (record { security_offset = length units; string_array = units ++ security }))
      ≡ ok n
unfolding encode
extract_tcp_port-address_of bindings host n rest security h z k l =
    let units = encode bindings (encode ((7, address_of host n) ∷ []) rest) in
    extract-scan (record { security_offset = length units; string_array = units ++ security })
      (offset_fits units security (length-encode bindings _ (omega arith)))
    ∙ (ap (scan none) (take-append units security) ∙ scan-address_of bindings host n rest h z k l)
