-- ===== src/Endpoint/Range.antt =====
-- The numbers that extractTCPPort (dcom.go) can give.
use gopcda.Prelude.{
  ℕ, ◌^◌, ◌≤◌, ◌<◌, ◌≡◌, refl, sym, ◌∙◌, true, false, ◌||◌, Option, none, some, List, [], ◌∷◌, ◌++◌,
  length, take, ltb, ◌==◌, arith, Bool-cases, Option-cases, inl, inr,
}
use gopcda.Errors.{Error, message}
use gopcda.Result.{ok, err}
use gopcda.Endpoint.{
  DualStringArray, tcp_tower, port_text, parse_port, binding_port, scan, extract_tcp_port,
}

parse_port-range : (s : List ℕ) (n : ℕ) → parse_port s ≡ some n → (1 ≤ n) × (n < 2 ^ 16)
unfolding parse_port
parse_port-range s n h = (ground (arith, h), ground (arith, h))

binding_port-range :
    (tower : ℕ) (address : List ℕ) (n : ℕ)
    → binding_port tower address ≡ some n
    → (1 ≤ n) × (n < 2 ^ 16)
unfolding binding_port
binding_port-range tower address n h = elim (Bool-cases (tower == tcp_tower)) [
  | inr e ↦ absurd (ground (arith, e, h))
  | inl e ↦ elim (Option-cases (port_text address)) [
    | inl f ↦ absurd (ground (arith, e, f, h))
    | inr (s, f) ↦ parse_port-range s n (ground (arith, e, f, h))
  ]
]

scan-range :
    (mode : Option (ℕ × List ℕ)) (s : List ℕ) (n : ℕ) → scan mode s ≡ ok n → (1 ≤ n) × (n < 2 ^ 16)
unfolding scan
scan-range none [] n h = cc
scan-range none (u ∷ r) n h = elim (Bool-cases (u == 0)) [
  | inl e ↦ absurd (ground (arith, e, h))
  | inr e ↦ scan-range (some (u, [])) r n (ground (arith, e, h))
]
scan-range (some (tower, address)) [] n h = cc
scan-range (some (tower, address)) (u ∷ r) n h = elim (Bool-cases (u == 0)) [
  | inr e ↦ scan-range (some (tower, address ++ (u ∷ []))) r n (ground (arith, e, h))
  | inl e ↦ elim (Option-cases (binding_port tower address)) [
    | inl f ↦ scan-range none r n (ground (arith, e, f, h))
    | inr (p, f) ↦ binding_port-range tower address n (f ∙ ground (arith, e, f, h))
  ]
]

not_refused : {e : Error} {n : ℕ} → err e ≡ ok n → ⊥
not_refused h = cc

offset_in : (offset l : ℕ) → (offset == 0 || ltb l offset) ≡ false → (1 ≤ offset) × (offset ≤ l)
offset_in offset l e = (ground (arith, e), ground (arith, e))

extract-refused :
    (b : DualStringArray)
    → (b.security_offset == 0 || ltb (length b.string_array) b.security_offset) ≡ true
    → extract_tcp_port (some b) ≡ err (message "missing or invalid string bindings")
unfolding extract_tcp_port
extract-refused b e = rw e refl

pub extract-scan :
    (b : DualStringArray)
    → (b.security_offset == 0 || ltb (length b.string_array) b.security_offset) ≡ false
    → extract_tcp_port (some b) ≡ scan none (take b.security_offset b.string_array)
unfolding extract_tcp_port
extract-scan b e = rw e refl

-- The port that extractTCPPort finds is a number from 1 to 65535, and the offset of the security
-- bindings is inside the array.
pub extract_tcp_port-range :
    (b : DualStringArray) (n : ℕ)
    → extract_tcp_port (some b) ≡ ok n
    → (1 ≤ n) × (n < 2 ^ 16) × (1 ≤ b.security_offset) × (b.security_offset ≤ length b.string_array)
unfolding extract_tcp_port
extract_tcp_port-range b n h =
    elim (Bool-cases (b.security_offset == 0 || ltb (length b.string_array) b.security_offset)) [
      | inl e ↦ absurd (not_refused (sym (extract-refused b e) ∙ h))
      | inr e ↦
          let range =
            scan-range none (take b.security_offset b.string_array) n
              (sym (extract-scan b e) ∙ h) in
          let offset = offset_in b.security_offset (length b.string_array) e in
          (range.0, range.1, offset.0, offset.1)
    ]
