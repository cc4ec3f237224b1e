-- ===== src/Quality.antt =====
-- quality.go and the quality constants of opcda.go. A quality is an int16; its bits are those of
-- the uint16 with the same representation.
use gopcda.Prelude.{
  ℕ, zero, suc, ◌+◌, ◌*◌, ◌/◌, ◌%◌, ◌^◌, ◌<◌, ◌≡◌, refl, ap, ◌∙◌, String, Bool, true, ◌&&◌, List,
  [], ◌∷◌, arith, ◌==◌, if◌then◌else◌,
}
use text.Mathlib.Text.{◌==◌ as str_eq}
use text.Mathlib.TextEquality.{eq_iff}
use gopcda.Prelude.Int.{ℤ, to_unsigned}

abbrev word : ℤ → ℕ
word q = to_unsigned (2 ^ 15) q

-- uint16(q) & 0xfc and q & QualityMask
unfoldable pub status_bits : ℤ → ℕ
status_bits q = word q / 4 % 64 * 4

unfoldable pub class_bits : ℤ → ℕ
class_bits q = word q / 64 % 4 * 64

unfoldable pub quality_is_good : ℤ → Bool
unfolding class_bits
quality_is_good q = class_bits q == 0xc0

unfoldable pub quality_is_bad : ℤ → Bool
unfolding class_bits
quality_is_bad q = class_bits q == 0

unfoldable pub quality_is_uncertain : ℤ → Bool
unfolding class_bits
quality_is_uncertain q = class_bits q == 0x40

-- The second switch of QualityDescription.
unfoldable pub class_description : ℤ → String
unfolding quality_is_good quality_is_bad quality_is_uncertain
class_description q =
    if quality_is_good q
    then "Good"
    else if quality_is_bad q
    then "Bad"
    else if quality_is_uncertain q
    then "Uncertain"
    else "Reserved quality"

unfoldable pub quality_description : ℤ → String
unfolding status_bits class_description
quality_description q =
    let s = status_bits q in
    if s == 0x00
    then "Bad (non-specific)"
    else if s == 0x04
    then "Bad (configuration error)"
    else if s == 0x08
    then "Bad (not connected)"
    else if s == 0x0c
    then "Bad (device failure)"
    else if s == 0x10
    then "Bad (sensor failure)"
    else if s == 0x14
    then "Bad (last known value)"
    else if s == 0x18
    then "Bad (communication failure)"
    else if s == 0x1c
    then "Bad (out of service)"
    else if s == 0x20
    then "Bad (waiting for initial value)"
    else if s == 0x44
    then "Uncertain (last usable value)"
    else if s == 0x50
    then "Uncertain (sensor not accurate)"
    else if s == 0x54
    then "Uncertain (engineering units exceeded)"
    else if s == 0x58
    then "Uncertain (sub-normal)"
    else if s == 0xd8
    then "Good (local override)"
    else class_description q

same_class : (q r : ℤ) → status_bits q ≡ status_bits r → class_bits q ≡ class_bits r
unfolding status_bits class_bits
same_class q r h = omega arith

same_description :
    (q r : ℤ) → status_bits q ≡ status_bits r → quality_description q ≡ quality_description r
unfolding quality_description class_description quality_is_good quality_is_bad quality_is_uncertain
same_description q r h = rw (h, same_class q r h) refl

-- The table in the comment of quality.go, by class and sub-status.
abbrev text_or : String → List String → ℕ → String
text_or other [] i = other
text_or other (t ∷ ts) zero = t
text_or other (t ∷ ts) (suc i) = text_or other ts i

abbrev pub standard_text : ℕ → ℕ → String
standard_text zero s =
    text_or "Bad"
      ("Bad (non-specific)" ∷ "Bad (configuration error)" ∷ "Bad (not connected)"
        ∷ "Bad (device failure)" ∷ "Bad (sensor failure)" ∷ "Bad (last known value)"
        ∷ "Bad (communication failure)" ∷ "Bad (out of service)" ∷ "Bad (waiting for initial value)"
        ∷ [])
      s
standard_text (suc zero) s =
    text_or "Uncertain"
      ("Uncertain" ∷ "Uncertain (last usable value)" ∷ "Uncertain" ∷ "Uncertain"
        ∷ "Uncertain (sensor not accurate)" ∷ "Uncertain (engineering units exceeded)"
        ∷ "Uncertain (sub-normal)" ∷ [])
      s
standard_text (suc (suc zero)) s = "Reserved quality"
standard_text (suc (suc (suc c))) s =
    text_or "Good"
      ("Good" ∷ "Good" ∷ "Good" ∷ "Good" ∷ "Good" ∷ "Good" ∷ "Good (local override)" ∷ []) s

all_below : ℕ → (ℕ → Bool) → Bool
all_below zero p = true
all_below (suc n) p = p n && all_below n p

at_below : (k n : ℕ) (p : ℕ → Bool) → all_below k p ≡ true → n < k → p n ≡ true
unfolding all_below
at_below zero n p h l = absurd (omega (arith, l))
at_below (suc k) n p h l = ground (arith, h, l, at_below k n p)

says_standard : ℕ → Bool
unfolding quality_description
says_standard n = str_eq (quality_description (ℤ.pos (n * 4))) (standard_text (n / 16) (n % 16))

standard_qualities : all_below 64 says_standard ≡ true
unfolding all_below says_standard
standard_qualities = refl

standard_description :
    (n : ℕ) → n < 64 → quality_description (ℤ.pos (n * 4)) ≡ standard_text (n / 16) (n % 16)
unfolding says_standard
standard_description n l = (eq_iff _ _).0 (at_below 64 n says_standard standard_qualities l)

class_of : (c s : ℕ) → s < 16 → (c * 16 + s) / 16 ≡ c
class_of c s h = omega (arith, h)

sub_status_of : (c s : ℕ) → s < 16 → (c * 16 + s) % 16 ≡ s
sub_status_of c s h = omega (arith, h)

module _ (v c s l : ℕ) (q : ℤ) (w : to_unsigned (2 ^ 15) q ≡ v * 256 + c * 64 + s * 4 + l)
    (hc : c < 4) (hs : s < 16) (hl : l < 4) where
  same_bits : status_bits q ≡ status_bits (ℤ.pos ((c * 16 + s) * 4))
  unfolding status_bits
  same_bits = rw w (omega (arith, hc, hs, hl))

  class_of_word : class_bits q ≡ c * 64
  unfolding class_bits
  class_of_word = rw w (omega (arith, hc, hs, hl))

class_test : (n k : ℕ) → (n * 64 == k * 64) ≡ (n == k)
class_test n k = ground arith

-- A quality word with the vendor bits v, the class c, the sub-status s and the limit bits l has the
-- text of the table for c and s, whatever v and l are: one for each standard sub-status, and the
-- name of the class for the others. It is Good, Bad or Uncertain exactly if c is 3, 0 or 1.
pub quality_description-bits :
    (v c s l : ℕ) (q : ℤ)
    → to_unsigned (2 ^ 15) q ≡ v * 256 + c * 64 + s * 4 + l
    → c < 4
    → s < 16
    → l < 4
    → (quality_description q ≡ standard_text c s)
      × (quality_is_good q ≡ (c == 3))
      × (quality_is_bad q ≡ (c == 0))
      × (quality_is_uncertain q ≡ (c == 1))
unfolding quality_is_good quality_is_bad quality_is_uncertain
quality_description-bits v c s l q w hc hs hl =
    let n = c * 16 + s in
    let class = class_of_word v c s l q w hc hs hl in
    (
      same_description q (ℤ.pos (n * 4)) (same_bits v c s l q w hc hs hl)
          ∙ (standard_description n (omega (arith, hc, hs))
              ∙ (ap (λ (k : ℕ). standard_text k (n % 16)) (class_of c s hs)
                  ∙ ap (standard_text c) (sub_status_of c s hs))),
      rw class (class_test c 3),
      rw class (class_test c 0),
      rw class (class_test c 1),
    )
