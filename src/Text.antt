-- ===== src/Text.antt =====
-- unicode/utf8 and unicode/utf16 as the library uses them, and validateItemID (opcda.go).
use gopcda.Prelude.{
  ℕ, zero, suc, ◌+◌, Bool, true, false, not, ◌&&◌, ◌||◌, Option, none, some, [], ◌∷◌, leb, ltb,
  ◌==◌, if◌then◌else◌,
}
use gopcda.Prelude.Bytes.{Bytes, contains_byte}
use gopcda.Errors.{Error, message}

-- What must follow the first byte of an encoded rune: how many bytes, and the range of the first.
pub record Expect : Type 0 where
  pub more : ℕ
  pub low : ℕ
  pub high : ℕ

abbrev in_range : ℕ → ℕ → ℕ → Bool
in_range low high b = leb low b && leb b high

first_byte : ℕ → Option Expect
first_byte b =
    if ltb b 0x80
    then some (record { more = 0; low = 0x80; high = 0xbf })
    else if in_range 0xc2 0xdf b
    then some (record { more = 1; low = 0x80; high = 0xbf })
    else if b == 0xe0
    then some (record { more = 2; low = 0xa0; high = 0xbf })
    else if b == 0xed
    then some (record { more = 2; low = 0x80; high = 0x9f })
    else if in_range 0xe1 0xef b
    then some (record { more = 2; low = 0x80; high = 0xbf })
    else if b == 0xf0
    then some (record { more = 3; low = 0x90; high = 0xbf })
    else if in_range 0xf1 0xf3 b
    then some (record { more = 3; low = 0x80; high = 0xbf })
    else if b == 0xf4
    then some (record { more = 3; low = 0x80; high = 0x8f })
    else none

valid_after : ℕ → ℕ → ℕ → Bytes → Bool
valid_after zero low high [] = true
valid_after (suc n) low high [] = false
valid_after (suc n) low high (b ∷ r) = in_range low high b && valid_after n 0x80 0xbf r
valid_after zero low high (b ∷ r) = elim (first_byte b) [
  | none ↦ false
  | some e ↦ valid_after e.more e.low e.high r
]

-- utf8.ValidString
unfoldable pub valid_utf8 : Bytes → Bool
unfolding valid_after first_byte
valid_utf8 s = valid_after 0 0x80 0xbf s

-- len(utf16.Encode([]rune(s))) of a valid string: a rune that begins at 0xf0 or above takes two.
unfoldable pub utf16_length : Bytes → ℕ
utf16_length [] = 0
utf16_length (b ∷ r) =
    (if in_range 0x80 0xbf b then 0 else if leb 0xf0 b then 2 else 1) + utf16_length r

-- validateItemID
unfoldable pub validate_item_id : Bytes → Option Error
unfolding valid_utf8 contains_byte
validate_item_id [] = some (message "opcda: ItemID must be nonempty valid UTF-8 without NUL")
validate_item_id (b ∷ r) =
    if contains_byte 0 (b ∷ r) || not (valid_utf8 (b ∷ r))
    then some (message "opcda: ItemID must be nonempty valid UTF-8 without NUL")
    else none
