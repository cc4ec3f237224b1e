-- ===== src/Endpoint.antt =====
-- dcom.go: extractTCPPort, which finds the object port in the bindings of an activation. A binding is
-- a tower, the UTF-16 units of an address, and a zero. The units stand for themselves: those that the
-- port is read from are below 0x80, where a unit is the byte of its rune.
pub mod Range
pub mod Addresses
pub mod Bindings
pub mod Examples
use gopcda.Prelude.{
  ℕ, zero, suc, ◌+◌, ◌*◌, ◌-◌, ◌^◌, Bool, true, false, not, ◌&&◌, ◌||◌, Option, none, some, List,
  [], ◌∷◌, ◌++◌, length, take, ltb, leb, ◌==◌, if◌then◌else◌,
}
use gopcda.Errors.{Error, message}
use gopcda.Result.{Result, ok, err}
use gopcda.Decimals.{all_digits, read_digits}

-- dcom.DualStringArray
pub record DualStringArray : Type 0 where
  pub security_offset : ℕ
  pub string_array : List ℕ

-- ncacnIPTCP
abbrev pub tcp_tower : ℕ
tcp_tower = 7

-- The part behind strings.LastIndexByte(address, '['); none for a negative index.
unfoldable pub after_last_bracket : List ℕ → Option (List ℕ)
after_last_bracket [] = none
after_last_bracket (u ∷ r) =
    let rest = after_last_bracket r in
    elim rest [ some s ↦ some s | none ↦ if u == 91 then some r else none ]

abbrev prefixed : ℕ → Option (List ℕ) → Option (List ℕ)
prefixed u none = none
prefixed u (some s) = some (u ∷ s)

-- A text that ends with "]", without it.
unfoldable pub before_bracket : List ℕ → Option (List ℕ)
before_bracket [] = none
before_bracket (u ∷ []) = if u == 93 then some [] else none
before_bracket (u ∷ v ∷ r) = prefixed u (before_bracket (v ∷ r))

-- address[left+1 : len(address)-1]
unfoldable pub port_text : List ℕ → Option (List ℕ)
unfolding after_last_bracket before_bracket
port_text address = elim (after_last_bracket address) [ none ↦ none | some s ↦ before_bracket s ]

abbrev pub is_empty : List ℕ → Bool
is_empty [] = true
is_empty (u ∷ r) = false

-- strconv.ParseUint(port, 10, 16), and n > 0.
unfoldable pub parse_port : List ℕ → Option ℕ
unfolding all_digits read_digits
parse_port text =
    if is_empty text || not (all_digits text)
    then none
    else if leb (2 ^ 16) (read_digits 0 text)
    then none
    else if read_digits 0 text == 0
    then none
    else some (read_digits 0 text)

-- The port of one binding, if it is a usable TCP endpoint.
unfoldable pub binding_port : ℕ → List ℕ → Option ℕ
unfolding port_text parse_port
binding_port tower address =
    if not (tower == tcp_tower)
    then none
    else elim (port_text address) [ none ↦ none | some text ↦ parse_port text ]

abbrev no_endpoint : Result ℕ
no_endpoint = err (message "no usable TCP object endpoint in activation bindings")

-- The loops over the units, before a binding or inside one with its tower and the units so far.
unfoldable pub scan : Option (ℕ × List ℕ) → List ℕ → Result ℕ
unfolding binding_port
scan none [] = no_endpoint
scan none (u ∷ r) = let inside = scan (some (u, [])) r in if u == 0 then no_endpoint else inside
scan (some (tower, address)) [] = err (message "unterminated string binding")
scan (some (tower, address)) (u ∷ r) =
    let outside = scan none r in
    let inside = scan (some (tower, address ++ (u ∷ []))) r in
    if not (u == 0)
    then inside
    else elim (binding_port tower address) [ some port ↦ ok port | none ↦ outside ]

-- extractTCPPort: the port that it prints.
unfoldable pub extract_tcp_port : Option DualStringArray → Result ℕ
unfolding scan
extract_tcp_port none = err (message "missing or invalid string bindings")
extract_tcp_port (some b) =
    if b.security_offset == 0 || ltb (length b.string_array) b.security_offset
    then err (message "missing or invalid string bindings")
    else scan none (take b.security_offset b.string_array)
