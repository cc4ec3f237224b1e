-- ===== src/Endpoint/Examples.antt =====
-- The theorems on activation bindings at concrete inputs.
use gopcda.Prelude.{◌≤◌, ◌<◌, ◌^◌, ◌≡◌, refl, some, [], ◌∷◌, ◌++◌, length, arith}
use gopcda.Result.{ok}
use gopcda.Decimals.{read_digits, all_digits}
use gopcda.Endpoint.{DualStringArray, parse_port, port_text, binding_port, scan, extract_tcp_port}
use gopcda.Endpoint.Range.{extract_tcp_port-range}
use gopcda.Endpoint.Addresses.{has_zero, address_of, other_tower}
use gopcda.Endpoint.Bindings.{encode, extract_tcp_port-address_of}

-- A binding of another tower, then h[49] in the TCP tower, then a security binding.
abbrev bindings : DualStringArray
bindings = record {
  security_offset = 10;
  string_array = 15 ∷ 104 ∷ 0 ∷ 7 ∷ 104 ∷ 91 ∷ 52 ∷ 57 ∷ 93 ∷ 0 ∷ 0 ∷ 10 ∷ 0 ∷ [];
}

extract_tcp_port-range_example :
    (1 ≤ 49)
    × (49 < 2 ^ 16)
    × (1 ≤ bindings.security_offset)
    × (bindings.security_offset ≤ length bindings.string_array)
unfolding extract_tcp_port scan binding_port port_text parse_port all_digits read_digits
extract_tcp_port-range_example = extract_tcp_port-range bindings 49 refl

extract_tcp_port-address_of_example :
    let units =
      encode ((15, 104 ∷ []) ∷ []) (encode ((7, address_of (104 ∷ []) 135) ∷ []) (9 ∷ [])) in
    extract_tcp_port
      (some (record { security_offset = length units; string_array = units ++ (10 ∷ []) }))
    ≡ ok 135
unfolding has_zero
extract_tcp_port-address_of_example =
    extract_tcp_port-address_of ((15, 104 ∷ []) ∷ []) (104 ∷ []) 135 (9 ∷ []) (10 ∷ [])
      ((refl, refl, other_tower refl), tt) refl (omega arith) (omega arith)
