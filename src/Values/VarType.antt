-- ===== src/Values/VarType.antt =====
-- vartype.go: the VARTYPE constants, and the flag arithmetic on a uint16 VARTYPE.
use gopcda.Prelude.{ℕ, ◌+◌, ◌-◌, ◌/◌, ◌%◌, Bool, ◌==◌, if◌then◌else◌}

abbrev pub vt_empty : ℕ
vt_empty = 0x00

abbrev pub vt_null : ℕ
vt_null = 0x01

abbrev pub vt_i2 : ℕ
vt_i2 = 0x02

abbrev pub vt_i4 : ℕ
vt_i4 = 0x03

abbrev pub vt_r4 : ℕ
vt_r4 = 0x04

abbrev pub vt_r8 : ℕ
vt_r8 = 0x05

abbrev pub vt_cy : ℕ
vt_cy = 0x06

abbrev pub vt_date : ℕ
vt_date = 0x07

abbrev pub vt_bstr : ℕ
vt_bstr = 0x08

abbrev pub vt_dispatch : ℕ
vt_dispatch = 0x09

abbrev pub vt_error : ℕ
vt_error = 0x0a

abbrev pub vt_bool : ℕ
vt_bool = 0x0b

abbrev pub vt_variant : ℕ
vt_variant = 0x0c

abbrev pub vt_unknown : ℕ
vt_unknown = 0x0d

abbrev pub vt_decimal : ℕ
vt_decimal = 0x0e

abbrev pub vt_i1 : ℕ
vt_i1 = 0x10

abbrev pub vt_ui1 : ℕ
vt_ui1 = 0x11

abbrev pub vt_ui2 : ℕ
vt_ui2 = 0x12

abbrev pub vt_ui4 : ℕ
vt_ui4 = 0x13

abbrev pub vt_i8 : ℕ
vt_i8 = 0x14

abbrev pub vt_ui8 : ℕ
vt_ui8 = 0x15

abbrev pub vt_int : ℕ
vt_int = 0x16

abbrev pub vt_uint : ℕ
vt_uint = 0x17

abbrev pub vt_record : ℕ
vt_record = 0x24

abbrev pub vt_array : ℕ
vt_array = 0x2000

abbrev pub vt_byref : ℕ
vt_byref = 0x4000

-- vt & flag != 0, for a flag of one bit.
abbrev pub has_flag : ℕ → ℕ → Bool
has_flag flag vt = vt / flag % 2 == 1

-- vt &^ flag
abbrev pub clear_flag : ℕ → ℕ → ℕ
clear_flag flag vt = if has_flag flag vt then vt - flag else vt

-- vt | flag
abbrev pub set_flag : ℕ → ℕ → ℕ
set_flag flag vt = if has_flag flag vt then vt else vt + flag
