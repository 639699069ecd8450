-- ===== src/ModuleCode.antt =====
-- million/include/million/module_def.h: a 32-bit code of a module id and a code within the module.
mod Tests
use million.Prelude.{
  ltb, if◌then◌else◌, ◌≤◌, ℕ, ◌+◌, ◌*◌, ◌/◌, ◌%◌, ◌^◌, ◌<◌, ◌≤◌, ◌≡◌, arith, bit_and, bit_or,
}
use million.Prelude.Bits.{bit_or_disjoint, bit_and_mask}

abbrev pub module_code_invalid : ℕ
module_code_invalid = 0

-- EncodeModuleCode(module_id, sub_code).
unfoldable pub encode_module_code : ℕ → ℕ → ℕ
encode_module_code module_id sub_code =
    bit_or (module_id * 2 ^ 16 % 2 ^ 32) (bit_and sub_code 0xffff)

-- EncodeModuleCode(module_ext_id, enum_descriptor, sub_code), with the extension's value.
unfoldable pub encode_enum_code : ℕ → ℕ → ℕ
encode_enum_code extension sub_code =
    if ltb 65535 sub_code
    then module_code_invalid
    else encode_module_code (extension % 2 ^ 16) sub_code

-- DecodeModuleCode(module_code).
unfoldable pub decode_module_code : ℕ → ℕ × ℕ
decode_module_code module_code = (module_code / 2 ^ 16 % 2 ^ 16, bit_and module_code 0xffff)

pub encode_module_code_sum :
    (module_id sub_code : ℕ)
    → module_id < 2 ^ 16
    → sub_code < 2 ^ 16
    → encode_module_code module_id sub_code ≡ module_id * 2 ^ 16 + sub_code
unfolding encode_module_code
encode_module_code_sum module_id sub_code h k =
    let m : module_id * 2 ^ 16 % 2 ^ 32 ≡ module_id * 2 ^ 16 = omega arith in
    let s : bit_and sub_code 0xffff ≡ sub_code = omega (arith, bit_and_mask 16 sub_code) in
    rw (m, s) (bit_or_disjoint 16 module_id sub_code k)

-- Ids and sub codes of 16 bits are read back from their code, which fits 32 bits.
pub decode-encode :
    (module_id sub_code : ℕ)
    → module_id < 2 ^ 16
    → sub_code < 2 ^ 16
    → (decode_module_code (encode_module_code module_id sub_code) ≡ (module_id, sub_code))
      × (encode_module_code module_id sub_code < 2 ^ 32)
unfolding decode_module_code
decode-encode module_id sub_code h k = ground (
  arith,
  encode_module_code_sum module_id sub_code h k,
  bit_and_mask 16 (encode_module_code module_id sub_code),
)

-- A code of 32 bits is that of the two ids that it is read as.
pub encode-decode :
    (code : ℕ)
    → code < 2 ^ 32
    → encode_module_code (decode_module_code code).0 (decode_module_code code).1 ≡ code
unfolding decode_module_code
encode-decode code h = ground (
  arith,
  bit_and_mask 16 code,
  encode_module_code_sum (code / 2 ^ 16 % 2 ^ 16) (bit_and code 0xffff) (omega arith)
      (omega (arith, bit_and_mask 16 code)),
)
