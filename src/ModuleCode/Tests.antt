-- ===== src/ModuleCode/Tests.antt =====
-- Codes of module 3.
use million.Prelude.{◌≡◌, refl}
use million.ModuleCode.{encode_module_code, encode_enum_code, module_code_invalid}

code_of_three : encode_module_code 3 2 ≡ 0x30002
unfolding encode_module_code
code_of_three = refl

code_of_enum : encode_enum_code 65539 2 ≡ 0x30002
unfolding encode_enum_code encode_module_code
code_of_enum = refl

sub_code_too_large : encode_enum_code 3 65536 ≡ module_code_invalid
unfolding encode_enum_code
sub_code_too_large = refl
