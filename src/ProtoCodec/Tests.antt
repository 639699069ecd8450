-- ===== src/ProtoCodec/Tests.antt =====
-- Messages that are a type and the bytes of a body, and a file with two of them.
use million.Prelude.{ℕ, ◌≡◌, refl, true, some, none, List, [], ◌∷◌, arith}
use million.Prelude.Maps.{find, emplace, contains}
use million.ModuleCode.{encode_module_code}
use million.ProtoCodec.{
  Protobuf, ProtoCodec, FileDescriptor, find_module_id, register_file, register_message,
  register_messages, encode_message, decode_message, find_message_id, find_message_key,
  host_to_network_u32, network_to_host_u32, store_u32,
}
use million.ProtoCodec.Registry.{
  IsRegistry, message_keys, fresh_keys, elem, register_file-IsRegistry,
}
use million.ProtoCodec.RoundTrip.{decode_message-encode_message}

abbrev tagged : Protobuf
tagged = record {
  Msg = ℕ × List ℕ;
  descriptor = λ m. m.0;
  serialize = λ m. m.1;
  parse = λ desc body. some (desc, body);
  has_prototype = λ desc. true;
}

abbrev file : FileDescriptor
file = record {
  enum_types = record { module_id = none } ∷ record { module_id = some 3 } ∷ [];
  message_types =
      record { address = 100; msg_id = some 1 }
      ∷ record { address = 101; msg_id = none }
      ∷ record { address = 102; msg_id = some 2 }
      ∷ [];
}

abbrev empty : ProtoCodec
empty = record { msg_desc_map = []; msg_id_map = [] }

abbrev registry : ProtoCodec
registry = (register_file (some file) empty).1

empty-IsRegistry : IsRegistry empty
unfolding IsRegistry find
empty-IsRegistry desc key e = ground arith

registered-IsRegistry :
    ((register_file (some file) empty).0 ≡ true) × IsRegistry (register_file (some file) empty).1
unfolding find_module_id message_keys fresh_keys elem contains encode_module_code
registered-IsRegistry = register_file-IsRegistry file 3 empty empty-IsRegistry refl refl

decode_message-encode_message_example :
    (ids : ℕ × ℕ) × (find_message_id tagged (102, 7 ∷ []) registry ≡ some ids)
    × (decode_message tagged (0 ∷ 3 ∷ 0 ∷ 2 ∷ 7 ∷ []) registry
        ≡ some (record { module_id = ids.0; msg_id = ids.1; msg = (102, 7 ∷ []) }))
unfolding encode_message find_message_key find emplace register_file register_messages
    register_message find_module_id encode_module_code store_u32 host_to_network_u32
    network_to_host_u32
decode_message-encode_message_example =
    decode_message-encode_message tagged (102, 7 ∷ []) registry (0 ∷ 3 ∷ 0 ∷ 2 ∷ 7 ∷ [])
      registered-IsRegistry.1 refl refl refl
