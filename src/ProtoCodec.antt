-- ===== src/ProtoCodec.antt =====
-- million/src/proto_codec.cpp and `RegisterFile` of million/include/million/proto_mgr.h: messages of
-- protobuf as packets that begin with the code of their type. Protobuf itself is a parameter.
pub mod RoundTrip
pub mod Registry
mod Tests
use million.Prelude.{
  ℕ, zero, suc, ◌+◌, ◌*◌, ◌/◌, ◌%◌, ◌^◌, Bool, true, false, Option, none, some, List, [], ◌∷◌, ◌++◌,
  if◌then◌else◌,
}
use million.Prelude.Maps.{find, emplace}
use million.ModuleCode.{encode_module_code, decode_module_code}

-- google::protobuf: messages with their descriptors (given by their addresses, which are not 0),
-- serialisation, parsing as a given type, and whether a type has a prototype.
pub record Protobuf : Type 1 where
  pub Msg : Type 0
  pub descriptor : Msg → ℕ
  pub serialize : Msg → List ℕ
  pub parse : ℕ → List ℕ → Option Msg
  pub has_prototype : ℕ → Bool

pub record ProtoCodec : Type 0 where
  pub msg_desc_map : List (ℕ × ℕ)
  pub msg_id_map : List (ℕ × ℕ)

abbrev pub byte : ℕ → ℕ → ℕ
byte i v = v / 256 ^ i % 256

-- The bytes of a uint32_t as memcpy sees them on a little-endian host.
unfoldable pub store_u32 : ℕ → List ℕ
store_u32 v = byte 0 v ∷ byte 1 v ∷ byte 2 v ∷ byte 3 v ∷ []

abbrev pub load_u32 : ℕ → ℕ → ℕ → ℕ → ℕ
load_u32 a b c d = a + b * 256 + c * 65536 + d * 16777216

unfoldable pub network_to_host_u32 : ℕ → ℕ
network_to_host_u32 value = load_u32 (byte 3 value) (byte 2 value) (byte 1 value) (byte 0 value)

unfoldable pub host_to_network_u32 : ℕ → ℕ
unfolding network_to_host_u32
host_to_network_u32 value = network_to_host_u32 value

-- FindMessageKey(desc) and FindMessageDesc(module_id, msg_id); `none` is nullptr.
unfoldable pub find_message_key : ℕ → ProtoCodec → Option ℕ
find_message_key desc c = find desc c.msg_id_map

unfoldable pub find_message_desc : ℕ → ℕ → ProtoCodec → Option ℕ
find_message_desc module_id msg_id c = find (encode_module_code module_id msg_id) c.msg_desc_map

pub record EnumDescriptor : Type 0 where
  pub module_id : Option ℕ  -- the extension `module_ext_id`

pub record MessageDescriptor : Type 0 where
  pub address : ℕ
  pub msg_id : Option ℕ  -- the extension `msg_ext_id`

pub record FileDescriptor : Type 0 where
  pub enum_types : List EnumDescriptor
  pub message_types : List MessageDescriptor

-- The first loop of RegisterFile: the module id of the first enum that has one, as a uint16_t.
unfoldable pub find_module_id : List EnumDescriptor → Option ℕ
find_module_id [] = none
find_module_id (e ∷ es) = elim e.module_id [
  | none ↦ find_module_id es
  | some id ↦ some (id % 2 ^ 16)
]

unfoldable pub register_message : ℕ → MessageDescriptor → ProtoCodec → ProtoCodec
register_message module_id d c = elim d.msg_id [
  | none ↦ c
  | some id ↦
      let key = encode_module_code module_id (id % 2 ^ 16) in
      record c {
        msg_desc_map = emplace key d.address c.msg_desc_map;
        msg_id_map = emplace d.address key c.msg_id_map;
      }
]

-- The second loop.
unfoldable pub register_messages : ℕ → List MessageDescriptor → ProtoCodec → ProtoCodec
register_messages module_id [] c = c
register_messages module_id (d ∷ ds) c =
    register_messages module_id ds (register_message module_id d c)

-- RegisterFile; `none` where `FindFileByName` gives no file.
unfoldable pub register_file : Option FileDescriptor → ProtoCodec → Bool × ProtoCodec
unfolding find_module_id
register_file none c = (false, c)
register_file (some f) c = elim (find_module_id f.enum_types) [
  | none ↦ (false, c)
  | some module_id ↦ (true, register_messages module_id f.message_types c)
]

module _ (pb : Protobuf) where
  open pb use {Msg, descriptor, serialize, parse, has_prototype}

  pub record DecodeRes : Type 0 where
    pub module_id : ℕ
    pub msg_id : ℕ
    pub msg : Msg

  -- FindMessageId(message).
  unfoldable pub find_message_id : Msg → ProtoCodec → Option (ℕ × ℕ)
  find_message_id m c = elim (find_message_key (descriptor m) c) [
    | none ↦ none
    | some key ↦ some (decode_module_code key)
  ]

  -- EncodeMessage(message).
  unfoldable pub encode_message : Msg → ProtoCodec → Option (List ℕ)
  encode_message m c = elim (find_message_key (descriptor m) c) [
    | none ↦ none
    | some key ↦ some (store_u32 (host_to_network_u32 key) ++ serialize m)
  ]

  -- NewMessage(module_id, msg_id), with the type of the new message for the message.
  unfoldable pub new_message : ℕ → ℕ → ProtoCodec → Option ℕ
  new_message module_id msg_id c = elim (find_message_desc module_id msg_id c) [
    | none ↦ none
    | some desc ↦ if has_prototype desc then some desc else none
  ]

  decode_body : ℕ × ℕ → List ℕ → ProtoCodec → Option DecodeRes
  decode_body (module_id, msg_id) body c = elim (new_message module_id msg_id c) [
    | none ↦ none
    | some desc ↦ elim (parse desc body) [
      | none ↦ none
      | some m ↦ some (record { module_id = module_id; msg_id = msg_id; msg = m })
    ]
  ]

  -- DecodeMessage(packet); a packet of less than four bytes is refused.
  unfoldable pub decode_message : List ℕ → ProtoCodec → Option DecodeRes
  unfolding decode_body
  decode_message (a ∷ b ∷ d ∷ e ∷ body) c =
      decode_body (decode_module_code (host_to_network_u32 (load_u32 a b d e))) body c
  decode_message _ c = none
