-- ===== src/ProtoCodec/Registry.antt =====
-- What `RegisterFile` keeps of the two maps, and what goes wrong when an id is used twice.
use million.Prelude.{
  ℕ, ◌%◌, ◌^◌, ◌<◌, ◌≡◌, Bool, true, false, Option, none, some, List, [], ◌∷◌, if◌then◌else◌, ◌==◌,
  arith, refl, Option-cases, inl, inr,
}
use million.Prelude.Maps.{find, contains, emplace, find-emplace, find_of_absent}
use million.ModuleCode.{encode_module_code, encode_module_code_sum}
use million.ProtoCodec.{
  ProtoCodec, EnumDescriptor, MessageDescriptor, FileDescriptor, find_module_id, register_message,
  register_messages, register_file,
}

-- The key of every registered type leads back to the type, and fits 32 bits.
unfoldable pub IsRegistry : ProtoCodec → Type 0
IsRegistry c =
    (desc key : ℕ)
    → find desc c.msg_id_map ≡ some key
    → (find key c.msg_desc_map ≡ some desc) × (key < 2 ^ 32)

-- The keys that the messages of a file take.
unfoldable pub message_keys : ℕ → List MessageDescriptor → List ℕ
message_keys module_id [] = []
message_keys module_id (d ∷ ds) = elim d.msg_id [
  | none ↦ message_keys module_id ds
  | some id ↦ encode_module_code module_id (id % 2 ^ 16) ∷ message_keys module_id ds
]

unfoldable pub elem : ℕ → List ℕ → Bool
elem k [] = false
elem k (j ∷ js) = if j == k then true else elem k js

-- No key is taken, and none comes twice.
unfoldable pub fresh_keys : List (ℕ × ℕ) → List ℕ → Bool
fresh_keys desc_map [] = true
fresh_keys desc_map (k ∷ ks) =
    if contains k desc_map then false else if elem k ks then false else fresh_keys desc_map ks

contains-emplace :
    (k j v : ℕ) (m : List (ℕ × ℕ))
    → contains j (emplace k v m) ≡ (if k == j then true else contains j m)
unfolding contains emplace
contains-emplace k j v [] = ground arith
contains-emplace k j v ((i, w) ∷ m) = ground (arith, contains-emplace k j v m)

fresh_keys-emplace :
    (k v : ℕ) (m : List (ℕ × ℕ)) (ks : List ℕ)
    → elem k ks ≡ false
    → fresh_keys m ks ≡ true
    → fresh_keys (emplace k v m) ks ≡ true
unfolding fresh_keys elem
fresh_keys-emplace k v m [] h f = refl
fresh_keys-emplace k v m (j ∷ ks) h f =
    ground (arith, contains-emplace k j v m, fresh_keys-emplace k v m ks)

encode_module_code_fits :
    (module_id id : ℕ) → module_id < 2 ^ 16 → encode_module_code module_id (id % 2 ^ 16) < 2 ^ 32
encode_module_code_fits module_id id h =
    omega (arith, encode_module_code_sum module_id (id % 2 ^ 16) h (omega arith))

emplace-IsRegistry :
    (c : ProtoCodec) (key address : ℕ)
    → IsRegistry c
    → key < 2 ^ 32
    → contains key c.msg_desc_map ≡ false
    → IsRegistry (record c {
      msg_desc_map = emplace key address c.msg_desc_map;
      msg_id_map = emplace address key c.msg_id_map;
    })
unfolding IsRegistry
emplace-IsRegistry c key address ok lt free desc k e = ground (
  arith,
  find-emplace address desc key c.msg_id_map,
  find-emplace key k address c.msg_desc_map,
  find_of_absent key c.msg_desc_map free,
  ok desc k,
)

-- The two parts of `fresh_keys` for a first key.
fresh_keys-cons :
    (k : ℕ) (ks : List ℕ) (m : List (ℕ × ℕ))
    → fresh_keys m (k ∷ ks) ≡ true
    → (contains k m ≡ false) × (elem k ks ≡ false) × (fresh_keys m ks ≡ true)
unfolding fresh_keys
fresh_keys-cons k ks m f = ground arith

-- One message of the file, with an id or without.
register_message-IsRegistry :
    (module_id a : ℕ) (id : Option ℕ) (ds : List MessageDescriptor) (c : ProtoCodec)
    → (let d : MessageDescriptor = record { address = a; msg_id = id } in
        module_id < 2 ^ 16
        → IsRegistry c
        → fresh_keys c.msg_desc_map (message_keys module_id (d ∷ ds)) ≡ true
        → IsRegistry (register_message module_id d c)
          × (fresh_keys (register_message module_id d c).msg_desc_map (message_keys module_id ds)
              ≡ true))
unfolding register_message message_keys
register_message-IsRegistry module_id a none ds c lt ok f = (ok, f)
register_message-IsRegistry module_id a (some id) ds c lt ok f =
    let key = encode_module_code module_id (id % 2 ^ 16) in
    let parts = fresh_keys-cons key (message_keys module_id ds) c.msg_desc_map f in
    (
      emplace-IsRegistry c key a ok (encode_module_code_fits module_id id lt) parts.0,
      fresh_keys-emplace key a c.msg_desc_map (message_keys module_id ds) parts.1 parts.2,
    )

register_messages-IsRegistry :
    (module_id : ℕ) (ds : List MessageDescriptor) (c : ProtoCodec)
    → module_id < 2 ^ 16
    → IsRegistry c
    → fresh_keys c.msg_desc_map (message_keys module_id ds) ≡ true
    → IsRegistry (register_messages module_id ds c)
unfolding register_messages
register_messages-IsRegistry module_id [] c lt ok f = ok
register_messages-IsRegistry module_id (d ∷ ds) c lt ok f =
    let r = register_message-IsRegistry module_id d.address d.msg_id ds c lt ok f in
    register_messages-IsRegistry module_id ds (register_message module_id d c) lt r.0 r.1

find_module_id_fits :
    (es : List EnumDescriptor) (module_id : ℕ)
    → find_module_id es ≡ some module_id
    → module_id < 2 ^ 16
unfolding find_module_id
find_module_id_fits [] module_id h = ground arith
find_module_id_fits (e ∷ es) module_id h = elim (Option-cases e.module_id) [
  | inl n ↦ ground (arith, find_module_id_fits es module_id)
  | inr (id, n) ↦ ground arith
]

-- A file with a module id whose message ids are new, none twice, is registered, and then still
-- every registered type has a key that fits 32 bits and leads back to the type.
pub register_file-IsRegistry :
    (f : FileDescriptor) (module_id : ℕ) (c : ProtoCodec)
    → IsRegistry c
    → find_module_id f.enum_types ≡ some module_id
    → fresh_keys c.msg_desc_map (message_keys module_id f.message_types) ≡ true
    → ((register_file (some f) c).0 ≡ true) × IsRegistry (register_file (some f) c).1
unfolding register_file
register_file-IsRegistry f module_id c ok e fresh =
    let lt = find_module_id_fits f.enum_types module_id e in
    let r = register_messages-IsRegistry module_id f.message_types c lt ok fresh in
    rw (e, register_file) (refl, r)
