-- ===== src/ProtoCodec/RoundTrip.antt =====
-- A packet is read back as the message that it was made from.
use million.Prelude.{
  ℕ, ◌%◌, ◌^◌, ◌<◌, ◌≡◌, true, none, some, List, ◌++◌, arith, subst, Option-cases, inl, inr,
}
use million.Prelude.Maps.{find, emplace, find-emplace, present_of_find, absent_of_find}
use million.ModuleCode.{encode_module_code, decode_module_code, encode-decode, decode-encode}
use million.ProtoCodec.Registry.{IsRegistry}
use million.ProtoCodec.{
  Protobuf, ProtoCodec, MessageDescriptor, register_message, byte, store_u32, load_u32,
  network_to_host_u32, host_to_network_u32, find_message_key, find_message_desc, encode_message,
  decode_message, new_message, find_message_id,
}

load-store : (v : ℕ) → v < 2 ^ 32 → load_u32 (byte 0 v) (byte 1 v) (byte 2 v) (byte 3 v) ≡ v
load-store v h = omega arith

-- Swapping the bytes of a 32-bit number twice gives it back, and the result fits 32 bits.
pub network_to_host-host_to_network :
    (v : ℕ)
    → v < 2 ^ 32
    → (network_to_host_u32 (host_to_network_u32 v) ≡ v) × (host_to_network_u32 v < 2 ^ 32)
unfolding host_to_network_u32
network_to_host-host_to_network v h = omega arith

header : (v : ℕ) → v < 2 ^ 32 → host_to_network_u32 (host_to_network_u32 v) ≡ v
unfolding host_to_network_u32
header v h = (network_to_host-host_to_network v h).0

module _ (pb : Protobuf) where
  open pb use {Msg, descriptor, serialize, parse, has_prototype}

  -- A packet made of a key and a body, where the key stands for the type `desc`.
  decode_stored :
      (desc : ℕ) (body : List ℕ) (m : Msg) (key : ℕ) (c : ProtoCodec)
      → key < 2 ^ 32
      → find key c.msg_desc_map ≡ some desc
      → has_prototype desc ≡ true
      → parse desc body ≡ some m
      → decode_message pb (store_u32 (host_to_network_u32 key) ++ body) c
        ≡ some (record {
          module_id = (decode_module_code key).0;
          msg_id = (decode_module_code key).1;
          msg = m;
        })
  unfolding decode_message store_u32 new_message find_message_desc
  decode_stored desc body m key c lt e proto back =
      let net = network_to_host-host_to_network key lt in
      rw (load-store (host_to_network_u32 key) net.1, header key lt)
        (ground (arith, encode-decode key lt))

  -- In a registry where every registered key fits 32 bits and leads back to its type: if protobuf
  -- can make messages of the type of a message, and reads what it has written, then the packet that
  -- the message is encoded as is read back as that message, under the ids of its type.
  pub decode_message-encode_message :
      (m : Msg) (c : ProtoCodec) (packet : List ℕ)
      → IsRegistry c
      → has_prototype (descriptor m) ≡ true
      → parse (descriptor m) (serialize m) ≡ some m
      → encode_message pb m c ≡ some packet
      → (ids : ℕ × ℕ) × (find_message_id pb m c ≡ some ids)
        × (decode_message pb packet c
            ≡ some (record { module_id = ids.0; msg_id = ids.1; msg = m }))
  unfolding encode_message find_message_id find_message_key IsRegistry
  decode_message-encode_message m c packet ok proto back e =
      elim (Option-cases (find (descriptor m) c.msg_id_map)) [
        | inl n ↦ ground arith
        | inr (key, k) ↦
            let r = ok (descriptor m) key k in
            let p : store_u32 (host_to_network_u32 key) ++ serialize m ≡ packet = ground arith in
            let ids : find_message_id pb m c ≡ some (decode_module_code key) = ground arith in
            (
              decode_module_code key,
              ids,
              subst
                  (λ q.
                    decode_message pb q c
                    ≡ some (record {
                      module_id = (decode_module_code key).0;
                      msg_id = (decode_module_code key).1;
                      msg = m;
                    }))
                  p (decode_stored (descriptor m) (serialize m) m key c r.1 r.0 proto back),
            )
      ]

  -- A second type is registered under an id that is taken. Its packets are then read as messages of
  -- the first type, where they parse as that.
  pub duplicate_id_misread :
      (m other : Msg) (module_id id first : ℕ) (c : ProtoCodec)
      → module_id < 2 ^ 16
      → (let key = encode_module_code module_id (id % 2 ^ 16) in
          let d : MessageDescriptor = record { address = descriptor m; msg_id = some id } in
          let after = register_message module_id d c in
          let packet = store_u32 (host_to_network_u32 key) ++ serialize m in
          find key c.msg_desc_map ≡ some first
          → find (descriptor m) c.msg_id_map ≡ none
          → has_prototype first ≡ true
          → parse first (serialize m) ≡ some other
          → (encode_message pb m after ≡ some packet)
            × (decode_message pb packet after
                ≡ some (record { module_id = module_id; msg_id = id % 2 ^ 16; msg = other })))
  unfolding encode_message find_message_key register_message
  duplicate_id_misread m other module_id id first c lt taken new proto back =
      let key = encode_module_code module_id (id % 2 ^ 16) in
      let ids = decode-encode module_id (id % 2 ^ 16) lt (omega arith) in
      let desc : find key (emplace key (descriptor m) c.msg_desc_map) ≡ some first = ground (
        arith,
        find-emplace key key (descriptor m) c.msg_desc_map,
        present_of_find key c.msg_desc_map first taken,
      ) in
      let id_of : find (descriptor m) (emplace (descriptor m) key c.msg_id_map) ≡ some key =
        ground (
          arith,
          find-emplace (descriptor m) (descriptor m) key c.msg_id_map,
          absent_of_find (descriptor m) c.msg_id_map new,
        ) in
      (
        ground (arith, id_of),
        subst
            (λ q.
              decode_message pb (store_u32 (host_to_network_u32 key) ++ serialize m)
                (register_message module_id (record { address = descriptor m; msg_id = some id }) c)
              ≡ some (record { module_id = q.0; msg_id = q.1; msg = other }))
            ids.0
            (decode_stored first (serialize m) other key
              (register_message module_id (record { address = descriptor m; msg_id = some id }) c)
              ids.1 desc proto back),
      )
