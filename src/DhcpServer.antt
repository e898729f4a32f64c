-- ===== src/DhcpServer.antt =====
-- The DHCP server of src/dhcp_server.rs. The codec of smoltcp and its UDP socket are parameters.
pub mod Pool
pub mod Poll
mod Tests
use pico_10base_t_rs.Prelude.{
  ℕ, zero, suc, ◌+◌, ◌*◌, ◌^◌, Bool, true, false, Option, none, some, List, [], ◌∷◌, ltb, ◌==◌,
  if◌then◌else◌, length, set, replicate, bytes_eq, u8, be32, wrapping_add32,
}

abbrev pub octets : ℕ → ℕ → ℕ → ℕ → ℕ
octets a b c d = a * 2 ^ 24 + b * 2 ^ 16 + c * 2 ^ 8 + d

abbrev pub server_ip : ℕ
server_ip = octets 192 168 4 1

abbrev pub subnet_mask : ℕ
subnet_mask = octets 255 255 255 0

abbrev pub pool_base : ℕ
pool_base = 10

abbrev pub pool_len : ℕ
pool_len = 32

abbrev pub lease_secs : ℕ
lease_secs = 3600

abbrev pub opt_dns_server : ℕ
opt_dns_server = 6

abbrev pub Leases : Type 0
Leases = List (Option (List ℕ))

unfoldable pub no_leases : Leases
no_leases = replicate pool_len none

-- The address of a slot. The sum is taken in `u8`.
unfoldable pub ip_for : ℕ → ℕ
ip_for i = octets 192 168 4 (u8 (pool_base + u8 i))

unfoldable pub is_held_by : List ℕ → Option (List ℕ) → Bool
is_held_by mac none = false
is_held_by mac (some held) = bytes_eq held mac

unfoldable pub is_free : Option (List ℕ) → Bool
is_free none = true
is_free (some held) = false

-- `iter().position(test)` from index `i` on.
unfoldable pub first_slot : (Option (List ℕ) → Bool) → Leases → ℕ → Option ℕ
first_slot test [] i = none
first_slot test (s ∷ rest) i =
    let later = first_slot test rest (i + 1) in if test s then some i else later

-- The first free slot, if this MAC has none.
unfoldable pub claim_slot : List ℕ → Leases → Option ℕ × Leases
claim_slot mac leases = elim (first_slot is_free leases 0) [
  | none ↦ (none, leases)
  | some i ↦ (some (ip_for i), set leases i (some mac))
]

unfoldable pub allocate : List ℕ → Leases → Option ℕ × Leases
allocate mac leases = elim (first_slot (is_held_by mac) leases 0) [
  | some i ↦ (some (ip_for i), leases)
  | none ↦ claim_slot mac leases
]

-- The message types that the server tells apart.
pub data MessageType : Type 0 where
  discover offer request ack other : MessageType

-- The fields of `DhcpRepr` that a request is read for.
pub record Request : Type 0 where
  pub message_type : MessageType
  pub transaction_id : ℕ
  pub client_hardware_address : List ℕ

-- The fields of `DhcpRepr` that a reply sets to something.
pub record Reply : Type 0 where
  pub message_type : MessageType
  pub transaction_id : ℕ
  pub client_hardware_address : List ℕ
  pub your_ip : ℕ
  pub router : ℕ
  pub subnet_mask : ℕ
  pub broadcast : Bool
  pub server_identifier : ℕ
  pub lease_duration : ℕ
  pub additional_option : ℕ × List ℕ

-- The codec: `new_checked` with `parse`, and `buffer_len` with `emit`.
pub record Codec : Type 0 where
  pub parse : List ℕ → Option Request
  pub buffer_len : Reply → ℕ
  pub emit : Reply → Option (List ℕ)

unfoldable pub reply_type : MessageType → Option MessageType
reply_type discover = some offer
reply_type request = some ack
reply_type _ = none

unfoldable pub reply_of : MessageType → Request → ℕ → ℕ → Reply
reply_of kind req your_ip dns = record {
  message_type = kind;
  transaction_id = req.transaction_id;
  client_hardware_address = req.client_hardware_address;
  your_ip = your_ip;
  router = server_ip;
  subnet_mask = subnet_mask;
  broadcast = true;
  server_identifier = server_ip;
  lease_duration = lease_secs;
  additional_option = (opt_dns_server, be32 dns);
}

module _ (c : Codec) (dns : ℕ) where
  -- From the address on: the reply as bytes, if it fits the buffer of 1024.
  unfoldable pub encode : MessageType → Request → Option ℕ × Leases → Option (List ℕ) × Leases
  encode kind req (none, leases) = (none, leases)
  encode kind req (some your_ip, leases) = (
    if ltb 1024 (c.buffer_len (reply_of kind req your_ip dns))
        then none
        else c.emit (reply_of kind req your_ip dns),
    leases,
  )

  unfoldable pub answer : Request → Leases → Option (List ℕ) × Leases
  answer req leases = elim (reply_type req.message_type) [
    | none ↦ (none, leases)
    | some kind ↦ encode kind req (allocate req.client_hardware_address leases)
  ]

  unfoldable pub build_reply : List ℕ → Leases → Option (List ℕ) × Leases
  build_reply req_bytes leases = elim (c.parse req_bytes) [
    | none ↦ (none, leases)
    | some req ↦ answer req leases
  ]
