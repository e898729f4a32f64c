-- ===== src/DhcpServer/Tests.antt =====
-- The lease pool and the loop of src/dhcp_server.rs at concrete clients.
use pico_10base_t_rs.Prelude.{
  ℕ, zero, suc, get_or, replicate, ◌≡◌, refl, none, some, true, false, List, [], ◌∷◌,
}
use pico_10base_t_rs.DhcpServer.{
  no_leases, ip_for, allocate, claim_slot, first_slot, is_held_by, is_free, Codec, request,
  reply_type, reply_of, encode, answer, build_reply,
}
use pico_10base_t_rs.DhcpServer.Pool.{IsValid, IsAllocated, allocate-IsAllocated}
use pico_10base_t_rs.DhcpServer.Poll.{Socket, Server, poll, poll_loop, answer_request, send_reply}
use pico_10base_t_rs.DhcpServer.Poll.Keeps.{IsKept, poll-IsKept}

abbrev phone : List ℕ
phone = 2 ∷ 0 ∷ 0 ∷ 0 ∷ 0 ∷ 7 ∷ []

-- 192.168.4.10.
first_address : (allocate phone no_leases).0 ≡ some 3232236554
unfolding allocate no_leases claim_slot first_slot is_held_by is_free ip_for
first_address = refl

no_leases-IsValid : IsValid no_leases
unfolding no_leases
no_leases-IsValid = record { size = refl; distinct = λ i j mac p q. absurd (empty_at 32 i mac p) }
  where
    empty_at : (n i : ℕ) (mac : List ℕ) → get_or (replicate n none) i none ≡ some mac → ⊥
    empty_at zero i mac p = cc
    empty_at (suc n) zero mac p = cc
    empty_at (suc n) (suc i) mac p = empty_at n i mac p

allocate-IsAllocated_example : IsAllocated phone no_leases (allocate phone no_leases)
unfolding no_leases
allocate-IsAllocated_example = allocate-IsAllocated phone no_leases refl

-- Every datagram is a request of the phone.
abbrev codec : Codec
codec = record {
  parse = λ bytes.
      some record { message_type = request; transaction_id = 1; client_hardware_address = phone };
  buffer_len = λ reply. 300;
  emit = λ reply. some (replicate 300 0);
}

-- A socket with as many datagrams as its state says.
abbrev queue : Socket
queue = record {
  S = ℕ;
  is_open = λ s. false;
  bind = λ s. s;
  recv_slice = λ s. elim s [ zero ↦ (none, zero) | suc rest ↦ (some [], rest) ];
  send_slice = λ bytes s. (true, s);
}

abbrev fresh : Server ℕ
fresh = record { socket = 6; leases = no_leases; dhcp_tx = 0 }

poll-IsKept_example : IsKept no_leases ((poll codec 0x08080808 queue fresh).leases)
poll-IsKept_example = poll-IsKept codec 0x08080808 queue fresh no_leases-IsValid

-- Four requests are answered, and two are left.
poll_four :
    poll codec 0x08080808 queue fresh
    ≡ record { socket = 2; leases = (allocate phone no_leases).1; dhcp_tx = 4 }
unfolding poll poll_loop answer_request send_reply build_reply answer encode allocate no_leases
    claim_slot first_slot is_held_by is_free ip_for reply_type reply_of
poll_four = refl
