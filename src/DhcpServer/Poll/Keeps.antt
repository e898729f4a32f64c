-- ===== src/DhcpServer/Poll/Keeps.antt =====
-- What the loop of src/dhcp_server.rs does to the leases.
use pico_10base_t_rs.Prelude.{
  ℕ, zero, suc, ◌≡◌, refl, inl, inr, Option, none, some, List, Bool-cases, Option-cases,
}
use pico_10base_t_rs.DhcpServer.{
  Leases, Codec, Request, MessageType, reply_type, allocate, encode, answer, build_reply,
}
use pico_10base_t_rs.DhcpServer.Pool.{IsValid, lease_at, allocate-IsValid, allocate-keeps}
use pico_10base_t_rs.DhcpServer.Poll.{Socket, Server, send_reply, answer_request, poll_loop, poll}

-- The pool is valid, and every lease of before is still there.
pub record IsKept (before after : Leases) : Type 0 where
  pub valid : IsValid after
  pub kept : (i : ℕ) (mac : List ℕ) → lease_at before i ≡ some mac → lease_at after i ≡ some mac

module _ (c : Codec) (dns : ℕ) where
  encode_leases :
      (kind : MessageType) (req : Request) (ip : Option ℕ) (leases : Leases)
      → (encode c dns kind req (ip, leases)).1 ≡ leases
  unfolding encode
  encode_leases kind req none leases = refl
  encode_leases kind req (some ip) leases = refl

  build_reply-IsKept :
      (req : List ℕ) (leases : Leases)
      → IsValid leases
      → IsKept leases ((build_reply c dns req leases).1)
  unfolding build_reply answer
  build_reply-IsKept req leases v = elim (Option-cases (c.parse req)) [
    | inl unclear ↦ rw (build_reply, unclear) record { valid = v; kept = λ i mac h. h }
    | inr (r, e) ↦ elim (Option-cases (reply_type r.message_type)) [
      | inl silent ↦
          rw (build_reply, e) (rw (answer, silent) record { valid = v; kept = λ i mac h. h })
      | inr (kind, e') ↦
          let out = allocate r.client_hardware_address leases in
          rw (build_reply, e)
            (rw (answer, e')
              (rw (encode_leases kind r (out.0) (out.1)) record {
                valid = allocate-IsValid r.client_hardware_address leases v;
                kept = λ i mac h. allocate-keeps r.client_hardware_address leases i mac h;
              }))
    ]
  ]

  module _ (k : Socket) where
    send_reply_leases :
        (reply : Option (List ℕ)) (s : Server k.S) → (send_reply c dns k reply s).leases ≡ s.leases
    unfolding send_reply
    send_reply_leases none s = refl
    send_reply_leases (some reply) s = refl

    poll_loop-IsKept :
        (left : ℕ) (s : Server k.S)
        → IsValid s.leases
        → IsKept s.leases ((poll_loop c dns k left s).leases)
    unfolding poll_loop answer_request
    poll_loop-IsKept zero s v = record { valid = v; kept = λ i mac h. h }
    poll_loop-IsKept (suc left) s v = elim (Option-cases ((k.recv_slice s.socket).0)) [
      | inl quiet ↦ rw (poll_loop, quiet) record { valid = v; kept = λ i mac h. h }
      | inr (req, e) ↦
          let heard : Server k.S = record s { socket = (k.recv_slice s.socket).1 } in
          let first = build_reply-IsKept req s.leases v in
          let same : (answer_request c dns k req heard).leases
              ≡ (build_reply c dns req s.leases).1 =
            send_reply_leases ((build_reply c dns req s.leases).0)
              (record heard { leases = (build_reply c dns req s.leases).1 }) in
          let first' : IsKept s.leases ((answer_request c dns k req heard).leases) =
            rw same first in
          let rest = poll_loop-IsKept left (answer_request c dns k req heard) first'.valid in
          rw (poll_loop, e)
            record { valid = rest.valid; kept = λ i mac h. rest.kept i mac (first'.kept i mac h) }
    ]

    -- On a valid pool, a poll leaves a valid pool in which every client still has its address, whatever
    -- the socket delivers.
    pub poll-IsKept :
        (s : Server k.S) → IsValid s.leases → IsKept s.leases ((poll c dns k s).leases)
    unfolding poll
    poll-IsKept s v = elim (Bool-cases (k.is_open s.socket)) [
      | inl bound ↦ rw (poll, bound) (poll_loop-IsKept 4 s v)
      | inr shut ↦ rw (poll, shut) (poll_loop-IsKept 4 (record s { socket = k.bind s.socket }) v)
    ]
