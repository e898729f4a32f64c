-- ===== src/Checksum/Tests.antt =====
-- The checksum update of src/conntrack.rs at concrete words.
use pico_10base_t_rs.Prelude.{◌+◌, ◌%◌, ◌<◌, ◌^◌, ◌≡◌, refl, [], ◌∷◌, arith}
use pico_10base_t_rs.Checksum.{checksum_incr, fold_changes, add1c}
use pico_10base_t_rs.Checksum.Update.{checksum_incr_total}

-- The example of RFC 1624, section 4.
rfc_1624 : checksum_incr 0xdd2f ((0x5555, 0x3285) ∷ []) ≡ 0x0000
unfolding checksum_incr fold_changes add1c
rfc_1624 = refl

checksum_incr_total_example :
    (checksum_incr 0xdd2f ((0x5555, 0x3285) ∷ []) < 2 ^ 16)
    × ((checksum_incr 0xdd2f ((0x5555, 0x3285) ∷ []) + (0x3285 + 0)) % 65535
        ≡ (0xdd2f + (0x5555 + 0)) % 65535)
checksum_incr_total_example =
    checksum_incr_total 0xdd2f ((0x5555, 0x3285) ∷ []) (omega arith) (omega arith, omega arith, tt)
