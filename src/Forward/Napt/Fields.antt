-- ===== src/Forward/Napt/Fields.antt =====
-- Three fields of a frame are written one after another: the checksum, a port or id, and an address.
-- Here their effect on the whole frame, for the rewrites of src/forward.rs.
use pico_10base_t_rs.Prelude.{
  ℕ, ◌+◌, ◌*◌, ◌≤◌, ◌<◌, ◌^◌, ◌≡◌, ◌⊎◌, refl, ◌∙◌, List, arith, length, byte, rd16, rd32, wr16,
  wr32, be16, be32, AreBytes, inr, length-write_at, byte-write_at_ne, rd16-wr16, rd32-wr32,
  write_at-AreBytes, be16-AreBytes, be32-AreBytes,
}

-- Byte `j` is not one of the `n` bytes at `i`.
abbrev pub Outside : ℕ → ℕ → ℕ → Type 0
Outside i n j = (j < i) ⊎ (i + n ≤ j)

-- `g` is `f` with the word `c` at `off`.
pub record IsWord (f g : List ℕ) (off c : ℕ) : Type 0 where
  pub same_length : length g ≡ length f
  pub word : rd16 g off ≡ c
  pub others : (j : ℕ) → Outside off 2 j → byte g j ≡ byte f j
  pub bytes : AreBytes g

pub wr16-IsWord :
    (f : List ℕ) (off c : ℕ)
    → off + 2 ≤ length f
    → c < 2 ^ 16
    → AreBytes f
    → IsWord f (wr16 f off c) off c
wr16-IsWord f off c h lt b = record {
  same_length = length-write_at f off (be16 c);
  word = rd16-wr16 f off c h lt;
  others = λ j out. byte-write_at_ne f off (be16 c) j h out;
  bytes = write_at-AreBytes f off (be16 c) b (be16-AreBytes c);
}

pub same-IsWord : (f : List ℕ) (off : ℕ) → AreBytes f → IsWord f f off (rd16 f off)
same-IsWord f off b = record { same_length = refl; word = refl; others = λ j out. refl; bytes = b }

-- `f'` is `f` with the word `c` at `csum`, the word `id` at `port` and the address `ip` at `addr`.
pub record IsRewritten (f f' : List ℕ) (csum c port id addr ip : ℕ) : Type 0 where
  pub same_length : length f' ≡ length f
  pub csum_is : rd16 f' csum ≡ c
  pub id_is : rd16 f' port ≡ id
  pub ip_is : rd32 f' addr ≡ ip
  pub others :
      (j : ℕ) → Outside csum 2 j → Outside port 2 j → Outside addr 4 j → byte f' j ≡ byte f j
  pub bytes : AreBytes f'

-- The fields lie in the frame, the address in front of the two words, which do not overlap.
abbrev pub Apart : List ℕ → ℕ → ℕ → ℕ → Type 0
Apart f csum port addr =
    (csum + 2 ≤ length f)
    × (port + 2 ≤ length f)
    × (addr + 4 ≤ length f)
    × (addr + 4 ≤ csum)
    × (addr + 4 ≤ port)
    × ((csum + 2 ≤ port) ⊎ (port + 2 ≤ csum))

rd16-IsWord_ne :
    (f g : List ℕ) (off c i : ℕ)
    → IsWord f g off c
    → (i + 2 ≤ off) ⊎ (off + 2 ≤ i)
    → rd16 g i ≡ rd16 f i
rd16-IsWord_ne f g off c i w out = ground (arith, w.others i, w.others (i + 1))

pub rewrite_fields :
    (f g : List ℕ) (csum c port id addr ip : ℕ)
    → IsWord f g csum c
    → Apart f csum port addr
    → id < 2 ^ 16
    → ip < 2 ^ 32
    → IsRewritten f (wr32 (wr16 g port id) addr ip) csum c port id addr ip
rewrite_fields f g csum c port id addr ip w a hid hip =
    let h : List ℕ = wr16 g port id in
    let x : IsWord g h port id = wr16-IsWord g port id (omega (arith, w.same_length)) hid w.bytes in
    let room : addr + 4 ≤ length h = omega (arith, x.same_length, w.same_length) in
    let far : (j : ℕ) → addr + 4 ≤ j → byte (wr32 h addr ip) j ≡ byte h j =
      λ j out. byte-write_at_ne h addr (be32 ip) j room (inr out) in
    record {
      same_length = length-write_at h addr (be32 ip) ∙ x.same_length ∙ w.same_length;
      csum_is =
          words (far csum (omega arith)) (far (csum + 1) (omega arith))
          ∙ rd16-IsWord_ne g h port id csum x a.5
          ∙ w.word;
      id_is = words (far port (omega arith)) (far (port + 1) (omega arith)) ∙ x.word;
      ip_is = rd32-wr32 h addr ip room hip;
      others = λ j out_csum out_port out_addr.
          byte-write_at_ne h addr (be32 ip) j room out_addr
          ∙ x.others j out_port
          ∙ w.others j out_csum;
      bytes = write_at-AreBytes h addr (be32 ip) x.bytes (be32-AreBytes ip);
    }
  where
    words : {a b d e : ℕ} → a ≡ b → d ≡ e → a * 256 + d ≡ b * 256 + e
    words p q = omega arith
