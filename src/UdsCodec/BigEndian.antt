-- ===== src/UdsCodec/BigEndian.antt =====
-- The big-endian numbers of cpp/src/uds_codec.cpp: what is appended is read back.
use native.Mathlib.Nat.{div-add-mod, mod-lt, mod-eq_of_lt, mul-add-mod_self_left, one-le-pow}
use native.Mathlib.Numerals.{towards_suc}
use mathlib.Core.List.{append-nil, append_assoc}
use mini_ocs_nos.Base.{
  ℕ, zero, suc, ◌+◌, ◌*◌, ◌/◌, ◌%◌, ◌^◌, ◌≤◌, ◌<◌, ◌≡◌, refl, ap, sym, ◌∙◌, some, List, [], ◌∷◌,
  ◌++◌, arith, length,
}
use mini_ocs_nos.UdsCodec.{append_big_endian, read_big_endian}

-- The last `n` bytes of a number, the most significant first.
unfoldable pub big_endian : ℕ → ℕ → List ℕ
big_endian zero value = []
big_endian (suc n) value = (value / 2 ^ (n * 8) % 256) ∷ big_endian n value

pub append_big_endian-append :
    (n : ℕ) (output : List ℕ) (value : ℕ)
    → append_big_endian n output value ≡ output ++ big_endian n value
unfolding append_big_endian big_endian
append_big_endian-append zero output value = sym (append-nil output)
append_big_endian-append (suc n) output value =
    append_big_endian-append n (output ++ (value / 2 ^ (n * 8) % 256) ∷ []) value
    ∙ append_assoc output _ (big_endian n value)

pub length-big_endian : (n value : ℕ) → length (big_endian n value) ≡ n
unfolding big_endian
length-big_endian zero value = refl
length-big_endian (suc n) value = ap suc (length-big_endian n value)

byte_room : (d r p : ℕ) → d < 256 → r < p → d * p + r < 256 * p
byte_room d r p h k = grind arith

-- The low part of a number that has one more byte.
split_byte : (value p : ℕ) → 0 < p → value % (256 * p) ≡ value / p % 256 * p + value % p
split_byte value p h =
    let low = value / p % 256 * p + value % p in
    let whole : value ≡ 256 * p * (value / p / 256) + low =
      omega (arith, div-add-mod value p, ap (λ (t : ℕ). t * p) (div-add-mod (value / p) 256)) in
    let small : low < 256 * p =
      byte_room (value / p % 256) (value % p) p (omega arith) (mod-lt value h) in
    ap (λ (t : ℕ). t % (256 * p)) whole
    ∙ mul-add-mod_self_left (256 * p) (value / p / 256) low
    ∙ mod-eq_of_lt small

power_pos : (n : ℕ) → 0 < 2 ^ (n * 8)
power_pos n = one-le-pow (n * 8) 2 (omega arith)

power_suc : (n : ℕ) → 2 ^ (suc n * 8) ≡ 256 * 2 ^ (n * 8)
power_suc n = let e : suc n * 8 ≡ n * 8 + 8 = omega arith in rw e (eight (n * 8))
  where
    eight : (k : ℕ) → 2 ^ (k + 8) ≡ 256 * 2 ^ k
    eight k = simp towards_suc (omega arith)

room_next :
    (acc d p modulus : ℕ)
    → d < 256
    → (acc + 1) * (256 * p) ≤ modulus
    → (acc * 256 + d + 1) * p ≤ modulus
room_next acc d p modulus h k = grind arith

below_modulus :
    (acc d p modulus : ℕ) → 0 < p → (acc * 256 + d + 1) * p ≤ modulus → acc * 256 + d < modulus
below_modulus acc d p modulus h k = grind arith

-- What big_endian writes is read back, where the modulus has room for it.
pub read_big_endian-big_endian :
    (n modulus acc value : ℕ) (rest : List ℕ)
    → (acc + 1) * 2 ^ (n * 8) ≤ modulus
    → read_big_endian n modulus acc (big_endian n value ++ rest)
      ≡ some (acc * 2 ^ (n * 8) + value % 2 ^ (n * 8), rest)
unfolding read_big_endian big_endian
read_big_endian-big_endian zero modulus acc value rest h =
    let e : acc ≡ acc * 1 + value % 1 = omega arith in ap (λ (t : ℕ). some (t, rest)) e
read_big_endian-big_endian (suc n) modulus acc value rest h =
    let p = 2 ^ (n * 8) in
    let d = value / p % 256 in
    let byte : d < 256 = omega arith in
    let room = room_next acc d p modulus byte (rw (power_suc n) at h) in
    let fits = mod-eq_of_lt (below_modulus acc d p modulus (power_pos n) room) in
    let total : (acc * 256 + d) * p + value % p ≡ acc * 2 ^ (suc n * 8) + value % 2 ^ (suc n * 8) =
      rw (power_suc n, split_byte value p (power_pos n)) (omega arith) in
    rw fits (
      read_big_endian-big_endian n modulus (acc * 256 + d) value rest room
      ∙ ap (λ (t : ℕ). some (t, rest)) total)
