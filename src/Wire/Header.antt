-- ===== src/Wire/Header.antt =====
-- The identifier word of a header, as arithmetic.
use sockcan.Prelude.{ℕ, ◌+◌, ◌*◌, ◌/◌, ◌%◌, ◌^◌, ◌<◌, ◌≡◌, arith}
use sockcan.Prelude.{refl, leb, true, false, ◌≤◌, Bool, ◌||◌, not, ltb, ◌==◌, bit_and, bit_or}
use sockcan.Bits.{bit_and-ones, bit_and_field, bit_or_flag}
use sockcan.Wire.{header_id, can_eff_flag, can_extension_mask, can_id_mask}

-- Whether the header announces an extended identifier: it is asked for, or the identifier has one
-- of the bits 11 to 26, or its bit 31 is set already.
abbrev pub is_marked : ℕ → Bool → Bool
is_marked can_id ext = ext || (ltb 0 (can_id / 2 ^ 11 % 2 ^ 16) || (can_id / 2 ^ 31 % 2 == 1))

pub extension_bits : (a : ℕ) → bit_and a can_extension_mask ≡ a / 2 ^ 11 % 2 ^ 16 * 2 ^ 11
extension_bits a = bit_and_field 16 11 a

pub eff_bit : (a : ℕ) → bit_and a can_eff_flag ≡ a / 2 ^ 31 % 2 * 2 ^ 31
eff_bit a = bit_and_field 1 31 a

pub id_bits : (a : ℕ) → bit_and a can_id_mask ≡ a % 2 ^ 29
id_bits a = bit_and-ones 29 a

set_eff : (a : ℕ) → bit_or a can_eff_flag ≡ (a / 2 ^ 31 / 2 * 2 + 1) * 2 ^ 31 + a % 2 ^ 31
set_eff a = bit_or_flag 31 a

-- The word keeps the low 31 bits and stays within 32 bits.
pub header_id-lt : (can_id : ℕ) (ext : Bool) → can_id < 2 ^ 32 → header_id can_id ext < 2 ^ 32
unfolding header_id
header_id-lt can_id ext h = ground (arith, set_eff can_id)

pub header_id-mod : (can_id : ℕ) (ext : Bool) → header_id can_id ext % 2 ^ 29 ≡ can_id % 2 ^ 29
unfolding header_id
header_id-mod can_id ext = ground (arith, set_eff can_id)

pub header_id-flag :
    (can_id : ℕ) (ext : Bool)
    → not (bit_and (header_id can_id ext) can_eff_flag == 0) ≡ is_marked can_id ext
unfolding header_id
header_id-flag can_id ext =
    ground (arith, set_eff can_id, extension_bits can_id, eff_bit (header_id can_id ext))

-- The flag never brings a word back into range.
pub header_id-ge : (can_id : ℕ) (ext : Bool) → 2 ^ 32 ≤ can_id → 2 ^ 32 ≤ header_id can_id ext
unfolding header_id
header_id-ge can_id ext h = ground (arith, set_eff can_id)

-- Below bit 27 the mark is right: an identifier that needs more than 11 bits is sent as extended.
pub is_marked_below :
    (can_id : ℕ) (ext : Bool) → can_id < 2 ^ 27 → is_marked can_id ext ≡ (ext || leb 2048 can_id)
is_marked_below can_id true h = refl
is_marked_below can_id false h = ground arith
