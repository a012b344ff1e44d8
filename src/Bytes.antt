-- ===== src/Bytes.antt =====
-- Unsigned integers as bytes, as `int.to_bytes`, `int.from_bytes` and the `struct` codes read them.
use sockcan.Prelude.{ℕ, zero, suc, ◌+◌, ◌*◌, ◌/◌, ◌%◌, ◌^◌, ◌<◌, ◌≡◌, refl, arith}
use sockcan.Prelude.{List, [], ◌∷◌, length, All, reverse, reverse-reverse}
use sockcan.Prelude.{length-reverse}
use native.Mathlib.Nat.{pow-succ'}

abbrev pub Bytes : Type 0
Bytes = List ℕ

abbrev pub IsBytes : Bytes → Type 0
IsBytes = All (λ b. b < 256)

-- The `w` low bytes of `v`, least significant first.
unfoldable pub le_bytes : ℕ → ℕ → Bytes
le_bytes zero v = []
le_bytes (suc w) v = (v % 256) ∷ le_bytes w (v / 256)

unfoldable pub le_value : Bytes → ℕ
le_value [] = 0
le_value (b ∷ bs) = b + 256 * le_value bs

pub length-le_bytes : (w v : ℕ) → length (le_bytes w v) ≡ w
unfolding le_bytes
length-le_bytes zero v = refl
length-le_bytes (suc w) v = omega (arith, length-le_bytes w (v / 256))

pub le_value-le_bytes : (w v : ℕ) → v < 256 ^ w → le_value (le_bytes w v) ≡ v
unfolding le_bytes le_value
le_value-le_bytes zero v h = omega arith
le_value-le_bytes (suc w) v h = omega (arith, le_value-le_bytes w (v / 256), pow-succ' 256 w)

pub le_bytes-IsBytes : (w v : ℕ) → IsBytes (le_bytes w v)
unfolding le_bytes
le_bytes-IsBytes zero v = tt
le_bytes-IsBytes (suc w) v = (omega arith, le_bytes-IsBytes w (v / 256))

pub le_value-lt : (bs : Bytes) → IsBytes bs → le_value bs < 256 ^ length bs
unfolding le_value
le_value-lt [] h = omega arith
le_value-lt (b ∷ bs) h = omega (arith, h.0, le_value-lt bs h.1, pow-succ' 256 (length bs))

-- The byte order of the machine, which `=` in a `struct` format takes.
pub data ByteOrder : Type 0 where
  little big : ByteOrder

unfoldable pub pack_word : ByteOrder → ℕ → ℕ → Bytes
pack_word little w v = le_bytes w v
pack_word big w v = reverse (le_bytes w v)

unfoldable pub unpack_word : ByteOrder → Bytes → ℕ
unpack_word little bs = le_value bs
unpack_word big bs = le_value (reverse bs)

pub length-pack_word : (o : ByteOrder) (w v : ℕ) → length (pack_word o w v) ≡ w
unfolding pack_word
length-pack_word little w v = length-le_bytes w v
length-pack_word big w v = omega (arith, length-reverse (le_bytes w v), length-le_bytes w v)

pub unpack_word-pack_word :
    (o : ByteOrder) (w v : ℕ) → v < 256 ^ w → unpack_word o (pack_word o w v) ≡ v
unfolding pack_word unpack_word
unpack_word-pack_word little w v h = le_value-le_bytes w v h
unpack_word-pack_word big w v h = rw reverse-reverse (le_value-le_bytes w v h)
