-- ===== src/Wire/RoundTrip.antt =====
-- What a receiver makes of the frame that a sender builds, and the length of that frame.
use sockcan.Prelude.{ℕ, ◌+◌, ◌-◌, ◌%◌, ◌^◌, ◌<◌, ◌≤◌, ◌≡◌, refl, ap, ◌∙◌, arith}
use sockcan.Prelude.{Bool, leb, [], ◌∷◌, ◌++◌, length, take}
use sockcan.Prelude.{drop, get_or, replicate, take-append, length-append, ok, raise, struct_error}
use sockcan.Prelude.{
  ◌⊎◌, inl, inr, Bool-cases, length-drop, length-take, length-replicate, max, min,
}
use sockcan.Bytes.{
  Bytes, ByteOrder, pack_word, unpack_word, length-pack_word, unpack_word-pack_word,
}
use sockcan.Wire.{CanMessage, header_id, header_pack, header_unpack, ljust}
use sockcan.Prelude.{bit_and, not, ◌==◌}
use sockcan.Wire.{can_id_mask, can_eff_flag, frame_payload, decode_frame}
use sockcan.Wire.Header.{
  is_marked, header_id-lt, header_id-ge, header_id-mod, header_id-flag, id_bits,
}

-- The frame as the socket takes it.
unfoldable pub frame_bytes : ByteOrder → ℕ → Bytes → Bool → Bytes
frame_bytes o can_id bs ext =
    (pack_word o 4 (header_id can_id ext) ++ (length bs ∷ 0 ∷ 0 ∷ 0 ∷ [])) ++ ljust bs

length-ljust : (bs : Bytes) → length (ljust bs) ≡ max 8 (length bs)
unfolding ljust
length-ljust bs = omega (
  arith,
  length-append bs (replicate (8 - length bs) 0),
  length-replicate {A = ℕ} (8 - length bs) 0,
)

-- A frame in three parts: its word, the four bytes that follow, and the data.
module _ (o : ByteOrder) (x y p q : ℕ) (rest : Bytes) where
  abbrev three_parts : Bytes → Bytes
  three_parts word = (word ++ (x ∷ y ∷ p ∷ q ∷ [])) ++ rest

  -- The length is carried in from outside: at a variable word the parts are stuck.
  split_parts :
      (word : Bytes)
      → length word ≡ 4
      → (take 4 (three_parts word) ≡ word)
        × (get_or (three_parts word) 4 0 ≡ x)
        × (get_or (three_parts word) 5 0 ≡ y)
        × (drop 8 (three_parts word) ≡ rest)
  split_parts [] h = absurd (omega arith)
  split_parts (a ∷ []) h = absurd (omega arith)
  split_parts (a ∷ b ∷ []) h = absurd (omega arith)
  split_parts (a ∷ b ∷ c ∷ []) h = absurd (omega arith)
  split_parts (a ∷ b ∷ c ∷ d ∷ []) h = (refl, refl, refl, refl)
  split_parts (a ∷ b ∷ c ∷ d ∷ e ∷ word) h = absurd (omega arith)

  length-three_parts : (word : Bytes) → length (three_parts word) ≡ length word + 4 + length rest
  length-three_parts word = omega (
    arith,
    length-append (word ++ (x ∷ y ∷ p ∷ q ∷ [])) rest,
    length-append word (x ∷ y ∷ p ∷ q ∷ []),
  )

  header_unpack-three_parts :
      (word : Bytes)
      → length word ≡ 4
      → header_unpack o (three_parts word) ≡ ok (unpack_word o word, x, y)
  unfolding header_unpack
  header_unpack-three_parts word h = ground (arith, split_parts word h, length-three_parts word)

module _ (o : ByteOrder) (can_id : ℕ) (bs : Bytes) (ext : Bool) where
  pub payload_eq :
      can_id < 2 ^ 32
      → length bs < 256
      → frame_payload o can_id bs ext ≡ ok (frame_bytes o can_id bs ext)
  unfolding frame_payload header_pack frame_bytes
  payload_eq fits short = ground (arith, header_id-lt can_id ext)

  pub length-frame : length (frame_bytes o can_id bs ext) ≡ 8 + max 8 (length bs)
  unfolding frame_bytes
  length-frame = omega (
    arith,
    length-three_parts o (length bs) 0 0 0 (ljust bs) (pack_word o 4 (header_id can_id ext)),
    length-pack_word o 4 (header_id can_id ext),
    length-ljust bs,
  )

  pub unpack_eq :
      can_id < 2 ^ 32
      → header_unpack o (frame_bytes o can_id bs ext) ≡ ok (header_id can_id ext, length bs, 0)
  unfolding frame_bytes
  unpack_eq fits =
      header_unpack-three_parts o (length bs) 0 0 0 (ljust bs)
        (pack_word o 4 (header_id can_id ext)) (length-pack_word o 4 (header_id can_id ext))
      ∙ ap (λ w. ok (w, length bs, 0))
          (unpack_word-pack_word o 4 (header_id can_id ext) (header_id-lt can_id ext fits))

  data_eq : take (length bs) (drop 8 (frame_bytes o can_id bs ext)) ≡ bs
  unfolding frame_bytes ljust
  data_eq =
      ap (take (length bs))
        (split_parts o (length bs) 0 0 0 (ljust bs) (pack_word o 4 (header_id can_id ext))
          (length-pack_word o 4 (header_id can_id ext))).3
      ∙ take-append (length bs) bs (replicate (8 - length bs) 0) refl

  pub decode_eq :
      (t : ℕ)
      → can_id < 2 ^ 32
      → decode_frame o (frame_bytes o can_id bs ext) t
        ≡ ok (record {
          arbitration_id = can_id % 2 ^ 29;
          payload = bs;
          is_extended_id = is_marked can_id ext;
          timestamp = t;
        })
  unfolding decode_frame
  decode_eq t fits = ground (
    arith,
    unpack_eq fits,
    data_eq,
    id_bits (header_id can_id ext),
    header_id-mod can_id ext,
    header_id-flag can_id ext,
  )

-- A sender's frame for an identifier of 32 bits and up to 8 data bytes has 16 bytes, and a
-- receiver decodes it to a message with the low 29 bits of the identifier, the same data and the
-- time of reception. The message is extended exactly if the sender asked for it, or the identifier
-- has one of its bits 11 to 26, or has bit 31.
pub decode_frame-frame_payload :
    (o : ByteOrder) (can_id : ℕ) (bs : Bytes) (ext : Bool) (t : ℕ)
    → can_id < 2 ^ 32
    → length bs ≤ 8
    → (frame : Bytes) × (frame_payload o can_id bs ext ≡ ok frame)
      × (length frame ≡ 16)
      × (decode_frame o frame t
          ≡ ok (record {
            arbitration_id = can_id % 2 ^ 29;
            payload = bs;
            is_extended_id = is_marked can_id ext;
            timestamp = t;
          }))
decode_frame-frame_payload o can_id bs ext t fits short = (
  frame_bytes o can_id bs ext,
  payload_eq o can_id bs ext fits (omega arith),
  omega (arith, length-frame o can_id bs ext),
  decode_eq o can_id bs ext t fits,
)

-- No frame is built for an identifier beyond 32 bits or for more than 255 data bytes: the sender
-- raises struct.error.
pub frame_payload_refused :
    (o : ByteOrder) (can_id : ℕ) (bs : Bytes) (ext : Bool)
    → (2 ^ 32 ≤ can_id) ⊎ (256 ≤ length bs)
    → frame_payload o can_id bs ext ≡ raise struct_error
unfolding frame_payload header_pack
frame_payload_refused o can_id bs ext h = ground (arith, header_id-ge can_id ext)

-- A frame that is too short for a header is refused, and any other is decoded to at most as many
-- data bytes as the frame holds behind its header.
decode_frame_bounds :
    (o : ByteOrder) (cf : Bytes) (t : ℕ)
    → ((length cf < 8) × (decode_frame o cf t ≡ raise struct_error))
      ⊎ ((m : CanMessage) × (decode_frame o cf t ≡ ok m)
          × (m.arbitration_id < 2 ^ 29)
          × (length m.payload ≤ length cf - 8)
          × (length m.payload ≤ get_or cf 4 0))
unfolding decode_frame header_unpack
decode_frame_bounds o cf t = elim (Bool-cases (leb 8 (length cf))) [
  | inl long ↦ inr (m, rw long, rw id_bits (omega arith), omega (arith, len), omega (arith, len))
  | inr short ↦ inl (ground arith, rw short)
]
  where
    m : CanMessage
    m = record {
      arbitration_id = bit_and (unpack_word o (take 4 cf)) can_id_mask;
      payload = take (get_or cf 4 0) (drop 8 cf);
      is_extended_id = not (bit_and (unpack_word o (take 4 cf)) can_eff_flag == 0);
      timestamp = t;
    }

    len : length (take (get_or cf 4 0) (drop 8 cf)) ≡ min (get_or cf 4 0) (length cf - 8)
    len = omega (arith, length-take (get_or cf 4 0) (drop 8 cf), length-drop 8 cf)
