-- ===== src/Transcode/Packing.antt =====
-- src/sockcan/transcoders/_encoders.py: every signal of an encoded message is found in its own bits.
use sockcan.Prelude.{ℕ, ◌+◌, ◌*◌, ◌^◌, ◌≤◌, ◌<◌, ◌≡◌, refl, ap, ap₂, ◌∙◌}
use sockcan.Prelude.{◌⊎◌, inl, inr, List, [], ◌∷◌, All, Option, none, some}
use sockcan.Prelude.{Result, ok, bit_or, arith}
use sockcan.Bits.{bit_or-zero}
use sockcan.Prelude.{Dict, dict_get}
use sockcan.Transcode.{Numbers, SignalValue, pos}
use sockcan.Transcode.{encode_signals, encode_value}
use sockcan.Transcode.Build.{Signal, build_signal_properties, is_selected}
use sockcan.Transcode.Build.{extract_signal_properties}
use sockcan.Transcode.Fields.{field, field-bit_or, field_own, field_beside, masked}
use sockcan.Transcode.Fields.{shifted_lt, bit_or-lt, zero-bit_or}
use sockcan.Transcode.Count.{check_range-lt}
use native.Mathlib.Nat.{zero-mul}

-- The signal stays clear of the `w` bits from bit `k` on.
abbrev pub IsBeside : {N : Type 0} → ℕ → ℕ → Signal N → Type 0
IsBeside w k s = (k + w ≤ s.start) ⊎ (s.start + s.length ≤ k)

-- No two signals share a bit.
abbrev pub IsDisjoint : {N : Type 0} → List (Signal N) → Type 0
IsDisjoint [] = Unit
IsDisjoint (s ∷ ss) = All (IsBeside s.length s.start) ss × IsDisjoint ss

module _ {N : Type 0} (py : Numbers N) (payload : Dict (SignalValue N)) (raw : Signal N → ℕ) where
  -- The payload's value of the signal is the raw value, zero if it has none.
  abbrev pub IsValue : Signal N → Option (SignalValue N) → Type 0
  IsValue s none = raw s ≡ 0
  IsValue s (some v) = encode_value py (build_signal_properties py s) none v ≡ ok (pos (raw s))

  abbrev pub IsRaw : Signal N → Type 0
  IsRaw s = (raw s < 2 ^ s.length) × IsValue s (dict_get s.name payload)

  abbrev IsField : ℕ → Signal N → Type 0
  IsField e s = field e s.length s.start ≡ raw s

  abbrev IsEmpty : ℕ → Signal N → Type 0
  IsEmpty e s = field e s.length s.start ≡ 0

  abbrev pub encodes : List (Signal N) → ℕ → Result ℕ
  encodes ss acc = encode_signals py payload none (extract_signal_properties py ss none) acc

  -- One signal of the loop.
  added :
      (s : Signal N) (ss : List (Signal N)) (acc : ℕ) (o : Option (SignalValue N))
      → dict_get s.name payload ≡ o
      → raw s < 2 ^ s.length
      → IsValue s o
      → encodes (s ∷ ss) acc ≡ encodes ss (bit_or acc (raw s * 2 ^ s.start))
  unfolding encode_signals extract_signal_properties is_selected build_signal_properties
  added s ss acc none at small v = ground (
    arith,
    at,
    ap (λ r. bit_or acc (r * 2 ^ s.start)) v
        ∙ ap (bit_or acc) (zero-mul (2 ^ s.start))
        ∙ bit_or-zero acc,
  )
  added s ss acc (some value) at small v = ground (
    arith,
    at,
    v,
    check_range-lt (raw s) s.length s.start small,
    masked (raw s) s.length s.start small,
  )

  own :
      (s : Signal N) (acc : ℕ)
      → raw s < 2 ^ s.length
      → IsEmpty acc s
      → IsField (bit_or acc (raw s * 2 ^ s.start)) s
  own s acc small empty =
      field-bit_or acc (raw s * 2 ^ s.start) s.length s.start
      ∙ ap₂ bit_or empty (field_own (raw s) s.length s.start small)
      ∙ zero-bit_or (raw s)

  untouched :
      (s : Signal N) (acc w k : ℕ)
      → raw s < 2 ^ s.length
      → IsBeside w k s
      → field (bit_or acc (raw s * 2 ^ s.start)) w k ≡ field acc w k
  untouched s acc w k small beside =
      field-bit_or acc (raw s * 2 ^ s.start) w k
      ∙ ap (bit_or (field acc w k)) (field_beside (raw s) s.length s.start w k small beside)
      ∙ bit_or-zero (field acc w k)

  other_side : (s t : Signal N) → IsBeside s.length s.start t → IsBeside t.length t.start s
  other_side s t (inl above) = inr above
  other_side s t (inr below) = inl below

  still-IsEmpty :
      (s : Signal N) (acc : ℕ) (ss : List (Signal N))
      → raw s < 2 ^ s.length
      → All (IsBeside s.length s.start) ss
      → All (IsEmpty acc) ss
      → All (IsEmpty (bit_or acc (raw s * 2 ^ s.start))) ss
  still-IsEmpty s acc [] small beside empty = tt
  still-IsEmpty s acc (t ∷ ss) small beside empty = (
    untouched s acc t.length t.start small (other_side s t beside.0) ∙ empty.0,
    still-IsEmpty s acc ss small beside.1 empty.1,
  )

  pub encodes_lem :
      (ss : List (Signal N)) (acc m : ℕ)
      → IsDisjoint ss
      → All (λ s. s.length + s.start ≤ m) ss
      → All IsRaw ss
      → All (IsEmpty acc) ss
      → acc < 2 ^ m
      → (e : ℕ) × (encodes ss acc ≡ ok e)
        × (e < 2 ^ m)
        × All (IsField e) ss
        × ((w k : ℕ) → All (IsBeside w k) ss → field e w k ≡ field acc w k)
  unfolding encode_signals extract_signal_properties
  encodes_lem [] acc m apart fits raws empty small = (acc, refl, small, tt, λ w k _. refl)
  encodes_lem (s ∷ ss) acc m apart fits raws empty small =
      let acc' = bit_or acc (raw s * 2 ^ s.start) in
      let fit = shifted_lt (raw s) s.length s.start m raws.0.0 fits.0 in
      let (e, ran, small', fields, kept) =
        encodes_lem ss acc' m apart.1 fits.1 raws.1
          (still-IsEmpty s acc ss raws.0.0 apart.0 empty.1) (bit_or-lt m acc _ small fit) in
      (
        e,
        added s ss acc (dict_get s.name payload) refl raws.0.0 raws.0.1 ∙ ran,
        small',
        (kept s.length s.start apart.0 ∙ own s acc raws.0.0 empty.0, fields),
        λ w k beside. kept w k beside.1 ∙ untouched s acc w k raws.0.0 beside.0,
      )
