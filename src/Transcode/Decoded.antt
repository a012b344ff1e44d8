-- ===== src/Transcode/Decoded.antt =====
-- src/sockcan/transcoders: a message through the encoder and the decoder that are built for it.
use sockcan.Prelude.{ℕ, zero, suc, ◌+◌, ◌*◌, ◌/◌, ◌^◌, ◌≤◌, ◌<◌, ◌≡◌, ◌≢◌, refl, sym, ap, ◌∙◌}
use sockcan.Prelude.{List, [], ◌∷◌, length, All, Bool, false, none, some}
use sockcan.Prelude.{Result, ok, arith, subst}
use native.Mathlib.Nat.{pow-succ', one-le-pow, mul-div_left}
use sockcan.Bits.{bit_and_field}
use sockcan.Prelude.{Dict, dict_get, dict_set, dict_get_own, dict_get_other}
use sockcan.Bytes.{Bytes, le_value, le_bytes, length-le_bytes, le_value-le_bytes}
use sockcan.Transcode.{Numbers, SignalValue, flat, raw_value}
use sockcan.Transcode.{encode, to_bytes, decode_value, decode_signals, decode}
use sockcan.Transcode.Build.{Signal, Message, build_signal_properties, is_selected}
use sockcan.Transcode.Build.{
  extract_signal_properties, build_encoder, decoder_layout, build_decoder,
}
use sockcan.Transcode.Fields.{field, empty_field, pow-add}
use sockcan.Transcode.Packing.{IsDisjoint, IsRaw, encodes_lem}

pow_bytes : (n : ℕ) → 2 ^ (8 * n) ≡ 256 ^ n
pow_bytes zero = refl
pow_bytes (suc n) =
    ap (λ t. 2 ^ t) (next_byte n)
    ∙ pow-add 8 (8 * n)
    ∙ ap (λ t. 256 * t) (pow_bytes n)
    ∙ sym (pow-succ' 256 n)
  where
    next_byte : (n : ℕ) → 8 * suc n ≡ 8 + 8 * n
    next_byte n = omega arith

-- No two signals have the same name.
abbrev pub IsNamedApart : {N : Type 0} → List (Signal N) → Type 0
IsNamedApart [] = Unit
IsNamedApart (s ∷ ss) = All (λ t. t.name ≢ s.name) ss × IsNamedApart ss

module _ {N : Type 0} (py : Numbers N) where
  raw_value-field :
      (e : ℕ) (s : Signal N) → raw_value e (build_signal_properties py s) ≡ field e s.length s.start
  unfolding raw_value build_signal_properties field
  raw_value-field e s =
      ap (λ t. t / 2 ^ s.start) (bit_and_field s.length s.start e)
      ∙ mul-div_left (field e s.length s.start) (one-le-pow s.start 2 (omega arith))

  -- The signal's bits decode to the value.
  abbrev pub IsShown : (Signal N → ℕ) → (Signal N → SignalValue N) → Bool → Signal N → Type 0
  IsShown raw shown decode_choices s =
      decode_value py decode_choices (build_signal_properties py s) (raw s) ≡ ok (shown s)

  decode_signals_lem :
      (raw : Signal N → ℕ) (shown : Signal N → SignalValue N) (decode_choices : Bool) (e : ℕ)
      (ss : List (Signal N)) (d : Dict (SignalValue N))
      → IsNamedApart ss
      → All (λ s. field e s.length s.start ≡ raw s) ss
      → All (IsShown raw shown decode_choices) ss
      → (d' : Dict (SignalValue N)) × (decode_signals py e decode_choices
            (extract_signal_properties py ss none)
            d
          ≡ ok d')
        × All (λ s. dict_get s.name d' ≡ some (shown s)) ss
        × ((j : ℕ) → All (λ s. s.name ≢ j) ss → dict_get j d' ≡ dict_get j d)
  unfolding decode_signals extract_signal_properties is_selected build_signal_properties
  decode_signals_lem raw shown choices e [] d apart at shows = (d, refl, tt, λ j _. refl)
  decode_signals_lem raw shown choices e (s ∷ ss) d apart at shows =
      let (d', ran, got, kept) =
        decode_signals_lem raw shown choices e ss (dict_set s.name (shown s) d) apart.1 at.1
          shows.1 in
      (
        d',
        ground (arith, raw_value-field e s, at.0, shows.0, ran),
        (kept s.name apart.0 ∙ dict_get_own s.name (shown s) d, got),
        λ j other. kept j other.1 ∙ dict_get_other j s.name (shown s) d other.0,
      )

  All-IsEmpty : (ss : List (Signal N)) → All (λ s. field 0 s.length s.start ≡ 0) ss
  All-IsEmpty [] = tt
  All-IsEmpty (s ∷ ss) = (empty_field s.length s.start, All-IsEmpty ss)

  -- The message that the encoder makes.
  encoder_lem :
      (message : Message N) (payload : Dict (SignalValue N)) (raw : Signal N → ℕ)
      → IsDisjoint message.signals
      → All (λ s. s.length + s.start ≤ 8 * message.length) message.signals
      → All (IsRaw py payload raw) message.signals
      → (bytes : Bytes) × (build_encoder py message payload ≡ ok bytes)
        × (length bytes ≡ message.length)
        × All (λ s. field (le_value bytes) s.length s.start ≡ raw s) message.signals
  unfolding build_encoder encode to_bytes
  encoder_lem message payload raw apart fits raws =
      let (e, ran, small, fields, kept) =
        encodes_lem py payload raw message.signals 0 (8 * message.length) apart fits raws
          (All-IsEmpty message.signals) (one-le-pow (8 * message.length) 2 (omega arith)) in
      let room = subst (λ t. e < t) (pow_bytes message.length) small in
      (
        le_bytes message.length e,
        ground (arith, ran, room),
        length-le_bytes message.length e,
        subst (λ v. All (λ s. field v s.length s.start ≡ raw s) message.signals)
            (sym (le_value-le_bytes message.length e room)) fields,
      )

  -- The encoder and the decoder in a row, for raw values that decode to `shown`.
  pub transcoded :
      (message : Message N) (payload : Dict (SignalValue N)) (decode_choices : Bool)
      (raw : Signal N → ℕ) (shown : Signal N → SignalValue N)
      → message.is_multiplexed ≡ false
      → IsDisjoint message.signals
      → IsNamedApart message.signals
      → All (λ s. s.length + s.start ≤ 8 * message.length) message.signals
      → All (IsRaw py payload raw) message.signals
      → All (IsShown raw shown decode_choices) message.signals
      → (bytes : Bytes) × (f : Bytes → Result (Dict (SignalValue N))) × (d : Dict (SignalValue N))
        × (build_encoder py message payload ≡ ok bytes)
        × (length bytes ≡ message.length)
        × (build_decoder py message decode_choices none ≡ ok f)
        × (f bytes ≡ ok d)
        × All (λ s. dict_get s.name d ≡ some (shown s)) message.signals
  unfolding build_decoder decoder_layout decode
  transcoded message payload choices raw shown plain apart named fits raws shows =
      let (bytes, ran, size, fields) = encoder_lem message payload raw apart fits raws in
      let (d, decoded, got, kept) =
        decode_signals_lem raw shown choices (le_value bytes) message.signals [] named fields
          shows in
      (
        bytes,
        λ b. decode py b (flat (extract_signal_properties py message.signals none)) choices none,
        d,
        ran,
        size,
        ground (arith, plain),
        decoded,
        got,
      )
