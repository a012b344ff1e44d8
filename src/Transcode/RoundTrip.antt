-- ===== src/Transcode/RoundTrip.antt =====
-- src/sockcan/transcoders: a message of signals that are scaled by natural numbers, through the encoder
-- and the decoder that are built for it.
use sockcan.Prelude.{ℕ, ◌+◌, ◌*◌, ◌^◌, ◌≤◌, ◌<◌, ◌≡◌, ap, ◌∙◌}
use sockcan.Prelude.{List, [], ◌∷◌, length, All, Bool, false, Option, none, some, ◌⊎◌, inl, inr}
use sockcan.Prelude.{Result, ok, arith}
use native.Mathlib.Nat.{mul-lt-mul_of_pos_left}
use sockcan.Prelude.{Dict, dict_get}
use sockcan.Bytes.{Bytes}
use sockcan.Transcode.{Numbers, SignalValue, SignalProperties, number, pos}
use sockcan.Transcode.{encode_value, is_named, plain_value, decode_value}
use sockcan.Transcode.Build.{Signal, Message, reversed_choices, build_signal_properties}
use sockcan.Transcode.Build.{build_encoder, build_decoder}
use sockcan.Transcode.Packing.{IsDisjoint, IsRaw, IsValue}
use sockcan.Transcode.Decoded.{IsNamedApart, IsShown, transcoded}

-- The signal has no choices, a scale that is a natural number and an offset that is one, if any; its
-- scaled values are below 2 ^ 53.
pub record IsScaled {N : Type 0} (py : Numbers N) (k o : ℕ) (s : Signal N) : Type 0 where
  pub scaled : s.scale ≡ py.of_int (pos k)
  pub shifted : (s.offset ≡ some (py.of_int (pos o))) ⊎ ((s.offset ≡ none) × (o ≡ 0))
  pub nameless : s.choices ≡ none
  pub positive : 0 < k
  pub exact : k * 2 ^ s.length ≤ 2 ^ 53

-- The payload has the physical value of `n` for the signal, or nothing if `n` is 0.
abbrev pub IsPhysical : {N : Type 0} → Numbers N → ℕ → ℕ → ℕ → Option (SignalValue N) → Type 0
IsPhysical py k o n none = n ≡ 0
IsPhysical py k o n (some v) = v ≡ number (py.of_int (pos (k * n + o)))

module _ {N : Type 0} (py : Numbers N)
    (mul_int : (m n : ℕ) → py.mul (py.of_int (pos m)) (py.of_int (pos n)) ≡ py.of_int (pos (m * n)))
    (add_int : (m n : ℕ) → py.add (py.of_int (pos m)) (py.of_int (pos n)) ≡ py.of_int (pos (m + n)))
    (sub_int : (m n : ℕ) → py.sub (py.of_int (pos (m + n))) (py.of_int (pos n)) ≡ py.of_int (pos m))
    (div_int : (k n : ℕ)
      → 0 < k
      → k * n < 2 ^ 53
      → py.true_div (py.of_int (pos (k * n))) (py.of_int (pos k)) ≡ ok (py.of_int (pos n)))
    (whole : (n : ℕ) → py.to_int (py.of_int (pos n)) ≡ ok (pos n)) where
  decode_value-scaled :
      (p : SignalProperties N) (choices : Bool) (k o n : ℕ)
      → p.reverse_named_values ≡ none
      → p.scale ≡ py.of_int (pos k)
      → p.offset ≡ py.of_int (pos o)
      → 0 < k
      → k * n < 2 ^ 53
      → decode_value py choices p n ≡ ok (number (py.of_int (pos n)))
  unfolding decode_value
  decode_value-scaled p choices k o n plain scale offset positive small = ground (
    arith,
    plain,
    scale,
    offset,
    mul_int k n,
    add_int (k * n) o,
    whole (k * n + o),
    sub_int (k * n) o,
    div_int k n positive small,
  )

  encode_value-scaled :
      (p : SignalProperties N) (k o n : ℕ)
      → p.named_values ≡ none
      → p.scale ≡ py.of_int (pos k)
      → p.offset ≡ py.of_int (pos o)
      → 0 < k
      → k * n < 2 ^ 53
      → encode_value py p none (number (py.of_int (pos (k * n + o)))) ≡ ok (pos n)
  unfolding encode_value is_named plain_value
  encode_value-scaled p k o n plain scale offset positive small =
      ground (arith, plain, scale, offset, sub_int (k * n) o, div_int k n positive small, whole n)

  in_range : (k n w : ℕ) → n < 2 ^ w → 0 < k → k * 2 ^ w ≤ 2 ^ 53 → k * n < 2 ^ 53
  in_range k n w small positive exact =
      let below = mul-lt-mul_of_pos_left small positive in omega (arith, below, exact)

  offset_eq :
      (k o : ℕ) (s : Signal N)
      → IsScaled py k o s
      → (build_signal_properties py s).offset ≡ py.of_int (pos o)
  unfolding build_signal_properties
  offset_eq k o s i = elim i.shifted [
    | inl e ↦ ground (arith, e)
    | inr (e, z) ↦ ground (arith, e, z)
  ]

  module _ (message : Message N) (payload : Dict (SignalValue N)) (factor shift raw : Signal N → ℕ)
      (choices : Bool) where
    abbrev pub IsGiven : Signal N → Type 0
    IsGiven s =
        (raw s < 2 ^ s.length)
        × IsPhysical py (factor s) (shift s) (raw s) (dict_get s.name payload)

    value_lem :
        (s : Signal N) (o : Option (SignalValue N))
        → IsScaled py (factor s) (shift s) s
        → raw s < 2 ^ s.length
        → IsPhysical py (factor s) (shift s) (raw s) o
        → IsValue py payload raw s o
    unfolding build_signal_properties
    value_lem s none i small given = given
    value_lem s (some v) i small given =
        ap (encode_value py (build_signal_properties py s) none) given
        ∙ encode_value-scaled (build_signal_properties py s) (factor s) (shift s) (raw s)
            (ap reversed_choices i.nameless) i.scaled (offset_eq (factor s) (shift s) s i)
            i.positive (in_range (factor s) (raw s) s.length small i.positive i.exact)

    shown_lem :
        (s : Signal N)
        → IsScaled py (factor s) (shift s) s
        → raw s < 2 ^ s.length
        → IsShown py raw (λ t. number (py.of_int (pos (raw t)))) choices s
    unfolding build_signal_properties
    shown_lem s i small =
        decode_value-scaled (build_signal_properties py s) choices (factor s) (shift s) (raw s)
          (ap (λ c. reversed_choices (reversed_choices c)) i.nameless) i.scaled
          (offset_eq (factor s) (shift s) s i) i.positive
          (in_range (factor s) (raw s) s.length small i.positive i.exact)

    given_lem :
        (ss : List (Signal N))
        → All (λ s. IsScaled py (factor s) (shift s) s) ss
        → All IsGiven ss
        → All (IsRaw py payload raw) ss
          × All (IsShown py raw (λ t. number (py.of_int (pos (raw t)))) choices) ss
    given_lem [] scaled given = (tt, tt)
    given_lem (s ∷ ss) scaled given =
        let rest = given_lem ss scaled.1 given.1 in
        (
          ((given.0.0, value_lem s (dict_get s.name payload) scaled.0 given.0.0 given.0.1), rest.0),
          (shown_lem s scaled.0 given.0.0, rest.1),
        )

    -- For a message without multiplexing, whose signals share no bit and no name, fit its length and
    -- have no choices, with a scale k > 0 and an offset o that are natural numbers and with k times
    -- any raw value below 2 ^ 53: a payload that has k * n + o for each signal, for a raw value n in
    -- the signal's range, or leaves out signals with n = 0, is encoded to as many bytes as the message
    -- has. The decoder is built, decodes these bytes without an error, and gives n for every signal:
    -- the value that was encoded where k = 1 and o = 0, the raw value and not the physical one
    -- elsewhere.
    pub transcode_round_trip :
        message.is_multiplexed ≡ false
        → IsDisjoint message.signals
        → IsNamedApart message.signals
        → All (λ s. s.length + s.start ≤ 8 * message.length) message.signals
        → All (λ s. IsScaled py (factor s) (shift s) s) message.signals
        → All IsGiven message.signals
        → (bytes : Bytes) × (f : Bytes → Result (Dict (SignalValue N))) × (d : Dict (SignalValue N))
          × (build_encoder py message payload ≡ ok bytes)
          × (length bytes ≡ message.length)
          × (build_decoder py message choices none ≡ ok f)
          × (f bytes ≡ ok d)
          × All (λ s. dict_get s.name d ≡ some (number (py.of_int (pos (raw s))))) message.signals
    transcode_round_trip plain apart named fits scaled given =
        let all = given_lem message.signals scaled given in
        transcoded py message payload choices raw (λ t. number (py.of_int (pos (raw t)))) plain
          apart named fits all.0 all.1
