-- ===== src/Transcode.antt =====
-- src/sockcan/transcoders: the encoding of a message's signals into its data bytes, and back. A
-- string is known by a number, since the code only compares strings. The numbers of Python, int and
-- float, are a parameter with their operations, since the results of a float are its own.
pub mod Build
pub mod Fields
pub mod Packing
pub mod Decoded
pub mod RoundTrip
pub mod Values
mod Examples
pub mod Count
use sockcan.Prelude.{ℕ, zero, suc, ◌+◌, ◌-◌, ◌*◌, ◌/◌, ◌%◌, ◌^◌, bit_and, bit_or, List, [], ◌∷◌}
use sockcan.Prelude.{Bool, true, false, ◌&&◌, ltb, ◌==◌, if◌then◌else◌, Option, none, some}
use sockcan.Prelude.{Result, ok, raise, ◌>>=◌, assertion_error, key_error, overflow_error}
use sockcan.Prelude.{Dict, dict_get, dict_set}
use sockcan.Bytes.{Bytes, le_bytes, le_value}

-- The integers, as the library has them, over the native numbers.
pub data ℤ : Type 0 where
  pos negsuc : ℕ → ℤ

-- `true_div` and `to_int` raise what Python's `/` and `int` raise.
pub record Numbers (N : Type 0) : Type 0 where
  pub of_int : ℤ → N
  pub sub : N → N → N
  pub mul : N → N → N
  pub add : N → N → N
  pub true_div : N → N → Result N
  pub to_int : N → Result ℤ

pub data SignalValue (N : Type 0) : Type 0 where
  number : N → SignalValue N
  text : ℕ → SignalValue N

pub record SignalProperties (N : Type 0) : Type 0 where
  pub name : ℕ
  pub mask : ℕ
  pub bit_offset : ℕ
  pub scale : N
  pub offset : N
  pub named_values : Option (Dict ℕ)
  pub reverse_named_values : Option (Dict ℕ)

abbrev pub is_some : {A : Type 0} → Option A → Bool
is_some none = false
is_some (some a) = true

abbrev pub is_text : {N : Type 0} → SignalValue N → Bool
is_text (number x) = false
is_text (text t) = true

unfoldable pub bit_count_loop : ℕ → ℕ → ℕ
bit_count_loop zero n = 0
bit_count_loop (suc fuel) n = n % 2 + bit_count_loop fuel (n / 2)

-- `int.bit_count`: a number has fewer digits than its value.
unfoldable pub bit_count : ℕ → ℕ
unfolding bit_count_loop
bit_count n = bit_count_loop n n

-- `int.to_bytes` in little endian, unsigned.
unfoldable pub to_bytes : ℕ → ℕ → Result Bytes
to_bytes dlc n = if ltb n (256 ^ dlc) then ok (le_bytes dlc n) else raise overflow_error

-- The check that the value fits the signal's bits.
unfoldable pub check_range : ℕ → ℤ → Result ℕ
unfolding bit_count
check_range mask (negsuc n) = raise overflow_error
check_range mask (pos n) = if ltb (2 ^ bit_count mask - 1) n then raise overflow_error else ok n

unfoldable pub raw_value : {N : Type 0} → ℕ → SignalProperties N → ℕ
raw_value payload p = bit_and payload p.mask / 2 ^ p.bit_offset

module _ {N : Type 0} (py : Numbers N) where
  unfoldable pub is_named : SignalProperties N → Option Bool → SignalValue N → Bool
  is_named p named_values value =
      if is_some p.named_values
      then false
      else elim named_values [ none ↦ is_text value | some b ↦ b ]

  unfoldable pub named_value : SignalProperties N → SignalValue N → Result ℤ
  named_value p (number x) = raise assertion_error
  named_value p (text t) = elim p.named_values [
    | none ↦ raise assertion_error
    | some d ↦ elim (dict_get t d) [ none ↦ raise key_error | some i ↦ ok (pos i) ]
  ]

  unfoldable pub plain_value : SignalProperties N → SignalValue N → Result ℤ
  plain_value p (text t) = raise assertion_error
  plain_value p (number x) = py.true_div (py.sub x p.offset) p.scale >>= py.to_int

  unfoldable pub encode_value : SignalProperties N → Option Bool → SignalValue N → Result ℤ
  unfolding is_named named_value plain_value
  encode_value p named_values value =
      if is_named p named_values value then named_value p value else plain_value p value

  unfoldable pub encode_signals :
      Dict (SignalValue N) → Option Bool → List (SignalProperties N) → ℕ → Result ℕ
  unfolding dict_get encode_value check_range
  encode_signals payload named_values [] encoded = ok encoded
  encode_signals payload named_values (p ∷ ps) encoded = elim (dict_get p.name payload) [
    | none ↦ encode_signals payload named_values ps encoded
    | some value ↦ encode_value p named_values value >>= λ v. check_range p.mask v >>= λ n.
        encode_signals payload named_values ps
          (bit_or encoded (bit_and (n * 2 ^ p.bit_offset) p.mask))
  ]

  unfoldable pub encode :
      Dict (SignalValue N) → List (SignalProperties N) → ℕ → Option Bool → Result Bytes
  unfolding encode_signals to_bytes
  encode payload signals dlc named_values =
      encode_signals payload named_values signals 0 >>= to_bytes dlc

  unfoldable pub decode_value : Bool → SignalProperties N → ℕ → Result (SignalValue N)
  unfolding dict_get
  decode_value decode_choices p raw =
      let scaled = py.to_int (py.add (py.mul p.scale (py.of_int (pos raw))) p.offset) >>= λ v.
      py.true_div (py.sub (py.of_int v) p.offset) p.scale >>= λ x. ok (number x) in
      elim p.reverse_named_values [
        | none ↦ scaled
        | some d ↦
            if decode_choices
            then elim (dict_get raw d) [ none ↦ raise key_error | some t ↦ ok (text t) ]
            else scaled
      ]

  unfoldable pub decode_signals :
      ℕ → Bool → List (SignalProperties N) → Dict (SignalValue N) → Result (Dict (SignalValue N))
  unfolding raw_value decode_value dict_set
  decode_signals payload decode_choices [] decoded = ok decoded
  decode_signals payload decode_choices (p ∷ ps) decoded =
      decode_value decode_choices p (raw_value payload p) >>= λ v.
      decode_signals payload decode_choices ps (dict_set p.name v decoded)

-- The `signals` and the `mux_selector` of `decode`.
pub data Layout (N : Type 0) : Type 0 where
  flat : List (SignalProperties N) → Layout N
  multiplexed : Dict (List (SignalProperties N)) → SignalProperties N → Layout N

abbrev pub or_empty : {V : Type 0} → Option (Dict V) → Dict V
or_empty none = []
or_empty (some d) = d

-- A container that is not empty is updated in place: the result is then also what the next call gets
-- as its container.
unfoldable pub decode :
    {N : Type 0}
    → Numbers N
    → Bytes
    → Layout N
    → Bool
    → Option (Dict (SignalValue N))
    → Result (Dict (SignalValue N))
unfolding decode_signals le_value
decode py payload (flat signals) decode_choices container =
    decode_signals py (le_value payload) decode_choices signals (or_empty container)
decode py payload (multiplexed signals mux_selector) decode_choices container =
    elim (dict_get (raw_value (le_value payload) mux_selector) signals) [
      | none ↦ raise key_error
      | some ps ↦ decode_signals py (le_value payload) decode_choices ps (or_empty container)
    ]
