-- ===== src/Transcode/Build.antt =====
-- src/sockcan/transcoders: what the builders of the encoder and the decoder make of a message of the
-- cantools library, whose attributes are a record here.
use sockcan.Prelude.{ℕ, ◌-◌, ◌*◌, ◌^◌, List, [], ◌∷◌, ◌++◌, Bool, true}
use sockcan.Prelude.{if◌then◌else◌, Option, none, some, Result, ok, raise, ◌>>=◌, assertion_error}
use sockcan.Prelude.{Dict, dict_set}
use sockcan.Bytes.{Bytes}
use sockcan.Filters.Exact.{contains}
use sockcan.Transcode.{Numbers, SignalValue, SignalProperties, pos, Layout, flat}
use sockcan.Transcode.{multiplexed, encode, decode}

-- The attributes of a cantools `Signal` that are read. `choices` has the strings by their keys.
pub record Signal (N : Type 0) : Type 0 where
  pub name : ℕ
  pub start : ℕ
  pub length : ℕ
  pub scale : N
  pub offset : Option N
  pub choices : Option (Dict ℕ)
  pub is_multiplexer : Bool
  pub multiplexer_ids : Option (List ℕ)

-- The attributes of a cantools `Message` that are read.
pub record Message (N : Type 0) : Type 0 where
  pub signals : List (Signal N)
  pub length : ℕ
  pub is_multiplexed : Bool

-- `{val: key for key, val in d.items()}`
unfoldable pub reversed : Dict ℕ → Dict ℕ → Dict ℕ
unfolding dict_set
reversed [] acc = acc
reversed ((key, val) ∷ d) acc = reversed d (dict_set val key acc)

abbrev pub reversed_choices : Option (Dict ℕ) → Option (Dict ℕ)
reversed_choices none = none
reversed_choices (some d) = some (reversed d [])

module _ {N : Type 0} where
  -- `selector is None or sig.multiplexer_ids is None or selector in sig.multiplexer_ids`
  unfoldable pub is_selected : Option ℕ → Signal N → Bool
  unfolding contains
  is_selected none sig = true
  is_selected (some selector) sig = elim sig.multiplexer_ids [
    | none ↦ true
    | some ids ↦ contains selector ids
  ]

  unfoldable pub selectors : List (Signal N) → List (Signal N)
  selectors [] = []
  selectors (sig ∷ sigs) =
      let rest = selectors sigs in if sig.is_multiplexer then sig ∷ rest else rest

  -- The identifiers in any order: each gets the same signals whenever it comes.
  unfoldable pub all_mux_ids : List (Signal N) → List ℕ
  all_mux_ids [] = []
  all_mux_ids (sig ∷ sigs) = elim sig.multiplexer_ids [
    | none ↦ all_mux_ids sigs
    | some ids ↦ ids ++ all_mux_ids sigs
  ]

module _ {N : Type 0} (py : Numbers N) where
  unfoldable pub build_signal_properties : Signal N → SignalProperties N
  build_signal_properties signal = record {
    name = signal.name;
    mask = (2 ^ signal.length - 1) * 2 ^ signal.start;
    bit_offset = signal.start;
    scale = signal.scale;
    offset = elim signal.offset [ none ↦ py.of_int (pos 0) | some x ↦ x ];
    named_values = reversed_choices signal.choices;
    reverse_named_values = reversed_choices (reversed_choices signal.choices);
  }

  unfoldable pub extract_signal_properties : List (Signal N) → Option ℕ → List (SignalProperties N)
  unfolding build_signal_properties is_selected
  extract_signal_properties [] selector = []
  extract_signal_properties (sig ∷ sigs) selector =
      let rest = extract_signal_properties sigs selector in
      if is_selected selector sig then build_signal_properties sig ∷ rest else rest

  unfoldable pub build_encoder : Message N → Dict (SignalValue N) → Result Bytes
  unfolding extract_signal_properties encode
  build_encoder message payload =
      encode py payload (extract_signal_properties message.signals none) message.length none

  unfoldable pub mux_mapping :
      List (Signal N) → List ℕ → Dict (List (SignalProperties N)) → Dict (List (SignalProperties N))
  unfolding extract_signal_properties dict_set
  mux_mapping signals [] acc = acc
  mux_mapping signals (i ∷ ids) acc =
      mux_mapping signals ids (dict_set i (extract_signal_properties signals (some i)) acc)

  -- `assert len(selectors) == 1`
  unfoldable pub multiplexed_layout : List (Signal N) → List (Signal N) → Result (Layout N)
  unfolding all_mux_ids mux_mapping
  multiplexed_layout signals (s ∷ []) =
      ok (multiplexed (mux_mapping signals (all_mux_ids signals) []) (build_signal_properties s))
  multiplexed_layout signals [] = raise assertion_error
  multiplexed_layout signals (s ∷ t ∷ ss) = raise assertion_error

  unfoldable pub decoder_layout : Message N → Result (Layout N)
  unfolding selectors multiplexed_layout
  decoder_layout message =
      if message.is_multiplexed
      then multiplexed_layout message.signals (selectors message.signals)
      else ok (flat (extract_signal_properties message.signals none))

  unfoldable pub build_decoder :
      Message N
      → Bool
      → Option (Dict (SignalValue N))
      → Result (Bytes → Result (Dict (SignalValue N)))
  unfolding decoder_layout decode
  build_decoder message decode_choices container = decoder_layout message >>= λ layout.
      ok (λ payload. decode py payload layout decode_choices container)
