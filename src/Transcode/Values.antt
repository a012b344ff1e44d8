-- ===== src/Transcode/Values.antt =====
-- src/sockcan/transcoders: what the encoder makes of a string.
use sockcan.Prelude.{ℕ, ◌≡◌, refl, List, [], ◌∷◌, ◌++◌, Option, none, some}
use sockcan.Prelude.{
  Result, ok, raise, Exception, ◌>>=◌, assertion_error, arith, Option-cases, inl, inr,
}
use sockcan.Prelude.{bit_and, bit_or, ◌*◌, ◌^◌}
use sockcan.Prelude.{Dict, dict_get}
use sockcan.Transcode.{Numbers, SignalValue, text, SignalProperties}
use sockcan.Transcode.{
  is_named, named_value, plain_value, encode_value, encode_signals, check_range,
}
use sockcan.Transcode.{encode}
use sockcan.Transcode.Build.{Signal, Message, build_signal_properties, is_selected}
use sockcan.Transcode.Build.{extract_signal_properties, build_encoder}

Raises : {A : Type 0} → Result A → Type 0
Raises r = (e : Exception) × (r ≡ raise e)

bind-Raises :
    {A : Type 0} {B : Type 0} (r : Result A) (f : A → Result B)
    → ((a : A) → Raises (f a))
    → Raises (r >>= f)
unfolding Raises
bind-Raises (ok a) f h = h a
bind-Raises (raise e) f h = (e, refl)

module _ {N : Type 0} (py : Numbers N) where
  encode_value-text :
      (p : SignalProperties N) (t : ℕ) → encode_value py p none (text t) ≡ raise assertion_error
  unfolding encode_value is_named named_value plain_value
  encode_value-text p t = elim (Option-cases p.named_values) [
    | inl e ↦ ground (arith, e)
    | inr (d, e) ↦ ground (arith, e)
  ]

  step-Raises :
      (payload : Dict (SignalValue N)) (p : SignalProperties N) (ps : List (SignalProperties N))
      (acc : ℕ) (o : Option (SignalValue N))
      → dict_get p.name payload ≡ o
      → ((n : ℕ) → Raises (encode_signals py payload none ps n))
      → Raises (encode_signals py payload none (p ∷ ps) acc)
  unfolding encode_signals Raises
  step-Raises payload p ps acc none at later = let (e, q) = later acc in (e, ground (arith, at, q))
  step-Raises payload p ps acc (some value) at later =
      let next : ℕ → Result ℕ = λ n.
        encode_signals py payload none ps (bit_or acc (bit_and (n * 2 ^ p.bit_offset) p.mask)) in
      let (e, q) =
        bind-Raises (encode_value py p none value) (λ v. check_range p.mask v >>= next)
          (λ v. bind-Raises (check_range p.mask v) next (λ n. later _)) in
      (e, ground (arith, at, q))

  text-Raises :
      (payload : Dict (SignalValue N)) (ss ts : List (Signal N)) (s : Signal N) (t acc : ℕ)
      → dict_get s.name payload ≡ some (text t)
      → Raises
          (encode_signals py payload none (extract_signal_properties py (ss ++ (s ∷ ts)) none) acc)
  unfolding encode_signals extract_signal_properties is_selected build_signal_properties Raises
  text-Raises payload [] ts s t acc at =
      (assertion_error, ground (arith, at, encode_value-text (build_signal_properties py s) t))
  text-Raises payload (r ∷ ss) ts s t acc at =
      step-Raises payload (build_signal_properties py r)
        (extract_signal_properties py (ss ++ (s ∷ ts)) none) acc (dict_get r.name payload) refl
        (λ n. text-Raises payload ss ts s t n at)

  -- A payload that has a string for some signal of the message is never encoded, whether the signal
  -- has named values or not: the encoder raises.
  pub build_encoder-text :
      (message : Message N) (payload : Dict (SignalValue N)) (ss ts : List (Signal N))
      (s : Signal N) (t : ℕ)
      → message.signals ≡ ss ++ (s ∷ ts)
      → dict_get s.name payload ≡ some (text t)
      → (e : Exception) × (build_encoder py message payload ≡ raise e)
  unfolding build_encoder encode Raises
  build_encoder-text message payload ss ts s t here at =
      let (e, q) = text-Raises payload ss ts s t 0 at in (e, ground (arith, here, q))
