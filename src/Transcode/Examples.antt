-- ===== src/Transcode/Examples.antt =====
-- A message of two signals over whole numbers, and the theorems about the transcoders at it.
use sockcan.Prelude.{ℕ, ◌+◌, ◌-◌, ◌*◌, ◌/◌, ◌≡◌, refl, [], ◌∷◌, length, All, arith}
use sockcan.Prelude.{
  true, false, ◌==◌, if◌then◌else◌, Option, none, some, inl, ◌<◌, ◌^◌, ap, Result, ok, raise,
  Exception, inr,
}
use sockcan.Prelude.{Dict, dict_get}
use native.Mathlib.Nat.{mul-div_right}
use sockcan.Bytes.{Bytes, le_bytes}
use sockcan.Transcode.{ℤ, pos, negsuc, Numbers, SignalValue, number, text}
use sockcan.Transcode.Build.{Signal, Message, build_encoder, build_decoder}
use sockcan.Transcode.RoundTrip.{transcode_round_trip}
use sockcan.Transcode.Values.{build_encoder-text}

abbrev both : (ℕ → ℕ → ℕ) → ℤ → ℤ → ℤ
both f (pos m) (pos n) = pos (f m n)
both f (pos m) (negsuc n) = negsuc n
both f (negsuc m) b = negsuc m

-- Whole numbers, for payloads that need no others and results that are not negative.
abbrev whole : Numbers ℤ
whole = record {
  of_int = λ z. z;
  sub = both (λ m n. m - n);
  mul = both (λ m n. m * n);
  add = both (λ m n. m + n);
  true_div = λ a b. ok (both (λ m n. m / n) a b);
  to_int = λ z. ok z;
}

abbrev signal : ℕ → ℕ → ℕ → ℤ → Option ℤ → Signal ℤ
signal name start width scale offset = record {
  name = name;
  start = start;
  length = width;
  scale = scale;
  offset = offset;
  choices = none;
  is_multiplexer = false;
  multiplexer_ids = none;
}

-- The signal 1 has twelve bits across two bytes, a scale of 2 and an offset of 5, the signal 2 has
-- four bits and no offset.
abbrev message : Message ℤ
message = record {
  signals = signal 1 4 12 (pos 2) (some (pos 5)) ∷ signal 2 0 4 (pos 1) none ∷ [];
  length = 2;
  is_multiplexed = false;
}

abbrev raw : Signal ℤ → ℕ
raw s = if s.name == 1 then 0xABC else 0

abbrev factor : Signal ℤ → ℕ
factor s = if s.name == 1 then 2 else 1

abbrev shift : Signal ℤ → ℕ
shift s = if s.name == 1 then 5 else 0

abbrev payload : Dict (SignalValue ℤ)
payload = (1, number (pos 0x157D)) ∷ []

packed : build_encoder whole message payload ≡ ok (0xC0 ∷ 0xAB ∷ [])
unfolding build_encoder le_bytes
packed = refl

whole-sub : (m n : ℕ) → whole.sub (pos (m + n)) (pos n) ≡ pos m
whole-sub m n = ap pos (omega arith)

whole-true_div :
    (k n : ℕ) → 0 < k → k * n < 2 ^ 53 → whole.true_div (pos (k * n)) (pos k) ≡ ok (pos n)
whole-true_div k n positive small = ap (λ q. ok (pos q)) (mul-div_right n positive)

transcode_round_trip_example :
    (bytes : Bytes) × (f : Bytes → Result (Dict (SignalValue ℤ))) × (d : Dict (SignalValue ℤ))
    × (build_encoder whole message payload ≡ ok bytes)
    × (length bytes ≡ 2)
    × (build_decoder whole message true none ≡ ok f)
    × (f bytes ≡ ok d)
    × All (λ s. dict_get s.name d ≡ some (number (pos (raw s)))) message.signals
unfolding dict_get
transcode_round_trip_example =
    transcode_round_trip whole (λ m n. refl) (λ m n. refl) whole-sub whole-true_div (λ n. refl)
      message payload factor shift raw true refl ((inr (omega arith), tt), (tt, tt))
      ((λ e. absurd (omega arith), tt), (tt, tt)) (omega arith, (omega arith, tt))
      (
        record {
          scaled = refl;
          shifted = inl refl;
          nameless = refl;
          positive = omega arith;
          exact = omega arith;
        },
        (
          record {
            scaled = refl;
            shifted = inr (refl, refl);
            nameless = refl;
            positive = omega arith;
            exact = omega arith;
          },
          tt,
        ),
      )
      ((omega arith, refl), ((omega arith, refl), tt))

build_encoder-text_example :
    (e : Exception) × (build_encoder whole message ((2, text 7) ∷ []) ≡ raise e)
unfolding dict_get
build_encoder-text_example =
    build_encoder-text whole message ((2, text 7) ∷ []) (signal 1 4 12 (pos 2) (some (pos 5)) ∷ [])
      [] (signal 2 0 4 (pos 1) none) 7 refl refl
