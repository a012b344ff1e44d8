-- ===== src/Candump/RoundTrip.antt =====
-- A line of the trace can be read back.
use sockcan.Prelude.{
  ℕ, zero, suc, ◌-◌, ◌/◌, ◌≤◌, ◌<◌, ◌≢◌, List, [], ◌∷◌, ◌++◌, ◌≡◌, refl, sym, ap, ap₂, ◌∙◌,
}
use sockcan.Prelude.{
  arith, Bool, true, false, ◌==◌, if◌then◌else◌, ltb, Option, none, some, map, Bool-cases,
}
use sockcan.Prelude.{
  All, All-append, All-implies, Text, codes, str, decimal, decimal-digits, length,
}
use sockcan.Prelude.{length-append, replicate, append_assoc, inl, inr}
use sockcan.Bytes.{Bytes}
use sockcan.Backlog.{Frame}
use sockcan.Candump.{
  TraceDirection, rx, tx, direction_text, hex, hex_field, id_field, payload_field,
}
use sockcan.Candump.{pad, trace_line}
use sockcan.Candump.Hex.{unhex, unhex-hex_field, length-hex_field, IsInk, hex_field-IsInk}
use sockcan.Candump.Words.{words, words-word, words-pad, words-spaces, words-join}

-- A reader of its own: the counter with its bracket, the direction and the frame, of which an
-- identifier with eight digits is an extended one.
unfoldable pub read_entry : List Text → Option (Text × Text × Frame)
read_entry (number ∷ (offset ∷ (bus ∷ (direction ∷ (can_id ∷ (size ∷ payload)))))) = some (
  number,
  direction,
  record { can_id = unhex can_id; payload = map unhex payload; is_extended = length can_id == 8 },
)
read_entry _ = none

-- Something is written, and no space.
abbrev pub IsWord : Text → Type 0
IsWord w = All IsInk w × (w ≢ [])

pub long-text : (w : Text) → 1 ≤ length w → w ≢ []
long-text w h e = omega (arith, h, ap length e)

hex-length : (fuel n : ℕ) → 1 ≤ length (hex fuel n)
unfolding hex
hex-length zero n = omega arith
hex-length (suc fuel) n = elim (Bool-cases (ltb n 16)) [
  | inl small ↦ rw (small, hex) (omega arith)
  | inr large ↦ rw (large, hex) (omega (arith, length-append (hex fuel (n / 16)) _))
]

pub hex_field-IsWord : (width n : ℕ) → IsWord (hex_field width n)
unfolding hex_field
hex_field-IsWord width n = (
  hex_field-IsInk width n,
  long-text (hex_field width n) (
      omega
        (arith, length-append (replicate (width - length (hex n n)) 48) (hex n n), hex-length n n)),
)

decimal-length : (fuel n : ℕ) → 1 ≤ length (decimal fuel n)
unfolding decimal
decimal-length zero n = omega arith
decimal-length (suc fuel) n = elim (Bool-cases (ltb n 10)) [
  | inl small ↦ rw (small, decimal) (omega arith)
  | inr large ↦ rw (large, decimal) (omega (arith, length-append (decimal fuel (n / 10)) _))
]

pub str-IsWord : (n : ℕ) → IsWord (str n)
unfolding str
str-IsWord n = (
  All-implies (λ c. 48 ≤ c × c ≤ 57) IsInk (decimal n n) (λ c digit. omega (arith, digit.0))
      (decimal-digits n n),
  long-text (decimal n n) (decimal-length n n),
)

direction-IsWord : (d : TraceDirection) → IsWord (direction_text d)
direction-IsWord rx = ((omega arith, (omega arith, tt)), λ e. cc)
direction-IsWord tx = ((omega arith, (omega arith, tt)), λ e. cc)

pub payload-words : (payload : Bytes) → All IsWord (map (hex_field 2) payload)
payload-words [] = tt
payload-words (b ∷ bs) = (hex_field-IsWord 2 b, payload-words bs)

pub map-unhex : (payload : Bytes) → map unhex (map (hex_field 2) payload) ≡ payload
map-unhex [] = refl
map-unhex (b ∷ bs) = ap₂ ◌∷◌ (unhex-hex_field 2 b) (map-unhex bs)

-- The identifiers of a CAN bus.
abbrev pub id_limit : Bool → ℕ
id_limit is_extended = if is_extended then 0x20000000 else 0x800

pub id_field-extended :
    (can_id : ℕ) (is_extended : Bool)
    → can_id < id_limit is_extended
    → (length (id_field can_id is_extended) == 8) ≡ is_extended
unfolding id_field
id_field-extended can_id true h = ap (λ n. n == 8) (length-hex_field 7 can_id (omega (arith, h)))
id_field-extended can_id false h = ap (λ n. n == 8) (length-hex_field 2 can_id (omega (arith, h)))

number-words :
    (counter : ℕ) (t : Text)
    → words (pad 32 7 (str counter) ++ (codes ") " ++ t)) ≡ (str counter ++ codes ")") ∷ words t
number-words counter t =
    let w = str-IsWord counter in
    ap words
      (append_assoc (replicate (7 - length (str counter)) 32) (str counter) (codes ") " ++ t))
    ∙ words-spaces (7 - length (str counter)) (str counter ++ (codes ") " ++ t))
    ∙ ap words (sym (append_assoc (str counter) (codes ")") (32 ∷ t)))
    ∙ words-word (str counter ++ codes ")") 32 t
        (All-append IsInk (str counter) (codes ")") w.0 (omega arith, tt))
        (long-text (str counter ++ codes ")")
          (omega (arith, length-append (str counter) (codes ")"))))
        refl

trace_line-words :
    (counter : ℕ) (offset_ms : Text) (direction : TraceDirection) (f : Frame)
    → IsWord offset_ms
    → words (trace_line counter offset_ms direction f)
      ≡ (str counter ++ codes ")")
        ∷ (offset_ms
            ∷ (codes "1"
                ∷ (direction_text direction
                    ∷ (id_field f.can_id f.is_extended
                        ∷ (str (length f.payload) ∷ map (hex_field 2) f.payload)))))
unfolding trace_line id_field payload_field
trace_line-words counter offset_ms direction f offset =
    let d = direction-IsWord direction in
    let i = hex_field-IsWord (if f.is_extended then 8 else 3) f.can_id in
    let n = str-IsWord (length f.payload) in
    number-words counter _
    ∙ ap (◌∷◌ (str counter ++ codes ")")) (
        words-pad 13 offset_ms 32 _ offset.0 offset.1 refl
        ∙ ap (◌∷◌ offset_ms) (
            words-word (codes "1") 32 _ (omega arith, tt) (λ e. cc) refl
            ∙ ap (◌∷◌ (codes "1")) (
                words-word (direction_text direction) 32 _ d.0 d.1 refl
                ∙ ap (◌∷◌ (direction_text direction)) (
                    words-pad 8 (id_field f.can_id f.is_extended) 32 _ i.0 i.1 refl
                    ∙ ap (◌∷◌ (id_field f.can_id f.is_extended)) (
                        words-word (str (length f.payload)) 32 _ n.0 n.1 refl
                        ∙ ap (◌∷◌ (str (length f.payload))) (
                            words-join (map (hex_field 2) f.payload) (payload-words f.payload)))))))

entry : ℕ → TraceDirection → ℕ → Bytes → Bool → Option (Text × Text × Frame)
entry counter direction i p x = some (
  str counter ++ codes ")",
  direction_text direction,
  record { can_id = i; payload = p; is_extended = x },
)

-- A line of the trace gives back the counter, the direction and the frame, whatever its payload: the
-- number of digits says whether the identifier is an extended one. The identifier is one of a CAN
-- bus, and the formatted time has no space.
pub read_entry-trace_line :
    (counter : ℕ) (offset_ms : Text) (direction : TraceDirection) (f : Frame)
    → IsWord offset_ms
    → f.can_id < id_limit f.is_extended
    → read_entry (words (trace_line counter offset_ms direction f))
      ≡ some (str counter ++ codes ")", direction_text direction, f)
unfolding read_entry id_field entry
read_entry-trace_line counter offset_ms direction f offset in_range =
    ap read_entry (trace_line-words counter offset_ms direction f offset)
    ∙ ap
        (λ i.
          entry counter direction i (map unhex (map (hex_field 2) f.payload))
            (length (id_field f.can_id f.is_extended) == 8))
        (unhex-hex_field (if f.is_extended then 8 else 3) f.can_id)
    ∙ ap₂ (entry counter direction f.can_id) (map-unhex f.payload)
        (id_field-extended f.can_id f.is_extended in_range)
