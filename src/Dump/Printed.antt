-- ===== src/Dump/Printed.antt =====
-- What the command `candump` prints.
use sockcan.Prelude.{ℕ, zero, suc, ◌<◌, List, [], ◌∷◌, ◌++◌, ◌≡◌, refl, ap, ap₂, ◌∙◌, arith, map}
use sockcan.Prelude.{Bool, ◌||◌, ◌==◌, if◌then◌else◌, Option, none, some, length}
use sockcan.Prelude.{
  All, All-append, replicate, Result, ok, raise, Exception, is_os_error, Text, codes, str,
}
use sockcan.Bytes.{Bytes}
use sockcan.Backlog.{Frame}
use sockcan.Wire.{CanMessage}
use sockcan.Candump.{hex_field, id_field, payload_field}
use sockcan.Candump.Hex.{unhex, unhex-hex_field, IsInk}
use sockcan.Candump.Words.{words, words-word, words-spaces, words-join}
use sockcan.Candump.RoundTrip.{IsWord, id_limit, hex_field-IsWord, str-IsWord, payload-words}
use sockcan.Candump.RoundTrip.{map-unhex, id_field-extended}
use sockcan.Dump.{dump_line, lost_connection, crashed, dump_end, print_line, dump_next}
use sockcan.Dump.{dump_loop, dump_command, is_struct_error}

-- A reader of its own: the channel and the frame of a line.
unfoldable pub read_dump : List Text → Option (Text × Frame)
read_dump (time ∷ (channel ∷ (can_id ∷ (size ∷ payload)))) = some (
  channel,
  record { can_id = unhex can_id; payload = map unhex payload; is_extended = length can_id == 8 },
)
read_dump _ = none

-- A word and the spaces behind it.
words-gap :
    (w : Text) (k : ℕ) (t : Text)
    → IsWord w
    → words (w ++ (32 ∷ (replicate k 32 ++ t))) ≡ w ∷ words t
words-gap w k t word =
    words-word w 32 (replicate k 32 ++ t) word.0 word.1 refl ∙ ap (◌∷◌ w) (words-spaces k t)

enclosed-IsWord : (a b : ℕ) (w : Text) → IsInk a → IsInk b → IsWord w → IsWord (a ∷ (w ++ (b ∷ [])))
enclosed-IsWord a b w ink_a ink_b word =
    ((ink_a, All-append IsInk w (b ∷ []) word.0 (ink_b, tt)), λ e. cc)

dump_line-words :
    (format_time : ℕ → Text) (channel : Text) (m : CanMessage)
    → IsWord (format_time m.timestamp)
    → IsWord channel
    → words (dump_line format_time channel m)
      ≡ (codes "(" ++ (format_time m.timestamp ++ codes ")"))
        ∷ (channel
            ∷ (id_field m.arbitration_id m.is_extended_id
                ∷ ((codes "[" ++ (str (length m.payload) ++ codes "]"))
                    ∷ map (hex_field 2) m.payload)))
unfolding dump_line id_field payload_field
dump_line-words format_time channel m time chan =
    words-gap (codes "(" ++ (format_time m.timestamp ++ codes ")")) 1 _
      (enclosed-IsWord 40 41 (format_time m.timestamp) (omega arith) (omega arith) time)
    ∙ ap (◌∷◌ (codes "(" ++ (format_time m.timestamp ++ codes ")"))) (
        words-gap channel 1 _ chan
        ∙ ap (◌∷◌ channel) (
            words-gap (id_field m.arbitration_id m.is_extended_id) 2 _
              (hex_field-IsWord (if m.is_extended_id then 8 else 3) m.arbitration_id)
            ∙ ap (◌∷◌ (id_field m.arbitration_id m.is_extended_id)) (
                words-gap (codes "[" ++ (str (length m.payload) ++ codes "]")) 1 _ (
                  enclosed-IsWord 91 93 (str (length m.payload)) (omega arith) (omega arith)
                    (str-IsWord (length m.payload)))
                ∙ ap (◌∷◌ (codes "[" ++ (str (length m.payload) ++ codes "]")))
                    (words-join (map (hex_field 2) m.payload) (payload-words m.payload)))))

frame_of : Text → ℕ → Bytes → Bool → Option (Text × Frame)
frame_of channel i p x = some (channel, record { can_id = i; payload = p; is_extended = x })

-- The channel and the frame of a message.
abbrev pub shown : Text → CanMessage → Option (Text × Frame)
shown channel m = some (
  channel,
  record { can_id = m.arbitration_id; payload = m.payload; is_extended = m.is_extended_id },
)

read_dump-dump_line :
    (format_time : ℕ → Text) (channel : Text) (m : CanMessage)
    → IsWord (format_time m.timestamp)
    → IsWord channel
    → m.arbitration_id < id_limit m.is_extended_id
    → read_dump (words (dump_line format_time channel m)) ≡ shown channel m
unfolding read_dump id_field frame_of
read_dump-dump_line format_time channel m time chan in_range =
    ap read_dump (dump_line-words format_time channel m time chan)
    ∙ ap
        (λ i.
          frame_of channel i (map unhex (map (hex_field 2) m.payload))
            (length (id_field m.arbitration_id m.is_extended_id) == 8))
        (unhex-hex_field (if m.is_extended_id then 8 else 3) m.arbitration_id)
    ∙ ap₂ (frame_of channel m.arbitration_id) (map-unhex m.payload)
        (id_field-extended m.arbitration_id m.is_extended_id in_range)

module _ {W : Type 0} (recv_fn : W → Result CanMessage × W) where
  -- The messages that the connection has, and the exception that then ends it.
  abbrev pub Gives : List CanMessage → Exception → W → Type 0
  Gives [] e w = (w' : W) × (recv_fn w ≡ (raise e, w'))
  Gives (m ∷ ms) e w = (w' : W) × (recv_fn w ≡ (ok m, w')) × Gives ms e w'

  dump_loop-Gives :
      (line_of : CanMessage → Text) (fuel : ℕ) (ms : List CanMessage) (e : Exception) (w : W)
      → Gives ms e w
      → length ms < fuel
      → dump_loop recv_fn line_of fuel w ≡ some (map line_of ms, dump_end e)
  unfolding dump_loop dump_next
  dump_loop-Gives line_of zero ms e w gives enough = absurd (omega (arith, enough))
  dump_loop-Gives line_of (suc fuel) [] e w (w', ends) enough =
      ap (dump_next recv_fn line_of (dump_loop recv_fn line_of fuel)) ends
  dump_loop-Gives line_of (suc fuel) (m ∷ ms) e w (w', got, gives) enough =
      ap (dump_next recv_fn line_of (dump_loop recv_fn line_of fuel)) got
      ∙ ap (print_line (line_of m))
          (dump_loop-Gives line_of fuel ms e w' gives (omega (arith, enough)))

  map-shown :
      (format_time : ℕ → Text) (channel : Text) (ms : List CanMessage)
      → ((t : ℕ) → IsWord (format_time t))
      → IsWord channel
      → All (λ m. m.arbitration_id < id_limit m.is_extended_id) ms
      → map (λ l. read_dump (words l)) (map (dump_line format_time channel) ms)
        ≡ map (shown channel) ms
  map-shown format_time channel [] time chan in_range = refl
  map-shown format_time channel (m ∷ ms) time chan in_range =
      ap₂ (◌∷◌) (read_dump-dump_line format_time channel m (time m.timestamp) chan in_range.0)
        (map-shown format_time channel ms time chan in_range.1)

  -- Where the connection gives some messages and then ends with an exception, `candump` prints, below
  -- its greeting, a line for each message, in order, and nothing else. The lines give back the channel
  -- and the messages, down to whether the identifier is an extended one. It then ends by saying that
  -- the connection was lost, if the exception is an OSError or struct.error, and by the exception
  -- itself otherwise. The identifiers are those of a CAN bus, the name of the channel and the formatted
  -- times have no space, and the fuel is more than the number of messages.
  pub dump_command-Gives :
      (format_time : ℕ → Text) (channel : Text) (fuel : ℕ) (ms : List CanMessage) (e : Exception)
      (w : W)
      → Gives ms e w
      → length ms < fuel
      → ((t : ℕ) → IsWord (format_time t))
      → IsWord channel
      → All (λ m. m.arbitration_id < id_limit m.is_extended_id) ms
      → (lines : List Text) × (dump_command recv_fn (dump_line format_time channel) fuel (ok tt, w)
          ≡ some (
            (codes "> Connected >" ++ (10 ∷ [])) ∷ lines,
            if is_os_error e || is_struct_error e then lost_connection else crashed e,
          ))
        × (map (λ l. read_dump (words l)) lines ≡ map (shown channel) ms)
  unfolding dump_command
  dump_command-Gives format_time channel fuel ms e w gives enough time chan in_range = (
    map (dump_line format_time channel) ms,
    ap (print_line (codes "> Connected >" ++ (10 ∷ [])))
        (dump_loop-Gives (dump_line format_time channel) fuel ms e w gives enough),
    map-shown format_time channel ms time chan in_range,
  )
