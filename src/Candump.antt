-- ===== src/Candump.antt =====
-- src/sockcan/daemon/_server.py: `_CandumpWriter` and the calls that are traced with it. The number of
-- milliseconds, a float, is formatted by a parameter; the time is in nanoseconds.
pub mod Hex
pub mod Words
pub mod RoundTrip
pub mod File
mod Examples
use sockcan.Prelude.{ℕ, zero, suc, ◌+◌, ◌-◌, ◌/◌, ◌%◌, List, [], ◌∷◌, ◌++◌, map, length, replicate}
use sockcan.Prelude.{Bool, true, false, ltb, if◌then◌else◌, Option, none, some, Result, ok, raise}
use sockcan.Prelude.{Text, codes, join, str}
use sockcan.Bytes.{Bytes}
use sockcan.Backlog.{Frame}

-- The parameter `direction` of `write`.
pub data TraceDirection : Type 0 where
  rx tx : TraceDirection

abbrev pub direction_text : TraceDirection → Text
direction_text rx = codes "Rx"
direction_text tx = codes "Tx"

abbrev pub hex_digit : ℕ → ℕ
hex_digit d = if ltb d 10 then 48 + d else 55 + d

-- The format X, on fuel: a number has no more digits than it counts.
unfoldable pub hex : ℕ → ℕ → Text
hex zero n = hex_digit (n % 16) ∷ []
hex (suc fuel) n = elim (ltb n 16) [
  | true ↦ hex_digit n ∷ []
  | false ↦ hex fuel (n / 16) ++ (hex_digit (n % 16) ∷ [])
]

-- The formats with a width: on the left, zeros or spaces.
abbrev pub pad : ℕ → ℕ → Text → Text
pad c width t = replicate (width - length t) c ++ t

-- `{n:0wX}`
unfoldable pub hex_field : ℕ → ℕ → Text
unfolding hex
hex_field width n = pad 48 width (hex n n)

unfoldable pub id_field : ℕ → Bool → Text
unfolding hex_field
id_field can_id is_extended = hex_field (if is_extended then 8 else 3) can_id

unfoldable pub payload_field : Bytes → Text
unfolding hex_field
payload_field payload = join (32 ∷ []) (map (hex_field 2) payload)

-- A line of the file, with the counter and the formatted time.
unfoldable pub trace_line : ℕ → Text → TraceDirection → Frame → Text
unfolding id_field payload_field
trace_line counter offset_ms direction f =
    pad 32 7 (str counter)
    ++ (codes ") "
        ++ (pad 32 13 offset_ms
            ++ (codes " 1 "
                ++ (direction_text direction
                    ++ (32
                        ∷ (pad 32 8 (id_field f.can_id f.is_extended)
                            ++ (32
                                ∷ (str (length f.payload)
                                    ++ (32 ∷ (payload_field f.payload ++ (10 ∷ [])))))))))))

pub record CandumpWriter : Type 0 where
  pub file : Text
  pub start_ns : ℕ
  pub counter : ℕ

-- A line of the file's head.
abbrev pub head_line : Text → Text
head_line t = t ++ (10 ∷ [])

-- `__init__`: the file is emptied. `now` is the monotonic time and `time` that of the clock, in the
-- format of the file.
unfoldable pub new_trace : Text → ℕ → CandumpWriter
new_trace time now = record {
  file =
      head_line (codes ";$FILEVERSION=1.1")
      ++ (head_line (codes ";$STARTTIME=" ++ time) ++ head_line (codes ";$COLUMNS=N,T,B,I,d,L,D"));
  start_ns = now;
  counter = 0;
}

-- `now` is the monotonic time; a lock makes the writes of the two threads one after the other.
unfoldable pub write : (ℕ → Text) → ℕ → TraceDirection → Frame → CandumpWriter → CandumpWriter
unfolding trace_line
write format_ms now direction f writer = record writer {
  counter = writer.counter + 1;
  file =
      writer.file
      ++ trace_line (writer.counter + 1) (format_ms (now - writer.start_ns)) direction f;
}

module _ {W : Type 0} (format_ms : ℕ → Text) (monotonic_ns : W → ℕ) where
  -- `_candump_recv`: a frame that the bus gave is traced, a timeout is not.
  unfoldable pub candump_recv :
      (W → Result (Option Frame) × W)
      → CandumpWriter × W
      → Result (Option Frame) × CandumpWriter × W
  unfolding write
  candump_recv recv (writer, w) =
      let (r, w') = recv w in
      elim r [
        | raise e ↦ (raise e, writer, w')
        | ok none ↦ (ok none, writer, w')
        | ok (some f) ↦ (ok (some f), write format_ms (monotonic_ns w') rx f writer, w')
      ]

  -- `_candump_send`: a frame is traced before it is sent.
  unfoldable pub candump_send :
      (Frame → W → Result (Unit {0}) × W)
      → Frame
      → CandumpWriter × W
      → Result (Unit {0}) × CandumpWriter × W
  unfolding write
  candump_send send f (writer, w) =
      let (r, w') = send f w in (r, write format_ms (monotonic_ns w) tx f writer, w')
