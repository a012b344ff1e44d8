-- ===== src/Dump.antt =====
-- src/sockcan/daemon/__main__.py: the commands `client` and `candump`, which print the messages of a
-- channel until the connection ends. The time, a float, is formatted by a parameter.
pub mod Printed
pub mod Daemons
mod Examples
use sockcan.Prelude.{
  ℕ, zero, suc, ◌+◌, List, [], ◌∷◌, ◌++◌, map, Bool, true, false, ◌&&◌, ◌||◌, leb,
}
use sockcan.Prelude.{if◌then◌else◌, Option, none, some, length, Result, ok, raise, Exception}
use sockcan.Prelude.{is_os_error, struct_error, Text, codes, join, str}
use sockcan.Wire.{CanMessage}
use sockcan.Candump.{hex_field, id_field, payload_field}

-- The formats with a small x.
abbrev pub lower : ℕ → ℕ
lower c = if leb 65 c && leb c 70 then c + 32 else c

unfoldable pub lower_hex_field : ℕ → ℕ → Text
lower_hex_field width n = map lower (hex_field width n)

-- `" ".join([f"{b:02x}" for b in data])`
unfoldable pub lower_payload : List ℕ → Text
unfolding lower_hex_field
lower_payload payload = join (32 ∷ []) (map (lower_hex_field 2) payload)

-- `CanMessage.__str__`
unfoldable pub message_text : CanMessage → Text
unfolding lower_payload
message_text m = lower_hex_field 8 m.arbitration_id ++ (codes ":" ++ lower_payload m.payload)

-- A line of the command `client`.
unfoldable pub client_line : CanMessage → Text
unfolding lower_payload
client_line m =
    lower_hex_field 8 m.arbitration_id ++ (codes ": " ++ (lower_payload m.payload ++ (10 ∷ [])))

-- A line of the command `candump`.
unfoldable pub dump_line : (ℕ → Text) → Text → CanMessage → Text
unfolding id_field payload_field
dump_line format_time channel m =
    (codes "(" ++ (format_time m.timestamp ++ codes ")"))
    ++ (codes "  "
        ++ (channel
            ++ (codes "  "
                ++ (id_field m.arbitration_id m.is_extended_id
                    ++ (codes "   "
                        ++ ((codes "[" ++ (str (length m.payload) ++ codes "]"))
                            ++ (codes "  " ++ (payload_field m.payload ++ (10 ∷ [])))))))))

-- How a command ends: with a ClickException, or another exception.
pub data DumpEnd : Type 0 where
  lost_connection : DumpEnd
  crashed : Exception → DumpEnd

abbrev pub is_struct_error : Exception → Bool
is_struct_error struct_error = true
is_struct_error e = false

-- `except (OSError, struct.error)`
abbrev pub dump_end : Exception → DumpEnd
dump_end e = if is_os_error e || is_struct_error e then lost_connection else crashed e

abbrev pub print_line : Text → Option (List Text × DumpEnd) → Option (List Text × DumpEnd)
print_line line none = none
print_line line (some (lines, end)) = some (line ∷ lines, end)

module _ {W : Type 0} (recv_fn : W → Result CanMessage × W) (line_of : CanMessage → Text) where
  -- What follows a receive; `later` is the rest of the loop.
  unfoldable pub dump_next :
      (W → Option (List Text × DumpEnd)) → Result CanMessage × W → Option (List Text × DumpEnd)
  dump_next later (raise e, w) = some ([], dump_end e)
  dump_next later (ok next_msg, w) = print_line (line_of next_msg) (later w)

  -- The loop, with fuel for its messages: the lines and the end.
  unfoldable pub dump_loop : ℕ → W → Option (List Text × DumpEnd)
  unfolding dump_next
  dump_loop zero w = none
  dump_loop (suc fuel) w = dump_next (dump_loop fuel) (recv_fn w)

  -- The command after its attempt to connect.
  unfoldable pub dump_command : ℕ → Result (Unit {0}) × W → Option (List Text × DumpEnd)
  unfolding dump_loop
  dump_command fuel (raise e, w) = some ([], crashed e)
  dump_command fuel (ok _, w) = print_line (codes "> Connected >" ++ (10 ∷ [])) (dump_loop fuel w)
