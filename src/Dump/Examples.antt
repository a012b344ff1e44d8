-- ===== src/Dump/Examples.antt =====
-- A channel with two messages.
use sockcan.Prelude.{ℕ, List, [], ◌∷◌, ◌++◌, ◌≡◌, refl, arith, map, true, false, ◌||◌, some}
use sockcan.Prelude.{
  if◌then◌else◌, Result, ok, raise, os_error, none, is_os_error, Text, codes, str, join,
}
use sockcan.Wire.{CanMessage}
use sockcan.Candump.Words.{words}
use sockcan.Candump.RoundTrip.{IsWord}
use sockcan.Candump.{id_field, payload_field, hex_field}
use sockcan.Dump.{lost_connection, crashed, is_struct_error, dump_line, client_line, message_text}
use sockcan.Dump.{dump_command, lower_payload, lower_hex_field}
use sockcan.Dump.Printed.{read_dump, shown, dump_command-Gives}

abbrev standard : CanMessage
standard = record {
  arbitration_id = 0x12A;
  payload = 0xDE ∷ 0x0F ∷ [];
  is_extended_id = false;
  timestamp = 7;
}

abbrev extended : CanMessage
extended = record standard { payload = []; is_extended_id = true }

abbrev format_time : ℕ → Text
format_time t = codes "1.5"

dumped :
    dump_line format_time (codes "vcan0") standard
    ≡ codes "(1.5)  vcan0  12A   [2]  DE 0F" ++ (10 ∷ [])
unfolding dump_line id_field payload_field str join
dumped = refl

printed : client_line standard ≡ codes "0000012a: de 0f" ++ (10 ∷ [])
unfolding client_line lower_hex_field lower_payload hex_field join
printed = refl

as_text : message_text standard ≡ codes "0000012a:de 0f"
unfolding message_text lower_hex_field lower_payload hex_field join
as_text = refl

-- The messages that are left, before the connection ends.
abbrev recv_fn : List CanMessage → Result CanMessage × List CanMessage
recv_fn [] = (raise (os_error none), [])
recv_fn (m ∷ ms) = (ok m, ms)

time-IsWord : IsWord (codes "1.5")
time-IsWord = ((omega arith, (omega arith, (omega arith, tt))), λ e. cc)

channel-IsWord : IsWord (codes "can")
channel-IsWord = ((omega arith, (omega arith, (omega arith, tt))), λ e. cc)

dump_command-Gives_example :
    (lines : List Text) × (dump_command recv_fn
        (dump_line format_time (codes "can"))
        3
        (ok tt, standard ∷ extended ∷ [])
      ≡ some (
        (codes "> Connected >" ++ (10 ∷ [])) ∷ lines,
        if is_os_error (os_error none) || is_struct_error (os_error none)
            then lost_connection
            else crashed (os_error none),
      ))
    × (map (λ l. read_dump (words l)) lines ≡ map (shown (codes "can")) (standard ∷ extended ∷ []))
dump_command-Gives_example =
    dump_command-Gives recv_fn format_time (codes "can") 3 (standard ∷ extended ∷ [])
      (os_error none) (standard ∷ extended ∷ []) (_, refl, (_, refl, (_, refl))) (omega arith)
      (λ t. time-IsWord) channel-IsWord (omega arith, (omega arith, tt))
