-- ===== src/Examples/Wire.antt =====
-- Frames, masks and extension lists at concrete inputs.
use wispurr.Base.{ℕ, ◌≡◌, List, [], ◌∷◌, ◌++◌, some, arith}
use wispurr.Frames.{raw_frame}
use wispurr.Frames.RoundTrip.{read_frame, read_frame-raw_frame}
use wispurr.Masking.{MaskKey, mask_xor}
use wispurr.Masking.Laws.{masked, mask_xor-masked}
use wispurr.Handshake.Extensions.{add_extension, parse_client_info, no_extensions}
use wispurr.Handshake.Extensions.RoundTrip.{
  Entries, write_entries, read_entries, parse_client_info-write_entries,
}
use wispurr.Shell.{split_shell}
use wispurr.Shell.Quoting.{Word, escapes, quotes, command, values, split_shell-command}

abbrev packet : List ℕ
packet = 2 ∷ 1 ∷ 0 ∷ 0 ∷ 0 ∷ 104 ∷ 105 ∷ []

read_frame-raw_frame_example :
    read_frame (raw_frame packet ++ (0x89 ∷ 0 ∷ []))
    ≡ some (record { first = 0x82; payload = packet; rest = 0x89 ∷ 0 ∷ [] })
read_frame-raw_frame_example = read_frame-raw_frame packet (0x89 ∷ 0 ∷ []) (omega arith)

abbrev header : List ℕ
header = 1 ∷ 2 ∷ 3 ∷ 4 ∷ 5 ∷ 6 ∷ 7 ∷ 8 ∷ 9 ∷ 10 ∷ 11 ∷ 12 ∷ 13 ∷ 14 ∷ 15 ∷ []

abbrev key : MaskKey
key = record { k0 = 1; k1 = 2; k2 = 3; k3 = 255 }

mask_xor-masked_example : mask_xor packet key ≡ masked key packet
mask_xor-masked_example =
    mask_xor-masked packet key
      (record {
        byte0 = omega arith;
        byte1 = omega arith;
        byte2 = omega arith;
        byte3 = omega arith;
      })
      (ground arith)

-- The UDP extension, a user "a" with the password "b", and one that the server does not know.
abbrev entries : Entries
entries = (0x01, []) ∷ (0x02, 1 ∷ 97 ∷ 98 ∷ []) ∷ (0x77, 5 ∷ []) ∷ []

parse_client_info-write_entries_example :
    parse_client_info (2 ∷ 1 ∷ write_entries [] entries) ≡ read_entries entries no_extensions
unfolding add_extension
parse_client_info-write_entries_example = parse_client_info-write_entries 2 1 entries (ground arith)

abbrev arguments : List Word
arguments = quotes (97 ∷ 32 ∷ 34 ∷ []) ∷ escapes (39 ∷ 98 ∷ []) ∷ []

split_shell-command_example : split_shell (command arguments) ≡ some (values arguments)
split_shell-command_example = split_shell-command arguments (ground arith)
