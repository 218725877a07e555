-- ===== src/Go/Hex.antt =====
-- `hex.EncodeToString` of Go, on bytes.
use Prim.Native.String.{slice}
use kibertas.Prelude.{ℕ, ◌+◌, ◌/◌, ◌%◌, String, ◌<>◌, List, [], ◌∷◌}

unfoldable pub hex_digit : ℕ → String
hex_digit n = slice "0123456789abcdef" n (n + 1)

unfoldable pub encode_to_string : List ℕ → String
unfolding hex_digit
encode_to_string [] = ""
encode_to_string (b ∷ bs) = hex_digit (b / 16) <> (hex_digit (b % 16) <> encode_to_string bs)
