-- ===== src/Crt/Hex.antt =====
-- crt/char2hex.c: bytes as lower-case hexadecimal text and back. A byte is a number below 256; text is
-- a list of character codes without its final 0.
pub mod RoundTrip
use ddfs.Base.{
  ℕ, ◌+◌, ◌-◌, ◌*◌, ◌/◌, ◌%◌, Bool, not, ◌&&◌, ◌||◌, Option, none, some, List, [], ◌∷◌, ltb, leb,
  ◌==◌, if◌then◌else◌, ◌>>=◌, ◌>>◌, length,
}

-- `char_to_hex`
unfoldable pub char_to_hex : ℕ → ℕ
char_to_hex c = if ltb c 10 then b'0' + c else b'a' + c - 10

-- `hex_to_char`; `none` stands for -1.
unfoldable pub hex_to_char : ℕ → Option ℕ
hex_to_char c =
    if leb b'0' c && leb c b'9'
    then some (c - b'0')
    else (if leb b'a' c && leb c b'f' then some (c - b'a' + 10) else none)

-- The loop of `hex_bytes`, two characters a round.
unfoldable pub hex_loop : List ℕ → Option (List ℕ)
unfolding hex_to_char
hex_loop [] = some []
hex_loop (h ∷ []) = none
hex_loop (h ∷ l ∷ hex) = do
  high ← hex_to_char h
  low ← hex_to_char l
  rest ← hex_loop hex
  some ((high * 16 + low) ∷ rest)

-- `hex_bytes`: the `dst_len` bytes, or `none` for -EINVAL.
unfoldable pub hex_bytes : List ℕ → ℕ → Option (List ℕ)
unfolding hex_loop
hex_bytes hex dst_len =
    if length hex == 0 || dst_len == 0
    then none
    else (if not (length hex % 2 == 0)
        then none
        else (if not (dst_len == length hex / 2) then none else hex_loop hex))

-- The text that the loop of `bytes_buf_hex` writes.
unfoldable pub hex_text : List ℕ → List ℕ
unfolding char_to_hex
hex_text [] = []
hex_text (b ∷ src) = char_to_hex (b / 16 % 16) ∷ char_to_hex (b % 16) ∷ hex_text src

-- `bytes_buf_hex` into a buffer of `hex_count` characters; `none` for NKFS_E_BUF_SMALL.
unfoldable pub bytes_buf_hex : List ℕ → ℕ → Option (List ℕ)
unfolding hex_text
bytes_buf_hex src hex_count = if ltb hex_count (2 * length src) then none else some (hex_text src)

-- `bytes_hex`: the text in a buffer that `crt_malloc` gave, or NULL. `granted` says whether it gave.
unfoldable pub bytes_hex : Bool → List ℕ → Option (List ℕ)
unfolding bytes_buf_hex
bytes_hex granted src =
    if length src == 0
    then none
    else (if not granted then none else bytes_buf_hex src (2 * length src + 1))
