-- ===== src/Utf8.antt =====
-- src/common/common_utf8.cpp: the tests whether a text is UTF-8. The conversions of that file are
-- calls of the system.
pub mod Scalars
pub mod Leads
pub mod Reads
pub mod Chars
pub mod Decoded
pub mod Accepted
pub mod Agreement
use rtc_client.Common.{
  ℕ, zero, suc, ◌+◌, ◌-◌, ◌*◌, ◌/◌, ◌%◌, ◌^◌, Bool, true, false, ◌&&◌, ◌||◌, Option, none, some,
  List, [], ◌∷◌, ltb, leb, ◌==◌, length, if◌then◌else◌, bit_and,
}

-- What `while (codepoint & top)` leaves: `codepoint`, `top`, the bytes of the character so far, and
-- the text behind them. `none` is a return of false. Behind the text stands the byte 0, which is no
-- further byte of a character.
pub record Read : Type 0 where
  pub codepoint : ℕ
  pub top : ℕ
  pub bytes : ℕ
  pub behind : List ℕ

unfoldable pub read_further : ℕ → ℕ → ℕ → List ℕ → Option Read
read_further codepoint top bytes [] =
    if bit_and codepoint top == 0
    then some (record { codepoint = codepoint; top = top; bytes = bytes; behind = [] })
    else none
read_further codepoint top bytes (c ∷ s) =
    let rest =
      read_further ((codepoint * 2 ^ 6 + (c - 128)) % 2 ^ 32) (top * 2 ^ 5 % 2 ^ 32) (bytes + 1)
        s in
    if bit_and codepoint top == 0
    then some (record { codepoint = codepoint; top = top; bytes = bytes; behind = c ∷ s })
    else if ltb c 128 || leb 192 c
    then none
    else rest

-- The least code point of a character of so many bytes.
unfoldable pub least : ℕ → ℕ
least bytes = if bytes == 1 then 0 else if bytes == 2 then 0x80 else 2 ^ (5 * bytes - 4)

-- The return of false behind the bytes of a character.
unfoldable pub is_refused : ℕ → ℕ → Bool
unfolding least
is_refused codepoint bytes =
    ltb codepoint (least bytes)
    || (leb 0x110000 codepoint
        || (codepoint == 0xfffe || (leb 0xd800 codepoint && leb codepoint 0xdfff)))

-- The code point of what was read: `codepoint &= (top << 1) - 1`.
unfoldable pub masked : Read → ℕ
masked r = bit_and r.codepoint ((r.top * 2 % 2 ^ 32 + 2 ^ 32 - 1) % 2 ^ 32)

-- What stands behind the inner loop: the text behind the character, or a return of false.
unfoldable pub finish_char : Option Read → Option (List ℕ)
unfolding is_refused masked
finish_char none = none
finish_char (some r) = if is_refused (masked r) r.bytes then none else some r.behind

-- The body of the loop of `is_utf8_chars`.
unfoldable pub next_char : ℕ → List ℕ → Option (List ℕ)
unfolding read_further finish_char
next_char lead s =
    if bit_and lead 0xc0 == 0x80 || leb 0xfe lead
    then none
    else finish_char (read_further lead (bit_and lead 0x80 / 2) 1 s)

-- The loop; `none` is no value of the code: the loop out of fuel.
unfoldable pub chars_loop : ℕ → List ℕ → Option Bool
unfolding next_char
chars_loop fuel [] = some true
chars_loop zero (lead ∷ s) = none
chars_loop (suc fuel) (lead ∷ s) =
    let next : Option Bool = elim (next_char lead s) [
      | none ↦ some false
      | some rest ↦ chars_loop fuel rest
    ] in
    if lead == 0 then some true else next

-- A character takes a byte at least.
unfoldable pub is_utf8_chars : List ℕ → Option Bool
unfolding chars_loop
is_utf8_chars str = chars_loop (length str) str

-- The bytes that are to come behind a first byte; `none` is a return of false.
unfoldable pub further_bytes : ℕ → Option ℕ
further_bytes chr =
    if ltb chr 0x80
    then some 0
    else if leb 0xfc chr && leb chr 0xfd
    then some 5
    else if leb 0xf8 chr
    then some 4
    else if leb 0xf0 chr
    then some 3
    else if leb 0xe0 chr
    then some 2
    else if leb 0xc0 chr
    then some 1
    else none

-- The loop of `is_utf8_str`, with `bytesCount`, and the test behind it. That all characters are
-- ASCII makes no difference to the result.
unfoldable pub str_loop : ℕ → List ℕ → Bool
unfolding further_bytes
str_loop bytes_count [] = bytes_count == 0
str_loop zero (chr ∷ s) = elim (further_bytes chr) [ none ↦ false | some n ↦ str_loop n s ]
str_loop (suc n) (chr ∷ s) = (bit_and chr 0xc0 == 0x80) && str_loop n s

unfoldable pub is_utf8_str : List ℕ → Bool
unfolding str_loop
is_utf8_str str = str_loop 0 str
