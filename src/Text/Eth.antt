-- ===== src/Text/Eth.antt =====
-- MAC addresses as text, and back (src/util.cpp).
use dns_wrapper.Common.{
  ℕ, zero, suc, ◌/◌, ◌%◌, ◌<◌, ◌≡◌, refl, sym, ap, ◌∙◌, Bool, true, false, not, ◌&&◌, ◌==◌,
  if◌then◌else◌, [], ◌∷◌, ◌++◌, append_assoc, map, some, arith, length, length-append, All, agree,
}
use dns_wrapper.Common.Bits.{byte_table}
use dns_wrapper.Net.Buffer.{EthAddress}
use dns_wrapper.Net.Buffer.Laws.{IsByte}
use dns_wrapper.Text.{
  Text, Try, returned, thrown, broken, unfinished, try_then, times, seq, char, hexw, is_hex, is_end,
  match_then, regex_match, eth_regex, hex_char, hex2, hex_digits, hex_value, skip_spaces,
  unsigned16, stoi16, tokens_from, set_at, set_tokens, to_eth_address, colon_bytes,
  eth_address_to_string,
}

-- Neither hexadecimal digit of a byte is f.
abbrev pub has_no_f : ℕ → Bool
has_no_f x = not (x / 16 == 15) && not (x % 16 == 15)

abbrev pub all_no_f : EthAddress → Bool
all_no_f [] = true
all_no_f (x ∷ xs) = has_no_f x && all_no_f xs

is_hex-hex_char : (d : ℕ) → d < 16 → is_hex (hex_char d) ≡ not (d == 15)
is_hex-hex_char d lt = ground arith

hex_char_colon : (d : ℕ) → d < 16 → (hex_char d == b':') ≡ false
hex_char_colon d lt = ground arith

-- The value that `stoi` gives, and 256 if it throws.
abbrev value : Try ℕ → ℕ
value (returned x) = x
value (thrown e) = 256
value broken = 256
value unfinished = 256

value-returned : (r : Try ℕ) (x : ℕ) → x < 256 → value r ≡ x → r ≡ returned x
value-returned (returned y) x lt e = ap returned e
value-returned (thrown e') x lt e = absurd (omega (arith, lt, e))
value-returned broken x lt e = absurd (omega (arith, lt, e))
value-returned unfinished x lt e = absurd (omega (arith, lt, e))

stoi16-hex2 : (x : ℕ) → x < 256 → stoi16 (hex2 x) ≡ returned x
unfolding agree stoi16 skip_spaces unsigned16 hex_digits hex_value
stoi16-hex2 x lt =
    value-returned (stoi16 (hex2 x)) x lt
      (byte_table (λ x. value (stoi16 (hex2 x))) (λ x. x) refl x lt)

-- The texts between the colons.
tokens-hex2 :
    (x : ℕ) (xs : EthAddress)
    → IsByte x
    → All IsByte xs
    → tokens_from [] (hex2 x ++ colon_bytes xs) ≡ hex2 x ∷ map hex2 xs
unfolding tokens_from colon_bytes
tokens-hex2 x [] h hs =
    rw (hex_char_colon (x / 16) (omega arith), hex_char_colon (x % 16) (omega arith)) refl
tokens-hex2 x (y ∷ ys) h (hy, hs) =
    rw (hex_char_colon (x / 16) (omega arith), hex_char_colon (x % 16) (omega arith))
      (ap (λ ts. hex2 x ∷ ts) (tokens-hex2 y ys hy hs))

set_at_front :
    (pre : EthAddress) (x y : ℕ) (rest : EthAddress)
    → set_at (length pre) x (pre ++ y ∷ rest) ≡ some (pre ++ x ∷ rest)
unfolding set_at
set_at_front [] x y rest = refl
set_at_front (z ∷ pre) x y rest = rw (set_at_front pre x y rest) refl

-- The bytes that the loop puts in place.
set_tokens_lem :
    (pre xs old : EthAddress)
    → All IsByte xs
    → length old ≡ length xs
    → set_tokens (map hex2 xs) (length pre) (pre ++ old) ≡ returned (pre ++ xs)
unfolding set_tokens
set_tokens_lem pre [] [] hs same = refl
set_tokens_lem pre [] (y ∷ old) hs same = absurd (omega (arith, same))
set_tokens_lem pre (x ∷ xs) [] hs same = absurd (omega (arith, same))
set_tokens_lem pre (x ∷ xs) (y ∷ old) (h, hs) same =
    let rest = set_tokens_lem (pre ++ x ∷ []) xs old hs (omega (arith, same)) in
    rw (stoi16-hex2 x h) (
      rw (try_then, set_at_front pre x y old)
        (ap (λ n. set_tokens (map hex2 xs) n (pre ++ x ∷ old))
            (omega (arith, length-append pre (x ∷ [])))
          ∙ ap (set_tokens (map hex2 xs) (length (pre ++ x ∷ [])))
              (sym (append_assoc pre (x ∷ []) old))
          ∙ rest
          ∙ ap returned (append_assoc pre (x ∷ []) xs)))

-- A group of two digits, with nothing behind it that could be a digit.
hexw_lem :
    (x : ℕ) (rest : Text → Bool) (s : Text)
    → IsByte x
    → rest (hex_char (x % 16) ∷ s) ≡ false
    → match_then hexw rest (hex2 x ++ s) ≡ (has_no_f x && rest s)
unfolding match_then
hexw_lem x rest s h stop =
    rw (is_hex-hex_char (x / 16) (omega arith), is_hex-hex_char (x % 16) (omega arith), stop)
      (ground arith)

no_group :
    (n : ℕ) (d : ℕ) (s : Text)
    → d < 16
    → match_then (times n (seq (char b':') hexw)) is_end (hex_char d ∷ s) ≡ false
unfolding match_then
no_group zero d s lt = refl
no_group (suc n) d s lt = rw (hex_char_colon d lt) refl

groups_lem :
    (xs : EthAddress)
    → All IsByte xs
    → match_then (times (length xs) (seq (char b':') hexw)) is_end (colon_bytes xs) ≡ all_no_f xs
unfolding match_then colon_bytes
groups_lem [] hs = refl
groups_lem (x ∷ xs) (h, hs) =
    hexw_lem x (match_then (times (length xs) (seq (char b':') hexw)) is_end) (colon_bytes xs) h
      (no_group (length xs) (x % 16) (colon_bytes xs) (omega arith))
    ∙ ap (λ b. has_no_f x && b) (groups_lem xs hs)

-- The text of a MAC address of six bytes is read back if one of its hexadecimal digits is f;
-- any other text of an address is refused, and the address that is to be set stays as it was.
pub to_eth_address-eth_address_to_string :
    (e old : EthAddress)
    → length e ≡ 6
    → length old ≡ 6
    → All IsByte e
    → to_eth_address (eth_address_to_string e) old
      ≡ (if all_no_f e then returned (false, old) else returned (true, e))
unfolding to_eth_address eth_address_to_string regex_match match_then
to_eth_address-eth_address_to_string [] old n m h = absurd (omega (arith, n))
to_eth_address-eth_address_to_string (x ∷ xs) old n m (h, hs) =
    let five : length xs ≡ 5 = omega (arith, n) in
    let rest : Text → Bool = match_then (times 5 (seq (char b':') hexw)) is_end in
    let groups = ap (λ k. match_then (times k (seq (char b':') hexw)) is_end) (sym five) in
    let matches : match_then eth_regex is_end (hex2 x ++ colon_bytes xs) ≡ all_no_f (x ∷ xs) =
      hexw_lem x rest (colon_bytes xs) h (no_group 5 (x % 16) (colon_bytes xs) (omega arith))
      ∙ ap (λ b. has_no_f x && b) (ap (λ f. f (colon_bytes xs)) groups ∙ groups_lem xs hs) in
    let loop : set_tokens (tokens_from [] (hex2 x ++ colon_bytes xs)) 0 old ≡ returned (x ∷ xs) =
      rw (tokens-hex2 x xs h hs) (set_tokens_lem [] (x ∷ xs) old (h, hs) (omega (arith, n, m))) in
    rw (matches, loop) refl
