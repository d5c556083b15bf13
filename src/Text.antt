-- ===== src/Text.antt =====
-- src/util.cpp: addresses as text. A text is the list of its bytes.
pub mod Eth
use Prim.Native.Char.{code}
use Prim.Native.String.{String}
use dns_wrapper.Common.{
  ℕ, zero, suc, ◌+◌, ◌-◌, ◌*◌, ◌/◌, ◌%◌, Bool, true, false, ◌&&◌, ◌||◌, not, ◌==◌, ◌!=◌, ltb, leb,
  if◌then◌else◌, List, [], ◌∷◌, ◌++◌, Option, none, some,
}
use dns_wrapper.Rule.Evaluate.{bytes_equal}
use dns_wrapper.Net.Buffer.{EthAddress}

abbrev pub Text : Type 0
Text = List ℕ

abbrev pub codes : String → Text
codes String.[] = []
codes (String.◌∷◌ c s) = code c ∷ codes s

-- What a call throws: boost's `validation_error` with the option and the value, for an invalid
-- value and for a missing one; what `std::stoi` throws; and the network library's error.
pub data Exception : Type 0 where
  invalid_option_value : Text → Text → Exception
  at_least_one_value_required : Text → Exception
  invalid_argument out_of_range system_error : Exception

-- The outcome of a call that may throw; `broken` is an access outside an array, `unfinished` stands
-- for fuel of the model that ran out.
pub data Try (A : Type 0) : Type 0 where
  returned : A → Try A
  thrown : Exception → Try A
  broken unfinished : Try A

abbrev pub try_then : {A B : Type 0} → Try A → (A → Try B) → Try B
try_then (returned a) f = f a
try_then (thrown e) f = thrown e
try_then broken f = broken
try_then unfinished f = unfinished

-- The regular expressions of the file: none of them has an unbounded repetition.
pub data Regex : Type 0 where
  empty : Regex
  one : (ℕ → Bool) → Regex
  seq alt : Regex → Regex → Regex

abbrev pub maybe : Regex → Regex
maybe r = alt r empty

abbrev pub times : ℕ → Regex → Regex
times zero r = empty
times (suc n) r = seq r (times n r)

abbrev pub char : ℕ → Regex
char c = one (λ x. x == c)

-- Whether a text starts with a match behind which the rest passes.
unfoldable pub match_then : Regex → (Text → Bool) → Text → Bool
match_then empty rest s = rest s
match_then (one test) rest [] = false
match_then (one test) rest (c ∷ s) = test c && rest s
match_then (seq a b) rest s = match_then a (match_then b rest) s
match_then (alt a b) rest s = match_then a rest s || match_then b rest s

abbrev pub is_end : Text → Bool
is_end [] = true
is_end (c ∷ s) = false

-- `std::regex_match`
unfoldable pub regex_match : Regex → Text → Bool
unfolding match_then
regex_match r s = match_then r is_end s

abbrev pub between : ℕ → ℕ → ℕ → Bool
between a b c = leb a c && leb c b

-- `HEX`, which leaves out f and F, and `HEXW`.
abbrev pub is_hex : ℕ → Bool
is_hex c = between b'0' b'9' c || (between b'a' b'e' c || between b'A' b'E' c)

abbrev pub hexw : Regex
hexw = seq (one is_hex) (maybe (one is_hex))

-- `IPV4` and `IPV6`.
abbrev pub digit : ℕ → ℕ → Regex
digit a b = one (between a b)

abbrev pub ipv4_part : Regex
ipv4_part = alt (seq (char b'2') (seq (char b'5') (digit b'0' b'5'))) (
    alt (seq (char b'2') (seq (digit b'0' b'4') (digit b'0' b'9')))
      (seq (maybe (digit b'0' b'1')) (seq (digit b'0' b'9') (maybe (digit b'0' b'9')))))

abbrev pub ipv6_part : Regex
ipv6_part =
    seq (one is_hex) (maybe (seq (one is_hex) (maybe (seq (one is_hex) (maybe (one is_hex))))))

-- `.` is any character but a line terminator.
abbrev pub any_char : Regex
any_char = one (λ c. c != 10 && c != 13)

abbrev pub ip_regex4 : Regex
ip_regex4 = seq ipv4_part (times 3 (seq any_char ipv4_part))

abbrev pub ip_regex6 : Regex
ip_regex6 = seq ipv6_part (times 7 (seq (char b':') ipv6_part))

abbrev pub eth_regex : Regex
eth_regex = seq hexw (times 5 (seq (char b':') hexw))

pub data IpProtocolVersion : Type 0 where
  ipv4 ipv6 no_version : IpProtocolVersion

-- `GetIpAddressType`
unfoldable pub get_ip_address_type : Text → IpProtocolVersion
unfolding regex_match
get_ip_address_type host =
    if regex_match ip_regex4 host
    then ipv4
    else if regex_match ip_regex6 host
    then ipv6
    else no_version

-- The value of a hexadecimal digit.
unfoldable pub hex_value : ℕ → Option ℕ
hex_value c =
    if between b'0' b'9' c
    then some (c - b'0')
    else if between b'a' b'f' c
    then some (c - b'a' + 10)
    else if between b'A' b'F' c
    then some (c - b'A' + 10)
    else none

-- The digits at the front, onto a value that is read already.
unfoldable pub hex_digits : Text → ℕ → ℕ
unfolding hex_value
hex_digits [] n = n
hex_digits (c ∷ s) n = elim (hex_value c) [ none ↦ n | some d ↦ hex_digits s (n * 16 + d) ]

abbrev pub is_space : ℕ → Bool
is_space c = c == 32 || between 9 13 c

unfoldable pub skip_spaces : Text → Text
skip_spaces [] = []
skip_spaces (c ∷ s) = let rest = skip_spaces s in if is_space c then rest else c ∷ s

-- A number without its sign: a digit is needed, and `0x` in front of one is left out.
unfoldable pub unsigned16 : Text → Option ℕ
unfolding hex_digits hex_value
unsigned16 [] = none
unsigned16 (c ∷ []) = hex_value c
unsigned16 (c ∷ x ∷ []) = elim (hex_value c) [ none ↦ none | some d ↦ some (hex_digits (x ∷ []) d) ]
unsigned16 (c ∷ x ∷ y ∷ s) =
    if c == b'0' && (x == b'x' || x == b'X')
    then elim (hex_value y) [ none ↦ some 0 | some d ↦ some (hex_digits s d) ]
    else elim (hex_value c) [ none ↦ none | some d ↦ some (hex_digits (x ∷ y ∷ s) d) ]

-- An `int` from its magnitude, cast to a byte.
abbrev pub as_byte : Bool → Option ℕ → Try ℕ
as_byte negative none = thrown invalid_argument
as_byte true (some n) =
    if leb n 2147483648 then returned ((256 - n % 256) % 256) else thrown out_of_range
as_byte false (some n) = if leb n 2147483647 then returned (n % 256) else thrown out_of_range

-- `static_cast<uint8_t>(std::stoi(token, nullptr, 16))`
unfoldable pub stoi16 : Text → Try ℕ
unfolding skip_spaces unsigned16
stoi16 token = elim (skip_spaces token) [
  | [] ↦ thrown invalid_argument
  | ◌∷◌ c s ↦
      if c == b'-'
      then as_byte true (unsigned16 s)
      else if c == b'+'
      then as_byte false (unsigned16 s)
      else as_byte false (unsigned16 (c ∷ s))
]

-- `std::getline(ss, token, ':')` until the stream ends: the tokens, with the one that is read first.
unfoldable pub tokens_from : Text → Text → List Text
tokens_from token [] = elim token [ [] ↦ [] | ◌∷◌ c s ↦ (c ∷ s) ∷ [] ]
tokens_from token (c ∷ s) =
    let done = tokens_from [] s in
    let more = tokens_from (token ++ c ∷ []) s in if c == b':' then token ∷ done else more

unfoldable pub set_at : ℕ → ℕ → EthAddress → Option EthAddress
set_at i x [] = none
set_at zero x (y ∷ ys) = some (x ∷ ys)
set_at (suc i) x (y ∷ ys) = elim (set_at i x ys) [ none ↦ none | some zs ↦ some (y ∷ zs) ]

-- The loop of `ToEthAddress`.
unfoldable pub set_tokens : List Text → ℕ → EthAddress → Try EthAddress
unfolding stoi16 set_at
set_tokens [] i address = returned address
set_tokens (t ∷ ts) i address = try_then (stoi16 t) λ x. elim (set_at i x address) [
  | none ↦ broken
  | some address' ↦ set_tokens ts (suc i) address'
]

-- `ToEthAddress`: whether it returns 1 and not -1, and the address.
unfoldable pub to_eth_address : Text → EthAddress → Try (Bool × EthAddress)
unfolding regex_match tokens_from set_tokens
to_eth_address s address =
    if regex_match eth_regex s
    then returned (false, address)
    else try_then (set_tokens (tokens_from [] s) 0 address) λ address'. returned (true, address')

-- `EthAddressToString`
abbrev pub hex_char : ℕ → ℕ
hex_char d = if ltb d 10 then b'0' + d else b'a' + (d - 10)

abbrev pub hex2 : ℕ → Text
hex2 x = hex_char (x / 16) ∷ hex_char (x % 16) ∷ []

unfoldable pub colon_bytes : EthAddress → Text
colon_bytes [] = []
colon_bytes (x ∷ xs) = b':' ∷ hex2 x ++ colon_bytes xs

unfoldable pub eth_address_to_string : EthAddress → Text
unfolding colon_bytes
eth_address_to_string [] = []
eth_address_to_string (x ∷ xs) = hex2 x ++ colon_bytes xs
