-- ===== src/Dns/Question.antt =====
-- include/dns/dnsquestion.hpp and src/dns/dnsquestion.cpp: names as labels with compression
-- pointers, and the question that starts with one.
pub mod Bounds
pub mod Labels
pub mod Compressed
pub mod Pointers
pub mod Root
pub mod Codec
use dns_wrapper.Common.{
  ℕ, zero, suc, ◌+◌, ◌*◌, ◌/◌, ◌%◌, bit_and, bit_xor, Bool, ◌&&◌, ◌||◌, ◌==◌, ◌!=◌, ltb, leb,
  if◌then◌else◌, List, [], ◌∷◌, ◌++◌, length, ok, fault, stuck,
}
use dns_wrapper.Net.Buffer.{
  Buffer, Action, ◌>>=◌, ◌>>◌, pure, raise, seek, read_byte, vread_u8, vread_u16, poke, write_byte,
  write_u16, e_noerror, e_formerr, e_notimp, maxdname,
}
use dns_wrapper.Dns.Header.{
  PacketType, incoming_request, incoming_response, outgoing_request, outgoing_response, qt_a, qt_ns,
  qt_cname, qt_mx, qt_aaaa, qt_opt, qtc_in,
}

abbrev pub max_jumps : ℕ
max_jumps = 5

-- The local variables of `ReadLabel`: the byte read last, the jumps made, the position saved at a
-- jump, and what the array `storage` holds below `size`.
pub record Scan : Type 0 where
  pub c : ℕ
  pub jumps : ℕ
  pub saved : ℕ
  pub storage : List ℕ

-- `storage[size++] = x`, in an array of `maxdname` bytes.
unfoldable pub push : ℕ → List ℕ → Action (List ℕ)
push x storage b = if ltb (length storage) maxdname then ok (storage ++ (x ∷ []), b) else fault

-- `for (uint8_t i = 0; i < c; i++) storage[size++] = READ_BYTE(bpb);`
unfoldable pub copy : ℕ → List ℕ → Action (List ℕ)
copy zero storage = pure storage
copy (suc n) storage = do x ← read_byte; storage' ← push x storage; copy n storage'

-- `if (t >= bpb->size)`, and the jump to `t`.
unfoldable pub jump : ℕ → Scan → Action Scan
jump t s b =
    if leb b.size t
    then raise e_formerr b
    else ok (record s { saved = b.pos; jumps = s.jumps + 1 }, record b { pos = t })

-- A pointer: its offset is the low six bits of `c` and the next byte.
unfoldable pub follow : Scan → Action Scan
unfolding jump
follow s = do d ← vread_u8; jump (bit_xor s.c 0xc0 * 256 + d) s

-- A label of `c` bytes, and the dot behind it.
unfoldable pub take_label : Scan → Action Scan
unfolding copy push
take_label s b =
    if leb b.size (b.pos + s.c)
    then raise e_formerr b
    else (do
      copied ← copy s.c s.storage
      dotted ← push b'.' copied
      pure (record s { storage = dotted }))
        b

-- The body of the while loop, the read of the next `c` apart.
unfoldable pub take_part : Scan → Action Scan
take_part s =
    if bit_and s.c 0xc0 == 0xc0
    then follow s
    else if bit_and s.c 0x40 == 0x40 || bit_and s.c 0x80 == 0x80
    then raise e_notimp
    else take_label s

unfoldable pub label_step : Scan → Action Scan
label_step s = do s' ← take_part s; next ← vread_u8; pure (record s' { c = next })

-- `while (c && jumps < MAX_JUMPS)`
unfoldable pub label_loop : ℕ → Scan → Action Scan
label_loop zero s = λ b. stuck
label_loop (suc fuel) s =
    let rest = label_step s >>= label_loop fuel in
    if s.c != 0 && ltb s.jumps max_jumps then rest else pure s

-- `storage[--size] = '\0'`: the name is what stands before the last byte.
unfoldable pub terminate : List ℕ → Action (List ℕ)
terminate [] b = fault
terminate (x ∷ []) b = ok ([], b)
terminate (x ∷ y ∷ rest) b = (do name ← terminate (y ∷ rest); pure (x ∷ name)) b

-- What follows the loop.
unfoldable pub finish : Scan → Action (List ℕ)
unfolding seek
finish s =
    if s.jumps == max_jumps
    then raise e_formerr
    else if ltb 0 s.saved
    then (do seek s.saved; terminate s.storage)
    else terminate s.storage

-- Each round takes a byte or one of five jumps, so this many rounds are enough (`Bounds`).
unfoldable pub label_fuel : Buffer → ℕ
label_fuel b = 6 * (b.size + 1) + 1

-- `ReadLabel`: the new `Start`, and the name left in `storage`.
unfoldable pub read_label : Action (ℕ × List ℕ)
read_label b =
    (do
      c ← vread_u8
      if c == 0 then pure (b.pos, []) else (do
        s ← label_loop (label_fuel b) (record { c = c; jumps = 0; saved = 0; storage = [] })
        name ← finish s
        pure (b.pos, name)))
      b

pub record Question : Type 0 where
  pub start : ℕ
  pub name : List ℕ
  pub type : ℕ
  pub class : ℕ

unfoldable pub read : Action Question
read = do
  (s, n) ← read_label
  t ← vread_u16
  c ← vread_u16
  pure (record { start = s; name = n; type = t; class = c })

unfoldable pub is_known_type : ℕ → Bool
is_known_type t =
    t == qt_a || t == qt_aaaa || t == qt_ns || t == qt_cname || t == qt_mx || t == qt_opt

unfoldable pub validate : PacketType → Question → ℕ
unfolding is_known_type
validate incoming_request q =
    if is_known_type q.type
    then (if q.type != qt_opt && q.class != qtc_in then e_notimp else e_noerror)
    else e_notimp
validate incoming_response q = e_noerror
validate outgoing_request q = e_noerror
validate outgoing_response q = e_noerror

-- The local variables of `WriteLabel`: where the length byte of the label goes, and its length.
pub record Mark : Type 0 where
  pub at : ℕ
  pub len : ℕ

-- `WRITE_LENGTH`
unfoldable pub write_length : Mark → Action Mark
unfolding poke seek
write_length m b = (do poke m.at m.len; seek (suc b.pos); pure (record { at = b.pos; len = 0 })) b

-- `for (const char *c = in; *c; c++)`; `len` is a uint8_t.
unfoldable pub write_chars : List ℕ → Mark → Action Mark
write_chars [] m = pure m
write_chars (x ∷ xs) m = if x == 0 then pure m else (do
  m' ←
      (if x == b'.'
        then write_length m
        else (do write_byte x; pure (record m { len = (m.len + 1) % 256 })))
  write_chars xs m')

-- `bpb->buf[bpb->pos] = 0;`
unfoldable pub write_end : Action (Unit {0})
unfolding poke
write_end b = poke b.pos 0 b

unfoldable pub write_label : List ℕ → Action (Unit {0})
unfolding seek
write_label name b =
    (do
      seek (suc b.pos)
      m ← write_chars name (record { at = b.pos; len = 0 })
      write_length m
      write_end)
      b

unfoldable pub write : Question → Action (Unit {0})
write q = do write_label q.name; write_u16 q.type; write_u16 q.class

unfoldable pub is_question_of_type : ℕ → Question → Bool
is_question_of_type t q = q.type == t

-- The characters before the first NUL, which `strlen` counts.
unfoldable pub c_string : List ℕ → List ℕ
c_string [] = []
c_string (x ∷ xs) = if x == 0 then [] else x ∷ c_string xs

-- The bytes that `UpdateDigest` hands over: the name, then `Type` and `Class` as they stand in the
-- memory of a little-endian machine.
unfoldable pub digest_bytes : Question → List ℕ
digest_bytes q =
    c_string q.name ++ (q.type % 256) ∷ (q.type / 256) ∷ (q.class % 256) ∷ (q.class / 256) ∷ []
