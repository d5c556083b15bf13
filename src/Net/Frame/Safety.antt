-- ===== src/Net/Frame/Safety.antt =====
-- The reading of a frame stays inside it (src/net/packet.cpp).
use dns_wrapper.Common.{
  ℕ, zero, suc, ◌+◌, ◌-◌, ◌*◌, ◌≤◌, ◌<◌, ◌≡◌, ◌≢◌, refl, Bool, true, false, ◌||◌, ◌==◌, ◌!=◌, ltb,
  if◌then◌else◌, Bool-cases, inl, inr, [], ◌∷◌, ◌++◌, Result, ok, err, fault, stuck, bind, arith,
  bit_and,
}
use dns_wrapper.Net.Buffer.{
  Buffer, Action, ◌>>=◌, ◌>>◌, pure, raise, validate, peek_byte, advance, read_byte, read_u16,
  read_u32, vread_u8, vread_u16, vread_u32, e_formerr, e_notimp,
}
use dns_wrapper.Net.Frame.{
  within, is_vlan, read_bytes, skip_vlans, read_word, read_words, read_ipv4_fields, read_ipv4,
  read_ipv6, read_ip, read_udp, read, eth_p_ip, eth_p_ipv6, ipproto_udp,
}

-- The bytes that are left in the frame, which the array holds.
record Fits (n : ℕ) (b : Buffer) : Type 0 where
  room : b.pos + n ≤ b.size
  inside : b.size ≤ b.cap

-- A result that is no access outside the array: a value, with bytes left, or an error code.
data IsSafe {A : Type 0} (n : ℕ) : Result (A × Buffer) → Type 0 where
  ended : (a : A) (b : Buffer) → Fits n b → IsSafe n (ok (a, b))
  refused : (e : ℕ) → IsSafe n (err e)

-- With n bytes left an action is safe, and leaves k.
record Moves {A : Type 0} (n k : ℕ) (m : Action A) : Type 0 where
  run : (b : Buffer) → Fits n b → IsSafe k (m b)

bound :
    {A B : Type 0} {n k : ℕ} {r : Result (A × Buffer)} (f : A → Action B)
    → IsSafe n r
    → ((a : A) → Moves n k (f a))
    → IsSafe k (bind r (λ (a, b'). f a b'))
bound f (ended a b fits) h = (h a).run b fits
bound f (refused e) h = refused e

seq :
    {A B : Type 0} {n k l : ℕ} (m : Action A) (f : A → Action B)
    → Moves n k m
    → ((a : A) → Moves k l (f a))
    → Moves n l (m >>= f)
seq m f h hf = record { run = λ b fits. bound f (h.run b fits) hf }

pure-Moves : {A : Type 0} {n k : ℕ} (a : A) → k ≤ n → Moves n k (pure a)
pure-Moves a le = record {
  run = λ b fits. ended a b (record { room = omega (arith, fits.room, le); inside = fits.inside });
}

raise-Moves : {A : Type 0} {n k : ℕ} (e : ℕ) → Moves {A = A} n k (raise e)
raise-Moves e = record { run = λ b fits. refused e }

either-Moves :
    {A : Type 0} {n k : ℕ} (c : Bool) (m m' : Action A)
    → (c ≡ true → Moves n k m)
    → (c ≡ false → Moves n k m')
    → Moves n k (if c then m else m')
either-Moves true m m' h h' = h refl
either-Moves false m m' h h' = h' refl

validate-Moves : (n m : ℕ) → n ≤ m → Moves m m (validate n)
unfolding validate
validate-Moves n m le = record {
  run = λ b fits.
      let inside : ltb b.size (b.pos + n) ≡ false = ground (arith, fits.room, le) in
      rw inside (ended tt b fits);
}

peek_byte-Moves : (i m : ℕ) → i < m → Moves m m (peek_byte i)
unfolding peek_byte
peek_byte-Moves i m lt = record {
  run = λ b fits.
      let inside : ltb (b.pos + i) b.cap ≡ true = ground (arith, fits.room, fits.inside, lt) in
      rw inside (ended (b.mem (b.pos + i)) b fits);
}

advance-Moves : (n m k : ℕ) → n + k ≤ m → Moves m k (advance n)
unfolding advance
advance-Moves n m k le = record {
  run = λ b fits.
      ended tt (record b { pos = b.pos + n })
        (record { room = omega (arith, fits.room, le); inside = fits.inside });
}

-- An action on a frame of which nothing is known, behind a check of the size.
within-Moves : {A : Type 0} {n k : ℕ} (m : Action A) → Moves n k m → Moves 0 k (within n m)
within-Moves {A} {n} {k} m h = record {
  run = λ b fits. elim (Bool-cases (ltb b.size (b.pos + n))) [
    | inl short ↦ rw short (refused e_formerr)
    | inr long ↦ rw long (h.run b (record { room = ground (arith, long); inside = fits.inside }))
  ];
}

read_byte-Moves : {n k : ℕ} → 1 + k ≤ n → Moves n k read_byte
unfolding read_byte
read_byte-Moves {n} {k} le =
    seq (peek_byte 0) (λ v. advance 1 >> pure v) (peek_byte-Moves 0 n (omega arith))
      (λ v.
        seq (advance 1) (λ u. pure v) (advance-Moves 1 n k le) (λ u. pure-Moves v (omega arith)))

read_bytes-Moves : (n : ℕ) {m k : ℕ} → n + k ≤ m → Moves m k (read_bytes n)
unfolding read_bytes
read_bytes-Moves zero le = pure-Moves [] (omega arith)
read_bytes-Moves (suc n) {m} {k} le =
    seq read_byte (λ x. read_bytes n >>= (λ xs. pure (x ∷ xs)))
      (read_byte-Moves {n = m} {k = n + k} (omega arith))
      (λ x.
        seq (read_bytes n) (λ xs. pure (x ∷ xs))
          (read_bytes-Moves n {m = n + k} {k = k} (omega arith))
          (λ xs. pure-Moves (x ∷ xs) (omega arith)))

vread_u8-Moves : {n k : ℕ} → 1 + k ≤ n → Moves n k vread_u8
unfolding vread_u8
vread_u8-Moves {n} le =
    seq (validate 1) (λ u. read_byte) (validate-Moves 1 n (omega arith)) (λ u. read_byte-Moves le)

vread_u16-Moves : {n k : ℕ} → 2 + k ≤ n → Moves n k vread_u16
unfolding vread_u16 read_u16
vread_u16-Moves {n} {k} le =
    seq (validate 2) (λ u. read_u16) (validate-Moves 2 n (omega arith))
      (λ u.
        seq (peek_byte 0) (λ hi. peek_byte 1 >>= (λ lo. advance 2 >> pure (hi * 256 + lo)))
          (peek_byte-Moves 0 n (omega arith))
          (λ hi.
            seq (peek_byte 1) (λ lo. advance 2 >> pure (hi * 256 + lo))
              (peek_byte-Moves 1 n (omega arith))
              (λ lo.
                seq (advance 2) (λ u. pure (hi * 256 + lo)) (advance-Moves 2 n k le)
                  (λ u. pure-Moves _ (omega arith)))))

-- Four bytes have to be left, since the macro only asks for two.
vread_u32-Moves : {n k : ℕ} → 4 + k ≤ n → Moves n k vread_u32
unfolding vread_u32 read_u32
vread_u32-Moves {n} {k} le =
    seq (validate 2) (λ u. read_u32) (validate-Moves 2 n (omega arith))
      (λ u. seq (peek_byte 0) _ (peek_byte-Moves 0 n (omega arith)) (λ a.
        seq (peek_byte 1) _ (peek_byte-Moves 1 n (omega arith)) (λ b.
          seq (peek_byte 2) _ (peek_byte-Moves 2 n (omega arith)) (λ c.
            seq (peek_byte 3) (λ d. advance 4 >> pure (((a * 256 + b) * 256 + c) * 256 + d))
              (peek_byte-Moves 3 n (omega arith))
              (λ d.
                seq (advance 4) (λ u. pure (((a * 256 + b) * 256 + c) * 256 + d))
                  (advance-Moves 4 n k le) (λ u. pure-Moves _ (omega arith)))))))

read_words-Moves : (n : ℕ) {m k : ℕ} → 4 * n + k ≤ m → Moves m k (read_words n)
unfolding read_words read_word
read_words-Moves zero le = pure-Moves [] (omega arith)
read_words-Moves (suc n) {m} {k} le = seq read_word _ (word (omega arith)) (λ w.
    seq (read_words n) (λ ws. pure (w ++ ws))
      (read_words-Moves n {m = 4 * n + k} {k = k} (omega arith))
      (λ ws. pure-Moves (w ++ ws) (omega arith)))
  where
    word : 4 + (4 * n + k) ≤ m → Moves m (4 * n + k) read_word
    word room = seq vread_u32 _ (vread_u32-Moves room) (λ v. pure-Moves _ (omega arith))

skip_vlans-Moves : (n protocol : ℕ) → Moves 0 0 (skip_vlans n protocol)
unfolding skip_vlans
skip_vlans-Moves zero protocol = pure-Moves protocol (omega arith)
skip_vlans-Moves (suc n) protocol =
    either-Moves (is_vlan protocol) _ _
      (λ tagged. within-Moves {n = 4} (advance 2 >> (vread_u16 >>= skip_vlans n)) (
        seq (advance 2) (λ u. vread_u16 >>= skip_vlans n) (advance-Moves 2 4 2 (omega arith))
          (λ u.
            seq vread_u16 (skip_vlans n) (vread_u16-Moves {n = 2} {k = 0} (omega arith))
              (λ inner. skip_vlans-Moves n inner))))
      (λ plain. pure-Moves protocol (omega arith))

read_ipv4_fields-Moves : (h : ℕ) → 20 ≤ h → Moves h 0 (read_ipv4_fields h)
unfolding read_ipv4_fields
read_ipv4_fields-Moves h le = seq (advance 9) _ (advance-Moves 9 h (h - 9) (omega arith)) (λ u.
    seq vread_u8 _ (vread_u8-Moves {n = h - 9} {k = h - 10} (omega arith)) (λ protocol.
      seq (advance 2) _ (advance-Moves 2 (h - 10) (h - 12) (omega arith)) (λ u.
        seq (read_words 1) _ (read_words-Moves 1 {m = h - 12} {k = h - 16} (omega arith)) (λ source.
          seq (read_words 1) _ (read_words-Moves 1 {m = h - 16} {k = h - 20} (omega arith))
            (λ destination.
              seq (advance (h - 20)) _ (advance-Moves (h - 20) (h - 20) 0 (omega arith))
                (λ u. pure-Moves _ (omega arith)))))))

read_ipv4-Moves : Moves 0 0 read_ipv4
unfolding read_ipv4
read_ipv4-Moves = within-Moves {n = 20} _ (
    seq (peek_byte 0) _ (peek_byte-Moves 0 20 (omega arith)) (λ first.
      either-Moves (bit_and first 0xf0 != 0x40 || ltb (bit_and first 0x0f * 4) 20) (raise e_formerr)
        (within (bit_and first 0x0f * 4) (read_ipv4_fields (bit_and first 0x0f * 4)))
        (λ bad. raise-Moves e_formerr)
        (λ good. anywhere (
          within-Moves _
            (read_ipv4_fields-Moves (bit_and first 0x0f * 4) (ground (arith, good)))))))
  where
    -- What needs no room may be run with some.
    anywhere : {A : Type 0} {n : ℕ} {m : Action A} → Moves 0 0 m → Moves n 0 m
    anywhere h = record {
      run = λ b fits. h.run b (record { room = omega (arith, fits.room); inside = fits.inside });
    }

read_ipv6-Moves : Moves 0 0 read_ipv6
unfolding read_ipv6
read_ipv6-Moves = within-Moves {n = 40} _ (
    seq (advance 6) _ (advance-Moves 6 40 34 (omega arith)) (λ u.
      seq vread_u8 _ (vread_u8-Moves {n = 34} {k = 33} (omega arith)) (λ protocol.
        seq (advance 1) _ (advance-Moves 1 33 32 (omega arith)) (λ u.
          seq (read_words 4) _ (read_words-Moves 4 {m = 32} {k = 16} (omega arith)) (λ source.
            seq (read_words 4) _ (read_words-Moves 4 {m = 16} {k = 0} (omega arith))
              (λ destination. pure-Moves _ (omega arith)))))))

read_ip-Moves : (protocol : ℕ) → Moves 0 0 (read_ip protocol)
unfolding read_ip
read_ip-Moves protocol =
    either-Moves (protocol == eth_p_ip) read_ipv4 _ (λ v4. read_ipv4-Moves)
      (λ not_v4.
        either-Moves (protocol == eth_p_ipv6) read_ipv6 _ (λ v6. read_ipv6-Moves)
          (λ other. raise-Moves e_notimp))

read_udp-Moves : Moves 0 0 read_udp
unfolding read_udp
read_udp-Moves = within-Moves {n = 8} _ (
    seq vread_u16 _ (vread_u16-Moves {n = 8} {k = 6} (omega arith)) (λ source.
      seq vread_u16 _ (vread_u16-Moves {n = 6} {k = 4} (omega arith)) (λ destination.
        seq vread_u16 _ (vread_u16-Moves {n = 4} {k = 2} (omega arith)) (λ n. record {
          run = λ b fits.
              ended (source, destination) (record b { pos = b.pos + 2; udp = n })
                (record { room = omega (arith, fits.room); inside = fits.inside });
        }))))

read-Moves : Moves 0 0 read
unfolding read
read-Moves = within-Moves {n = 14} _ (
    seq (read_bytes 6) _ (read_bytes-Moves 6 {m = 14} {k = 8} (omega arith)) (λ eth_destination.
      seq (read_bytes 6) _ (read_bytes-Moves 6 {m = 8} {k = 2} (omega arith)) (λ eth_source.
        seq vread_u16 _ (vread_u16-Moves {n = 2} {k = 0} (omega arith)) (λ outer.
          seq (skip_vlans 2 outer) _ (skip_vlans-Moves 2 outer) (λ eth_protocol.
            seq (read_ip eth_protocol) _ (read_ip-Moves eth_protocol) (λ ip.
              seq (if ip.protocol == ipproto_udp then read_udp else raise e_notimp) _
                (either-Moves (ip.protocol == ipproto_udp) read_udp (raise e_notimp)
                  (λ udp. read_udp-Moves) (λ other. raise-Moves e_notimp))
                (λ ports. pure-Moves _ (omega arith))))))))

safe-inside : {A : Type 0} {r : Result (A × Buffer)} → IsSafe 0 r → (r ≢ fault) × (r ≢ stuck)
safe-inside (ended a b fits) = (λ e. cc, λ e. cc)
safe-inside (refused e) = (λ e'. cc, λ e'. cc)

-- Whatever bytes a frame has, as long as the array holds its size: its reading never leaves the
-- array, and it ends.
pub read-inside :
    (b : Buffer) → b.pos ≤ b.size → b.size ≤ b.cap → (read b ≢ fault) × (read b ≢ stuck)
read-inside b room inside =
    safe-inside (read-Moves.run b (record { room = omega (arith, room); inside = inside }))
