-- ===== src/Dns/Question/Codec.antt =====
-- `WriteLabel` and its meeting with `ReadLabel`; a question that was written reads back.
use dns_wrapper.Common.{
  ℕ, suc, ◌+◌, ◌^◌, ◌≤◌, ◌<◌, ◌≡◌, refl, sym, ap, ◌∙◌, List, [], ◌∷◌, ◌++◌, append-nil, length,
  length-append, All, arith, ok,
}
use dns_wrapper.Common.Memory.{update, update_same, store, store-update}
use dns_wrapper.Net.Buffer.{Buffer, Action, ◌>>=◌, write_byte}
use dns_wrapper.Net.Buffer.Laws.{put, put-append, moved, u16_bytes}
use dns_wrapper.Net.Buffer.Codec.{
  IsClear, put-IsClear, Writes, Reads, Writes-then, Reads-then, write_u16-Writes, vread_u16-Reads,
  pure-Reads,
}
use dns_wrapper.Dns.Question.{
  Question, Mark, write_length, write_chars, write_end, write_label, read_label, read, write,
}
use dns_wrapper.Dns.Question.Labels.{
  IsPlain, IsLabel, IsName, Labels, wire, dotted, read_label-Holds,
}

-- The characters of a label are written as they are, and counted.
write_chars-plain :
    (l rest : List ℕ) (m : Mark) (b : Buffer)
    → All IsPlain l
    → m.len + length l < 256
    → b.pos + length l ≤ b.cap
    → write_chars (l ++ rest) m b ≡ write_chars rest (record m { len = m.len + length l }) (put l b)
unfolding write_chars write_byte put store
write_chars-plain [] rest m b plain short room = ground arith
write_chars-plain (x ∷ l) rest m b (p, plain) short room = ground (
  arith,
  p,
  write_chars-plain l rest (record m { len = m.len + 1 })
      (record b { mem = update b.mem b.pos x; pos = suc b.pos }) plain,
)

-- What follows the characters in `WriteLabel`.
abbrev close : Mark → Action (Unit {0})
close m = write_length m >>= λ m'. write_end

write_length-at :
    (l : List ℕ) (b : Buffer)
    → length l ≤ 63
    → b.pos < b.cap
    → write_length (record { at = b.pos; len = length l }) (put l (moved 1 b))
      ≡ ok (record { at = (put (length l ∷ l) b).pos; len = 0 }, moved 1 (put (length l ∷ l) b))
unfolding write_length put store
write_length-at l b short room = ground (arith, store-update b.mem (suc b.pos) b.pos (length l) l)

-- The last zero byte is one that the buffer has already, and so is the zero that `WriteLabel`
-- writes behind it.
write_end-clear :
    (b : Buffer) → IsClear b → b.pos + 1 < b.cap → write_end (moved 1 b) ≡ ok (tt, put (0 ∷ []) b)
unfolding write_end put store
write_end-clear b clear room = ground (
  arith,
  update_same b.mem (b.pos + 1) 0 (clear (b.pos + 1) (omega arith)),
  update_same b.mem b.pos 0 (clear b.pos (omega arith)),
)

close-at :
    (l : List ℕ) (b : Buffer)
    → length l ≤ 63
    → IsClear b
    → b.pos + length (length l ∷ l ++ 0 ∷ []) < b.cap
    → close (record { at = b.pos; len = length l }) (put l (moved 1 b))
      ≡ ok (tt, put (length l ∷ l ++ 0 ∷ []) b)
close-at l b short clear room =
    let total = length-append l (0 ∷ []) in
    let pos : (put (length l ∷ l) b).pos ≡ b.pos + (1 + length l) = unfold put in omega arith in
    let cap : (put (length l ∷ l) b).cap ≡ b.cap = unfold put in refl in
    rw (write_length-at l b short (omega arith)) (
      write_end-clear (put (length l ∷ l) b) (put-IsClear (length l ∷ l) b clear) (omega arith)
      ∙ ap (λ b'. ok (tt, b')) (sym (put-append (length l ∷ l) (0 ∷ []) b)))

-- A label and its dot: its length byte is filled in, and the next label begins.
write_chars-label :
    (l rest : List ℕ) (b : Buffer)
    → IsLabel l
    → b.pos + 1 + length l < b.cap
    → write_chars (l ++ b'.' ∷ rest) (record { at = b.pos; len = 0 }) (moved 1 b)
      ≡ write_chars rest
          (record { at = (put (length l ∷ l) b).pos; len = 0 })
          (moved 1 (put (length l ∷ l) b))
write_chars-label l rest b good room =
    let short = good.short in
    write_chars-plain l (b'.' ∷ rest) (record { at = b.pos; len = 0 }) (moved 1 b) good.plain
      (omega arith) (omega arith)
    ∙ dot
  where
    dot :
        write_chars (b'.' ∷ rest) (record { at = b.pos; len = 0 + length l }) (put l (moved 1 b))
        ≡ write_chars rest
            (record { at = (put (length l ∷ l) b).pos; len = 0 })
            (moved 1 (put (length l ∷ l) b))
    dot =
        let z : 0 + length l ≡ length l = omega arith in
        let short = good.short in
        unfold write_chars in rw (z, write_length-at l b (omega arith) (omega arith))

write_labels :
    (l : List ℕ) (ls : Labels) (b : Buffer)
    → All IsLabel (l ∷ ls)
    → IsClear b
    → b.pos + length (wire (l ∷ ls)) < b.cap
    → (write_chars (dotted (l ∷ ls)) (record { at = b.pos; len = 0 }) >>= close) (moved 1 b)
      ≡ ok (tt, put (wire (l ∷ ls)) b)
write_labels l [] b (good, goods) clear room =
    let short = good.short in
    let total = length-append l (0 ∷ []) in
    let m : Mark = record { at = b.pos; len = 0 } in
    let chars = write_chars-plain l [] m (moved 1 b) good.plain (omega arith) (omega arith) in
    let z : 0 + length l ≡ length l = omega arith in
    rw (rw (append-nil l, z) at chars) (unfold write_chars in close-at l b good.short clear room)
write_labels l (m ∷ ls) b (good, goods) clear room =
    let rest =
      write_labels m ls (put (length l ∷ l) b) goods (put-IsClear (length l ∷ l) b clear) in
    let total = length-append l (wire (m ∷ ls)) in
    rw (write_chars-label l (dotted (m ∷ ls)) b good (omega arith)) (
      rest (unfold put in omega arith)
      ∙ ap (λ b'. ok (tt, b')) (sym (put-append (length l ∷ l) (wire (m ∷ ls)) b)))

pub write_label-Writes : (ls : Labels) → IsName ls → Writes (write_label (dotted ls)) (wire ls)
unfolding write_label
write_label-Writes [] name = absurd (name.named refl)
write_label-Writes (l ∷ ls) name = record {
  apply = λ b clear room. ground (arith, write_labels l ls b name.labels clear room);
}

pub read_label-Reads : (ls : Labels) → IsName ls → Reads read_label (wire ls) (λ p. (p, dotted ls))
read_label-Reads ls name = record {
  apply = λ b cap room holds. read_label-Holds ls b name cap room holds;
}

-- A question of a name, with its fields in range, begun at `p`.
abbrev pub question : Labels → ℕ → ℕ → ℕ → Question
question ls t c p = record { start = p; name = dotted ls; type = t; class = c }

abbrev pub question_bytes : Labels → ℕ → ℕ → List ℕ
question_bytes ls t c = wire ls ++ (u16_bytes t ++ u16_bytes c)

pub write-Writes :
    (ls : Labels) (t c p : ℕ)
    → IsName ls
    → Writes (write (question ls t c p)) (question_bytes ls t c)
unfolding write
write-Writes ls t c p name =
    Writes-then (write_label-Writes ls name) (Writes-then (write_u16-Writes t) (write_u16-Writes c))

pub read-Reads :
    (ls : Labels) (t c : ℕ)
    → IsName ls
    → t < 2 ^ 16
    → c < 2 ^ 16
    → Reads read (question_bytes ls t c) (question ls t c)
unfolding read
read-Reads ls t c name ht hc = Reads-then _ _ (read_label-Reads ls name) λ p.
    Reads-then _ _ (vread_u16-Reads t ht)
      λ q. Reads-then _ _ (vread_u16-Reads c hc) λ r. pure-Reads _
