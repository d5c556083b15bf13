-- ===== src/Dns/Question/Compressed.antt =====
-- Names with compression pointers: which labels the bytes of a packet spell, and `ReadLabel` on them.
use dns_wrapper.Common.{
  ℕ, zero, suc, ◌+◌, ◌*◌, ◌≤◌, ◌<◌, ◌≡◌, ◌≢◌, refl, sym, ap, ◌∙◌, subst, List, [], ◌∷◌, ◌++◌,
  append_assoc, append-nil, length, length-append, arith, ok, stuck, bit_xor,
}
use dns_wrapper.Common.Bits.{and_c0, xor_c0}
use dns_wrapper.Common.Memory.{Memory, Holds}
use dns_wrapper.Net.Buffer.{Buffer, maxdname}
use dns_wrapper.Net.Buffer.Laws.{vread_u8-Holds}
use dns_wrapper.Dns.Question.{Scan, jump, follow, take_part, label_step, label_loop}
use dns_wrapper.Dns.Question.Labels.{IsLabel, Labels, with_dots, take_part-Holds}

-- `Spells m size p ls n e`: the bytes at `p` of a packet of `size` bytes spell the labels `ls`,
-- with `n` pointers on the way; `e` is the position behind the last pointer, or behind the zero
-- byte if there is none.
pub data Spells (m : Memory) (size : ℕ) : ℕ → Labels → ℕ → ℕ → Type 0 where
  root : {p : ℕ} → m p ≡ 0 → p < size → Spells m size p [] 0 (suc p)
  label :
      {p : ℕ} {ls : Labels} {n e : ℕ} (l : List ℕ)
      → IsLabel l
      → m p ≡ length l
      → Holds m (suc p) l
      → suc p + length l < size
      → Spells m size (suc p + length l) ls n e
      → Spells m size p (l ∷ ls) n e
  last_pointer :
      {p : ℕ} {ls : Labels} {e : ℕ} (hi : ℕ)
      → m p ≡ 192 + hi
      → hi < 64
      → suc p < size
      → hi * 256 + m (suc p) < size
      → Spells m size (hi * 256 + m (suc p)) ls 0 e
      → Spells m size p ls 1 (suc (suc p))
  pointer :
      {p : ℕ} {ls : Labels} {n e : ℕ} (hi : ℕ)
      → m p ≡ 192 + hi
      → hi < 64
      → suc p < size
      → hi * 256 + m (suc p) < size
      → Spells m size (hi * 256 + m (suc p)) ls (suc n) e
      → Spells m size p ls (suc (suc n)) e

pub Spells-inside : {m : Memory} {size p n e : ℕ} {ls : Labels} → Spells m size p ls n e → p < size
Spells-inside (root z h) = h
Spells-inside (label l good c holds h rest) = omega arith
Spells-inside (last_pointer hi c small h target rest) = omega arith
Spells-inside (pointer hi c small h target rest) = omega arith

take_part-pointer :
    (s : Scan) (b : Buffer) (hi : ℕ)
    → s.c ≡ 192 + hi
    → hi < 64
    → b.size ≤ b.cap
    → b.pos < b.size
    → hi * 256 + b.mem b.pos < b.size
    → take_part s b
      ≡ ok (
        record s { saved = suc b.pos; jumps = s.jumps + 1 },
        record b { pos = hi * 256 + b.mem b.pos },
      )
unfolding take_part follow jump
take_part-pointer s b hi e small cap room target =
    let first = vread_u8-Holds b cap (b.mem b.pos) (omega arith) (refl, tt) in
    let offset : bit_xor s.c 0xc0 ≡ hi = ap (λ c. bit_xor c 0xc0) e ∙ xor_c0 hi small in
    ground (arith, first, and_c0 s.c (omega arith), offset)

-- The position that a run with `n` pointers saves.
abbrev pub saved_at : ℕ → ℕ → ℕ → ℕ
saved_at zero before e = before
saved_at (suc n) before e = e

-- How the loop ends: where no pointer was followed, at the end of the bytes.
abbrev pub Ends : ℕ → Scan → Buffer → Labels → ℕ → ℕ → Type 0
Ends fuel s b ls n e =
    (q : ℕ) × (label_loop fuel s b
      ≡ ok (
        record s {
          c = 0;
          jumps = s.jumps + n;
          saved = saved_at n s.saved e;
          storage = s.storage ++ with_dots ls;
        },
        record b { pos = q },
      ))
    × (n ≡ 0 → q ≡ e)

-- A round whose step is known, if the fuel is enough.
label_loop_step :
    (fuel : ℕ) (s s' : Scan) (b b' : Buffer)
    → s.c ≢ 0
    → s.jumps < 5
    → label_step s b ≡ ok (s', b')
    → label_loop (suc fuel) s b ≡ label_loop fuel s' b'
unfolding label_loop
label_loop_step fuel s s' b b' more j step = ground (arith, step)

label_step-part :
    (s s' : Scan) (b b' : Buffer)
    → take_part s b ≡ ok (s', b')
    → b'.size ≤ b'.cap
    → b'.pos < b'.size
    → label_step s b ≡ ok (record s' { c = b'.mem b'.pos }, record b' { pos = suc b'.pos })
unfolding label_step
label_step-part s s' b b' part cap room =
    ground (arith, part, vread_u8-Holds b' cap (b'.mem b'.pos) (omega arith) (refl, tt))

-- A round, and what the rounds behind it do.
module _ (fuel : ℕ) (s s' : Scan) (b b' : Buffer) (more : s.c ≢ 0) (j : s.jumps < 5)
    (part : take_part s b ≡ ok (s', b')) (cap : b'.size ≤ b'.cap) (room : b'.pos < b'.size) where
  round :
      label_loop (suc fuel) s b
      ≡ label_loop fuel (record s' { c = b'.mem b'.pos }) (record b' { pos = suc b'.pos })
  round = label_loop_step fuel s _ b _ more j (label_step-part s s' b b' part cap room)

pub label_loop-Spells :
    (fuel : ℕ) (s : Scan) (b : Buffer) {p n e : ℕ} {ls : Labels}
    → Spells b.mem b.size p ls n e
    → b.size ≤ b.cap
    → b.pos ≡ suc p
    → s.c ≡ b.mem p
    → s.jumps + n < 5
    → length s.storage + length (with_dots ls) ≤ maxdname
    → label_loop fuel s b ≢ stuck
    → Ends fuel s b ls n e
label_loop-Spells zero s b spells cap ep ec j fits runs = absurd (runs (unfold label_loop in refl))
label_loop-Spells (suc fuel) s b (root z h) cap ep ec j fits runs =
    (b.pos, unfold label_loop in ground (arith, append-nil s.storage), λ n. ep)
label_loop-Spells (suc fuel) s b {n = n} {e = e} (label {ls = ls} l good c holds h rest) cap ep ec j
      fits runs =
    let dots = length-append l (b'.' ∷ with_dots ls) in
    let nonempty = good.not_empty in
    let part =
      take_part-Holds l s b (omega (arith, ec, c)) good.short cap
        (subst (λ q. Holds b.mem q l) (sym ep) holds) (omega arith) (omega arith) in
    let step =
      round fuel s _ b _ (λ z. omega arith) (omega arith) part cap
        (omega (arith, Spells-inside rest)) in
    let joined =
      append_assoc s.storage (l ++ b'.' ∷ []) (with_dots ls)
      ∙ ap (λ t. s.storage ++ t) (append_assoc l (b'.' ∷ []) (with_dots ls)) in
    let longer = length-append s.storage (l ++ b'.' ∷ []) in
    let dot = length-append l (b'.' ∷ []) in
    let (q, loop, same) =
      label_loop-Spells fuel _ _ rest cap (omega arith) (ap b.mem (omega arith)) j (omega arith)
        (λ z. runs (step ∙ z)) in
    (
      q,
      step
          ∙ loop
          ∙ ap
              (λ t. ok (
                record s { c = 0; jumps = s.jumps + n; saved = saved_at n s.saved e; storage = t },
                record b { pos = q },
              ))
              joined,
      same,
    )
label_loop-Spells (suc fuel) s b {ls = ls} (last_pointer hi c small h target rest) cap ep ec j fits
      runs =
    let at = ap (λ i. hi * 256 + b.mem i) ep in
    let part = take_part-pointer s b hi (ec ∙ c) small cap (omega arith) (rw ep target) in
    let step = round fuel s _ b _ (λ z. omega arith) (omega arith) part cap (rw ep target) in
    let (q, loop, same) =
      label_loop-Spells fuel _ _ rest cap (ap suc at) (ap b.mem at) (omega arith) fits
        (λ z. runs (step ∙ z)) in
    let jumps : s.jumps + 1 + 0 ≡ s.jumps + 1 = omega arith in
    let behind = ap suc ep in
    (
      q,
      step ∙ loop ∙ (λ i. ok (
        record s { c = 0; jumps = jumps i; saved = behind i; storage = s.storage ++ with_dots ls },
        record b { pos = q },
      )),
      λ z. absurd (omega (arith, z)),
    )
label_loop-Spells (suc fuel) s b {e = e} {ls = ls} (pointer {n = n} hi c small h target rest) cap ep
      ec j fits runs =
    let at = ap (λ i. hi * 256 + b.mem i) ep in
    let part = take_part-pointer s b hi (ec ∙ c) small cap (omega arith) (rw ep target) in
    let step = round fuel s _ b _ (λ z. omega arith) (omega arith) part cap (rw ep target) in
    let (q, loop, same) =
      label_loop-Spells fuel _ _ rest cap (ap suc at) (ap b.mem at) (omega arith) fits
        (λ z. runs (step ∙ z)) in
    let jumps : s.jumps + 1 + suc n ≡ s.jumps + suc (suc n) = omega arith in
    (
      q,
      step ∙ loop ∙ (λ i. ok (
        record s { c = 0; jumps = jumps i; saved = e; storage = s.storage ++ with_dots ls },
        record b { pos = q },
      )),
      λ z. absurd (omega (arith, z)),
    )
