-- ===== src/Dns/Question/Bounds.antt =====
-- `ReadLabel` ends: every round takes a byte of the packet or one of five jumps.
use dns_wrapper.Common.{
  ℕ, zero, suc, ◌+◌, ◌-◌, ◌*◌, ◌≤◌, ◌<◌, ◌≡◌, ◌≢◌, refl, List, [], ◌∷◌, ◌++◌, length, length-append,
  arith, ok, err, fault, stuck, Result, bind, ◌!=◌, ◌==◌, ltb, ◌&&◌, ◌⊎◌, Bool-cases, inl, inr,
}
use dns_wrapper.Net.Buffer.{Buffer, Action, ◌>>=◌, vread_u8, read_byte, maxdname}
use dns_wrapper.Net.Buffer.Laws.{>>=-eq-ok}
use dns_wrapper.Dns.Question.{
  Scan, push, copy, jump, follow, take_label, take_part, label_step, label_loop, terminate, finish,
  label_fuel, read_label,
}

-- A reader leaves all but the position.
pub record SameBytes (b b' : Buffer) : Type 0 where
  pub mem : b'.mem ≡ b.mem
  pub cap : b'.cap ≡ b.cap
  pub size : b'.size ≡ b.size

vread_u8_takes :
    (b b' : Buffer) (x : ℕ)
    → vread_u8 b ≡ ok (x, b')
    → SameBytes b b' × (b'.pos ≡ b.pos + 1) × (b'.pos ≤ b.size)
unfolding vread_u8
vread_u8_takes b b' x e = ground arith

-- What a run of the loop has done to the scan: either the position grew, or a jump was made.
pub record Moved (s s' : Scan) (b b' : Buffer) : Type 0 where
  pub same : SameBytes b b'
  pub inside : b'.pos ≤ b.size
  pub progress : ((s'.jumps ≡ s.jumps) × (b.pos < b'.pos)) ⊎ (s'.jumps ≡ s.jumps + 1)
  pub back : s.saved ≤ b.size → s'.saved ≤ b.size
  pub fits : length s.storage ≤ maxdname → length s'.storage ≤ maxdname

copy_takes :
    (n : ℕ) (storage storage' : List ℕ) (b b' : Buffer)
    → copy n storage b ≡ ok (storage', b')
    → SameBytes b b'
      × (b'.pos ≡ b.pos + n)
      × (length storage ≤ maxdname → length storage' ≤ maxdname)
unfolding copy read_byte push
copy_takes zero storage storage' b b' e = ground arith
copy_takes (suc n) storage storage' b b' e = ground (
  arith,
  copy_takes n (storage ++ (b.mem b.pos ∷ [])) storage' (record b { pos = b.pos + 1 }) b',
  length-append storage (b.mem b.pos ∷ []),
)

take_label_takes :
    (s s' : Scan) (b b' : Buffer)
    → take_label s b ≡ ok (s', b')
    → SameBytes b b'
      × (b'.pos ≡ b.pos + s.c)
      × (s'.jumps ≡ s.jumps)
      × (s'.saved ≡ s.saved)
      × (length s.storage ≤ maxdname → length s'.storage ≤ maxdname)
unfolding take_label push
take_label_takes s s' b b' e = grind (arith, copy_takes, length-append)

follow_takes :
    (s s' : Scan) (b b' : Buffer)
    → follow s b ≡ ok (s', b')
    → SameBytes b b'
      × (b'.pos < b.size)
      × (s'.jumps ≡ s.jumps + 1)
      × (s'.saved ≤ b.size)
      × (s'.storage ≡ s.storage)
unfolding follow
follow_takes s s' b b' e =
    let (d, mid, first, rest) = >>=-eq-ok vread_u8 _ b e in
    ground (arith, vread_u8_takes b mid d first, rest)

take_part_takes :
    (s s' : Scan) (b b' : Buffer)
    → take_part s b ≡ ok (s', b')
    → SameBytes b b'
      × (((s'.jumps ≡ s.jumps) × (b'.pos ≡ b.pos + s.c))
          ⊎ ((s'.jumps ≡ s.jumps + 1) × (b'.pos < b.size)))
      × (s.saved ≤ b.size → s'.saved ≤ b.size)
      × (length s.storage ≤ maxdname → length s'.storage ≤ maxdname)
unfolding take_part
take_part_takes s s' b b' e = ground (arith, take_label_takes s s' b b', follow_takes s s' b b')

label_step_takes : (s s' : Scan) (b b' : Buffer) → label_step s b ≡ ok (s', b') → Moved s s' b b'
unfolding label_step
label_step_takes s s' b b' e =
    let (part, mid, first, rest) = >>=-eq-ok (take_part s) _ b e in
    let (next, end, second, last) = >>=-eq-ok vread_u8 _ mid rest in
    ground (arith, take_part_takes s part b mid first, vread_u8_takes mid end next second, last)

vread_u8-ne-stuck : (b : Buffer) → vread_u8 b ≢ stuck
unfolding vread_u8
vread_u8-ne-stuck b e = ground arith

copy-ne-stuck : (n : ℕ) (storage : List ℕ) (b : Buffer) → copy n storage b ≢ stuck
unfolding copy read_byte push
copy-ne-stuck zero storage b e = cc
copy-ne-stuck (suc n) storage b e =
    ground (arith, copy-ne-stuck n (storage ++ (b.mem b.pos ∷ [])) (record b { pos = b.pos + 1 }))

-- A sequence of steps none of which is stuck.
>>=-ne-stuck :
    {A B : Type 0} (m : Action A) (f : A → Action B) (b : Buffer)
    → m b ≢ stuck
    → ((a : A) (b' : Buffer) → m b ≡ ok (a, b') → f a b' ≢ stuck)
    → (m >>= f) b ≢ stuck
>>=-ne-stuck m f b first rest = by_result (m b) refl
  where
    by_result : (r : Result _) → m b ≡ r → bind r (λ (a, b'). f a b') ≢ stuck
    by_result (ok (a, b')) e = rest a b' e
    by_result (err x) e = λ p. cc
    by_result fault e = λ p. cc
    by_result stuck e = λ p. first e

part-ne-stuck : (s : Scan) (b : Buffer) → take_part s b ≢ stuck
unfolding take_part follow jump take_label push
part-ne-stuck s b e = ground (arith, copy-ne-stuck s.c s.storage b, vread_u8-ne-stuck b)

label_step-ne-stuck : (s : Scan) (b : Buffer) → label_step s b ≢ stuck
unfolding label_step
label_step-ne-stuck s b =
    >>=-ne-stuck (take_part s) _ b (part-ne-stuck s b)
      (λ part mid e. >>=-ne-stuck vread_u8 _ mid (vread_u8-ne-stuck mid) λ next end e' p. cc)

-- The rounds that may be left: five jumps, each over at most the whole packet.
abbrev pub rounds : Scan → Buffer → ℕ
rounds s b = (5 - s.jumps) * (b.size + 1) + (b.size - b.pos)

lap_lt : (k n r q : ℕ) → r ≤ n → k * (n + 1) + r < suc k * (n + 1) + q
lap_lt k n r q h = omega arith

rounds_fall :
    (s s' : Scan) (b b' : Buffer)
    → s.jumps < 5
    → b.pos ≤ b.size
    → Moved s s' b b'
    → rounds s' b' < rounds s b
rounds_fall s s' b b' lt inside m =
    let sizes = m.same.size in
    let landed = m.inside in
    elim m.progress [
      | inl (jumps, forth) ↦ rw (jumps, sizes) (omega arith)
      | inr jumps ↦
          let before : 5 - s.jumps ≡ suc (5 - s'.jumps) = omega arith in
          rw (before, sizes) (lap_lt (5 - s'.jumps) b.size (b.size - b'.pos) _ (omega arith))
    ]

pub label_loop-ne-stuck :
    (fuel : ℕ) (s : Scan) (b : Buffer)
    → b.pos ≤ b.size
    → rounds s b < fuel
    → label_loop fuel s b ≢ stuck
unfolding label_loop
label_loop-ne-stuck zero s b inside enough = absurd (omega arith)
label_loop-ne-stuck (suc fuel) s b inside enough = elim (Bool-cases (s.c != 0 && ltb s.jumps 5)) [
  | inr done ↦ rw done λ e. cc
  | inl more ↦ rw more (
      >>=-ne-stuck (label_step s) (label_loop fuel) b (label_step-ne-stuck s b) λ s' b' e.
        let m = label_step_takes s s' b b' e in
        let less = rounds_fall s s' b b' (ground arith) inside m in
        label_loop-ne-stuck fuel s' b' (omega (arith, m.inside, m.same.size)) (omega arith))
]

terminate-ne-stuck : (storage : List ℕ) (b : Buffer) → terminate storage b ≢ stuck
unfolding terminate
terminate-ne-stuck [] b e = cc
terminate-ne-stuck (x ∷ []) b e = cc
terminate-ne-stuck (x ∷ y ∷ rest) b e = ground (arith, terminate-ne-stuck (y ∷ rest) b)

finish-ne-stuck : (s : Scan) (b : Buffer) → finish s b ≢ stuck
unfolding finish
finish-ne-stuck s b e = ground (
  arith,
  terminate-ne-stuck s.storage b,
  terminate-ne-stuck s.storage (record b { pos = s.saved }),
)

-- The loop of ReadLabel ends on every buffer, whatever its bytes.
pub read_label-ne-stuck : (b : Buffer) → read_label b ≢ stuck
unfolding read_label label_fuel
read_label-ne-stuck b = >>=-ne-stuck vread_u8 _ b (vread_u8-ne-stuck b) λ c b1 e.
    let head = vread_u8_takes b b1 c e in
    elim (Bool-cases (c == 0)) [
      | inl root ↦ rw root λ p. cc
      | inr more ↦ rw more (
          >>=-ne-stuck (label_loop _ _) _ b1
            (label_loop-ne-stuck _ _ b1 (omega (arith, head)) (omega (arith, head)))
            λ s b2 e2. >>=-ne-stuck (finish s) _ b2 (finish-ne-stuck s b2) λ n b3 e3 p. cc)
    ]
