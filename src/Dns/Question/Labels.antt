-- ===== src/Dns/Question/Labels.antt =====
-- Names without compression: the labels of a name, its dotted form, and its bytes on the wire.
use dns_wrapper.Common.{
  ℕ, zero, suc, ◌+◌, ◌≤◌, ◌<◌, ◌≡◌, ◌≢◌, refl, sym, ap, subst, List, [], ◌∷◌, ◌++◌, append_assoc,
  append-nil, length, length-append, All, arith, ok,
}
use dns_wrapper.Common.Bits.{and_c0, and_40, and_80}
use dns_wrapper.Common.Memory.{Holds, Holds-append}
use dns_wrapper.Net.Buffer.{Buffer, read_byte, maxdname}
use dns_wrapper.Net.Buffer.Laws.{moved, vread_u8-Holds}
use dns_wrapper.Dns.Question.{
  Scan, push, copy, take_label, take_part, label_step, label_loop, terminate, finish, label_fuel,
  read_label,
}

-- A character that stands in a label as it is.
pub record IsPlain (x : ℕ) : Type 0 where
  pub not_nul : x ≢ 0
  pub not_dot : x ≢ b'.'
  pub is_byte : x < 256

pub record IsLabel (l : List ℕ) : Type 0 where
  pub plain : All IsPlain l
  pub not_empty : 1 ≤ length l
  pub short : length l ≤ 63

abbrev pub Labels : Type 0
Labels = List (List ℕ)

-- The length byte in front of the labels that are left, and what stands behind it.
abbrev pub lead : Labels → ℕ
lead [] = 0
lead (l ∷ ls) = length l

abbrev pub wire : Labels → List ℕ
wire [] = 0 ∷ []
wire (l ∷ ls) = length l ∷ l ++ wire ls

abbrev pub behind : Labels → List ℕ
behind [] = []
behind (l ∷ ls) = l ++ wire ls

-- Every label with a dot behind it, and the same without the last dot.
abbrev pub with_dots : Labels → List ℕ
with_dots [] = []
with_dots (l ∷ ls) = l ++ b'.' ∷ with_dots ls

abbrev pub dotted : Labels → List ℕ
dotted [] = []
dotted (l ∷ []) = l
dotted (l ∷ m ∷ ls) = l ++ b'.' ∷ dotted (m ∷ ls)

pub wire-lead : (ls : Labels) → wire ls ≡ lead ls ∷ behind ls
wire-lead [] = refl
wire-lead (l ∷ ls) = refl

copy-Holds :
    (l storage : List ℕ) (b : Buffer)
    → Holds b.mem b.pos l
    → b.pos + length l ≤ b.cap
    → length storage + length l ≤ maxdname
    → copy (length l) storage b ≡ ok (storage ++ l, moved (length l) b)
unfolding copy read_byte push
copy-Holds [] storage b holds room fits = ground (arith, append-nil storage)
copy-Holds (x ∷ l) storage b (here, holds) room fits = ground (
  arith,
  append_assoc storage (x ∷ []) l,
  length-append storage (x ∷ []),
  copy-Holds l (storage ++ (x ∷ [])) (record b { pos = suc b.pos }) holds,
)

pub take_part-Holds :
    (l : List ℕ) (s : Scan) (b : Buffer)
    → s.c ≡ length l
    → length l ≤ 63
    → b.size ≤ b.cap
    → Holds b.mem b.pos l
    → b.pos + length l < b.size
    → length s.storage + length l < maxdname
    → take_part s b ≡ ok (record s { storage = s.storage ++ (l ++ b'.' ∷ []) }, moved (length l) b)
unfolding take_part take_label push
take_part-Holds l s b e short cap holds room fits = ground (
  arith,
  and_c0 s.c (omega arith),
  and_40 s.c (omega arith),
  and_80 s.c (omega arith),
  ap (λ n. copy n s.storage b) e,
  copy-Holds l s.storage b holds,
  append_assoc s.storage l (b'.' ∷ []),
  length-append s.storage l,
)

label_step-Holds :
    (l : List ℕ) (ls : Labels) (s : Scan) (b : Buffer)
    → s.c ≡ length l
    → length l ≤ 63
    → b.size ≤ b.cap
    → Holds b.mem b.pos (l ++ wire ls)
    → b.pos + length (l ++ wire ls) ≤ b.size
    → length s.storage + length l < maxdname
    → label_step s b
      ≡ ok (
        record s { c = lead ls; storage = s.storage ++ (l ++ b'.' ∷ []) },
        moved (length l + 1) b,
      )
unfolding label_step
label_step-Holds l ls s b e short cap holds room fits =
    let (front, back) = Holds-append b.mem b.pos (b.pos + length l) l (wire ls) refl holds in
    let total = length-append l (wire ls) in
    let whole = ap length (wire-lead ls) in
    let lead_here = (subst (Holds b.mem (b.pos + length l)) (wire-lead ls) back).0 in
    let first = take_part-Holds l s b e short cap front (omega arith) fits in
    let second = vread_u8-Holds (moved (length l) b) cap (lead ls) (omega arith) (lead_here, tt) in
    ground (arith, first, second)

length_lead : (ls : Labels) → length (wire ls) ≡ suc (length (behind ls))
length_lead ls = ap length (wire-lead ls)

-- The loop takes the labels one by one, and stops at the zero byte.
label_loop-Holds :
    (ls : Labels) (fuel : ℕ) (s : Scan) (b : Buffer)
    → All IsLabel ls
    → s.c ≡ lead ls
    → s.jumps < 5
    → b.size ≤ b.cap
    → Holds b.mem b.pos (behind ls)
    → b.pos + length (behind ls) ≤ b.size
    → length s.storage + length (with_dots ls) ≤ maxdname
    → length ls < fuel
    → label_loop fuel s b
      ≡ ok (record s { c = 0; storage = s.storage ++ with_dots ls }, moved (length (behind ls)) b)
unfolding label_loop
label_loop-Holds ls zero s b good e j cap holds room fits enough = absurd (omega arith)
label_loop-Holds [] (suc fuel) s b good e j cap holds room fits enough =
    ground (arith, append-nil s.storage)
label_loop-Holds (l ∷ ls) (suc fuel) s b (good, goods) e j cap holds room fits enough =
    let (front, back) = Holds-append b.mem b.pos (b.pos + length l) l (wire ls) refl holds in
    let total = length-append l (wire ls) in
    let dots = length-append l (b'.' ∷ with_dots ls) in
    let whole = length_lead ls in
    let rest = (subst (Holds b.mem (b.pos + length l)) (wire-lead ls) back).1 in
    let nonzero = good.not_empty in
    let step = label_step-Holds l ls s b e good.short cap holds room (omega arith) in
    let s' : Scan = record s { c = lead ls; storage = s.storage ++ (l ++ b'.' ∷ []) } in
    let b' : Buffer = record b { pos = suc (b.pos + length l) } in
    let loop = label_loop-Holds ls fuel s' b' goods refl j cap rest in
    ground (
      arith,
      step,
      loop,
      length-append s.storage (l ++ b'.' ∷ []),
      length-append l (b'.' ∷ []),
      append_assoc s.storage (l ++ b'.' ∷ []) (with_dots ls),
      append_assoc l (b'.' ∷ []) (with_dots ls),
    )

pub with_dots-dotted :
    (l : List ℕ) (ls : Labels) → with_dots (l ∷ ls) ≡ dotted (l ∷ ls) ++ b'.' ∷ []
with_dots-dotted l [] = refl
with_dots-dotted l (m ∷ ls) =
    rw (with_dots-dotted m ls) (sym (append_assoc l (b'.' ∷ dotted (m ∷ ls)) (b'.' ∷ [])))

pub terminate-append : (xs : List ℕ) (x : ℕ) (b : Buffer) → terminate (xs ++ x ∷ []) b ≡ ok (xs, b)
unfolding terminate
terminate-append [] x b = refl
terminate-append (y ∷ []) x b = refl
terminate-append (y ∷ z ∷ xs) x b = rw (terminate-append (z ∷ xs) x b)

length-wire : (ls : Labels) → All IsLabel ls → length ls < length (wire ls)
length-wire [] good = omega arith
length-wire (l ∷ ls) (good, goods) =
    omega (arith, length-append l (wire ls), length-wire ls goods, good.not_empty)

-- A name that the dotted form with its terminator fits the array of.
pub record IsName (ls : Labels) : Type 0 where
  pub labels : All IsLabel ls
  pub named : ls ≢ []
  pub fits : length (dotted ls) < maxdname

-- An uncompressed name at the position is read in its dotted form, and the position goes behind
-- its zero byte.
pub read_label-Holds :
    (ls : Labels) (b : Buffer)
    → IsName ls
    → b.size ≤ b.cap
    → b.pos + length (wire ls) ≤ b.size
    → Holds b.mem b.pos (wire ls)
    → read_label b ≡ ok ((b.pos, dotted ls), moved (length (wire ls)) b)
unfolding read_label finish label_fuel
read_label-Holds [] b name cap room holds = absurd (name.named refl)
read_label-Holds (l ∷ ls) b name cap room (here, holds) =
    let good = name.labels.0 in
    let nonzero = good.not_empty in
    let short = length-wire (l ∷ ls) name.labels in
    let dots = with_dots-dotted l ls in
    let fits = name.fits in
    let total = length-append (dotted (l ∷ ls)) (b'.' ∷ []) in
    let first = vread_u8-Holds b cap (length l) (omega arith) (here, tt) in
    let start : Scan = record { c = length l; jumps = 0; saved = 0; storage = [] } in
    let loop =
      label_loop-Holds (l ∷ ls) (label_fuel b) start (record b { pos = suc b.pos }) name.labels refl
        (omega arith) cap holds (omega arith) (omega (arith, ap length dots)) (omega arith) in
    let end = terminate-append (dotted (l ∷ ls)) b'.' in
    ground (arith, first, loop, dots, end (record b { pos = suc b.pos + length (l ++ wire ls) }))
