-- ===== src/Dns/Question/Pointers.antt =====
-- `ReadLabel` of src/dns/dnsquestion.cpp on names with compression pointers.
use dns_wrapper.Common.{
  ℕ, zero, suc, ◌≤◌, ◌<◌, ◌≡◌, ◌≢◌, refl, ap, List, [], ◌∷◌, ◌++◌, length, length-append, arith, ok,
  fault,
}
use dns_wrapper.Common.Memory.{Memory}
use dns_wrapper.Net.Buffer.{Buffer, maxdname}
use dns_wrapper.Net.Buffer.Laws.{moved, vread_u8-Holds}
use dns_wrapper.Dns.Question.{Scan, terminate, finish, label_fuel, read_label}
use dns_wrapper.Dns.Question.Labels.{Labels, dotted, with_dots-dotted, terminate-append}
use dns_wrapper.Dns.Question.Bounds.{label_loop-ne-stuck}
use dns_wrapper.Dns.Question.Compressed.{
  Spells, root, label, last_pointer, pointer, saved_at, Spells-inside, label_loop-Spells,
}

Spells-behind : {m : Memory} {size p n e : ℕ} {ls : Labels} → Spells m size p ls n e → 0 < e
Spells-behind (root z h) = omega arith
Spells-behind (label l good c holds h rest) = Spells-behind rest
Spells-behind (last_pointer hi c small h target rest) = omega arith
Spells-behind (pointer hi c small h target rest) = Spells-behind rest

Spells-nonzero :
    {m : Memory} {size p n e : ℕ} {l : List ℕ} {ls : Labels}
    → Spells m size p (l ∷ ls) n e
    → m p ≢ 0
Spells-nonzero (label l good c holds h rest) =
    λ z. let nonempty = good.not_empty in absurd (omega arith)
Spells-nonzero (last_pointer hi c small h target rest) = λ z. absurd (omega arith)
Spells-nonzero (pointer hi c small h target rest) = λ z. absurd (omega arith)

pointer-nonzero :
    {m : Memory} {size p n e : ℕ} {ls : Labels} → Spells m size p ls (suc n) e → m p ≢ 0
pointer-nonzero (label l good c holds h rest) =
    λ z. let nonempty = good.not_empty in absurd (omega arith)
pointer-nonzero (last_pointer hi c small h target rest) = λ z. absurd (omega arith)
pointer-nonzero (pointer hi c small h target rest) = λ z. absurd (omega arith)

finish-append :
    (name : List ℕ) (n e q : ℕ) (b : Buffer)
    → n < 5
    → 0 < e
    → (n ≡ 0 → q ≡ e)
    → finish
        (record { c = 0; jumps = n; saved = saved_at n 0 e; storage = name ++ b'.' ∷ [] })
        (record b { pos = q })
      ≡ ok (name, record b { pos = e })
unfolding finish
finish-append name zero e q b few behind same =
    ground (arith, same refl, terminate-append name b'.' (record b { pos = q }))
finish-append name (suc n) e q b few behind same =
    ground (arith, terminate-append name b'.' (record b { pos = e }))

-- A name of one label or more whose dotted form fits its array, with at most four pointers on
-- the way, is read in its dotted form. The position goes behind the last of these pointers, or
-- behind the zero byte if there is none.
pub read_label-Spells :
    (b : Buffer) (l : List ℕ) (ls : Labels) (n e : ℕ)
    → Spells b.mem b.size b.pos (l ∷ ls) n e
    → n < 5
    → length (dotted (l ∷ ls)) < maxdname
    → b.size ≤ b.cap
    → read_label b ≡ ok ((b.pos, dotted (l ∷ ls)), record b { pos = e })
unfolding read_label label_fuel
read_label-Spells b l ls n e spells few fits cap =
    let inside = Spells-inside spells in
    let c = b.mem b.pos in
    let first = vread_u8-Holds b cap c (omega arith) (refl, tt) in
    let start : Scan = record { c = c; jumps = 0; saved = 0; storage = [] } in
    let dots = with_dots-dotted l ls in
    let total = length-append (dotted (l ∷ ls)) (b'.' ∷ []) in
    let (q, loop, same) =
      label_loop-Spells (label_fuel b) start (moved 1 b) spells cap (omega arith) refl (omega arith)
        (omega (arith, ap length dots))
        (label_loop-ne-stuck (label_fuel b) start (moved 1 b) (omega arith) (omega arith)) in
    let end = finish-append (dotted (l ∷ ls)) n e q b few (Spells-behind spells) same in
    ground (arith, first, Spells-nonzero spells, loop, dots, end)

-- A name whose pointers, from one to four, lead to the zero byte with no label on the way makes
-- ReadLabel write in front of its array.
pub read_label-fault :
    (b : Buffer) (n e : ℕ)
    → Spells b.mem b.size b.pos [] (suc n) e
    → suc n < 5
    → b.size ≤ b.cap
    → read_label b ≡ fault
unfolding read_label label_fuel finish terminate
read_label-fault b n e spells few cap =
    let inside = Spells-inside spells in
    let behind = Spells-behind spells in
    let c = b.mem b.pos in
    let first = vread_u8-Holds b cap c (omega arith) (refl, tt) in
    let start : Scan = record { c = c; jumps = 0; saved = 0; storage = [] } in
    let (q, loop, same) =
      label_loop-Spells (label_fuel b) start (moved 1 b) spells cap (omega arith) refl (omega arith)
        (omega arith)
        (label_loop-ne-stuck (label_fuel b) start (moved 1 b) (omega arith) (omega arith)) in
    ground (arith, first, pointer-nonzero spells, loop)
