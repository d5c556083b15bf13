-- ===== src/Bookkeeping/Mappings/Table.antt =====
-- The table of addresses as a whole: its bounds, and that no MAC address stands in it twice.
use mathlib.Core.Option.{some-injective}
use dns_wrapper.Common.{
  ℕ, zero, suc, ◌+◌, ◌≤◌, ◌<◌, ◌≡◌, ◌⊎◌, refl, sym, ap, ap₂, ◌∙◌, subst, Bool, true, false, List,
  [], ◌∷◌, Option, none, some, Bool-cases, inl, inr, arith, ltb, if◌then◌else◌, length, take,
  get_elem?, All,
}
use dns_wrapper.Net.Buffer.{IpAddress, EthAddress}
use dns_wrapper.Rule.Evaluate.{bytes_equal}
use dns_wrapper.Bookkeeping.Mappings.{
  Mapping, EthMappings, max_mappings, timeout, Scan, replaces, scan, fill, fill_at, choose, settle,
  add,
}

-- No two records of a list have the same MAC address.
abbrev pub Distinct : List Mapping → Type 0
Distinct [] = Unit {0}
Distinct (r ∷ rs) = All (λ q. bytes_equal q.ethaddress r.ethaddress ≡ false) rs × Distinct rs

pub record IsTable (m : EthMappings) : Type 0 where
  pub array : length m.records ≡ max_mappings
  pub bound : m.count ≤ max_mappings
  pub distinct : Distinct (take m.count m.records)

abbrev pub Absent : EthAddress → List Mapping → Type 0
Absent e = All (λ q. bytes_equal q.ethaddress e ≡ false)

-- What the loop finds: the record with the address, which is the first one; or no record has it,
-- and then the other record that it names is within the list.
pub record Scanned (e : EthAddress) (i : ℕ) (rs : List Mapping) (old : Option (ℕ × ℕ)) (s : Scan)
    : Type 0 where
  pub target :
      ((s.target ≡ none) × Absent e rs)
      ⊎ ((k : ℕ) × (r : Mapping) × (s.target ≡ some (i + k))
          × (k < length rs)
          × (get_elem? rs k ≡ some r)
          × (bytes_equal r.ethaddress e ≡ true))
  pub oldest :
      (s.oldest ≡ old) ⊎ ((k : ℕ) × (t : ℕ) × (s.oldest ≡ some (i + k, t)) × (k < length rs))

pub scan-Scanned :
    (e : EthAddress) (i : ℕ) (rs : List Mapping) (old : Option (ℕ × ℕ))
    → Scanned e i rs old (scan e i rs old)
unfolding scan
scan-Scanned e i [] old = record { target = inl (refl, tt); oldest = inl refl }
scan-Scanned e i (r ∷ rs) old = elim (Bool-cases (bytes_equal r.ethaddress e)) [
  | inl same ↦ rw same (record {
    target = inr (0, r, ap some (omega arith), omega arith, refl, same);
    oldest = inl refl;
  })
  | inr other ↦
      let old' : Option (ℕ × ℕ) = if replaces old r then some (i, r.time) else old in
      let rest = scan-Scanned e (suc i) rs old' in
      rw other (record {
        target = elim rest.target [
          | inl (e', absent) ↦ inl (e', (other, absent))
          | inr (k, q, e', lt, at, same) ↦
              inr (suc k, q, e' ∙ ap some (omega arith), omega arith, at, same)
        ];
        oldest = elim rest.oldest [
          | inr (k, t, e', lt) ↦
              inr (suc k, t, e' ∙ ap (λ n. some (n, t)) (omega arith), omega arith)
          | inl same ↦ elim (Bool-cases (replaces old r)) [
            | inl holds ↦
                inr (
                  0,
                  r.time,
                  same ∙ rw holds (ap (λ n. some (n, r.time)) (omega arith)),
                  omega arith,
                )
            | inr fails ↦ inl (same ∙ rw fails refl)
          ]
        ];
      })
]

bytes_equal-≡ : (xs ys : List ℕ) → bytes_equal xs ys ≡ true → xs ≡ ys
unfolding bytes_equal
bytes_equal-≡ [] [] e = refl
bytes_equal-≡ [] (y ∷ ys) e = cc
bytes_equal-≡ (x ∷ xs) [] e = cc
bytes_equal-≡ (x ∷ xs) (y ∷ ys) e =
    let head : x ≡ y = ground arith in
    ap₂ (λ z zs. z ∷ zs) head (bytes_equal-≡ xs ys (ground arith))

pub bytes_equal_refl : (xs : List ℕ) → bytes_equal xs xs ≡ true
unfolding bytes_equal
bytes_equal_refl [] = refl
bytes_equal_refl (x ∷ xs) = ground (arith, bytes_equal_refl xs)

bytes_equal_comm : (xs ys : List ℕ) → bytes_equal xs ys ≡ bytes_equal ys xs
unfolding bytes_equal
bytes_equal_comm [] [] = refl
bytes_equal_comm [] (y ∷ ys) = refl
bytes_equal_comm (x ∷ xs) [] = refl
bytes_equal_comm (x ∷ xs) (y ∷ ys) = ground (arith, bytes_equal_comm xs ys)

module _ (e : EthAddress) (ipv4 : Bool) (ip : IpAddress) (now : ℕ) where
  pub take-fill_at :
      (n i : ℕ) (rs : List Mapping)
      → take n (fill_at i e ipv4 ip now rs) ≡ fill_at i e ipv4 ip now (take n rs)
  unfolding fill_at
  take-fill_at zero i rs = refl
  take-fill_at (suc n) i [] = refl
  take-fill_at (suc n) zero (r ∷ rs) = refl
  take-fill_at (suc n) (suc i) (r ∷ rs) = ap (λ qs. r ∷ qs) (take-fill_at n i rs)

  length-fill_at : (i : ℕ) (rs : List Mapping) → length (fill_at i e ipv4 ip now rs) ≡ length rs
  unfolding fill_at
  length-fill_at i [] = refl
  length-fill_at zero (r ∷ rs) = refl
  length-fill_at (suc i) (r ∷ rs) = ap suc (length-fill_at i rs)

  All-fill_at :
      (P : EthAddress → Type 0) (i : ℕ) (rs : List Mapping)
      → All (λ q. P q.ethaddress) rs
      → P e
      → All (λ q. P q.ethaddress) (fill_at i e ipv4 ip now rs)
  unfolding fill_at fill
  All-fill_at P i [] h p = tt
  All-fill_at P zero (r ∷ rs) (h, hs) p = (p, hs)
  All-fill_at P (suc i) (r ∷ rs) (h, hs) p = (h, All-fill_at P i rs hs p)

  Absent-Distinct :
      (i : ℕ) (rs : List Mapping)
      → Distinct rs
      → Absent e rs
      → Distinct (fill_at i e ipv4 ip now rs)
  unfolding fill_at fill
  Absent-Distinct i [] d a = tt
  Absent-Distinct zero (r ∷ rs) (h, d) (a, as') = (as', d)
  Absent-Distinct (suc i) (r ∷ rs) (h, d) (a, as') = (
    All-fill_at (λ x. bytes_equal x r.ethaddress ≡ false) i rs h
        (bytes_equal_comm e r.ethaddress ∙ a),
    Absent-Distinct i rs d as',
  )

  found_in :
      (P : Mapping → Type 0) (k : ℕ) (rs : List Mapping) (r : Mapping)
      → All P rs
      → get_elem? rs k ≡ some r
      → P r
  found_in P k [] r h e' = cc
  found_in P zero (q ∷ rs) r (h, hs) e' = subst P (some-injective _ _ e') h
  found_in P (suc k) (q ∷ rs) r (h, hs) e' = found_in P k rs r hs e'

  same-Distinct :
      (i : ℕ) (rs : List Mapping) (r : Mapping)
      → Distinct rs
      → get_elem? rs i ≡ some r
      → r.ethaddress ≡ e
      → Distinct (fill_at i e ipv4 ip now rs)
  unfolding fill_at fill
  same-Distinct i [] r d at same = tt
  same-Distinct zero (q ∷ rs) r (h, d) at same =
      (subst (λ x. Absent x rs) (ap (λ y. y.ethaddress) (some-injective _ _ at) ∙ same) h, d)
  same-Distinct (suc i) (q ∷ rs) r (h, d) at same = (
    All-fill_at (λ x. bytes_equal x q.ethaddress ≡ false) i rs h
        (subst (λ x. bytes_equal x q.ethaddress ≡ false) same
          (found_in (λ y. bytes_equal y.ethaddress q.ethaddress ≡ false) i rs r h at)),
    same-Distinct i rs r d at same,
  )

  -- The next record of the array joins those in use.
  next-Distinct :
      (n : ℕ) (rs : List Mapping)
      → Distinct (take n rs)
      → Absent e (take n rs)
      → Distinct (take (suc n) (fill_at n e ipv4 ip now rs))
  unfolding fill_at fill
  next-Distinct n [] d a = tt
  next-Distinct zero (r ∷ rs) d a = (tt, tt)
  next-Distinct (suc n) (r ∷ rs) (h, d) (a, as') =
      (next_absent n rs r h a, next-Distinct n rs d as')
    where
      next_absent :
          (n : ℕ) (rs : List Mapping) (r : Mapping)
          → All (λ q. bytes_equal q.ethaddress r.ethaddress ≡ false) (take n rs)
          → bytes_equal r.ethaddress e ≡ false
          → All
              (λ q. bytes_equal q.ethaddress r.ethaddress ≡ false)
              (take (suc n) (fill_at n e ipv4 ip now rs))
      next_absent n [] r h a = tt
      next_absent zero (q ∷ qs) r h a = (bytes_equal_comm e r.ethaddress ∙ a, tt)
      next_absent (suc n) (q ∷ qs) r (h, hs) a = (h, next_absent n qs r hs a)

  -- What `Add` leaves, by what it chose.
  abbrev left : EthMappings → Option ℕ × ℕ → EthMappings
  left m c = (settle e ipv4 ip now m c).1

  replaced-IsTable :
      (m : EthMappings) (k t : ℕ)
      → IsTable m
      → Absent e (take m.count m.records)
      → IsTable (left m (if ltb (t + timeout) now then (some k, m.count) else (none, m.count)))
  unfolding settle
  replaced-IsTable m k t table absent = elim (Bool-cases (ltb (t + timeout) now)) [
    | inr young ↦ rw young table
    | inl old ↦ rw old (record {
      array = length-fill_at k m.records ∙ table.array;
      bound = table.bound;
      distinct =
          subst Distinct (sym (take-fill_at m.count k m.records))
            (Absent-Distinct k (take m.count m.records) table.distinct absent);
    })
  ]

  new-IsTable :
      (m : EthMappings) (old : Option (ℕ × ℕ))
      → IsTable m
      → Absent e (take m.count m.records)
      → IsTable (left m (choose (record { target = none; oldest = old }) m.count now))
  unfolding choose settle
  new-IsTable m old table absent = elim (Bool-cases (ltb m.count max_mappings)) [
    | inl more ↦ rw more (record {
      array = length-fill_at m.count m.records ∙ table.array;
      bound = ground arith;
      distinct = next-Distinct m.count m.records table.distinct absent;
    })
    | inr full ↦ rw full (by_oldest old)
  ]
    where
      by_oldest :
          (old : Option (ℕ × ℕ))
          → IsTable (
              left m (elim old [
                | none ↦ (none, m.count)
                | some (i, t) ↦ if ltb (t + timeout) now then (some i, m.count) else (none, m.count)
              ]))
      by_oldest none = table
      by_oldest (some (k, t)) = replaced-IsTable m k t table absent

  found-IsTable :
      (m : EthMappings) (k : ℕ) (r : Mapping)
      → IsTable m
      → get_elem? (take m.count m.records) k ≡ some r
      → bytes_equal r.ethaddress e ≡ true
      → IsTable (record { count = m.count; records = fill_at k e ipv4 ip now m.records })
  found-IsTable m k r table at same = record {
    array = length-fill_at k m.records ∙ table.array;
    bound = table.bound;
    distinct = subst Distinct (sym (take-fill_at m.count k m.records)) (
        same-Distinct k (take m.count m.records) r table.distinct at
          (bytes_equal-≡ r.ethaddress e same));
  }

  chosen-IsTable :
      (m : EthMappings) (s : Scan)
      → IsTable m
      → Scanned e 0 (take m.count m.records) none s
      → IsTable (left m (choose s m.count now))
  unfolding choose settle
  chosen-IsTable m s table facts = elim facts.target [
    | inl (missing, absent) ↦ rw missing (new-IsTable m s.oldest table absent)
    | inr (k, r, found, lt, at, same) ↦
        let here : s.target ≡ some k = found ∙ ap some (omega arith) in
        rw here (found-IsTable m k r table at same)
  ]

  -- Add keeps the number of mappings within the array, and no MAC address comes to stand in
  -- the table twice.
  pub add-IsTable : (m : EthMappings) → IsTable m → IsTable (add e ipv4 ip now m).1
  unfolding add
  add-IsTable m table = (chosen-IsTable m _ table (scan-Scanned e 0 (take m.count m.records) none))
