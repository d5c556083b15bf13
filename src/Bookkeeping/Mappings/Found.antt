-- ===== src/Bookkeeping/Mappings/Found.antt =====
-- What a lookup finds after an addition.
use dns_wrapper.Common.{
  ℕ, zero, suc, ◌≤◌, ◌<◌, ◌+◌, ◌≡◌, ◌⊎◌, refl, ap, ◌∙◌, Bool, true, false, List, [], ◌∷◌, ◌++◌,
  Option, none, some, Bool-cases, inl, inr, arith, ltb, length, take, drop,
}
use dns_wrapper.Net.Buffer.{IpAddress, EthAddress}
use dns_wrapper.Bookkeeping.Mappings.{
  Mapping, EthMappings, max_mappings, timeout, Scan, scan, fill, fill_at, choose, settle, add,
  is_at, first_at, look_up,
}
use dns_wrapper.Bookkeeping.Mappings.Table.{
  IsTable, Scanned, scan-Scanned, bytes_equal_refl, take-fill_at,
}

take_front : (n : ℕ) (xs ys : List ℕ) → n ≤ length xs → take n (take n xs ++ ys) ≡ take n xs
take_front zero xs ys le = refl
take_front (suc n) [] ys le = absurd (omega arith)
take_front (suc n) (x ∷ xs) ys le = ap (λ zs. x ∷ zs) (take_front n xs ys (omega arith))

length-take : (n : ℕ) (rs : List Mapping) → n ≤ length rs → length (take n rs) ≡ n
length-take zero rs le = refl
length-take (suc n) [] le = absurd (omega arith)
length-take (suc n) (r ∷ rs) le = ap suc (length-take n rs (omega arith))

module _ (e : EthAddress) (ipv4 : Bool) (ip : IpAddress) (now : ℕ) (long : 4 ≤ length ip) where
  fill-is_at : (r : Mapping) → is_at ip ipv4 (fill r e ipv4 ip now) ≡ true
  unfolding is_at fill
  fill-is_at r = family ipv4
    where
      family : (b : Bool) → is_at ip b (fill r e b ip now) ≡ true
      family true =
          rw (take_front 4 ip (drop 4 r.ipaddress) (omega arith), bytes_equal_refl (take 4 ip)) refl
      family false = rw (bytes_equal_refl ip) refl

  -- The mapping that was added, or one that was found before.
  abbrev pub Found : Option Mapping → Option Mapping → Type 0
  Found old new =
      (r : Mapping) × (new ≡ some r) × (((r.ethaddress ≡ e) × (r.time ≡ now)) ⊎ (old ≡ some r))

  replaced-Found :
      (k : ℕ) (rs : List Mapping)
      → k < length rs
      → Found (first_at ip ipv4 rs) (first_at ip ipv4 (fill_at k e ipv4 ip now rs))
  unfolding first_at fill_at fill
  replaced-Found k [] lt = absurd (omega arith)
  replaced-Found zero (r ∷ rs) lt = (fill r e ipv4 ip now, rw (fill-is_at r) refl, inl (refl, refl))
  replaced-Found (suc k) (r ∷ rs) lt = elim (Bool-cases (is_at ip ipv4 r)) [
    | inl first ↦ rw first (r, refl, inr refl)
    | inr other ↦ rw other (replaced-Found k rs (omega arith))
  ]

  next-Found :
      (n : ℕ) (rs : List Mapping)
      → n < length rs
      → Found
          (first_at ip ipv4 (take n rs))
          (first_at ip ipv4 (take (suc n) (fill_at n e ipv4 ip now rs)))
  unfolding first_at fill_at fill
  next-Found n [] lt = absurd (omega arith)
  next-Found zero (r ∷ rs) lt = (fill r e ipv4 ip now, rw (fill-is_at r) refl, inl (refl, refl))
  next-Found (suc n) (r ∷ rs) lt = elim (Bool-cases (is_at ip ipv4 r)) [
    | inl first ↦ rw first (r, refl, inr refl)
    | inr other ↦ rw other (next-Found n rs (omega arith))
  ]

  inside-Found :
      (m : EthMappings) (k : ℕ)
      → k < length (take m.count m.records)
      → Found (look_up ip ipv4 m) (
          look_up ip ipv4 (record { count = m.count; records = fill_at k e ipv4 ip now m.records }))
  unfolding look_up
  inside-Found m k lt =
      rw (take-fill_at e ipv4 ip now m.count k m.records)
        (replaced-Found k (take m.count m.records) lt)

  -- A choice with a target leaves a table in which a lookup finds a mapping.
  abbrev Finds : EthMappings → Option ℕ × ℕ → Type 0
  Finds m c =
      (settle e ipv4 ip now m c).0 ≡ true
      → Found (look_up ip ipv4 m) (look_up ip ipv4 (settle e ipv4 ip now m c).1)

  inside-Finds :
      (m : EthMappings) (k : ℕ) → k < length (take m.count m.records) → Finds m (some k, m.count)
  unfolding settle
  inside-Finds m k lt done = inside-Found m k lt

  none-Finds : (m : EthMappings) (n : ℕ) → Finds m (none, n)
  unfolding settle
  none-Finds m n done = cc

  next-Finds :
      (m : EthMappings) → IsTable m → m.count < max_mappings → Finds m (some m.count, suc m.count)
  unfolding settle look_up
  next-Finds m table more done = next-Found m.count m.records (omega (arith, table.array, more))

  choose-Finds :
      (m : EthMappings) (s : Scan)
      → IsTable m
      → Scanned e 0 (take m.count m.records) none s
      → Finds m (choose s m.count now)
  unfolding choose
  choose-Finds m s table facts = elim facts.target [
    | inr (k, r, found, lt, at, same) ↦
        let here : s.target ≡ some k = found ∙ ap some (omega arith) in
        rw here (inside-Finds m k lt)
    | inl (missing, absent) ↦ elim (Bool-cases (ltb m.count max_mappings)) [
      | inl more ↦ rw (missing, more) (next-Finds m table (ground arith))
      | inr full ↦ elim facts.oldest [
        | inl nobody ↦ rw (missing, full, nobody) (none-Finds m m.count)
        | inr (k, t, found, lt) ↦ elim (Bool-cases (ltb (t + timeout) now)) [
          | inl old ↦
              let here : s.oldest ≡ some (k, t) = found ∙ ap (λ n. some (n, t)) (omega arith) in
              rw (missing, full, here, old) (inside-Finds m k lt)
          | inr young ↦
              let here : s.oldest ≡ some (k, t) = found ∙ ap (λ n. some (n, t)) (omega arith) in
              rw (missing, full, here, young) (none-Finds m m.count)
        ]
      ]
    ]
  ]

  -- After an addition that succeeds, to a table within its bounds and of an address of
  -- sixteen bytes, a lookup of that address finds a mapping: the added MAC address with its
  -- time, or the mapping that the lookup found before.
  pub look_up-add :
      (m : EthMappings)
      → IsTable m
      → (add e ipv4 ip now m).0 ≡ true
      → (r : Mapping) × (look_up ip ipv4 (add e ipv4 ip now m).1 ≡ some r)
        × (((r.ethaddress ≡ e) × (r.time ≡ now)) ⊎ (look_up ip ipv4 m ≡ some r))
  unfolding add
  look_up-add m table done =
      choose-Finds m (scan e 0 (take m.count m.records) none) table
        (scan-Scanned e 0 (take m.count m.records) none) done

-- A lookup of an IPv4 address reads its four bytes only.
pub look_up-take :
    (a b : IpAddress) (m : EthMappings) → take 4 a ≡ take 4 b → look_up a true m ≡ look_up b true m
unfolding look_up first_at is_at
look_up-take a b m same = by_records (take m.count m.records)
  where
    by_records : (rs : List Mapping) → first_at a true rs ≡ first_at b true rs
    by_records [] = refl
    by_records (r ∷ rs) = rw (same, by_records rs) refl
