-- ===== src/Bookkeeping/Peer/Records.antt =====
-- What `GetNewRecord` keeps: the requests that still wait.
use dns_wrapper.Common.{
  ℕ, zero, suc, ◌+◌, ◌*◌, ◌≡◌, ◌⊎◌, refl, sym, ap, ap₂, ◌∙◌, Bool, true, false, not, ◌&&◌, List, [],
  ◌∷◌, some, Bool-cases, inl, inr, arith, if◌then◌else◌, length, length-append, get_elem?,
}
use dns_wrapper.Bookkeeping.Peer.{
  PeerRequestRecord, Sweep, in_use, aged, timeout, freed, given_back, is_older, collect, tally,
  sweep,
}

module _ {E : Type 0} where
  -- A request that was sent upstream less than the timeout ago.
  abbrev pub is_live : ℕ → PeerRequestRecord E → Bool
  is_live now r = in_use r && not (aged timeout now r)

  abbrev pub live : ℕ → List (PeerRequestRecord E) → ℕ
  live now [] = 0
  live now (r ∷ rs) = if is_live now r then suc (live now rs) else live now rs

  -- The sources that a list of records and the free list hold.
  abbrev pub held : List (PeerRequestRecord E) → ℕ
  held [] = 0
  held (r ∷ rs) = length r.more + held rs

  -- What one round makes of the record at index `i`.
  record Collected (now i : ℕ) (r r' : PeerRequestRecord E) (s s' : Sweep E) : Type 0 where
    keeps : is_live now r ≡ true → r' ≡ r
    lives : is_live now r' ≡ is_live now r
    counts : s'.count ≡ s.count
    conserves : length s'.sources + length r'.more ≡ length s.sources + length r.more
    target : (s'.target ≡ s.target) ⊎ ((s'.target ≡ some i) × (in_use r' ≡ false))
    oldest : (s'.oldest ≡ s.oldest) ⊎ ((s'.oldest ≡ some (i, r.time)) × (r' ≡ r))

  collect-Collected :
      (now i : ℕ) (r : PeerRequestRecord E) (s : Sweep E)
      → Collected now i r (collect now i r s).0 s (collect now i r s).1
  unfolding collect freed given_back
  collect-Collected now i r s = elim (Bool-cases (in_use r)) [
    | inr free ↦ rw free (record {
      keeps = λ l. refl;
      lives = refl;
      counts = refl;
      conserves = refl;
      target = inr (refl, free);
      oldest = inl refl;
    })
    | inl used ↦ elim (Bool-cases (aged (4 * timeout) now r)) [
      | inl old ↦
          rw (used, old)
            (record {
              keeps = λ l. ground arith;
              lives = ground arith;
              counts = refl;
              conserves = omega (arith, length-append r.more s.sources);
              target = inr (refl, refl);
              oldest = inl refl;
            })
      | inr young ↦ elim (Bool-cases (is_older r s.oldest)) [
        | inl older ↦
            rw (used, young, older)
              (record {
                keeps = λ l. refl;
                lives = refl;
                counts = refl;
                conserves = refl;
                target = inl refl;
                oldest = inr (refl, refl);
              })
        | inr newer ↦
            rw (used, young, newer)
              (record {
                keeps = λ l. refl;
                lives = refl;
                counts = refl;
                conserves = refl;
                target = inl refl;
                oldest = inl refl;
              })
      ]
    ]
  ]

  module _ (now : ℕ) (r : PeerRequestRecord E) (s : Sweep E) where
    tally_sources : (tally now r s).sources ≡ s.sources
    unfolding tally
    tally_sources = ground arith

    tally_target : (tally now r s).target ≡ s.target
    unfolding tally
    tally_target = ground arith

    tally_oldest : (tally now r s).oldest ≡ s.oldest
    unfolding tally
    tally_oldest = ground arith

  tallied :
      (now : ℕ) (rs : List (PeerRequestRecord E)) (s : Sweep E) (r r' : PeerRequestRecord E)
      (s' : Sweep E)
      → is_live now r' ≡ is_live now r
      → s'.count ≡ s.count
      → (tally now r' s').count + live now rs ≡ s.count + live now (r ∷ rs)
  unfolding tally
  tallied now rs s r r' s' same e = rw same (elim (Bool-cases (is_live now r)) [
    | inl y ↦ rw y (omega arith)
    | inr n ↦ rw n (omega arith)
  ])

  -- What the loop leaves of a list: the same length, the live records as they were, and no new ones.
  pub record Swept (now i : ℕ) (rs rs' : List (PeerRequestRecord E)) (s s' : Sweep E) : Type 0 where
    pub same_length : length rs' ≡ length rs
    pub keeps :
        (j : ℕ) (r : PeerRequestRecord E)
        → get_elem? rs j ≡ some r
        → is_live now r ≡ true
        → get_elem? rs' j ≡ some r
    pub counts : s'.count ≡ s.count + live now rs
    pub conserves : length s'.sources + held rs' ≡ length s.sources + held rs
    pub target :
        (s'.target ≡ s.target)
        ⊎ ((k : ℕ) × (r : PeerRequestRecord E) × (s'.target ≡ some (i + k))
            × (get_elem? rs' k ≡ some r)
            × (in_use r ≡ false))
    pub oldest :
        (s'.oldest ≡ s.oldest)
        ⊎ ((k : ℕ) × (r : PeerRequestRecord E) × (s'.oldest ≡ some (i + k, r.time))
            × (get_elem? rs' k ≡ some r))

  pub sweep-Swept :
      (now i : ℕ) (rs : List (PeerRequestRecord E)) (s : Sweep E)
      → Swept now i rs (sweep now i rs s).0 s (sweep now i rs s).1
  unfolding sweep collect tally freed given_back
  sweep-Swept now i [] s = record {
    same_length = refl;
    keeps = λ j r e live. e;
    counts = omega arith;
    conserves = refl;
    target = inl refl;
    oldest = inl refl;
  }
  sweep-Swept now i (r ∷ rs) s =
      let r' : PeerRequestRecord E = (collect now i r s).0 in
      let s' : Sweep E = (collect now i r s).1 in
      let one = collect-Collected now i r s in
      let rest = sweep-Swept now (suc i) rs (tally now r' s') in
      record {
        same_length = ap suc rest.same_length;
        keeps = kept one.keeps rest.keeps;
        counts = rest.counts ∙ tallied now rs s r r' s' one.lives one.counts;
        conserves =
            omega (arith, rest.conserves, one.conserves, ap length (tally_sources now r' s'));
        target = elim rest.target [
          | inr (k, t, e, at, free) ↦ inr (suc k, t, e ∙ ap some (omega arith), at, free)
          | inl same ↦ elim one.target [
            | inl same' ↦ inl (same ∙ tally_target now r' s' ∙ same')
            | inr (here, free) ↦
                inr
                  (0, r', same ∙ tally_target now r' s' ∙ here ∙ ap some (omega arith), refl, free)
          ]
        ];
        oldest = elim rest.oldest [
          | inr (k, t, e, at) ↦ inr (suc k, t, e ∙ ap (λ n. some (n, t.time)) (omega arith), at)
          | inl same ↦ elim one.oldest [
            | inl same' ↦ inl (same ∙ tally_oldest now r' s' ∙ same')
            | inr (here, unchanged) ↦ inr (
              0,
              r',
              same
                  ∙ tally_oldest now r' s'
                  ∙ here
                  ∙ ap₂ (λ n t. some (n, t)) (omega arith) (ap (λ x. x.time) (sym unchanged)),
              refl,
            )
          ]
        ];
      }
    where
      kept :
          ((is_live now r ≡ true → (collect now i r s).0 ≡ r))
          → ((j : ℕ) (q : PeerRequestRecord E)
              → get_elem? rs j ≡ some q
              → is_live now q ≡ true
              → get_elem?
                  (sweep now (suc i) rs (tally now (collect now i r s).0 (collect now i r s).1)).0
                  j
                ≡ some q)
          → (j : ℕ) (q : PeerRequestRecord E) → get_elem? (r ∷ rs) j ≡ some q
          → is_live now q ≡ true
          → get_elem?
              ((collect now i r s).0
                ∷ (sweep now (suc i) rs (tally now (collect now i r s).0 (collect now i r s).1)).0)
              j
            ≡ some q
      kept here there zero q e l =
          let same : r ≡ q = cc in ap some (here (ap (is_live now) same ∙ l)) ∙ e
      kept here there (suc j) q e l = there j q e l
