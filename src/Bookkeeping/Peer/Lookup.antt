-- ===== src/Bookkeeping/Peer/Lookup.antt =====
-- Which request an answer or a query finds, and new identifiers.
use mathlib.Core.Option.{some-injective}
use dns_wrapper.Common.{
  ℕ, zero, suc, ◌+◌, ◌≤◌, ◌<◌, ◌≡◌, refl, sym, ap, ◌∙◌, subst, Bool, true, false, ◌&&◌, List, [],
  ◌∷◌, Option, none, some, ok, ok-injective, Bool-cases, inl, inr, arith, ◌==◌, get_elem?, All,
}
use dns_wrapper.Bookkeeping.Peer.{
  PeerRequestRecord, PeerRequests, in_use, first_with, is_answered, is_asked, lookup,
  lookup_by_query, has_id, get_new_id,
}

abbrev shift : ℕ → Option ℕ → Option ℕ
shift i none = none
shift i (some k) = some (i + k)

module _ {E : Type 0} where
  -- The record at an index has a property, and none in front of it has.
  pub record FirstAt (test : PeerRequestRecord E → Bool) (rs : List (PeerRequestRecord E)) (k : ℕ)
      : Type 0 where
    pub at : PeerRequestRecord E
    pub here : get_elem? rs k ≡ some at
    pub passes : test at ≡ true
    pub earlier :
        (j : ℕ) (r : PeerRequestRecord E) → j < k → get_elem? rs j ≡ some r → test r ≡ false

  -- What a search finds: the first record, or none, and then no record has the property.
  abbrev pub Finds : (PeerRequestRecord E → Bool) → List (PeerRequestRecord E) → Option ℕ → Type 0
  Finds test rs none = All (λ r. test r ≡ false) rs
  Finds test rs (some k) = FirstAt test rs k

  first_with_lem :
      (test : PeerRequestRecord E → Bool) (i : ℕ) (rs : List (PeerRequestRecord E))
      → (o : Option ℕ) × (first_with test i rs ≡ shift i o) × Finds test rs o
  unfolding first_with
  first_with_lem test i [] = (none, refl, tt)
  first_with_lem test i (r ∷ rs) = elim (Bool-cases (test r)) [
    | inl holds ↦ (
      some 0,
      rw holds (ap some (omega arith)),
      record { at = r; here = refl; passes = holds; earlier = λ j q lt e. absurd (omega arith) },
    )
    | inr fails ↦
        let (o, e, found) = first_with_lem test (suc i) rs in
        elim o
            as (λ o.
              first_with test (suc i) rs ≡ shift (suc i) o
              → Finds test rs o
              → (o' : Option ℕ) × (first_with test i (r ∷ rs) ≡ shift i o')
                × Finds test (r ∷ rs) o') [
                  | none ↦ λ e found. (none, rw fails e, (fails, found))
                  | some k ↦ λ e found. (
                    some (suc k),
                    rw fails (e ∙ ap some (omega arith)),
                    record {
                      at = found.at;
                      here = found.here;
                      passes = found.passes;
                      earlier = before k fails found;
                    },
                  )
                ]
          e found
  ]
    where
      before :
          (k : ℕ)
          → test r ≡ false
          → FirstAt test rs k
          → (j : ℕ) (q : PeerRequestRecord E) → j < suc k
          → get_elem? (r ∷ rs) j ≡ some q
          → test q ≡ false
      before k fails found zero q lt e = ap test (sym (some-injective _ _ e)) ∙ fails
      before k fails found (suc j) q lt e = found.earlier j q (omega arith) e

  search_lem :
      (test : PeerRequestRecord E → Bool) (rs : List (PeerRequestRecord E))
      → Finds test rs (first_with test 0 rs)
  search_lem test rs =
      let (o, e, found) = first_with_lem test 0 rs in
      subst (Finds test rs)
        (sym (e ∙ elim o as (λ o. shift 0 o ≡ o) [ none ↦ refl | some k ↦ ap some (omega arith) ]))
        found

  -- Lookup finds the first request in use that has the identifier and the hash, and none if
  -- there is no such request.
  pub lookup_lem :
      (id : ℕ) (hash : List ℕ) (p : PeerRequests E)
      → Finds (is_answered id hash) p.records (lookup id (some hash) p)
  unfolding lookup
  lookup_lem id hash p = search_lem (is_answered id hash) p.records

  -- LookupByQuery finds the first request in use with the hash and the flags under the mask,
  -- and none if there is no such request.
  pub lookup_by_query_lem :
      (hash : List ℕ) (flags mask : ℕ) (p : PeerRequests E)
      → Finds (is_asked hash flags mask) p.records (lookup_by_query (some hash) flags mask p)
  unfolding lookup_by_query
  lookup_by_query_lem hash flags mask p = search_lem (is_asked hash flags mask) p.records

  -- No request in use has the identifier.
  abbrev pub Unused : ℕ → List (PeerRequestRecord E) → Type 0
  Unused id = All (λ r. (in_use r && r.new_id == id) ≡ false)

  has_id-Unused : (id : ℕ) (rs : List (PeerRequestRecord E)) → has_id id rs ≡ false → Unused id rs
  unfolding has_id
  has_id-Unused id [] e = tt
  has_id-Unused id (r ∷ rs) e = (ground arith, has_id-Unused id rs (ground arith))

  Unused-has_id : (id : ℕ) (rs : List (PeerRequestRecord E)) → Unused id rs → has_id id rs ≡ false
  unfolding has_id
  Unused-has_id id [] h = refl
  Unused-has_id id (r ∷ rs) (h, hs) = rw (h, Unused-has_id id rs hs) refl

  -- If the generator draws an identifier that no request in use has within the next k + 1
  -- draws, GetNewId returns after at most that many rounds, with an identifier that no
  -- request in use has.
  pub get_new_id_lem :
      (k fuel : ℕ) (draw : ℕ → ℕ) (n : ℕ) (p : PeerRequests E)
      → k < fuel
      → Unused (draw (n + k)) p.records
      → (j : ℕ) × (j ≤ k)
        × (get_new_id fuel draw n p ≡ ok (draw (n + j), suc (n + j)))
        × Unused (draw (n + j)) p.records
  unfolding get_new_id
  get_new_id_lem k zero draw n p enough unused = absurd (omega arith)
  get_new_id_lem zero (suc fuel) draw n p enough unused =
      let here : n ≡ n + 0 = omega arith in
      let free = subst (λ i. Unused (draw i) p.records) (sym here) unused in
      (
        0,
        omega arith,
        rw (Unused-has_id (draw n) p.records free) (ap (λ i. ok (draw i, suc i)) here),
        unused,
      )
  get_new_id_lem (suc k) (suc fuel) draw n p enough unused =
      elim (Bool-cases (has_id (draw n) p.records)) [
        | inr free ↦
            let here : n ≡ n + 0 = omega arith in
            (
              0,
              omega arith,
              rw free (ap (λ i. ok (draw i, suc i)) here),
              subst (λ i. Unused (draw i) p.records) here (has_id-Unused (draw n) p.records free),
            )
        | inl taken ↦
            let (j, le, e, u) =
              get_new_id_lem k fuel draw (suc n) p (omega arith)
                (subst (λ i. Unused (draw i) p.records) (omega arith) unused) in
            let next : suc n + j ≡ n + suc j = omega arith in
            (
              suc j,
              omega arith,
              rw taken (e ∙ ap (λ i. ok (draw i, suc i)) next),
              subst (λ i. Unused (draw i) p.records) next u,
            )
      ]

  -- The identifier that the loop returns.
  pub get_new_id-Unused :
      (fuel : ℕ) (draw : ℕ → ℕ) (n : ℕ) (p : PeerRequests E) (id m : ℕ)
      → get_new_id fuel draw n p ≡ ok (id, m)
      → Unused id p.records
  unfolding get_new_id
  get_new_id-Unused zero draw n p id m = λ e. cc
  get_new_id-Unused (suc fuel) draw n p id m = elim (Bool-cases (has_id (draw n) p.records)) [
    | inl taken ↦ rw taken (λ e. get_new_id-Unused fuel draw (suc n) p id m e)
    | inr free ↦ rw free (λ e.
        subst (λ i. Unused i p.records) (ap (λ x. x.0) (ok-injective e))
          (has_id-Unused (draw n) p.records free))
  ]
