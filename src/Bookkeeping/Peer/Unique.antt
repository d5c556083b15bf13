-- ===== src/Bookkeeping/Peer/Unique.antt =====
-- Identifiers: no two requests that wait have the same one.
use mathlib.Core.Option.{some-injective, some-ne-none}
use dns_wrapper.Common.{
  ℕ, zero, suc, ◌*◌, ◌+◌, ◌≡◌, ◌≢◌, refl, sym, ap, ◌∙◌, Bool, true, false, List, [], ◌∷◌, Option,
  none, some, Bool-cases, inl, inr, arith, ◌⊎◌, ◌&&◌, leb, not, get_elem?,
}
use dns_wrapper.Bookkeeping.Peer.{
  PeerRequestRecord, PeerRequests, Sweep, in_use, freed, aged, timeout, max_fwd_queries, is_older,
  collect, sweep, modify, reuse, push_new, take_record, get_new_record,
}

module _ {E : Type 0} where
  -- No two records in use have the same identifier.
  abbrev pub UniqueIds : List (PeerRequestRecord E) → Type 0
  UniqueIds rs =
      (j k : ℕ) (r q : PeerRequestRecord E)
      → get_elem? rs j ≡ some r
      → get_elem? rs k ≡ some q
      → in_use r ≡ true
      → in_use q ≡ true
      → r.new_id ≡ q.new_id
      → j ≡ k

  -- Each record in use was in use with its identifier before, at the same index.
  abbrev pub Fewer : List (PeerRequestRecord E) → List (PeerRequestRecord E) → Type 0
  Fewer rs rs' =
      (j : ℕ) (r' : PeerRequestRecord E)
      → get_elem? rs' j ≡ some r'
      → in_use r' ≡ true
      → (r : PeerRequestRecord E) × (get_elem? rs j ≡ some r)
        × (in_use r ≡ true)
        × (r.new_id ≡ r'.new_id)

  pub Fewer-UniqueIds :
      (rs rs' : List (PeerRequestRecord E)) → Fewer rs rs' → UniqueIds rs → UniqueIds rs'
  Fewer-UniqueIds rs rs' fewer unique j k r q ej ek ur uq same =
      let (r', ej', ur', ir) = fewer j r ej ur in
      let (q', ek', uq', iq) = fewer k q ek uq in
      unique j k r' q' ej' ek' ur' uq' (ir ∙ same ∙ sym iq)

  -- A record in the list behind a change at an index: the changed one, or another as it was.
  pub modify-cases :
      (f : PeerRequestRecord E → PeerRequestRecord E) (i : ℕ) (rs : List (PeerRequestRecord E))
      (j : ℕ) (r : PeerRequestRecord E)
      → get_elem? (modify f i rs) j ≡ some r
      → ((j ≡ i) × (t : PeerRequestRecord E) × (get_elem? rs i ≡ some t) × (f t ≡ r))
        ⊎ ((j ≢ i) × (get_elem? rs j ≡ some r))
  unfolding modify
  modify-cases f i [] j r e = absurd (some-ne-none _ (sym e))
  modify-cases f zero (t ∷ rs) zero r e = inl (refl, t, refl, some-injective _ _ e)
  modify-cases f zero (t ∷ rs) (suc j) r e = inr (λ z. absurd (omega arith), e)
  modify-cases f (suc i) (t ∷ rs) zero r e = inr (λ z. absurd (omega arith), e)
  modify-cases f (suc i) (t ∷ rs) (suc j) r e = elim (modify-cases f i rs j r e) [
    | inl (same, t', at, here) ↦ inl (ap suc same, t', at, here)
    | inr (other, at) ↦ inr (λ z. other (omega arith), at)
  ]

  -- A change of one record that does not put it to use and keeps the identifier of one in use.
  pub modify-Fewer :
      (f : PeerRequestRecord E → PeerRequestRecord E) (i : ℕ) (rs : List (PeerRequestRecord E))
      → ((t : PeerRequestRecord E)
          → get_elem? rs i ≡ some t
          → in_use (f t) ≡ true
          → (in_use t ≡ true) × (t.new_id ≡ (f t).new_id))
      → Fewer rs (modify f i rs)
  modify-Fewer f i rs calm j r e u = elim (modify-cases f i rs j r e) [
    | inr (other, at) ↦ (r, at, u, refl)
    | inl (here, t, at, is) ↦
        let (u', same) = calm t at (ap in_use is ∙ u) in
        (t, ap (get_elem? rs) here ∙ at, u', same ∙ ap (λ x. x.new_id) is)
  ]

  collect-Calm :
      (now i : ℕ) (r : PeerRequestRecord E) (s : Sweep E)
      → in_use (collect now i r s).0 ≡ true
      → (in_use r ≡ true) × (r.new_id ≡ (collect now i r s).0.new_id)
  unfolding collect freed
  collect-Calm now i r s = elim (Bool-cases (in_use r)) [
    | inr free ↦ rw free (λ u. absurd (ground (arith, free)))
    | inl used ↦ elim (Bool-cases (aged (4 * timeout) now r)) [
      | inl old ↦ rw (used, old) (λ u. cc)
      | inr young ↦ elim (Bool-cases (is_older r s.oldest)) [
        | inl older ↦ rw (used, young, older) (λ u. (refl, refl))
        | inr newer ↦ rw (used, young, newer) (λ u. (refl, refl))
      ]
    ]
  ]

  sweep-Fewer :
      (now i : ℕ) (rs : List (PeerRequestRecord E)) (s : Sweep E) → Fewer rs (sweep now i rs s).0
  unfolding sweep
  sweep-Fewer now i [] s j r e u = absurd (some-ne-none _ (sym e))
  sweep-Fewer now i (t ∷ rs) s zero r e u =
      let here : (collect now i t s).0 ≡ r = some-injective _ _ e in
      let (u', same) = collect-Calm now i t s (ap in_use here ∙ u) in
      (t, refl, u', same ∙ ap (λ x. x.new_id) here)
  sweep-Fewer now i (t ∷ rs) s (suc j) r e u = sweep-Fewer now (suc i) rs _ j r e u

  pushed-UniqueIds :
      (r : PeerRequestRecord E) (rs : List (PeerRequestRecord E))
      → in_use r ≡ false
      → UniqueIds rs
      → UniqueIds (r ∷ rs)
  pushed-UniqueIds t rs free unique zero zero r q ej ek ur uq same = refl
  pushed-UniqueIds t rs free unique zero (suc k) r q ej ek ur uq same =
      let impossible : false ≡ true = sym free ∙ ap in_use (some-injective _ _ ej) ∙ ur in cc
  pushed-UniqueIds t rs free unique (suc j) zero r q ej ek ur uq same =
      let impossible : false ≡ true = sym free ∙ ap in_use (some-injective _ _ ek) ∙ uq in cc
  pushed-UniqueIds t rs free unique (suc j) (suc k) r q ej ek ur uq same =
      ap suc (unique j k r q ej ek ur uq same)

  -- `GetNewRecord` keeps what holds of fewer records in use, and with one more that is not.
  module _ (P : List (PeerRequestRecord E) → Type 0)
      (shrinks : (rs rs' : List (PeerRequestRecord E)) → Fewer rs rs' → P rs → P rs')
      (pushes : (r : PeerRequestRecord E) (rs : List (PeerRequestRecord E))
        → in_use r ≡ false
        → P rs
        → P (r ∷ rs))
      (blank : PeerRequestRecord E) (now : ℕ) where
    take_record-keeps :
        (target : Option ℕ) (oldest : Option (ℕ × ℕ)) (p : PeerRequests E)
        → P p.records
        → P (take_record blank now target oldest p).1.records
    unfolding take_record push_new reuse freed
    take_record-keeps (some i) oldest p h =
        shrinks p.records _ (modify-Fewer _ i p.records (λ r e u. (u, refl))) h
    take_record-keeps none none p h = pushes _ p.records refl h
    take_record-keeps none (some (i, t)) p h = elim (Bool-cases (leb (t + timeout) now)) [
      | inl old ↦ rw old (shrinks p.records _ (modify-Fewer _ i p.records (λ r e u. cc)) h)
      | inr young ↦ rw young (pushes _ p.records refl h)
    ]

    pub get_new_record-keeps :
        (force : Bool) (p : PeerRequests E)
        → P p.records
        → P (get_new_record blank now force p).1.records
    unfolding get_new_record
    get_new_record-keeps force p h =
        let start : Sweep E = record {
          target = none;
          oldest = none;
          count = 0;
          sources = p.sources;
        } in
        let s : Sweep E = (sweep now 0 p.records start).1 in
        let rest : P (sweep now 0 p.records start).0 =
          shrinks p.records _ (sweep-Fewer now 0 p.records start) h in
        let taken =
          take_record-keeps s.target s.oldest
            (record p { records = (sweep now 0 p.records start).0; sources = s.sources }) rest in
        elim (Bool-cases (not force && leb max_fwd_queries s.count)) [
          | inl full ↦ rw full rest
          | inr free ↦ rw free taken
        ]

  pub get_new_record-UniqueIds :
      (blank : PeerRequestRecord E) (now : ℕ) (force : Bool) (p : PeerRequests E)
      → UniqueIds p.records
      → UniqueIds (get_new_record blank now force p).1.records
  get_new_record-UniqueIds blank now force p unique =
      get_new_record-keeps UniqueIds Fewer-UniqueIds pushed-UniqueIds blank now force p unique
