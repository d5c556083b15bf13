-- ===== src/Bookkeeping/Peer/Waiting.antt =====
-- The record that `GetNewRecord` gives, and the requests that wait meanwhile.
use mathlib.Core.Option.{some-injective, some-ne-none}
use dns_wrapper.Common.{
  ℕ, zero, suc, ◌+◌, ◌≤◌, ◌≡◌, ◌≢◌, ◌⊎◌, ◌↔◌, refl, sym, ap, ◌∙◌, subst, Bool, true, false, not,
  ◌&&◌, List, [], ◌∷◌, Option, none, some, Bool-cases, inl, inr, arith, leb, if◌then◌else◌, length,
  length-append, get_elem?,
}
use dns_wrapper.Bookkeeping.Peer.{
  PeerSource, PeerRequestRecord, PeerRequests, Sweep, in_use, aged, timeout, max_fwd_queries, freed,
  given_back, sweep, modify, sources_at, reuse, push_new, take_record, get_new_record,
}
use dns_wrapper.Bookkeeping.Peer.Records.{is_live, live, held, Swept, sweep-Swept}

module _ {E : Type 0} where
  -- A free record at the index, made at this time; every request that waited less than the timeout
  -- stands elsewhere as it was; and no source is lost.
  pub record Got (now : ℕ) (p p' : PeerRequests E) (i : ℕ) : Type 0 where
    pub at :
        (r : PeerRequestRecord E) × (get_elem? p'.records i ≡ some r)
        × (in_use r ≡ false)
        × (r.time ≡ now)
    pub keeps :
        (j : ℕ) (r : PeerRequestRecord E)
        → get_elem? p.records j ≡ some r
        → is_live now r ≡ true
        → (j' : ℕ) × (get_elem? p'.records j' ≡ some r) × (j' ≢ i)
    pub conserves : length p'.sources + held p'.records ≡ length p.sources + held p.records

  module _ (f : PeerRequestRecord E → PeerRequestRecord E) where
    pub modify_here :
        (k : ℕ) (rs : List (PeerRequestRecord E)) (t : PeerRequestRecord E)
        → get_elem? rs k ≡ some t
        → get_elem? (modify f k rs) k ≡ some (f t)
    unfolding modify
    modify_here k [] t e = cc
    modify_here zero (r ∷ rs) t e = let same : r ≡ t = cc in ap (λ x. some (f x)) same
    modify_here (suc k) (r ∷ rs) t e = modify_here k rs t e

    pub modify_other :
        (k j : ℕ) (rs : List (PeerRequestRecord E))
        → j ≢ k
        → get_elem? (modify f k rs) j ≡ get_elem? rs j
    unfolding modify
    modify_other k j [] ne = refl
    modify_other zero zero (r ∷ rs) ne = absurd (ne refl)
    modify_other zero (suc j) (r ∷ rs) ne = refl
    modify_other (suc k) zero (r ∷ rs) ne = refl
    modify_other (suc k) (suc j) (r ∷ rs) ne = modify_other k j rs (λ e. ne (ap suc e))

  elsewhere :
      (now j k : ℕ) (rs : List (PeerRequestRecord E)) (r t : PeerRequestRecord E)
      → get_elem? rs j ≡ some r
      → get_elem? rs k ≡ some t
      → is_live now r ≡ true
      → is_live now t ≡ false
      → j ≢ k
  elsewhere now j k rs r t e e' l l' same =
      let both : get_elem? rs j ≡ get_elem? rs k = ap (get_elem? rs) same in
      let one : r ≡ t = cc in let impossible = sym l ∙ ap (is_live now) one ∙ l' in cc

  held_time :
      (now k : ℕ) (rs : List (PeerRequestRecord E))
      → held (modify (λ r. record r { time = now }) k rs) ≡ held rs
  unfolding modify
  held_time now k [] = refl
  held_time now zero (r ∷ rs) = refl
  held_time now (suc k) (r ∷ rs) = omega (arith, held_time now k rs)

  held_reuse :
      (now k : ℕ) (rs : List (PeerRequestRecord E)) (sources : List (PeerSource E))
      → length (sources_at k rs sources)
          + held (modify (λ r. record (freed r) { from_timed_out = true; time = now }) k rs)
        ≡ length sources + held rs
  unfolding modify sources_at freed given_back
  held_reuse now k [] sources = refl
  held_reuse now zero (r ∷ rs) sources = omega (arith, length-append r.more sources)
  held_reuse now (suc k) (r ∷ rs) sources = omega (arith, held_reuse now k rs sources)

  module _ (blank : PeerRequestRecord E) (now : ℕ) (p : PeerRequests E) where
    pushed-Got : Got now p (push_new blank now p) 0
    unfolding push_new
    pushed-Got = record {
      at = (_, refl, refl, refl);
      keeps = λ j r e l. (suc j, e, λ z. absurd (omega arith));
      conserves = omega arith;
    }

    -- A record that nobody waits for is taken.
    taken-Got :
        (k : ℕ) (t : PeerRequestRecord E)
        → get_elem? p.records k ≡ some t
        → in_use t ≡ false
        → Got now p (record p { records = modify (λ r. record r { time = now }) k p.records }) k
    taken-Got k t e free = record {
      at = (record t { time = now }, modify_here _ k p.records t e, free, refl);
      keeps = λ j r e' l.
          let ne = elsewhere now j k p.records r t e' e l (rw free refl) in
          (j, modify_other _ k j p.records ne ∙ e', ne);
      conserves = omega (arith, held_time now k p.records);
    }

    reused-Got :
        (k : ℕ) (t : PeerRequestRecord E)
        → get_elem? p.records k ≡ some t
        → aged timeout now t ≡ true
        → Got now p (reuse now k p) k
    unfolding reuse freed
    reused-Got k t e old = record {
      at = (
        record (freed t) { from_timed_out = true; time = now },
        modify_here _ k p.records t e,
        refl,
        refl,
      );
      keeps = λ j r e' l.
          let ne = elsewhere now j k p.records r t e' e l (ground (arith, old)) in
          (j, modify_other _ k j p.records ne ∙ e', ne);
      conserves = held_reuse now k p.records p.sources;
    }

    take_record-Got :
        (target : Option ℕ) (oldest : Option (ℕ × ℕ))
        → (target ≡ none)
          ⊎ ((k : ℕ) × (t : PeerRequestRecord E) × (target ≡ some k)
              × (get_elem? p.records k ≡ some t)
              × (in_use t ≡ false))
        → (oldest ≡ none)
          ⊎ ((k : ℕ) × (t : PeerRequestRecord E) × (oldest ≡ some (k, t.time))
              × (get_elem? p.records k ≡ some t))
        → Got now p
            (take_record blank now target oldest p).1
            (take_record blank now target oldest p).0
    unfolding take_record
    take_record-Got target oldest (inr (k, t, e, at, free)) old = rw e (taken-Got k t at free)
    take_record-Got target oldest (inl e) (inl e') = rw (e, e') pushed-Got
    take_record-Got target oldest (inl e) (inr (k, t, e', at)) =
        elim (Bool-cases (leb (t.time + timeout) now)) [
          | inl aged_out ↦ rw (e, e', aged_out) (reused-Got k t at aged_out)
          | inr young ↦ rw (e, e', young) pushed-Got
        ]

  module _ (blank : PeerRequestRecord E) (now : ℕ) (force : Bool) (p : PeerRequests E) where
    abbrev start : Sweep E
    start = record { target = none; oldest = none; count = 0; sources = p.sources }

    abbrev swept : PeerRequests E
    swept = record p {
      records = (sweep now 0 p.records start).0;
      sources = (sweep now 0 p.records start).1.sources;
    }

    facts :
        Swept now 0 p.records (sweep now 0 p.records start).0 start (sweep now 0 p.records start).1
    facts = sweep-Swept now 0 p.records start

    abbrev chosen : ℕ × PeerRequests E
    chosen =
        take_record blank now (sweep now 0 p.records start).1.target
          (sweep now 0 p.records start).1.oldest swept

    chosen-Got : Got now p chosen.1 chosen.0
    chosen-Got =
        let got =
          take_record-Got blank now swept _ _
            (elim facts.target [
              | inl e ↦ inl e
              | inr (k, t, e, at, free) ↦ inr (k, t, e ∙ ap some (omega arith), at, free)
            ])
            (elim facts.oldest [
              | inl e ↦ inl e
              | inr (k, t, e, at) ↦ inr (k, t, e ∙ ap (λ n. some (n, t.time)) (omega arith), at)
            ]) in
        record {
          at = got.at;
          keeps = λ j r e l. got.keeps j r (facts.keeps j r e l) l;
          conserves = got.conserves ∙ facts.conserves;
        }

    outcome : get_new_record blank now force p ≡ (
        if not force && leb max_fwd_queries (live now p.records)
        then (none, swept)
        else (some chosen.0, chosen.1))
    unfolding get_new_record
    outcome =
        ap
          (λ n.
            if not force && leb max_fwd_queries n then (none, swept) else (some chosen.0, chosen.1))
          (facts.counts ∙ omega arith)

    abbrev is_full : Bool
    is_full = not force && leb max_fwd_queries (live now p.records)

    refused : is_full ≡ true → get_new_record blank now force p ≡ (none, swept)
    refused full = outcome ∙ rw full refl

    granted : is_full ≡ false → get_new_record blank now force p ≡ (some chosen.0, chosen.1)
    granted free = outcome ∙ rw free refl

    -- GetNewRecord refuses a record exactly if it is not forced and at least 150 requests
    -- have been in use for less than the timeout.
    pub get_new_record-none :
        ((get_new_record blank now force p).0 ≡ none)
        ↔ ((force ≡ false) × (max_fwd_queries ≤ live now p.records))
    get_new_record-none =
        elim (Bool-cases (not force && leb max_fwd_queries (live now p.records))) [
          | inl full ↦ (λ e. (ground arith, ground arith), λ many. ap (λ x. x.0) (refused full))
          | inr free ↦ (
            λ e. absurd (some-ne-none _ (sym (ap (λ x. x.0) (granted free)) ∙ e)),
            λ (f, many). ground arith,
          )
        ]

    -- The record that GetNewRecord gives is free and carries the time; every request that
    -- has waited less than the timeout stands unchanged in another record; no source is
    -- lost.
    pub get_new_record-Got :
        (i : ℕ)
        → (get_new_record blank now force p).0 ≡ some i
        → Got now p (get_new_record blank now force p).1 i
    get_new_record-Got i e =
        elim (Bool-cases (not force && leb max_fwd_queries (live now p.records))) [
          | inl full ↦ absurd (some-ne-none _ (sym e ∙ ap (λ x. x.0) (refused full)))
          | inr free ↦
              let here : chosen.0 ≡ i =
                some-injective _ _ (sym (ap (λ x. x.0) (granted free)) ∙ e) in
              let there : chosen.1 ≡ (get_new_record blank now force p).1 =
                sym (ap (λ x. x.1) (granted free)) in
              subst (λ q. Got now p q i) there (subst (Got now p chosen.1) here chosen-Got)
        ]
