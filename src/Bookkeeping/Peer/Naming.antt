-- ===== src/Bookkeeping/Peer/Naming.antt =====
-- The identifiers of records that are put to use, freed, or given by `GetNewRecord`.
use mathlib.Core.Option.{some-injective, some-ne-none}
use dns_wrapper.Common.{
  ℕ, zero, suc, ◌≡◌, ◌≢◌, refl, sym, ap, ◌∙◌, Bool, true, List, [], ◌∷◌, some, Bool-cases, inl, inr,
  arith, ◌==◌, ◌&&◌, get_elem?,
}
use dns_wrapper.Bookkeeping.Peer.{
  PeerRequestRecord, PeerRequests, in_use, freed, modify, get_new_record,
}
use dns_wrapper.Bookkeeping.Peer.Lookup.{Unused}
use dns_wrapper.Bookkeeping.Peer.Unique.{
  UniqueIds, Fewer, Fewer-UniqueIds, modify-Fewer, modify-cases, get_new_record-keeps,
}

module _ {E : Type 0} where
  -- The record at the index has an identifier that no other record in use has.
  abbrev pub Fits : ℕ → List (PeerRequestRecord E) → Type 0
  Fits i rs =
      (t : PeerRequestRecord E) (j : ℕ) (r : PeerRequestRecord E)
      → get_elem? rs i ≡ some t
      → get_elem? rs j ≡ some r
      → in_use r ≡ true
      → r.new_id ≡ t.new_id
      → j ≡ i

  abbrev pub sent : ℕ → PeerRequestRecord E → PeerRequestRecord E
  sent k r = record r { sent_to = some k }

  Unused-at :
      (id : ℕ) (rs : List (PeerRequestRecord E)) (j : ℕ) (r : PeerRequestRecord E)
      → Unused id rs
      → get_elem? rs j ≡ some r
      → in_use r ≡ true
      → r.new_id ≢ id
  Unused-at id [] j r unused e u same = absurd (some-ne-none _ (sym e))
  Unused-at id (t ∷ rs) zero r (here, rest) e u same =
      let is : t ≡ r = some-injective _ _ e in
      let free = ap (λ x. in_use x && x.new_id == id) (sym is) ∙ here in ground (arith, free)
  Unused-at id (t ∷ rs) (suc j) r (here, rest) e u same = Unused-at id rs j r rest e u same

  -- A record that gets an identifier that no record in use has.
  pub named-Fits :
      (f : PeerRequestRecord E → PeerRequestRecord E) (i : ℕ) (rs : List (PeerRequestRecord E))
      (id : ℕ)
      → ((t : PeerRequestRecord E) → (f t).new_id ≡ id)
      → Unused id rs
      → Fits i (modify f i rs)
  named-Fits f i rs id named unused t j r ei ej u same = elim (modify-cases f i rs j r ej) [
    | inl (here, t', at, is) ↦ here
    | inr (other, at) ↦ elim (modify-cases f i rs i t ei) [
      | inr (other', at') ↦ absurd (other' refl)
      | inl (here', t', at', is') ↦
          absurd (Unused-at id rs j r unused at u (same ∙ ap (λ x. x.new_id) (sym is') ∙ named t'))
    ]
  ]

  -- A record in use that is freed.
  pub freed-Fits :
      (i : ℕ) (rs : List (PeerRequestRecord E)) (q : PeerRequestRecord E)
      → UniqueIds rs
      → get_elem? rs i ≡ some q
      → in_use q ≡ true
      → Fits i (modify freed i rs)
  unfolding freed
  freed-Fits i rs q unique eq uq t j r ei ej u same = elim (modify-cases freed i rs j r ej) [
    | inl (here, t', at, is) ↦ here
    | inr (other, at) ↦ elim (modify-cases freed i rs i t ei) [
      | inr (other', at') ↦ absurd (other' refl)
      | inl (here', t', at', is') ↦
          let both : t' ≡ q = some-injective _ _ (sym at' ∙ eq) in
          unique j i r q at eq u uq (same ∙ ap (λ x. x.new_id) (sym is') ∙ ap (λ x. x.new_id) both)
    ]
  ]

  pub freed-UniqueIds :
      (i : ℕ) (rs : List (PeerRequestRecord E)) → UniqueIds rs → UniqueIds (modify freed i rs)
  unfolding freed
  freed-UniqueIds i rs unique = Fewer-UniqueIds rs _ (modify-Fewer freed i rs (λ t e u. cc)) unique

  pub sent-UniqueIds :
      (i k : ℕ) (rs : List (PeerRequestRecord E))
      → UniqueIds rs
      → Fits i rs
      → UniqueIds (modify (sent k) i rs)
  sent-UniqueIds i k rs unique fits j l r q ej el ur uq same =
      elim (modify-cases (sent k) i rs j r ej) [
        | inl (here, t, at, is) ↦ elim (modify-cases (sent k) i rs l q el) [
          | inl (here', t', at', is') ↦ here ∙ sym here'
          | inr (other, at') ↦
              here ∙ sym (fits t l q at at' uq (sym same ∙ ap (λ x. x.new_id) (sym is)))
        ]
        | inr (other, at) ↦ elim (modify-cases (sent k) i rs l q el) [
          | inl (here', t', at', is') ↦
              fits t' j r at' at ur (same ∙ ap (λ x. x.new_id) (sym is')) ∙ sym here'
          | inr (other', at') ↦ unique j l r q at at' ur uq same
        ]
      ]

  pub sent-Fits :
      (i k : ℕ) (rs : List (PeerRequestRecord E)) → Fits i rs → Fits i (modify (sent k) i rs)
  sent-Fits i k rs fits t j r ei ej u same = elim (modify-cases (sent k) i rs j r ej) [
    | inl (here, t', at', is') ↦ here
    | inr (other, at) ↦ elim (modify-cases (sent k) i rs i t ei) [
      | inl (here', t', at', is') ↦ fits t' j r at' at u (same ∙ ap (λ x. x.new_id) (sym is'))
      | inr (other', at') ↦ absurd (other' refl)
    ]
  ]

  -- An identifier that no record in use has.
  Unused-from :
      (id : ℕ) (rs : List (PeerRequestRecord E))
      → ((j : ℕ) (r : PeerRequestRecord E)
          → get_elem? rs j ≡ some r
          → in_use r ≡ true
          → r.new_id ≢ id)
      → Unused id rs
  Unused-from id [] h = tt
  Unused-from id (r ∷ rs) h = (
    elim (Bool-cases (in_use r)) [
      | inl used ↦ let other = h 0 r refl used in ground (arith, used, other)
      | inr free ↦ rw free refl
    ],
    Unused-from id rs (λ j q e u. h (suc j) q e u),
  )

  pub Fewer-Unused :
      (id : ℕ) (rs rs' : List (PeerRequestRecord E)) → Fewer rs rs' → Unused id rs → Unused id rs'
  Fewer-Unused id rs rs' fewer unused = Unused-from id rs' (λ j r e u same.
      let (q, at, used, is) = fewer j r e u in Unused-at id rs j q unused at used (is ∙ same))

  pub get_new_record-Unused :
      (blank : PeerRequestRecord E) (now : ℕ) (force : Bool) (p : PeerRequests E) (id : ℕ)
      → Unused id p.records
      → Unused id (get_new_record blank now force p).1.records
  get_new_record-Unused blank now force p id unused =
      get_new_record-keeps (Unused id) (Fewer-Unused id) (λ r rs free h. (rw free refl, h)) blank
        now force p unused
