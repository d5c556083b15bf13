-- ===== src/Bookkeeping/Peer.antt =====
-- src/bookkeeping/peer.cpp: the requests that wait for an answer from upstream, and who asked.
pub mod Records
pub mod Waiting
pub mod Lookup
pub mod Unique
pub mod Naming
use dns_wrapper.Common.{
  ℕ, zero, suc, ◌+◌, ◌*◌, Bool, true, false, not, ◌&&◌, ◌||◌, ltb, leb, ◌==◌, if◌then◌else◌, List,
  [], ◌∷◌, ◌++◌, Option, none, some, Result, ok, fault, stuck, bit_and, length,
}
use dns_wrapper.Rule.Evaluate.{bytes_equal}

-- `MAX_FWD_QUERIES` and `TIMEOUT`.
abbrev pub max_fwd_queries : ℕ
max_fwd_queries = 150

abbrev pub timeout : ℕ
timeout = 10

-- `PeerSource` without its link; endpoints are the network library's.
pub record PeerSource (E : Type 0) : Type 0 where
  pub endpoint : E
  pub ipv4 : Bool
  pub original_id : ℕ

-- `PeerRequestRecord` without its link: `source` is the record's own source, `more` what hangs on
-- its `next`, `sent_to` the index of the upstream server, `none` for a free record.
pub record PeerRequestRecord (E : Type 0) : Type 0 where
  pub source : PeerSource E
  pub more : List (PeerSource E)
  pub sent_to : Option ℕ
  pub new_id : ℕ
  pub flags : ℕ
  pub time : ℕ
  pub forward_timestamp : ℕ
  pub hash : List ℕ
  pub from_timed_out : Bool

pub record PeerRequests (E : Type 0) : Type 0 where
  pub records : List (PeerRequestRecord E)
  pub sources : List (PeerSource E)
  pub source_count : ℕ

-- `if (r->sentTo)`
abbrev pub in_use : {E : Type 0} → PeerRequestRecord E → Bool
in_use r = elim r.sent_to [ none ↦ false | some i ↦ true ]

-- What the loop of `GetNewRecord` carries: indices of records, a time with `oldest`.
pub record Sweep (E : Type 0) : Type 0 where
  pub target : Option ℕ
  pub oldest : Option (ℕ × ℕ)
  pub count : ℕ
  pub sources : List (PeerSource E)

module _ {E : Type 0} where
  -- `HasTimedOut`
  unfoldable pub has_timed_out : PeerRequestRecord E → Bool
  has_timed_out r = ltb timeout r.time

  -- `FreePeerRequestRecord` on the record, and on the free sources.
  unfoldable pub freed : PeerRequestRecord E → PeerRequestRecord E
  freed r = record r { more = []; sent_to = none; flags = 0 }

  unfoldable pub given_back : PeerRequestRecord E → List (PeerSource E) → List (PeerSource E)
  given_back r sources = r.more ++ sources

  -- `difftime(now, r->time) >= seconds`
  abbrev pub aged : ℕ → ℕ → PeerRequestRecord E → Bool
  aged seconds now r = leb (r.time + seconds) now

  -- `!oldest || difftime(r->time, oldest->time) <= 0`
  unfoldable pub is_older : PeerRequestRecord E → Option (ℕ × ℕ) → Bool
  is_older r none = true
  is_older r (some (j, t)) = leb r.time t

  -- The first test of the loop's body, on the record at index `i`.
  unfoldable pub collect : ℕ → ℕ → PeerRequestRecord E → Sweep E → PeerRequestRecord E × Sweep E
  unfolding freed given_back is_older
  collect now i r s =
      if not (in_use r)
      then (r, record s { target = some i })
      else if aged (4 * timeout) now r
      then (
        record (freed r) { from_timed_out = true },
        record s { target = some i; sources = given_back r s.sources },
      )
      else if is_older r s.oldest
      then (r, record s { oldest = some (i, r.time) })
      else (r, s)

  -- The second: the records that have been in use for less than the timeout.
  unfoldable pub tally : ℕ → PeerRequestRecord E → Sweep E → Sweep E
  tally now r s =
      if in_use r && not (aged timeout now r) then record s { count = suc s.count } else s

  unfoldable pub sweep :
      ℕ → ℕ → List (PeerRequestRecord E) → Sweep E → List (PeerRequestRecord E) × Sweep E
  unfolding collect tally
  sweep now i [] s = ([], s)
  sweep now i (r ∷ rs) s =
      let (r', s') = collect now i r s in
      let (rs', s'') = sweep now (suc i) rs (tally now r' s') in (r' ∷ rs', s'')

  -- A change of the record at an index.
  unfoldable pub modify :
      (PeerRequestRecord E → PeerRequestRecord E)
      → ℕ
      → List (PeerRequestRecord E)
      → List (PeerRequestRecord E)
  modify f i [] = []
  modify f zero (r ∷ rs) = f r ∷ rs
  modify f (suc i) (r ∷ rs) = r ∷ modify f i rs

  unfoldable pub sources_at :
      ℕ → List (PeerRequestRecord E) → List (PeerSource E) → List (PeerSource E)
  unfolding given_back
  sources_at i [] sources = sources
  sources_at zero (r ∷ rs) sources = given_back r sources
  sources_at (suc i) (r ∷ rs) sources = sources_at i rs sources

  -- `GetNewRecord`: the index of the record, and the state.
  unfoldable pub reuse : ℕ → ℕ → PeerRequests E → PeerRequests E
  unfolding modify sources_at freed
  reuse now i p = record p {
    records = modify (λ r. record (freed r) { from_timed_out = true; time = now }) i p.records;
    sources = sources_at i p.records p.sources;
  }

  -- A new record: the fields that are not set are what `new` leaves, here `blank`'s.
  unfoldable pub push_new : PeerRequestRecord E → ℕ → PeerRequests E → PeerRequests E
  push_new blank now p = record p {
    records =
        record blank { more = []; sent_to = none; from_timed_out = false; time = now } ∷ p.records;
  }

  unfoldable pub take_record :
      PeerRequestRecord E → ℕ → Option ℕ → Option (ℕ × ℕ) → PeerRequests E → ℕ × PeerRequests E
  unfolding modify reuse push_new
  take_record blank now (some i) oldest p =
      (i, record p { records = modify (λ r. record r { time = now }) i p.records })
  take_record blank now none none p = (0, push_new blank now p)
  take_record blank now none (some (i, t)) p =
      if leb (t + timeout) now then (i, reuse now i p) else (0, push_new blank now p)

  unfoldable pub get_new_record :
      PeerRequestRecord E → ℕ → Bool → PeerRequests E → Option ℕ × PeerRequests E
  unfolding sweep take_record
  get_new_record blank now force p =
      let start : Sweep E = record {
        target = none;
        oldest = none;
        count = 0;
        sources = p.sources;
      } in
      let (records, s) = sweep now 0 p.records start in
      let swept : PeerRequests E = record p { records = records; sources = s.sources } in
      if not force && leb max_fwd_queries s.count
      then (none, swept)
      else let (i, p') = take_record blank now s.target s.oldest swept in (some i, p')

  -- The first record with a property, by its index.
  unfoldable pub first_with :
      (PeerRequestRecord E → Bool) → ℕ → List (PeerRequestRecord E) → Option ℕ
  first_with test i [] = none
  first_with test i (r ∷ rs) = if test r then some i else first_with test (suc i) rs

  abbrev pub is_answered : ℕ → List ℕ → PeerRequestRecord E → Bool
  is_answered id hash r = in_use r && (r.new_id == id && bytes_equal hash r.hash)

  abbrev pub is_asked : List ℕ → ℕ → ℕ → PeerRequestRecord E → Bool
  is_asked hash flags mask r =
      in_use r && (bit_and r.flags mask == flags && bytes_equal hash r.hash)

  -- `Lookup` and `LookupByQuery`; no hash is the null pointer.
  unfoldable pub lookup : ℕ → Option (List ℕ) → PeerRequests E → Option ℕ
  unfolding first_with bytes_equal
  lookup id none p = none
  lookup id (some hash) p = first_with (is_answered id hash) 0 p.records

  unfoldable pub lookup_by_query : Option (List ℕ) → ℕ → ℕ → PeerRequests E → Option ℕ
  unfolding first_with bytes_equal
  lookup_by_query none flags mask p = none
  lookup_by_query (some hash) flags mask p = first_with (is_asked hash flags mask) 0 p.records

  -- `GetNewPeerSource`: `sources = std::move(sources->next)` deletes the source that `s` names, and
  -- the assignment to `s->next` behind it is `fault`.
  unfoldable pub get_new_peer_source :
      PeerRequests E → Result (Option (PeerSource E) × PeerRequests E)
  get_new_peer_source p = elim p.sources [
    | [] ↦ if ltb p.source_count max_fwd_queries then fault else ok (none, p)
    | ◌∷◌ s rest ↦ fault
  ]

  -- The inner loop of `GetNewId`.
  unfoldable pub has_id : ℕ → List (PeerRequestRecord E) → Bool
  has_id id [] = false
  has_id id (r ∷ rs) = if in_use r && r.new_id == id then true else has_id id rs

  -- `GetNewId` on the draws of the generator from the `n`-th on: the identifier, and the next draw.
  unfoldable pub get_new_id : ℕ → (ℕ → ℕ) → ℕ → PeerRequests E → Result (ℕ × ℕ)
  unfolding has_id
  get_new_id zero draw n p = stuck
  get_new_id (suc fuel) draw n p =
      let rest = get_new_id fuel draw (suc n) p in
      if has_id (draw n) p.records then rest else ok (draw n, suc n)
