-- ===== src/ConnectionPool/Lending.antt =====
-- Which connections are lent, and that the count is right.
use mnser.Common.{
  ℕ, ◌+◌, ◌-◌, ◌%◌, ◌^◌, ◌≤◌, ◌<◌, List, [], ◌∷◌, ◌++◌, Bool, true, false, not, ◌||◌, leb,
  if◌then◌else◌,
}
use mnser.Common.{
  Option, none, some, is_some, length, All, length-append, ◌≡◌, refl, ap, arith, Bool-cases, inl,
  inr,
}
use mnser.ConnectionPool.{
  HttpConnection, HttpConnectionPool, ends_at, is_invalid, scan, lend, get_connection, release_ptr,
}

-- What the loop leaves: those before the connection found are invalid, and it is not.
pub data Scanned (p : HttpConnectionPool) (connected : ℕ → Bool) (now : ℕ) (cs : List ℕ)
    : Option ℕ × List ℕ × List ℕ → Type 0 where
  found :
      (before : List ℕ) (c : ℕ) (after : List ℕ)
      → cs ≡ before ++ c ∷ after
      → All (λ x. is_invalid p connected now x ≡ true) before
      → connected c ≡ true
      → ends_at p c ≤ now
      → Scanned p connected now cs (some c, before, after)
  used_up :
      All (λ x. is_invalid p connected now x ≡ true) cs → Scanned p connected now cs (none, cs, [])

-- `getConnection` deletes the connections at the front of the list that are closed or whose alive
-- time is not over yet, and lends the first one that is connected and whose alive time IS over;
-- the others stay in their order.
pub scan_lem :
    (p : HttpConnectionPool) (connected : ℕ → Bool) (now : ℕ) (cs : List ℕ)
    → Scanned p connected now cs (scan p connected now cs)
unfolding scan
scan_lem p connected now [] = used_up tt
scan_lem p connected now (c ∷ cs) = elim (Bool-cases (is_invalid p connected now c)) [
  | inl bad ↦ rw bad (behind (scan p connected now cs) (scan_lem p connected now cs) bad)
  | inr good ↦ rw good (found [] c cs refl tt (ground arith) (ground arith))
]
  where
    behind :
        (r : Option ℕ × List ℕ × List ℕ)
        → Scanned p connected now cs r
        → is_invalid p connected now c ≡ true
        → Scanned p connected now (c ∷ cs) (r.0, c ∷ r.1, r.2)
    behind r (found before x after e all k l) bad =
        found (c ∷ before) x after (ap (◌∷◌ c) e) (bad, all) k l
    behind r (used_up all) bad = used_up (bad, all)

kept :
    (p : HttpConnectionPool) (connected : ℕ → Bool) (now : ℕ) (cs : List ℕ)
    → let r = scan p connected now cs in
      length r.1 + length r.2 + (if is_some r.0 then 1 else 0) ≡ length cs
unfolding scan
kept p connected now [] = omega arith
kept p connected now (c ∷ cs) = elim (Bool-cases (is_invalid p connected now c)) [
  | inl bad ↦ rw bad (omega (arith, kept p connected now cs))
  | inr good ↦ rw good (omega arith)
]

-- If the count is that of the connections in the pool and of those lent, it still is after a call of
-- `getConnection`, whether that lends one from the pool, makes one or fails.
pub get_connection_lem :
    (p : HttpConnectionPool) (connected : ℕ → Bool) (now : ℕ) (made : Option ℕ) (lent : ℕ)
    → p.total ≡ length p.conns + lent
    → p.total + 1 < 2 ^ 32
    → let r = get_connection p connected now made in
      r.1.total ≡ length r.1.conns + (lent + (if is_some r.0 then 1 else 0))
unfolding get_connection
get_connection_lem p connected now made lent h k =
    go (scan p connected now p.conns) made (kept p connected now p.conns)
  where
    go :
        (r : Option ℕ × List ℕ × List ℕ) (o : Option ℕ)
        → length r.1 + length r.2 + (if is_some r.0 then 1 else 0) ≡ length p.conns
        → let q = lend p r o in
          q.1.total ≡ length q.1.conns + (lent + (if is_some q.0 then 1 else 0))
    go (some c, invalid, rest) o e = omega (arith, h, k)
    go (none, invalid, rest) none e = omega (arith, h, k)
    go (none, invalid, rest) (some a) e = omega (arith, h, k)

-- A connection that is given back is counted out exactly if it does not go back into the pool: the
-- count still is that of the connections in the pool and of those lent.
pub release_ptr_lem :
    (p : HttpConnectionPool) (connected : ℕ → Bool) (now c lent : ℕ)
    → p.total ≡ length p.conns + (lent + 1)
    → p.total < 2 ^ 32
    → (release_ptr p connected now c).total ≡ length (release_ptr p connected now c).conns + lent
unfolding release_ptr
release_ptr_lem p connected now c lent h k =
    go (not (connected c) || leb now (ends_at p c) || leb p.max_request ((p.obj c).request + 1)) _
  where
    go :
        (out : Bool) (obj : ℕ → HttpConnection)
        → let q =
            if out
            then record p { obj = obj; total = (p.total + 2 ^ 32 - 1) % 2 ^ 32 }
            else record p { obj = obj; conns = p.conns ++ c ∷ [] } in
          q.total ≡ length q.conns + lent
    go true obj = omega (arith, h, k)
    go false obj = omega (arith, h, length-append p.conns (c ∷ []))
