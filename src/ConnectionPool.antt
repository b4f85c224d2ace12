-- ===== src/ConnectionPool.antt =====
-- `HttpConnectionPool` of inc/http/http_connection.h and src/http/http_connection.cpp: lending a
-- connection and taking it back. A connection is an object of the store `obj`, by address. Whether
-- a socket is connected, the clock, and what comes of the attempt to make a new connection are
-- arguments.
pub mod Lending
mod Tests
use mnser.Common.{
  ℕ, ◌+◌, ◌-◌, ◌%◌, ◌^◌, List, [], ◌∷◌, ◌++◌, Bool, true, false, not, ◌||◌, ltb, leb, ◌==◌,
  if◌then◌else◌,
}
use mnser.Common.{Option, none, some, length}

pub record HttpConnection : Type 0 where
  pub create_time : ℕ
  pub request : ℕ

pub record HttpConnectionPool : Type 0 where
  pub obj : ℕ → HttpConnection
  pub conns : List ℕ
  pub total : ℕ
  pub max_alive_time : ℕ
  pub max_request : ℕ

-- `createTime + maxAliveTime`, of 64 bits.
abbrev pub ends_at : HttpConnectionPool → ℕ → ℕ
ends_at p c = ((p.obj c).create_time + p.max_alive_time) % 2 ^ 64

abbrev pub is_invalid : HttpConnectionPool → (ℕ → Bool) → ℕ → ℕ → Bool
is_invalid p connected now c = if not (connected c) then true else ltb now (ends_at p c)

-- The loop of `getConnection`: the connection found, those to delete, and those that stay.
unfoldable pub scan : HttpConnectionPool → (ℕ → Bool) → ℕ → List ℕ → Option ℕ × List ℕ × List ℕ
scan p connected now [] = (none, [], [])
scan p connected now (c ∷ cs) =
    let rest = scan p connected now cs in
    if is_invalid p connected now c then (rest.0, c ∷ rest.1, rest.2) else (some c, [], cs)

-- A new connection has the creation time 0, which nothing sets. `made` is its address, or none where the lookup, the socket or `connect`
-- fails. The count has 32 bits.
abbrev pub lend :
    HttpConnectionPool → Option ℕ × List ℕ × List ℕ → Option ℕ → Option ℕ × HttpConnectionPool
lend p (found, invalid_conns, rest) made =
    let p' = record p {
      conns = rest;
      total = (p.total + 2 ^ 32 - length invalid_conns) % 2 ^ 32;
    } in
    elim found [
      | some c ↦ (some c, p')
      | none ↦ elim made [
        | none ↦ (none, p')
        | some a ↦ (
          some a,
          record p' {
            obj = λ b. if b == a then record { create_time = 0; request = 0 } else p.obj b;
            total = (p'.total + 1) % 2 ^ 32;
          },
        )
      ]
    ]

unfoldable pub get_connection :
    HttpConnectionPool → (ℕ → Bool) → ℕ → Option ℕ → Option ℕ × HttpConnectionPool
get_connection p connected now made = lend p (scan p connected now p.conns) made

unfoldable pub release_ptr : HttpConnectionPool → (ℕ → Bool) → ℕ → ℕ → HttpConnectionPool
release_ptr p connected now c =
    let request = (p.obj c).request + 1 in
    let p' = record p {
      obj = λ b. if b == c then record (p.obj c) { request = request } else p.obj b;
    } in
    if not (connected c) || leb now (ends_at p c) || leb p.max_request request
    then record p' { total = (p.total + 2 ^ 32 - 1) % 2 ^ 32 }
    else record p' { conns = p.conns ++ c ∷ [] }
