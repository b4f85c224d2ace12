-- ===== src/ConnectionPool/Tests.antt =====
-- A pool with a closed connection, one that may be lent and another.
use mnser.Common.{
  ℕ, ◌+◌, [], ◌∷◌, Bool, not, if◌then◌else◌, none, some, is_some, length, ◌==◌, ◌≡◌, refl, arith,
}
use mnser.ConnectionPool.{HttpConnectionPool, scan, get_connection, release_ptr}
use mnser.ConnectionPool.Lending.{get_connection_lem, release_ptr_lem}

abbrev pool : HttpConnectionPool
pool = record {
  obj = λ c. record { create_time = 0; request = 3 };
  conns = 1 ∷ 2 ∷ 3 ∷ [];
  total = 4;
  max_alive_time = 100;
  max_request = 10;
}

abbrev connected : ℕ → Bool
connected c = not (c == 1)

lends_second : (get_connection pool connected 500 none).0 ≡ some 2
unfolding get_connection scan
lends_second = refl

-- Before the alive time is over, no connection of the pool is lent.
lends_none : (get_connection pool connected 50 none).0 ≡ none
unfolding get_connection scan
lends_none = refl

get_connection_example :
    let r = get_connection pool connected 500 none in
    r.1.total ≡ length r.1.conns + (1 + (if is_some r.0 then 1 else 0))
get_connection_example = get_connection_lem pool connected 500 none 1 refl (omega arith)

release_ptr_example :
    (release_ptr pool connected 500 9).total ≡ length (release_ptr pool connected 500 9).conns + 0
release_ptr_example = release_ptr_lem pool connected 500 9 0 refl (omega arith)
