-- ===== src/Redis/Memory.antt =====
-- A database in memory that does what the server documents: the laws of `Redis` can hold, and the
-- examples run on it.
use redis_rate_limiter.Prelude.{suc, ◌+◌, ◌*◌, refl, some, ◌∷◌, [], ◌++◌, if◌then◌else◌}
use redis_rate_limiter.Prelude.Text.{Text, same}
use redis_rate_limiter.Prelude.Decimal.{decimal}
use redis_rate_limiter.Redis.{
  Redis, View, absent, count_of, put_field, rest, is_absent, or_set, start_expiry, lapse,
}
use redis_rate_limiter.Redis.SortedSet.{insert, remove, drop_through}

abbrev pub Table : Type 0
Table = Text → View

abbrev write : Text → View → Table → Table
write k v db j = if same k j then v else db j

abbrev pub empty : Table
empty k = absent

abbrev pub memory : Redis
memory = record {
  Db = Table;
  view = λ db k. db k;
  set_px = λ k v ms now db. write k (record absent { str = some v; expires = some (now + ms) }) db;
  set_nx = λ k v s now db. (write k (or_set (db k) v (now + s * 1000)) db, is_absent (db k));
  incr = λ k db. write k (record (db k) { str = some (decimal (suc (count_of (db k).str))) }) db;
  pexpire = λ k ms now db. write k (start_expiry (db k) (now + ms)) db;
  del = λ k db. write k absent db;
  zadd = λ k a m db. write k (record (db k) { zset = insert a m (db k).zset }) db;
  zrem = λ k m db. write k (record (db k) { zset = remove m (db k).zset }) db;
  zremrangebyscore = λ k top db. write k (record (db k) { zset = drop_through top (db k).zset }) db;
  rpush = λ k v db. write k (record (db k) { list = (db k).list ++ v ∷ [] }) db;
  lpop = λ k db. write k (record (db k) { list = rest (db k).list }) db;
  hset = λ k f v db. write k (record (db k) { hash = put_field (db k).hash f v }) db;
  hincrby = λ k f db.
      write k
        (record (db k) {
          hash = put_field (db k).hash f (decimal (suc (count_of ((db k).hash f))));
        })
        db;
  pass = λ now db k. lapse now (db k);
  view-set_px = λ k v ms now db j. refl;
  view-set_nx = λ k v s now db j. refl;
  set_nx_done = λ k v s now db. refl;
  view-incr = λ k db j. refl;
  view-pexpire = λ k ms now db j. refl;
  view-del = λ k db j. refl;
  view-zadd = λ k a m db j. refl;
  view-zrem = λ k m db j. refl;
  view-zremrangebyscore = λ k top db j. refl;
  view-rpush = λ k v db j. refl;
  view-lpop = λ k db j. refl;
  view-hset = λ k f v db j. refl;
  view-hincrby = λ k f db j. refl;
  view-pass = λ now db j. refl;
}
