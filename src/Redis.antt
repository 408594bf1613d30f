-- ===== src/Redis.antt =====
-- The Redis server, a parameter of the development: the commands that the program sends, and what
-- the server documents of each, as what a reader of every key sees after it. Each key is used at one
-- type, as the program does. Times are the server's, in milliseconds; a command that starts an
-- expiry takes the current one, and `pass` lets the time go on to one: the keys whose expiry it has
-- reached are gone.
pub mod SortedSet
pub mod Memory
use redis_rate_limiter.Prelude.{
  ℕ, suc, ◌+◌, ◌*◌, ◌≡◌, Bool, true, false, not, ◌||◌, Option, none, some, List, [], ◌∷◌, ◌++◌, leb,
  if◌then◌else◌,
}
use redis_rate_limiter.Prelude.Int.{ℤ}
use redis_rate_limiter.Prelude.Text.{Text, same}
use redis_rate_limiter.Prelude.Decimal.{decimal, number_from}
use SortedSet.{ZSet, remove, insert, drop_through}

-- What a key holds: GET, ZRANGE 0 -1 WITHSCORES, LRANGE 0 -1, HGET of each field, PEXPIRETIME.
pub record View : Type 0 where
  pub str : Option Text
  pub zset : ZSet
  pub list : List Text
  pub hash : Text → Option Text
  pub expires : Option ℕ

abbrev pub absent : View
absent = record { str = none; zset = []; list = []; hash = λ f. none; expires = none }

-- tonumber(redis.call('GET', key) or 0), of a key that only INCR writes
abbrev pub count_of : Option Text → ℕ
count_of none = 0
count_of (some t) = number_from 0 t

abbrev pub not_empty {ℓ} : {A : Type ℓ} → List A → Bool
not_empty [] = false
not_empty (x ∷ xs) = true

abbrev pub rest {ℓ} : {A : Type ℓ} → List A → List A
rest [] = []
rest (x ∷ xs) = xs

abbrev pub put_field : (Text → Option Text) → Text → Text → Text → Option Text
put_field h f v g = if same f g then some v else h g

abbrev pub is_some_text : Option Text → Bool
is_some_text none = false
is_some_text (some t) = true

-- Whether SET NX finds no value, at a key that only SET writes.
abbrev pub is_absent : View → Bool
is_absent v = not (is_some_text v.str)

abbrev pub or_set : View → Text → ℕ → View
or_set v t at = if is_absent v then record absent { str = some t; expires = some at } else v

-- PEXPIRE does nothing to a key that is not there.
abbrev pub exists : View → Bool
exists v = is_some_text v.str || (not_empty v.zset || not_empty v.list)

abbrev pub start_expiry : View → ℕ → View
start_expiry v at = if exists v then record v { expires = some at } else v

-- A key at this time, with its expiry.
abbrev pub lapse : ℕ → View → View
lapse now v = elim v.expires [ none ↦ v | some at ↦ if leb at now then absent else v ]

pub record Redis : Type 1 where
  pub Db : Type 0
  pub view : Db → Text → View
  -- SET key value PX ms
  pub set_px : Text → Text → ℕ → ℕ → Db → Db
  -- SET key value EX s NX: the database, and whether it was set
  pub set_nx : Text → Text → ℕ → ℕ → Db → Db × Bool
  pub incr : Text → Db → Db
  pub pexpire : Text → ℕ → ℕ → Db → Db
  pub del : Text → Db → Db
  -- ZADD key score member
  pub zadd : Text → ℤ → Text → Db → Db
  pub zrem : Text → Text → Db → Db
  -- ZREMRANGEBYSCORE key -inf max
  pub zremrangebyscore : Text → ℤ → Db → Db
  pub rpush : Text → Text → Db → Db
  -- the pop of BLPOP, when the list has an element
  pub lpop : Text → Db → Db
  pub hset : Text → Text → Text → Db → Db
  pub hincrby : Text → Text → Db → Db
  -- the server's time goes on
  pub pass : ℕ → Db → Db
  pub view-set_px :
      (k v : Text) (ms now : ℕ) (db : Db) (j : Text)
      → view (set_px k v ms now db) j ≡ (
          if same k j then record absent { str = some v; expires = some (now + ms) } else view db j)
  pub view-set_nx :
      (k v : Text) (s now : ℕ) (db : Db) (j : Text)
      → view (set_nx k v s now db).0 j
        ≡ (if same k j then or_set (view db k) v (now + s * 1000) else view db j)
  pub set_nx_done :
      (k v : Text) (s now : ℕ) (db : Db) → (set_nx k v s now db).1 ≡ is_absent (view db k)
  pub view-incr :
      (k : Text) (db : Db) (j : Text)
      → view (incr k db) j ≡ (
          if same k j
          then record (view db k) { str = some (decimal (suc (count_of (view db k).str))) }
          else view db j)
  pub view-pexpire :
      (k : Text) (ms now : ℕ) (db : Db) (j : Text)
      → view (pexpire k ms now db) j
        ≡ (if same k j then start_expiry (view db k) (now + ms) else view db j)
  pub view-del :
      (k : Text) (db : Db) (j : Text) → view (del k db) j ≡ (if same k j then absent else view db j)
  pub view-zadd :
      (k : Text) (score : ℤ) (m : Text) (db : Db) (j : Text)
      → view (zadd k score m db) j ≡ (
          if same k j
          then record (view db k) { zset = insert score m (view db k).zset }
          else view db j)
  pub view-zrem :
      (k m : Text) (db : Db) (j : Text)
      → view (zrem k m db) j
        ≡ (if same k j then record (view db k) { zset = remove m (view db k).zset } else view db j)
  pub view-zremrangebyscore :
      (k : Text) (top : ℤ) (db : Db) (j : Text)
      → view (zremrangebyscore k top db) j ≡ (
          if same k j
          then record (view db k) { zset = drop_through top (view db k).zset }
          else view db j)
  pub view-rpush :
      (k v : Text) (db : Db) (j : Text)
      → view (rpush k v db) j
        ≡ (if same k j then record (view db k) { list = (view db k).list ++ v ∷ [] } else view db j)
  pub view-lpop :
      (k : Text) (db : Db) (j : Text)
      → view (lpop k db) j
        ≡ (if same k j then record (view db k) { list = rest (view db k).list } else view db j)
  pub view-hset :
      (k f v : Text) (db : Db) (j : Text)
      → view (hset k f v db) j ≡ (
          if same k j
          then record (view db k) { hash = put_field (view db k).hash f v }
          else view db j)
  pub view-hincrby :
      (k f : Text) (db : Db) (j : Text)
      → view (hincrby k f db) j ≡ (
          if same k j
          then record (view db k) {
            hash = put_field (view db k).hash f (decimal (suc (count_of ((view db k).hash f))));
          }
          else view db j)
  pub view-pass : (now : ℕ) (db : Db) (j : Text) → view (pass now db) j ≡ lapse now (view db j)
