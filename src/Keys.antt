-- ===== src/Keys.antt =====
-- The Redis keys of one limiter: `__init__`, `get_inflight_key` and `acquire` of
-- src/redis_rate_limiter/core/limiters.py, and the subkeys of src/redis_rate_limiter/lua/consume.lua.
use redis_rate_limiter.Prelude.{ℕ, ◌≡◌, refl, sym, ◌∙◌, Bool, true, false, ◌++◌, arith, ◌==◌}
use redis_rate_limiter.Prelude.Text.{Text, codes, same, same_iff, same-append}
use redis_rate_limiter.Prelude.Decimal.{decimal, same-decimal, decimal_head}

-- Each kind of key, and its argument.
pub data Role : Type 0 where
  buffer concurrency dlq drain_signal last_consumer last_caller : Role
  inflight acquire : Text → Role
  window : ℕ → Role

-- f"{self.id}:inflight:{task_id}"
unfoldable pub get_inflight_key : Text → Text → Text
get_inflight_key limiter_id task_id = limiter_id ++ (codes ":inflight:" ++ task_id)

-- f"{self.id}:acquire:{task_id}", and base_key .. ':acquire:' .. task_id
unfoldable pub signal_key : Text → Text → Text
signal_key limiter_id task_id = limiter_id ++ (codes ":acquire:" ++ task_id)

-- base_key .. ':' .. current_window_start
unfoldable pub window_key : Text → ℕ → Text
window_key base_key start = base_key ++ (codes ":" ++ decimal start)

abbrev suffix : Role → Text
suffix buffer = codes ":buffer"
suffix concurrency = codes ":concurrency"
suffix dlq = codes ":dlq"
suffix drain_signal = codes ":drain_signal"
suffix last_consumer = codes ":last_consumer"
suffix last_caller = codes ":last_caller"
suffix (inflight task_id) = codes ":inflight:" ++ task_id
suffix (acquire task_id) = codes ":acquire:" ++ task_id
suffix (window start) = codes ":" ++ decimal start

-- self.buffer_key, self.concurrency_key, self.dlq_key, self._drain_signal_channel and the above
unfoldable pub key_of : Text → Role → Text
unfolding get_inflight_key signal_key window_key
key_of limiter_id role = limiter_id ++ suffix role

pub window_key-eq :
    (base_key : Text) (start : ℕ) → window_key base_key start ≡ key_of base_key (window start)
unfolding key_of
window_key-eq base_key start = refl

pub signal_key-eq : (id task_id : Text) → signal_key id task_id ≡ key_of id (acquire task_id)
unfolding key_of
signal_key-eq id task_id = refl

pub get_inflight_key-eq :
    (id task_id : Text) → get_inflight_key id task_id ≡ key_of id (inflight task_id)
unfolding key_of
get_inflight_key-eq id task_id = refl

abbrev pub same_role : Role → Role → Bool
same_role buffer buffer = true
same_role concurrency concurrency = true
same_role dlq dlq = true
same_role drain_signal drain_signal = true
same_role last_consumer last_consumer = true
same_role last_caller last_caller = true
same_role (inflight a) (inflight b) = same a b
same_role (acquire a) (acquire b) = same a b
same_role (window m) (window n) = m == n
same_role _ _ = false

same_role_eq : (r s : Role) → same_role r s ≡ true → r ≡ s
same_role_eq (inflight a) (inflight b) h = ground (arith, same_iff a b)
same_role_eq (acquire a) (acquire b) h = ground (arith, same_iff a b)
same_role_eq (window m) (window n) h = ground arith
same_role_eq r s h = ground arith

same-suffix : (r s : Role) → same (suffix r) (suffix s) ≡ same_role r s
same-suffix (window m) (window n) = same-decimal m n
same-suffix (window m) s = let (c, rest, e, h) = decimal_head m in rw e (ground arith)
same-suffix r (window n) = let (c, rest, e, h) = decimal_head n in rw e (ground arith)
same-suffix buffer s = refl
same-suffix r s = refl

-- Two keys of one limiter are the same text exactly when they are of one kind, at one argument.
pub same-key_of :
    (limiter_id : Text) (r s : Role)
    → same (key_of limiter_id r) (key_of limiter_id s) ≡ same_role r s
unfolding key_of
same-key_of l r s = rw (same-append l (suffix r) (suffix s)) (same-suffix r s)

-- Two keys of one limiter that are equal are of one kind, at one argument.
key_of-injective :
    (limiter_id : Text) (r s : Role) → key_of limiter_id r ≡ key_of limiter_id s → r ≡ s
key_of-injective l r s e =
    same_role_eq r s (sym (same-key_of l r s) ∙ (same_iff (key_of l r) (key_of l s)).1 e)
