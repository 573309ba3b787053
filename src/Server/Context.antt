-- ===== src/Server/Context.antt =====
-- conn_ctx.go: the buffer quota and the token bucket of one connection, in int64 arithmetic. Each
-- connection has one goroutine, so the atomic additions are plain ones.
pub mod Bucket
use novagate.Base.{ℕ, ◌*◌, ◌^◌, Bool, true, false, if◌then◌else◌}
use novagate.Base.Int.{ℤ, pos, ◌+ℤ◌, ◌-ℤ◌, ◌*ℤ◌, quot_ℤ, wrap64, ltb_ℤ, leb_ℤ}

pub record ConnContext : Type 0 where
  pub buffer_used : ℤ
  pub max_buffer : ℤ
  pub tokens : ℤ
  pub last_refill : ℤ
  pub rate : ℤ
  pub burst : ℤ

-- time.Second in nanoseconds
abbrev pub second : ℕ
second = 1000000000

unfoldable pub new_conn_context : ℤ → ConnContext
new_conn_context now = record {
  buffer_used = pos 0;
  max_buffer = pos (256 * 1024);
  tokens = pos 100;
  last_refill = now;
  rate = pos 100;
  burst = pos 200;
}

unfoldable pub reserve : ConnContext → ℕ → ConnContext × Bool
reserve c n =
    let used = wrap64 (c.buffer_used +ℤ pos n) in
    (record c { buffer_used = used }, leb_ℤ used c.max_buffer)

unfoldable pub release : ConnContext → ℕ → ConnContext
release c n = record c { buffer_used = wrap64 (c.buffer_used -ℤ pos n) }

-- `now` is the clock's reading in nanoseconds; it may lie before the last refill.
unfoldable pub refill : ConnContext → ℤ → ConnContext
refill c now =
    let elapsed = wrap64 (now -ℤ c.last_refill) in
    let add = quot_ℤ (wrap64 (elapsed *ℤ c.rate)) second in
    if ltb_ℤ (pos 0) add
    then (let new_tokens = wrap64 (c.tokens +ℤ add) in
        record c {
          tokens = if ltb_ℤ c.burst new_tokens then c.burst else new_tokens;
          last_refill = now;
        })
    else c

-- The rest of Allow: a token is taken if there is one.
unfoldable pub spend : ConnContext → ConnContext × Bool
spend c =
    if leb_ℤ c.tokens (pos 0)
    then (c, false)
    else (record c { tokens = wrap64 (c.tokens -ℤ pos 1) }, true)

unfoldable pub allow : ConnContext → ℤ → ConnContext × Bool
unfolding refill spend
allow c now = spend (refill c now)
