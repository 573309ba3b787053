-- ===== src/Server/Context/Bucket.antt =====
-- conn_ctx.go against a token bucket on natural numbers, and the rate that it lets through.
use native.Mathlib.Nat.{add-zero}
use novagate.Base.{
  ap, ◌∙◌, ℕ, suc, ◌+◌, ◌-◌, ◌*◌, ◌/◌, ◌^◌, ◌≤◌, ◌<◌, ◌≡◌, Bool, true, false, List, [], ◌∷◌, arith,
  ltb, leb, if◌then◌else◌,
}
use novagate.Base.Int.{pos, quot_ℤ, wrap64-pos, pos-+ℤ, pos--ℤ, pos-*ℤ}
use novagate.Server.Context.{ConnContext, reserve, release, refill, spend, allow, second}

-- A context as NewConnContext makes it, with `used` bytes, `k` tokens and the last refill at `l`.
abbrev pub conn_at : ℕ → ℕ → ℕ → ConnContext
conn_at used k l = record {
  buffer_used = pos used;
  max_buffer = pos (256 * 1024);
  tokens = pos k;
  last_refill = pos l;
  rate = pos 100;
  burst = pos 200;
}

abbrev earned : ℕ → ℕ → ℕ
earned l t = (t - l) * 100 / second

-- The bucket: it refills by what was earned since the last refill, up to 200, and a token pays.
abbrev pub bucket_tokens : ℕ → ℕ → ℕ → ℕ
bucket_tokens k l t = if ltb 200 (k + earned l t) then 200 else k + earned l t

abbrev pub bucket_refill : ℕ → ℕ → ℕ
bucket_refill l t = if ltb 0 (earned l t) then t else l

refill-bucket :
    (used k l t : ℕ)
    → k ≤ 200
    → l ≤ t
    → (t - l) * 100 < 2 ^ 63
    → refill (conn_at used k l) (pos t) ≡ conn_at used (bucket_tokens k l t) (bucket_refill l t)
unfolding refill quot_ℤ
refill-bucket used k l t hk hl h =
    rw
      (
        pos--ℤ t l hl,
        wrap64-pos (t - l) (omega arith),
        pos-*ℤ (t - l) 100,
        wrap64-pos ((t - l) * 100) h,
        pos-+ℤ k (earned l t),
        wrap64-pos (k + earned l t) (omega arith),
      )
      (ground arith)

spend-bucket :
    (used k l : ℕ) → k < 2 ^ 63 → spend (conn_at used k l) ≡ (conn_at used (k - 1) l, ltb 0 k)
unfolding spend
spend-bucket used k l h = ground (arith, pos--ℤ k 1, wrap64-pos (k - 1))

-- On a clock that does not go back, and within some 2.9 years of the last refill, Allow is a step of
-- the bucket: it answers true exactly if a token is left, and takes that token.
allow-bucket :
    (used k l t : ℕ)
    → k ≤ 200
    → l ≤ t
    → (t - l) * 100 < 2 ^ 63
    → allow (conn_at used k l) (pos t)
      ≡ (conn_at used (bucket_tokens k l t - 1) (bucket_refill l t), ltb 0 (bucket_tokens k l t))
allow-bucket used k l t hk hl h =
    unfold allow in
    ap spend (refill-bucket used k l t hk hl h)
    ∙ spend-bucket used (bucket_tokens k l t) (bucket_refill l t) (ground arith)

-- Reserve and Release keep count, and Reserve refuses exactly above 256 KiB.
pub reserve_lem :
    (used k l n : ℕ)
    → used + n < 2 ^ 63
    → reserve (conn_at used k l) n ≡ (conn_at (used + n) k l, leb (used + n) (256 * 1024))
unfolding reserve
reserve_lem used k l n h = rw (pos-+ℤ used n, wrap64-pos (used + n) h, add-zero)

pub release_lem :
    (used k l n : ℕ)
    → n ≤ used
    → used < 2 ^ 63
    → release (conn_at used k l) n ≡ conn_at (used - n) k l
unfolding release
release_lem used k l n h b = rw (pos--ℤ used n h, wrap64-pos (used - n) (omega arith))

-- Allow at each of the clock's readings in turn: the context left, and how often it answered true.
count_allowed : Bool → ℕ → ℕ
count_allowed true n = suc n
count_allowed false n = n

unfoldable pub allow_all : ConnContext → List ℕ → ConnContext × ℕ
unfolding count_allowed
allow_all c [] = (c, 0)
allow_all c (t ∷ times) =
    let (c', granted) = allow c (pos t) in
    let (c'', n) = allow_all c' times in (c'', count_allowed granted n)

-- The readings do not go back, and all lie in the window from `l` to `last`.
abbrev pub IsClock : ℕ → List ℕ → ℕ → Type 0
IsClock l [] last = l ≤ last
IsClock l (t ∷ times) last = (l ≤ t) × IsClock t times last

clock_le : (l : ℕ) (times : List ℕ) (last : ℕ) → IsClock l times last → l ≤ last
clock_le l [] last h = h
clock_le l (t ∷ times) last h = omega (arith, clock_le t times last h.1)

IsClock-weaken :
    (l l' : ℕ) (times : List ℕ) (last : ℕ) → l' ≤ l → IsClock l times last → IsClock l' times last
IsClock-weaken l l' [] last p h = omega arith
IsClock-weaken l l' (t ∷ times) last p h = (omega arith, h.1)

-- One step pays for its token out of the tokens and the time since the refill.
bucket_pays :
    (k l t : ℕ)
    → k ≤ 200
    → l ≤ t
    → (bucket_tokens k l t * second + 100 * (t - bucket_refill l t) ≤ k * second + 100 * (t - l))
      × (bucket_tokens k l t ≤ 200)
      × (l ≤ bucket_refill l t)
      × (bucket_refill l t ≤ t)
bucket_pays k l t hk hl = (ground arith, ground arith, ground arith, ground arith)

count_pays :
    (b n rest : ℕ)
    → n * second ≤ (b - 1) * second + rest
    → count_allowed (ltb 0 b) n * second ≤ b * second + rest
unfolding count_allowed
count_pays b n rest h = ground arith

-- On a clock that does not go back, over at most some 2.9 years and from at most 200 tokens, Allow
-- answers true no more often than there were tokens at the start and 100 for each second that passed.
pub allow_all_bound :
    (used k l : ℕ) (times : List ℕ) (last : ℕ)
    → k ≤ 200
    → IsClock l times last
    → (last - l) * 100 < 2 ^ 63
    → (allow_all (conn_at used k l) times).1 * second ≤ k * second + 100 * (last - l)
unfolding allow_all
allow_all_bound used k l [] last hk h w = omega arith
allow_all_bound used k l (t ∷ times) last hk h w =
    let (pays, small, lo, hi) = bucket_pays k l t hk h.0 in
    let end : t ≤ last = clock_le t times last h.1 in
    let b = bucket_tokens k l t in
    let l' = bucket_refill l t in
    let rest =
      allow_all_bound used (b - 1) l' times last (omega arith)
        (IsClock-weaken t l' times last hi h.1) (omega arith) in
    let spent =
      count_pays b (allow_all (conn_at used (b - 1) l') times).1 (100 * (last - l')) rest in
    rw (allow-bucket used k l t hk h.0 (omega arith)) (omega arith)
