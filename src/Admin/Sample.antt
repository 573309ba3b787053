-- ===== src/Admin/Sample.antt =====
-- A small Redis server that runs: it meets what is assumed of Redis, and serves the examples.
use novagate.Base.{
  ℕ, suc, ◌≡◌, refl, sym, ap, ◌∙◌, Bool, true, false, not, ◌&&◌, ◌||◌, Option, none, some, List, [],
  ◌∷◌, ◌++◌, Result, ok, err, inl, if◌then◌else◌, arith, length, take, ok-injective,
}
use novagate.Base.Int.{ℤ, pos, negsuc}
use novagate.Base.Key.{GoMap, ◌==◌, bytes_key, nat_key, get, put, delete, get-put, get-delete}
use novagate.Protocol.Bytes.{Bytes}
use novagate.Acl.RedisServer.{RedisError}
use novagate.Admin.Redis.{
  Redis, Command, del, set, sadd, srem, lpush, Keyspace, effect, IsRedis, IsUp, IsWriting, contains,
}
use novagate.Admin.Glob.{glob, glob-prefix, glob-end, glob-inside, glob_two_stars}

pub record Held : Type 0 where
  pub texts : GoMap Bytes Bytes
  pub pairs : List (Bytes × Bytes)
  pub lists : GoMap Bytes (List Bytes)

unfoldable pub in_pairs : List (Bytes × Bytes) → Bytes → Bytes → Bool
in_pairs [] k u = false
in_pairs ((j, v) ∷ ps) k u = (j == k && v == u) || in_pairs ps k u

keep : {A : Type 0} → (A → Bool) → List A → List A
keep p [] = []
keep p (x ∷ xs) = let rest = keep p xs in if p x then x ∷ rest else rest

firsts : {V : Type 0} → List (Bytes × V) → List Bytes
firsts [] = []
firsts ((k, v) ∷ m) = k ∷ firsts m

seconds_at : Bytes → List (Bytes × Bytes) → List Bytes
seconds_at k [] = []
seconds_at k ((j, v) ∷ ps) = let rest = seconds_at k ps in if j == k then v ∷ rest else rest

abbrev pub or_nil : Option (List Bytes) → List Bytes
or_nil none = []
or_nil (some xs) = xs

unfoldable pub run : Command → Held → Held
unfolding keep
run (del key) h = record {
  texts = delete h.texts key;
  pairs = keep (λ p. not (p.0 == key)) h.pairs;
  lists = delete h.lists key;
}
run (set key v) h = record {
  texts = put h.texts key v;
  pairs = keep (λ p. not (p.0 == key)) h.pairs;
  lists = delete h.lists key;
}
run (sadd key member) h = record h { pairs = (key, member) ∷ h.pairs }
run (srem key member) h = record h { pairs = keep (λ p. not (p.0 == key && p.1 == member)) h.pairs }
run (lpush key v) h = record h { lists = put h.lists key (v ∷ or_nil (get h.lists key)) }

abbrev pub held : Held → Keyspace
held h = record {
  text = λ k. get h.texts k;
  has = λ k u. in_pairs h.pairs k u;
  entries = λ k. or_nil (get h.lists k);
}

in_pairs-keep_key :
    (ps : List (Bytes × Bytes)) (key k u : Bytes)
    → in_pairs (keep (λ p. not (p.0 == key)) ps) k u ≡ (not (key == k) && in_pairs ps k u)
unfolding in_pairs keep
in_pairs-keep_key [] key k u = ground arith
in_pairs-keep_key ((j, v) ∷ ps) key k u = ground (
  arith,
  in_pairs-keep_key ps key k u,
  bytes_key.beq_iff j key,
  bytes_key.beq_iff j k,
  bytes_key.beq_iff key k,
)

in_pairs-keep_pair :
    (ps : List (Bytes × Bytes)) (key m k u : Bytes)
    → in_pairs (keep (λ p. not (p.0 == key && p.1 == m)) ps) k u
      ≡ (not (key == k && m == u) && in_pairs ps k u)
unfolding in_pairs keep
in_pairs-keep_pair [] key m k u = ground arith
in_pairs-keep_pair ((j, v) ∷ ps) key m k u = ground (
  arith,
  in_pairs-keep_pair ps key m k u,
  bytes_key.beq_iff j key,
  bytes_key.beq_iff j k,
  bytes_key.beq_iff key k,
  bytes_key.beq_iff v m,
  bytes_key.beq_iff v u,
  bytes_key.beq_iff m u,
)

keyspace_eq :
    (a b : Keyspace)
    → ((k : Bytes) → a.text k ≡ b.text k)
    → ((k u : Bytes) → a.has k u ≡ b.has k u)
    → ((k : Bytes) → a.entries k ≡ b.entries k)
    → a ≡ b
keyspace_eq a b t h e =
    λ i. record { text = λ k. t k i; has = λ k u. h k u i; entries = λ k. e k i }

pub held-run : (c : Command) (h : Held) → held (run c h) ≡ effect c (held h)
unfolding run effect in_pairs
held-run (del key) h =
    keyspace_eq (held (run (del key) h)) (effect (del key) (held h)) (λ k. get-delete h.texts key k)
      (λ k u. in_pairs-keep_key h.pairs key k u) (λ k. ground (arith, get-delete h.lists key k))
held-run (set key v) h =
    keyspace_eq (held (run (set key v) h)) (effect (set key v) (held h))
      (λ k. get-put h.texts key k v) (λ k u. in_pairs-keep_key h.pairs key k u)
      (λ k. ground (arith, get-delete h.lists key k))
held-run (sadd key m) h = refl
held-run (srem key m) h =
    keyspace_eq (held (run (srem key m) h)) (effect (srem key m) (held h)) (λ k. refl)
      (λ k u. in_pairs-keep_pair h.pairs key m k u) (λ k. refl)
held-run (lpush key v) h =
    keyspace_eq (held (run (lpush key v) h)) (effect (lpush key v) (held h)) (λ k. refl)
      (λ k u. refl)
      (λ k.
        ground
          (arith, get-put h.lists key k (v ∷ or_nil (get h.lists key)), bytes_key.beq_iff key k))

contains-keep :
    (p : Bytes → Bool) (ks : List Bytes) (k : Bytes)
    → contains (keep p ks) k ≡ (contains ks k && p k)
unfolding keep
contains-keep p [] k = refl
contains-keep p (x ∷ ks) k = ground (arith, contains-keep p ks k, bytes_key.beq_iff x k)

contains-append :
    (xs ys : List Bytes) (k : Bytes) → contains (xs ++ ys) k ≡ (contains xs k || contains ys k)
contains-append [] ys k = refl
contains-append (x ∷ xs) ys k = ground (arith, contains-append xs ys k)

contains-firsts :
    (m : GoMap Bytes Bytes) (k v : Bytes) → get m k ≡ some v → contains (firsts m) k ≡ true
unfolding get firsts
contains-firsts [] k v h = cc
contains-firsts ((j, w) ∷ m) k v h = ground (arith, contains-firsts m k v)

contains-pairs :
    (ps : List (Bytes × Bytes)) (k u : Bytes)
    → in_pairs ps k u ≡ true
    → contains (firsts ps) k ≡ true
unfolding in_pairs firsts
contains-pairs [] k u h = cc
contains-pairs ((j, v) ∷ ps) k u h = ground (arith, contains-pairs ps k u)

contains-seconds_at :
    (ps : List (Bytes × Bytes)) (k u : Bytes) → contains (seconds_at k ps) u ≡ in_pairs ps k u
unfolding in_pairs seconds_at
contains-seconds_at [] k u = refl
contains-seconds_at ((j, v) ∷ ps) k u = ground (arith, contains-seconds_at ps k u)

abbrev pub or_missing : Option Bytes → Result RedisError Bytes
or_missing none = err "redis: nil"
or_missing (some v) = ok v

abbrev pub one_if : Option Bytes → ℕ
one_if none = 0
one_if (some v) = 1

abbrev pub up_to : ℤ → List Bytes → List Bytes
up_to (pos n) xs = take (suc n) xs
up_to (negsuc n) xs = xs

unfoldable pub keys_of : Held → Bytes → List Bytes
unfolding keep firsts glob
keys_of h p = keep (glob p) (firsts h.texts ++ firsts h.pairs)

unfoldable pub members_of : Held → Bytes → List Bytes
unfolding seconds_at
members_of h k = seconds_at k h.pairs

abbrev pub sample_redis : Redis
sample_redis = record {
  Server = Held;
  get = λ h k. or_missing (get h.texts k);
  exists = λ h k. ok (one_if (get h.texts k));
  keys = λ h p. ok (keys_of h p);
  members = λ h k. ok (members_of h k);
  list_length = λ h k. ok (length (or_nil (get h.lists k)));
  range = λ h k a b. ok (up_to b (or_nil (get h.lists k)));
  exec = λ h c. (run c h, none);
}

pub sample_exists :
    (o : Option Bytes) → ◌≡◌ {A = Result RedisError ℕ} (ok (one_if o)) (ok 0) → o ≡ none
sample_exists none h = refl
sample_exists (some v) h = absurd (omega (arith, ok-injective h))

pub sample_never : {A : Type 0} {e : A} → ◌≡◌ {A = Option A} none (some e) → ⊥
sample_never h = cc

sample_keys :
    (s : Held) (p k : Bytes) (ks : List Bytes)
    → ◌≡◌ {A = Result RedisError (List Bytes)} (ok (keys_of s p)) (ok ks)
    → contains ks k ≡ (contains (firsts s.texts ++ firsts s.pairs) k && glob p k)
unfolding keys_of
sample_keys s p k ks e =
    rw (sym (ok-injective e)) (contains-keep (glob p) (firsts s.texts ++ firsts s.pairs) k)

abbrev pub sample_law : IsRedis sample_redis
sample_law = record {
  holds = held;
  exec_ok = λ s s' c e. ap held (sym (ap (λ p. p.0) e)) ∙ held-run c s;
  exec_failed = λ s s' c e f. inl (absurd (sample_never (ap (λ p. p.1) f)));
  exists_none = λ s k e. sample_exists (get s.texts k) e;
  matches = glob;
  starts_plain = λ p rest k plain m. glob-prefix p rest k plain m;
  star_end = λ p rest plain. glob-end p rest plain;
  star_inside = λ p q x pp qp. glob-inside p q x pp qp;
  two_stars = λ p q x y pp qp. glob_two_stars p q x y pp qp;
}

pub sample-IsUp : (s : Held) → IsUp sample_redis sample_law s
unfolding keys_of members_of
sample-IsUp s = record {
  texts = λ k v e. rw e refl;
  keys_up = λ p. (keys_of s p, refl);
  keys_match = λ p k ks e m. ground (arith, sample_keys s p k ks e);
  text_keys = λ p k v ks e t. ground (
    arith,
    sample_keys s p k ks e,
    contains-append (firsts s.texts) (firsts s.pairs) k,
    contains-firsts s.texts k v,
  );
  set_keys = λ p k u ks e t. ground (
    arith,
    sample_keys s p k ks e,
    contains-append (firsts s.texts) (firsts s.pairs) k,
    contains-pairs s.pairs k u,
  );
  members_up = λ k. (members_of s k, refl);
  members_has = λ k u us e. rw (sym (ok-injective e)) (contains-seconds_at s.pairs k u);
  lengths = λ k. refl;
  ranges = λ k n. refl;
}

pub sample_writing : IsWriting sample_redis
sample_writing s c = refl
