-- ===== src/Admin/Redis.antt =====
-- What internal/admin uses of go-redis and of a Redis server. Both are parameters: `Redis` is what the
-- client answers, and `IsRedis` and `IsUp` what Redis documents of the commands that are sent.
use novagate.Base.{
  ℕ, suc, ◌≡◌, refl, ◌⊎◌, inl, inr, Bool, true, false, not, ◌&&◌, ◌||◌, Option, none, some, List,
  [], ◌∷◌, ◌++◌, Result, ok, if◌then◌else◌, All, Bool-cases, length, take, arith,
}
use novagate.Base.Int.{ℤ, pos}
use novagate.Base.Key.{Key, ◌==◌, bytes_key, nat_key}
use novagate.Protocol.Bytes.{Bytes}
use novagate.Admin.Text.{has_prefix}
use novagate.Acl.RedisServer.{RedisError}

pub data Command : Type 0 where
  del : Bytes → Command
  set sadd srem lpush : Bytes → Bytes → Command

-- Reads answer or fail, and a missing text is the error redis.Nil. A write leaves a server and an error.
pub record Redis : Type 1 where
  pub Server : Type 0
  pub get : Server → Bytes → Result RedisError Bytes
  pub exists : Server → Bytes → Result RedisError ℕ
  pub keys : Server → Bytes → Result RedisError (List Bytes)
  pub members : Server → Bytes → Result RedisError (List Bytes)
  pub list_length : Server → Bytes → Result RedisError ℕ
  pub range : Server → Bytes → ℤ → ℤ → Result RedisError (List Bytes)
  pub exec : Server → Command → Server × Option RedisError

-- What a server holds: texts, sets and lists. An empty set or list is no key.
pub record Keyspace : Type 0 where
  pub text : Bytes → Option Bytes
  pub has : Bytes → Bytes → Bool
  pub entries : Bytes → List Bytes

-- The documented effect of a command that succeeds.
unfoldable pub effect : Command → Keyspace → Keyspace
effect (del key) h = record {
  text = λ k. if key == k then none else h.text k;
  has = λ k u. not (key == k) && h.has k u;
  entries = λ k. if key == k then [] else h.entries k;
}
effect (set key v) h = record {
  text = λ k. if key == k then some v else h.text k;
  has = λ k u. not (key == k) && h.has k u;
  entries = λ k. if key == k then [] else h.entries k;
}
effect (sadd key member) h = record h { has = λ k u. (key == k && member == u) || h.has k u }
effect (srem key member) h = record h { has = λ k u. not (key == k && member == u) && h.has k u }
effect (lpush key v) h = record h {
  entries = λ k. if key == k then v ∷ h.entries k else h.entries k;
}

-- Patterns of KEYS: plain text stands for itself, and a star for any text.
abbrev pub is_special : ℕ → Bool
is_special c = c == b'*' || c == b'?' || c == b'[' || c == b'\\'

abbrev pub IsPlain : Bytes → Type 0
IsPlain p = All (λ c. is_special c ≡ false) p

-- A command without an error has had its effect; with one it has had it or none at all. EXISTS answers
-- 0 only for a key that holds no text.
pub record IsRedis (r : Redis) : Type 0 where
  pub holds : r.Server → Keyspace
  pub exec_ok :
      (s s' : r.Server) (c : Command) → r.exec s c ≡ (s', none) → holds s' ≡ effect c (holds s)
  pub exec_failed :
      (s s' : r.Server) (c : Command) (e : RedisError)
      → r.exec s c ≡ (s', some e)
      → (holds s' ≡ holds s) ⊎ (holds s' ≡ effect c (holds s))
  pub exists_none : (s : r.Server) (k : Bytes) → r.exists s k ≡ ok 0 → (holds s).text k ≡ none
  pub matches : Bytes → Bytes → Bool
  pub starts_plain :
      (p rest k : Bytes) → IsPlain p → matches (p ++ rest) k ≡ true → has_prefix k p ≡ true
  pub star_end : (p rest : Bytes) → IsPlain p → matches (p ++ (b'*' ∷ [])) (p ++ rest) ≡ true
  pub star_inside :
      (p q x : Bytes) → IsPlain p → IsPlain q → matches (p ++ (b'*' ∷ q)) (p ++ (x ++ q)) ≡ true
  pub two_stars :
      (p q x y : Bytes)
      → IsPlain p
      → IsPlain q
      → matches (p ++ (b'*' ∷ (q ++ (b'*' ∷ [])))) (p ++ (x ++ (q ++ y))) ≡ true

abbrev pub contains {ℓ} : {A : Type ℓ} ⦃e : Key A⦄ → List A → A → Bool
contains [] a = false
contains (x ∷ xs) a = x == a || contains xs a

-- A server that answers: the reads are those of what it holds.
pub record IsUp (r : Redis) (law : IsRedis r) (s : r.Server) : Type 0 where
  pub texts : (k v : Bytes) → (law.holds s).text k ≡ some v → r.get s k ≡ ok v
  pub keys_up : (p : Bytes) → (ks : List Bytes) × (r.keys s p ≡ ok ks)
  pub keys_match :
      (p k : Bytes) (ks : List Bytes)
      → r.keys s p ≡ ok ks
      → contains ks k ≡ true
      → law.matches p k ≡ true
  pub text_keys :
      (p k v : Bytes) (ks : List Bytes)
      → r.keys s p ≡ ok ks
      → (law.holds s).text k ≡ some v
      → contains ks k ≡ law.matches p k
  pub set_keys :
      (p k u : Bytes) (ks : List Bytes)
      → r.keys s p ≡ ok ks
      → (law.holds s).has k u ≡ true
      → contains ks k ≡ law.matches p k
  pub members_up : (k : Bytes) → (us : List Bytes) × (r.members s k ≡ ok us)
  pub members_has :
      (k u : Bytes) (us : List Bytes)
      → r.members s k ≡ ok us
      → contains us u ≡ (law.holds s).has k u
  pub lengths : (k : Bytes) → r.list_length s k ≡ ok (length ((law.holds s).entries k))
  pub ranges :
      (k : Bytes) (n : ℕ)
      → r.range s k (pos 0) (pos n) ≡ ok (take (suc n) ((law.holds s).entries k))

-- A server on which no command fails.
abbrev pub IsWriting : Redis → Type 0
IsWriting r = (s : r.Server) (c : Command) → (r.exec s c).1 ≡ none

-- Membership in a list, with its place.
abbrev pub Has : {A : Type 0} → A → List A → Type 0
Has a [] = ⊥
Has a (x ∷ xs) = (x ≡ a) ⊎ Has a xs

pub Has-contains : (k : Bytes) (ks : List Bytes) → contains ks k ≡ true → Has k ks
Has-contains k [] h = cc
Has-contains k (x ∷ ks) h = elim (Bool-cases (x == k)) [
  | inl same ↦ inl ((bytes_key.beq_iff x k).0 same)
  | inr other ↦ inr (Has-contains k ks (ground arith))
]

module _ (r : Redis) (law : IsRedis r) where
  exec_outcome :
      (s : r.Server) (c : Command) (p : r.Server × Option RedisError)
      → r.exec s c ≡ p
      → (law.holds p.0 ≡ law.holds s) ⊎ (law.holds p.0 ≡ effect c (law.holds s))
  exec_outcome s c (s', none) e = inr (law.exec_ok s s' c e)
  exec_outcome s c (s', some failure) e = law.exec_failed s s' c failure e

  -- Whatever a command answers, it has had its effect or none.
  pub exec_cases :
      (s : r.Server) (c : Command)
      → (law.holds (r.exec s c).0 ≡ law.holds s)
        ⊎ (law.holds (r.exec s c).0 ≡ effect c (law.holds s))
  exec_cases s c = exec_outcome s c (r.exec s c) refl

  exec_done :
      (s : r.Server) (c : Command) (p : r.Server × Option RedisError)
      → r.exec s c ≡ p
      → p.1 ≡ none
      → law.holds p.0 ≡ effect c (law.holds s)
  exec_done s c (s', none) e done = law.exec_ok s s' c e
  exec_done s c (s', some failure) e done = cc

  pub exec_writes :
      (s : r.Server) (c : Command)
      → (r.exec s c).1 ≡ none
      → law.holds (r.exec s c).0 ≡ effect c (law.holds s)
  exec_writes s c done = exec_done s c (r.exec s c) refl done
