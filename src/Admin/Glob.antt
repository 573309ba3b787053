-- ===== src/Admin/Glob.antt =====
-- Patterns of the KEYS command with stars alone.
use novagate.Base.{
  ℕ, ◌≡◌, refl, ◌∙◌, Bool, true, false, ◌&&◌, ◌||◌, [], ◌∷◌, ◌++◌, if◌then◌else◌, arith,
}
use novagate.Base.Key.{◌==◌, bytes_key, nat_key}
use novagate.Protocol.Bytes.{Bytes}
use novagate.Admin.Text.{has_prefix}
use novagate.Admin.Redis.{IsPlain}

some_suffix : (Bytes → Bool) → Bytes → Bool
some_suffix p [] = p []
some_suffix p (c ∷ k) = p (c ∷ k) || some_suffix p k

unfoldable pub glob : Bytes → Bytes → Bool
unfolding some_suffix
glob [] [] = true
glob [] (c ∷ k) = false
glob (p ∷ ps) [] = if p == b'*' then some_suffix (glob ps) [] else false
glob (p ∷ ps) (c ∷ k) = if p == b'*' then some_suffix (glob ps) (c ∷ k) else p == c && glob ps k

some_suffix-append : (p : Bytes → Bool) (x y : Bytes) → p y ≡ true → some_suffix p (x ++ y) ≡ true
unfolding some_suffix
some_suffix-append p [] [] h = h
some_suffix-append p [] (c ∷ y) h = rw h
some_suffix-append p (c ∷ x) y h = ground (arith, some_suffix-append p x y h)

pub glob-star : (q x y : Bytes) → glob q y ≡ true → glob (b'*' ∷ q) (x ++ y) ≡ true
unfolding glob
glob-star q [] [] h = some_suffix-append (glob q) [] [] h
glob-star q [] (c ∷ y) h = some_suffix-append (glob q) [] (c ∷ y) h
glob-star q (c ∷ x) y h = some_suffix-append (glob q) (c ∷ x) y h

pub glob-plain : (p q k : Bytes) → IsPlain p → glob (p ++ q) (p ++ k) ≡ glob q k
unfolding glob
glob-plain [] q k h = refl
glob-plain (c ∷ p) q k (plain, h) = ground (arith, glob-plain p q k h)

pub glob-prefix : (p q k : Bytes) → IsPlain p → glob (p ++ q) k ≡ true → has_prefix k p ≡ true
unfolding glob has_prefix
glob-prefix [] q k h m = ground arith
glob-prefix (c ∷ p) q [] (plain, h) m = ground arith
glob-prefix (c ∷ p) q (d ∷ k) (plain, h) m = ground (arith, glob-prefix p q k h)

pub glob_self : (q : Bytes) → IsPlain q → glob q q ≡ true
unfolding glob
glob_self [] h = refl
glob_self (c ∷ q) (plain, h) = ground (arith, glob_self q h)

glob_all : (y : Bytes) → glob (b'*' ∷ []) y ≡ true
unfolding glob some_suffix
glob_all [] = refl
glob_all (c ∷ y) = glob-ends y c
  where
    glob-ends : (y : Bytes) (c : ℕ) → some_suffix (glob []) (c ∷ y) ≡ true
    glob-ends [] c = refl
    glob-ends (d ∷ y) c = glob-ends y d

pub glob-end : (p rest : Bytes) → IsPlain p → glob (p ++ (b'*' ∷ [])) (p ++ rest) ≡ true
glob-end p rest plain = glob-plain p (b'*' ∷ []) rest plain ∙ glob_all rest

pub glob-inside :
    (p q x : Bytes) → IsPlain p → IsPlain q → glob (p ++ (b'*' ∷ q)) (p ++ (x ++ q)) ≡ true
glob-inside p q x pp qp = glob-plain p (b'*' ∷ q) (x ++ q) pp ∙ glob-star q x q (glob_self q qp)

pub glob_two_stars :
    (p q x y : Bytes)
    → IsPlain p
    → IsPlain q
    → glob (p ++ (b'*' ∷ (q ++ (b'*' ∷ [])))) (p ++ (x ++ (q ++ y))) ≡ true
glob_two_stars p q x y pp qp =
    glob-plain p (b'*' ∷ (q ++ (b'*' ∷ []))) (x ++ (q ++ y)) pp
    ∙ glob-star (q ++ (b'*' ∷ [])) x (q ++ y) (glob-plain q (b'*' ∷ []) y qp ∙ glob_all y)
