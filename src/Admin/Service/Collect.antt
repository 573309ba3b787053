-- ===== src/Admin/Service/Collect.antt =====
-- service.go: what the loops that append keep.
use mathlib.Core.Path.{subst}
use novagate.Base.{◌≡◌, refl, sym, Option, none, some, List, [], ◌∷◌, inl, inr, Option-cases}
use novagate.Base.Key.{bytes_key}
use novagate.Admin.Redis.{Has}
use novagate.Admin.Service.{collect}

collect-none :
    {A B : Type 0} (f : A → Option B) (z : A) (xs : List A)
    → f z ≡ none
    → collect f (z ∷ xs) ≡ collect f xs
unfolding collect
collect-none f z xs e = rw (e, collect)

collect-some :
    {A B : Type 0} (f : A → Option B) (z : A) (xs : List A) (y : B)
    → f z ≡ some y
    → collect f (z ∷ xs) ≡ y ∷ collect f xs
unfolding collect
collect-some f z xs y e = rw (e, collect)

Has-first :
    {A B : Type 0} (f : A → Option B) (z : A) (xs : List A) (y : B)
    → f z ≡ some y
    → Has y (collect f (z ∷ xs))
Has-first f z xs y e = subst (Has y) (sym (collect-some f z xs y e)) (inl refl)

pub Has-collect :
    {A B : Type 0} (f : A → Option B) (xs : List A) (x : A) (y : B)
    → Has x xs
    → f x ≡ some y
    → Has y (collect f xs)
Has-collect f [] x y h e = elim h [ ]
Has-collect f (z ∷ xs) x y (inl same) e = Has-first f z xs y (rw same e)
Has-collect f (z ∷ xs) x y (inr later) e = elim (Option-cases (f z)) [
  | inl dropped ↦ subst (Has y) (sym (collect-none f z xs dropped)) (Has-collect f xs x y later e)
  | inr (kept, k) ↦
      subst (Has y) (sym (collect-some f z xs kept k)) (inr (Has-collect f xs x y later e))
]
