-- ===== src/Acl/Docs.antt =====
-- Lists and sets of document ids, as both stores of services/acl/internal/acl build them.
use novagate.Base.{String, Bool, false, ◌&&◌, ◌||◌, List, [], ◌∷◌, ◌≡◌, refl, arith, if◌then◌else◌}
use novagate.Base.Key.{GoMap, ◌==◌, get, string_key}
use novagate.Acl.Nested.{is_there}

-- The documents for which a loop appends to its result.
unfoldable pub keep_if : (String → Bool) → List String → List String
keep_if p [] = []
keep_if p (d ∷ ds) = let rest = keep_if p ds in if p d then d ∷ rest else rest

unfoldable pub keys : GoMap String (Unit {0}) → List String
keys [] = []
keys ((doc, _) ∷ seen) = doc ∷ keys seen

abbrev pub contains : List String → String → Bool
contains [] d = false
contains (x ∷ xs) d = x == d || contains xs d

pub contains-keep_if :
    (p : String → Bool) (ds : List String) (d : String)
    → contains (keep_if p ds) d ≡ (contains ds d && p d)
unfolding keep_if
contains-keep_if p [] d = refl
contains-keep_if p (x ∷ ds) d = ground (arith, contains-keep_if p ds d, string_key.beq_iff x d)

pub contains-keys :
    (seen : GoMap String (Unit {0})) (d : String) → contains (keys seen) d ≡ is_there (get seen d)
unfolding keys get
contains-keys [] d = refl
contains-keys ((doc, x) ∷ seen) d = ground (arith, contains-keys seen d, string_key.beq_iff doc d)
