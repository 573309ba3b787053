-- ===== src/Acl/Model.antt =====
-- services/acl/internal/acl/store_interface.go, and what time.Time gives the stores. An instant is a
-- number of nanoseconds since the earliest instant that time.Time can hold, 2^63 seconds before the
-- zero Time.
use text.Mathlib.Text.{◌==◌ as str_eq}
use novagate.Base.{
  ℕ, ◌*◌, ◌^◌, String, Bool, false, not, ◌&&◌, ◌||◌, Option, none, some, Result, ok, err, ltb, ◌==◌,
  if◌then◌else◌,
}

abbrev pub Time : Type 0
Time = ℕ

abbrev pub nanos : ℕ
nanos = 1000000000

unfoldable pub zero_time : Time
zero_time = 2 ^ 63 * nanos

unfoldable pub is_zero : Time → Bool
is_zero t = t == zero_time

abbrev pub before : Time → Time → Bool
before t u = ltb t u

abbrev pub Visibility : Type 0
Visibility = String

abbrev pub visibility_public : Visibility
visibility_public = "public"

abbrev pub visibility_restricted : Visibility
visibility_restricted = "restricted"

pub data AclError : Type 0 where
  invalid_visibility id_required invalid_range : AclError

-- tenant_id, doc_id or user_id is empty
abbrev pub missing2 : String → String → Bool
missing2 a b = str_eq a "" || str_eq b ""

abbrev pub missing3 : String → String → String → Bool
missing3 a b c = str_eq a "" || str_eq b "" || str_eq c ""

unfoldable pub is_visibility : Visibility → Bool
is_visibility v = str_eq v visibility_public || str_eq v visibility_restricted

-- validateGrantArgs: the end must not lie before the start, where both are given.
unfoldable pub bad_range : Time → Option Time → Bool
bad_range valid_from none = false
bad_range valid_from (some valid_to) =
    not (is_zero valid_from) && not (is_zero valid_to) && before valid_to valid_from

unfoldable pub validate_grant_args :
    String → String → String → Time → Option Time → Result AclError (Unit {0})
validate_grant_args tenant doc user valid_from valid_to =
    if missing3 tenant doc user
    then err id_required
    else if bad_range valid_from valid_to
    then err invalid_range
    else ok tt

-- `if now.IsZero() { now = time.Now() }`
unfoldable pub or_now : Time → Time → Time
or_now clock now = if is_zero now then clock else now
