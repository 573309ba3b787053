-- ===== src/Server/Listen/Options.antt =====
-- main.go: how the options and the address argument combine.
use text.Mathlib.Text.{◌==◌ as str_eq}
use text.Mathlib.TextEquality.{eq_iff}
use novagate.Base.{String, ◌≡◌, ◌≢◌, refl, not, List, [], ◌∷◌, ◌++◌, arith, if◌then◌else◌}
use novagate.Server.Listen.{
  ServeOptions, ServeOption, default_serve_options, apply_option, apply_from, apply_serve_options,
  with_addr, normalize_addr,
}

apply_from-append :
    (so : ServeOptions) (opts more : List ServeOption)
    → apply_from so (opts ++ more) ≡ apply_from (apply_from so opts) more
unfolding apply_from
apply_from-append so [] more = refl
apply_from-append so (opt ∷ opts) more = apply_from-append (apply_option so opt) opts more

-- The last option wins: an address option at the end decides the address and nothing else.
apply-with_addr :
    (opts : List ServeOption) (addr : String)
    → apply_serve_options (opts ++ (with_addr addr ∷ []))
      ≡ record (apply_serve_options opts) { addr = addr }
unfolding apply_serve_options
apply-with_addr opts addr = apply_from-append default_serve_options opts (with_addr addr ∷ [])

-- The address rules: an address that is not empty wins over all options; without one the last
-- address option wins if it is not empty; and the result is never empty.
normalize_addr_rules :
    (addr last : String) (opts : List ServeOption)
    → (normalize_addr addr (opts ++ (with_addr last ∷ []))
        ≡ (if not (str_eq addr "") then addr else if not (str_eq last "") then last else ":9000"))
      × (normalize_addr addr opts ≢ "")
unfolding normalize_addr
normalize_addr_rules addr last opts = (
  rw apply-with_addr,
  λ p. ground (arith, eq_iff addr "", eq_iff (apply_serve_options opts).addr "", eq_iff ":9000" ""),
)
