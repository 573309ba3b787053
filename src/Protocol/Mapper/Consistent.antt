-- ===== src/Protocol/Mapper/Consistent.antt =====
-- protocol/mapper.go, registration: no two methods are ever bound to one command.
use mathlib.Core.Path.{subst}
use novagate.Base.{
  ℕ, ◌≡◌, some, List, [], ◌∷◌, Result, ok, ◌>>=◌, >>=-eq-ok, ok-injective, false, arith,
}
use novagate.Base.Key.{get, put, get-put, bytes_key, nat_key, bytes_beq_iff}
use novagate.Protocol.Bytes.{Bytes}
use novagate.Protocol.Mapper.{
  Mapping, no_mappings, bind, register_full_method_command, trim_space, is_bound_elsewhere,
  RegisterPanic,
}

-- A command knows the method that is bound to it.
pub record IsConsistent (m : Mapping) : Type 0 where
  pub owner :
      (name : Bytes) (cmd : ℕ)
      → get m.method_command name ≡ some cmd
      → get m.command_method cmd ≡ some name

-- What a registration that does not panic has done.
pub record IsBinding (m m' : Mapping) (full_method : Bytes) (cmd : ℕ) : Type 0 where
  pub is_free : is_bound_elsewhere (get m.command_method cmd) full_method ≡ false
  pub methods : m'.method_command ≡ put m.method_command full_method cmd
  pub commands : m'.command_method ≡ put m.command_method cmd full_method
  pub strict : m'.strict_mapping ≡ m.strict_mapping

pub bind_lem :
    (m m' : Mapping) (full_method : Bytes) (cmd : ℕ)
    → bind m full_method cmd ≡ ok m'
    → IsBinding m m' full_method cmd
unfolding bind
bind_lem m m' full_method cmd e = ground arith

pub register_lem :
    (m m' : Mapping) (name : Bytes) (cmd : ℕ)
    → register_full_method_command m name cmd ≡ ok m'
    → IsBinding m m' (trim_space name) cmd
unfolding register_full_method_command
register_lem m m' name cmd e = ground (arith, bind_lem m m' (trim_space name) cmd)

binding-IsConsistent :
    (m m' : Mapping) (full_method : Bytes) (cmd : ℕ)
    → IsBinding m m' full_method cmd
    → IsConsistent m
    → IsConsistent m'
unfolding is_bound_elsewhere
binding-IsConsistent m m' full_method cmd b h = record {
  owner = λ name c p. rw b.commands (
      ground (
        arith,
        get-put m.method_command full_method name cmd,
        get-put m.command_method cmd c full_method,
        h.owner name c,
        bytes_beq_iff full_method name,
        bytes_beq_iff name full_method,
        rw b.methods at p,
      ));
}

-- Registrations in order, each a name and a command; a panic ends them.
unfoldable pub register_all : Mapping → List (Bytes × ℕ) → Result RegisterPanic Mapping
register_all m [] = ok m
register_all m ((name, cmd) ∷ rest) = do
  m' ← register_full_method_command m name cmd
  register_all m' rest

pub register_all-IsConsistent :
    (m m' : Mapping) (regs : List (Bytes × ℕ))
    → register_all m regs ≡ ok m'
    → IsConsistent m
    → IsConsistent m'
unfolding register_all
register_all-IsConsistent m m' [] e h = subst IsConsistent (ok-injective e) h
register_all-IsConsistent m m' ((name, cmd) ∷ rest) e h =
    let (m₁, p, q) =
      >>=-eq-ok (register_full_method_command m name cmd) (λ r. register_all r rest) e in
    register_all-IsConsistent m₁ m' rest q
      (binding-IsConsistent m m₁ (trim_space name) cmd (register_lem m m₁ name cmd p) h)

IsConsistent-no_mappings : IsConsistent no_mappings
unfolding get
IsConsistent-no_mappings = record { owner = λ name cmd p. cc }

-- After any registrations that do not panic, two methods with one command are the same method.
pub command_injective :
    (m : Mapping) (regs : List (Bytes × ℕ)) (a b : Bytes) (cmd : ℕ)
    → register_all no_mappings regs ≡ ok m
    → get m.method_command a ≡ some cmd
    → get m.method_command b ≡ some cmd
    → a ≡ b
command_injective m regs a b cmd e p q =
    let h = register_all-IsConsistent no_mappings m regs e IsConsistent-no_mappings in
    cc (h.owner a cmd p, h.owner b cmd q)
