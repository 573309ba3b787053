-- ===== src/Protocol/Mapper/Lookup.antt =====
-- protocol/mapper.go, MapMethodToCommand after a registration, and where nothing is registered.
use novagate.Base.{ℕ, ◌<◌, ◌^◌, ◌≡◌, ◌∙◌, none, true, false, ok, err, arith}
use novagate.Base.Key.{get, get-put, bytes_key, beq_refl}
use novagate.Protocol.Bytes.{Bytes}
use novagate.Protocol.Mapper.{
  Mapping, register_full_method_command, split_full_method, trim_space, map_method_to_command,
  resolve, join, fallback_command, unregistered, set_strict_command_mapping,
}
use novagate.Protocol.Mapper.Consistent.{IsBinding, register_lem}

module _ (m : Mapping) (name : Bytes) {service method : Bytes}
    (parts : split_full_method (trim_space name) ≡ ok (service, method)) where
  map-resolve : map_method_to_command m name ≡ resolve m service method
  unfolding map_method_to_command
  map-resolve = rw parts

resolve-binding_self :
    (m m' : Mapping) (service method : Bytes) (cmd : ℕ)
    → IsBinding m m' (join service method) cmd
    → resolve m' service method ≡ ok cmd
unfolding resolve
resolve-binding_self m m' service method cmd b =
    rw (b.methods, resolve, get-put, beq_refl (join service method))

-- A method that is registered under its normalized name maps to its command, in either mode.
map-register_self :
    (m m' : Mapping) (name service method : Bytes) (cmd : ℕ)
    → split_full_method (trim_space name) ≡ ok (service, method)
    → trim_space name ≡ join service method
    → register_full_method_command m name cmd ≡ ok m'
    → map_method_to_command m' name ≡ ok cmd
map-register_self m m' name service method cmd parts normal e =
    map-resolve m' name parts
    ∙ resolve-binding_self m m' service method cmd (rw normal at (register_lem m m' name cmd e))

-- With strict mapping an unregistered method is an error that names it; without it the method gets
-- the low 16 bits of the hash of its two parts.
map-unregistered :
    (m : Mapping) (name service method : Bytes)
    → split_full_method (trim_space name) ≡ ok (service, method)
    → get m.method_command (join service method) ≡ none
    → (map_method_to_command (set_strict_command_mapping m true) name
        ≡ err (unregistered (join service method)))
      × (map_method_to_command (set_strict_command_mapping m false) name
          ≡ ok (fallback_command service method))
      × (fallback_command service method < 2 ^ 16)
unfolding set_strict_command_mapping resolve fallback_command
map-unregistered m name service method parts absent = (
  map-resolve (record m { strict_mapping = true }) name parts ∙ rw (absent, resolve),
  map-resolve (record m { strict_mapping = false }) name parts ∙ rw (absent, resolve),
  omega arith,
)
