-- ===== src/Alias/Laws.antt =====
-- What a client of src/AliasManager.cpp may rely on: declaring, replacing and resolving names.
use xpcf.Base.{
  ℕ, String, Bool, true, false, ◌&&◌, ◌≡◌, refl, if◌then◌else◌, arith, ◌==◌, string_keys,
}
use xpcf.Map.{lookup-insert}
use xpcf.Exec.{Result, ok, err, exception}
use xpcf.Alias.{
  AliasType, interface_type, component_type, module_type, AliasContext, declare_alias,
  declare_explicit_alias, alias_exists, resolve_alias, resolve_component_alias,
  resolve_interface_alias, resolve_module_alias,
}

abbrev pub same_type : AliasType → AliasType → Bool
same_type interface_type interface_type = true
same_type component_type component_type = true
same_type module_type module_type = true
same_type _ _ = false

-- The three `resolve…Alias` as one function of the type.
abbrev pub resolve_as : AliasType → String → AliasContext → Result ℕ
resolve_as interface_type name c = resolve_interface_alias name c
resolve_as component_type name c = resolve_component_alias name c
resolve_as module_type name c = resolve_module_alias name c

abbrev pub succeeds {ℓ} : {A : Type ℓ} → Result A → Bool
succeeds (ok _) = true
succeeds (err _) = false

-- A declaration that replaces never fails: afterwards the name resolves to the uuid that was given,
-- and every other name, and the same name of another type, resolves as before.
pub resolve_as-declare_explicit_alias :
    (t u : AliasType) (name other : String) (uuid : ℕ) (c : AliasContext)
    → ((declare_explicit_alias t name uuid c).0 ≡ ok tt)
      × (resolve_as u other (declare_explicit_alias t name uuid c).1
          ≡ (if same_type t u && (name == other) then ok uuid else resolve_as u other c))
unfolding declare_explicit_alias resolve_alias resolve_interface_alias resolve_component_alias
    resolve_module_alias
resolve_as-declare_explicit_alias interface_type interface_type name other uuid c =
    (refl, rw lookup-insert (ground arith))
resolve_as-declare_explicit_alias component_type component_type name other uuid c =
    (refl, rw lookup-insert (ground arith))
resolve_as-declare_explicit_alias module_type module_type name other uuid c =
    (refl, rw lookup-insert (ground arith))
resolve_as-declare_explicit_alias interface_type component_type name other uuid c = (refl, refl)
resolve_as-declare_explicit_alias interface_type module_type name other uuid c = (refl, refl)
resolve_as-declare_explicit_alias component_type interface_type name other uuid c = (refl, refl)
resolve_as-declare_explicit_alias component_type module_type name other uuid c = (refl, refl)
resolve_as-declare_explicit_alias module_type interface_type name other uuid c = (refl, refl)
resolve_as-declare_explicit_alias module_type component_type name other uuid c = (refl, refl)

-- `aliasExists` says whether the resolution of that type succeeds.
pub alias_exists-resolve_as :
    (t : AliasType) (name : String) (c : AliasContext)
    → alias_exists t name c ≡ succeeds (resolve_as t name c)
unfolding alias_exists resolve_alias resolve_interface_alias resolve_component_alias
    resolve_module_alias
alias_exists-resolve_as interface_type name c = ground arith
alias_exists-resolve_as component_type name c = ground arith
alias_exists-resolve_as module_type name c = ground arith

-- `declareAlias` keeps the first declaration: where the name exists it throws and changes nothing,
-- and elsewhere it does what the replacing declaration does.
pub declare_alias_lem :
    (t : AliasType) (name : String) (uuid : ℕ) (c : AliasContext)
    → declare_alias t name uuid c ≡ (
        if succeeds (resolve_as t name c)
        then (err exception, c)
        else declare_explicit_alias t name uuid c)
unfolding declare_alias declare_explicit_alias resolve_alias resolve_interface_alias
    resolve_component_alias resolve_module_alias
declare_alias_lem interface_type name uuid c = ground arith
declare_alias_lem component_type name uuid c = ground arith
declare_alias_lem module_type name uuid c = ground arith
