-- ===== src/Property/Maps.antt =====
-- src/PropertyMap.cpp: the operations of a map of properties, and the `wrap…` methods that make a
-- property and add it.
pub mod Laws
use xpcf.Base.{
  ℕ, String, Bool, true, false, not, Option, none, some, if◌then◌else◌, nat_keys, nat_eq,
  string_keys, ◌==◌, List, [], ◌∷◌,
}
use xpcf.Map
use xpcf.Map.{map_contains}
use xpcf.Exec.{Result, ok, err, Exec, continue, pure, throw, invalid_argument, access_denied}
use xpcf.Collection.{add}
use xpcf.Property.{
  ErrorCode, success, fail, error_invalid_argument, AccessSpecifier, property_out, Value, same_type,
}
use xpcf.Property.Variant.{denies_writing}
use xpcf.Property.Store.{
  Object, Store, PropertyMap, get_name, get_type, get_access_specifier, size, copy_to, put,
}

unfoldable pub empty : PropertyMap
empty = record { property_map = Map.empty; collection = [] }

module _ {F D : Type 0} where
  abbrev pub put_node : ℕ → PropertyMap → Store F D → Store F D
  put_node m n s = record s { node = λ k. if nat_eq m k then n else s.node k }

  unfoldable pub add_property : ℕ → ℕ → Exec (Store F D) ErrorCode
  unfolding add
  add_property m p s =
      let name = get_name (s.property p) in
      let n = s.node m in
      if map_contains n.property_map name then (ok fail, s) else (
        ok success,
        put_node m
            (record {
              property_map = Map.insert n.property_map name p;
              collection = add p n.collection;
            })
            s,
      )

  -- `at`; `none` is a null pointer
  unfoldable pub at : ℕ → String → Store F D → Option ℕ
  at m name s = Map.lookup (s.node m).property_map name

  -- The checks of `setProperty` on the property of that name, and the copy.
  unfoldable pub set_property_to : ℕ → ℕ → Exec (Store F D) ErrorCode
  set_property_to p tmp s =
      let o = s.property p in
      let t = s.property tmp in
      if denies_writing (get_access_specifier t)
      then (err access_denied, s)
      else if not (nat_eq (size t) (size o))
      then (err invalid_argument, s)
      else if not (same_type (get_type t) (get_type o))
      then (err invalid_argument, s)
      else continue (copy_to p tmp s) (λ _. pure success)

  unfoldable pub set_property : ℕ → Option ℕ → Exec (Store F D) ErrorCode
  set_property m none s = (err invalid_argument, s)
  set_property m (some p) s = elim (at m (get_name (s.property p)) s) [
    | none ↦ (err invalid_argument, s)
    | some tmp ↦ set_property_to p tmp s
  ]

  -- `wrap`, with the address of the new object; the nine methods for a variable and the nine for a
  -- vector call it. `none` is a null pointer.
  unfoldable pub wrap : ℕ → ℕ → Option String → (String → Object F D) → Exec (Store F D) ErrorCode
  unfolding add_property
  wrap m new none make s = (ok error_invalid_argument, s)
  wrap m new (some name) make s = add_property m new (put new (make name) s)
