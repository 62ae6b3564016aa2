-- ===== src/Registry/Nodes/Keeps.antt =====
-- What the nodes under a <module> keep, from what each change of the registry keeps.
use xpcf.Base.{ℕ, String, List, ◌∷◌, if◌then◌else◌, nat_keys, Bool-cases, Option-cases, inl, inr}
use xpcf.Map.{map_contains}
use xpcf.Exec.{Result, ok, err, rethrow, process_xml_node}
use xpcf.Xml.{Xml}
use xpcf.Alias.{AliasType, component_type, interface_type}
use xpcf.Registry.{
  InterfaceMetadata, ComponentMetadata, Registry, add_interface_metadata, auto_alias_of,
  note_interface, map_component,
}
use xpcf.Registry.Nodes.Loops.{process-keeps, rethrow-state}
use xpcf.Registry.Nodes.{
  note_component, new_component, attribute_text, uuid_of, declare_interface_of,
  declare_interface_node, declare_new_component, declare_component,
}

-- A relation that holds over each change that an <interface> node of the module at an address makes.
pub record InterfaceSteps (address : ℕ) (R : Registry → Registry → Type 0) : Type 0 where
  pub same : (r : Registry) → R r r
  pub then_ : (r s t : Registry) → R r s → R s t → R r t
  pub notes : (u i : ℕ) (r : Registry) → R r (note_interface address u i r)
  pub binds : (b : ℕ × ℕ) (r : Registry) → R r (record r { autobinds = b ∷ r.autobinds })
  pub names :
      (type : AliasType) (name : String) (u : ℕ) (r : Registry) → R r (auto_alias_of type name u r)
  pub adds : (info : InterfaceMetadata) (r : Registry) → R r (add_interface_metadata info r)

-- The changes of a <component> node are two more.
pub record ComponentSteps (address : ℕ) (R : Registry → Registry → Type 0) : Type 0 where
  pub interfaces : InterfaceSteps address R
  pub maps : (u m : ℕ) (r : Registry) → R r (map_component u m r)
  pub lists : (info : ComponentMetadata) (r : Registry) → R r (note_component address info r)

module _ (X : Xml) (address : ℕ) (R : Registry → Registry → Type 0) where
  open X use {Element, attribute, children, to_uuid}

  module _ (k : InterfaceSteps address R) where
    interface_of-keeps :
        (u : ℕ) (elt : Element) (i : ℕ) (r : Registry)
        → R r (declare_interface_of X address u elt i r).1
    unfolding declare_interface_of
    interface_of-keeps u elt i r =
        let noted = note_interface address u i r in
        let bound : Registry = record noted { autobinds = (i, u) ∷ noted.autobinds } in
        let before : R r bound = k.then_ r noted bound (k.notes u i r) (k.binds (i, u) noted) in
        elim (Bool-cases (map_contains noted.interfaces_map i)) [
          | inl h ↦ rw h before
          | inr h ↦ rw h (elim (Option-cases (attribute elt "description")) [
            | inl e ↦ rw e before
            | inr (d, e) ↦
                let name = attribute_text X elt "name" in
                let info : InterfaceMetadata = record { uuid = i; name = name; description = d } in
                let named = auto_alias_of interface_type name i bound in
                rw e (
                  k.then_ r bound (add_interface_metadata info named) before (
                    k.then_ bound named (add_interface_metadata info named)
                      (k.names interface_type name i bound) (k.adds info named)))
          ])
        ]

    pub interface_node-keeps :
        (u : ℕ) (elt : Element) (r : Registry) → R r (declare_interface_node X address u elt r).1
    unfolding declare_interface_node
    interface_node-keeps u elt r = go (uuid_of X elt)
      where
        go :
            (o : Result ℕ)
            → R r
                (rethrow {A = Unit {0}} (elim o [
                  | err e ↦ (err e, r)
                  | ok i ↦ declare_interface_of X address u elt i r
                ])).1
        go (err e) = k.same r
        go (ok i) =
            rw (rethrow-state (declare_interface_of X address u elt i r))
              (interface_of-keeps u elt i r)

    pub interfaces-keep :
        (u : ℕ) (xs : List Element) (r : Registry)
        → R r (process_xml_node (declare_interface_node X address u) xs r).1
    interfaces-keep u xs r =
        process-keeps R (declare_interface_node X address u) k.same k.then_ (interface_node-keeps u)
          xs r

  module _ (k : ComponentSteps address R) where
    new_component-keeps :
        (m : ℕ) (elt : Element) (u : ℕ) (r : Registry)
        → R r (declare_new_component X address m elt u r).1
    unfolding declare_new_component
    new_component-keeps m elt u r =
        let j = k.interfaces in
        let mapped = map_component u m r in
        elim (Option-cases (attribute elt "description")) [
          | inl e ↦ rw (e, declare_new_component) (k.maps u m r)
          | inr (d, e) ↦
              let name = attribute_text X elt "name" in
              let named = auto_alias_of component_type name u mapped in
              let noted = note_component address (new_component u name d) named in
              let done =
                (process_xml_node (declare_interface_node X address u) (children elt "interface")
                  noted).1 in
              rw (e, declare_new_component)
                (j.then_ r mapped done (k.maps u m r) (
                  j.then_ mapped named done (j.names component_type name u mapped) (
                    j.then_ named noted done (k.lists (new_component u name d) named)
                      (interfaces-keep j u (children elt "interface") noted))))
        ]

    pub component-keeps :
        (m : ℕ) (elt : Element) (r : Registry) → R r (declare_component X address m elt r).1
    unfolding declare_component
    component-keeps m elt r = go (uuid_of X elt)
      where
        go :
            (o : Result ℕ)
            → R r
                (rethrow {A = Unit {0}} (elim o [
                  | err e ↦ (err e, r)
                  | ok u ↦
                      if map_contains r.component_module_uuid_map u
                      then (ok tt, r)
                      else declare_new_component X address m elt u r
                ])).1
        go (err e) = k.interfaces.same r
        go (ok u) = elim (Bool-cases (map_contains r.component_module_uuid_map u)) [
          | inl h ↦ rw h (k.interfaces.same r)
          | inr h ↦ rw h (
              rw (rethrow-state (declare_new_component X address m elt u r))
                (new_component-keeps m elt u r))
        ]

    pub components-keep :
        (m : ℕ) (xs : List Element) (r : Registry)
        → R r (process_xml_node (declare_component X address m) xs r).1
    components-keep m xs r =
        process-keeps R (declare_component X address m) k.interfaces.same k.interfaces.then_
          (component-keeps m) xs r
