-- ===== src/Tests/Properties.antt =====
-- src/PropertyMap.cpp and src/Property.cpp: a name that is new to a map, a number that is not copied,
-- and a number that is not read back.
use xpcf.Base.{ℕ, ◌≡◌, refl, none, some, [], ◌∷◌, Among, string_keys, nat_keys, pos}
use xpcf.Map
use xpcf.Map.{map_contains}
use xpcf.Exec.{ok}
use xpcf.Property.{success, property_inout, ulong, integer, integer_type}
use xpcf.Property.Wrapper.{Wrapper}
use xpcf.Property.Variant.{get, create_instance}
use xpcf.Property.Variant.Laws.{sets, get-sets}
use xpcf.Property.Store.{Store, put, wrapper}
use xpcf.Property.Maps.{add_property, at, set_property}
use xpcf.Property.Maps.Laws.{IsIndexed, add_property-IsIndexed, set_property-uncopied}
use xpcf.Tests.Manager.{before, limits-IsWritable}

indexed : IsIndexed before 1
indexed = record { finds = λ p a. (limits-IsWritable p a).found }

abbrev added : Store (Unit {0}) (Unit {0})
unfolding add_property
added = (add_property 1 0 before).1

add_property-IsIndexed_example :
    IsIndexed added 1
    × ((add_property 1 0 before).0 ≡ ok success)
    × (((add_property 1 0 before).0 ≡ ok success) → Among 0 (added.node 1).collection)
unfolding added Map.lookup Map.insert Map.empty
add_property-IsIndexed_example = add_property-IsIndexed 1 0 before indexed

abbrev most : ℕ → Wrapper (Unit {0}) (Unit {0})
most n = record { name = "most"; access = property_inout; value = ulong n }

-- The property 4 has the name of the property 3 of the structure 1, and another value.
abbrev with_argument : Store (Unit {0}) (Unit {0})
with_argument = put 4 (wrapper (most 9)) before

set_property-uncopied_example :
    set_property 1 (some 4) with_argument ≡ (ok success, put 3 (wrapper (most 7)) with_argument)
unfolding at Map.lookup Map.insert Map.empty
set_property-uncopied_example =
    set_property-uncopied 1 4 3 with_argument (most 9) (most 7) refl refl refl refl refl refl refl
      refl

get-sets_example :
    get {F = Unit {0}} {D = Unit {0}} integer_type 0
      (sets ((0, integer (pos 5)) ∷ []) (create_instance (some "n") 1 property_inout))
    ≡ ok none
get-sets_example =
    get-sets (some "n") 1 0 property_inout ((0, integer (pos 5)) ∷ []) integer_type tt
