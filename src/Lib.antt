-- ===== src/Lib.antt =====
-- A model of XPCF, a C++ framework of components that are created and injected through a factory, and
-- theorems about it.
--
-- The parts. A registry says which module holds a component and which interfaces it implements
-- (src/Registry.cpp); an alias manager gives names to uuids (src/AliasManager.cpp); the factory binds
-- interfaces to components, and makes, injects and configures them (src/Factory.cpp). Components and
-- applications share buffers between threads (interfaces/xpcf/threading). Components have properties
-- (src/Property.cpp, src/PropertyMap.cpp), which a property manager writes to XML files and configures
-- from them (src/PropertyManager.cpp).
--
-- Which file models what:
-- - Base.antt and its children are the shared names, tests and list lemmas; Map.antt is std::map and
--   mapContains (interfaces/xpcf/core/helpers.h); Exec.antt has the exceptions and the methods that
--   change an object and may throw, with processXmlNode (interfaces/private/xpcf/tinyxmlhelper.h);
--   Xml.antt is what the code reads of tinyxml2 and of boost's uuids, as a parameter.
-- - Alias.antt is AliasManager: addAlias is add_alias, declareAliasNode is declare_alias_node, and so
--   on. Alias/Laws.antt and Alias/Nodes.antt are its proofs.
-- - Factory.antt has FactoryBindInfos, FactoryContext and the fields of Factory; Factory/Bind.antt
--   and Factory/Bind/Overloads.antt the overloads of bind; Factory/Lookup.antt the two resolveBind; Factory/Resolve.antt resolve,
--   resolveAll, resolveComponent and inject; Factory/Nodes.antt the XML nodes that declareFactory reads.
--   The children of each are its proofs.
-- - Registry.antt is Registry with the metadata of modules and components (src/Registry.cpp,
--   src/ModuleMetadata.cpp, src/ComponentMetadata.cpp); Registry/Nodes.antt is declareModule,
--   declareComponent and declareInterfaceNode, on XML nodes.
-- - Collection.antt is Collection, Enumerator and BlockEnumerator (interfaces/xpcf/collection);
--   Component.antt is ComponentBase (src/ComponentBase.cpp), the interfaces, injectables and references
--   of a component.
-- - Property.antt has the types of IProperty.h. Property/Wrapper.antt is PropertyWrapper and
--   Property/Sequence.antt PropertySequenceWrapper (interfaces/private/xpcf), Property/Variant.antt
--   Property (src/Property.cpp); Property/Store.antt is IProperty over the three, with the memory that
--   holds the objects, and copyTo; Property/Maps.antt is PropertyMap (src/PropertyMap.cpp);
--   Property/Numerals.antt is std::to_string and std::stoll of the C++ library, base prefixes included.
-- - Manager/Configure.antt is configure of src/PropertyManager.cpp with configureValue,
--   configureProperty and configureElement; Manager/Serialize.antt is serialize with
--   serializeParameter; Manager/Paths.antt is declareConfiguration, declareProperties and
--   getConfigPath. Manager/Platform.antt is what they call of tinyxml2, boost's uuids and the numbers
--   with a point. Manager/RoundTrip.antt and its children are the proof that a file is read back.
-- - Configurable.antt is ConfigurableBase (src/ConfigurableBase.cpp), which declares properties and calls
--   the property manager; onConfigured of the component is a parameter.
-- - Library.antt is loadLibrary (src/Factory.cpp), which reads a file into the registry, the aliases, the
--   bindings and the paths of the properties.
-- - Threading/Buffer.antt has the calls that SharedFifo.h gives to every buffer, Threading/Fifo.antt
--   SharedFifo and SharedLifo, Threading/Drop.antt DropBuffer, Threading/Circular.antt
--   SharedCircularBuffer and Threading/Bounded.antt SharedBuffer; Threading/Queue.antt is what they promise. The children are the proofs.
-- - Tests.antt and its children run the model and apply the theorems.
--
-- State and effects. An object is a record and a method returns the new record beside its result or
-- its exception, so what was written before a throw stays written. The objects that the factory makes
-- are numbered, and what is done to them is kept as a list of events. A uuid is a number, since the
-- code only compares uuids. Log lines and the texts of messages are left out.
--
-- Bounds. resolveComponent calls inject, which calls resolve, which calls resolveComponent: the model
-- counts these nested calls down from a number and throws no_fuel at zero, where the program would go
-- on. The other theorems about a resolution hold for every such number; resolve-Ends says which number
-- is enough: components that can be ranked above all they may be injected with need one more than the
-- rank. Components that depend on themselves have no rank, and the program does not return for them.
-- serialize and configure call themselves for the structures in structures: they are counted in the
-- same way, and serialize_map-Ends and configure_element-Ends say which numbers are enough: more than
-- the depth of the structures, or of the elements; where serialize has written a file with some number,
-- configure reads it with the same one. A long has 64 bits, as on
-- Linux and macOS, so std::stol is std::stoll.
-- The counts of the buffers are numbers without a bound, since they count elements in memory.
--
-- Threads. What threads do to a buffer is a sequence of calls, each of them one step; a thread that must
-- wait ends its call as blocked and makes it again when it is woken. push, back, pop and tryPop run under
-- the mutex of the buffer. release, clear, empty and size do not take it, so that they are one step here
-- though the program may run them in the middle of another call; for_each, the copies of a buffer and
-- the notifications are left out. The results of try_lock and of a timed wait are part of the call.
--
-- Properties. An object is its address in a store, which two maps may share. A variable that a
-- component wraps is kept inside its wrapper: nobody else changes it during a call. Floats and doubles
-- are any two types with their conversions to and from text; a wide text is a text. The laws of
-- Manager/Platform.antt are what tinyxml2 documents of elements in memory: an element that is
-- made is empty, what is set is found, and a child that is inserted is the last. SaveFile is a
-- parameter too: whether it succeeds and what a LoadFile of the path finds afterwards. tinyxml2 does not
-- load every document as it was saved (a text of white space only is dropped), so the theorems that read
-- a file back ask for it as a hypothesis on the document in question.
--
-- Not modelled. The components' own code and their modules are the parameter Components of
-- Factory/Resolve.antt: which class a create function makes, which injectables and interfaces it has,
-- how its onInjected ends, and
-- how it is configured; that this code calls the factory again is left out. A create function that returns a null pointer, the reference counts of the
-- pointers and threads outside the buffers are left out, and so are log lines. Walking through folders
-- and loading modules (src/PathBuilder.cpp, src/ModuleManager.cpp, load of src/Factory.cpp and
-- src/Registry.cpp) are calls of boost and of the system; the path of a module is not kept. The contexts
-- that two factories share (createNewFactoryContext), the tasks (src/BaseTask.cpp), MultiConsumer, the
-- generators (tools/generators/grpc) and remoting are left out. tinyxml2 is another project's
-- code.
pub mod Base
pub mod Map
pub mod Exec
pub mod Xml
pub mod Alias
pub mod Factory
pub mod Collection
pub mod Component
pub mod Registry
pub mod Property
pub mod Manager
pub mod Configurable
pub mod Library
pub mod Threading
pub mod Tests
