-- ===== src/Tests.antt =====
-- Runs of the model on small inputs, and each theorem with hypotheses at an input that meets them.
mod Dom
mod Manager
mod Failures
mod Document
mod Aliases
mod Resolution
mod Threading
mod Depth
mod Nodes
mod Collection
mod Component
mod Registry
mod Paths
mod Modules
mod Depths
mod Libraries
mod Configurables
mod Properties
