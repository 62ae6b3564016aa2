-- ===== src/Manager.antt =====
-- src/PropertyManager.cpp
pub mod Platform
pub mod Configure
pub mod Serialize
pub mod RoundTrip
pub mod Again
pub mod Errors
pub mod Branches
pub mod Paths
pub mod Ends
pub mod Finishes
