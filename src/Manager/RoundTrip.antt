-- ===== src/Manager/RoundTrip.antt =====
-- That src/PropertyManager.cpp reads back what it wrote.
pub mod Shape
pub mod Values
pub mod Elements
pub mod Single
pub mod Many
pub mod Vector
pub mod Below
pub mod Parameter
pub mod Structure
pub mod Component
pub mod Document
pub mod Whole
