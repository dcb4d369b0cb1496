-- ===== src/Tests.antt =====
-- Runs of the model on concrete inputs, and the theorems applied at them.
mod Keys
pub mod Bindings
pub mod Release
pub mod Site
pub mod Catalogue
pub mod Execution
mod Running
mod Server
mod Portfolio
mod Contract
mod Hashing
