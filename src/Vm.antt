-- ===== src/Vm.antt =====
-- src/vm.rs: the objects of the VM and the builder of its scripts.
pub mod Code
pub mod Object
pub mod Script
