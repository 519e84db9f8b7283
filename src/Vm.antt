-- ===== src/Vm.antt =====
-- gpl/vm/vm.go: the stack machine for contracts, with gas.
pub mod Types
pub mod Words
pub mod Contract
pub mod Codes
pub mod Memory
pub mod Stack
pub mod Regions
pub mod World
pub mod Loop
mod Arity
mod Arities
mod Frame
mod Effect
mod Steady
mod Landing
mod Gas
mod Executed
mod Padded
mod Stored
mod Deep
pub mod Abi
pub mod Codec
mod Tests
