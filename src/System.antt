-- ===== src/System.antt =====
-- The processes together: the steps that they make on the shared memory, and the states reached.
pub mod Steps
pub mod Frame
pub mod Safety
pub mod Turns
pub mod ValidatorEnd
pub mod Bag
pub mod Sendable
pub mod EndToEnd
pub mod Overwrite
