-- ===== src/Demo.antt =====
-- example/06-demo-app: the demo application and its load generator.
pub mod Store
pub mod Fib
pub mod App
pub mod Book
pub mod Refinement
pub mod Load
pub mod Generated
