-- ===== src/Export.antt =====
-- c/driver.go and c/utils.c: the driver's C interface.
pub mod Errors
pub mod Options
pub mod Table
pub mod Streams
pub mod World
pub mod Databases
pub mod Connections
pub mod Statements
pub mod Poisoned
pub mod Closed
pub mod Closing
pub mod Opening
pub mod Contexts
