-- ===== src/Tests.antt =====
-- Tests and examples: concrete inputs on which the definitions run and the theorems apply.
mod Data
mod Config
mod Streams
mod Names
mod Values
mod Session
mod Listings
mod Exports
