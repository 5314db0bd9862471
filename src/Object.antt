-- ===== src/Object.antt =====
-- object and util/guid: what an update message says of the objects, and what is made of it.
pub mod DataStore
pub mod Types
pub mod Fields
pub mod ClientObject
pub mod Mirror
pub mod Storage
pub mod Manager
pub mod Update
pub mod Guid
pub mod Movement
pub mod Spline
pub mod Create
pub mod Tests
