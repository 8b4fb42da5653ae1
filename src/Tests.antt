-- ===== src/Tests.antt =====
-- Tests and instances of the theorems, a child for each part.
mod Web
mod Database
mod Adapter
mod Creation
mod Cache
mod Events
mod Settings
mod Loop
mod Storage
mod Client
mod Loadgen
mod Config
mod Queue
mod Worker
mod Domain
mod Faults
mod Gallery
