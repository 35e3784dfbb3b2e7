-- ===== src/Tests.antt =====
-- Concrete runs of the program: theorems applied to them, and what the definitions compute.
mod Data
mod Db
mod Pipeline
mod Steps
mod Http
mod Visualization
mod Storage
mod Config
mod Runs
mod Command
mod Clients
mod Uploaded
