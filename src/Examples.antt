-- ===== src/Examples.antt =====
-- Concrete instances, files and runs, at which the theorems apply.
mod Data
mod Operations
mod Files
mod Guests
mod Configs
mod Devices
mod Records
mod Keys
mod Messages
mod Plugs
mod Unplugs
