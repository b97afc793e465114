-- ===== src/Tests.antt =====
-- The theorems at concrete inputs.
mod World
mod Passes
mod Objects
mod Slots
mod Gates
mod Cookies
mod Terminals
mod Client
mod Doors
mod Mounts
mod Removal
mod Beats
mod Routes
