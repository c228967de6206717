-- ===== src/Tests.antt =====
-- The theorems at concrete inputs, by the parts of the program.
mod Routing
mod Store
mod Listeners
mod Filtering
mod Serving
mod Starting
mod Proxying
mod Forwarding
