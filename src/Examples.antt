-- ===== src/Examples.antt =====
-- The theorems at concrete inputs: samples of the structures, and each theorem applied to them.
mod Samples
mod Sections
mod Tables
mod Text
mod Stream
mod Input
mod Thread
mod Broadcast
mod Startup
mod Config
mod Output
