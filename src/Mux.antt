-- ===== src/Mux.antt =====
-- dvb2dvb.c: the streams of the services, and the multiplex that is made of them.
pub mod Continuity
pub mod Pcr
pub mod Capacity
pub mod Curl
pub mod Startup
pub mod Input
pub mod Schedule
pub mod Round
pub mod Thread
