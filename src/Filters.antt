-- ===== src/Filters.antt =====
-- The filters around a power meter, src/astrameter/powermeter/wrappers. The reading of the meter that
-- a filter wraps is an argument, as is the clock's.
pub mod Hampel
pub mod Smoothing
pub mod Pid
pub mod Transform
