-- ===== src/Balancer.antt =====
-- The load balancer, src/astrameter/ct002/balancer.py.
pub mod State
pub mod Config
pub mod Quality
pub mod Control
pub mod Saturation
pub mod Pool
pub mod Order
pub mod Probe
pub mod Rotation
pub mod Active
pub mod Shares
pub mod Limits
pub mod Pace
pub mod Steer
pub mod Correction
pub mod Residual
pub mod MinPower
pub mod Headroom
pub mod Handoff
pub mod Target
pub mod Spill
