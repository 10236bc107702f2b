-- ===== src/Panels.antt =====
-- The panels of the dashboard that rank the coins or draw their stored prices, each a child: the code
-- that chooses and places what is shown. They stand in frontend/src/presentation/components.
pub mod Movers
pub mod Risk
pub mod Pulse
pub mod Heatmap
pub mod Icons
pub mod Lines
pub mod Top
pub mod Largest
pub mod Compared
pub mod Tiles
pub mod Tests
