-- ===== src/Hooks.antt =====
-- frontend/src/presentation/hooks: the state that the components share. A hook is a record of its state
-- and references, with one function for each effect, callback and timer.
pub mod LivePrices
pub mod LiveCandles
pub mod PriceFlash
pub mod TickRate
pub mod AllSeries
pub mod Coins
pub mod Fetched
pub mod LocalState
pub mod Tests
