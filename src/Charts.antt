-- ===== src/Charts.antt =====
-- The charts of the dashboard, each a child: frontend/src/presentation/components/RealtimeChart.tsx,
-- CandlestickChart.tsx and MultiCoinChart.tsx. What of the prices is drawn, and where.
pub mod Realtime
pub mod Candlestick
pub mod Relative
pub mod CoinPage
pub mod Window
pub mod Range
pub mod Overlay
pub mod Tests
