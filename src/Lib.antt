-- ===== src/Lib.antt =====
-- The price terminal's front end (frontend/src), as a library of verified models.
--
-- The program shows live and historical prices of crypto coins. Two sockets bring prices: the
-- backend's, one batch for each of its polls, and an exchange's, one message for each trade, which
-- is held back and given to the page once a frame. A composite passes both on to the page, whose
-- components fold trades into candles, compute indicators, lay out a map of the market, compare
-- coins and evaluate the user's alerts. A hold switch stops the deliveries of both sockets.
--
-- The files and the code they model:
--   Prelude and its children: shared names, lists over native numbers, integers, and the parts of
--     JavaScript's Map and Set that the program uses. Prelude.Sort has filter and the stable sort.
--   Numbers: JavaScript's `number` as an interface of operations (Num), with the laws a theorem may
--     ask for: an order on finite values (IsOrdered), exact sums (IsGroup), exact weights (IsExact), the sign rules
--     (IsSigned). Clamps and Order draw what follows from them. Integers and Amounts (integers with
--     NaN) implement the interface, for runs and witnesses. Numbers.Extents has Math.min and
--     Math.max of a list.
--   Texts: the text operations the program uses; upper and lower case are those of ASCII letters.
--   Candles: frontend/src/domain/candles.ts. foldTick is fold_tick; the branches on the open bucket
--     are fold_into. Children: Series (order of buckets, ranges), Bucket (contents).
--   Indicators: frontend/src/domain/indicators.ts, under the source's names. Children: Alignment,
--     Averages, Exponential, Strength, Spread.
--   Correlation: frontend/src/domain/correlation.ts. pearson, and correlationMatrix as
--     correlation_matrix, its two loops as fill_rows and fill_row over a matrix written in place.
--     Children: Coefficient, Matrix.
--   Treemap: frontend/src/domain/treemap.ts. squarify; its outer loop is lay_rows and its inner
--     loop grow. Children: Rows, Layout.
--   Price: frontend/src/domain/price.ts. Price.Colors has colorForSymbol and nameForSymbol.
--   FeedGate: frontend/src/infrastructure/websocket/feed-gate.ts, with the calls of listeners as a
--     list of results.
--   Stream: the price streams. Stream.Source is the port
--     frontend/src/application/ports/price-stream.ts as a state machine with laws; Stream.Backend
--     is frontend/src/infrastructure/websocket/websocket-price-stream.ts and Stream.Binance is
--     binance-price-stream.ts beside it, one function for each callback on a record of the
--     closure's variables; the Life children have the step relations, any callback at any time, and
--     the invariants; Stream.Held is about runs under hold. Stream.Composite is
--     composite-price-stream.ts, and Stream.Composite.Adapters the streams of
--     frontend/src/infrastructure/container.ts.
--   Alerts: frontend/src/presentation/components/PriceAlerts.tsx, the state (the list of alerts and
--     the fired ids) and its handlers. Children: Rounds, Arming, Desks.
--   Gateway: frontend/src/infrastructure/dto/price-dto.ts. Gateway.Http is
--     frontend/src/infrastructure/http/http-price-gateway.ts over what `fetch` gives for an
--     address, with the port, the use cases of frontend/src/application and the api of the
--     container.
--   CloudSync: frontend/src/infrastructure/auth/cloud-sync.ts. Children: Session, Settings.
--   Portfolio: frontend/src/presentation/components/PortfolioPL.tsx, the rows, the totals and the
--     handlers. Child: Sums.
--   Market: frontend/src/presentation/components/terminal/Breadth.tsx and KpiStrip.tsx, and the
--     ring of frontend/src/presentation/components/MarketOverview.tsx. Children: Cover, Breadth.
--   Observability: frontend/src/presentation/components/terminal/prometheus.ts. Children: Choice;
--     Exposition, its parser of the text format (parseExposition), whose own children write samples
--     and read them back; and Panel, frontend/src/presentation/components/ObservabilityPanel.tsx,
--     the loads of the page.
--   Config: frontend/src/infrastructure/config.ts.
--   Format: frontend/src/presentation/components/terminal/format.ts and the formats of compact
--     numbers in other components.
--   Panels: the rankings and the maps of the market, in frontend/src/presentation/components:
--     Movers (terminal/Movers.tsx, Watchlist.tsx and TickerTape.tsx), Pulse (MarketPulse.tsx), Risk
--     (VolatilityRank.tsx, RiskReturnScatter.tsx, CorrelationMatrix.tsx), Heatmap
--     (MarketHeatmap.tsx, over Treemap), Icons (CoinIcon.tsx, PriceOverview.tsx, MarketStatus.tsx)
--     and Lines (Sparkline.tsx, terminal/MarketHero.tsx). Compared, Largest, Top and Tiles have
--     what they prove.
--   Charts: frontend/src/presentation/components/RealtimeChart.tsx as Realtime,
--     CandlestickChart.tsx as Candlestick (over Indicators), MultiCoinChart.tsx as Relative and
--     CoinDetail.tsx as CoinPage. Window, Range and Overlay have what they prove.
--   Cards: frontend/src/presentation/components/PriceCards.tsx. Child: Favorites.
--   Clocks: frontend/src/presentation/components/WorldClocks.tsx. Child: Choice.
--   Account: frontend/src/presentation/components/AccountPanel.tsx, LoginGate.tsx and
--     terminal/AuthCell.tsx, the clients of CloudSync; a handler is a chain of calls, each given
--     the reply to its request. Children: Calls, Door.
--   Export: frontend/src/presentation/components/DataExport.tsx, the downloads as values. Child:
--     Busy.
--   Terminal: frontend/src/presentation/components/terminal/Terminal.tsx, the shell over FeedGate.
--     Children: Hold; Page, the shell together with the streams of Stream.Composite.Adapters.
--   Hooks: frontend/src/presentation/hooks, a child for each hook; Hooks.Fetched is usePrices.ts
--     and useExtremes.ts. A hook is a record of its state and references, with one function for
--     each effect, callback and timer, and the children of a hook have what they prove.
--
-- Fuel: lay_rows has one unit for each weight; each round of its loop lays out at least one cell,
-- so it never runs out, which the theorem on the layout states. All other loops are structural.
--
-- Parameters of the model: what JSON.parse makes of a frame (a value, or none where it throws), the
-- symbols that the exchange adapter's constructor is given, the address of the exchange, `Number`
-- on a text, Math.round, Math.floor and Math.pow, `new Date` and toISOString, toFixed and
-- toLocaleString, localeCompare, JSON.stringify, fresh ids, the clock of a time zone, the library
-- that writes workbooks, and what a request comes to. The browser's storage takes every write, but
-- for the hook of stored state. Times are whole milliseconds. A text is a list of character numbers
-- where it is taken apart. A sort by a comparison that contradicts itself, which NaN can make, is
-- the one by insertion.
--
-- Not modelled: React's rendering and styling, what a chart's library draws, rounding in
-- floating-point arithmetic (a theorem that asks for exact sums is about the formula), and the Rust
-- service under src/.
pub mod Prelude
pub mod Config
pub mod Numbers
pub mod Candles
pub mod Indicators
pub mod Texts
pub mod Price
pub mod FeedGate
pub mod Format
pub mod Panels
pub mod Stream
pub mod Alerts
pub mod Correlation
pub mod Treemap
pub mod Gateway
pub mod Hooks
pub mod CloudSync
pub mod Clocks
pub mod Account
pub mod Export
pub mod Charts
pub mod Cards
pub mod Terminal
pub mod Portfolio
pub mod Market
pub mod Observability
