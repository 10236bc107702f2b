-- ===== src/Panels/Movers.antt =====
-- frontend/src/presentation/components/terminal/Movers.tsx, with the bars of Watchlist.tsx and the items
-- of TickerTape.tsx beside it.
use crypto_dashboard.Prelude.{
  ℕ, zero, suc, ◌-◌, ◌/◌, String, Bool, true, false, not, ◌||◌, ltb, max, Option, none, some, List,
  [], ◌∷◌, ◌++◌, map, if◌then◌else◌, length, take, drop,
}
use crypto_dashboard.Prelude.Maps.{lookup}
use crypto_dashboard.Prelude.Sort.{filter, sort}
use crypto_dashboard.Numbers.{Num, abs_of, lt_of, or_nonzero, is_truthy}
use crypto_dashboard.Numbers.Extents.{lowest, highest}
use crypto_dashboard.Price.{CoinMeta}
use crypto_dashboard.Format.{NumberTexts, usd, pct, compact, dir_color}

abbrev pub is_some {ℓ} : {A : Type ℓ} → Option A → Bool
is_some none = false
is_some (some a) = true

pub record Row : Type 0 where
  pub symbol : String
  pub last : String
  pub color : String
  pub change : String
  pub volume : String
  pub cap : String

pub record TapeItem {ℓ} (A : Type ℓ) : Type ℓ where
  pub sym : String
  pub price : String
  pub chg : A

module _ {ℓ} {A : Type ℓ} ⦃n : Num A⦄ where
  -- `c.change24h as number`, of a coin that has one.
  abbrev pub change_of : Option A → A
  change_of none = n.of_ℕ 0
  change_of (some a) = a

  abbrev pub has_change : CoinMeta A → Bool
  has_change c = is_some c.change_24h

  -- `(a, b) => Math.abs(b.change24h) - Math.abs(a.change24h)`
  unfoldable pub moves_more : CoinMeta A → CoinMeta A → Bool
  moves_more a b = not (lt_of (abs_of (change_of a.change_24h)) (abs_of (change_of b.change_24h)))

  unfoldable pub movers : List (CoinMeta A) → List (CoinMeta A)
  unfolding filter sort moves_more
  movers coins = take 14 (sort moves_more (filter has_change coins))

  -- `value ? compact(value) : "—"`
  abbrev pub or_dash : NumberTexts A → Option A → String
  or_dash t none = "—"
  or_dash t (some a) = if is_truthy a then compact t a else "—"

  abbrev pub price_text : NumberTexts A → Option A → String
  price_text t none = "—"
  price_text t (some a) = usd t a

  unfoldable pub row_of : NumberTexts A → List (String × A) → CoinMeta A → Row
  row_of t live c = record {
    symbol = c.symbol;
    last = price_text t (lookup c.symbol live);
    color = dir_color t (change_of c.change_24h);
    change = pct t (change_of c.change_24h);
    volume = or_dash t c.volume_24h;
    cap = or_dash t c.market_cap;
  }

  -- The loop `for (let i = 0; i < series.length; i += step)`, on the rest of the series; `wait` entries are
  -- skipped before the next one is taken.
  unfoldable pub sampled : ℕ → ℕ → List A → List A
  sampled step wait [] = []
  sampled step zero (a ∷ series) = a ∷ sampled step (step - 1) series
  sampled step (suc wait) (a ∷ series) = sampled step wait series

  -- `pts.slice(-24)`
  abbrev pub tail_of : List A → List A
  tail_of pts = drop (length pts - 24) pts

  -- The height of a bar between the least value and the greatest.
  abbrev pub bar : A → A → A → A
  bar mn mx v =
      let span = or_nonzero (n.sub mx mn) (n.of_ℕ 1) in
      n.add (n.of_ℕ 12) (n.mul (n.div (n.sub v mn) span) (n.of_ℕ 88))

  unfoldable pub bars_of : List A → List A
  unfolding sampled
  bars_of series =
      let tail = tail_of (sampled (max 1 (length series / 24)) 0 series) in
      map (bar (lowest tail) (highest tail)) tail

  unfoldable pub bars : Option (List A) → List A
  unfolding bars_of
  bars none = []
  bars (some series) = if ltb (length series) 2 then [] else bars_of series

  -- The items of the tape; the strip shows them twice.
  unfoldable pub tape_items :
      NumberTexts A → List (String × A) → List (CoinMeta A) → List (TapeItem A)
  unfolding filter
  tape_items t live coins =
      map
        (λ (c : CoinMeta A). record {
          sym = c.symbol;
          price = price_text t (lookup c.symbol live);
          chg = change_of c.change_24h;
        })
        (filter (λ (c : CoinMeta A). is_some (lookup c.symbol live) || is_some c.change_24h) coins)

  unfoldable pub tape_run :
      NumberTexts A → List (String × A) → List (CoinMeta A) → List (TapeItem A)
  unfolding tape_items
  tape_run t live coins = tape_items t live coins ++ tape_items t live coins
