-- ===== src/Panels/Heatmap.antt =====
-- frontend/src/presentation/components/MarketHeatmap.tsx: the coins as tiles of a map of the market, and
-- what of a tile is drawn.
use crypto_dashboard.Prelude.{
  ℕ, not, ◌&&◌, ◌||◌, Bool, Option, none, some, List, [], ◌∷◌, map, if◌then◌else◌, length,
}
use crypto_dashboard.Prelude.Sort.{filter, sort}
use crypto_dashboard.Numbers.{Num, abs_of, lt_of, max_of, min_of, ratio_of}
use crypto_dashboard.Texts.{codes}
use crypto_dashboard.Price.{CoinMeta}
use crypto_dashboard.Treemap.{TreemapRect, squarify}
use crypto_dashboard.Panels.Pulse.{or_zero}
use crypto_dashboard.Panels.Risk.{Rgb, mix_color}

pub data SizeBy : Type 0 where
  mcap vol : SizeBy

-- A coin with its rectangle, `none` where `rects[i]` is undefined.
pub record Tile {ℓ} (A : Type ℓ) : Type ℓ where
  pub meta : CoinMeta A
  pub rect : Option (TreemapRect A)

-- What is drawn of a tile: a rectangle, and perhaps the symbol and the change.
pub record Drawn {ℓ} (A : Type ℓ) : Type ℓ where
  pub box : TreemapRect A
  pub symbol_size : A
  pub with_symbol : Bool
  pub with_change : Bool

module _ {ℓ} {A : Type ℓ} ⦃n : Num A⦄ where
  unfoldable pub tile_color : (A → A → A) → (A → A) → Option A → Rgb A
  tile_color power round none = record { red = n.of_ℕ 24; green = n.of_ℕ 26; blue = n.of_ℕ 29 }
  tile_color power round (some change) =
      if n.eq change change
      then mix_color round
          (power (min_of (n.div (abs_of change) (n.of_ℕ 8)) (n.of_ℕ 1)) (ratio_of 65 100))
          (n.le (n.of_ℕ 0) change)
      else record { red = n.of_ℕ 24; green = n.of_ℕ 26; blue = n.of_ℕ 29 }

  -- `weightOf(m) ?? 0`
  unfoldable pub weight_of : SizeBy → CoinMeta A → A
  weight_of mcap m = or_zero m.market_cap
  weight_of vol m = or_zero m.volume_24h

  unfoldable pub has_weight : SizeBy → CoinMeta A → Bool
  unfolding weight_of
  has_weight size_by m = lt_of (n.of_ℕ 0) (weight_of size_by m)

  unfoldable pub weighs_more : SizeBy → CoinMeta A → CoinMeta A → Bool
  unfolding weight_of
  weighs_more size_by a b = not (lt_of (weight_of size_by a) (weight_of size_by b))

  unfoldable pub eligible : SizeBy → List (CoinMeta A) → List (CoinMeta A)
  unfolding filter sort has_weight weighs_more
  eligible size_by coins = sort (weighs_more size_by) (filter (has_weight size_by) coins)

  -- `Math.max(320, Math.floor(w))`, and the height that goes with a width.
  abbrev pub width_for : (A → A) → A → A
  width_for floor w = max_of (n.of_ℕ 320) (floor w)

  abbrev pub height_for : (A → A) → A → A
  height_for round width =
      round (min_of (n.of_ℕ 560) (max_of (n.of_ℕ 300) (n.mul width (ratio_of 42 100))))

  -- `eligible.map((meta, i) => ({ meta, rect: rects[i] }))`
  unfoldable pub paired : List (CoinMeta A) → List (TreemapRect A) → List (Tile A)
  paired [] rects = []
  paired (m ∷ ms) [] = record { meta = m; rect = none } ∷ paired ms []
  paired (m ∷ ms) (r ∷ rects) = record { meta = m; rect = some r } ∷ paired ms rects

  abbrev pub pair_all : List (CoinMeta A) → Option (List (TreemapRect A)) → Option (List (Tile A))
  pair_all ms none = none
  pair_all ms (some rects) = some (paired ms rects)

  -- `none` says that the layout has run out of fuel.
  unfoldable pub tiles : SizeBy → A → A → List (CoinMeta A) → Option (List (Tile A))
  unfolding eligible weight_of paired squarify
  tiles size_by width height coins =
      let chosen = eligible size_by coins in
      pair_all chosen (
        squarify (map (weight_of size_by) chosen)
          record { x = n.of_ℕ 0; y = n.of_ℕ 0; w = width; h = height })

  abbrev pub inset : TreemapRect A → TreemapRect A
  inset r = record {
    x = n.add r.x (n.of_ℕ 1);
    y = n.add r.y (n.of_ℕ 1);
    w = max_of (n.of_ℕ 0) (n.sub r.w (n.of_ℕ 2));
    h = max_of (n.of_ℕ 0) (n.sub r.h (n.of_ℕ 2));
  }

  -- `showSym` and `showChg`, on the inset rectangle.
  abbrev pub draw_box : ℕ → TreemapRect A → Drawn A
  draw_box symbol_length box =
      let short = min_of box.w box.h in
      let symbol_size =
        max_of (n.of_ℕ 9)
          (min_of (n.of_ℕ 26) (n.div (n.sqrt (n.mul box.w box.h)) (ratio_of 55 10))) in
      let with_symbol =
        lt_of (n.of_ℕ 22) short
        && lt_of (n.mul symbol_size (n.mul (n.of_ℕ symbol_length) (ratio_of 7 10))) box.w in
      record {
        box = box;
        symbol_size = symbol_size;
        with_symbol = with_symbol;
        with_change = with_symbol && lt_of (n.of_ℕ 40) short;
      }

  -- A tile thinner than two pixels is not drawn.
  unfoldable pub draw_tile : CoinMeta A → TreemapRect A → Option (Drawn A)
  draw_tile m r =
      let box = inset r in
      if lt_of box.w (n.of_ℕ 2) || lt_of box.h (n.of_ℕ 2)
      then none
      else some (draw_box (length (codes m.symbol)) box)
