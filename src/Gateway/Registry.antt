-- ===== src/Gateway/Registry.antt =====
-- The coins that the application sees, and what it tells the exchange's adapter.
use crypto_dashboard.Prelude.{
  ap, ◌≡◌, refl, String, ℕ, Option, none, some, List, [], ◌∷◌, map, All, if◌then◌else◌, Bool-cases,
  inl, inr,
}
use crypto_dashboard.Texts.{upper, ◌<>◌}
use crypto_dashboard.Texts.Laws.{upper_idem}
use crypto_dashboard.Price.{CoinMeta}
use crypto_dashboard.Price.Colors.{color_for_symbol}
use crypto_dashboard.Gateway.{CoinMetaDto, to_coin_meta}
use crypto_dashboard.Gateway.Http.{
  Reply, unreachable, response, Outcome, value, status_error, fetch_error, json_error, is_ok,
  receive, Server, http_gateway, api, symbols_of,
}

module _ {ℓ} {A : Type ℓ} where
  -- A coin's symbol is upper-case, and its colour is the one of the symbol.
  abbrev pub IsRegistered : CoinMeta A → Type 0
  IsRegistered c = (upper c.symbol ≡ c.symbol) × (c.color ≡ color_for_symbol c.symbol)

  map-IsRegistered : (dtos : List (CoinMetaDto A)) → All IsRegistered (map to_coin_meta dtos)
  unfolding to_coin_meta
  map-IsRegistered [] = tt
  map-IsRegistered (dto ∷ dtos) = ((upper_idem dto.symbol, refl), map-IsRegistered dtos)

  -- A list of coins, if the call ends with one.
  abbrev pub listed : Outcome (List (CoinMeta A)) → List (CoinMeta A)
  listed (value coins) = coins
  listed (status_error name status) = []
  listed fetch_error = []
  listed json_error = []

  receive-IsRegistered :
      (reply : Reply (List (CoinMetaDto A)))
      → All IsRegistered (listed (receive "coins" (map to_coin_meta) reply))
  unfolding receive
  receive-IsRegistered unreachable = tt
  receive-IsRegistered (response status none) = elim (Bool-cases (is_ok status)) [
    | inl fine ↦ rw fine tt
    | inr refused ↦ rw refused tt
  ]
  receive-IsRegistered (response status (some dtos)) = elim (Bool-cases (is_ok status)) [
    | inl fine ↦ rw fine (map-IsRegistered dtos)
    | inr refused ↦ rw refused tt
  ]

  -- Whatever the backend sends, every coin of the application has an upper-case symbol and the colour of
  -- that symbol.
  pub coins-IsRegistered :
      (date : String → ℕ) (number : String → A) (server : Server A)
      → All IsRegistered (listed (api (http_gateway date number server)).coins)
  unfolding api http_gateway
  coins-IsRegistered date number server =
      receive-IsRegistered (server.coins (server.base <> "/api/coins"))

  -- The symbols of a reply to the coin request, read from the reply itself.
  abbrev pub coin_symbols : Reply (List (CoinMetaDto A)) → Option (List String)
  coin_symbols unreachable = none
  coin_symbols (response status none) = none
  coin_symbols (response status (some dtos)) =
      if is_ok status then some (map (λ (d : CoinMetaDto A). upper d.symbol) dtos) else none

  map-symbols :
      (dtos : List (CoinMetaDto A))
      → map (λ (c : CoinMeta A). c.symbol) (map to_coin_meta dtos)
        ≡ map (λ (d : CoinMetaDto A). upper d.symbol) dtos
  unfolding to_coin_meta
  map-symbols [] = refl
  map-symbols (d ∷ dtos) = ap (◌∷◌ (upper d.symbol)) (map-symbols dtos)

  symbols_of-receive :
      (reply : Reply (List (CoinMetaDto A)))
      → symbols_of (receive "coins" (map to_coin_meta) reply) ≡ coin_symbols reply
  unfolding receive
  symbols_of-receive unreachable = refl
  symbols_of-receive (response status none) = elim (Bool-cases (is_ok status)) [
    | inl fine ↦ rw fine refl
    | inr refused ↦ rw refused refl
  ]
  symbols_of-receive (response status (some dtos)) = elim (Bool-cases (is_ok status)) [
    | inl fine ↦ rw fine (ap some (map-symbols dtos))
    | inr refused ↦ rw refused refl
  ]

  -- The exchange's adapter is given symbols exactly if the backend answers the coin request with a status
  -- from 200 to 299 and a JSON list, and then the upper-case symbol of each coin of the list, in order;
  -- any other reply is a rejection.
  pub symbols_from_backend :
      (date : String → ℕ) (number : String → A) (server : Server A)
      → symbols_of (api (http_gateway date number server)).coins
        ≡ coin_symbols (server.coins (server.base <> "/api/coins"))
  unfolding api http_gateway
  symbols_from_backend date number server =
      symbols_of-receive (server.coins (server.base <> "/api/coins"))
