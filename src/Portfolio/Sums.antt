-- ===== src/Portfolio/Sums.antt =====
-- The totals are those of the rows.
use crypto_dashboard.Prelude.{◌≡◌, refl, sym, ap, ◌∙◌, String, List, [], ◌∷◌, map}
use crypto_dashboard.Numbers.{Num, IsGroup, sum, sum_from}
use crypto_dashboard.Portfolio.{Holding, Row, row_of, rows, totals}

module _ {ℓ} {A : Type ℓ} ⦃n : Num A⦄ (laws : IsGroup A)
    (sub_add : (a b : A) → n.add (n.sub a b) b ≡ a) where
  open laws use {add_assoc, add_comm, zero_add, add_sub}

  add_exchange : (a b c d : A) → n.add (n.add a b) (n.add c d) ≡ n.add (n.add a c) (n.add b d)
  add_exchange a b c d =
      let moved : n.add (n.add b c) d ≡ n.add (n.add c b) d = ap (λ x. n.add x d) (add_comm b c) in
      add_assoc a b (n.add c d)
      ∙ ap (n.add a) (sym (add_assoc b c d) ∙ moved ∙ add_assoc c b d)
      ∙ sym (add_assoc a c (n.add b d))

  value-split :
      (prices : List (String × A)) (h : Holding A)
      → (row_of prices h).value ≡ n.add (row_of prices h).pnl (row_of prices h).cost
  unfolding row_of
  value-split prices h = sym (sub_add _ _)

  -- The values add up to the profits and the costs, from any sums before.
  sum_from-rows :
      (prices : List (String × A)) (holdings : List (Holding A)) (pnl cost : A)
      → let rs = map (row_of prices) holdings in
        sum_from (n.add pnl cost) (map (λ (r : Row A). r.value) rs)
        ≡ n.add
            (sum_from pnl (map (λ (r : Row A). r.pnl) rs))
            (sum_from cost (map (λ (r : Row A). r.cost) rs))
  sum_from-rows prices [] pnl cost = refl
  sum_from-rows prices (h ∷ holdings) pnl cost =
      let r = row_of prices h in
      let head : n.add (n.add pnl cost) r.value ≡ n.add (n.add pnl r.pnl) (n.add cost r.cost) =
        ap (n.add (n.add pnl cost)) (value-split prices h) ∙ add_exchange pnl cost r.pnl r.cost in
      ap (λ (a : A). sum_from a (map (λ (s : Row A). s.value) (map (row_of prices) holdings))) head
      ∙ sum_from-rows prices holdings (n.add pnl r.pnl) (n.add cost r.cost)

  -- The total profit is the sum of the profits of the rows, in exact arithmetic.
  pub totals_pnl :
      (prices : List (String × A)) (holdings : List (Holding A))
      → (totals (rows prices holdings)).pnl
        ≡ sum (map (λ (r : Row A). r.pnl) (rows prices holdings))
  unfolding totals rows
  totals_pnl prices holdings =
      let zero_ = n.of_ℕ 0 in
      let rs = map (row_of prices) holdings in
      let values = map (λ (r : Row A). r.value) rs in
      let split : sum values
          ≡ n.add (sum (map (λ (r : Row A). r.pnl) rs)) (sum (map (λ (r : Row A). r.cost) rs)) =
        ap (λ (a : A). sum_from a values) (sym (zero_add zero_))
        ∙ sum_from-rows prices holdings zero_ zero_ in
      ap (λ (v : A). n.sub v (sum (map (λ (r : Row A). r.cost) rs))) split ∙ add_sub _ _
