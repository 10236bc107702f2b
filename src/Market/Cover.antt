-- ===== src/Market/Cover.antt =====
-- The slices of the ring cover the market.
use crypto_dashboard.Prelude.{
  ◌≡◌, refl, sym, ap, ◌∙◌, List, [], ◌∷◌, ◌++◌, take, drop, take-append-drop, Bool-cases, inl, inr,
}
use crypto_dashboard.Numbers.{Num, IsGroup, sum, sum_from}
use crypto_dashboard.Price.{CoinMeta}
use crypto_dashboard.Market.{
  Slice, caps, place, sort, with_cap, total_cap, top_slices, other_cap, donut_slices,
}

module _ {ℓ} {A : Type ℓ} ⦃n : Num A⦄ (laws : IsGroup A) where
  open laws use {add_assoc, add_comm, zero_add}

  add_swap : (a b c : A) → n.add (n.add a b) c ≡ n.add (n.add a c) b
  add_swap a b c = add_assoc a b c ∙ ap (n.add a) (add_comm b c) ∙ sym (add_assoc a c b)

  sum_from-place :
      (acc : A) (s : Slice A) (ss : List (Slice A))
      → sum_from acc (caps (place s ss)) ≡ sum_from (n.add acc s.cap) (caps ss)
  unfolding place
  sum_from-place acc s [] = refl
  sum_from-place acc s (t ∷ ss) = elim (Bool-cases (n.le t.cap s.cap)) [
    | inl first ↦ rw first refl
    | inr later ↦ rw later (
        sum_from-place (n.add acc t.cap) s ss
        ∙ ap (λ (a : A). sum_from a (caps ss)) (add_swap acc t.cap s.cap))
  ]

  sum_from-sort :
      (acc : A) (ss : List (Slice A)) → sum_from acc (caps (sort ss)) ≡ sum_from acc (caps ss)
  unfolding sort
  sum_from-sort acc [] = refl
  sum_from-sort acc (s ∷ ss) = sum_from-place acc s (sort ss) ∙ sum_from-sort (n.add acc s.cap) ss

  sum_from-caps :
      (acc : A) (xs ys : List (Slice A))
      → sum_from acc (caps (xs ++ ys)) ≡ sum_from (sum_from acc (caps xs)) (caps ys)
  sum_from-caps acc [] ys = refl
  sum_from-caps acc (x ∷ xs) ys = sum_from-caps (n.add acc x.cap) xs ys

  sum_from-add : (a b : A) (xs : List A) → sum_from (n.add a b) xs ≡ n.add a (sum_from b xs)
  sum_from-add a b [] = refl
  sum_from-add a b (x ∷ xs) =
      ap (λ (c : A). sum_from c xs) (add_assoc a b x) ∙ sum_from-add a (n.add b x) xs

  -- The caps of the coins shown on their own and the cap of the rest make the total cap of the market,
  -- in exact arithmetic, whatever the order of the coins.
  pub slices_cover :
      (coins : List (CoinMeta A))
      → n.add (sum (caps (top_slices coins))) (other_cap coins) ≡ total_cap coins
  unfolding top_slices other_cap total_cap
  slices_cover coins =
      let ss = sort (with_cap coins) in
      let shown = sum (caps (take donut_slices ss)) in
      let rest = caps (drop donut_slices ss) in
      sym (sum_from-add shown (n.of_ℕ 0) rest)
      ∙ ap (λ (a : A). sum_from a rest) (add_comm shown (n.of_ℕ 0) ∙ zero_add shown)
      ∙ sym (sum_from-caps (n.of_ℕ 0) (take donut_slices ss) (drop donut_slices ss))
      ∙ ap (λ (xs : List (Slice A)). sum (caps xs)) (take-append-drop donut_slices ss)
      ∙ sum_from-sort (n.of_ℕ 0) (with_cap coins)
