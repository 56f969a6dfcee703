-- ===== src/RunStore/Files/Order.antt =====
-- The order of the listing, and what its limit leaves out.
use pi_mcp.Prelude.{
  ℕ, ◌≤◌, ◌<◌, ◌≡◌, refl, sym, subst, ◌∙◌, Bool, true, false, String, Option, List, [], ◌∷◌, arith,
  length, take, drop, All, Bool-cases, ◌⊎◌, inl, inr, ap, ltb, ◌&&◌, zero, suc,
}
use pi_mcp.Prelude.Text.{codes, after_asym, after_trans}
use pi_mcp.Prelude.Sort.{
  sort_by, InOrder, Pairwise, InOrder-Pairwise, sort_by-InOrder, take-drop-InOrder, tally_by,
  tally_by-sort_by,
}
use pi_mcp.Model.{Run}
use pi_mcp.RunStore.Files.{Entry, Scored, newer, rows, limited, list_rows}

newer_asym : (a b : Scored) → newer a b ≡ true → newer b a ≡ false
unfolding newer
newer_asym a b h = ground (arith, after_asym (codes a.item.run_id) (codes b.item.run_id))

newer_trans : (a b c : Scored) → newer a b ≡ false → newer b c ≡ false → newer a c ≡ false
unfolding newer
newer_trans a b c h k =
    ground (arith, after_trans (codes a.item.run_id) (codes b.item.run_id) (codes c.item.run_id))

sorted-InOrder : (all : List Scored) → InOrder newer (sort_by newer all)
sorted-InOrder = sort_by-InOrder newer newer_asym newer_trans

length-tally : (xs : List Scored) → length xs ≡ tally_by (λ _. true) xs
unfolding tally_by
length-tally [] = refl
length-tally (x ∷ xs) = omega (arith, length-tally xs)

not_newer : (a b : Scored) → newer b a ≡ false → b.updated ≤ a.updated
unfolding newer
not_newer a b h = ground arith

length-take : (n : ℕ) (xs : List Scored) → n ≤ length xs → length (take n xs) ≡ n
length-take zero xs h = refl
length-take (suc n) [] h = absurd (omega arith)
length-take (suc n) (x ∷ xs) h = ap suc (length-take n xs (omega arith))

-- A listing has the runs in their order, the later updated before the earlier, each as often as there
-- are rows of it: all of them, if the limit is 0 or is not exceeded, and else exactly the first ones, as many as
-- the limit, and then no run that is left out is newer than one that is shown.
pub list_rows_lem :
    (decode : String → Option Run) (limit : ℕ) (es : List Entry)
    → let all = sort_by newer (rows decode es) in
      InOrder newer all
      × Pairwise (λ (a b : Scored). b.updated ≤ a.updated) all
      × ((p : Scored → Bool) → tally_by p all ≡ tally_by p (rows decode es))
      × ((((limit ≡ 0) ⊎ (length (rows decode es) ≤ limit)) × (list_rows decode limit es ≡ all))
          ⊎ ((0 < limit)
              × (limit < length (rows decode es))
              × (list_rows decode limit es ≡ take limit all)
              × (length (list_rows decode limit es) ≡ limit)
              × All
                  (λ kept. All (λ left. newer left kept ≡ false) (drop limit all))
                  (list_rows decode limit es)))
unfolding list_rows limited
list_rows_lem decode limit es =
    let all = sort_by newer (rows decode es) in
    let same_length : length all ≡ length (rows decode es) =
      length-tally all
      ∙ tally_by-sort_by newer (λ _. true) (rows decode es)
      ∙ sym (length-tally (rows decode es)) in
    let ordered = sorted-InOrder (rows decode es) in
    (
      ordered,
      InOrder-Pairwise newer (λ (a b : Scored). b.updated ≤ a.updated)
          (λ (a b : Scored) h. not_newer a b h) all ordered,
      (λ p. tally_by-sort_by newer p (rows decode es)),
      elim (Bool-cases (ltb 0 limit && ltb limit (length all))) [
        | inl over_limit ↦
            let cut : limited limit all ≡ take limit all = rw over_limit refl in
            let fits : limit ≤ length all = ground arith in
            inr (
              ground arith,
              ground arith,
              cut,
              ap length cut ∙ length-take limit all fits,
              subst (All (λ kept. All (λ left. newer left kept ≡ false) (drop limit all))) (sym cut)
                  (take-drop-InOrder newer limit all ordered),
            )
        | inr within_limit ↦ inl (ground arith, rw within_limit refl)
      ],
    )
