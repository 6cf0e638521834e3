-- ===== src/Scan/Sorted.antt =====
-- The order of the candidates.
use mathlib.Core.List.{Perm}
use mathlib.Core.List.Perm
use trading_binance.Base.{◌≡◌, arith, false, List, [], ◌∷◌, Bool-cases, inl, inr}
use trading_binance.Num.{Float, IsFloat, IsNum, ◌<?◌, ◌≼◌}
use trading_binance.Entry.Plan.{Candidate}
use trading_binance.Scan.{insert_by_score, sort_by_score}

module _ {F : Type 0} ⦃fl : Float F⦄ where
  -- The score of the first is at least that of the next, and so on.
  abbrev pub IsAtLeast : Candidate F → List (Candidate F) → Type 0
  IsAtLeast c [] = Unit
  IsAtLeast c (d ∷ ds) = d.payload.score ≼ c.payload.score

  abbrev pub IsDescending : List (Candidate F) → Type 0
  IsDescending [] = Unit
  IsDescending (c ∷ cs) = IsAtLeast c cs × IsDescending cs

  -- Every score is a number.
  abbrev pub AllScored : List (Candidate F) → Type 0
  AllScored [] = Unit
  AllScored (c ∷ cs) = IsNum c.payload.score × AllScored cs

  insert-Perm : (c : Candidate F) (cs : List (Candidate F)) → Perm (insert_by_score c cs) (c ∷ cs)
  unfolding insert_by_score
  insert-Perm c [] = Perm.refl (c ∷ [])
  insert-Perm c (d ∷ ds) = elim (Bool-cases (c.payload.score <? d.payload.score)) [
    | inl e ↦ rw e (Perm.trans (Perm.cons d (insert-Perm c ds)) (Perm.swap c d ds))
    | inr e ↦ rw e (Perm.refl (c ∷ d ∷ ds))
  ]

  pub sort-Perm : (cs : List (Candidate F)) → Perm (sort_by_score cs) cs
  unfolding sort_by_score
  sort-Perm [] = Perm.refl []
  sort-Perm (c ∷ cs) = Perm.trans (insert-Perm c (sort_by_score cs)) (Perm.cons c (sort-Perm cs))

  insert-AllScored :
      (c : Candidate F) (cs : List (Candidate F))
      → IsNum c.payload.score
      → AllScored cs
      → AllScored (insert_by_score c cs)
  unfolding insert_by_score
  insert-AllScored c [] n all = (n, tt)
  insert-AllScored c (d ∷ ds) n (m, all) = elim (Bool-cases (c.payload.score <? d.payload.score)) [
    | inl e ↦ rw e (m, insert-AllScored c ds n all)
    | inr e ↦ rw e (n, (m, all))
  ]

  sort-AllScored : (cs : List (Candidate F)) → AllScored cs → AllScored (sort_by_score cs)
  unfolding sort_by_score
  sort-AllScored [] all = tt
  sort-AllScored (c ∷ cs) (n, all) = insert-AllScored c _ n (sort-AllScored cs all)

module _ {F : Type 0} ⦃fl : Float F⦄ (laws : IsFloat F) where
  insert-IsAtLeast :
      (d c : Candidate F) (cs : List (Candidate F))
      → c.payload.score ≼ d.payload.score
      → IsAtLeast d cs
      → IsAtLeast d (insert_by_score c cs)
  unfolding insert_by_score
  insert-IsAtLeast d c [] h k = h
  insert-IsAtLeast d c (e ∷ es) h k = elim (Bool-cases (c.payload.score <? e.payload.score)) [
    | inl f ↦ rw f k
    | inr f ↦ rw f h
  ]

  insert-IsDescending :
      (c : Candidate F) (cs : List (Candidate F))
      → IsNum c.payload.score
      → AllScored cs
      → IsDescending cs
      → IsDescending (insert_by_score c cs)
  unfolding insert_by_score
  insert-IsDescending c [] n all desc = (tt, tt)
  insert-IsDescending c (d ∷ ds) n (m, all) (first, desc) =
      elim (Bool-cases (c.payload.score <? d.payload.score)) [
        | inl e ↦ rw e (
          insert-IsAtLeast d c ds (laws.le_of_lt _ _ e) first,
          insert-IsDescending c ds n all desc,
        )
        | inr e ↦ rw e (least c d n m e, (first, desc))
      ]
    where
      least :
          (c d : Candidate F)
          → IsNum c.payload.score
          → IsNum d.payload.score
          → (c.payload.score <? d.payload.score) ≡ false
          → d.payload.score ≼ c.payload.score
      least c d n m e = ground (arith, laws.le_or_lt d.payload.score c.payload.score m n)

  pub sort-IsDescending : (cs : List (Candidate F)) → AllScored cs → IsDescending (sort_by_score cs)
  unfolding sort_by_score
  sort-IsDescending [] all = tt
  sort-IsDescending (c ∷ cs) (n, all) =
      insert-IsDescending c (sort_by_score cs) n (sort-AllScored cs all) (sort-IsDescending cs all)
