-- ===== src/Operations/Suspension/Dict.antt =====
-- The dict of suspensions: laws of its operations, and how long an entry holds.
use trading_binance.Base.{
  ℕ, ◌<◌, ◌≡◌, refl, true, false, Option, none, some, [], ◌∷◌, arith, leb, Bool-cases, inl, inr,
  if◌then◌else◌,
}
use trading_binance.Operations.State.{
  Reason, same_reason, Suspensions, same_reason_eq, same_reason_refl,
}
use trading_binance.Operations.Suspension.{lookup, insert, remove}

pub lookup-insert :
    (k j : Reason) (until : Option ℕ) (d : Suspensions)
    → lookup j (insert k until d) ≡ (if same_reason k j then some until else lookup j d)
unfolding lookup insert
lookup-insert k j until [] = refl
lookup-insert k j until ((i, old) ∷ d) = ground (
  arith,
  lookup-insert k j until d,
  same_reason_eq i k,
  same_reason_eq i j,
  same_reason_eq k j,
  same_reason_refl k,
  same_reason_refl j,
)

pub lookup-remove_ne :
    (k j : Reason) (d : Suspensions) → same_reason k j ≡ false → lookup j (remove k d) ≡ lookup j d
unfolding lookup remove
lookup-remove_ne k j [] h = refl
lookup-remove_ne k j ((i, old) ∷ d) h = ground (arith, lookup-remove_ne k j d h, same_reason_eq i k)

-- No key stands twice.
abbrev pub IsUnique : Suspensions → Type 0
IsUnique [] = Unit
IsUnique ((k, until) ∷ d) = (lookup k d ≡ none) × IsUnique d

pub same_reason_comm : (a b : Reason) → same_reason a b ≡ same_reason b a
same_reason_comm a b =
    ground (arith, same_reason_eq a b, same_reason_eq b a, same_reason_refl a, same_reason_refl b)

pub insert-IsUnique :
    (k : Reason) (until : Option ℕ) (d : Suspensions) → IsUnique d → IsUnique (insert k until d)
unfolding insert lookup
insert-IsUnique k until [] u = (refl, tt)
insert-IsUnique k until ((i, old) ∷ d) u = ground (
  arith,
  insert-IsUnique k until d u.1,
  lookup-insert k i until d,
  same_reason_comm k i,
  same_reason_eq i k,
)

pub remove-IsUnique : (k : Reason) (d : Suspensions) → IsUnique d → IsUnique (remove k d)
unfolding remove
remove-IsUnique k [] u = tt
remove-IsUnique k ((i, old) ∷ d) u =
    ground (arith, remove-IsUnique k d u.1, lookup-remove_ne k i d, same_reason_comm k i)

-- An entry is there and has not ended at `t`.
abbrev pub HeldAt : ℕ → Option (Option ℕ) → Type 0
HeldAt t none = ⊥
HeldAt t (some none) = Unit
HeldAt t (some (some until)) = t < until

-- Every entry of `d` that has ended at `now` is for another reason.
abbrev pub OthersEnd : Reason → ℕ → Suspensions → Type 0
OthersEnd r now [] = Unit
OthersEnd r now ((k, none) ∷ d) = OthersEnd r now d
OthersEnd r now ((k, some until) ∷ d) =
    (leb until now ≡ true → same_reason k r ≡ false) × OthersEnd r now d

OthersEnd-absent : (r : Reason) (now : ℕ) (d : Suspensions) → lookup r d ≡ none → OthersEnd r now d
unfolding lookup
OthersEnd-absent r now [] h = tt
OthersEnd-absent r now ((k, none) ∷ d) h = OthersEnd-absent r now d (ground arith)
OthersEnd-absent r now ((k, some until) ∷ d) h =
    (λ _. ground arith, OthersEnd-absent r now d (ground arith))

ended_lem : (now until : ℕ) → leb until now ≡ true → now < until → ⊥
ended_lem now until e h = ground arith

pub HeldAt-OthersEnd :
    (r : Reason) (now : ℕ) (d : Suspensions)
    → IsUnique d
    → HeldAt now (lookup r d)
    → OthersEnd r now d
unfolding lookup
HeldAt-OthersEnd r now [] u h = tt
HeldAt-OthersEnd r now ((k, none) ∷ d) u h = elim (Bool-cases (same_reason k r)) [
  | inl e ↦ OthersEnd-absent r now d (rw (← same_reason_eq k r e) u.0)
  | inr e ↦ HeldAt-OthersEnd r now d u.1 (rw e at h)
]
HeldAt-OthersEnd r now ((k, some until) ∷ d) u h = elim (Bool-cases (same_reason k r)) [
  | inl e ↦ (
    λ ended. absurd (ended_lem now until ended (rw e at h)),
    OthersEnd-absent r now d (rw (← same_reason_eq k r e) u.0),
  )
  | inr e ↦ (λ _. e, HeldAt-OthersEnd r now d u.1 (rw e at h))
]
