-- ===== src/Positions/Cache.antt =====
-- `PositionCache`, for one caller at a time. `snapshot t` is what the exchange answers at the time
-- `t` (in microseconds of the monotonic clock).
use trading_binance.Base.{
  ℕ, ◌+◌, ◌≤◌, ◌<◌, ◌≡◌, refl, true, List, [], ◌∷◌, ltb, if◌then◌else◌, arith, ◌⊎◌, inl, inr,
  Bool-cases,
}

abbrev pub ttl : ℕ
ttl = 2_000_000

pub record Cache (A : Type 0) : Type 0 where
  pub positions : A
  pub ts : ℕ

-- When a call of `get` looks at the cache, has the answer, and stores it.
pub record Times : Type 0 where
  pub looked : ℕ
  pub answered : ℕ
  pub stored : ℕ

pub data Use : Type 0 where
  got : Times → Use
  invalidated : Use

-- `__init__`, with what stands for the empty list
abbrev pub new_cache : {A : Type 0} → A → Cache A
new_cache nothing = record { positions = nothing; ts = 0 }

stale_zero : (looked n : ℕ) → ttl ≤ looked → n ≡ 0 → ltb looked (n + ttl) ≡ true → ⊥
stale_zero looked n late z e = ground arith

hit_recent :
    (looked n f delay : ℕ) → ltb looked (n + ttl) ≡ true → n ≤ f + delay → looked < f + delay + ttl
hit_recent looked n f delay e le = ground arith

miss_recent : (looked answered delay : ℕ) → looked ≤ answered → looked < answered + delay + ttl
miss_recent looked answered delay le = ground arith

module _ {A : Type 0} (snapshot : ℕ → A) where
  unfoldable pub get : Times → Cache A → A × Cache A
  get t c =
      if ltb t.looked (c.ts + ttl)
      then (c.positions, c)
      else (snapshot t.answered, record { positions = snapshot t.answered; ts = t.stored })

  unfoldable pub invalidate : Cache A → Cache A
  invalidate c = record c { ts = 0 }

  unfoldable pub use_all : List Use → Cache A → Cache A
  use_all [] c = c
  use_all (got t ∷ uses) c = use_all uses (get t c).1
  use_all (invalidated ∷ uses) c = use_all uses (invalidate c)

  -- A call that stores what it was answered at most `delay` later.
  abbrev pub AllPrompt : ℕ → List Use → Type 0
  AllPrompt delay [] = Unit
  AllPrompt delay (got t ∷ uses) = (t.stored ≤ t.answered + delay) × AllPrompt delay uses
  AllPrompt delay (invalidated ∷ uses) = AllPrompt delay uses

  -- What is there was answered at most `delay` before its time stamp, unless that is zero.
  IsStamped : ℕ → Cache A → Type 0
  IsStamped delay c = (c.ts ≡ 0) ⊎ ((f : ℕ) × (c.positions ≡ snapshot f) × (c.ts ≤ f + delay))

  get-IsStamped :
      (delay : ℕ) (t : Times) (c : Cache A)
      → t.stored ≤ t.answered + delay
      → IsStamped delay c
      → IsStamped delay (get t c).1
  unfolding get IsStamped
  get-IsStamped delay t c prompt stamped = elim (Bool-cases (ltb t.looked (c.ts + ttl))) [
    | inl e ↦ rw (e, get) stamped
    | inr e ↦ rw (e, get) (inr (t.answered, refl, prompt))
  ]

  use_all-IsStamped :
      (delay : ℕ) (uses : List Use) (c : Cache A)
      → AllPrompt delay uses
      → IsStamped delay c
      → IsStamped delay (use_all uses c)
  unfolding use_all invalidate IsStamped
  use_all-IsStamped delay [] c prompt stamped = stamped
  use_all-IsStamped delay (got t ∷ uses) c (p, prompt) stamped =
      use_all-IsStamped delay uses (get t c).1 prompt (get-IsStamped delay t c p stamped)
  use_all-IsStamped delay (invalidated ∷ uses) c prompt stamped =
      use_all-IsStamped delay uses _ prompt (inl refl)

  new-IsStamped : (delay : ℕ) (nothing : A) → IsStamped delay (new_cache nothing)
  unfolding IsStamped
  new-IsStamped delay nothing = inl refl

  stamped_recent :
      (delay : ℕ) (t : Times) (c : Cache A)
      → ttl ≤ t.looked
      → t.looked ≤ t.answered
      → IsStamped delay c
      → (f : ℕ) × ((get t c).0 ≡ snapshot f) × (t.looked < f + delay + ttl)
  unfolding get IsStamped
  stamped_recent delay t c late order stamped = elim (Bool-cases (ltb t.looked (c.ts + ttl))) [
    | inl e ↦ elim stamped [
      | inl z ↦ absurd (stale_zero t.looked c.ts late z e)
      | inr (f, kept, le) ↦ rw (e, get) (f, kept, hit_recent t.looked c.ts f delay e le)
    ]
    | inr e ↦ rw (e, get) (t.answered, refl, miss_recent t.looked t.answered delay order)
  ]

  -- Whatever calls came before on a new cache, `get` answers with what the exchange had at some
  -- time, and that is after the time of the look less two seconds and the delay of a call. The
  -- clock has run for two seconds at the look, and every call stores what it was answered within
  -- the delay.
  pub get_recent :
      (delay : ℕ) (uses : List Use) (t : Times) (nothing : A)
      → AllPrompt delay uses
      → ttl ≤ t.looked
      → t.looked ≤ t.answered
      → (f : ℕ) × ((get t (use_all uses (new_cache nothing))).0 ≡ snapshot f)
        × (t.looked < f + delay + ttl)
  get_recent delay uses t nothing prompt late order =
      stamped_recent delay t _ late order
        (use_all-IsStamped delay uses (new_cache nothing) prompt (new-IsStamped delay nothing))
