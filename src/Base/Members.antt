-- ===== src/Base/Members.antt =====
-- Membership, prefixes and filtered lists, and lists in ascending order of a key.
use Prim.Native.Nat.{ℕ, zero, suc, ◌<◌, ◌≤◌}
use mathlib.Core.Path.{◌≡◌, refl, subst, sym}
use mathlib.Core.Logic.{◌⊎◌, inl, inr}
use mathlib.Core.Bool.{Bool, true}
use mathlib.Core.Option.{Option, none, some}
use mathlib.Core.List.{List, [], ◌∷◌, ◌++◌}
use native.Mathlib.Omega.{arith}
use intuition_core.Base.Tests.{if◌then◌else◌, Bool-cases}

module _ {A : Type 0} where
  abbrev pub In : A → List A → Type 0
  In x [] = ⊥
  In x (y ∷ ys) = (x ≡ y) ⊎ In x ys

  abbrev pub take : ℕ → List A → List A
  take zero xs = []
  take (suc n) [] = []
  take (suc n) (x ∷ xs) = x ∷ take n xs

  abbrev pub filter : (A → Bool) → List A → List A
  filter p [] = []
  filter p (x ∷ xs) = if p x then x ∷ filter p xs else filter p xs

  abbrev pub last : List A → Option A
  last [] = none
  last (x ∷ []) = some x
  last (x ∷ y ∷ ys) = last (y ∷ ys)

  pub In-append_left : (x : A) (xs ys : List A) → In x xs → In x (xs ++ ys)
  In-append_left x [] ys m = absurd m
  In-append_left x (y ∷ xs) ys (inl e) = inl e
  In-append_left x (y ∷ xs) ys (inr m) = inr (In-append_left x xs ys m)

  pub In-append_right : (x : A) (xs ys : List A) → In x ys → In x (xs ++ ys)
  In-append_right x [] ys m = m
  In-append_right x (y ∷ xs) ys m = inr (In-append_right x xs ys m)

  pub In-append-cases : (x : A) (xs ys : List A) → In x (xs ++ ys) → In x xs ⊎ In x ys
  In-append-cases x [] ys m = inr m
  In-append-cases x (y ∷ xs) ys (inl e) = inl (inl e)
  In-append-cases x (y ∷ xs) ys (inr m) = elim (In-append-cases x xs ys m) [
    | inl l ↦ inl (inr l)
    | inr r ↦ inr r
  ]

  pub In-filter : (p : A → Bool) (x : A) (xs : List A) → In x xs → p x ≡ true → In x (filter p xs)
  In-filter p x [] m h = absurd m
  In-filter p x (y ∷ ys) (inl e) h =
      let k : p y ≡ true = subst (λ (z : A). p z ≡ true) e h in rw k (inl e)
  In-filter p x (y ∷ ys) (inr m) h = elim (Bool-cases (p y)) [
    | inl k ↦ rw k (inr (In-filter p x ys m h))
    | inr k ↦ rw k (In-filter p x ys m h)
  ]

  pub In-filter-p : (p : A → Bool) (x : A) (xs : List A) → In x (filter p xs) → p x ≡ true
  In-filter-p p x [] m = absurd m
  In-filter-p p x (y ∷ ys) m = elim (Bool-cases (p y)) [
    | inl k ↦
        let m' : (x ≡ y) ⊎ In x (filter p ys) = rw k at m in
        elim m' [ inl e ↦ subst (λ (z : A). p z ≡ true) (sym e) k | inr n ↦ In-filter-p p x ys n ]
    | inr k ↦ let m' : In x (filter p ys) = rw k at m in In-filter-p p x ys m'
  ]

  pub In-filter-In : (p : A → Bool) (x : A) (xs : List A) → In x (filter p xs) → In x xs
  In-filter-In p x [] m = absurd m
  In-filter-In p x (y ∷ ys) m = elim (Bool-cases (p y)) [
    | inl k ↦
        let m' : (x ≡ y) ⊎ In x (filter p ys) = rw k at m in
        elim m' [ inl e ↦ inl e | inr n ↦ inr (In-filter-In p x ys n) ]
    | inr k ↦ let m' : In x (filter p ys) = rw k at m in inr (In-filter-In p x ys m')
  ]

  pub In-take : (n : ℕ) (x : A) (xs : List A) → In x (take n xs) → In x xs
  In-take zero x xs m = absurd m
  In-take (suc n) x [] m = absurd m
  In-take (suc n) x (y ∷ ys) (inl e) = inl e
  In-take (suc n) x (y ∷ ys) (inr m) = inr (In-take n x ys m)

  pub last-In : (xs : List A) (l : A) → last xs ≡ some l → In l xs
  last-In [] l h = cc
  last-In (x ∷ []) l h = inl cc
  last-In (x ∷ y ∷ ys) l h = inr (last-In (y ∷ ys) l h)

  -- Ascending keys, all above a bound.
  abbrev pub Ascends : (A → ℕ) → ℕ → List A → Type 0
  Ascends key b [] = Unit
  Ascends key b (x ∷ xs) = (b < key x) × Ascends key (key x) xs

  -- The last key, or the bound.
  abbrev pub top : (A → ℕ) → ℕ → List A → ℕ
  top key b [] = b
  top key b (x ∷ xs) = top key (key x) xs

  pub Ascends-weaken :
      (key : A → ℕ) (a b : ℕ) (xs : List A) → a ≤ b → Ascends key b xs → Ascends key a xs
  Ascends-weaken key a b [] le h = tt
  Ascends-weaken key a b (x ∷ xs) le (h, hs) = (omega arith, hs)

  pub Ascends-above :
      (key : A → ℕ) (b : ℕ) (xs : List A) (x : A) → Ascends key b xs → In x xs → b < key x
  Ascends-above key b [] x h m = absurd m
  Ascends-above key b (y ∷ ys) x (h, hs) (inl e) = rw e h
  Ascends-above key b (y ∷ ys) x (h, hs) (inr m) =
      let k = Ascends-above key (key y) ys x hs m in omega arith

  pub Ascends-filter :
      (key : A → ℕ) (p : A → Bool) (b : ℕ) (xs : List A)
      → Ascends key b xs
      → Ascends key b (filter p xs)
  Ascends-filter key p b [] h = tt
  Ascends-filter key p b (x ∷ xs) (h, hs) =
      let rest = Ascends-filter key p (key x) xs hs in
      elim (Bool-cases (p x)) [
        | inl k ↦ rw k (h, rest)
        | inr k ↦ rw k (Ascends-weaken key b (key x) (filter p xs) (omega arith) rest)
      ]

  pub Ascends-append :
      (key : A → ℕ) (b : ℕ) (xs ys : List A)
      → Ascends key b (xs ++ ys)
      → Ascends key b xs × Ascends key (top key b xs) ys
  Ascends-append key b [] ys h = (tt, h)
  Ascends-append key b (x ∷ xs) ys (h, hs) =
      let (l, r) = Ascends-append key (key x) xs ys hs in ((h, l), r)

  pub top-append :
      (key : A → ℕ) (b : ℕ) (xs ys : List A) → top key b (xs ++ ys) ≡ top key (top key b xs) ys
  top-append key b [] ys = refl
  top-append key b (x ∷ xs) ys = top-append key (key x) xs ys

  pub top-le : (key : A → ℕ) (b : ℕ) (xs : List A) → Ascends key b xs → b ≤ top key b xs
  top-le key b [] h = omega arith
  top-le key b (x ∷ xs) (h, hs) = omega (arith, top-le key (key x) xs hs)

  pub In-le_top :
      (key : A → ℕ) (b : ℕ) (xs : List A) (x : A)
      → Ascends key b xs
      → In x xs
      → key x ≤ top key b xs
  In-le_top key b [] x h m = absurd m
  In-le_top key b (y ∷ ys) x (h, hs) (inl e) = rw e (top-le key (key y) ys hs)
  In-le_top key b (y ∷ ys) x (h, hs) (inr m) = In-le_top key (key y) ys x hs m

  -- A prefix of an ascending list holds all that is not above its last member.
  pub In-take_of_le :
      (key : A → ℕ) (b n : ℕ) (xs : List A) (l x : A)
      → Ascends key b xs
      → last (take n xs) ≡ some l
      → In x xs
      → key x ≤ key l
      → In x (take n xs)
  In-take_of_le key b zero xs l x h q m le = cc
  In-take_of_le key b (suc n) [] l x h q m le = absurd m
  In-take_of_le key b (suc n) (y ∷ ys) l x h q (inl e) le = inl e
  In-take_of_le key b (suc zero) (y ∷ ys) l x (h, hs) q (inr m) le =
      let e : y ≡ l = cc q in
      let above = Ascends-above key (key y) ys x hs m in
      let le' : key x ≤ key y = rw e le in absurd (omega arith)
  In-take_of_le key b (suc (suc n)) (y ∷ z ∷ zs) l x (h, hs) q (inr m) le =
      inr (In-take_of_le key (key y) (suc n) (z ∷ zs) l x hs q m le)
  In-take_of_le key b (suc (suc n)) (y ∷ []) l x (h, hs) q (inr m) le = absurd m
