-- ===== src/Connections/Pool/Slots.antt =====
-- The counting of permits in the map of semaphores and among the tasks, for
-- crates/projections/src/resilience/connection_manager.rs.
use Prim.Native.String.{String}
use intuition_core.Base.{
  ℕ, ◌+◌, ◌≡◌, inl, inr, refl, arith, if◌then◌else◌, true, Option, none, some, List, [], ◌∷◌,
  length, same_text, same_text_iff, Bool-cases,
}
use intuition_core.Connections.Pool.{Semaphores, insert, get, is_held, without}

abbrev pub count : List String → String → ℕ
count [] name = 0
count (h ∷ hs) name = let rest = count hs name in if same_text h name then rest + 1 else rest

pub count-without :
    (hs : List String) (k n : String)
    → is_held hs k ≡ true
    → (length (without hs k) + 1 ≡ length hs)
      × (count (without hs k) n + (if same_text k n then 1 else 0) ≡ count hs n)
count-without [] k n e = cc
count-without (h ∷ hs) k n e = elim (Bool-cases (same_text h k)) [
  | inl y ↦
      let (to, _) = same_text_iff h k in let same : h ≡ k = to y in rw (y, same) (ground arith)
  | inr o ↦ let rest = count-without hs k n (rw o at e) in ground (arith, o, rest)
]

module _ (T : Semaphores) where
  abbrev pub available : Option T.Semaphore → ℕ
  available none = 0
  available (some s) = T.permits_of s

  abbrev pub total : List (String × T.Semaphore) → ℕ
  total [] = 0
  total ((key, s) ∷ rest) = T.permits_of s + total rest

  get-insert :
      (m : List (String × T.Semaphore)) (k n : String) (s : T.Semaphore)
      → get T (insert T m k s) n ≡ (if same_text k n then some s else get T m n)
  unfolding get insert
  get-insert [] k n s = refl
  get-insert ((key, t) ∷ rest) k n s = elim (Bool-cases (same_text key k)) [
    | inl y ↦
        let (to, _) = same_text_iff key k in
        let same : key ≡ k = to y in rw (y, same) (ground arith)
    | inr o ↦
        let ih = get-insert rest k n s in
        rw (o, ih) (ground (arith, o, same_text_iff key n, same_text_iff k n, same_text_iff key k))
  ]

  pub total-insert :
      (m : List (String × T.Semaphore)) (k : String) (s : T.Semaphore)
      → total (insert T m k s) + available (get T m k) ≡ total m + T.permits_of s
  unfolding get insert
  total-insert [] k s = omega arith
  total-insert ((key, t) ∷ rest) k s =
      let ih = total-insert rest k s in
      elim (Bool-cases (same_text key k)) [
        | inl y ↦ rw y (omega arith)
        | inr o ↦ rw o (omega (arith, ih))
      ]

  pub available-insert :
      (m : List (String × T.Semaphore)) (k n : String) (s : T.Semaphore)
      → available (get T (insert T m k s) n)
        ≡ (if same_text k n then T.permits_of s else available (get T m n))
  available-insert m k n s = rw (get-insert m k n s) (ground arith)
  -- At most so many permits of a projection, and so many together.
