-- ===== src/Workers/TypedReader/Ordered.antt =====
-- `ORDER BY sequence_number` and `LIMIT`, for crates/projections/src/event/typed_reader.rs.
use intuition_core.Base.{
  ℕ, zero, suc, ◌<◌, ◌≡◌, ◌≢◌, refl, sym, ap, ◌∙◌, ◌⊎◌, inl, inr, arith, leb, leb→le, not-leb→lt,
  Bool, Bool-cases, List, [], ◌∷◌, ◌++◌, take, filter, In, In-take, In-filter-In, In-append-cases,
  Ascends, Ascends-above,
}
use intuition_core.Events.{Serde, StoredEvent}
use intuition_core.Workers.TypedReader.{key, insert_by, order_by}

module _ {J : Serde} where
  -- No two events have one sequence number.
  abbrev pub Distinct : List (StoredEvent J) → Type 0
  Distinct [] = Unit
  Distinct (e ∷ es) = ((f : StoredEvent J) → In f es → key e ≢ key f) × Distinct es

  In-insert_by-cases :
      (x e : StoredEvent J) (es : List (StoredEvent J)) → In x (insert_by e es) → (x ≡ e) ⊎ In x es
  unfolding insert_by
  In-insert_by-cases x e [] (inl h) = inl h
  In-insert_by-cases x e [] (inr h) = inr h
  In-insert_by-cases x e (f ∷ fs) m = elim (Bool-cases (leb (key e) (key f))) [
    | inl y ↦ rw y at m
    | inr o ↦
        let m' : (x ≡ f) ⊎ In x (insert_by e fs) = rw o at m in
        elim m' [
          | inl h ↦ inr (inl h)
          | inr k ↦ elim (In-insert_by-cases x e fs k) [ inl h ↦ inl h | inr h ↦ inr (inr h) ]
        ]
  ]

  In-insert_by :
      (x e : StoredEvent J) (es : List (StoredEvent J)) → (x ≡ e) ⊎ In x es → In x (insert_by e es)
  unfolding insert_by
  In-insert_by x e [] m = m
  In-insert_by x e (f ∷ fs) (inl h) = elim (Bool-cases (leb (key e) (key f))) [
    | inl y ↦ rw y (inl h)
    | inr o ↦ rw o (inr (In-insert_by x e fs (inl h)))
  ]
  In-insert_by x e (f ∷ fs) (inr (inl h)) = elim (Bool-cases (leb (key e) (key f))) [
    | inl y ↦ rw y (inr (inl h))
    | inr o ↦ rw o (inl h)
  ]
  In-insert_by x e (f ∷ fs) (inr (inr h)) = elim (Bool-cases (leb (key e) (key f))) [
    | inl y ↦ rw y (inr (inr h))
    | inr o ↦ rw o (inr (In-insert_by x e fs (inr h)))
  ]

  pub In-order_by-In :
      (x : StoredEvent J) (es : List (StoredEvent J)) → In x (order_by es) → In x es
  unfolding order_by
  In-order_by-In x [] m = m
  In-order_by-In x (e ∷ es) m = elim (In-insert_by-cases x e (order_by es) m) [
    | inl h ↦ inl h
    | inr h ↦ inr (In-order_by-In x es h)
  ]

  pub In-order_by : (x : StoredEvent J) (es : List (StoredEvent J)) → In x es → In x (order_by es)
  unfolding order_by
  In-order_by x [] m = m
  In-order_by x (e ∷ es) (inl h) = In-insert_by x e (order_by es) (inl h)
  In-order_by x (e ∷ es) (inr h) = In-insert_by x e (order_by es) (inr (In-order_by x es h))

  insert_by-Ascends :
      (b : ℕ) (e : StoredEvent J) (es : List (StoredEvent J))
      → Ascends key b es
      → b < key e
      → ((f : StoredEvent J) → In f es → key e ≢ key f)
      → Ascends key b (insert_by e es)
  unfolding insert_by
  insert_by-Ascends b e [] a lt d = (lt, tt)
  insert_by-Ascends b e (f ∷ fs) (h, hs) lt d =
      let ne = d f (inl refl) in
      elim (Bool-cases (leb (key e) (key f))) [
        | inl y ↦ let le = leb→le _ _ y in rw y (lt, (omega arith, hs))
        | inr o ↦
            let gt = not-leb→lt _ _ o in
            rw o (h, insert_by-Ascends (key f) e fs hs gt (λ g m. d g (inr m)))
      ]

  pub order_by-Ascends :
      (b : ℕ) (es : List (StoredEvent J))
      → Distinct es
      → ((e : StoredEvent J) → In e es → b < key e)
      → Ascends key b (order_by es)
  unfolding order_by
  order_by-Ascends b [] d above = tt
  order_by-Ascends b (e ∷ es) (h, hs) above =
      insert_by-Ascends b e (order_by es) (order_by-Ascends b es hs (λ f m. above f (inr m)))
        (above e (inl refl)) (λ f m. h f (In-order_by-In f es m))

  pub Ascends-Distinct : (b : ℕ) (es : List (StoredEvent J)) → Ascends key b es → Distinct es
  Ascends-Distinct b [] a = tt
  Ascends-Distinct b (e ∷ es) (h, hs) = (
    λ f m. let lt = Ascends-above key (key e) es f hs m in λ q. absurd (omega arith),
    Ascends-Distinct (key e) es hs,
  )

  pub Distinct-append :
      (es fs : List (StoredEvent J))
      → Distinct es
      → Distinct fs
      → ((e f : StoredEvent J) → In e es → In f fs → key e ≢ key f)
      → Distinct (es ++ fs)
  Distinct-append [] fs d d' apart = d'
  Distinct-append (e ∷ es) fs (h, hs) d' apart = (
    λ f m. elim (In-append-cases f es fs m) [ inl l ↦ h f l | inr r ↦ apart e f (inl refl) r ],
    Distinct-append es fs hs d' (λ x f m n. apart x f (inr m) n),
  )

  -- Of two ascending lists, the one with the other's members.
  tail_of :
      (b c : ℕ) (y r : StoredEvent J) (ls rs : List (StoredEvent J))
      → Ascends key b (y ∷ ls)
      → Ascends key c (r ∷ rs)
      → ((x : StoredEvent J) → In x (r ∷ rs) → In x (y ∷ ls))
      → (x : StoredEvent J) → In x rs
      → In x ls
  tail_of b c y r ls rs (hy, hl) (hr, hs) sub x m = elim (sub x (inr m)) [
    | inr n ↦ n
    | inl e ↦
        let up = Ascends-above key (key r) rs x hs m in
        elim (sub r (inl refl)) [
          | inl e' ↦ let k = ap key e in let k' = ap key e' in absurd (omega arith)
          | inr n ↦
              let up' = Ascends-above key (key y) ls r hl n in
              let k = ap key e in absurd (omega arith)
        ]
  ]

  -- What is among the first of a list is among the first of a part of it.
  pub In-take-part :
      (n b c : ℕ) (ls rs : List (StoredEvent J)) (x : StoredEvent J)
      → Ascends key b ls
      → Ascends key c rs
      → ((z : StoredEvent J) → In z rs → In z ls)
      → In x (take n ls)
      → In x rs
      → In x (take n rs)
  In-take-part zero b c ls rs x al ar sub m k = absurd m
  In-take-part (suc n) b c [] rs x al ar sub m k = absurd m
  In-take-part (suc n) b c (y ∷ ls) [] x al ar sub m k = absurd k
  In-take-part (suc n) b c (y ∷ ls) (r ∷ rs) x al ar sub m (inl e) = inl e
  In-take-part (suc n) b c (y ∷ ls) (r ∷ rs) x (hy, hl) (hr, hs) sub (inr m) (inr k) = inr (
      In-take-part n (key y) (key r) ls rs x hl hs (tail_of b c y r ls rs (hy, hl) (hr, hs) sub) m
        k)
  In-take-part (suc n) b c (y ∷ ls) (r ∷ rs) x (hy, hl) (hr, hs) sub (inl e) (inr k) =
      let up = Ascends-above key (key r) rs x hs k in
      let q = ap key e in
      elim (sub r (inl refl)) [
        | inl e' ↦ let q' = ap key e' in absurd (omega arith)
        | inr o ↦ let up' = Ascends-above key (key y) ls r hl o in absurd (omega arith)
      ]

  same_head :
      (n b c : ℕ) (y r : StoredEvent J) (ls rs : List (StoredEvent J))
      → Ascends key b (y ∷ ls)
      → Ascends key c (r ∷ rs)
      → ((z : StoredEvent J) → In z (r ∷ rs) → In z (y ∷ ls))
      → ((z : StoredEvent J) → In z (take (suc n) (y ∷ ls)) → In z (r ∷ rs))
      → y ≡ r
  same_head n b c y r ls rs (hy, hl) (hr, hs) sub has = elim (has y (inl refl)) [
    | inl e ↦ e
    | inr m ↦
        let up = Ascends-above key (key r) rs y hs m in
        elim (sub r (inl refl)) [
          | inl e ↦ sym e
          | inr o ↦ let up' = Ascends-above key (key y) ls r hl o in absurd (omega arith)
        ]
  ]

  -- A part that has the first of a list begins with them.
  pub take-part :
      (n b c : ℕ) (ls rs : List (StoredEvent J))
      → Ascends key b ls
      → Ascends key c rs
      → ((z : StoredEvent J) → In z rs → In z ls)
      → ((z : StoredEvent J) → In z (take n ls) → In z rs)
      → take n rs ≡ take n ls
  take-part zero b c ls rs al ar sub has = refl
  take-part (suc n) b c [] [] al ar sub has = refl
  take-part (suc n) b c [] (r ∷ rs) al ar sub has = absurd (sub r (inl refl))
  take-part (suc n) b c (y ∷ ls) [] al ar sub has = absurd (has y (inl refl))
  take-part (suc n) b c (y ∷ ls) (r ∷ rs) (hy, hl) (hr, hs) sub has =
      let same = same_head n b c y r ls rs (hy, hl) (hr, hs) sub has in
      let k = ap key same in
      let rest : take n rs ≡ take n ls =
        take-part n (key y) (key r) ls rs hl hs (tail_of b c y r ls rs (hy, hl) (hr, hs) sub)
          (λ z m. elim (has z (inr m)) [
            | inr o ↦ o
            | inl e ↦
                let up = Ascends-above key (key y) ls z hl (In-take n z ls m) in
                let q = ap key e in absurd (omega arith)
          ]) in
      rw (same, rest) refl

  pub Distinct-filter :
      (p : StoredEvent J → Bool) (es : List (StoredEvent J)) → Distinct es → Distinct (filter p es)
  Distinct-filter p [] d = tt
  Distinct-filter p (e ∷ es) (h, hs) = elim (Bool-cases (p e)) [
    | inl y ↦ rw y (λ f m. h f (In-filter-In p f es m), Distinct-filter p es hs)
    | inr o ↦ rw o (Distinct-filter p es hs)
  ]

  pub Distinct-take : (n : ℕ) (es : List (StoredEvent J)) → Distinct es → Distinct (take n es)
  Distinct-take zero es d = tt
  Distinct-take (suc n) [] d = tt
  Distinct-take (suc n) (e ∷ es) (h, hs) = (λ f m. h f (In-take n f es m), Distinct-take n es hs)

  pub Ascends-one :
      (b : ℕ) (es : List (StoredEvent J)) (e f : StoredEvent J)
      → Ascends key b es
      → In e es
      → In f es
      → key e ≡ key f
      → e ≡ f
  Ascends-one b [] e f a m k q = absurd m
  Ascends-one b (y ∷ ys) e f (h, hs) (inl l) (inl r) q = l ∙ sym r
  Ascends-one b (y ∷ ys) e f (h, hs) (inl l) (inr r) q =
      let up = Ascends-above key (key y) ys f hs r in let p = ap key l in absurd (omega arith)
  Ascends-one b (y ∷ ys) e f (h, hs) (inr l) (inl r) q =
      let up = Ascends-above key (key y) ys e hs l in let p = ap key r in absurd (omega arith)
  Ascends-one b (y ∷ ys) e f (h, hs) (inr l) (inr r) q = Ascends-one (key y) ys e f hs l r q
