-- ===== src/Limiter/Queue/Backlog.antt =====
-- The backlog as a queue of distinct elements, and the statuses of their goroutines.
use mathlib.Core.Option.{some-injective}
use native.Mathlib.Decide.{ℕ_discrete}
use go_concurrency_limits.Base.{
  ℕ, ◌≤◌, ◌≡◌, ◌≢◌, sym, ap, subst, ◌∙◌, Bool, true, false, some, List, [], ◌∷◌, arith, length, All,
  get_elem?, set, get_elem?-set_self, get_elem?-set_ne, get_elem?-lt, ◌==◌, ◌<◌, ◌⊎◌, inl, inr,
  Bool-cases,
}
use go_concurrency_limits.Limiter.Queue.{
  QueueElement, QueueOrdering, fifo, lifo, unordered, evict, front, back, peek, Status, arriving,
  selecting, leaving,
}

module _ {C : Type 0} where
  abbrev pub NotIn : ℕ → List (QueueElement C) → Type 0
  NotIn i = All (λ e. e.id ≢ i)

  abbrev pub Distinct : List (QueueElement C) → Type 0
  Distinct [] = Unit
  Distinct (e ∷ q) = NotIn e.id q × Distinct q

  evict_cases :
      (i : ℕ) (e : QueueElement C) (q : List (QueueElement C))
      → ((e.id ≡ i) × (evict i (e ∷ q) ≡ q)) ⊎ ((e.id ≢ i) × (evict i (e ∷ q) ≡ e ∷ evict i q))
  unfolding evict
  evict_cases i e q = elim (Bool-cases (e.id == i)) [
    | inl h ↦ inl (ground arith, ground arith)
    | inr h ↦ inr ((λ k. ground arith), ground arith)
  ]

  pub evict-All :
      (P : QueueElement C → Type 0) (i : ℕ) (q : List (QueueElement C))
      → All P q
      → All P (evict i q)
  evict-All P i [] a = unfold evict in tt
  evict-All P i (e ∷ q) a = elim (evict_cases i e q) [
    | inl (h, k) ↦ subst (All P) (sym k) a.1
    | inr (h, k) ↦ subst (All P) (sym k) (a.0, evict-All P i q a.1)
  ]

  pub evict-Distinct : (i : ℕ) (q : List (QueueElement C)) → Distinct q → Distinct (evict i q)
  evict-Distinct i [] a = unfold evict in tt
  evict-Distinct i (e ∷ q) a = elim (evict_cases i e q) [
    | inl (h, k) ↦ subst Distinct (sym k) a.1
    | inr (h, k) ↦
        subst Distinct (sym k) (evict-All (λ f. f.id ≢ e.id) i q a.0, evict-Distinct i q a.1)
  ]

  pub evict-NotIn : (i : ℕ) (q : List (QueueElement C)) → Distinct q → NotIn i (evict i q)
  evict-NotIn i [] a = unfold evict in tt
  evict-NotIn i (e ∷ q) a = elim (evict_cases i e q) [
    | inl (h, k) ↦ subst (NotIn i) (sym k) (subst (λ j. NotIn j q) h a.0)
    | inr (h, k) ↦ subst (NotIn i) (sym k) (h, evict-NotIn i q a.1)
  ]

  pub length-evict : (i : ℕ) (q : List (QueueElement C)) → length (evict i q) ≤ length q
  length-evict i [] = unfold evict in omega arith
  length-evict i (e ∷ q) = elim (evict_cases i e q) [
    | inl (h, k) ↦ omega (arith, ap length k)
    | inr (h, k) ↦ omega (arith, ap length k, length-evict i q)
  ]

  -- What peek shows is in the queue.
  front-All :
      (P : QueueElement C → Type 0) (q : List (QueueElement C)) (e : QueueElement C)
      → front q ≡ some e
      → All P q
      → P e
  unfolding front
  front-All P [] e h a = absurd (ground arith)
  front-All P (x ∷ q) e h a = subst P (some-injective _ _ h) a.0

  back-All :
      (P : QueueElement C → Type 0) (q : List (QueueElement C)) (e : QueueElement C)
      → back q ≡ some e
      → All P q
      → P e
  unfolding back
  back-All P [] e h a = absurd (ground arith)
  back-All P (x ∷ []) e h a = subst P (some-injective _ _ h) a.0
  back-All P (x ∷ y ∷ q) e h a = back-All P (y ∷ q) e h a.1

  pub peek-All :
      (P : QueueElement C → Type 0) (o : QueueOrdering) (q : List (QueueElement C))
      (e : QueueElement C)
      → peek o q ≡ some e
      → All P q
      → P e
  unfolding peek
  peek-All P fifo q e h a = back-All P q e h a
  peek-All P lifo q e h a = front-All P q e h a
  peek-All P unordered q e h a = absurd (ground arith)

-- The goroutine of an element is waiting: it has pushed, and not yet returned.
module _ {C L : Type 0} where
  abbrev pub is_waiting : Status C L → Bool
  is_waiting arriving = true
  is_waiting selecting = true
  is_waiting leaving = true
  is_waiting _ = false

  abbrev pub Waits : List (Status C L) → ℕ → Type 0
  Waits st i = (x : Status C L) × (get_elem? st i ≡ some x) × (is_waiting x ≡ true)

  pub set-Waits :
      (st : List (Status C L)) (i j : ℕ) (y : Status C L)
      → is_waiting y ≡ true
      → Waits st j
      → Waits (set st i y) j
  set-Waits st i j y w (x, e, k) = elim (ℕ_discrete i j) [
    | yes h ↦
        let at =
          get_elem?-set_self st i y (subst (λ n. n < length st) (sym h) (get_elem?-lt st j x e)) in
        (y, subst (λ n. get_elem? (set st i y) n ≡ some y) h at, w)
    | no h ↦ (x, get_elem?-set_ne st i j y h ∙ e, k)
  ]

  pub set-Waits_ne :
      (st : List (Status C L)) (i j : ℕ) (y : Status C L)
      → j ≢ i
      → Waits st j
      → Waits (set st i y) j
  set-Waits_ne st i j y h (x, e, k) = (x, get_elem?-set_ne st i j y (λ q. h (sym q)) ∙ e, k)

  pub set-Waits_all :
      (st : List (Status C L)) (i : ℕ) (y : Status C L) (q : List (QueueElement C))
      → is_waiting y ≡ true
      → All (λ e. Waits st e.id) q
      → All (λ e. Waits (set st i y) e.id) q
  set-Waits_all st i y [] w a = tt
  set-Waits_all st i y (e ∷ q) w a = (set-Waits st i e.id y w a.0, set-Waits_all st i y q w a.1)

  pub set-Waits_others :
      (st : List (Status C L)) (i : ℕ) (y : Status C L) (q : List (QueueElement C))
      → NotIn i q
      → All (λ e. Waits st e.id) q
      → All (λ e. Waits (set st i y) e.id) q
  set-Waits_others st i y [] n a = tt
  set-Waits_others st i y (e ∷ q) n a =
      (set-Waits_ne st i e.id y n.0 a.0, set-Waits_others st i y q n.1 a.1)

  -- A goroutine that does not wait has no element in the backlog.
  pub Waits-NotIn :
      (st : List (Status C L)) (i : ℕ) (x : Status C L) (q : List (QueueElement C))
      → get_elem? st i ≡ some x
      → is_waiting x ≡ false
      → All (λ e. Waits st e.id) q
      → NotIn i q
  Waits-NotIn st i x [] e w a = tt
  Waits-NotIn st i x (f ∷ q) e w a = (λ h. other h a.0, Waits-NotIn st i x q e w a.1)
    where
      other : f.id ≡ i → Waits st f.id → ⊥
      other h (y, k, v) =
          let same = some-injective _ _ (sym e ∙ subst (λ n. get_elem? st n ≡ some y) h k) in
          ground arith
