-- ===== src/Network/Coordinator/Turns.antt =====
-- Round robin over a pool that stays the same (uhcr/network/coordinator.py): whose turn it is.
use uhcr.Prelude.{
  ℕ, zero, suc, ◌+◌, ◌-◌, ◌%◌, ◌<◌, ◌≡◌, ◌∙◌, refl, sym, ap, subst, List, ◌∷◌, leb, leb→le, length,
  get_or, arith, Bool-cases, inl, inr,
}
use native.Mathlib.Nat.{mod-lt, mod-eq_of_lt, mod_self}
use uhcr.Network.Coordinator.Defs.{Registered, assign_round_robin}

module _ (x : Registered) (xs : List Registered) where
  -- The worker that the `k`-th of the assignments to come goes to.
  unfoldable pub turn : ℕ → ℕ → Registered
  turn zero rr = (assign_round_robin rr x xs).0
  turn (suc k) rr = turn k (assign_round_robin rr x xs).1

  turn-suc : (k c : ℕ) → c + 1 < length (x ∷ xs) → turn (suc k) c ≡ turn k (c + 1)
  unfolding turn assign_round_robin
  turn-suc k c h =
      let here : c % length (x ∷ xs) ≡ c = mod-eq_of_lt (omega arith) in
      let next : (c + 1) % length (x ∷ xs) ≡ c + 1 = mod-eq_of_lt (omega arith) in
      rw (here, next) refl

  -- From a cursor in the pool, the workers to the end of the pool have the next turns.
  turn-forward : (k c : ℕ) → c + k < length (x ∷ xs) → turn k c ≡ get_or (x ∷ xs) (c + k) x
  unfolding turn assign_round_robin
  turn-forward zero c h =
      ap (λ i. get_or (x ∷ xs) i x)
        (mod-eq_of_lt {n = c} {m = length (x ∷ xs)} (omega arith) ∙ omega arith)
  turn-forward (suc k) c h =
      turn-suc k c (omega arith)
      ∙ turn-forward k (c + 1) (omega arith)
      ∙ ap (λ i. get_or (x ∷ xs) i x) (omega arith)

  -- After the last worker comes the first.
  turn-around : (k j c : ℕ) → c + suc j ≡ length (x ∷ xs) → turn (suc j + k) c ≡ turn k 0
  unfolding turn assign_round_robin
  turn-around k zero c h =
      let here : c % length (x ∷ xs) ≡ c = mod-eq_of_lt (omega arith) in
      let last : c + 1 ≡ length (x ∷ xs) = omega arith in
      let wrap : (c + 1) % length (x ∷ xs) ≡ 0 =
        subst (λ n. n % length (x ∷ xs) ≡ 0) (sym last) (mod_self (length (x ∷ xs))) in
      let count : suc zero + k ≡ suc k = omega arith in
      ap (λ m. turn m c) count ∙ rw (here, wrap) refl
  turn-around k (suc j) c h =
      let count : suc (suc j) + k ≡ suc (suc j + k) = omega arith in
      ap (λ m. turn m c) count
      ∙ turn-suc (suc j + k) c (omega arith)
      ∙ turn-around k j (c + 1) (omega arith)

  turn-mod : (k rr : ℕ) → turn k (rr % length (x ∷ xs)) ≡ turn k rr
  unfolding turn assign_round_robin
  turn-mod zero rr =
      let small = mod-lt rr {m = length (x ∷ xs)} (omega arith) in
      let twice : rr % length (x ∷ xs) % length (x ∷ xs) ≡ rr % length (x ∷ xs) =
        mod-eq_of_lt small in
      rw twice refl
  turn-mod (suc k) rr =
      let small = mod-lt rr {m = length (x ∷ xs)} (omega arith) in
      let twice : rr % length (x ∷ xs) % length (x ∷ xs) ≡ rr % length (x ∷ xs) =
        mod-eq_of_lt small in
      rw twice refl

  served_from :
      (c i : ℕ)
      → c < length (x ∷ xs)
      → i < length (x ∷ xs)
      → (k : ℕ) × (k < length (x ∷ xs)) × (turn k c ≡ get_or (x ∷ xs) i x)
  served_from c i h l = elim (Bool-cases (leb c i)) [
    | inl y ↦
        let before = leb→le c i y in
        let place : c + (i - c) ≡ i = omega (arith, before) in
        (
          i - c,
          omega arith,
          turn-forward (i - c) c (omega (arith, before)) ∙ ap (λ m. get_or (x ∷ xs) m x) place,
        )
    | inr n ↦
        let after : i < c = ground arith in
        let rest = length (x ∷ xs) - c - 1 in
        (
          suc rest + i,
          omega arith,
          turn-around i rest c (omega arith)
              ∙ turn-forward i 0 (omega arith)
              ∙ ap (λ m. get_or (x ∷ xs) m x) (omega arith),
        )
  ]

  -- Round robin leaves no worker out: as long as the pool of healthy workers stays the same, every worker
  -- of the pool gets one of the next assignments, as many as the pool has workers, wherever the cursor is.
  pub round_robin-turn :
      (rr i : ℕ)
      → i < length (x ∷ xs)
      → (k : ℕ) × (k < length (x ∷ xs)) × (turn k rr ≡ get_or (x ∷ xs) i x)
  round_robin-turn rr i h =
      let (k, l, e) = served_from (rr % length (x ∷ xs)) i (mod-lt rr (omega arith)) h in
      (k, l, sym (turn-mod k rr) ∙ e)
