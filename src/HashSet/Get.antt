-- ===== src/HashSet/Get.antt =====
-- `hash_set_get` on a table in which every element can be reached from the place of its hash.
use mathlib.Core.Path.{subst}
use syrup.Base.{
  ℕ, zero, suc, ◌+◌, ◌%◌, ◌≤◌, ◌<◌, ◌≡◌, ◌≢◌, refl, sym, ap, ◌∙◌, inl, inr, true, false, none, List,
  arith, length, ◌==◌, if◌then◌else◌, Bool-cases, ℕ_discrete, dec_lt, ==_iff,
}
use syrup.HashSet.{
  Cell, free, occupied, deleted, is_used, at, next_index, Found, hit, miss, endless, found,
  get_loop, passes_over,
}
use syrup.HashSet.Cells.{tally, tally-none, holds_key, find_key, find_key-eq-none, find_key-at}
use syrup.HashSet.Probe.{
  dist, dist-lt, dist_inj, dist_next, Before, Before-start, Before-next, all_passed,
}

module _ {A : Type 0} (key : A → ℕ) (hash : ℕ → ℕ) where
  -- No cell between the hashed index of an element and its own was ever free.
  abbrev pub IsPlaced : List (Cell A) → Type 0
  IsPlaced cells =
      (i : ℕ) (a : A)
      → i < length cells
      → at cells i ≡ occupied a
      → Before is_used cells (hash (key a) % length cells) i

  pub holds_key-eq :
      (k : ℕ) (c : Cell A) → holds_key key k c ≡ true → (a : A) × (c ≡ occupied a) × (key a ≡ k)
  holds_key-eq k free h = cc
  holds_key-eq k (occupied a) h = (a, refl, (==_iff (key a) k).0 h)
  holds_key-eq k (deleted o) h = cc

  not-holds_key : (k : ℕ) (c : Cell A) → passes_over key hash k c ≡ true → holds_key key k c ≡ false
  not-holds_key k free h = refl
  not-holds_key k (occupied a) h = ground arith
  not-holds_key k (deleted o) h = refl

  free-ne-occupied : (a : A) → free ≡ occupied a → ⊥
  free-ne-occupied a h = cc

  free-not_used : false ≡ true → ⊥
  free-not_used h = cc

  hit-index : {i j : ℕ} {a b : A} → hit i a ≡ hit j b → i ≡ j
  hit-index h = cc

  hit-element : {i j : ℕ} {a b : A} → hit i a ≡ hit j b → a ≡ b
  hit-element h = cc

  -- What a search that ended tells.
  pub record Answers (k : ℕ) (cells : List (Cell A)) (r : Found A) : Type 0 where
    pub value : found r ≡ find_key key k cells
    pub ended : r ≢ endless
    pub place : (i : ℕ) (a : A) → r ≡ hit i a → (i < length cells) × (at cells i ≡ occupied a)

  module _ (k : ℕ) (cells : List (Cell A)) (pos : 0 < length cells) (placed : IsPlaced cells)
      (one : tally (holds_key key k) cells ≤ 1) where
    abbrev pub start : ℕ
    start = hash k % length cells

    pub start-lt : start < length cells
    start-lt = grind arith

    Answers-miss : find_key key k cells ≡ none → Answers k cells miss
    Answers-miss e = record { value = sym e; ended = λ h. cc; place = λ i a h. cc }

    -- The search stops at a free cell, or round at its start.
    none_past :
        ((j : ℕ) → j < length cells → passes_over key hash k (at cells j) ≡ true)
        → find_key key k cells ≡ none
    none_past past =
        find_key-eq-none key k cells
          (tally-none (holds_key key k) cells (λ j hj. not-holds_key k (at cells j) (past j hj)))

    pub none-at_free :
        (i : ℕ)
        → i < length cells
        → Before (passes_over key hash k) cells start i
        → at cells i ≡ free
        → find_key key k cells ≡ none
    none-at_free i hi before e =
        find_key-eq-none key k cells (tally-none (holds_key key k) cells absent)
      where
        absent : (j : ℕ) → j < length cells → holds_key key k (at cells j) ≡ false
        absent j hj = elim (Bool-cases (holds_key key k (at cells j))) [
          | inr no_key ↦ no_key
          | inl held ↦
              let (a, here, same) = holds_key-eq k (at cells j) held in
              elim (dec_lt (dist (length cells) start j) (dist (length cells) start i)) [
                | yes near ↦ not-holds_key k (at cells j) (before j hj near)
                | no far ↦
                    elim (ℕ_discrete (dist (length cells) start i) (dist (length cells) start j)) [
                      | yes level ↦
                          let met : i ≡ j =
                            dist_inj (length cells) start start-lt i j hi hj level in
                          absurd (free-ne-occupied a (sym e ∙ ap (at cells) met ∙ here))
                      | no apart ↦
                          let used : is_used (at cells i) ≡ true =
                            subst (λ q. Before is_used cells (hash q % length cells) j) same
                              (placed j a hj here) i hi (omega arith) in
                          absurd (free-not_used (sym (ap is_used e) ∙ used))
                    ]
              ]
        ]

    get_loop-Answers :
        (left i : ℕ)
        → i < length cells
        → length cells ≤ left + dist (length cells) start i
        → Before (passes_over key hash k) cells start i
        → Answers k cells (get_loop key hash left k start cells i)
    unfolding get_loop
    get_loop-Answers zero i hi enough before =
        absurd (omega (arith, dist-lt (length cells) start start-lt i hi))
    get_loop-Answers (suc left) i hi enough before =
        go (at cells i) refl (get_loop-Answers left (next_index (length cells) i))
      where
        next : ℕ
        next = next_index (length cells) i

        rest : Found A
        rest = get_loop key hash left k start cells next

        further :
            (next < length cells
              → length cells ≤ left + dist (length cells) start next
              → Before (passes_over key hash k) cells start next
              → Answers k cells rest)
            → passes_over key hash k (at cells i) ≡ true
            → Answers k cells (if next == start then miss else rest)
        further rec here = elim (dist_next (length cells) start start-lt i hi).1 [
          | inl (again, last) ↦ rw again (
              Answers-miss (
                none_past
                  (all_passed cells start start-lt (passes_over key hash k) i hi before here last)))
          | inr (on, step) ↦ rw on (
              rec (dist_next (length cells) start start-lt i hi).0 (omega (arith, enough, step))
                (Before-next cells start start-lt (passes_over key hash k) i hi before here step))
        ]

        go :
            (c : Cell A)
            → at cells i ≡ c
            → (next < length cells
                → length cells ≤ left + dist (length cells) start next
                → Before (passes_over key hash k) cells start next
                → Answers k cells rest)
            → Answers k cells (elim c [
              | free ↦ miss
              | occupied a ↦ if key a == k then hit i a else (if next == start then miss else rest)
              | deleted o ↦ if next == start then miss else rest
            ])
        go free e rec = Answers-miss (none-at_free i hi before e)
        go (deleted o) e rec = further rec (rw e refl)
        go (occupied a) e rec = elim (Bool-cases (key a == k)) [
          | inr other ↦ rw other (further rec (rw (e, other) refl))
          | inl this ↦ rw this (record {
            value = sym (find_key-at key k cells i a hi e ((==_iff (key a) k).0 this) one);
            ended = λ h. cc;
            place = λ j b h. (
              subst (λ m. m < length cells) (hit-index h) hi,
              ap (at cells) (sym (hit-index h)) ∙ e ∙ ap occupied (hit-element h),
            );
          })
        ]

    -- A search for the key answers what the table holds for it, and it ends.
    pub get_loop-start-Answers :
        Answers k cells (get_loop key hash (length cells) k start cells start)
    get_loop-start-Answers =
        get_loop-Answers (length cells) start start-lt (omega arith)
          (Before-start cells start start-lt (passes_over key hash k))
