-- ===== src/Client/Inventory/Held.antt =====
-- Sums over the slots of a table, and how much of an item an inventory holds.
use syrup.Base.{
  ℕ, zero, suc, ◌+◌, ◌<◌, ◌≡◌, ◌≢◌, refl, ◌∙◌, ap, ap₂, sym, inl, inr, true, ◌==◌, if◌then◌else◌,
  arith, Option-cases, ℕ_discrete,
}
use syrup.Base.Int.{ℤ, pos, ◌+ℤ◌, int_laws, pos_part, neg_part}
use syrup.Character.{Character, Stack, Inventory, put}
use syrup.Client.Inventory.{ammunition, seek_projectile}

unfoldable pub sum_to : (n : ℕ) → (ℕ → ℤ) → ℤ
sum_to zero f = pos 0
sum_to (suc n) f = sum_to n f +ℤ f n

pub sum_to-same : (n : ℕ) (f g : ℕ → ℤ) → ((j : ℕ) → j < n → g j ≡ f j) → sum_to n g ≡ sum_to n f
unfolding sum_to
sum_to-same zero f g h = refl
sum_to-same (suc n) f g h =
    ap₂ ◌+ℤ◌ (sum_to-same n f g (λ j lt. h j (omega arith))) (h n (omega arith))

swap_last : (a b c : ℤ) → a +ℤ b +ℤ c ≡ a +ℤ c +ℤ b
swap_last a b c = omega int_laws

-- A change of one value changes the sum by as much.
pub sum_to-change :
    (n i : ℕ) (f g : ℕ → ℤ)
    → i < n
    → ((j : ℕ) → j ≢ i → g j ≡ f j)
    → sum_to n g +ℤ f i ≡ sum_to n f +ℤ g i
unfolding sum_to
sum_to-change zero i f g h same = absurd (omega arith)
sum_to-change (suc n) i f g h same = elim (ℕ_discrete i n) [
  | yes e ↦
      let below = sum_to-same n f g (λ j lt. same j (λ q. absurd (omega arith))) in
      rw (e, below) (swap_last (sum_to n f) (g n) (f n))
  | no ne ↦
      let before = sum_to-change n i f g (omega arith) same in
      let last = same n (λ q. ne (sym q)) in
      swap_last (sum_to n g) (g n) (f i) ∙ ap₂ ◌+ℤ◌ before last ∙ swap_last (sum_to n f) (g i) (f n)
]

abbrev pub amount_of : (id : ℕ) → Stack → ℤ
amount_of id stack =
    if stack.is_empty
    then pos 0
    else if stack.item.item.item_id == id
    then stack.item.quantity
    else pos 0

pub empty_amount : (id : ℕ) (stack : Stack) → stack.is_empty ≡ true → amount_of id stack ≡ pos 0
empty_amount id stack e = rw e refl

pub zero_right : (a : ℤ) → a +ℤ pos 0 ≡ pos 0 +ℤ a
unfolding ◌+ℤ◌
zero_right a = ground arith

unfoldable pub held : (id : ℕ) → Inventory → ℤ
held id inv = sum_to inv.slot_count (λ i. amount_of id (inv.items i))

pub put_self {ℓ} : {A : Type ℓ} (t : ℕ → A) (i : ℕ) (v : A) → put t i v i ≡ v
put_self t i v = ground arith

pub put_ne {ℓ} : {A : Type ℓ} (t : ℕ → A) (i j : ℕ) (v : A) → j ≢ i → put t i v j ≡ t j
put_ne t i j v ne = ground arith

pub put-held :
    (id : ℕ) (inv : Inventory) (i : ℕ) (stack : Stack)
    → i < inv.slot_count
    → held id (record inv { items = put inv.items i stack }) +ℤ amount_of id (inv.items i)
      ≡ held id inv +ℤ amount_of id stack
unfolding held
put-held id inv i stack lt =
    sum_to-change inv.slot_count i (λ j. amount_of id (inv.items j))
      (λ j. amount_of id (put inv.items i stack j)) lt
      (λ j ne. ap (amount_of id) (put_ne inv.items i j stack ne))
    ∙ ap (λ s. held id inv +ℤ amount_of id s) (put_self inv.items i stack)

pub seek_projectile-inventory :
    (wid from otherwise : ℕ) (chr : Character)
    → (seek_projectile wid from otherwise chr).inventory ≡ chr.inventory
unfolding seek_projectile
seek_projectile-inventory wid from otherwise chr = elim (Option-cases (ammunition wid)) [
  | inl e ↦ rw (seek_projectile, e) refl
  | inr (uses, e) ↦ rw (seek_projectile, e) refl
]

pub parts_of_eq : {a b : ℤ} → a ≡ b → pos_part a + neg_part b ≡ pos_part b + neg_part a
parts_of_eq {b} e = rw e refl

-- What leaves a slot leaves the sum.
pub balance :
    (after before old left item : ℤ)
    → after +ℤ old ≡ before +ℤ left
    → left +ℤ item ≡ old
    → after +ℤ item ≡ before
balance after before old left item h k =
    let p = parts_of_eq h in let q = parts_of_eq k in omega int_laws

-- What enters a slot comes from the rest.
pub carry :
    (after before old new rest rest' total : ℤ)
    → after +ℤ old ≡ before +ℤ new
    → new +ℤ rest' ≡ old +ℤ rest
    → before +ℤ rest ≡ total
    → after +ℤ rest' ≡ total
carry after before old new rest rest' total h k e =
    let p = parts_of_eq h in let q = parts_of_eq k in let r = parts_of_eq e in omega int_laws
