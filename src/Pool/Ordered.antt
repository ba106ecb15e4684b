-- ===== src/Pool/Ordered.antt =====
-- Lists in the order of a key of two numbers: the maps and the sets of the memory pool.
use naza.Common.{ℕ, ◌+◌}
use naza.Common.{◌≡◌, refl, sym, ap, ◌∙◌, ◌⊎◌, inl, inr, arith}
use naza.Common.{Bool, true, false, ◌&&◌, ◌||◌, ltb, ◌==◌, if◌then◌else◌, Bool-cases}
use naza.Common.{Option, none, some, List, [], ◌∷◌}
use naza.Common.Options.{some_eq}

-- The order of pairs.
abbrev pub before : ℕ × ℕ → ℕ × ℕ → Bool
before (a, b) (c, d) = ltb a c || (a == c && ltb b d)

abbrev pub same : ℕ × ℕ → ℕ × ℕ → Bool
same (a, b) (c, d) = a == c && b == d

before_trans : (x y z : ℕ × ℕ) → before x y ≡ true → before y z ≡ true → before x z ≡ true
before_trans (a, b) (c, d) (e, f) h k = ground (arith, h, k)

before_total : (x y : ℕ × ℕ) → before x y ≡ false → same x y ≡ false → before y x ≡ true
before_total (a, b) (c, d) h k = ground (arith, h, k)

module _ {A : Type 0} (key : A → ℕ × ℕ) where
  abbrev pub find_key : List A → ℕ × ℕ → Option A
  find_key [] k = none
  find_key (x ∷ xs) k = if same k (key x) then some x else find_key xs k

  -- `insert` of a key that is not there.
  abbrev pub insert_key : List A → A → List A
  insert_key [] a = a ∷ []
  insert_key (x ∷ xs) a = if before (key a) (key x) then a ∷ x ∷ xs else x ∷ insert_key xs a

  abbrev pub erase_key : List A → ℕ × ℕ → List A
  erase_key [] k = []
  erase_key (x ∷ xs) k = if same k (key x) then xs else x ∷ erase_key xs k

  abbrev pub sum_of : (A → ℕ) → List A → ℕ
  sum_of weight [] = 0
  sum_of weight (x ∷ xs) = weight x + sum_of weight xs

  abbrev pub Over : ℕ × ℕ → List A → Type 0
  Over k [] = Unit
  Over k (x ∷ xs) = (before k (key x) ≡ true) × Over k xs

  abbrev pub IsOrdered : List A → Type 0
  IsOrdered [] = Unit
  IsOrdered (x ∷ xs) = Over (key x) xs × IsOrdered xs

  Over-mono : (j k : ℕ × ℕ) (xs : List A) → before j k ≡ true → Over k xs → Over j xs
  Over-mono j k [] h o = tt
  Over-mono j k (x ∷ xs) h o = (before_trans j k (key x) h o.0, Over-mono j k xs h o.1)

  insert-Over :
      (k : ℕ × ℕ) (xs : List A) (a : A)
      → before k (key a) ≡ true
      → Over k xs
      → Over k (insert_key xs a)
  insert-Over k [] a h o = (h, tt)
  insert-Over k (x ∷ xs) a h o = elim (Bool-cases (before (key a) (key x))) [
    | inl lt ↦ rw lt (h, o)
    | inr ge ↦ rw ge (o.0, insert-Over k xs a h o.1)
  ]

  pub insert-IsOrdered :
      (xs : List A) (a : A)
      → IsOrdered xs
      → find_key xs (key a) ≡ none
      → IsOrdered (insert_key xs a)
  insert-IsOrdered [] a o free = (tt, tt)
  insert-IsOrdered (x ∷ xs) a o free = elim (Bool-cases (before (key a) (key x))) [
    | inl lt ↦ rw lt ((lt, Over-mono (key a) (key x) xs lt o.0), o)
    | inr ge ↦ elim (Bool-cases (same (key a) (key x))) [
      | inl eq ↦ absurd (clash eq)
      | inr ne ↦ rw ge (
        insert-Over (key x) xs a (before_total (key a) (key x) ge ne) o.0,
        insert-IsOrdered xs a o.1
            (sym (ap (λ (b : Bool). if b then some x else find_key xs (key a)) ne) ∙ free),
      )
    ]
  ]
    where
      clash : same (key a) (key x) ≡ true → ⊥
      clash eq =
          let e : some x ≡ none =
            sym (ap (λ (b : Bool). if b then some x else find_key xs (key a)) eq) ∙ free in
          cc e

  erase-Over : (j k : ℕ × ℕ) (xs : List A) → Over j xs → Over j (erase_key xs k)
  erase-Over j k [] o = tt
  erase-Over j k (x ∷ xs) o = elim (Bool-cases (same k (key x))) [
    | inl eq ↦ rw eq o.1
    | inr ne ↦ rw ne (o.0, erase-Over j k xs o.1)
  ]

  pub erase-IsOrdered : (xs : List A) (k : ℕ × ℕ) → IsOrdered xs → IsOrdered (erase_key xs k)
  erase-IsOrdered [] k o = tt
  erase-IsOrdered (x ∷ xs) k o = elim (Bool-cases (same k (key x))) [
    | inl eq ↦ rw eq o.1
    | inr ne ↦ rw ne (erase-Over (key x) k xs o.0, erase-IsOrdered xs k o.1)
  ]

  find-Over : (j k : ℕ × ℕ) (xs : List A) → Over j xs → same k j ≡ true → find_key xs k ≡ none
  find-Over j k [] o e = refl
  find-Over j k (x ∷ xs) o e = rw (differ j k (key x) o.0 e) (find-Over j k xs o.1 e)
    where
      differ : (j k y : ℕ × ℕ) → before j y ≡ true → same k j ≡ true → same k y ≡ false
      differ (a, b) (c, d) (e, f) h s = ground (arith, h, s)

  pub find-insert :
      (xs : List A) (a : A) (k : ℕ × ℕ)
      → find_key xs (key a) ≡ none
      → find_key (insert_key xs a) k ≡ (if same k (key a) then some a else find_key xs k)
  find-insert [] a k free = refl
  find-insert (x ∷ xs) a k free = elim (Bool-cases (before (key a) (key x))) [
    | inl lt ↦ rw lt refl
    | inr ge ↦ rw ge (later (find-insert xs a k) (Bool-cases (same (key a) (key x))))
  ]
    where
      apart : (k a x : ℕ × ℕ) → same k a ≡ true → same a x ≡ false → same k x ≡ false
      apart (a, b) (c, d) (e, f) h s = ground (arith, h, s)

      later :
          (find_key xs (key a) ≡ none
            → find_key (insert_key xs a) k ≡ (if same k (key a) then some a else find_key xs k))
          → (same (key a) (key x) ≡ true) ⊎ (same (key a) (key x) ≡ false)
          → (if same k (key x) then some x else find_key (insert_key xs a) k)
            ≡ (if same k (key a) then some a else if same k (key x) then some x else find_key xs k)
      later others (inl eq) =
          let e : some x ≡ none =
            sym (ap (λ (b : Bool). if b then some x else find_key xs (key a)) eq) ∙ free in
          absurd (cc e)
      later others (inr ne) =
          let free' : find_key xs (key a) ≡ none =
            sym (ap (λ (b : Bool). if b then some x else find_key xs (key a)) ne) ∙ free in
          elim (Bool-cases (same k (key a))) [
            | inl at ↦
                rw (apart k (key a) (key x) at ne, at)
                  (others free' ∙ ap (λ (b : Bool). if b then some a else find_key xs k) at)
            | inr off ↦ rw off (
                ap (λ (m : Option A). if same k (key x) then some x else m)
                  (others free' ∙ ap (λ (b : Bool). if b then some a else find_key xs k) off))
          ]

  pub find-erase :
      (xs : List A) (j k : ℕ × ℕ)
      → IsOrdered xs
      → find_key (erase_key xs j) k ≡ (if same k j then none else find_key xs k)
  find-erase [] j k o = elim (Bool-cases (same k j)) [ inl e ↦ rw e refl | inr e ↦ rw e refl ]
  find-erase (x ∷ xs) j k o = elim (Bool-cases (same j (key x))) [
    | inl eq ↦ elim (Bool-cases (same k j)) [
      | inl at ↦ rw (eq, at) (find-Over (key x) k xs o.0 (via k j (key x) at eq))
      | inr off ↦ rw (eq, off, other k j (key x) off eq) refl
    ]
    | inr ne ↦ elim (Bool-cases (same k j)) [
      | inl at ↦
          rw (ne, at, distinct k j (key x) at ne)
            (find-erase xs j k o.1 ∙ ap (λ (b : Bool). if b then none else find_key xs k) at)
      | inr off ↦
          rw (ne, off)
            (ap (λ (m : Option A). if same k (key x) then some x else m)
              (find-erase xs j k o.1 ∙ ap (λ (b : Bool). if b then none else find_key xs k) off))
    ]
  ]
    where
      via : (k j x : ℕ × ℕ) → same k j ≡ true → same j x ≡ true → same k x ≡ true
      via (a, b) (c, d) (e, f) h s = ground (arith, h, s)

      other : (k j x : ℕ × ℕ) → same k j ≡ false → same j x ≡ true → same k x ≡ false
      other (a, b) (c, d) (e, f) h s = ground (arith, h, s)

      distinct : (k j x : ℕ × ℕ) → same k j ≡ true → same j x ≡ false → same k x ≡ false
      distinct (a, b) (c, d) (e, f) h s = ground (arith, h, s)

  pub sum-insert :
      (weight : A → ℕ) (xs : List A) (a : A)
      → sum_of weight (insert_key xs a) ≡ weight a + sum_of weight xs
  sum-insert weight [] a = refl
  sum-insert weight (x ∷ xs) a = elim (Bool-cases (before (key a) (key x))) [
    | inl lt ↦ rw lt refl
    | inr ge ↦ rw ge (omega (arith, sum-insert weight xs a))
  ]

  pub sum-erase :
      (weight : A → ℕ) (xs : List A) (k : ℕ × ℕ) (a : A)
      → find_key xs k ≡ some a
      → sum_of weight xs ≡ weight a + sum_of weight (erase_key xs k)
  sum-erase weight [] k a h = cc
  sum-erase weight (x ∷ xs) k a h = elim (Bool-cases (same k (key x))) [
    | inl eq ↦
        let e : x ≡ a =
          some_eq (sym (ap (λ (b : Bool). if b then some x else find_key xs k) eq) ∙ h) in
        rw eq (ap (λ (y : A). weight y + sum_of weight xs) e)
    | inr ne ↦
        let rest : find_key xs k ≡ some a =
          sym (ap (λ (b : Bool). if b then some x else find_key xs k) ne) ∙ h in
        rw ne (omega (arith, sum-erase weight xs k a rest))
  ]
