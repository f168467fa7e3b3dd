-- ===== src/Mapper/Squares.antt =====
-- Arrays of arrays, as the maps of the controllers are.
use pint.Common.{
  ℕ, ◌<◌, ◌≡◌, ap, ◌∙◌, inl, inr, Bool-cases, true, false, ◌&&◌, List, [], arith, ◌==◌,
  if◌then◌else◌, length, get_or, set, length-set, get_or-set,
}

module _ {A : Type 0} where
  -- n rows of n entries.
  pub record Square (n : ℕ) (rows : List (List A)) : Type 0 where
    pub high : length rows ≡ n
    pub wide : (x : ℕ) → x < n → length (get_or rows x []) ≡ n

  abbrev pub entry : List (List A) → ℕ → ℕ → A → A
  entry rows x y other = get_or (get_or rows x []) y other

  abbrev pub set_entry : List (List A) → ℕ → ℕ → A → List (List A)
  set_entry rows x y v = set rows x (set (get_or rows x []) y v)

  row_here :
      (n : ℕ) (rows : List (List A)) (x k : ℕ) (row : List A)
      → x < n
      → Square n rows
      → (x == k) ≡ true
      → get_or (set rows x row) k [] ≡ row
  row_here n rows x k row xn h e = get_or-set rows x k row [] ∙ ground (arith, e, h.high)

  row_there :
      (rows : List (List A)) (x k : ℕ) (row : List A)
      → (x == k) ≡ false
      → get_or (set rows x row) k [] ≡ get_or rows k []
  row_there rows x k row e = get_or-set rows x k row [] ∙ ground (arith, e)

  pub set_entry-Square :
      (n : ℕ) (rows : List (List A)) (x y : ℕ) (v : A)
      → x < n
      → Square n rows
      → Square n (set_entry rows x y v)
  set_entry-Square n rows x y v xn h = record {
    high = length-set rows x (set (get_or rows x []) y v) ∙ h.high;
    wide = λ k kn.
        let row = set (get_or rows x []) y v in
        elim (Bool-cases (x == k)) [
          | inl e ↦
              ap length (row_here n rows x k row xn h e)
              ∙ length-set (get_or rows x []) y v
              ∙ h.wide x xn
          | inr e ↦ ap length (row_there rows x k row e) ∙ h.wide k kn
        ];
  }

  -- The entry that was written changes, the others stay.
  pub entry-set_entry :
      (n : ℕ) (rows : List (List A)) (x y k l : ℕ) (v other : A)
      → x < n
      → y < n
      → Square n rows
      → entry (set_entry rows x y v) k l other
        ≡ (if (x == k) && (y == l) then v else entry rows k l other)
  entry-set_entry n rows x y k l v other xn yn h =
      let row = set (get_or rows x []) y v in
      elim (Bool-cases (x == k)) [
        | inl e ↦
            let same : x ≡ k = ground (arith, e) in
            ap (λ r. get_or r l other) (row_here n rows x k row xn h e)
            ∙ get_or-set (get_or rows x []) y l v other
            ∙ ground (arith, e, h.wide x xn, ap (λ i. get_or (get_or rows i []) l other) same)
        | inr e ↦ rw e (ap (λ r. get_or r l other) (row_there rows x k row e))
      ]
