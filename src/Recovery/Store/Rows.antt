-- ===== src/Recovery/Store/Rows.antt =====
-- How the tables of src/inferrail/ap/store.py answer after a change.
use inferrail.Common.{
  ℕ, ◌+◌, ◌≤◌, ◌≡◌, refl, true, false, ◌||◌, String, List, [], ◌∷◌, none, some, map, if◌then◌else◌,
  same_text, same_text_iff, arith,
}
use inferrail.Recovery.Store.{has_row, find_row, insert_row, without}

module _ {A : Type 0} (key : A → String) where
  pub has_row-insert_row :
      (k : String) (x : A) (rows : List A)
      → has_row key k (insert_row x rows) ≡ (has_row key k rows || same_text (key x) k)
  has_row-insert_row k x [] = ground arith
  has_row-insert_row k x (r ∷ rows) = ground (arith, has_row-insert_row k x rows)

  pub has_row-map :
      (k : String) (f : A → A) (rows : List A)
      → ((r : A) → key (f r) ≡ key r)
      → has_row key k (map f rows) ≡ has_row key k rows
  has_row-map k f [] h = refl
  has_row-map k f (r ∷ rows) h = rw (h r, has_row-map k f rows h) refl

  pub find_row-none :
      (k : String) (rows : List A) → find_row key k rows ≡ none → has_row key k rows ≡ false
  unfolding find_row
  find_row-none k [] h = refl
  find_row-none k (r ∷ rows) h = ground (arith, h, find_row-none k rows)

  pub find_row-some :
      (k : String) (r : A) (rows : List A)
      → find_row key k rows ≡ some r
      → has_row key k rows ≡ true
  unfolding find_row
  find_row-some k r [] h = absurd (ground (arith, h))
  find_row-some k r (x ∷ rows) h = ground (arith, h, find_row-some k r rows)

  pub has_row-without :
      (k j : String) (rows : List A)
      → same_text j k ≡ false
      → has_row key k (without key j rows) ≡ has_row key k rows
  has_row-without k j [] h = refl
  has_row-without k j (r ∷ rows) h = ground (
    arith,
    h,
    has_row-without k j rows h,
    same_text_iff (key r) j,
    same_text_iff (key r) k,
    same_text_iff j k,
  )

  -- how many rows have the key
  abbrev pub count_rows : String → List A → ℕ
  count_rows k [] = 0
  count_rows k (r ∷ rows) = (if same_text (key r) k then 1 else 0) + count_rows k rows

  pub count_rows-insert_row :
      (k : String) (x : A) (rows : List A)
      → count_rows k (insert_row x rows)
        ≡ (if same_text (key x) k then 1 else 0) + count_rows k rows
  count_rows-insert_row k x [] = refl
  count_rows-insert_row k x (r ∷ rows) = ground (arith, count_rows-insert_row k x rows)

  pub count_rows-absent :
      (k : String) (rows : List A) → has_row key k rows ≡ false → count_rows k rows ≡ 0
  count_rows-absent k [] h = refl
  count_rows-absent k (r ∷ rows) h = ground (arith, h, count_rows-absent k rows)

  pub count_rows-without :
      (k j : String) (rows : List A) → count_rows k (without key j rows) ≤ count_rows k rows
  count_rows-without k j [] = omega arith
  count_rows-without k j (r ∷ rows) = ground (arith, count_rows-without k j rows)
