-- ===== src/Cmd/Tables.antt =====
-- Maps that a loop fills with the elements of a list, key by key.
use tatcoin.Base.{
  ℕ, zero, suc, ◌+◌, ◌<◌, ◌≤◌, ◌≡◌, refl, ◌∙◌, none, List, [], ◌∷◌, true, false, ◌==◌, get_elem?,
  arith,
}
use tatcoin.Cmd.Flags.{Map, lookup}

-- The elements of a list under the keys from `top` on.
unfoldable pub enter : {A : Type 0} → List A → ℕ → Map A → Map A
enter [] top m = m
enter (x ∷ xs) top m = enter xs (top + 1) ((top, x) ∷ m)

-- The keys before `top` are left alone.
lookup-enter_below :
    {A : Type 0} (xs : List A) (top i : ℕ) (m : Map A)
    → i < top
    → lookup i (enter xs top m) ≡ lookup i m
unfolding enter lookup
lookup-enter_below [] top i m h = refl
lookup-enter_below (x ∷ xs) top i m h =
    let other : (i == top) ≡ false = ground arith in
    lookup-enter_below xs (top + 1) i ((top, x) ∷ m) (omega arith) ∙ rw other refl

-- The keys from `top` on are those of the list.
lookup-enter_above :
    {A : Type 0} (xs : List A) (top j : ℕ) (m : Map A)
    → ((k : ℕ) → top ≤ k → lookup k m ≡ none)
    → lookup (top + j) (enter xs top m) ≡ get_elem? xs j
unfolding enter lookup
lookup-enter_above [] top j m fresh = fresh (top + j) (omega arith)
lookup-enter_above (x ∷ xs) top zero m fresh =
    let here : top + 0 ≡ top = omega arith in
    let same : (top == top) ≡ true = ground arith in
    rw here (lookup-enter_below xs (top + 1) top ((top, x) ∷ m) (omega arith) ∙ rw same refl)
lookup-enter_above (x ∷ xs) top (suc j) m fresh =
    let next : top + suc j ≡ top + 1 + j = omega arith in
    rw next (lookup-enter_above xs (top + 1) j ((top, x) ∷ m) later)
  where
    later : (k : ℕ) → top + 1 ≤ k → lookup k ((top, x) ∷ m) ≡ none
    later k h = let other : (k == top) ≡ false = ground arith in rw other (fresh k (omega arith))

-- From an empty map, the element at an index is found under that index.
pub lookup-enter : {A : Type 0} (xs : List A) (i : ℕ) → lookup i (enter xs 0 []) ≡ get_elem? xs i
unfolding lookup
lookup-enter xs i =
    let start : 0 + i ≡ i = omega arith in rw start at (lookup-enter_above xs 0 i [] (λ k h. refl))
