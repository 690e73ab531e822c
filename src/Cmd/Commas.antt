-- ===== src/Cmd/Commas.antt =====
-- Texts without a comma, and `strings.Split` of texts that are joined by commas.
use tatcoin.Base.{
  ℕ, zero, suc, ◌+◌, ◌/◌, ◌%◌, ◌≡◌, refl, ap, ◌∙◌, List, [], ◌∷◌, ◌++◌, Bool, true, false, not,
  ◌&&◌, ◌==◌, ◌^◌, ◌-◌, if◌then◌else◌, arith,
}
use tatcoin.Cmd.Flags.{Text, push, split, digits, itoa}

abbrev pub comma_free : Text → Bool
comma_free [] = true
comma_free (c ∷ s) = not (c == 44) && comma_free s

pub comma_free-append :
    (s t : Text) → comma_free s ≡ true → comma_free t ≡ true → comma_free (s ++ t) ≡ true
comma_free-append [] t h k = k
comma_free-append (c ∷ s) t h k = ground (arith, comma_free-append s t)

comma_free-digits :
    (fuel n : ℕ) (rest : Text) → comma_free rest ≡ true → comma_free (digits fuel n rest) ≡ true
unfolding digits
comma_free-digits zero n rest h = h
comma_free-digits (suc fuel) n rest h =
    let later = comma_free-digits fuel (n / 10) ((48 + n % 10) ∷ rest) (ground arith) in
    ground arith

pub comma_free-itoa : (n : ℕ) → comma_free (itoa n) ≡ true
unfolding itoa
comma_free-itoa n =
    ground (arith, comma_free-digits 20 n [] refl, comma_free-digits 20 (2 ^ 64 - n) [] refl)

-- The parts of a text are never none.
split-cons : (s : Text) → (part : Text) × (parts : List Text) × (split s ≡ part ∷ parts)
unfolding split
split-cons [] = ([], [], refl)
split-cons (c ∷ s) = go (c == 44) (split-cons s)
  where
    go :
        (b : Bool)
        → (part : Text) × (parts : List Text) × (split s ≡ part ∷ parts)
        → (part : Text) × (parts : List Text) × ((if b then [] ∷ split s else push c (split s))
            ≡ part ∷ parts)
    go true (part, parts, e) = ([], split s, refl)
    go false (part, parts, e) = (c ∷ part, parts, ap (push c) e)

push-append :
    (c : ℕ) (xs ys : List Text)
    → (part : Text) × (parts : List Text) × (xs ≡ part ∷ parts)
    → push c (xs ++ ys) ≡ push c xs ++ ys
push-append c [] ys (part, parts, e) = cc
push-append c (x ∷ xs) ys some_part = refl

pub split-append : (s t : Text) → split (s ++ (44 ∷ t)) ≡ split s ++ split t
unfolding split
split-append [] t = refl
split-append (c ∷ s) t = go (c == 44) (split-append s t)
  where
    go :
        (b : Bool)
        → split (s ++ (44 ∷ t)) ≡ split s ++ split t
        → (if b then [] ∷ split (s ++ (44 ∷ t)) else push c (split (s ++ (44 ∷ t))))
          ≡ (if b then [] ∷ split s else push c (split s)) ++ split t
    go true e = ap (λ (xs : List Text). [] ∷ xs) e
    go false e = ap (push c) e ∙ push-append c (split s) (split t) (split-cons s)

pub split-comma_free : (s : Text) → comma_free s ≡ true → split s ≡ s ∷ []
unfolding split
split-comma_free [] h = refl
split-comma_free (c ∷ s) h = go (c == 44) h (λ k. split-comma_free s k)
  where
    go :
        (b : Bool)
        → not b && comma_free s ≡ true
        → (comma_free s ≡ true → split s ≡ s ∷ [])
        → (if b then [] ∷ split s else push c (split s)) ≡ (c ∷ s) ∷ []
    go true k later = cc
    go false k later = ap (push c) (later k)
