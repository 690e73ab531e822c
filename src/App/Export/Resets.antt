-- ===== src/App/Export/Resets.antt =====
-- Loops that write every listed item of a keyed store back after a reset.
use mathlib.Core.Path.{subst}
use tatcoin.Base.{
  ◌≡◌, sym, ap, ◌∙◌, ◌⊎◌, inl, inr, Option, some, List, [], ◌∷◌, map, true, false, ◌||◌,
  if◌then◌else◌, Bool-cases,
}
use tatcoin.Keeper.Sdk.{Outcome, ok}
use tatcoin.Keeper.Server.{bytes_equal}
use tatcoin.App.Run.{done, each, each-nil, each-cons}
use tatcoin.App.Export.Sdk.{Text}
use tatcoin.App.Export.Defs.{must}
use tatcoin.App.Export.Validators.{visited, must-done}

module _ {E K U : Type 0} (set : U → K → Outcome E K) (key : U → Text) (reset : U → U)
    (read : K → Text → Option U)
    (written : (u : U) (k k' : K) (p : Text)
      → set u k ≡ ok k'
      → read k' p ≡ (if bytes_equal (key u) p then some u else read k p))
    (keyed : (u : U) → key (reset u) ≡ key u) (P : U → Type 0)
    (resets : (u : U) → P (reset u)) where
  -- What is read is reset already, or is still to be visited.
  abbrev Pending : List U → K → Type 0
  Pending us k = (p : Text) (u : U) → read k p ≡ some u → P u ⊎ (visited (map key us) p ≡ true)

  Pending-round :
      (x : U) (us : List U) (k k' : K)
      → set (reset x) k ≡ ok k'
      → Pending (x ∷ us) k
      → Pending us k'
  unfolding visited
  Pending-round x us k k' e pending p u found = elim (Bool-cases (bytes_equal (key x) p)) [
    | inl here ↦ inl (subst P (same here) (resets x))
    | inr there ↦ still (pending p u (elsewhere there)) there
  ]
    where
      after : read k' p ≡ (if bytes_equal (key x) p then some (reset x) else read k p)
      after =
          written (reset x) k k' p e
          ∙ ap (λ (t : Text). if bytes_equal t p then some (reset x) else read k p) (keyed x)

      same : bytes_equal (key x) p ≡ true → reset x ≡ u
      same here = let one : some (reset x) ≡ some u = sym (rw here at after) ∙ found in cc

      elsewhere : bytes_equal (key x) p ≡ false → read k p ≡ some u
      elsewhere there = sym (rw there at after) ∙ found

      still :
          P u ⊎ (bytes_equal (key x) p || visited (map key us) p ≡ true)
          → bytes_equal (key x) p ≡ false
          → P u ⊎ (visited (map key us) p ≡ true)
      still (inl h) there = inl h
      still (inr h) there = inr (rw there at h)

  -- After the loop everything that is read is reset, if everything that was read was listed.
  pub each-reset :
      (us : List U) (k k' : K)
      → each (λ u s. must (set (reset u) s)) us k ≡ done k'
      → Pending us k
      → (p : Text) (u : U) → read k' p ≡ some u
      → P u
  unfolding visited
  each-reset [] k k' e pending p u found =
      elim (pending p u (ap (λ s. read s p) (each-nil _ k k' e) ∙ found)) [ inl h ↦ h | inr h ↦ cc ]
  each-reset (x ∷ us) k k' e pending p u found =
      let (t, step, rest) = each-cons (λ u s. must (set (reset u) s)) x us k k' e in
      each-reset us t k' rest (Pending-round x us k t (must-done _ t step) pending) p u found
