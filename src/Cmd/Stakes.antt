-- ===== src/Cmd/Stakes.antt =====
-- The stake and the port of a validator (cmd/tatcoind/cmd/testnet_multi_node.go).
use tatcoin.Base.{
  ℕ, zero, suc, ◌+◌, ◌*◌, ◌<◌, ◌≡◌, refl, sym, ap, ◌∙◌, Option, none, some, List, [], ◌∷◌,
  get_elem?, arith,
}
use tatcoin.App.Run.{Run, done, panics, ◌>>=◌}
use tatcoin.Cmd.Flags.{
  Text, Map, lookup, split, int_sub, itoa, read_stakes_loop, read_stakes, default_ports,
  listed_ports, read_ports, or_empty, port_of,
}
use tatcoin.Cmd.Tables.{enter, lookup-enter}

done-injective : {A : Type 0} {a b : A} → done a ≡ done b → a ≡ b
done-injective {a = a} h = cc

module _ {N Coin : Type 0} (new_int_from_string : Text → Option N) (new_coin : N → Run Coin) where
  -- The coin of an amount, where it is a number that makes one.
  abbrev coin_of : Run Coin → List Coin → List Coin
  coin_of (done coin) rest = coin ∷ rest
  coin_of panics rest = rest

  abbrev coin_if : Option N → List Coin → List Coin
  coin_if none rest = rest
  coin_if (some a) rest = coin_of (new_coin a) rest

  -- The coins of the amounts that are numbers, in their order.
  pub coins : List Text → List Coin
  coins [] = []
  coins (amount ∷ amounts) = coin_if (new_int_from_string amount) (coins amounts)

  read_stakes_loop-enter :
      (amounts : List Text) (top : ℕ) (m m' : Map Coin)
      → read_stakes_loop new_int_from_string new_coin amounts top m ≡ done m'
      → m' ≡ enter (coins amounts) top m
  unfolding read_stakes_loop coins enter
  read_stakes_loop-enter [] top m m' e = sym (done-injective e)
  read_stakes_loop-enter (amount ∷ amounts) top m m' e =
      go (new_int_from_string amount) (λ t k h. read_stakes_loop-enter amounts t k m' h) e
    where
      coined :
          (r : Run Coin)
          → ((t : ℕ) (k : Map Coin)
              → read_stakes_loop new_int_from_string new_coin amounts t k ≡ done m'
              → m' ≡ enter (coins amounts) t k)
          → (r >>= λ coin.
              read_stakes_loop new_int_from_string new_coin amounts (top + 1) ((top, coin) ∷ m))
            ≡ done m'
          → m' ≡ enter (coin_of r (coins amounts)) top m
      coined (done coin) later h = later (top + 1) ((top, coin) ∷ m) h
      coined panics later h = absurd (no_map h)
        where
          no_map : panics ≡ done m' → ⊥
          no_map p = cc

      go :
          (o : Option N)
          → ((t : ℕ) (k : Map Coin)
              → read_stakes_loop new_int_from_string new_coin amounts t k ≡ done m'
              → m' ≡ enter (coins amounts) t k)
          → elim o as (λ x. Run (Map Coin)) [
            | none ↦ read_stakes_loop new_int_from_string new_coin amounts top m
            | some a ↦ new_coin a >>= λ coin.
                read_stakes_loop new_int_from_string new_coin amounts (top + 1) ((top, coin) ∷ m)
          ]
            ≡ done m'
          → m' ≡ enter (coin_if o (coins amounts)) top m
      go none later h = later top m h
      go (some a) later h = coined (new_coin a) later h

  -- If the stakes are read without a panic, the stake of validator `i` is the `i`-th of the amounts
  -- that are numbers, and there is none if they are fewer: an amount that is not a number does not
  -- take the place of a validator.
  pub lookup-read_stakes :
      (s : Text) (m : Map Coin) (i : ℕ)
      → read_stakes new_int_from_string new_coin s ≡ done m
      → lookup i m ≡ get_elem? (coins (split s)) i
  unfolding read_stakes
  lookup-read_stakes s m i e =
      rw (read_stakes_loop-enter (split s) 0 [] m e) (lookup-enter (coins (split s)) i)

listed_ports-enter :
    (ports : List Text) (top : ℕ) (m : Map Text) → listed_ports ports top m ≡ enter ports top m
unfolding listed_ports enter
listed_ports-enter [] top m = refl
listed_ports-enter (port ∷ ports) top m = listed_ports-enter ports (top + 1) ((top, port) ∷ m)

-- The default ports as a list.
some_ports : ℕ → ℕ → List Text
some_ports zero top = []
some_ports (suc n) top = itoa (int_sub 26657 (3 * top)) ∷ some_ports n (top + 1)

default_ports-enter :
    (n top : ℕ) (m : Map Text) → default_ports n top m ≡ enter (some_ports n top) top m
unfolding default_ports enter some_ports
default_ports-enter zero top m = refl
default_ports-enter (suc n) top m = default_ports-enter n (top + 1) _

get_elem?-some_ports :
    (n top i : ℕ)
    → i < n
    → get_elem? (some_ports n top) i ≡ some (itoa (int_sub 26657 (3 * (top + i))))
unfolding some_ports
get_elem?-some_ports zero top i h = absurd (omega arith)
get_elem?-some_ports (suc n) top zero h = let e : top + 0 ≡ top = omega arith in rw e refl
get_elem?-some_ports (suc n) top (suc i) h =
    let e : top + suc i ≡ top + 1 + i = omega arith in
    rw e (get_elem?-some_ports n (top + 1) i (omega arith))

-- The port of validator `i` is, for a flag that is not empty, the `i`-th part of the flag, or the
-- empty text if it has fewer parts; and for an empty flag, where `i` is one of the `n` validators,
-- the number 26657 - 3 * i.
pub port_of-read_ports :
    (c : ℕ) (s : Text) (n i : ℕ)
    → i < n
    → (port_of (read_ports (c ∷ s) n) i ≡ or_empty (get_elem? (split (c ∷ s)) i))
      × (port_of (read_ports [] n) i ≡ itoa (int_sub 26657 (3 * i)))
unfolding port_of read_ports
port_of-read_ports c s n i h =
    let start : 0 + i ≡ i = omega arith in
    (
      rw listed_ports-enter (ap or_empty (lookup-enter (split (c ∷ s)) i)),
      rw default_ports-enter (
          ap or_empty
            (lookup-enter (some_ports n 0) i ∙ (rw start at (get_elem?-some_ports n 0 i h)))),
    )
