-- ===== src/Cmd/Flags.antt =====
-- The flags of `multi-node` (cmd/tatcoind/cmd/testnet_multi_node.go): the stakes and the ports of the
-- validators. An int is the 64-bit word that stands for it.
use tatcoin.Base.{
  ℕ, zero, suc, ◌+◌, ◌-◌, ◌*◌, ◌/◌, ◌%◌, ◌^◌, Option, none, some, List, [], ◌∷◌, ltb, leb, ◌==◌,
  if◌then◌else◌,
}
use tatcoin.App.Run.{Run, done, ◌>>=◌}

abbrev pub Text : Type 0
Text = List ℕ

-- `a - b` on int
abbrev pub int_sub : ℕ → ℕ → ℕ
int_sub a b = if leb b a then (a - b) % 2 ^ 64 else (2 ^ 64 - (b - a) % 2 ^ 64) % 2 ^ 64

-- The digits of a number; an int has nineteen at most.
unfoldable pub digits : ℕ → ℕ → Text → Text
digits zero n rest = rest
digits (suc fuel) n rest =
    let more = digits fuel (n / 10) ((48 + n % 10) ∷ rest) in
    if ltb n 10 then (48 + n) ∷ rest else more

-- `strconv.Itoa`
unfoldable pub itoa : ℕ → Text
unfolding digits
itoa n = if leb (2 ^ 63) n then 45 ∷ digits 20 (2 ^ 64 - n) [] else digits 20 n []

-- `strings.Split(s, ",")`: a text without a comma is one part, the empty text too.
abbrev pub push : ℕ → List Text → List Text
push c [] = (c ∷ []) ∷ []
push c (part ∷ parts) = (c ∷ part) ∷ parts

unfoldable pub split : Text → List Text
split [] = [] ∷ []
split (c ∷ s) = let rest = split s in if c == 44 then [] ∷ rest else push c rest

-- A Go map with int keys: the last write of a key counts.
abbrev pub Map : Type 0 → Type 0
Map A = List (ℕ × A)

unfoldable pub lookup : {A : Type 0} → ℕ → Map A → Option A
lookup k [] = none
lookup k ((j, a) ∷ m) = let rest = lookup k m in if k == j then some a else rest

module _ {N Coin : Type 0} (new_int_from_string : Text → Option N) (new_coin : N → Run Coin) where
  -- The loop over the amounts, with the map and `top`. An amount that is not a number is skipped.
  unfoldable pub read_stakes_loop : List Text → ℕ → Map Coin → Run (Map Coin)
  read_stakes_loop [] top m = done m
  read_stakes_loop (amount ∷ amounts) top m = elim (new_int_from_string amount) [
    | none ↦ read_stakes_loop amounts top m
    | some a ↦ new_coin a >>= λ coin. read_stakes_loop amounts (top + 1) ((top, coin) ∷ m)
  ]

  unfoldable pub read_stakes : Text → Run (Map Coin)
  unfolding read_stakes_loop split
  read_stakes s = read_stakes_loop (split s) 0 []

-- The default ports, from `top` on; `n` are left.
unfoldable pub default_ports : ℕ → ℕ → Map Text → Map Text
unfolding itoa
default_ports zero top m = m
default_ports (suc n) top m = default_ports n (top + 1) ((top, itoa (int_sub 26657 (3 * top))) ∷ m)

unfoldable pub listed_ports : List Text → ℕ → Map Text → Map Text
listed_ports [] top m = m
listed_ports (port ∷ ports) top m = listed_ports ports (top + 1) ((top, port) ∷ m)

-- The ports by validator: those listed, or, for an empty flag, `n` default ports.
unfoldable pub read_ports : Text → ℕ → Map Text
unfolding default_ports listed_ports split
read_ports [] n = default_ports n 0 []
read_ports (c ∷ s) n = listed_ports (split (c ∷ s)) 0 []

-- `args.ports[i]`, the empty text for a missing key
abbrev pub or_empty : Option Text → Text
or_empty none = []
or_empty (some port) = port

unfoldable pub port_of : Map Text → ℕ → Text
unfolding lookup
port_of m i = or_empty (lookup i m)
