-- ===== src/Proto/Varint.antt =====
-- The bytes of a base-128 varint, written down directly: what both sides of the code mean.
use tatcoin.Base.{
  ℕ, zero, suc, ◌+◌, ◌/◌, ◌%◌, ◌^◌, ◌≤◌, ◌<◌, ◌≡◌, refl, List, [], ◌∷◌, ltb, false, if◌then◌else◌,
  length, arith,
}

-- The groups of seven bits, lowest first, of a value below 128 ^ (k + 1).
unfoldable pub groups : ℕ → ℕ → List ℕ
groups zero v = v ∷ []
groups (suc k) v =
    let rest = (v % 128 + 128) ∷ groups k (v / 128) in if ltb v 128 then v ∷ [] else rest

-- A uint64 has ten groups at most.
abbrev pub varint : ℕ → List ℕ
varint = groups 9

pub length-groups : (k v : ℕ) → (1 ≤ length (groups k v)) × (length (groups k v) ≤ k + 1)
unfolding groups
length-groups zero v = omega arith
length-groups (suc k) v = ground (arith, length-groups k (v / 128))

pub groups_small : (k v : ℕ) → v < 128 → groups k v ≡ v ∷ []
unfolding groups
groups_small zero v h = refl
groups_small (suc k) v h = ground arith

pub groups_more : (k v : ℕ) → 128 ≤ v → groups (suc k) v ≡ (v % 128 + 128) ∷ groups k (v / 128)
unfolding groups
groups_more k v h = let big : ltb v 128 ≡ false = ground arith in rw big

-- More room than is needed changes nothing.
pub groups_room : (k n v : ℕ) → v < 128 ^ suc k → groups (k + n) v ≡ groups k v
unfolding groups
groups_room zero n v h = groups_small (0 + n) v (omega arith)
groups_room (suc k) n v h =
    let e : suc k + n ≡ suc (k + n) = omega arith in
    rw e (ground (arith, groups_room k n (v / 128) (omega arith)))
