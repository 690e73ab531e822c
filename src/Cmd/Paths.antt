-- ===== src/Cmd/Paths.antt =====
-- `copyFile` and `isSubDir` (cmd/tatcoind/cmd/testnet_multi_node.go), and the loop that copies the
-- gentx files between the nodes.
use tatcoin.Base.{
  ℕ, ◌+◌, zero, suc, Option, none, some, List, [], ◌∷◌, Bool, true, false, not, ◌&&◌, ◌==◌,
}
use tatcoin.Keeper.Sdk.{Outcome, ok, err, ◌>>=◌}
use tatcoin.Cmd.Flags.{Text}

-- What is used of path/filepath and os, over the files `W`. An opened file is its contents; `copy`
-- writes them behind what `create` has left, and counts the bytes.
pub record Os (E W Contents : Type 0) : Type 0 where
  pub base : Text → Text
  pub join : List Text → Text
  pub abs : Text → Outcome E Text
  pub rel : Text → Text → Outcome E Text
  pub is_abs : Text → Bool
  pub open_file : Text → W → Outcome E Contents
  pub create : Text → W → Outcome E Unit × W
  pub copy : Text → Contents → W → Outcome E ℕ × W
  pub sync : Text → W → Option E × W

-- `strings.HasPrefix(path, "..")`
unfoldable pub goes_up : Text → Bool
goes_up [] = false
goes_up (x ∷ []) = false
goes_up (x ∷ (y ∷ rest)) = x == 46 && y == 46

module _ {E W Contents : Type 0} (os : Os E W Contents) where
  -- `isSubDir`
  unfoldable pub is_sub_dir : Text → Text → Outcome E Bool
  unfolding goes_up
  is_sub_dir src dst_dir = os.abs src >>= λ abs_src. os.abs dst_dir >>= λ abs_dst_dir.
      os.rel abs_dst_dir abs_src >>= λ relative.
      ok (not (goes_up relative) && not (os.is_abs relative))

  abbrev pub synced : ℕ → Option E × W → Outcome E ℕ × W
  synced n (none, w) = (ok n, w)
  synced n (some e, w) = (err e, w)

  abbrev pub copied : Text → Outcome E ℕ × W → Outcome E ℕ × W
  copied dst (err e, w) = (err e, w)
  copied dst (ok n, w) = synced n (os.sync dst w)

  abbrev pub created : Text → Contents → Outcome E Unit × W → Outcome E ℕ × W
  created dst contents (err e, w) = (err e, w)
  created dst contents (ok u, w) = copied dst (os.copy dst contents w)

  abbrev pub opened : Text → W → Outcome E Contents → Outcome E ℕ × W
  opened dst w (err e) = (err e, w)
  opened dst w (ok contents) = created dst contents (os.create dst w)

  -- `copyFile`: the number of bytes or an error, and the files after it.
  unfoldable pub copy_file : Text → Text → W → Outcome E ℕ × W
  copy_file src dst_dir w = opened (os.join (dst_dir ∷ os.base src ∷ [])) w (os.open_file src w)

  -- The gentx files for one directory: one that lies there, or of which this cannot be told, is left.
  abbrev pub continue_copy : (W → Option E × W) → Outcome E ℕ × W → Option E × W
  continue_copy next (ok n, w) = next w
  continue_copy next (err e, w) = (some e, w)

  abbrev pub copy_unless : (W → Option E × W) → Text → Text → W → Outcome E Bool → Option E × W
  copy_unless next file dir w (err e) = next w
  copy_unless next file dir w (ok true) = next w
  copy_unless next file dir w (ok false) = continue_copy next (copy_file file dir w)

  unfoldable pub copy_to_dir : List Text → Text → W → Option E × W
  unfolding copy_file is_sub_dir
  copy_to_dir [] dir w = (none, w)
  copy_to_dir (file ∷ files) dir w =
      copy_unless (copy_to_dir files dir) file dir w (is_sub_dir file dir)

  abbrev pub continue_dirs : (W → Option E × W) → Option E × W → Option E × W
  continue_dirs next (none, w) = next w
  continue_dirs next (some e, w) = (some e, w)

  -- The loop over the nodes: `n` are left, from node `i` on; `dir` is the directory of a node.
  unfoldable pub copy_gentxs : (ℕ → Text) → List Text → ℕ → ℕ → W → Option E × W
  unfolding copy_to_dir
  copy_gentxs dir files zero i w = (none, w)
  copy_gentxs dir files (suc n) i w =
      continue_dirs (copy_gentxs dir files n (i + 1)) (copy_to_dir files (dir i) w)
