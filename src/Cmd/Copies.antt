-- ===== src/Cmd/Copies.antt =====
-- Which gentx files are copied into a node's directory, and what a copy leaves.
use tatcoin.Base.{◌≡◌, ◌⊎◌, Option, none, some, List, [], ◌∷◌, true, ℕ}
use tatcoin.Keeper.Sdk.{Outcome, ok, err}
use tatcoin.Cmd.Flags.{Text}
use tatcoin.Cmd.Paths.{Os, synced}

module _ {E W Contents : Type 0} (os : Os E W Contents) (dir : Text) where
  -- The file is known to lie outside the directory: its path relative to the directory begins with two
  -- dots, or is absolute.
  abbrev pub Elsewhere : Text → Type 0
  Elsewhere file =
      (a : Text) × (b : Text) × (relative : Text) × (os.abs file ≡ ok a)
      × (os.abs dir ≡ ok b)
      × (os.rel b a ≡ ok relative)
      × (((rest : Text) × (relative ≡ 46 ∷ 46 ∷ rest)) ⊎ (os.is_abs relative ≡ true))

  -- The path of the copy.
  abbrev pub destination : Text → Text
  destination file = os.join (dir ∷ os.base file ∷ [])

  -- A copy of a file: it is opened, the destination is created, the contents are written and synced; the
  -- first error ends it, and the files are as the steps up to it left them.
  pub data Copying (file : Text) (w : W) : Outcome E ℕ × W → Type 0 where
    unopened : {e : E} → os.open_file file w ≡ err e → Copying file w (err e, w)
    uncreated :
        {e : E} {w' : W} {contents : Contents}
        → os.open_file file w ≡ ok contents
        → os.create (destination file) w ≡ (err e, w')
        → Copying file w (err e, w')
    unwritten :
        {e : E} {w' w'' : W} {contents : Contents} {u : Unit}
        → os.open_file file w ≡ ok contents
        → os.create (destination file) w ≡ (ok u, w')
        → os.copy (destination file) contents w' ≡ (err e, w'')
        → Copying file w (err e, w'')
    written :
        {w' w'' w''' : W} {n : ℕ} {o : Option E} {contents : Contents} {u : Unit}
        → os.open_file file w ≡ ok contents
        → os.create (destination file) w ≡ (ok u, w')
        → os.copy (destination file) contents w' ≡ (ok n, w'')
        → os.sync (destination file) w'' ≡ (o, w''')
        → Copying file w (synced os n (o, w'''))

  -- The loop over files: one that is not known to lie elsewhere is left alone, the others are copied in
  -- their order, up to the first copy that fails.
  pub data Loop : List Text → W → Option E × W → Type 0 where
    over : {w : W} → Loop [] w (none, w)
    left_alone :
        {file : Text} {files : List Text} {w : W} {r : Option E × W}
        → ¬ (Elsewhere file)
        → Loop files w r
        → Loop (file ∷ files) w r
    stopped :
        {file : Text} {files : List Text} {w w' : W} {e : E}
        → Elsewhere file
        → Copying file w (err e, w')
        → Loop (file ∷ files) w (some e, w')
    went_on :
        {file : Text} {files : List Text} {w w' : W} {n : ℕ} {r : Option E × W}
        → Elsewhere file
        → Copying file w (ok n, w')
        → Loop files w' r
        → Loop (file ∷ files) w r
