-- ===== src/Proto/Message/Marshal.antt =====
-- Marshal and MarshalTo of a message whose writer puts given bytes at the end of any buffer.
use tatcoin.Base.{
  ℕ, ◌≤◌, ◌≡◌, refl, ◌∙◌, ap, inl, inr, List, [], ◌++◌, ltb, ltb→le, Bool-cases, if◌then◌else◌,
  length, length-take, length-replicate, take, drop, replicate, take-all, arith,
}
use tatcoin.Proto.Result.{Result, ok, panic}
use tatcoin.Proto.Emit.Overlay.{overlay, overlay_full}
use tatcoin.Proto.Message.{marshal_fresh, marshal_into}

module _ (bytes : List ℕ) (write : List ℕ → Result (List ℕ × ℕ)) (n : ℕ) (size : n ≡ length bytes)
    (writes : (buf : List ℕ)
      → length bytes ≤ length buf
      → write buf ≡ ok (overlay buf bytes (length buf), length bytes)) where
  exact : (buf : List ℕ) → length buf ≡ n → write buf ≡ ok (bytes, length bytes)
  exact buf h =
      writes buf (omega arith)
      ∙ ap (λ b. ok (b, length bytes)) (overlay_full buf bytes (omega arith))

  pub marshal_fresh-overlay : marshal_fresh n write ≡ ok bytes
  unfolding marshal_fresh
  marshal_fresh-overlay =
      let zeros : List ℕ = replicate n 0 in
      let len : length (take n zeros) ≡ n =
        omega (arith, length-take n zeros, length-replicate {A = ℕ} n 0) in
      rw (exact (take n zeros) len, take-all bytes (length bytes) (omega arith))

module _ (bytes : List ℕ) (write : List ℕ → Result (List ℕ × ℕ)) (n : ℕ) (buf : List ℕ)
    (size : n ≡ length bytes)
    (writes : (buf : List ℕ)
      → length bytes ≤ length buf
      → write buf ≡ ok (overlay buf bytes (length buf), length bytes)) where
  pub marshal_into-overlay : marshal_into n write buf ≡ (
      if ltb (length buf) (length bytes)
      then panic
      else ok (bytes ++ drop (length bytes) buf, length bytes))
  unfolding marshal_into
  marshal_into-overlay = rw size (elim (Bool-cases (ltb (length buf) (length bytes))) [
    | inl short ↦ rw short
    | inr room ↦
        let h : length bytes ≤ length buf = ltb→le _ _ room in
        let len : length (take (length bytes) buf) ≡ length bytes =
          omega (arith, length-take (length bytes) buf) in
        rw (
          room,
          exact bytes write (length bytes) refl writes (take (length bytes) buf) len,
          take-all bytes (length bytes) (omega arith),
        )
  ])

-- A message without fields has no bytes.
pub marshal_fresh-zero :
    (write : List ℕ → Result (List ℕ × ℕ)) → write [] ≡ ok ([], 0) → marshal_fresh 0 write ≡ ok []
unfolding marshal_fresh
marshal_fresh-zero write e = rw e refl
