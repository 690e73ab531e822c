-- ===== src/Proto/Emit/Fields.antt =====
-- The fields that are written: a tag, a length and the bytes, ending where the index stands.
use tatcoin.Base.{
  ℕ, ◌+◌, ◌-◌, ◌^◌, ◌≤◌, ◌<◌, ◌≡◌, refl, true, List, [], ◌∷◌, ◌++◌, ltb, length, length-append,
  drop, take-append, drop-append, take-all, arith,
}
use tatcoin.Proto.Result.{Result, ok}
use tatcoin.Proto.Varint.{varint}
use tatcoin.Proto.Emit.{step_back, copy_at, put_header, put_string, put_message}
use tatcoin.Proto.Emit.Varint.{set_at-append, encode_varint-varint}
use mathlib.Core.List.{append_assoc}

-- A field of wire type 2.
abbrev pub delimited : ℕ → List ℕ → List ℕ
delimited tag body = tag ∷ (varint (length body) ++ body)

copy_at-append :
    (a g b s : List ℕ) (i : ℕ)
    → length g ≡ length s
    → i ≡ length a
    → copy_at (a ++ (g ++ b)) i s ≡ a ++ (s ++ b)
copy_at-append a g b s i hg hi =
    let room : length s ≤ length (a ++ (g ++ b)) - i =
      omega (arith, length-append a (g ++ b), length-append g b) in
    let behind : drop (i + length s) (a ++ (g ++ b)) ≡ b =
      rw (← append_assoc) (drop-append (a ++ g) b _ (omega (arith, length-append a g))) in
    rw (take-append a (g ++ b) i hi, take-all s _ room, behind)

-- The buffer around a field: its place has room for a tag, a length and a body.
module _ (tag t : ℕ) (pre g1 g2 post body : List ℕ) (i : ℕ) (short : length body < 2 ^ 64)
    (room1 : length g1 ≡ length (varint (length body))) (room2 : length g2 ≡ length body)
    (at_end : i ≡ length pre + 1 + length g1 + length g2) where
  -- Once the body is in place, the length and the tag go before it.
  header :
      put_header tag
        ((pre ++ (t ∷ g1)) ++ (body ++ post))
        (length pre + 1 + length g1)
        (length body)
      ≡ ok (pre ++ (delimited tag body ++ post), length pre)
  unfolding put_header
  header =
      let split : (pre ++ (t ∷ g1)) ++ (body ++ post)
          ≡ (pre ++ (t ∷ [])) ++ (g1 ++ (body ++ post)) =
        simp append_assoc in
      let whole : pre ++ (delimited tag body ++ post)
          ≡ pre ++ (tag ∷ (varint (length body) ++ (body ++ post))) =
        simp append_assoc in
      let len : length (pre ++ (t ∷ [])) ≡ length pre + 1 =
        omega (arith, length-append pre (t ∷ [])) in
      let join : (pre ++ (t ∷ [])) ++ (varint (length body) ++ (body ++ post))
          ≡ pre ++ (t ∷ (varint (length body) ++ (body ++ post))) =
        append_assoc pre (t ∷ []) _ in
      let back : step_back (length pre + 1) 1 ≡ ok (length pre) = ground arith in
      rw (
        split,
        whole,
        encode_varint-varint (pre ++ (t ∷ [])) g1 (body ++ post) (length pre + 1 + length g1)
            (length body) short room1 (omega (arith, len)),
        len,
        join,
        back,
        set_at-append pre _ t tag (length pre) refl,
      )

  pub put_string_some :
      0 < length body
      → put_string tag body (pre ++ ((t ∷ (g1 ++ g2)) ++ post)) i
        ≡ ok (pre ++ (delimited tag body ++ post), length pre)
  unfolding put_string
  put_string_some pos =
      let full : ltb 0 (length body) ≡ true = ground arith in
      let back : step_back i (length body) ≡ ok (length pre + 1 + length g1) = ground arith in
      let split : pre ++ ((t ∷ (g1 ++ g2)) ++ post) ≡ (pre ++ (t ∷ g1)) ++ (g2 ++ post) =
        simp append_assoc in
      rw
        (
          full,
          back,
          split,
          copy_at-append (pre ++ (t ∷ g1)) g2 post body (length pre + 1 + length g1) room2
              (omega (arith, length-append pre (t ∷ g1))),
        )
        header

  -- An embedded message that writes its body at the end of what it is given.
  pub put_message-body :
      (inner : List ℕ → Result (List ℕ × ℕ))
      → ((p g : List ℕ) → length g ≡ length body → inner (p ++ g) ≡ ok (p ++ body, length body))
      → put_message tag inner (pre ++ ((t ∷ (g1 ++ g2)) ++ post)) i
        ≡ ok (pre ++ (delimited tag body ++ post), length pre)
  unfolding put_message
  put_message-body inner writes =
      let back : step_back i (length body) ≡ ok (length pre + 1 + length g1) = ground arith in
      let split : pre ++ ((t ∷ (g1 ++ g2)) ++ post) ≡ ((pre ++ (t ∷ g1)) ++ g2) ++ post =
        simp append_assoc in
      let long : i ≡ length ((pre ++ (t ∷ g1)) ++ g2) =
        omega (arith, length-append (pre ++ (t ∷ g1)) g2, length-append pre (t ∷ g1)) in
      let join : ((pre ++ (t ∷ g1)) ++ body) ++ post ≡ (pre ++ (t ∷ g1)) ++ (body ++ post) =
        append_assoc (pre ++ (t ∷ g1)) body post in
      rw
        (
          split,
          take-append _ post i long,
          writes (pre ++ (t ∷ g1)) g2 room2,
          back,
          drop-append _ post i long,
          join,
        )
        header
