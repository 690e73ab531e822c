-- ===== src/Proto/Emit/Overlay.antt =====
-- The fields that are written, in any buffer.
use tatcoin.Base.{
  ℕ, ◌+◌, ◌-◌, ◌^◌, ◌≤◌, ◌<◌, ◌≡◌, ◌∙◌, ap, sym, List, [], ◌∷◌, ◌++◌, length, length-append,
  length-take, length-drop, take, drop, take-append-drop, take-drop-drop, take-take_le, drop-append,
  drop-all, arith,
}
use tatcoin.Proto.Result.{Result, ok}
use tatcoin.Proto.Varint.{varint}
use tatcoin.Proto.Emit.{put_string, put_message}
use mathlib.Core.List.{append-nil, append_assoc}
use tatcoin.Proto.Emit.Fields.{delimited, put_string_some, put_message-body}

-- `buf` with `bytes` in the place that ends at `i`.
abbrev pub overlay : List ℕ → List ℕ → ℕ → List ℕ
overlay buf bytes i = take (i - length bytes) buf ++ (bytes ++ drop i buf)

pub length-overlay :
    (buf bytes : List ℕ) (i : ℕ)
    → length bytes ≤ i
    → i ≤ length buf
    → length (overlay buf bytes i) ≡ length buf
length-overlay buf bytes i h p = omega (
  arith,
  length-append (take (i - length bytes) buf) (bytes ++ drop i buf),
  length-append bytes (drop i buf),
  length-take (i - length bytes) buf,
  length-drop i buf,
)

-- A string field is left out if it is empty.
abbrev pub string_bytes : ℕ → List ℕ → List ℕ
string_bytes tag [] = []
string_bytes tag (x ∷ s) = delimited tag (x ∷ s)

-- The place of a field: a first byte, and two gaps.
abbrev Cut : List ℕ → ℕ → ℕ → Type 0
Cut seg b c =
    (t : ℕ) × (g1 : List ℕ) × (g2 : List ℕ) × (seg ≡ t ∷ (g1 ++ g2))
    × (length g1 ≡ b)
    × (length g2 ≡ c)

cut : (seg : List ℕ) (b c : ℕ) → length seg ≡ 1 + b + c → Cut seg b c
cut [] b c h = absurd (omega arith)
cut (t ∷ r) b c h = (
  t,
  take b r,
  drop b r,
  ap (λ x. t ∷ x) (sym (take-append-drop b r)),
  omega (arith, length-take b r),
  omega (arith, length-drop b r),
)

module _ (tag : ℕ) (body buf : List ℕ) (i : ℕ) (short : length body < 2 ^ 64)
    (fits : length (delimited tag body) ≤ i) (inside : i ≤ length buf) where
  n : ℕ
  n = i - length (delimited tag body)

  seg : List ℕ
  seg = take (i - n) (drop n buf)

  whole : buf ≡ take n buf ++ (seg ++ drop i buf)
  unfolding n seg
  whole =
      sym
        (ap (λ x. take n buf ++ x) (take-drop-drop n i buf (omega arith)) ∙ take-append-drop n buf)

  parts : Cut seg (length (varint (length body))) (length body)
  unfolding seg n
  parts = cut seg _ _ (
      omega (
        arith,
        length-take (i - n) (drop n buf),
        length-drop n buf,
        length-append (varint (length body)) body,
      ))

  front : length (take n buf) ≡ n
  unfolding n
  front = omega (arith, length-take n buf)

  -- A non-empty string.
  put_string-delimited :
      0 < length body
      → put_string tag body buf i
        ≡ ok (overlay buf (delimited tag body) i, i - length (delimited tag body))
  unfolding n
  put_string-delimited pos =
      let (t, g1, g2, e, l1, l2) = parts in
      let w : buf ≡ take n buf ++ ((t ∷ (g1 ++ g2)) ++ drop i buf) =
        whole ∙ ap (λ x. take n buf ++ (x ++ drop i buf)) e in
      ap (λ x. put_string tag body x i) w
      ∙ put_string_some tag t (take n buf) g1 g2 (drop i buf) body i short l1 l2
          (omega (arith, front, length-append (varint (length body)) body)) pos
      ∙ ap (λ k. ok (overlay buf (delimited tag body) i, k)) front

  -- An embedded message.
  pub put_message-delimited :
      (inner : List ℕ → Result (List ℕ × ℕ))
      → ((p g : List ℕ) → length g ≡ length body → inner (p ++ g) ≡ ok (p ++ body, length body))
      → put_message tag inner buf i
        ≡ ok (overlay buf (delimited tag body) i, i - length (delimited tag body))
  unfolding n
  put_message-delimited inner writes =
      let (t, g1, g2, e, l1, l2) = parts in
      let w : buf ≡ take n buf ++ ((t ∷ (g1 ++ g2)) ++ drop i buf) =
        whole ∙ ap (λ x. take n buf ++ (x ++ drop i buf)) e in
      ap (λ x. put_message tag inner x i) w
      ∙ put_message-body tag t (take n buf) g1 g2 (drop i buf) body i short l1 l2
          (omega (arith, front, length-append (varint (length body)) body)) inner writes
      ∙ ap (λ k. ok (overlay buf (delimited tag body) i, k)) front

-- A string field, empty or not.
pub put_string-bytes :
    (tag : ℕ) (s buf : List ℕ) (i : ℕ)
    → length s < 2 ^ 64
    → length (string_bytes tag s) ≤ i
    → i ≤ length buf
    → put_string tag s buf i
      ≡ ok (overlay buf (string_bytes tag s) i, i - length (string_bytes tag s))
put_string-bytes tag [] buf i short fits inside =
    let e : i - 0 ≡ i = omega arith in unfold put_string in rw (e, take-append-drop i buf)
put_string-bytes tag (x ∷ s) buf i short fits inside =
    put_string-delimited tag (x ∷ s) buf i short fits inside (omega arith)

-- A field written before another.
pub overlay-overlay :
    (buf s d : List ℕ) (i : ℕ)
    → length s + length d ≤ i
    → i ≤ length buf
    → overlay (overlay buf d i) s (i - length d) ≡ overlay buf (s ++ d) i
overlay-overlay buf s d i h inside =
    let start : i - length d - length s ≡ i - length (s ++ d) = omega (arith, length-append s d) in
    let kept : take (i - length (s ++ d)) (overlay buf d i) ≡ take (i - length (s ++ d)) buf =
      take-take_le (i - length (s ++ d)) (i - length d) buf (d ++ drop i buf)
        (omega (arith, length-append s d)) (omega arith) in
    let behind : drop (i - length d) (overlay buf d i) ≡ d ++ drop i buf =
      drop-append (take (i - length d) buf) (d ++ drop i buf) (i - length d)
        (omega (arith, length-take (i - length d) buf)) in
    rw (start, kept, behind, append_assoc s d (drop i buf))

-- A buffer that the bytes fill.
pub overlay_full :
    (buf bytes : List ℕ) → length buf ≡ length bytes → overlay buf bytes (length buf) ≡ bytes
overlay_full buf bytes h =
    let start : length buf - length bytes ≡ 0 = omega arith in
    rw (start, drop-all buf (length buf) (omega arith), append-nil bytes)
