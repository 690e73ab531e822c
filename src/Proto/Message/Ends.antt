-- ===== src/Proto/Message/Ends.antt =====
-- The Unmarshal loop on slices that hold anything.
use tatcoin.Base.{
  ℕ, zero, suc, ◌+◌, ◌-◌, ◌/◌, ◌%◌, ◌^◌, ◌≤◌, ◌<◌, ◌||◌, bit_and, inl, inr, Option, none, some,
  List, ltb, leb, ◌==◌, if◌then◌else◌, Bool, true, false, Bool-cases, Option-cases, length,
  length-drop, length-take, take, drop, arith,
}
use tatcoin.Proto.Result.{
  PbFile, MessageName, FieldName, Result, ok, err, panic, stuck, ◌>>=◌, Ends,
}
use tatcoin.Proto.Result.Error.{unexpected_eof}
use tatcoin.Proto.Wire.{IsSlice, read_varint, read_extent, skip}
use tatcoin.Proto.Wire.Bounds.{Reads, read_varint-Reads, Extents, read_extent-Extents}
use tatcoin.Proto.Wire.Extent.{slice-ok, slice_from-ok}
use tatcoin.Proto.Wire.Skip.{Skips, skip-Skips}
use tatcoin.Proto.Message.{
  Field, string_field, message_field, check_skip, skip_field, dispatch, unmarshal_round,
  unmarshal_loop, unmarshal_into,
}

-- A step of the loop has failed, or has moved the index within the slice.
abbrev pub Steps : {M : Type 0} → List ℕ → ℕ → Result (M × ℕ) → Type 0
Steps bs i (ok (m, j)) = (i < j) × (j ≤ length bs)
Steps bs i (err e) = Unit
Steps bs i panic = ⊥
Steps bs i stuck = ⊥

-- A handler of a field makes such a step from behind the tag.
abbrev pub FieldSteps : {M : Type 0} → Field M → Type 0
FieldSteps field =
    (bs : List ℕ) (i wire_type : ℕ) (m : _) → IsSlice bs → Steps bs i (field bs i wire_type m)

abbrev pub CaseSteps : {M : Type 0} → Option (Field M) → Type 0
CaseSteps none = Unit
CaseSteps (some field) = FieldSteps field

-- A field whose extent is read first, and whatever is done with it.
Extents->>= :
    {M : Type 0} (bs : List ℕ) (i : ℕ) (r : Result (ℕ × ℕ)) (use_it : ℕ → ℕ → Result (M × ℕ))
    → Extents bs i r
    → ((start post : ℕ)
        → i < start
        → start ≤ post
        → post ≤ length bs
        → Steps bs i (use_it start post))
    → Steps bs i (r >>= λ (start, post). use_it start post)
Extents->>= bs i (ok (start, post)) use_it h k = k start post h.0 h.1 h.2
Extents->>= bs i (err e) use_it h k = tt
Extents->>= bs i panic use_it h k = h
Extents->>= bs i stuck use_it h k = h

pub string_field-Steps :
    {M : Type 0} (f : PbFile) (name : FieldName) (assign : List ℕ → M → M)
    → FieldSteps (string_field f name assign)
unfolding string_field
string_field-Steps f name assign bs i wire_type m small = elim (Bool-cases (wire_type == 2)) [
  | inl two ↦ rw two (
      Extents->>= bs i (read_extent f bs i) _ (read_extent-Extents f bs i small)
        (λ start post lo mid hi. rw (slice-ok bs start post mid hi) (omega arith, hi)))
  | inr wrong ↦ rw wrong tt
]

inner_step :
    {M P : Type 0} (bs : List ℕ) (i post : ℕ) (r : Result P) (assign : P → M)
    → i < post
    → post ≤ length bs
    → Ends r
    → Steps bs i (r >>= λ p. ok (assign p, post))
inner_step bs i post (ok p) assign lo hi h = (lo, hi)
inner_step bs i post (err e) assign lo hi h = tt
inner_step bs i post panic assign lo hi h = h
inner_step bs i post stuck assign lo hi h = h

pub message_field-Steps :
    {M P : Type 0} (f : PbFile) (name : FieldName) (select : M → P) (assign : P → M → M)
    (inner : List ℕ → P → Result P)
    → ((bs : List ℕ) (p : P) → IsSlice bs → Ends (inner bs p))
    → FieldSteps (message_field f name select assign inner)
unfolding message_field
message_field-Steps f name select assign inner ends bs i wire_type m small =
    elim (Bool-cases (wire_type == 2)) [
      | inl two ↦ rw two (
          Extents->>= bs i (read_extent f bs i) _ (read_extent-Extents f bs i small)
            (λ start post lo mid hi. rw (slice-ok bs start post mid hi) (
              inner_step bs i post _ _ (omega arith) hi (
                ends (take (post - start) (drop start bs)) (select m) (
                  omega
                    (arith, length-take (post - start) (drop start bs), length-drop start bs))))))
      | inr wrong ↦ rw wrong tt
    ]

skip_field-Steps :
    {M : Type 0} (f : PbFile) (bs : List ℕ) (pre : ℕ) (m : M)
    → IsSlice bs
    → pre ≤ length bs
    → Steps bs pre (skip_field f bs pre m)
unfolding skip_field check_skip
skip_field-Steps {M} f bs pre m small inside =
    rw (slice_from-ok bs pre inside)
      (go (skip f (drop pre bs)) (skip-Skips f (drop pre bs) (omega (arith, length-drop pre bs))))
  where
    go : (r : Result ℕ) → Skips r → Steps bs pre (r >>= check_skip f bs pre m)
    go (ok n) h = ground arith
    go (err e) h = tt
    go panic h = h
    go stuck h = h

Steps-weaken :
    {M : Type 0} (bs : List ℕ) (pre i : ℕ) (r : Result (M × ℕ))
    → pre < i
    → Steps bs i r
    → Steps bs pre r
Steps-weaken bs pre i (ok (m, j)) lt h = (omega arith, h.1)
Steps-weaken bs pre i (err e) lt h = tt
Steps-weaken bs pre i panic lt h = h
Steps-weaken bs pre i stuck lt h = h

module _ {M : Type 0} (f : PbFile) (name : MessageName) (fields : ℕ → Option (Field M))
    (steps : (n : ℕ) → CaseSteps (fields n)) where
  switch-Steps :
      (bs : List ℕ) (pre i field_num wire_type : ℕ) (m : M)
      → IsSlice bs
      → pre < i
      → i ≤ length bs
      → Steps bs pre (elim (fields field_num) as (λ o. Result (M × ℕ)) [
        | some field ↦ field bs i wire_type m
        | none ↦ skip_field f bs pre m
      ])
  switch-Steps bs pre i field_num wire_type m small lt inside =
      elim (Option-cases (fields field_num)) [
        | inl unknown ↦ rw unknown (skip_field-Steps f bs pre m small (omega arith))
        | inr (field, known) ↦ rw known (
            Steps-weaken bs pre i (field bs i wire_type m) lt
              ((rw known at (steps field_num)) bs i wire_type m small))
      ]

  dispatch-Steps :
      (bs : List ℕ) (pre i wire : ℕ) (m : M)
      → IsSlice bs
      → pre < i
      → i ≤ length bs
      → Steps bs pre (dispatch f name fields bs pre i wire m)
  unfolding dispatch
  dispatch-Steps bs pre i wire m small lt inside = elim (Bool-cases (bit_and wire 0x7 == 4)) [
    | inl group ↦ rw group tt
    | inr other ↦
        rw other (elim (Bool-cases (wire / 8 % 2 ^ 32 == 0 || leb (2 ^ 31) (wire / 8 % 2 ^ 32))) [
          | inl illegal ↦ rw illegal tt
          | inr legal ↦ rw legal (switch-Steps bs pre i _ _ m small lt inside)
        ])
  ]

  unmarshal_round-Steps :
      (bs : List ℕ) (i : ℕ) (m : M) → IsSlice bs → Steps bs i (unmarshal_round f name fields bs i m)
  unfolding unmarshal_round
  unmarshal_round-Steps bs i m small = go (read_varint f bs i) (read_varint-Reads f bs i)
    where
      go :
          (r : Result (ℕ × ℕ))
          → Reads bs i r
          → Steps bs i (r >>= λ (wire, j). dispatch f name fields bs i j wire m)
      go (ok (wire, j)) h = dispatch-Steps bs i j wire m small h.1 h.2
      go (err e) h = tt
      go panic h = h
      go stuck h = h

  loop-Ends :
      (fuel : ℕ) (bs : List ℕ) (i : ℕ) (m : M)
      → IsSlice bs
      → i ≤ length bs
      → length bs < fuel + i
      → Ends (unmarshal_loop f name fields fuel bs i m)
  unfolding unmarshal_loop
  loop-Ends zero bs i m small inside h = absurd (omega arith)
  loop-Ends (suc fuel) bs i m small inside h = elim (Bool-cases (ltb i (length bs))) [
    | inl more ↦ rw more (
        go (unmarshal_round f name fields bs i m) (unmarshal_round-Steps bs i m small)
          (λ m' i'. loop-Ends fuel bs i' m' small))
    | inr end ↦ rw end (done (ltb (length bs) i))
  ]
    where
      go :
          (r : Result (M × ℕ))
          → Steps bs i r
          → ((m' : M) (i' : ℕ)
              → i' ≤ length bs
              → length bs < fuel + i'
              → Ends (unmarshal_loop f name fields fuel bs i' m'))
          → Ends (r >>= λ (m', i'). unmarshal_loop f name fields fuel bs i' m')
      go (ok (m', i')) st ih = ih m' i' st.1 (omega arith)
      go (err e) st ih = tt
      go panic st ih = st
      go stuck st ih = st

      done : (b : Bool) → Ends (if b then err unexpected_eof else ok m)
      done true = tt
      done false = tt

  -- Unmarshal ends on every slice, in a message or an error: no read is out of range, and the loop
  -- does not run out of rounds.
  pub unmarshal_into-Ends :
      (bs : List ℕ) (m : M) → IsSlice bs → Ends (unmarshal_into f name fields bs m)
  unfolding unmarshal_into
  unmarshal_into-Ends bs m small =
      loop-Ends (length bs + 1) bs 0 m small (omega arith) (omega arith)
