-- ===== src/Proto/Result.antt =====
-- Results of the protobuf code: a value, a Go error, a run-time panic (an index out of range), or,
-- in the model only, fuel that ran out.
use tatcoin.Base.{ℕ, ◌≡◌, refl, ◌⊎◌, inl, inr}

-- Each generated file declares its own sentinel errors.
pub data PbFile : Type 0 where
  tx query genesis params_file module_file : PbFile

-- The message that an error text names.
pub data MessageName : Type 0 where
  msg_update_params msg_update_params_response query_params_request : MessageName
  query_params_response genesis_state params_message module_message : MessageName

pub data FieldName : Type 0 where
  authority_field params_field : FieldName

pub data Error : Type 0 where
  -- ErrIntOverflow, ErrInvalidLength and ErrUnexpectedEndOfGroup of a file
  int_overflow invalid_length unexpected_end_of_group : PbFile → Error
  -- io.ErrUnexpectedEOF
  unexpected_eof : Error
  -- the texts made by fmt.Errorf
  end_group : MessageName → Error
  illegal_tag : MessageName → ℕ → ℕ → Error
  wrong_wire_type : ℕ → FieldName → Error
  illegal_wire_type : ℕ → Error

pub data Result {ℓ} (A : Type ℓ) : Type ℓ where
  ok : A → Result A
  err : Error → Result A
  panic : Result A
  stuck : Result A

infixl 5 ◌>>=◌
abbrev pub ◌>>=◌ {ℓ κ} : {A : Type ℓ} {B : Type κ} → Result A → (A → Result B) → Result B
ok a >>= f = f a
err e >>= f = err e
panic >>= f = panic
stuck >>= f = stuck

-- A run that ends: it gives a value or an error.
abbrev pub Ends {ℓ} : {A : Type ℓ} → Result A → Type 0
Ends (ok a) = Unit
Ends (err e) = Unit
Ends panic = ⊥
Ends stuck = ⊥

pub Ends-cases {ℓ} :
    {A : Type ℓ} (r : Result A) → Ends r → ((a : A) × (r ≡ ok a)) ⊎ ((e : Error) × (r ≡ err e))
Ends-cases (ok a) h = inl (a, refl)
Ends-cases (err e) h = inr (e, refl)
Ends-cases panic h = absurd h
Ends-cases stuck h = absurd h

-- A step that ends, followed by one that ends after every value of it.
pub Ends->>= {ℓ κ} :
    {A : Type ℓ} {B : Type κ} (r : Result A) (f : A → Result B)
    → Ends r
    → ((a : A) → r ≡ ok a → Ends (f a))
    → Ends (r >>= f)
Ends->>= (ok a) f h k = k a refl
Ends->>= (err e) f h k = tt
Ends->>= panic f h k = h
Ends->>= stuck f h k = h
