-- ===== src/Proto/Params.antt =====
-- x/tatcore/types/params.pb.go and params.go: the module's parameters, a message with no field.
pub mod Codec
pub mod Embedded
use tatcoin.Base.{ℕ, ◌-◌, Option, none, some, List, length, Bool, true, false}
use tatcoin.Proto.Result.{Result, ok}
use tatcoin.Proto.Result.PbFile.{params_file}
use tatcoin.Proto.Result.MessageName.{params_message}
use tatcoin.Proto.Emit.{written}
use tatcoin.Proto.Message.{Field, unmarshal_into, marshal_fresh, marshal_into}

-- `type Params struct {}`
pub data Params : Type 0 where
  no_params : Params

-- `NewParams`, `DefaultParams`
pub new_params : Params
new_params = no_params

pub default_params : Params
unfolding new_params
default_params = new_params

unfoldable pub size : Params → ℕ
size no_params = 0

-- Nothing is written: `i` stays at `len(dAtA)`.
unfoldable pub marshal_to_sized_buffer : Params → List ℕ → Result (List ℕ × ℕ)
marshal_to_sized_buffer no_params buf = written buf (length buf)

pub marshal : Params → Result (List ℕ)
marshal m = marshal_fresh (size m) (marshal_to_sized_buffer m)

pub marshal_to : Params → List ℕ → Result (List ℕ × ℕ)
marshal_to m = marshal_into (size m) (marshal_to_sized_buffer m)

fields : ℕ → Option (Field Params)
fields field_num = none

unfoldable pub unmarshal : List ℕ → Params → Result Params
unfolding fields
unmarshal = unmarshal_into params_file params_message fields

-- What an `interface{}` may hold when it is compared: nothing, a pointer to Params (nil or not), a
-- Params, or a value of another type.
pub data Dynamic : Type 0 where
  nil other : Dynamic
  pointer : Option Params → Dynamic
  value : Params → Dynamic

-- The tests of the two pointers, which are the last lines of `Equal`.
pub equal_pointers : Option Params → Option Params → Bool
equal_pointers this none = elim this [ none ↦ true | some _ ↦ false ]
equal_pointers none (some _) = false
equal_pointers (some _) (some _) = true

-- `Equal`, on a receiver that may be a nil pointer.
pub equal : Option Params → Dynamic → Bool
unfolding equal_pointers
equal this nil = elim this [ none ↦ true | some _ ↦ false ]
equal this (pointer that) = equal_pointers this that
equal this (value that) = equal_pointers this (some that)
equal this other = false
