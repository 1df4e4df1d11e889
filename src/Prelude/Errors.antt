-- ===== src/Prelude/Errors.antt =====
-- include/flowq/error.hpp, and the shape that the result structs share: a value, or an error
-- beside an empty value.
use Prim.Native.String.{String}
use mathlib.Core.Path.{◌≡◌, refl}
use flow_q.Prelude.Tests.{if◌then◌else◌}
use mathlib.Core.Bool.{Bool, true, false}
use mathlib.Core.Option.{Option, none, some}

pub data ErrorCode : Type 0 where
  cancelled timeout udp_error tls_error protocol_error : ErrorCode
  connection_closed stream_reset flow_control_error internal_error : ErrorCode

pub record Error : Type 0 where
  pub error_code : ErrorCode
  pub message : String

pub data Result {ℓ} (A : Type ℓ) : Type ℓ where
  err : Error → Result A
  ok : A → Result A

module _ {ℓ κ} {A : Type ℓ} {B : Type κ} where
  infixl 5 ◌>>=◌
  abbrev pub ◌>>=◌ : Result A → (A → Result B) → Result B
  err x >>= next = err x
  ok value >>= next = next value

  -- The steps of a chain that succeeds.
  pub bind-eq-ok :
      (r : Result A) (next : A → Result B) {b : B}
      → (r >>= next) ≡ ok b
      → (value : A) × (r ≡ ok value) × (next value ≡ ok b)
  bind-eq-ok (err x) next e = absurd (cc e)
  bind-eq-ok (ok value) next e = (value, refl, e)

abbrev pub or_fail {ℓ} : {A : Type ℓ} → Option A → Error → Result A
or_fail none e = err e
or_fail (some a) e = ok a

abbrev pub codec_error : String → Error
codec_error m = record { error_code = protocol_error; message = m }

pub or_fail-eq-ok {ℓ} :
    {A : Type ℓ} (o : Option A) (e : Error) {a : A} → or_fail o e ≡ ok a → o ≡ some a
or_fail-eq-ok none e h = cc
or_fail-eq-ok (some a) e h = cc

pub ok-injective {ℓ} : {A : Type ℓ} {a b : A} → ok a ≡ ok b → a ≡ b
ok-injective h = cc

-- A guard that was passed.
pub if-err-eq-ok {ℓ} :
    {A : Type ℓ} (b : Bool) (e : Error) {r : Result A} {a : A}
    → (if b then err e else r) ≡ ok a
    → (b ≡ false) × (r ≡ ok a)
if-err-eq-ok true e h = absurd (cc h)
if-err-eq-ok false e h = (refl, h)
