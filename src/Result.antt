-- ===== src/Result.antt =====
-- Rust's `Result` with `?`, and `std::io::Error` by its kind and message.
use ingest4x.Prelude.{◌≡◌, refl, Bool, true, false, Option, none, some, ◌++◌, String}
use ingest4x.Text.{Text, codes}

pub data Result {ℓ} (E : Type 0) (A : Type ℓ) : Type ℓ where
  ok : A → Result E A
  err : E → Result E A

module _ {ℓ κ} {E : Type 0} {A : Type ℓ} {B : Type κ} where
  infixl 5 ◌>>=◌
  -- `result?`, and what follows it
  abbrev pub ◌>>=◌ : Result E A → (A → Result E B) → Result E B
  err failure >>= next = err failure
  ok value >>= next = next value

  -- Both steps of a chain that succeeds did.
  pub bind_elim {ι} :
      {P : Type ι} (first : Result E A) (next : A → Result E B) {result : B}
      → (first >>= next) ≡ ok result
      → ((value : A) → first ≡ ok value → next value ≡ ok result → P)
      → P
  bind_elim (err failure) next h use_parts = absurd (let c : ⊥ = cc in c)
  bind_elim (ok value) next h use_parts = use_parts value refl h

infixl 5 ◌>>◌
-- The same for a step that is made for its error alone.
abbrev pub ◌>>◌ {ℓ} : {E : Type 0} {B : Type ℓ} → Result E (Unit {0}) → Result E B → Result E B
check >> next = check >>= λ done. next

-- `if !b { return Err(e) }`
abbrev pub guard : {E : Type 0} → Bool → E → Result E (Unit {0})
guard b failure = elim b [ true ↦ ok tt | false ↦ err failure ]

abbrev pub map_err {ℓ} : {E F : Type 0} {A : Type ℓ} → (E → F) → Result E A → Result F A
map_err f (ok a) = ok a
map_err f (err e) = err (f e)

-- `ok_or`
abbrev pub ok_or {ℓ} : {E : Type 0} {A : Type ℓ} → Option A → E → Result E A
ok_or none e = err e
ok_or (some a) e = ok a

pub data ErrorKind : Type 0 where
  not_found invalid_data invalid_input already_exists unexpected_eof other : ErrorKind

pub record IoError : Type 0 where
  pub kind : ErrorKind
  pub message : Text

-- `io::Error::new(InvalidData, format!("...{}", path.display()))`
unfoldable pub data_error : String → Text → IoError
data_error text path = record { kind = invalid_data; message = codes text ++ path }

pub input_error : String → Text → IoError
input_error text path = record { kind = invalid_input; message = codes text ++ path }

-- `io::Error::other`
pub other_error : Text → IoError
other_error message = record { kind = other; message = message }

pub eof_error : IoError
eof_error = record { kind = unexpected_eof; message = codes "failed to fill whole buffer" }
