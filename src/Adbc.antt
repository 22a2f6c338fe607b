-- ===== src/Adbc.antt =====
-- What the driver uses of the ADBC interface: status codes (c/arrow-adbc/adbc.h has their numbers)
-- and errors. A message is the text or the format string that the source writes, with the texts that
-- fill it; `fmt` itself is not modelled.
use adbc_driver_spark.Base.{ℕ, List, Result}
use adbc_driver_spark.Base.Text.{Text}

pub data Status : Type 0 where
  ok unknown not_implemented not_found already_exists invalid_argument invalid_state : Status
  invalid_data integrity internal io cancelled timeout unauthenticated unauthorized : Status

pub data Message : Type 0 where
  plain : Text → Message
  format : Text → List Text → Message
  count : Text → ℕ → Message
  wrap : Text → Message → Message

-- adbc.Error. No code of the driver sets `SqlState` or `Details`.
pub record Error : Type 0 where
  pub msg : Message
  pub code : Status
  pub vendor_code : ℕ

-- An `error` of Go: an adbc.Error, or any other with its text.
pub data GoError : Type 0 where
  adbc : Error → GoError
  other : Message → GoError

-- adbc.Error{Msg: msg, Code: code}
abbrev pub adbc_error : Message → Status → GoError
adbc_error m s = adbc (record { msg = m; code = s; vendor_code = 0 })

-- err.Error()
abbrev pub text_of : GoError → Message
text_of (adbc e) = e.msg
text_of (other m) = m

abbrev pub Go {ℓ} : Type ℓ → Type ℓ
Go A = Result GoError A
