-- ===== src/Tests/Data.antt =====
-- Data that the tests share: character tables, a server and its streams.
use adbc_driver_spark.Base.{
  ℕ, Bool, false, ◌+◌, ◌-◌, ◌&&◌, none, some, [], ◌∷◌, ok, leb, if◌then◌else◌,
}
use adbc_driver_spark.Base.Int.{ℤ}
use adbc_driver_spark.Base.Text.{Text, Unicode, codes}
use adbc_driver_spark.Arrow.{Schema, Batch, strings}
use adbc_driver_spark.Connect.Config.{Config, initial}
use adbc_driver_spark.Connect.Reader.{Stream, Ipc, IpcEnd}
use adbc_driver_spark.Connect.Client.{Service, Client}

-- ASCII alone: no rune beyond it has a case or is a space.
abbrev pub ascii_tables : Unicode
ascii_tables = record {
  lower_text = λ s. s;
  trim_text = λ s. s;
  simple_fold = λ c.
      if leb b'A' c && leb c b'Z' then c + 32 else if leb b'a' c && leb c b'z' then c - 32 else c;
}

-- The encoder that leaves letters from 'A' on as they are.
abbrev pub letters : ℕ → Bool
letters c = leb b'A' c

abbrev pub local : Config
local = record initial { host = codes "::1"; token = codes "a+b" }

abbrev pub names_schema : Schema
names_schema = record { name = codes "catalog"; data_type = codes "string" } ∷ []

abbrev pub one_name : Batch
one_name = strings (some (codes "main") ∷ none ∷ []) ∷ []

-- Every payload holds the same two records.
abbrev pub decode_names : Text → Ipc Schema Batch
decode_names bytes = Ipc.payload names_schema (one_name ∷ one_name ∷ []) IpcEnd.at_eof

abbrev pub two_messages : Stream
two_messages =
    Stream.message (record { server_session = codes "s1"; batch = none })
      (Stream.message (record { server_session = []; batch = some (codes "x") }) Stream.eof)

abbrev pub server : Service
server = record {
  execute = λ _. ok two_messages;
  config = λ _. ok (record { server_session = codes "s1"; pairs = [] });
  analyze = λ _. ok (record { server_session = codes "s1"; version = codes "4.0.0" });
  interrupt = λ _. none;
  close_channel = λ _. none;
  decode = decode_names;
}

abbrev pub client : Client
client = record { session_id = codes "u"; server_session_id = []; closed = false; calls = [] }

-- A decimal printer for the tests.
abbrev pub print_none : ℤ → ℤ → Text
print_none v scale = []
