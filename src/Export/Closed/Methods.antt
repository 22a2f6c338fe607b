-- ===== src/Export/Closed/Methods.antt =====
-- A function of a connection that calls a method leaves closed connections closed.
use adbc_driver_spark.Base.{
  ℕ, Bool, true, false, ◌≡◌, refl, Option, none, some, List, ok, err, get_elem?,
}
use adbc_driver_spark.Base.Text.{Text}
use adbc_driver_spark.Adbc.{Go}
use adbc_driver_spark.Connect.Config.{Config}
use adbc_driver_spark.Spark.Connection.{get_table_schema}
use adbc_driver_spark.Spark.Database.{Connection}
use adbc_driver_spark.Spark.Listing.{get_info, get_objects}
use adbc_driver_spark.Spark.Objects.{Depth}
use adbc_driver_spark.Export.Errors.{AdbcError}
use adbc_driver_spark.Export.World.{
  Env, GoConnection, World, CConn, Pointer, Output, info_stream, objects_stream, schema_output,
  answer_error, poison, cancel_context, new_context,
}
use adbc_driver_spark.Export.Connections.{
  put, Method, export_result, called, call_method, connection_call,
}
use adbc_driver_spark.Export.Connections.Calls.{with_output, maybe_output}
use adbc_driver_spark.Export.Closed.{
  ClosedAt, Stays, MaybeStays, set_connection-ClosedAt, recovered-Stays, checked-Stays,
}

-- What a method leaves is closed.
abbrev pub LeavesClosed : {A : Type 0} → Option (Connection × A) → Type 0
LeavesClosed none = Unit
LeavesClosed (some (c, _)) = c.client ≡ none

-- A method does not open a closed connection.
abbrev pub IsCalm : Method → Type 0
IsCalm m = (cfg : Config) (c : Connection) → c.client ≡ none → LeavesClosed (m cfg c)

module _ (a : ℕ) (env : Env) (e : Option AdbcError) where
  export_result-Stays :
      (fname : Text) (out : Bool) (conn : CConn) (v : World) (o : Go Output)
      → ClosedAt a v.connections
      → Stays a (export_result env fname out conn v e o)
  unfolding answer_error poison
  export_result-Stays fname out conn v (err g) t = t
  export_result-Stays fname true conn v (ok o) t = t
  export_result-Stays fname false conn v (ok o) t = t

  called-Stays :
      (fname : Text) (out : Bool) (conn : CConn) (w : World) (b : ℕ) {g : GoConnection}
      (o : Option (Connection × Go Output))
      → ClosedAt a w.connections
      → get_elem? w.connections b ≡ some g
      → (g.conn.client ≡ none → LeavesClosed o)
      → MaybeStays a (called env fname out conn w e b o)
  called-Stays fname out conn w b none t at_b f = tt
  called-Stays fname out conn w b (some (c, r)) t at_b f =
      export_result-Stays fname out conn (put w b c) r
        (set_connection-ClosedAt a w.connections b c at_b f t)

  call_method-Stays :
      (fname : Text) (out : Bool) (conn : CConn) (w : World) (b : ℕ) (m : Method)
      (o : Option GoConnection)
      → IsCalm m
      → ClosedAt a w.connections
      → get_elem? w.connections b ≡ o
      → MaybeStays a (call_method env fname out conn w e b m o)
  call_method-Stays fname out conn w b m none calm t at_b = tt
  call_method-Stays fname out conn w b m (some g) calm t at_b =
      called-Stays fname out conn w b (m g.config g.conn) t at_b (calm g.config g.conn)

  pub connection_call-Stays :
      (w : World) (p : Pointer CConn) (fname : Text) (out : Bool) (m : Method)
      → IsCalm m
      → ClosedAt a w.connections
      → Stays a (connection_call env w e p fname out m)
  unfolding connection_call new_context cancel_context
  connection_call-Stays w p fname out m calm t = checked-Stays a p w _ _ t (λ (x : CConn × ℕ).
      let (conn, b) = x in
      let (w', ctx) = new_context w conn.context in
      let conn' = record conn { context = some ctx } in
      recovered-Stays a env (some (some conn')) w' e fname _ t
        (call_method-Stays fname out conn' w' b m (get_elem? w'.connections b) calm t refl))

  -- The methods that reach the client.
  abbrev pub info_method : List ℕ → Method
  info_method l cfg c =
      with_output info_stream (get_info env.service cfg env.version env.arrow_version c l)

  abbrev pub objects_method :
      Depth → Option Text → Option Text → Option Text → Option Text → List Text → Method
  objects_method d catalog db_schema table_name column_name types cfg c =
      maybe_output objects_stream
        (get_objects env.unicode env.service cfg c d catalog db_schema table_name column_name types)

  abbrev pub schema_method : Option Text → Option Text → Text → Method
  schema_method catalog db_schema table cfg c =
      with_output schema_output (get_table_schema env.service cfg c catalog db_schema table)

  pub info_method-IsCalm : (l : List ℕ) → IsCalm (info_method l)
  unfolding get_info
  info_method-IsCalm l cfg c gone = rw gone refl

  pub objects_method-IsCalm :
      (d : Depth) (catalog db_schema table_name column_name : Option Text) (types : List Text)
      → IsCalm (objects_method d catalog db_schema table_name column_name types)
  unfolding get_objects
  objects_method-IsCalm d catalog db_schema table_name column_name types cfg c gone = rw gone refl

  pub schema_method-IsCalm :
      (catalog db_schema : Option Text) (table : Text)
      → IsCalm (schema_method catalog db_schema table)
  unfolding get_table_schema
  schema_method-IsCalm catalog db_schema table cfg c gone = rw gone refl

  -- A method that only looks at the connection.
  pub looking-Stays :
      (w : World) (p : Pointer CConn) (fname : Text) (out : Bool) (m : Connection → Go Output)
      → ClosedAt a w.connections
      → Stays a (connection_call env w e p fname out (λ cfg c. some (c, m c)))
  looking-Stays w p fname out m t =
      connection_call-Stays w p fname out (λ cfg c. some (c, m c)) (λ cfg c gone. gone) t
